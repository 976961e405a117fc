-- ===== src/Resource/Scopes.antt =====
-- A request's scope: what the request reserved in it is given back, whole, when it closes.
use mathlib.Core.List.{reverse, reverse-append}
use nplg_dspace_mcp.Prelude.{
  ℕ, suc, ◌+◌, ◌≡◌, ◌≢◌, ◌⊎◌, inl, inr, true, false, Option, none, some, List, [], ◌∷◌, ◌++◌, arith,
  length, All, get_elem?, set, get_elem?-set_self, get_elem?-set_ne, get_elem?-append,
  get_elem?-append_end, lt_length, ok, Argument, int, pos, negsuc, Bool-cases, refl, ◌∙◌, ltb, ◌==◌,
}
use nplg_dspace_mcp.Resource.{
  Reservation, Admission, Scope, granted, try_reserve, shrink, release, release_each, close_scope,
}
use nplg_dspace_mcp.Resource.Budget.{held, IsExact, try_reserve-IsExact, held-le-live_bytes}
use nplg_dspace_mcp.Resource.Outcomes.{
  shrink-IsExact, release-IsExact, release-live, shrink-cases, release-cases,
}

-- The places hold live reservations, and no place is listed twice.
abbrev pub Owned : List ℕ → List Reservation → Type 0
Owned [] ledger = Unit
Owned (i ∷ places) ledger =
    ((r : Reservation) × (get_elem? ledger i ≡ some r) × (r.released ≡ false))
    × All (λ j. j ≢ i) places
    × Owned places ledger

-- The bytes that the reservations at some places hold.
abbrev pub held_at : List ℕ → List Reservation → ℕ
held_at [] ledger = 0
held_at (i ∷ places) ledger =
    (elim (get_elem? ledger i) [ none ↦ 0 | some r ↦ held r ]) + held_at places ledger

Owned-set :
    (places : List ℕ) (ledger : List Reservation) (i : ℕ) (r : Reservation)
    → All (λ j. j ≢ i) places
    → Owned places ledger
    → Owned places (set ledger i r)
Owned-set [] ledger i r ne h = tt
Owned-set (j ∷ places) ledger i r ne h = (
  (h.0.0, rw (get_elem?-set_ne ledger {i = i} {j = j} r (λ e. ne.0 (ground arith))) h.0.1, h.0.2),
  h.1,
  Owned-set places ledger i r ne.1 h.2,
)

held_at-set :
    (places : List ℕ) (ledger : List Reservation) (i : ℕ) (r : Reservation)
    → All (λ j. j ≢ i) places
    → held_at places (set ledger i r) ≡ held_at places ledger
held_at-set [] ledger i r ne = refl
held_at-set (j ∷ places) ledger i r ne =
    rw (get_elem?-set_ne ledger {i = i} {j = j} r (λ e. ne.0 (ground arith)))
      (rw (held_at-set places ledger i r ne.1))

-- Releasing the places of a scope, one after another, succeeds and returns exactly what they hold.
pub release_each_all :
    (places : List ℕ) (a : Admission)
    → IsExact a
    → Owned places a.ledger
    → ((release_each places a).0 ≡ ok tt)
      × IsExact (release_each places a).1
      × ((release_each places a).1.active_bytes + held_at places a.ledger ≡ a.active_bytes)
      × ((release_each places a).1.capacity_bytes ≡ a.capacity_bytes)
unfolding release_each
release_each_all [] a v h = (refl, v, omega arith, refl)
release_each_all (i ∷ places) a v h =
    let r = h.0.0 in
    let freed = release-live i a v h.0.1 h.0.2 in
    let a' = (release i a).1 in
    let tail : Owned places a'.ledger =
      rw freed.2 (Owned-set places a.ledger i (record r { released = true }) h.1 h.2) in
    let same : held_at places a'.ledger ≡ held_at places a.ledger =
      rw freed.2 (held_at-set places a.ledger i (record r { released = true }) h.1) in
    let less : a'.active_bytes + held r ≡ a.active_bytes =
      rw freed.2 (ground (arith, h.0.2, held-le-live_bytes a.ledger i h.0.1, v.exact)) in
    let cap : a'.capacity_bytes ≡ a.capacity_bytes = rw freed.2 in
    let rest = release_each_all places a' freed.1 tail in
    rw (freed.0, release_each)
      (rest.0, rest.1, rw h.0.1 (omega (arith, rest.2, same, less)), rest.3 ∙ cap)

abbrev scope_of : Option Scope → Scope
scope_of none = []
scope_of (some places) = places

-- What the request does in its scope, and what other requests may do meanwhile.
pub data Step (scope : Scope) (a : Admission) : Scope → Admission → Type 0 where
  -- the request reserves, and its scope is then what the context variable holds
  reserve :
      (n : Argument)
      → Step scope a (scope_of (try_reserve n (some scope) a).1) (try_reserve n (some scope) a).2
  -- anyone shrinks any reservation
  resize : (i : ℕ) (n : Argument) → Step scope a scope (shrink i n a).1
  -- another request reserves, in a scope of its own or in none
  reserve_elsewhere :
      (n : Argument) (theirs : Option Scope) → Step scope a scope (try_reserve n theirs a).2
  -- another request releases a reservation that is not of this scope
  release_elsewhere :
      (i : ℕ) → All (λ j. j ≢ i) (reverse scope) → Step scope a scope (release i a).1

pub data Reach (scope : Scope) (a : Admission) : Scope → Admission → Type 0 where
  here : Reach scope a scope a
  next : {s t : Scope} {b c : Admission} → Reach scope a s b → Step s b t c → Reach scope a t c

pub record IsOwned (scope : Scope) (a : Admission) : Type 0 where
  pub exact : IsExact a
  pub owned : Owned (reverse scope) a.ledger

Owned-append :
    (places : List ℕ) (ledger : List Reservation) (r : Reservation)
    → Owned places ledger
    → Owned places (ledger ++ r ∷ [])
Owned-append [] ledger r h = tt
Owned-append (i ∷ places) ledger r h =
    ((h.0.0, get_elem?-append ledger i r h.0.1, h.0.2), h.1, Owned-append places ledger r h.2)

fresh :
    (places : List ℕ) (ledger : List Reservation)
    → Owned places ledger
    → All (λ j. j ≢ length ledger) places
fresh [] ledger h = tt
fresh (i ∷ places) ledger h =
    ((λ e. ground (arith, lt_length ledger i h.0.1)), fresh places ledger h.2)

-- A reservation is refused and changes nothing, or it is granted.
try_reserve-cases :
    (n : Argument) (scope : Option Scope) (a : Admission)
    → (((try_reserve n scope a).1 ≡ scope) × ((try_reserve n scope a).2 ≡ a))
      ⊎ ((k : ℕ) × ((try_reserve n scope a).1 ≡ (granted k scope a).1)
          × ((try_reserve n scope a).2 ≡ (granted k scope a).2))
unfolding try_reserve
try_reserve-cases (int (pos (suc k))) scope a =
    elim (Bool-cases (ltb a.capacity_bytes (suc k + a.active_bytes))) [
      | inl full ↦ inl (rw full, rw full)
      | inr room ↦ inr (suc k, rw room, rw room)
    ]
try_reserve-cases (int (negsuc k)) scope a = inl (refl, refl)
try_reserve-cases _ scope a = inl (refl, refl)

try_reserve-Owned :
    (n : Argument) (theirs : Option Scope) (places : List ℕ) (a : Admission)
    → Owned places a.ledger
    → Owned places (try_reserve n theirs a).2.ledger
try_reserve-Owned n theirs places a h = elim (try_reserve-cases n theirs a) [
  | inl (_, same) ↦ rw same h
  | inr (k, _, done) ↦ rw done (unfold granted in Owned-append places a.ledger _ h)
]

reserve-Owned :
    (n : Argument) (scope : Scope) (a : Admission)
    → Owned (reverse scope) a.ledger
    → Owned
        (reverse (scope_of (try_reserve n (some scope) a).1))
        (try_reserve n (some scope) a).2.ledger
reserve-Owned n scope a h = elim (try_reserve-cases n (some scope) a) [
  | inl (left, same) ↦ rw (left, same) h
  | inr (k, left, done) ↦
      rw (left, done)
        (unfold granted in
          rw reverse-append (
            (_, get_elem?-append_end a.ledger _, refl),
            fresh (reverse scope) a.ledger h,
            Owned-append (reverse scope) a.ledger _ h,
          ))
]

Owned-set_live :
    (places : List ℕ) (ledger : List Reservation) (i : ℕ) (r : Reservation)
    → r.released ≡ false
    → Owned places ledger
    → Owned places (set ledger i r)
Owned-set_live [] ledger i r live h = tt
Owned-set_live (j ∷ places) ledger i r live h =
    (at_head, h.1, Owned-set_live places ledger i r live h.2)
  where
    at_head : (q : Reservation) × (get_elem? (set ledger i r) j ≡ some q) × (q.released ≡ false)
    at_head = elim (Bool-cases (i == j)) [
      | inl e ↦
          let same : i ≡ j = ground arith in
          (
            r,
            rw (← same) (get_elem?-set_self ledger i r (rw same (lt_length ledger j h.0.1))),
            live,
          )
      | inr ne ↦
          (h.0.0, rw (get_elem?-set_ne ledger {i = i} {j = j} r (λ e. ground arith)) h.0.1, h.0.2)
    ]

shrink-Owned :
    (places : List ℕ) (i : ℕ) (n : Argument) (a : Admission)
    → IsExact a
    → Owned places a.ledger
    → Owned places (shrink i n a).1.ledger
shrink-Owned places i n a v h = elim (shrink-cases i n a v) [
  | inl same ↦ rw same h
  | inr (r, live, done) ↦ rw done (Owned-set_live places a.ledger i r live h)
]

release-Owned :
    (places : List ℕ) (i : ℕ) (a : Admission)
    → IsExact a
    → All (λ j. j ≢ i) places
    → Owned places a.ledger
    → Owned places (release i a).1.ledger
release-Owned places i a v ne h = elim (release-cases i a v) [
  | inl same ↦ rw same h
  | inr (r, done) ↦ rw done (Owned-set places a.ledger i r ne h)
]

Step-IsOwned :
    {s : Scope} {a : Admission} {t : Scope} {b : Admission}
    → Step s a t b
    → IsOwned s a
    → IsOwned t b
Step-IsOwned {s} {a = a} (reserve n) v = record {
  exact = try_reserve-IsExact n (some s) a v.exact;
  owned = reserve-Owned n s a v.owned;
}
Step-IsOwned {s} {a = a} (resize i n) v = record {
  exact = shrink-IsExact i n a v.exact;
  owned = shrink-Owned (reverse s) i n a v.exact v.owned;
}
Step-IsOwned {s} {a = a} (reserve_elsewhere n theirs) v = record {
  exact = try_reserve-IsExact n theirs a v.exact;
  owned = try_reserve-Owned n theirs (reverse s) a v.owned;
}
Step-IsOwned {s} {a = a} (release_elsewhere i ne) v = record {
  exact = release-IsExact i a v.exact;
  owned = release-Owned (reverse s) i a v.exact ne v.owned;
}

Reach-IsOwned :
    {s : Scope} {a : Admission} {t : Scope} {b : Admission}
    → Reach s a t b
    → IsOwned s a
    → IsOwned t b
Reach-IsOwned here v = v
Reach-IsOwned (next r st) v = Step-IsOwned st (Reach-IsOwned r v)

-- A request scope opened on an exact budget closes without raising after any reservations and shrinks in it and
-- any calls of other requests, when none of its own reservations was released before; closing returns exactly what
-- the scope holds, and the budget stays exact.
pub close_scope_all :
    {scope : Scope} {a b : Admission}
    → IsExact a
    → Reach [] a scope b
    → ((close_scope scope b).0 ≡ ok tt)
      × IsExact (close_scope scope b).1
      × ((close_scope scope b).1.active_bytes + held_at (reverse scope) b.ledger ≡ b.active_bytes)
      × ((close_scope scope b).1.capacity_bytes ≡ b.capacity_bytes)
unfolding close_scope
close_scope_all {scope} {a} {b} v r =
    let w = Reach-IsOwned r (record { exact = v; owned = tt }) in
    release_each_all (reverse scope) b w.exact w.owned
