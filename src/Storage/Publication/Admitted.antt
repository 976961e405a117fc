-- ===== src/Storage/Publication/Admitted.antt =====
-- What a successful and a refused operation of a publication reservation say.
use nplg_dspace_mcp.Prelude.{
  ℕ, ◌+◌, ◌-◌, ◌≤◌, ◌≡◌, ◌≢◌, sym, subst, refl, ap, ◌∙◌, true, false, none, some, arith, get_elem?,
  get_elem?-set_self, lt_length, ok, err, sum_by, ◌⊎◌,
}
use nplg_dspace_mcp.Storage.Lifecycle.{Policy, PublicationBlocker, close_admission}
use nplg_dspace_mcp.Storage.Publication.{
  Reservation, Store, Observation, Reply, rejected, already_closed, deny, over_budget, admitted,
  activate, begin_reservation, release_reservation, abort, commit_locked, commit, exit_context,
}
use nplg_dspace_mcp.Storage.Publication.Accounts.{IsExact, counted, deny-errs, activate-IsExact}

-- What the store uses, has reserved and promised fits the policy and what the disk had.
abbrev pub Fits : Policy → Observation → Store → Type 0
Fits policy seen s =
    let bytes = sum_by (counted (λ r. r.reserved_bytes)) s.reservations in
    let objects = sum_by (counted (λ r. r.reserved_objects)) s.reservations in
    let inodes = sum_by (counted (λ r. r.reserved_inodes)) s.reservations in
    (s.used_bytes + s.reserved_bytes + bytes ≤ policy.maximum_bytes)
    × (seen.stored_objects + objects ≤ policy.maximum_objects)
    × (policy.minimum_free_bytes + s.reserved_bytes + bytes ≤ seen.capacity.available_bytes)
    × (policy.minimum_free_inodes + inodes ≤ seen.capacity.available_inodes)

over_budget-none :
    (policy : Policy) (seen : Observation) (s : Store) (hb ho hi b o i : ℕ)
    → over_budget policy seen s hb ho hi b o i ≡ none
    → (s.used_bytes + s.reserved_bytes + hb + b ≤ policy.maximum_bytes)
      × (seen.stored_objects + ho + o ≤ policy.maximum_objects)
      × (policy.minimum_free_bytes + s.reserved_bytes + hb + b ≤ seen.capacity.available_bytes)
      × (policy.minimum_free_inodes + hi + i ≤ seen.capacity.available_inodes)
unfolding over_budget
over_budget-none policy seen s hb ho hi b o i e = ground arith

activate-ok :
    (place : ℕ) (r : Reservation) (seen : Observation) (s : Store)
    → (activate place r seen s).0 ≡ ok tt
    → ((activate place r seen s).1 ≡ (admitted place r seen s).1)
      × (over_budget r.policy seen s s.publication_reserved_bytes s.publication_reserved_objects
            s.publication_reserved_inodes r.reserved_bytes r.reserved_objects r.reserved_inodes
          ≡ none)
      × (r.closed ≡ false)
      × (s.latch.closed_by ≡ none)
      × (seen.clock_trusted ≡ true)
unfolding activate
activate-ok place r seen s e = grind (arith, deny-errs)

admitted-Fits :
    (place : ℕ) (r : Reservation) (seen : Observation) (s : Store)
    → IsExact (admitted place r seen s).1
    → over_budget r.policy seen s s.publication_reserved_bytes s.publication_reserved_objects
        s.publication_reserved_inodes r.reserved_bytes r.reserved_objects r.reserved_inodes
      ≡ none
    → Fits r.policy seen (admitted place r seen s).1
unfolding admitted
admitted-Fits place r seen s v e =
    let fits = over_budget-none r.policy seen s _ _ _ _ _ _ e in
    (
      omega (arith, v.bytes, fits.0),
      omega (arith, v.objects, fits.1),
      omega (arith, v.bytes, fits.2),
      omega (arith, v.inodes, fits.3),
    )

activate-Fits :
    (place : ℕ) (r : Reservation) (seen : Observation) (s : Store)
    → IsExact s
    → get_elem? s.reservations place ≡ some r
    → (activate place r seen s).0 ≡ ok tt
    → Fits r.policy seen (activate place r seen s).1
      × IsExact (activate place r seen s).1
      × (s.latch.closed_by ≡ none)
      × (seen.clock_trusted ≡ true)
activate-Fits place r seen s v e done =
    let (same, within, idle, unlatched, trusted) = activate-ok place r seen s done in
    let exact = activate-IsExact place r seen s v e in
    (
      subst (Fits r.policy seen) (sym same)
          (admitted-Fits place r seen s (subst IsExact same exact) within),
      exact,
      unlatched,
      trusted,
    )

-- When a store with exact accounts lets a publication reservation of its list begin, its latch was open and its
-- clock trusted, and afterwards the accounts are exact and what is used and promised, the new reservation
-- included, fits the policy and the sampled capacity.
pub begin_reservation-Fits :
    (place : ℕ) (r : Reservation) (seen : Observation) (s : Store)
    → IsExact s
    → get_elem? s.reservations place ≡ some r
    → (begin_reservation place r seen s).0 ≡ ok tt
    → Fits r.policy seen (begin_reservation place r seen s).1
      × IsExact (begin_reservation place r seen s).1
      × (s.latch.closed_by ≡ none)
      × (seen.clock_trusted ≡ true)
unfolding begin_reservation
begin_reservation-Fits place r seen s v e done = grind (arith, activate-Fits)

-- The reply rejects with a blocker that closes the open latch, and changes nothing else.
unfoldable pub IsRefusal : Store → Reply → Type 0
IsRefusal s (reply, s') =
    (s.latch.closed_by ≡ none)
    × ((blocker : PublicationBlocker) × (reply ≡ err (rejected blocker))
        × (s'.latch.closed_by ≡ some blocker)
        × (s' ≡ record s { latch = s'.latch }))

deny-IsRefusal :
    (blocker : PublicationBlocker) (s : Store)
    → s.latch.closed_by ≡ none
    → IsRefusal s (deny blocker s)
unfolding deny close_admission IsRefusal
deny-IsRefusal blocker s unlatched = rw unlatched (refl, (blocker, refl, refl, refl))

-- While the latch is closed no reservation begins, and a begin that fails either changes nothing or rejects with a
-- blocker that closes the open latch and changes nothing else.
begin_reservation-refused :
    (place : ℕ) (r : Reservation) (seen : Observation) (s : Store)
    → ((s.latch.closed_by ≡ none) × ((begin_reservation place r seen s).0 ≡ ok tt))
      ⊎ (((begin_reservation place r seen s).0 ≢ ok tt)
          × ((begin_reservation place r seen s).1 ≡ s))
      ⊎ IsRefusal s (begin_reservation place r seen s)
unfolding begin_reservation activate admitted
begin_reservation-refused place r seen s = grind (arith, deny-IsRefusal)

-- What leaving the context of a reservation gives back.
unfoldable pub IsGivenBack : ℕ → Reservation → Store → Store → Type 0
IsGivenBack place r s s' =
    let (reply, left) = exit_context place r s' in
    (reply ≡ ok tt)
    × (left.publication_reserved_bytes ≡ s.publication_reserved_bytes)
    × (left.publication_reserved_objects ≡ s.publication_reserved_objects)
    × (left.publication_reserved_inodes ≡ s.publication_reserved_inodes)
    × (left.latch ≡ s.latch)

admitted-IsGivenBack :
    (place : ℕ) (r r' : Reservation) (seen : Observation) (s : Store)
    → get_elem? s.reservations place ≡ some r
    → r.closed ≡ false
    → get_elem? (admitted place r seen s).1.reservations place ≡ some r'
    → IsGivenBack place r' s (admitted place r seen s).1
unfolding admitted IsGivenBack exit_context abort release_reservation
admitted-IsGivenBack place r r' seen s e fresh later =
    let found =
      get_elem?-set_self s.reservations place
        (record r {
          active = true;
          registered = true;
          baseline_used_bytes = s.used_bytes;
          baseline_stored_objects = seen.stored_objects;
          baseline_available_inodes = seen.capacity.available_inodes;
        })
        (lt_length s.reservations place e) in
    ground (arith, found)

begin_reservation-same :
    (place : ℕ) (r : Reservation) (seen : Observation) (s : Store)
    → (begin_reservation place r seen s).0 ≡ ok tt
    → ((begin_reservation place r seen s).1 ≡ (admitted place r seen s).1) × (r.closed ≡ false)
unfolding begin_reservation
begin_reservation-same place r seen s e = grind (arith, activate-ok)

-- A reservation that began and whose context is then left gives back all that it took: the promised totals are
-- those from before.
begin-exit_context :
    (place : ℕ) (r r' : Reservation) (seen : Observation) (s : Store)
    → get_elem? s.reservations place ≡ some r
    → (begin_reservation place r seen s).0 ≡ ok tt
    → get_elem? (begin_reservation place r seen s).1.reservations place ≡ some r'
    → IsGivenBack place r' s (begin_reservation place r seen s).1
begin-exit_context place r r' seen s e done later =
    let (same, fresh) = begin_reservation-same place r seen s done in
    let later' = subst (λ x. get_elem? x.reservations place ≡ some r') same later in
    subst (IsGivenBack place r' s) (sym same)
      (admitted-IsGivenBack place r r' seen s e fresh later')

commit_locked-ok :
    (place : ℕ) (r : Reservation) (bytes objects inodes : ℕ) (seen : Observation) (s : Store)
    → (commit_locked place r bytes objects inodes seen s).0 ≡ ok tt
    → ((commit_locked place r bytes objects inodes seen s).1 ≡ (release_reservation place r s).1)
unfolding commit_locked
commit_locked-ok place r bytes objects inodes seen s e = grind (arith, deny-errs)

commit-ok :
    (place : ℕ) (r : Reservation) (bytes objects inodes : ℕ) (seen : Observation) (s : Store)
    → (commit place r bytes objects inodes seen s).0 ≡ ok tt
    → ((commit place r bytes objects inodes seen s).1 ≡ (release_reservation place r s).1)
      × (r.registered ≡ true)
      × (bytes ≤ r.reserved_bytes)
      × (objects ≤ r.reserved_objects)
      × (inodes ≤ r.reserved_inodes)
unfolding commit
commit-ok place r bytes objects inodes seen s e =
    ground (arith, commit_locked-ok place r bytes objects inodes seen s)

release_reservation-closes :
    (place : ℕ) (r r' : Reservation) (s : Store)
    → get_elem? s.reservations place ≡ some r
    → r.registered ≡ true
    → get_elem? (release_reservation place r s).1.reservations place ≡ some r'
    → ((release_reservation place r s).1.publication_reserved_bytes
        ≡ s.publication_reserved_bytes - r.reserved_bytes)
      × (r'.closed ≡ true)
unfolding release_reservation
release_reservation-closes place r r' s e live later =
    let found =
      get_elem?-set_self s.reservations place
        (record r { active = false; closed = true; registered = false })
        (lt_length s.reservations place e) in
    ground (arith, found)

-- A closed reservation neither aborts nor commits again, and the attempt changes nothing.
closed-refuses :
    (place : ℕ) (r : Reservation) (bytes objects inodes : ℕ) (seen : Observation) (s : Store)
    → r.closed ≡ true
    → (abort place r s ≡ (err already_closed, s))
      × (commit place r bytes objects inodes seen s ≡ (err already_closed, s))
unfolding abort commit
closed-refuses place r bytes objects inodes seen s e = (rw e refl, rw e refl)

-- A commit that succeeds was of a registered reservation and within what it reserved, gives back its bytes and
-- leaves its place closed, so that a second commit or abort fails and changes nothing.
commit-closes :
    (place : ℕ) (r r' : Reservation) (bytes objects inodes : ℕ) (seen : Observation) (s : Store)
    → get_elem? s.reservations place ≡ some r
    → (commit place r bytes objects inodes seen s).0 ≡ ok tt
    → get_elem? (commit place r bytes objects inodes seen s).1.reservations place ≡ some r'
    → let s' = (commit place r bytes objects inodes seen s).1 in
      (r.registered ≡ true)
      × (bytes ≤ r.reserved_bytes)
      × (objects ≤ r.reserved_objects)
      × (inodes ≤ r.reserved_inodes)
      × (s'.publication_reserved_bytes ≡ s.publication_reserved_bytes - r.reserved_bytes)
      × (abort place r' s' ≡ (err already_closed, s'))
      × (commit place r' bytes objects inodes seen s' ≡ (err already_closed, s'))
commit-closes place r r' bytes objects inodes seen s e done later =
    let (same, live, b, o, i) = commit-ok place r bytes objects inodes seen s done in
    let later' = subst (λ x. get_elem? x.reservations place ≡ some r') same later in
    let (left, shut) = release_reservation-closes place r r' s e live later' in
    let (aborts, commits) =
      closed-refuses place r' bytes objects inodes seen
        (commit place r bytes objects inodes seen s).1 shut in
    (live, b, o, i, ap (λ x. x.publication_reserved_bytes) same ∙ left, aborts, commits)
