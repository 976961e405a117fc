-- ===== src/Resource/Budget.antt =====
-- The budget is exact: the active bytes are those of the reservations not yet released.
use nplg_dspace_mcp.Prelude.{
  ℕ, zero, suc, ◌+◌, ◌-◌, ◌≤◌, ◌<◌, ◌≡◌, ◌⊎◌, Option, none, some, List, [], ◌∷◌, ◌++◌, arith,
  if◌then◌else◌, length, get_elem?, set, ok, Argument, int, pos, negsuc,
}
use nplg_dspace_mcp.Resource.{
  Reservation, Admission, Scope, granted, try_reserve, return_reserved_bytes, written,
}

-- What a reservation holds.
abbrev pub held : Reservation → ℕ
held r = if r.released then 0 else r.reserved_bytes

unfoldable pub live_bytes : List Reservation → ℕ
live_bytes [] = 0
live_bytes (r ∷ rs) = held r + live_bytes rs

-- Every reservation is of a positive size.
unfoldable pub AllPositive : List Reservation → Type 0
AllPositive [] = Unit
AllPositive (r ∷ rs) = (0 < r.reserved_bytes) × AllPositive rs

pub record IsExact (a : Admission) : Type 0 where
  pub positive : 0 < a.capacity_bytes
  pub within : a.active_bytes ≤ a.capacity_bytes
  pub exact : a.active_bytes ≡ live_bytes a.ledger
  pub sized : AllPositive a.ledger

pub live_bytes-set :
    (rs : List Reservation) (i : ℕ) (old new : Reservation)
    → get_elem? rs i ≡ some old
    → live_bytes (set rs i new) + held old ≡ live_bytes rs + held new
unfolding live_bytes
live_bytes-set [] i old new e = ground arith
live_bytes-set (r ∷ rs) zero old new e = ground arith
live_bytes-set (r ∷ rs) (suc i) old new e = omega (arith, live_bytes-set rs i old new e)

pub live_bytes-append :
    (rs : List Reservation) (r : Reservation) → live_bytes (rs ++ r ∷ []) ≡ live_bytes rs + held r
unfolding live_bytes
live_bytes-append [] r = omega arith
live_bytes-append (x ∷ rs) r = omega (arith, live_bytes-append rs r)

AllPositive-append :
    (rs : List Reservation) (r : Reservation)
    → AllPositive rs
    → 0 < r.reserved_bytes
    → AllPositive (rs ++ r ∷ [])
unfolding AllPositive
AllPositive-append [] r h p = (p, tt)
AllPositive-append (x ∷ rs) r h p = (h.0, AllPositive-append rs r h.1 p)

AllPositive-set :
    (rs : List Reservation) (i : ℕ) (r : Reservation)
    → AllPositive rs
    → 0 < r.reserved_bytes
    → AllPositive (set rs i r)
unfolding AllPositive
AllPositive-set [] i r h p = tt
AllPositive-set (x ∷ rs) zero r h p = (p, h.1)
AllPositive-set (x ∷ rs) (suc i) r h p = (h.0, AllPositive-set rs i r h.1 p)

pub AllPositive-get :
    (rs : List Reservation) (i : ℕ) {r : Reservation}
    → AllPositive rs
    → get_elem? rs i ≡ some r
    → 0 < r.reserved_bytes
unfolding AllPositive
AllPositive-get [] i h e = ground arith
AllPositive-get (x ∷ rs) zero h e = ground arith
AllPositive-get (x ∷ rs) (suc i) h e = AllPositive-get rs i h.1 e

-- A reservation holds no more than is active.
pub held-le-live_bytes :
    (rs : List Reservation) (i : ℕ) {r : Reservation}
    → get_elem? rs i ≡ some r
    → held r ≤ live_bytes rs
unfolding live_bytes
held-le-live_bytes [] i e = ground arith
held-le-live_bytes (x ∷ rs) zero e = ground arith
held-le-live_bytes (x ∷ rs) (suc i) e = omega (arith, held-le-live_bytes rs i e)

granted-IsExact :
    (n : ℕ) (scope : Option Scope) (a : Admission)
    → IsExact a
    → suc n + a.active_bytes ≤ a.capacity_bytes
    → IsExact (granted (suc n) scope a).2
unfolding granted
granted-IsExact n scope a v fits = record {
  positive = v.positive;
  within = omega arith;
  exact = rw live_bytes-append (omega (arith, v.exact));
  sized = AllPositive-append a.ledger _ v.sized (omega arith);
}

granted-live :
    (n : ℕ) (scope : Option Scope) (a : Admission)
    → live_bytes (granted (suc n) scope a).2.ledger ≡ live_bytes a.ledger + suc n
unfolding granted
granted-live n scope a = rw live_bytes-append (omega arith)

-- On an exact budget a positive request is granted exactly when it fits beside the bytes that live reservations
-- hold; a grant is a new place, adds its bytes and keeps the budget exact, and a refusal changes nothing.
try_reserve_fits :
    (n : ℕ) (scope : Option Scope) (a : Admission)
    → IsExact a
    → let (r, _, a') = try_reserve (int (pos (suc n))) scope a in
      ((suc n + live_bytes a.ledger ≤ a.capacity_bytes)
        × (r ≡ ok (some (length a.ledger)))
        × (live_bytes a'.ledger ≡ live_bytes a.ledger + suc n)
        × IsExact a')
      ⊎ ((a.capacity_bytes < suc n + live_bytes a.ledger) × (r ≡ ok none) × (a' ≡ a))
unfolding try_reserve
try_reserve_fits n scope a v =
    ground (arith, v.exact, granted-IsExact n scope a v, granted-live n scope a)

pub try_reserve-IsExact :
    (n : Argument) (scope : Option Scope) (a : Admission)
    → IsExact a
    → IsExact (try_reserve n scope a).2
unfolding try_reserve
try_reserve-IsExact (int (pos (suc n))) scope a v = ground (arith, granted-IsExact n scope a v)
try_reserve-IsExact (int (negsuc n)) scope a v = v
try_reserve-IsExact _ scope a v = v

-- A reservation of the ledger gives back `old - new` bytes, and its cell is overwritten.
pub written-IsExact :
    (place bytes : ℕ) (old new : Reservation) (a : Admission)
    → IsExact a
    → get_elem? a.ledger place ≡ some old
    → held old ≡ held new + bytes
    → 0 < bytes
    → 0 < new.reserved_bytes
    → ((written place new (return_reserved_bytes bytes a)).0 ≡ ok tt)
      × IsExact (written place new (return_reserved_bytes bytes a)).1
      × ((written place new (return_reserved_bytes bytes a)).1
          ≡ record a { active_bytes = a.active_bytes - bytes; ledger = set a.ledger place new })
unfolding written return_reserved_bytes
written-IsExact place bytes old new a v e eq p q =
    let enough : bytes ≤ a.active_bytes =
      omega (arith, held-le-live_bytes a.ledger place e, v.exact) in
    let live = live_bytes-set a.ledger place old new e in
    let sized = AllPositive-set a.ledger place new v.sized q in
    (ground arith, ground (arith, v.exact), ground arith)
