-- ===== src/Resource.antt =====
-- src/nplg_mcp/resource_admission.py: a byte budget shared by the reservations of inline responses.
-- Reservations are shared objects, so the budget keeps them all in one ledger and a reservation is
-- known by its place there. Each critical section runs under the lock, so it is one step.
pub mod Weights
pub mod Budget
pub mod Outcomes
pub mod Scopes
mod Tests
use mathlib.Core.List.{reverse}
use nplg_dspace_mcp.Prelude.{
  ℕ, suc, ◌+◌, ◌-◌, ◌==◌, ◌||◌, Bool, true, false, Option, none, some, List, [], ◌∷◌, ◌++◌, ltb,
  leb, if◌then◌else◌, Result, ok, err, pos, Argument, int, length, get_elem?, set,
}

-- `InlineResourceReservation`
pub record Reservation : Type 0 where
  pub reserved_bytes : ℕ
  pub released : Bool
  pub request_scoped : Bool

-- `InlineResourceAdmission` with every reservation that it has handed out, oldest first
pub record Admission : Type 0 where
  pub capacity_bytes : ℕ
  pub active_bytes : ℕ
  pub ledger : List Reservation

-- `_InlineResourceRequestScope.reservations`: places in the ledger
abbrev pub Scope : Type 0
Scope = List ℕ

pub data AdmissionError : Type 0 where
  capacity_not_positive request_not_positive return_not_positive : AdmissionError
  accounting_unbalanced release_unbalanced resize_released only_shrinks : AdmissionError
  -- a place that holds no reservation; no Python reference can be one
  unknown_reservation : AdmissionError

-- `__init__`
unfoldable pub inline_resource_admission : Argument → Result AdmissionError Admission
inline_resource_admission (int (pos (suc n))) =
    ok (record { capacity_bytes = suc n; active_bytes = 0; ledger = [] })
inline_resource_admission _ = err capacity_not_positive

-- the reservation that a grant appends, and its place in the scope of the request
unfoldable pub granted : ℕ → Option Scope → Admission → Option ℕ × Option Scope × Admission
granted bytes scope a =
    let place = length a.ledger in
    (
      some place,
      elim scope [ none ↦ none | some places ↦ some (places ++ place ∷ []) ],
      record a {
        active_bytes = a.active_bytes + bytes;
        ledger =
            a.ledger
            ++ record {
              reserved_bytes = bytes;
              released = false;
              request_scoped = elim scope [ none ↦ false | some _ ↦ true ];
            }
              ∷ [];
      },
    )

-- `try_reserve`; the scope is what the context variable holds
unfoldable pub try_reserve :
    Argument
    → Option Scope
    → Admission
    → Result AdmissionError (Option ℕ) × Option Scope × Admission
unfolding granted
try_reserve (int (pos (suc n))) scope a =
    if ltb a.capacity_bytes (suc n + a.active_bytes)
    then (ok none, scope, a)
    else (let (r, scope', a') = granted (suc n) scope a in (ok r, scope', a'))
try_reserve _ scope a = (err request_not_positive, scope, a)

-- `return_reserved_bytes`
unfoldable pub return_reserved_bytes : ℕ → Admission → Result AdmissionError (Unit {0}) × Admission
return_reserved_bytes bytes a =
    if leb bytes 0
    then (err return_not_positive, a)
    else if ltb a.active_bytes bytes
    then (err accounting_unbalanced, a)
    else (ok tt, record a { active_bytes = a.active_bytes - bytes })

-- the assignment to a reservation after its bytes went back; a raise leaves it as it was
unfoldable pub written :
    ℕ
    → Reservation
    → Result AdmissionError (Unit {0}) × Admission
    → Result AdmissionError (Unit {0}) × Admission
written place v (ok t, a) = (ok t, record a { ledger = set a.ledger place v })
written place v (err e, a) = (err e, a)

unfoldable pub shrink_to :
    ℕ → ℕ → Reservation → Admission → Result AdmissionError (Unit {0}) × Admission
unfolding written return_reserved_bytes
shrink_to place retained r a =
    if leb retained 0 || ltb r.reserved_bytes retained
    then (err only_shrinks, a)
    else if (r.reserved_bytes - retained) == 0
    then (ok tt, a)
    else written place (record r { reserved_bytes = retained })
        (return_reserved_bytes (r.reserved_bytes - retained) a)

shrink_reservation :
    ℕ → Argument → Reservation → Admission → Result AdmissionError (Unit {0}) × Admission
unfolding shrink_to
shrink_reservation place (int (pos retained)) r a =
    if r.released then (err resize_released, a) else shrink_to place retained r a
shrink_reservation place _ r a =
    if r.released then (err resize_released, a) else (err only_shrinks, a)

-- `shrink`
unfoldable pub shrink : ℕ → Argument → Admission → Result AdmissionError (Unit {0}) × Admission
unfolding shrink_reservation
shrink place retained a = elim (get_elem? a.ledger place) [
  | none ↦ (err unknown_reservation, a)
  | some r ↦ shrink_reservation place retained r a
]

release_reservation : ℕ → Reservation → Admission → Result AdmissionError (Unit {0}) × Admission
unfolding written return_reserved_bytes
release_reservation place r a =
    if r.released
    then (err release_unbalanced, a)
    else written place (record r { released = true }) (return_reserved_bytes r.reserved_bytes a)

-- `release`
unfoldable pub release : ℕ → Admission → Result AdmissionError (Unit {0}) × Admission
unfolding release_reservation
release place a = elim (get_elem? a.ledger place) [
  | none ↦ (err unknown_reservation, a)
  | some r ↦ release_reservation place r a
]

-- the loop of the `finally`: the first raise ends it
unfoldable pub release_each : List ℕ → Admission → Result AdmissionError (Unit {0}) × Admission
release_each [] a = (ok tt, a)
release_each (place ∷ places) a =
    let (r, a') = release place a in elim r [ err e ↦ (err e, a') | ok _ ↦ release_each places a' ]

-- the end of `request_scope`
unfoldable pub close_scope : Scope → Admission → Result AdmissionError (Unit {0}) × Admission
unfolding release_each
close_scope scope a = release_each (reverse scope) a
