-- ===== src/Resource/Outcomes.antt =====
-- What a release or a shrink of one reservation does to an exact budget.
use nplg_dspace_mcp.Prelude.{
  ℕ, ◌-◌, ◌<◌, ◌≡◌, ◌⊎◌, inl, inr, true, false, some, arith, get_elem?, set, Result, ok, err,
  Argument, int, other, pos, negsuc, Option-cases, Bool-cases, ◌∙◌,
}
use nplg_dspace_mcp.Resource.{
  Reservation, Admission, AdmissionError, release_unbalanced, resize_released, only_shrinks, shrink,
  shrink_reservation, shrink_to, release_reservation, release,
}
use nplg_dspace_mcp.Resource.Budget.{IsExact, AllPositive-get, written-IsExact}

-- What one call does to a reservation in the ledger: it raises and changes nothing, or the reservation
-- becomes `new` and the difference goes back to the budget.
abbrev pub Replaced :
    ℕ → Reservation → ℕ → Admission → Result AdmissionError (Unit {0}) × Admission → Type 0
Replaced place new bytes a (r, a') =
    (r ≡ ok tt)
    × IsExact a'
    × (a' ≡ record a { active_bytes = a.active_bytes - bytes; ledger = set a.ledger place new })

pub release-live :
    (place : ℕ) (a : Admission) {r : Reservation}
    → IsExact a
    → get_elem? a.ledger place ≡ some r
    → r.released ≡ false
    → Replaced place (record r { released = true }) r.reserved_bytes a (release place a)
unfolding release release_reservation
release-live place a {r} v e live =
    let positive = AllPositive-get a.ledger place v.sized e in
    rw (e, release)
      (rw (live, release_reservation)
        (written-IsExact place r.reserved_bytes r (record r { released = true }) a v e
          (ground arith) positive positive))

release-dead :
    (place : ℕ) (a : Admission) {r : Reservation}
    → get_elem? a.ledger place ≡ some r
    → r.released ≡ true
    → release place a ≡ (err release_unbalanced, a)
unfolding release release_reservation
release-dead place a {r} e dead = rw (e, release) (rw (dead, release_reservation))

-- On an exact budget, the release of a live reservation succeeds, returns exactly its bytes and keeps the budget
-- exact; the release of one that was released raises and changes nothing.
release_once :
    (place : ℕ) (a : Admission) {r : Reservation}
    → IsExact a
    → get_elem? a.ledger place ≡ some r
    → ((r.released ≡ false)
        × Replaced place (record r { released = true }) r.reserved_bytes a (release place a))
      ⊎ ((r.released ≡ true) × (release place a ≡ (err release_unbalanced, a)))
release_once place a {r} v e = elim (Bool-cases r.released) [
  | inl dead ↦ inr (dead, release-dead place a e dead)
  | inr live ↦ inl (live, release-live place a v e live)
]

pub release-IsExact : (place : ℕ) (a : Admission) → IsExact a → IsExact (release place a).1
release-IsExact place a v = elim (Option-cases (get_elem? a.ledger place)) [
  | inl e ↦ unfold release in rw (e, release) v
  | inr (r, e) ↦ elim (release_once place a v e) [
    | inl (_, done) ↦ done.1
    | inr (_, same) ↦ rw same v
  ]
]

shrink_to-live :
    (place retained : ℕ) (r : Reservation) (a : Admission)
    → IsExact a
    → get_elem? a.ledger place ≡ some r
    → r.released ≡ false
    → 0 < retained
    → retained < r.reserved_bytes
    → Replaced place
        (record r { reserved_bytes = retained })
        (r.reserved_bytes - retained)
        a
        (shrink_to place retained r a)
unfolding shrink_to
shrink_to-live place retained r a v e live p q = ground (
  arith,
  written-IsExact place (r.reserved_bytes - retained) r (record r { reserved_bytes = retained }) a v
      e,
)

shrink_to-refused :
    (place retained : ℕ) (r : Reservation) (a : Admission)
    → (retained ≡ 0) ⊎ (r.reserved_bytes < retained)
    → shrink_to place retained r a ≡ (err only_shrinks, a)
unfolding shrink_to
shrink_to-refused place retained r a h = ground arith

shrink_to-same :
    (place retained : ℕ) (r : Reservation) (a : Admission)
    → 0 < retained
    → retained ≡ r.reserved_bytes
    → shrink_to place retained r a ≡ (ok tt, a)
unfolding shrink_to
shrink_to-same place retained r a p e = ground arith

shrink-live :
    (place n : ℕ) (a : Admission) {r : Reservation}
    → get_elem? a.ledger place ≡ some r
    → r.released ≡ false
    → shrink place (int (pos n)) a ≡ shrink_to place n r a
unfolding shrink shrink_reservation
shrink-live place n a {r} e live = rw (e, shrink) (ground arith)

shrink-dead :
    (place n : ℕ) (a : Admission) {r : Reservation}
    → get_elem? a.ledger place ≡ some r
    → r.released ≡ true
    → shrink place (int (pos n)) a ≡ (err resize_released, a)
unfolding shrink shrink_reservation
shrink-dead place n a {r} e dead = rw (e, shrink) (ground arith)

three_way : (n m : ℕ) → ((0 < n) × (n < m)) ⊎ ((0 < n) × (n ≡ m)) ⊎ ((n ≡ 0) ⊎ (m < n))
three_way n m = grind arith

-- On an exact budget, shrinking a live reservation to a smaller positive size returns exactly the difference and
-- keeps the budget exact, to its own size it changes nothing, and shrinking a released reservation, or to zero or
-- to more, raises and changes nothing.
shrink_outcome :
    (place n : ℕ) (a : Admission) {r : Reservation}
    → IsExact a
    → get_elem? a.ledger place ≡ some r
    → ((r.released ≡ false)
        × (0 < n)
        × (n < r.reserved_bytes)
        × Replaced place
            (record r { reserved_bytes = n })
            (r.reserved_bytes - n)
            a
            (shrink place (int (pos n)) a))
      ⊎ ((r.released ≡ false)
          × (0 < n)
          × (n ≡ r.reserved_bytes)
          × (shrink place (int (pos n)) a ≡ (ok tt, a)))
      ⊎ (((r.released ≡ true) ⊎ (n ≡ 0) ⊎ (r.reserved_bytes < n))
          × (e : AdmissionError) × (shrink place (int (pos n)) a ≡ (err e, a)))
shrink_outcome place n a {r} v e = elim (Bool-cases r.released) [
  | inl dead ↦ inr (inr (inl dead, resize_released, shrink-dead place n a e dead))
  | inr live ↦
      let as_to = shrink-live place n a e live in
      elim (three_way n r.reserved_bytes) [
        | inl (p, q) ↦ inl (live, p, q, rw as_to (shrink_to-live place n r a v e live p q))
        | inr (inl (p, same)) ↦ inr (inl (live, p, same, as_to ∙ shrink_to-same place n r a p same))
        | inr (inr out) ↦
            inr (inr (inr out, only_shrinks, as_to ∙ shrink_to-refused place n r a out))
      ]
]

-- A release changes nothing, or writes one cell; a shrink too, and there the reservation is live.
pub release-cases :
    (place : ℕ) (a : Admission)
    → IsExact a
    → ((release place a).1 ≡ a)
      ⊎ ((r : Reservation) × ((release place a).1.ledger ≡ set a.ledger place r))
release-cases place a v = elim (Option-cases (get_elem? a.ledger place)) [
  | inl e ↦ inl (unfold release in rw (e, release))
  | inr (r, e) ↦ elim (release_once place a v e) [
    | inl (_, done) ↦ inr (record r { released = true }, rw done.2)
    | inr (_, same) ↦ inl (rw same)
  ]
]

pub shrink-cases :
    (place : ℕ) (n : Argument) (a : Admission)
    → IsExact a
    → ((shrink place n a).1 ≡ a)
      ⊎ ((r : Reservation) × (r.released ≡ false)
          × ((shrink place n a).1.ledger ≡ set a.ledger place r))
unfolding shrink shrink_reservation
shrink-cases place n a v = elim (Option-cases (get_elem? a.ledger place)) [
  | inl e ↦ inl (rw (e, shrink))
  | inr (r, e) ↦ by_size n r e
]
  where
    by_size :
        (n : Argument) (r : Reservation)
        → get_elem? a.ledger place ≡ some r
        → ((shrink place n a).1 ≡ a)
          ⊎ ((q : Reservation) × (q.released ≡ false)
              × ((shrink place n a).1.ledger ≡ set a.ledger place q))
    by_size (int (pos k)) r e = elim (shrink_outcome place k a v e) [
      | inl (live, _, _, done) ↦ inr (record r { reserved_bytes = k }, live, rw done.2)
      | inr (inl (_, _, _, same)) ↦ inl (rw same)
      | inr (inr (_, _, same)) ↦ inl (rw same)
    ]
    by_size (int (negsuc k)) r e = inl (rw (e, shrink) (ground arith))
    by_size other r e = inl (rw (e, shrink) (ground arith))

pub shrink-IsExact :
    (place : ℕ) (n : Argument) (a : Admission) → IsExact a → IsExact (shrink place n a).1
unfolding shrink shrink_reservation
shrink-IsExact place n a v = elim (Option-cases (get_elem? a.ledger place)) [
  | inl e ↦ rw (e, shrink) v
  | inr (r, e) ↦ by_size n r e
]
  where
    by_size :
        (n : Argument) (r : Reservation)
        → get_elem? a.ledger place ≡ some r
        → IsExact (shrink place n a).1
    by_size (int (pos k)) r e = elim (shrink_outcome place k a v e) [
      | inl (_, _, _, done) ↦ done.1
      | inr (inl (_, _, _, same)) ↦ rw same v
      | inr (inr (_, _, same)) ↦ rw same v
    ]
    by_size (int (negsuc k)) r e = rw (e, shrink) (ground arith)
    by_size other r e = rw (e, shrink) (ground arith)
