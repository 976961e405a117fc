-- ===== src/Storage/Publication/Histories.antt =====
-- The runs of the publication methods on a store.
use nplg_dspace_mcp.Prelude.{ℕ, ◌≡◌, some, get_elem?, arith}
use nplg_dspace_mcp.Storage.Lifecycle.{Policy}
use nplg_dspace_mcp.Storage.Publication.{
  Reservation, Store, Observation, reserve_publication, begin_reservation, abort, commit,
  exit_context,
}
use nplg_dspace_mcp.Storage.Publication.Accounts.{
  IsExact, reserve_publication-IsExact, release_reservation-IsExact, activate-IsExact,
  commit_locked-IsExact,
}

-- One method call of a publication, with what it observes.
pub data Step : Store → Store → Type 0 where
  reserving :
      {s : Store}
      → (policy : Policy) → (bytes objects inodes : ℕ)
      → Step s (reserve_publication policy bytes objects inodes s).1
  beginning :
      {s : Store}
      → (place : ℕ) → (r : Reservation) → (seen : Observation)
      → get_elem? s.reservations place ≡ some r
      → Step s (begin_reservation place r seen s).1
  committing :
      {s : Store}
      → (place : ℕ) → (r : Reservation) → (bytes objects inodes : ℕ) → (seen : Observation)
      → get_elem? s.reservations place ≡ some r
      → Step s (commit place r bytes objects inodes seen s).1
  aborting :
      {s : Store}
      → (place : ℕ) → (r : Reservation) → get_elem? s.reservations place ≡ some r
      → Step s (abort place r s).1
  leaving :
      {s : Store}
      → (place : ℕ) → (r : Reservation) → get_elem? s.reservations place ≡ some r
      → Step s (exit_context place r s).1

pub data Reach : Store → Store → Type 0 where
  start : {s : Store} → Reach s s
  next : {s t u : Store} → Reach s t → Step t u → Reach s u

Step-IsExact : {s t : Store} → Step s t → IsExact s → IsExact t
unfolding begin_reservation commit abort exit_context
Step-IsExact {s} (reserving policy bytes objects inodes) v =
    reserve_publication-IsExact policy bytes objects inodes s v
Step-IsExact {s} (beginning place r seen e) v = grind (arith, activate-IsExact)
Step-IsExact {s} (committing place r bytes objects inodes seen e) v =
    grind (arith, commit_locked-IsExact)
Step-IsExact {s} (aborting place r e) v = grind (arith, release_reservation-IsExact)
Step-IsExact {s} (leaving place r e) v = grind (arith, release_reservation-IsExact)

-- From a store with exact accounts, any sequence of reservations, begins, commits, aborts and context exits, with
-- any observations, leads to exact accounts: the promised bytes, objects and inodes are the sums over the
-- registered reservations, which are active and not closed.
pub Reach-IsExact : {s t : Store} → Reach s t → IsExact s → IsExact t
Reach-IsExact start v = v
Reach-IsExact (next path step) v = Step-IsExact step (Reach-IsExact path v)
