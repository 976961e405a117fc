-- ===== src/Storage/Publication.antt =====
-- Publication reservations of `ContentAddressedStore` in src/nplg_mcp/storage.py: the worst case of an
-- operation is reserved before it starts, and given back when it commits or aborts. Each method runs
-- under the store's lock, so it is one step.
pub mod Accounts
pub mod Admitted
pub mod Histories
use nplg_dspace_mcp.Prelude.{
  ℕ, ◌+◌, ◌-◌, ◌≤◌, Bool, true, false, not, ◌||◌, ◌&&◌, Option, none, some, List, [], ◌∷◌, ◌++◌,
  ltb, leb, if◌then◌else◌, Result, ok, err, set,
}
use nplg_dspace_mcp.Storage.Lifecycle.{
  Policy, Capacity, PublicationBlocker, byte_budget, object_budget, byte_headroom, inode_headroom,
  clock_anomaly, Alert, AlertEvent, Latch, of_publication, close_admission,
}

-- `_PublicationReservation`; `registered` says that it is in the store's set
pub record Reservation : Type 0 where
  pub policy : Policy
  pub reserved_bytes : ℕ
  pub reserved_objects : ℕ
  pub reserved_inodes : ℕ
  pub active : Bool
  pub closed : Bool
  pub registered : Bool
  pub baseline_used_bytes : ℕ
  pub baseline_stored_objects : ℕ
  pub baseline_available_inodes : ℕ

-- The accounting of the store, with every reservation object made, by its place.
pub record Store : Type 0 where
  pub max_bytes : ℕ
  pub used_bytes : ℕ
  pub reserved_bytes : ℕ
  pub publication_reserved_bytes : ℕ
  pub publication_reserved_objects : ℕ
  pub publication_reserved_inodes : ℕ
  pub reservations : List Reservation
  pub latch : Latch

-- What one method call observes: that the root is the one configured, that the authorities did not
-- change while they were sampled, the clock's verdict, the inventory's size and the capacity.
pub record Observation : Type 0 where
  pub root_verified : Bool
  pub authorities_stable : Bool
  pub clock_trusted : Bool
  pub stored_objects : ℕ
  pub capacity : Capacity

pub data PublicationError : Type 0 where
  root_changed authority_changed entered_twice not_active already_closed : PublicationError
  maximum_invalid actual_invalid : PublicationError
  rejected : PublicationBlocker → PublicationError

abbrev pub Reply : Type 0
Reply = Result PublicationError (Unit {0}) × Store

-- config.py and storage.py: `_MAX_LIFECYCLE_OBJECTS`
abbrev pub max_lifecycle_objects : ℕ
max_lifecycle_objects = 10_000_000

-- `_validate_publication_maximum`
abbrev is_publication_maximum : ℕ → ℕ → Bool
is_publication_maximum value maximum = leb 1 value && leb value maximum

unfoldable pub are_publication_maxima : ℕ → ℕ → ℕ → Store → Bool
are_publication_maxima bytes objects inodes s =
    is_publication_maximum bytes s.max_bytes
    && (is_publication_maximum objects max_lifecycle_objects
        && is_publication_maximum inodes max_lifecycle_objects)

-- `reserve_publication` with the configured policy; the new reservation is the last
unfoldable pub reserve_publication :
    Policy → ℕ → ℕ → ℕ → Store → Result PublicationError (Unit {0}) × Store
reserve_publication policy bytes objects inodes s =
    if are_publication_maxima bytes objects inodes s
    then (
      ok tt,
      record s {
        reservations =
            s.reservations
            ++ record {
              policy = policy;
              reserved_bytes = bytes;
              reserved_objects = objects;
              reserved_inodes = inodes;
              active = false;
              closed = false;
              registered = false;
              baseline_used_bytes = 0;
              baseline_stored_objects = 0;
              baseline_available_inodes = 0;
            }
              ∷ [];
      },
    )
    else (err maximum_invalid, s)

-- `_publication_denial`
unfoldable pub deny : PublicationBlocker → Store → Reply
unfolding close_admission of_publication
deny blocker s =
    let (effective, latch) =
      close_admission blocker
        (record { event = AlertEvent.admission_closed; blockers = of_publication blocker ∷ [] })
        s.latch in
    (err (rejected effective), record s { latch = latch })

-- the four budget conditions shared by admission and commit, over what others hold and what is asked
unfoldable pub over_budget :
    Policy → Observation → Store → ℕ → ℕ → ℕ → ℕ → ℕ → ℕ → Option PublicationBlocker
over_budget policy seen s held_bytes held_objects held_inodes bytes objects inodes =
    if ltb policy.maximum_bytes (s.used_bytes + s.reserved_bytes + held_bytes + bytes)
    then some byte_budget
    else if ltb policy.maximum_objects (seen.stored_objects + held_objects + objects)
    then some object_budget
    else if ltb seen.capacity.available_bytes
        (policy.minimum_free_bytes + s.reserved_bytes + held_bytes + bytes)
    then some byte_headroom
    else if ltb seen.capacity.available_inodes (policy.minimum_free_inodes + held_inodes + inodes)
    then some inode_headroom
    else none

unfoldable pub admitted : ℕ → Reservation → Observation → Store → Reply
admitted place r seen s = (
  ok tt,
  record s {
    publication_reserved_bytes = s.publication_reserved_bytes + r.reserved_bytes;
    publication_reserved_objects = s.publication_reserved_objects + r.reserved_objects;
    publication_reserved_inodes = s.publication_reserved_inodes + r.reserved_inodes;
    reservations = set s.reservations place (record r {
      active = true;
      registered = true;
      baseline_used_bytes = s.used_bytes;
      baseline_stored_objects = seen.stored_objects;
      baseline_available_inodes = seen.capacity.available_inodes;
    });
  },
)

-- `_activate_publication_reservation_locked`
unfoldable pub activate : ℕ → Reservation → Observation → Store → Reply
activate place r seen s =
    if r.active || r.closed then (err entered_twice, s) else elim s.latch.closed_by [
      | some blocker ↦ (err (rejected blocker), s)
      | none ↦
          if not seen.clock_trusted
          then deny clock_anomaly s
          else elim (over_budget r.policy seen s s.publication_reserved_bytes
              s.publication_reserved_objects s.publication_reserved_inodes r.reserved_bytes
              r.reserved_objects r.reserved_inodes) [
                | some blocker ↦ deny blocker s
                | none ↦ admitted place r seen s
              ]
    ]

-- `begin_publication_reservation`
unfoldable pub begin_reservation : ℕ → Reservation → Observation → Store → Reply
unfolding activate
begin_reservation place r seen s =
    if not seen.root_verified
    then (err root_changed, s)
    else if not seen.authorities_stable
    then (err authority_changed, s)
    else activate place r seen s

-- `_release_publication_reservation_locked` of a reservation in the set, which is active and not closed
unfoldable pub release_reservation : ℕ → Reservation → Store → Reply
release_reservation place r s = if not r.registered then (err not_active, s) else (
  ok tt,
  record s {
    publication_reserved_bytes = s.publication_reserved_bytes - r.reserved_bytes;
    publication_reserved_objects = s.publication_reserved_objects - r.reserved_objects;
    publication_reserved_inodes = s.publication_reserved_inodes - r.reserved_inodes;
    reservations =
        set s.reservations place (record r { active = false; closed = true; registered = false });
  },
)

-- `abort` of the reservation
unfoldable pub abort : ℕ → Reservation → Store → Reply
unfolding release_reservation
abort place r s = if r.closed then (err already_closed, s) else release_reservation place r s

-- `_commit_publication_reservation_locked`; a difference that Python clamps at 0 is ℕ's subtraction
unfoldable pub commit_locked : ℕ → Reservation → ℕ → ℕ → ℕ → Observation → Store → Reply
commit_locked place r bytes objects inodes seen s =
    if not seen.clock_trusted
    then deny clock_anomaly s
    else elim (over_budget r.policy seen s (s.publication_reserved_bytes - r.reserved_bytes)
        (s.publication_reserved_objects - r.reserved_objects)
        (s.publication_reserved_inodes - r.reserved_inodes)
        (bytes - (s.used_bytes - r.baseline_used_bytes))
        (objects - (seen.stored_objects - r.baseline_stored_objects))
        (inodes - (r.baseline_available_inodes - seen.capacity.available_inodes))) [
          | some blocker ↦ deny blocker s
          | none ↦ release_reservation place r s
        ]

-- `commit` of the reservation and `commit_publication_reservation`
unfoldable pub commit : ℕ → Reservation → ℕ → ℕ → ℕ → Observation → Store → Reply
unfolding commit_locked
commit place r bytes objects inodes seen s =
    if r.closed
    then (err already_closed, s)
    else if not (
        leb bytes r.reserved_bytes
        && (leb objects r.reserved_objects && leb inodes r.reserved_inodes))
    then (err actual_invalid, s)
    else if not r.registered
    then (err not_active, s)
    else if not seen.root_verified
    then (err root_changed, s)
    else if not seen.authorities_stable
    then (err authority_changed, s)
    else commit_locked place r bytes objects inodes seen s

-- `__aexit__` of the reservation's context
unfoldable pub exit_context : ℕ → Reservation → Store → Reply
unfolding abort
exit_context place r s = if r.closed then (ok tt, s) else abort place r s
