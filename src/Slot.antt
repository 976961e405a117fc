-- ===== src/Slot.antt =====
-- `WorkerStagingQuota` of src/nplg_mcp/pdf_worker_slot.py: one lease of the worker's whole file system at a time, which
-- only the thread and task that it was issued to may enter and release. A lease object is known by its number, in the
-- order in which they were made; each method runs under the quota's lock. What the inspector reports is observed.
pub mod Root
pub mod Lifetime
mod Tests
use nplg_dspace_mcp.Prelude.{
  ℕ, ◌+◌, ◌==◌, Bool, true, false, not, ◌&&◌, ◌||◌, Option, none, some, List, [], ◌∷◌,
  if◌then◌else◌, Result, ok, err,
}
use nplg_dspace_mcp.Slot.Root.{Policy, Filesystem, RootError, validate_quota_bound_staging_root}

pub data SlotError : Type 0 where
  already_leased lease_invalid already_released already_entered other_context : SlotError
  root_error : RootError → SlotError

-- `_WorkerSlotLeaseState`
pub data LeaseState : Type 0 where
  issued entered : LeaseState

-- The thread and the task that run, by their identities; synchronous code runs in no task.
pub record Context : Type 0 where
  pub thread : ℕ
  pub task : Option ℕ

-- The fields of the active lease; they are set and cleared together.
pub record Active : Type 0 where
  pub lease : ℕ
  pub state : LeaseState
  pub owner : Context

-- `WorkerStagingQuota`, with how many leases it has made
pub record Quota : Type 0 where
  pub policy : Policy
  pub active : Option Active
  pub released_leases : List ℕ
  pub made : ℕ

-- What a caller hands over: a lease, of this quota or not, or something of another type.
pub data Handle : Type 0 where
  lease_object : ℕ → Handle
  other_object : Handle

-- `__init__`
unfoldable pub worker_staging_quota : Policy → Filesystem → Result SlotError Quota
unfolding validate_quota_bound_staging_root
worker_staging_quota policy observed = elim (validate_quota_bound_staging_root policy observed) [
  | err e ↦ err (root_error e)
  | ok _ ↦ ok (record { policy = policy; active = none; released_leases = []; made = 0 })
]

abbrev pub same_task : Option ℕ → Option ℕ → Bool
same_task none none = true
same_task (some a) (some b) = a == b
same_task _ _ = false

-- `_require_owner_context`
abbrev pub same_context : Context → Context → Bool
same_context c d = (c.thread == d.thread) && same_task c.task d.task

unfoldable pub contains : ℕ → List ℕ → Bool
contains l [] = false
contains l (x ∷ xs) = x == l || contains l xs

-- `lease`
unfoldable pub lease : Context → Filesystem → Quota → Result SlotError ℕ × Quota
lease c observed q = elim q.active [
  | some a ↦ (err already_leased, q)
  | none ↦ elim (validate_quota_bound_staging_root q.policy observed) [
    | err e ↦ (err (root_error e), q)
    | ok _ ↦ (
      ok q.made,
      record q {
        active = some (record { lease = q.made; state = issued; owner = c });
        made = q.made + 1;
      },
    )
  ]
]

-- `enter` of the active lease
enter_active : Context → Active → Quota → Result SlotError (Unit {0}) × Quota
enter_active c a q = if not (same_context a.owner c) then (err other_context, q) else elim a.state [
  | entered ↦ (err already_entered, q)
  | issued ↦ (ok tt, record q { active = some (record a { state = entered }) })
]

-- whether a lease is the active one
abbrev pub is_active : ℕ → Option Active → Bool
is_active l none = false
is_active l (some a) = a.lease == l

-- `enter`
unfoldable pub enter : Context → Handle → Quota → Result SlotError (Unit {0}) × Quota
unfolding enter_active
enter c other_object q = (err lease_invalid, q)
enter c (lease_object l) q =
    if contains l q.released_leases then (err already_released, q) else elim q.active [
      | none ↦ (err lease_invalid, q)
      | some a ↦ if not (a.lease == l) then (err lease_invalid, q) else enter_active c a q
    ]

-- `release`, which the context of a lease calls when it is left
unfoldable pub release : Context → Handle → Quota → Result SlotError (Unit {0}) × Quota
release c other_object q = (err lease_invalid, q)
release c (lease_object l) q =
    let inactive : Result SlotError (Unit {0}) × Quota =
      (if contains l q.released_leases then ok tt else err lease_invalid, q) in
    elim q.active [
      | none ↦ inactive
      | some a ↦
          if not (a.lease == l)
          then inactive
          else if not (same_context a.owner c)
          then (err other_context, q)
          else (ok tt, record q { active = none; released_leases = l ∷ q.released_leases })
    ]
