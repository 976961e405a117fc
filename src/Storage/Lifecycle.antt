-- ===== src/Storage/Lifecycle.antt =====
-- The values of src/nplg_mcp/storage_lifecycle.py that admission and pruning share, and the latch that
-- closes admission.
use nplg_dspace_mcp.Prelude.{
  ℕ, ◌+◌, ◌*◌, Bool, false, ◌||◌, Option, none, some, List, [], ◌∷◌, ◌++◌, ltb, leb, if◌then◌else◌,
  Result, ok, err,
}

-- `RetentionPolicy`
pub record Policy : Type 0 where
  pub maximum_age_seconds : ℕ
  pub maximum_bytes : ℕ
  pub maximum_objects : ℕ
  pub minimum_free_bytes : ℕ
  pub minimum_free_inodes : ℕ

-- `StorageCapacity`
pub record Capacity : Type 0 where
  pub total_bytes : ℕ
  pub available_bytes : ℕ
  pub total_inodes : ℕ
  pub available_inodes : ℕ

-- its validator
unfoldable pub is_valid_capacity : Capacity → Bool
is_valid_capacity c =
    if ltb c.total_bytes c.available_bytes then false else leb c.available_inodes c.total_inodes

pub data CapacityError : Type 0 where
  cache_below_policy byte_reserve_impossible inode_reserve_impossible : CapacityError

-- config.py
abbrev pub hard_max_cache_bytes : ℕ
hard_max_cache_bytes = 1024 * 1024 * 1024 * 1024

-- `validate_retention_capacity`
unfoldable pub validate_retention_capacity : Policy → ℕ → Capacity → Result CapacityError (Unit {0})
validate_retention_capacity policy cache_max_bytes capacity =
    if ltb cache_max_bytes policy.maximum_bytes || ltb hard_max_cache_bytes cache_max_bytes
    then err cache_below_policy
    else if ltb capacity.total_bytes (policy.maximum_bytes + policy.minimum_free_bytes)
    then err byte_reserve_impossible
    else if leb capacity.total_inodes policy.minimum_free_inodes
    then err inode_reserve_impossible
    else ok tt

pub data PublicationBlocker : Type 0 where
  byte_budget object_budget byte_headroom inode_headroom clock_anomaly : PublicationBlocker

pub data PruneBlocker : Type 0 where
  leased_objects byte_headroom inode_headroom clock_anomaly : PruneBlocker

pub data LifecycleBlocker : Type 0 where
  byte_budget object_budget leased_objects byte_headroom inode_headroom clock_anomaly :
      LifecycleBlocker

pub data AlertEvent : Type 0 where
  admission_closed prune_unsatisfied : AlertEvent

-- `LifecycleAlert`
pub record Alert : Type 0 where
  pub event : AlertEvent
  pub blockers : List LifecycleBlocker

-- `LifecycleBlocker(blocker.value)`
unfoldable pub of_publication : PublicationBlocker → LifecycleBlocker
of_publication PublicationBlocker.byte_budget = LifecycleBlocker.byte_budget
of_publication PublicationBlocker.object_budget = LifecycleBlocker.object_budget
of_publication PublicationBlocker.byte_headroom = LifecycleBlocker.byte_headroom
of_publication PublicationBlocker.inode_headroom = LifecycleBlocker.inode_headroom
of_publication PublicationBlocker.clock_anomaly = LifecycleBlocker.clock_anomaly

unfoldable pub of_prune : PruneBlocker → LifecycleBlocker
of_prune PruneBlocker.leased_objects = LifecycleBlocker.leased_objects
of_prune PruneBlocker.byte_headroom = LifecycleBlocker.byte_headroom
of_prune PruneBlocker.inode_headroom = LifecycleBlocker.inode_headroom
of_prune PruneBlocker.clock_anomaly = LifecycleBlocker.clock_anomaly

-- `_admission_closed_blocker`, and the alerts that were emitted, oldest first
pub record Latch : Type 0 where
  pub closed_by : Option PublicationBlocker
  pub alerts : List Alert

-- `_close_admission`: the first blocker stays, and only it raises an alert.
unfoldable pub close_admission : PublicationBlocker → Alert → Latch → PublicationBlocker × Latch
close_admission blocker alert l = elim l.closed_by [
  | some existing ↦ (existing, l)
  | none ↦ (blocker, record { closed_by = some blocker; alerts = l.alerts ++ alert ∷ [] })
]
