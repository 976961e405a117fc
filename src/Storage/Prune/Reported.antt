-- ===== src/Storage/Prune/Reported.antt =====
-- What the report of a prune says, and what the latch becomes.
use nplg_dspace_mcp.Prelude.{
  ℕ, ◌≤◌, ◌<◌, ◌≡◌, ◌≢◌, ◌⊎◌, refl, Bool, true, false, none, List, [], arith, length, Result, ok,
  err,
}
use nplg_dspace_mcp.Storage.Lifecycle.{
  Policy, Capacity, PublicationBlocker, Alert, Latch, close_admission,
}
use nplg_dspace_mcp.Storage.Prune.{
  StoredObject, Leases, total_size, prune_unleased, is_over_budget, Blocked, blockers_of,
  is_blocked, blocked, from_future, record_unsatisfied_prune, finish_prune, PruneObservation,
  working_set, undisturbed, delete_and_conclude, conclude, prune, PruneError, PruneReport,
  PruneStore,
}

close_admission-closes :
    (b : PublicationBlocker) (alert : Alert) (l : Latch)
    → (close_admission b alert l).1.closed_by ≢ none
unfolding close_admission
close_admission-closes b alert l = ground arith

abbrev pub IsSatisfied : Policy → Bool → ℕ → Capacity → List StoredObject → Type 0
IsSatisfied policy trusted now_ns post os =
    (total_size os ≤ policy.maximum_bytes)
    × (length os ≤ policy.maximum_objects)
    × (policy.minimum_free_bytes ≤ post.available_bytes)
    × (policy.minimum_free_inodes ≤ post.available_inodes)
    × (trusted ≡ true)
    × (from_future now_ns os ≡ 0)

abbrev pub IsUnsatisfied : Policy → Bool → ℕ → Capacity → List StoredObject → Type 0
IsUnsatisfied policy trusted now_ns post os =
    (policy.maximum_bytes < total_size os)
    ⊎ (policy.maximum_objects < length os)
    ⊎ (post.available_bytes < policy.minimum_free_bytes)
    ⊎ (post.available_inodes < policy.minimum_free_inodes)
    ⊎ (trusted ≡ false)
    ⊎ (0 < from_future now_ns os)

record_unsatisfied_prune-closes :
    (b : Blocked) (l : Latch) → (record_unsatisfied_prune b l).closed_by ≢ none
unfolding record_unsatisfied_prune
record_unsatisfied_prune-closes b l = close_admission-closes _ _ l

-- A blocked prune lists a blocker, and one that is not lists none.
blockers_of-cases :
    (b : Blocked)
    → ((is_blocked b ≡ false) × (blockers_of b ≡ []))
      ⊎ ((is_blocked b ≡ true) × (blockers_of b ≢ []))
unfolding is_blocked blockers_of
blockers_of-cases b = ground arith

-- Nothing blocks exactly when the objects, the disk and the clock are as the policy wants.
blocked-cases :
    (policy : Policy) (trusted : Bool) (now_ns : ℕ) (leases : Leases) (post : Capacity)
    (os : List StoredObject)
    → ((is_blocked (blocked policy trusted now_ns leases post os) ≡ false)
        × IsSatisfied policy trusted now_ns post os)
      ⊎ ((is_blocked (blocked policy trusted now_ns leases post os) ≡ true)
          × IsUnsatisfied policy trusted now_ns post os)
unfolding is_blocked blocked is_over_budget
blocked-cases policy trusted now_ns leases post os = ground arith

-- What a prune that returns says and leaves.
abbrev pub Reopens : Policy → PruneObservation → Result PruneError PruneReport × PruneStore → Type 0
Reopens policy seen (err e, s) = ⊥
Reopens policy seen (ok report, s) =
    (((report.blockers ≡ [])
        × (s.latch.closed_by ≡ none)
        × IsSatisfied policy seen.trusted_clock_observation seen.now_ns seen.post_capacity
            s.objects)
      ⊎ ((report.blockers ≢ [])
          × (s.latch.closed_by ≢ none)
          × IsUnsatisfied policy seen.trusted_clock_observation seen.now_ns seen.post_capacity
              s.objects))
    × (s.used_bytes ≡ total_size s.objects)

-- A prune of a store whose root and authority are unchanged, in which no call that it makes raises, returns a
-- report. It lists no blocker exactly when the remaining objects fit the policy, the disk keeps its headroom, the
-- clock is trusted and no remaining object is from the future; then admission is open, and otherwise it is closed.
-- The used bytes are then the sizes of the remaining objects.
pub prune-Reopens :
    (policy : Policy) (seen : PruneObservation) (leases : Leases) (s : PruneStore)
    → seen.root_verified ≡ true
    → seen.authority_stable_before ≡ true
    → seen.authority_stable_after ≡ true
    → seen.fault ≡ undisturbed
    → Reopens policy seen (prune policy seen leases s)
unfolding prune finish_prune delete_and_conclude conclude
prune-Reopens policy seen leases s a b c d =
    let remaining = (prune_unleased (working_set policy seen s.objects) leases s.objects).objects in
    let found =
      blocked policy seen.trusted_clock_observation seen.now_ns leases seen.post_capacity
        remaining in
    rw (a, b, c, d)
      (
        ground (
          arith,
          blockers_of-cases found,
          record_unsatisfied_prune-closes found s.latch,
          blocked-cases policy seen.trusted_clock_observation seen.now_ns leases seen.post_capacity
              remaining,
        ),
        refl,
      )
