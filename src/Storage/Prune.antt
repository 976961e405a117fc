-- ===== src/Storage/Prune.antt =====
-- `prune` of `ContentAddressedStore` in src/nplg_mcp/storage.py: which stored objects are deleted, what is
-- reported, and whether admission reopens. The objects on the disk are a list, which a scan returns; the
-- leases, the clock's verdict and the capacities are observed.
pub mod Kept
pub mod Reported
pub mod Freed
use nplg_dspace_mcp.Prelude.{
  ℕ, ◌+◌, ◌-◌, ◌*◌, Bool, true, false, not, ◌&&◌, ◌||◌, Option, none, some, List, [], ◌∷◌, ◌++◌,
  map, ltb, leb, ◌==◌, if◌then◌else◌, Result, ok, err, length, sum_by, count_if,
}
use nplg_dspace_mcp.Storage.Lifecycle.{
  Policy, Capacity, PublicationBlocker, object_budget, PruneBlocker, leased_objects, byte_headroom,
  inode_headroom, clock_anomaly, Alert, AlertEvent, prune_unsatisfied, Latch, of_prune,
  close_admission,
}

-- `_StoredObject`, its key by its rank among the keys, since keys are compared only; the path follows from the key.
pub record StoredObject : Type 0 where
  pub key : ℕ
  pub size : ℕ
  pub inodes : ℕ
  pub modified_ns : ℕ
  pub insertion_sequence : ℕ

-- the equality of the dataclass
abbrev pub same : StoredObject → StoredObject → Bool
same a b =
    (a.key == b.key)
    && ((a.size == b.size)
        && ((a.inodes == b.inodes)
            && ((a.modified_ns == b.modified_ns)
                && (a.insertion_sequence == b.insertion_sequence))))

-- `_stored_object_order`, as the order of two objects
unfoldable pub precedes : StoredObject → StoredObject → Bool
precedes a b =
    ltb a.insertion_sequence b.insertion_sequence
    || ((a.insertion_sequence == b.insertion_sequence) && leb a.key b.key)

-- `sorted` by that order
unfoldable pub insert_sorted : StoredObject → List StoredObject → List StoredObject
insert_sorted o [] = o ∷ []
insert_sorted o (x ∷ xs) =
    let rest = insert_sorted o xs in if precedes o x then o ∷ x ∷ xs else x ∷ rest

unfoldable pub sorted : List StoredObject → List StoredObject
sorted [] = []
sorted (x ∷ xs) = insert_sorted x (sorted xs)

-- `list.remove`
unfoldable pub remove : StoredObject → List StoredObject → List StoredObject
remove o [] = []
remove o (x ∷ xs) = let rest = remove o xs in if same o x then xs else x ∷ rest

-- What `_asset_leases` and `_render_transaction_leases` say of a key.
pub record Leases : Type 0 where
  pub asset_leases : ℕ → ℕ
  pub has_render_lease : ℕ → Bool

-- `_PruneWorkingSet` but for its objects
pub record WorkingSet : Type 0 where
  pub policy : Policy
  pub capacity : Capacity
  pub cutoff_ns : ℕ
  pub clock_trusted : Bool

abbrev pub total_size : List StoredObject → ℕ
total_size objects = sum_by (λ o. o.size) objects

-- `_prune_pressure`
unfoldable pub prune_pressure : WorkingSet → List StoredObject → Bool
prune_pressure w objects =
    ltb w.policy.maximum_bytes (total_size objects)
    || (ltb w.policy.maximum_objects (length objects)
        || (ltb w.capacity.available_bytes w.policy.minimum_free_bytes
            || ltb w.capacity.available_inodes w.policy.minimum_free_inodes))

unfoldable pub is_expired : WorkingSet → StoredObject → Bool
is_expired w o = w.clock_trusted && ltb o.modified_ns w.cutoff_ns

unfoldable pub is_leased : Leases → StoredObject → Bool
is_leased leases o = ltb 0 (leases.asset_leases o.key) || leases.has_render_lease o.key

-- The objects that remain, with the bytes and the objects freed.
pub record Pruned : Type 0 where
  pub objects : List StoredObject
  pub freed_bytes : ℕ
  pub freed_objects : ℕ

-- the condition under which the loop of `_prune_unleased` deletes its candidate
unfoldable pub is_deleted : WorkingSet → Leases → StoredObject → List StoredObject → Bool
is_deleted w leases o objects =
    (is_expired w o || prune_pressure w objects) && not (is_leased leases o)

-- one round of that loop
unfoldable pub visit : WorkingSet → Leases → StoredObject → Pruned → Pruned
visit w leases o p =
    if is_deleted w leases o p.objects
    then record {
      objects = remove o p.objects;
      freed_bytes = p.freed_bytes + o.size;
      freed_objects = p.freed_objects + 1;
    }
    else p

unfoldable pub visit_each : WorkingSet → Leases → List StoredObject → Pruned → Pruned
visit_each w leases [] p = p
visit_each w leases (o ∷ os) p = visit_each w leases os (visit w leases o p)

-- `_prune_unleased`
unfoldable pub prune_unleased : WorkingSet → Leases → List StoredObject → Pruned
prune_unleased w leases objects =
    visit_each w leases (sorted objects)
      (record { objects = objects; freed_bytes = 0; freed_objects = 0 })

-- `PruneReport`, with its blockers when it is unsatisfied
pub record PruneReport : Type 0 where
  pub blockers : List PruneBlocker
  pub freed_bytes : ℕ
  pub freed_objects : ℕ
  pub retained_leased_objects : ℕ
  pub post_stored_bytes : ℕ
  pub post_stored_objects : ℕ
  pub post_capacity : Capacity

-- the blocker that `_record_unsatisfied_prune` closes admission with
unfoldable pub publication_blocker : Bool → Bool → Bool → PublicationBlocker
publication_blocker clock inodes bytes =
    if clock
    then PublicationBlocker.clock_anomaly
    else if inodes
    then PublicationBlocker.inode_headroom
    else if bytes
    then PublicationBlocker.byte_headroom
    else object_budget

-- a blocker of the report, when its condition holds
abbrev pub when : Bool → PruneBlocker → List PruneBlocker
when b x = if b then x ∷ [] else []

-- Which of the blockers stand in the report.
pub record Blocked : Type 0 where
  pub leased : Bool
  pub bytes : Bool
  pub inodes : Bool
  pub clock : Bool

unfoldable pub blockers_of : Blocked → List PruneBlocker
blockers_of b =
    when b.leased leased_objects
    ++ when b.bytes PruneBlocker.byte_headroom
    ++ when b.inodes PruneBlocker.inode_headroom
    ++ when b.clock PruneBlocker.clock_anomaly

unfoldable pub is_blocked : Blocked → Bool
is_blocked b = b.leased || (b.bytes || (b.inodes || b.clock))

unfoldable pub is_over_budget : Policy → List StoredObject → Bool
is_over_budget policy objects =
    ltb policy.maximum_bytes (total_size objects) || ltb policy.maximum_objects (length objects)

unfoldable pub retained_leased : Leases → List StoredObject → ℕ
retained_leased leases objects = count_if (is_leased leases) objects

unfoldable pub from_future : ℕ → List StoredObject → ℕ
from_future now_ns objects = count_if (λ o. ltb now_ns o.modified_ns) objects

unfoldable pub blocked : Policy → Bool → ℕ → Leases → Capacity → List StoredObject → Blocked
blocked policy trusted now_ns leases post objects = record {
  leased = is_over_budget policy objects && ltb 0 (retained_leased leases objects);
  bytes =
      (is_over_budget policy objects && not (ltb 0 (retained_leased leases objects)))
      || ltb post.available_bytes policy.minimum_free_bytes;
  inodes = ltb post.available_inodes policy.minimum_free_inodes;
  clock = not trusted || ltb 0 (from_future now_ns objects);
}

-- `_record_unsatisfied_prune`
unfoldable pub record_unsatisfied_prune : Blocked → Latch → Latch
record_unsatisfied_prune b latch =
    (close_admission (publication_blocker b.clock b.inodes b.bytes)
      (record { event = prune_unsatisfied; blockers = map of_prune (blockers_of b) }) latch).1

-- `_finish_prune_locked`; the blockers are listed in the order of the enumeration
unfoldable pub finish_prune :
    Policy → Bool → ℕ → Leases → Capacity → Pruned → Latch → PruneReport × Latch
finish_prune policy trusted now_ns leases post p latch =
    let b = blocked policy trusted now_ns leases post p.objects in
    (
      record {
        blockers = blockers_of b;
        freed_bytes = p.freed_bytes;
        freed_objects = p.freed_objects;
        retained_leased_objects = retained_leased leases p.objects;
        post_stored_bytes = total_size p.objects;
        post_stored_objects = length p.objects;
        post_capacity = post;
      },
      if is_blocked b then record_unsatisfied_prune b latch else record latch { closed_by = none },
    )

-- Where a call that the prune makes raises, if one does: before it deletes (the capacity sampler, the clock and the
-- scan of the objects); in the deletion of this number, counted from 0, after which a scan finds `left` of its object
-- (the removal of the directory, of its sequence file, the sync); in the scan of the bytes after the deletions; in
-- the second sample of the capacity or a later scan; or in the validators of the report or the sending of an alert.
pub data PruneFault : Type 0 where
  undisturbed before_deletions rescan recount report_refused : PruneFault
  deletion : (number : ℕ) (left : Option StoredObject) → PruneFault

-- What one call of `prune` observes. A duration in nanoseconds is compared on ℕ, where a cutoff before 0 is 0.
-- The scans after the deletions find the objects that are left. The capacity authority is compared twice.
pub record PruneObservation : Type 0 where
  pub root_verified : Bool
  pub authority_stable_before : Bool
  pub authority_stable_after : Bool
  pub now_ns : ℕ
  pub trusted_clock_observation : Bool
  pub before_capacity : Capacity
  pub post_capacity : Capacity
  pub fault : PruneFault

-- `interrupted` is any error of a call that the prune makes.
pub data PruneError : Type 0 where
  root_changed authority_changed interrupted : PruneError

-- What a prune may change: the objects on the disk, `_used_bytes` and the latch.
pub record PruneStore : Type 0 where
  pub objects : List StoredObject
  pub used_bytes : ℕ
  pub latch : Latch

abbrev pub nanoseconds : ℕ
nanoseconds = 1_000_000_000

unfoldable pub working_set : Policy → PruneObservation → List StoredObject → WorkingSet
working_set policy seen objects = record {
  policy = policy;
  capacity = seen.before_capacity;
  cutoff_ns = seen.now_ns - policy.maximum_age_seconds * nanoseconds;
  clock_trusted = seen.trusted_clock_observation && (from_future seen.now_ns objects == 0);
}

abbrev with_left : Option StoredObject → List StoredObject → List StoredObject
with_left none objects = objects
with_left (some o) objects = o ∷ objects

-- the loop of `_prune_unleased` when its deletion of that number raises: the objects on the disk then, or none where
-- the loop ends before it
unfoldable pub delete_until :
    WorkingSet
    → Leases
    → ℕ
    → Option StoredObject
    → List StoredObject
    → Pruned
    → Option (List StoredObject)
unfolding visit
delete_until w leases k left [] p = none
delete_until w leases k left (o ∷ os) p =
    let later = delete_until w leases (k - 1) left os (visit w leases o p) in
    let same_number = delete_until w leases k left os p in
    if not (is_deleted w leases o p.objects)
    then same_number
    else if k == 0
    then some (with_left left (remove o p.objects))
    else later

abbrev pub Pruning : Type 0
Pruning = Result PruneError PruneReport × PruneStore

-- the rest of `prune` after the deletions; an authority that changed meanwhile is an error after them
unfoldable pub conclude : PruneFault → Bool → Pruned → PruneReport × Latch → PruneStore → Pruning
conclude rescan stable p (report, latch) s = (err interrupted, record s { objects = p.objects })
conclude recount stable p (report, latch) s =
    (err interrupted, record s { objects = p.objects; used_bytes = total_size p.objects })
conclude report_refused stable p (report, latch) s =
    if not stable
    then (
      err authority_changed,
      record s { objects = p.objects; used_bytes = total_size p.objects },
    )
    else (
      err interrupted,
      record { objects = p.objects; used_bytes = total_size p.objects; latch = latch },
    )
conclude _ stable p (report, latch) s =
    if not stable
    then (
      err authority_changed,
      record s { objects = p.objects; used_bytes = total_size p.objects },
    )
    else (
      ok report,
      record { objects = p.objects; used_bytes = total_size p.objects; latch = latch },
    )

-- the deletions and what follows them
unfoldable pub delete_and_conclude :
    PruneFault → WorkingSet → Leases → Bool → Pruned → PruneReport × Latch → PruneStore → Pruning
unfolding delete_until conclude
delete_and_conclude before_deletions w leases stable p r s = (err interrupted, s)
delete_and_conclude (deletion k left) w leases stable p r s =
    let begun : Pruned = record { objects = s.objects; freed_bytes = 0; freed_objects = 0 } in
    elim (delete_until w leases k left (sorted s.objects) begun) as (λ _. Pruning) [
      | some objects ↦ (err interrupted, record s { objects = objects })
      | none ↦ conclude undisturbed stable p r s
    ]
delete_and_conclude fault w leases stable p r s = conclude fault stable p r s

-- `prune` with the configured policy
unfoldable pub prune : Policy → PruneObservation → Leases → PruneStore → Pruning
unfolding delete_and_conclude
prune policy seen leases s =
    let w = working_set policy seen s.objects in
    let p = prune_unleased w leases s.objects in
    let finished =
      finish_prune policy seen.trusted_clock_observation seen.now_ns leases seen.post_capacity p
        s.latch in
    if not seen.root_verified
    then (err root_changed, s)
    else if not seen.authority_stable_before
    then (err authority_changed, s)
    else delete_and_conclude seen.fault w leases seen.authority_stable_after p finished s
