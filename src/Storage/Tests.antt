-- ===== src/Storage/Tests.antt =====
-- The store's accounts, its pruning and its clock at concrete inputs, and the theorems about them applied there.
use nplg_dspace_mcp.Prelude.{
  err, ℕ, ◌-◌, ◌+◌, ◌≡◌, inl, inr, refl, true, false, none, some, List, [], ◌∷◌, arith, ltb, leb,
  ok,
}
use nplg_dspace_mcp.Prelude.Floats.{Floats}
use nplg_dspace_mcp.Storage.Lifecycle.{Policy, Capacity}
use nplg_dspace_mcp.Storage.Publication.{
  Reservation, Store, Observation, begin_reservation, admitted, activate, over_budget,
}
use nplg_dspace_mcp.Storage.Publication.Accounts.{IsExact}
use nplg_dspace_mcp.Storage.Publication.Admitted.{Fits, begin_reservation-Fits}
use nplg_dspace_mcp.Storage.Publication.Histories
use nplg_dspace_mcp.Storage.Publication.Histories.{Reach-IsExact}
use nplg_dspace_mcp.Storage.Prune.{
  StoredObject, Leases, WorkingSet, PruneObservation, undisturbed, deletion, interrupted, sorted,
  insert_sorted, precedes, is_deleted, working_set, from_future, prune_pressure, remove,
  delete_until, delete_and_conclude, conclude, PruneStore, prune_unleased, prune, is_leased,
  is_expired,
}
use nplg_dspace_mcp.Storage.Prune.Kept.{times, prune_unleased-spares, prune_unleased-exhausts}
use nplg_dspace_mcp.Storage.Prune.Reported.{Reopens, prune-Reopens}
use nplg_dspace_mcp.Storage.Prune.Freed.{FreedIs, prune-frees}
use nplg_dspace_mcp.Storage.Clock.{
  Sample, ClockRecord, ClockHighWater, returned, published, stored, observe, has_valid_readings,
}
use nplg_dspace_mcp.Storage.Clock.Recorded.{Recorded, FloatOrder, observe-Recorded}
use nplg_dspace_mcp.Storage.Clock.History.{missing, found}
use nplg_dspace_mcp.Storage.Clock.Trust.{Trusts, here, next, observing, trusted_spans}

abbrev policy : Policy
policy = record {
  maximum_age_seconds = 10;
  maximum_bytes = 100;
  maximum_objects = 4;
  minimum_free_bytes = 10;
  minimum_free_inodes = 1;
}

abbrev disk : Capacity
disk = record {
  total_bytes = 1000;
  available_bytes = 500;
  total_inodes = 100;
  available_inodes = 90;
}

abbrev fresh : Reservation
fresh = record {
  policy = policy;
  reserved_bytes = 30;
  reserved_objects = 1;
  reserved_inodes = 2;
  active = false;
  closed = false;
  registered = false;
  baseline_used_bytes = 0;
  baseline_stored_objects = 0;
  baseline_available_inodes = 0;
}

abbrev store : Store
store = record {
  max_bytes = 200;
  used_bytes = 20;
  reserved_bytes = 0;
  publication_reserved_bytes = 0;
  publication_reserved_objects = 0;
  publication_reserved_inodes = 0;
  reservations = fresh ∷ [];
  latch = record { closed_by = none; alerts = [] };
}

abbrev seen : Observation
seen = record {
  root_verified = true;
  authorities_stable = true;
  clock_trusted = true;
  stored_objects = 1;
  capacity = disk;
}

store-IsExact : IsExact store
store-IsExact = record {
  bytes = refl;
  objects = refl;
  inodes = refl;
  consistent = ((refl, λ e. refl), tt);
}

Reach-IsExact_example : IsExact (begin_reservation 0 fresh seen store).1
Reach-IsExact_example =
    Reach-IsExact (Histories.next Histories.start (Histories.beginning 0 fresh seen refl))
      store-IsExact

begin_reservation-Fits_example :
    Fits policy seen (begin_reservation 0 fresh seen store).1
    × IsExact (begin_reservation 0 fresh seen store).1
    × (store.latch.closed_by ≡ none)
    × (seen.clock_trusted ≡ true)
unfolding begin_reservation activate over_budget admitted
begin_reservation-Fits_example = begin_reservation-Fits 0 fresh seen store store-IsExact refl refl

abbrev old_object : StoredObject
old_object = record { key = 1; size = 60; inodes = 1; modified_ns = 5; insertion_sequence = 1 }

abbrev leased_object : StoredObject
leased_object = record { key = 2; size = 70; inodes = 1; modified_ns = 6; insertion_sequence = 2 }

abbrev leases : Leases
leases = record { asset_leases = λ k. k - 1; has_render_lease = λ k. false }

abbrev two_objects : List StoredObject
two_objects = leased_object ∷ old_object ∷ []

abbrev working : WorkingSet
working = record { policy = policy; capacity = disk; cutoff_ns = 0; clock_trusted = true }

prune_unleased-spares_example :
    times leased_object (prune_unleased working leases two_objects).objects ≡ 1
unfolding is_leased
prune_unleased-spares_example =
    prune_unleased-spares working leases leased_object two_objects (inl refl)

prune_unleased-exhausts_example :
    times old_object (prune_unleased (record working { cutoff_ns = 9 }) leases two_objects).objects
    ≡ 0
unfolding is_leased is_expired
prune_unleased-exhausts_example =
    prune_unleased-exhausts (record working { cutoff_ns = 9 }) leases old_object two_objects refl
      (inr refl)

abbrev pruning : PruneObservation
pruning = record {
  root_verified = true;
  authority_stable_before = true;
  authority_stable_after = true;
  now_ns = 100;
  trusted_clock_observation = true;
  before_capacity = disk;
  post_capacity = disk;
  fault = undisturbed;
}

abbrev full : PruneStore
full = record {
  objects = two_objects;
  used_bytes = 130;
  latch = record { closed_by = none; alerts = [] };
}

prune-Reopens_example : Reopens policy pruning (prune policy pruning leases full)
prune-Reopens_example = prune-Reopens policy pruning leases full refl refl refl refl

-- A sixth deletion does not come to raise; a first one does, and leaves what is found of its object.
interrupted_prune :
    (prune policy (record pruning { fault = deletion 5 none }) leases full
      ≡ prune policy pruning leases full)
    × (prune policy (record pruning { fault = deletion 0 (some old_object) }) leases full
        ≡ (err interrupted, record full { objects = old_object ∷ leased_object ∷ [] }))
unfolding prune delete_and_conclude delete_until conclude sorted insert_sorted precedes is_deleted
    is_expired working_set from_future prune_pressure is_leased remove
interrupted_prune = (refl, refl)

prune-frees_example : FreedIs full (prune policy pruning leases full)
prune-frees_example = prune-frees policy pruning leases full

abbrev milliseconds : Floats
milliseconds = record {
  Float = ℕ;
  add = λ a b. a + b;
  sub = λ a b. a - b;
  mul = λ a b. a;
  lt = ltb;
  le = leb;
  is_finite = λ _. true;
  ldexp_one = λ n. n;
  thousandths = λ n. n;
}

milliseconds_order : FloatOrder milliseconds
milliseconds_order = record {
  irreflexive = λ a. ground arith;
  transitive = λ a b c _ _ _ p q. ground arith;
}

abbrev clock : ClockHighWater milliseconds
clock = record {
  healthy_window_seconds = 1000;
  maximum_forward_slew_seconds = 100;
  total_seconds = λ later earlier. later - earlier;
}

abbrev sample : Sample ℕ
sample = record { utc_now = 7000; monotonic_now = 500; boot_id = "b"; synchronized = true }

abbrev later : Sample ℕ
later = record { utc_now = 8100; monotonic_now = 1600; boot_id = "b"; synchronized = true }

-- What the first sample leaves in the state file.
abbrev first_record : ClockRecord ℕ
first_record = record {
  boot_id = "b";
  utc_high_water = 7000;
  last_observed_utc = 7000;
  last_monotonic = 500;
  healthy_since_monotonic = some 500;
  trusted = false;
}

observe-Recorded_example :
    Recorded milliseconds (observe milliseconds clock returned later (stored first_record))
unfolding has_valid_readings
observe-Recorded_example =
    observe-Recorded milliseconds clock milliseconds_order returned later (stored first_record) refl
      refl

-- The first sample began the healthy window, and the later one ends it.
trusted_spans_example :
    Trusts milliseconds 1000 later
      (observe milliseconds clock returned later (stored first_record))
      (500 ∷ [])
unfolding observe has_valid_readings
trusted_spans_example =
    trusted_spans milliseconds clock later (stored first_record) returned
      (next here (observing sample _ published missing)) (found first_record refl)

becomes_trusted : observe milliseconds clock returned later (stored first_record) ≡ (
  ok (record { trusted = true; age_deletion_allowed = true; blocker = none }),
  some (
    record first_record {
      utc_high_water = 8100;
      last_observed_utc = 8100;
      last_monotonic = 1600;
      trusted = true;
    },
    record { trusted = true; age_deletion_allowed = true; blocker = none },
  ),
)
unfolding observe has_valid_readings
becomes_trusted = refl
