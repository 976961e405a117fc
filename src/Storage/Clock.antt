-- ===== src/Storage/Clock.antt =====
-- `ClockHighWater` of src/nplg_mcp/storage_lifecycle.py: when the wall clock may be trusted to delete by age.
-- A UTC time is its microseconds, so datetimes are compared exactly. `total_seconds later earlier` is the double
-- that `(later - earlier).total_seconds()` returns. What the state file reads as, whether a corrupt one could be
-- quarantined and how the write ends are observed.
pub mod History
pub mod Trust
pub mod Recorded
use Prim.Native.String.{String}
use text.Mathlib.Text.{◌==◌}
use nplg_dspace_mcp.Prelude.{
  ℕ, Bool, true, false, not, ◌&&◌, ◌||◌, Option, none, some, max, ltb, if◌then◌else◌, Result, ok,
  err,
}
use nplg_dspace_mcp.Prelude.Floats.{Floats, maximum}

pub data ClockBlocker : Type 0 where
  missing_state corrupt_state unsynchronized boot_changed : ClockBlocker
  monotonic_rollback wall_rollback forward_step warming_up : ClockBlocker

pub record ClockAssessment : Type 0 where
  pub trusted : Bool
  pub age_deletion_allowed : Bool
  pub blocker : Option ClockBlocker

-- `RetentionClockSample`
pub record Sample (Float : Type 0) : Type 0 where
  pub utc_now : ℕ
  pub monotonic_now : Float
  pub boot_id : String
  pub synchronized : Bool

-- `_ClockRecordInput`, and `_ClockHighWaterRecord` but for its version and digest
pub record ClockRecord (Float : Type 0) : Type 0 where
  pub boot_id : String
  pub utc_high_water : ℕ
  pub last_observed_utc : ℕ
  pub last_monotonic : Float
  pub healthy_since_monotonic : Option Float
  pub trusted : Bool

-- What `_read` finds: a record, or none with a blocker, whether the state could be recovered and, if so, whether its
-- quarantine succeeds.
pub data Reading (Float : Type 0) : Type 0 where
  stored : ClockRecord Float → Reading Float
  unreadable : Option ClockBlocker → Bool → Bool → Reading Float

-- How the writing of a record ends: a validator of its boot id, times or digest refuses it; it raises before or after
-- the new file is renamed into its place; or it returns. The boot id and the times come from a sample or a record that
-- passed the same validators, and the digest is of two JSON texts of the model layer, which is not modelled.
pub data Write : Type 0 where
  refused unpublished published returned : Write

pub data ClockError : Type 0 where
  record_invalid record_refused write_failed : ClockError

-- An observation: its assessment, and the record that stands in the file since, with the assessment of its sample,
-- if it wrote one.
abbrev pub Observed : Type 0 → Type 0
Observed Float = Result ClockError ClockAssessment × Option (ClockRecord Float × ClockAssessment)

unfoldable pub assessment : Bool → Option ClockBlocker → ClockAssessment
assessment trusted blocker = record {
  trusted = trusted;
  age_deletion_allowed = trusted;
  blocker = blocker;
}

module _ (fl : Floats) where
  open fl use {Float, sub, add, lt, le, is_finite, thousandths}

  -- a field that is a finite double of at least 0
  abbrev pub is_monotonic : Float → Bool
  is_monotonic v = is_finite v && le (thousandths 0) v

  abbrev is_origin : Float → Option Float → Bool
  is_origin last none = true
  is_origin last (some since) = is_monotonic since && not (lt last since)

  abbrev is_none : Option Float → Bool
  is_none none = true
  is_none (some since) = false

  -- the validators of the monotonic readings of `_ClockHighWaterRecord`; the others are an answer of `Write`
  unfoldable pub has_valid_readings : ClockRecord Float → Bool
  has_valid_readings r =
      is_monotonic r.last_monotonic
      && (is_origin r.last_monotonic r.healthy_since_monotonic
          && not (r.trusted && is_none r.healthy_since_monotonic))

  -- `_clock_record` and `_write`, past the validators of the readings
  unfoldable pub publish : Write → ClockRecord Float → ClockAssessment → Observed Float
  publish refused r a = (err record_refused, none)
  publish unpublished r a = (err write_failed, none)
  publish published r a = (err write_failed, some (r, a))
  publish returned r a = (ok a, some (r, a))

  -- `_clock_record` and `_write`
  unfoldable pub write : Write → ClockRecord Float → ClockAssessment → Observed Float
  unfolding publish
  write writes r a =
      if not (has_valid_readings r) then (err record_invalid, none) else publish writes r a

  -- `_baseline`
  unfoldable pub baseline : Write → Sample Float → ClockBlocker → Observed Float
  unfolding assessment write
  baseline writes sample blocker =
      write writes
        (record {
          boot_id = sample.boot_id;
          utc_high_water = sample.utc_now;
          last_observed_utc = sample.utc_now;
          last_monotonic = sample.monotonic_now;
          healthy_since_monotonic = if sample.synchronized then some sample.monotonic_now else none;
          trusted = false;
        })
        (assessment false (some blocker))

  -- `_observe_absent_state`
  unfoldable pub observe_absent_state :
      Write → Sample Float → Option ClockBlocker → Bool → Bool → Observed Float
  unfolding baseline
  observe_absent_state writes sample (some corrupt_state) recoverable quarantined =
      if recoverable && quarantined
      then baseline writes sample corrupt_state
      else (ok (assessment false (some corrupt_state)), none)
  observe_absent_state writes sample none recoverable quarantined =
      baseline writes sample corrupt_state
  observe_absent_state writes sample (some blocker) recoverable quarantined =
      baseline writes sample blocker

  -- a record of an anomaly: untrusted, with no healthy window
  unfoldable pub anomaly :
      Write → Sample Float → ClockRecord Float → Float → ClockBlocker → Observed Float
  unfolding assessment write
  anomaly writes sample r last_monotonic blocker =
      write writes
        (record {
          boot_id = r.boot_id;
          utc_high_water = max r.utc_high_water sample.utc_now;
          last_observed_utc = sample.utc_now;
          last_monotonic = last_monotonic;
          healthy_since_monotonic = none;
          trusted = false;
        })
        (assessment false (some blocker))

  abbrev pub origin : Option Float → Float → Float
  origin none now = now
  origin (some since) now = since

  -- `__init__`, with the intervals as doubles, and `total_seconds`
  pub record ClockHighWater : Type 0 where
    pub healthy_window_seconds : Float
    pub maximum_forward_slew_seconds : Float
    pub total_seconds : ℕ → ℕ → Float

  module _ (c : ClockHighWater) where
    open c use {healthy_window_seconds, maximum_forward_slew_seconds, total_seconds}

    -- the wall clock against the monotonic one
    unfoldable pub wall_blocker : Sample Float → ClockRecord Float → Option ClockBlocker
    wall_blocker sample r =
        if lt (total_seconds sample.utc_now r.last_observed_utc) (thousandths 0)
        then some wall_rollback
        else if lt (add (sub sample.monotonic_now r.last_monotonic) maximum_forward_slew_seconds)
            (total_seconds sample.utc_now r.last_observed_utc)
        then some forward_step
        else none

    -- `trusted` of a sample with no blocker
    unfoldable pub is_trusted : Sample Float → ClockRecord Float → Bool
    is_trusted sample r =
        r.trusted
        || le healthy_window_seconds
            (sub sample.monotonic_now (origin r.healthy_since_monotonic sample.monotonic_now))

    -- the end of `_observe_locked`, past every anomaly
    unfoldable pub accept : Write → Sample Float → ClockRecord Float → Observed Float
    unfolding is_trusted assessment write
    accept writes sample r =
        write writes
          (record {
            boot_id = r.boot_id;
            utc_high_water = max r.utc_high_water sample.utc_now;
            last_observed_utc = sample.utc_now;
            last_monotonic = sample.monotonic_now;
            healthy_since_monotonic = some (origin r.healthy_since_monotonic sample.monotonic_now);
            trusted = is_trusted sample r;
          })
          (assessment (is_trusted sample r) (if is_trusted sample r then none else some warming_up))

    -- `_observe_locked` of a record
    unfoldable pub observe_record : Write → Sample Float → ClockRecord Float → Observed Float
    unfolding anomaly baseline wall_blocker accept
    observe_record writes sample r =
        if not sample.synchronized
        then anomaly writes sample r (maximum fl r.last_monotonic sample.monotonic_now)
            unsynchronized
        else if not (sample.boot_id == r.boot_id)
        then baseline writes sample boot_changed
        else if lt sample.monotonic_now r.last_monotonic
        then anomaly writes sample r sample.monotonic_now monotonic_rollback
        else elim (wall_blocker sample r) [
          | some blocker ↦ anomaly writes sample r sample.monotonic_now blocker
          | none ↦ accept writes sample r
        ]

    -- `_observe_locked`
    unfoldable pub observe : Write → Sample Float → Reading Float → Observed Float
    unfolding observe_record observe_absent_state
    observe writes sample (stored r) = observe_record writes sample r
    observe writes sample (unreadable blocker recoverable quarantined) =
        observe_absent_state writes sample blocker recoverable quarantined
