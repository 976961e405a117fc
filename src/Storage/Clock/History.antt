-- ===== src/Storage/Clock/History.antt =====
-- The clock's state file over time: what was written last, and the healthy readings behind it.
use nplg_dspace_mcp.Prelude.{
  ◌≡◌, ◌⊎◌, Bool, true, false, Option, none, some, List, [], ◌∷◌, if◌then◌else◌,
}
use nplg_dspace_mcp.Prelude.Floats.{Floats}
use nplg_dspace_mcp.Storage.Clock.{
  ClockBlocker, ClockAssessment, Sample, ClockRecord, Reading, stored, unreadable, Observed,
  missing_state, corrupt_state, unsynchronized, boot_changed, monotonic_rollback, wall_rollback,
  forward_step, warming_up,
}

-- A value stands in a list.
abbrev pub In : {A : Type 0} → A → List A → Type 0
In x [] = ⊥
In x (y ∷ ys) = (x ≡ y) ⊎ In x ys

-- The state file, and the monotonic readings of the samples that were recorded without an anomaly since the last
-- anomaly or restart.
pub record History (Float : Type 0) : Type 0 where
  pub stored : Option (ClockRecord Float)
  pub healthy : List Float

module _ {Float : Type 0} where
  -- A restart begins again with its own sample, if that is synchronized; an anomaly with none.
  abbrev pub after_blocker : Sample Float → ClockBlocker → List Float → List Float
  after_blocker sample warming_up healthy = sample.monotonic_now ∷ healthy
  after_blocker sample missing_state healthy =
      if sample.synchronized then sample.monotonic_now ∷ [] else []
  after_blocker sample corrupt_state healthy =
      if sample.synchronized then sample.monotonic_now ∷ [] else []
  after_blocker sample boot_changed healthy =
      if sample.synchronized then sample.monotonic_now ∷ [] else []
  after_blocker sample unsynchronized healthy = []
  after_blocker sample monotonic_rollback healthy = []
  after_blocker sample wall_rollback healthy = []
  after_blocker sample forward_step healthy = []

  abbrev pub extend : Sample Float → ClockAssessment → List Float → List Float
  extend sample a healthy = elim a.blocker [
    | none ↦ sample.monotonic_now ∷ healthy
    | some blocker ↦ after_blocker sample blocker healthy
  ]

  abbrev pub after_write :
      Sample Float → Option (ClockRecord Float × ClockAssessment) → History Float → History Float
  after_write sample none h = h
  after_write sample (some (r, a)) h = record {
    stored = some r;
    healthy = extend sample a h.healthy;
  }

  -- The history after an observation, which returned or raised: only what was written changes it.
  abbrev pub after : Sample Float → Observed Float → History Float → History Float
  after sample seen h = after_write sample seen.1 h

  -- The file, which nobody else writes, reads as the record that was published last, or as none that can be read; what is then missing or
  -- corrupt is so called.
  pub data Reads (h : History Float) : Reading Float → Type 0 where
    found : (r : ClockRecord Float) → h.stored ≡ some r → Reads h (stored r)
    missing : Reads h (unreadable (some missing_state) false false)
    corrupt :
        (recoverable quarantined : Bool)
        → Reads h (unreadable (some corrupt_state) recoverable quarantined)

module _ (fl : Floats) where
  open fl use {Float, sub, le}

  -- Two of the readings are at least the healthy window apart.
  abbrev pub Spans : Float → List Float → Type 0
  Spans window healthy =
      (first : Float) × (last : Float) × In first healthy
      × In last healthy
      × (le window (sub last first) ≡ true)

  -- A stored window origin is a healthy reading, and a stored trust rests on a healthy window.
  pub record IsBacked (window : Float) (h : History Float) : Type 0 where
    pub origin :
        (r : ClockRecord Float) (since : Float)
        → h.stored ≡ some r
        → r.healthy_since_monotonic ≡ some since
        → In since h.healthy
    pub trust :
        (r : ClockRecord Float) → h.stored ≡ some r → r.trusted ≡ true → Spans window h.healthy
