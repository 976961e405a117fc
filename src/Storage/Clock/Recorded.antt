-- ===== src/Storage/Clock/Recorded.antt =====
-- What an observation of the clock writes is a record that the program can read back.
use nplg_dspace_mcp.Prelude.{
  Result, ◌≡◌, refl, Bool, true, false, not, Option, none, some, arith, ok, err,
}
use nplg_dspace_mcp.Prelude.Floats.{Floats, maximum}
use nplg_dspace_mcp.Storage.Clock.{
  ClockBlocker, ClockAssessment, Sample, ClockRecord, Reading, stored, unreadable, record_invalid,
  Write, refused, unpublished, published, returned, publish, ClockError, Observed, is_monotonic,
  has_valid_readings, write, anomaly, baseline, accept, observe_record, observe,
  observe_absent_state, ClockHighWater, corrupt_state, unsynchronized, boot_changed,
  monotonic_rollback, wall_rollback, forward_step,
}

-- What IEEE 754 says of the order of finite doubles.
pub record FloatOrder (fl : Floats) : Type 0 where
  pub irreflexive : (a : fl.Float) → fl.lt a a ≡ false
  pub transitive :
      (a b c : fl.Float)
      → fl.is_finite a ≡ true
      → fl.is_finite b ≡ true
      → fl.is_finite c ≡ true
      → fl.lt b a ≡ false
      → fl.lt c b ≡ false
      → fl.lt c a ≡ false

abbrev is_some : Option ClockBlocker → Bool
is_some none = false
is_some (some b) = true

-- The validator of `ClockAssessment`.
abbrev pub IsConsistent : ClockAssessment → Type 0
IsConsistent a = (a.trusted ≡ a.age_deletion_allowed) × (is_some a.blocker ≡ not a.trusted)

module _ (fl : Floats) where
  open fl use {Float, lt}

  abbrev pub IsReadable : Reading Float → Type 0
  IsReadable (stored r) = has_valid_readings fl r ≡ true
  IsReadable (unreadable _ _ _) = Unit

  -- An observation does not raise for the readings of its record.
  abbrev pub Answers : Result ClockError ClockAssessment → Type 0
  Answers (err record_invalid) = ⊥
  Answers (err _) = Unit
  Answers (ok a) = IsConsistent a

  abbrev pub Writes : Option (ClockRecord Float × ClockAssessment) → Type 0
  Writes none = Unit
  Writes (some (r, a)) = has_valid_readings fl r ≡ true

  abbrev pub Recorded : Observed Float → Type 0
  Recorded seen = Answers seen.0 × Writes seen.1

  write-Recorded :
      (writes : Write) (r : ClockRecord Float) (a : ClockAssessment)
      → has_valid_readings fl r ≡ true
      → IsConsistent a
      → Recorded (write fl writes r a)
  unfolding write publish
  write-Recorded refused r a v c = ground arith
  write-Recorded unpublished r a v c = ground arith
  write-Recorded published r a v c = ground arith
  write-Recorded returned r a v c = ground arith

  baseline-Recorded :
      (laws : FloatOrder fl) (writes : Write) (sample : Sample Float) (blocker : ClockBlocker)
      → is_monotonic fl sample.monotonic_now ≡ true
      → Recorded (baseline fl writes sample blocker)
  unfolding baseline has_valid_readings
  baseline-Recorded laws writes sample blocker v =
      ground (arith, laws.irreflexive sample.monotonic_now)

  absent-Recorded :
      (laws : FloatOrder fl) (writes : Write) (sample : Sample Float)
      (blocker : Option ClockBlocker) (recoverable quarantined : Bool)
      → is_monotonic fl sample.monotonic_now ≡ true
      → Recorded (observe_absent_state fl writes sample blocker recoverable quarantined)
  unfolding observe_absent_state
  absent-Recorded laws writes sample none recoverable quarantined v =
      baseline-Recorded laws writes sample corrupt_state v
  absent-Recorded laws writes sample (some corrupt_state) recoverable quarantined v =
      ground (arith, baseline-Recorded laws writes sample corrupt_state v)
  absent-Recorded laws writes sample (some b) recoverable quarantined v =
      baseline-Recorded laws writes sample b v

  anomaly-Recorded :
      (writes : Write) (sample : Sample Float) (r : ClockRecord Float) (last : Float)
      (blocker : ClockBlocker)
      → is_monotonic fl last ≡ true
      → Recorded (anomaly fl writes sample r last blocker)
  unfolding anomaly has_valid_readings
  anomaly-Recorded writes sample r last blocker v = ground arith

  module _ (c : ClockHighWater fl) where
    accept-Recorded :
        (laws : FloatOrder fl) (writes : Write) (sample : Sample Float) (r : ClockRecord Float)
        → is_monotonic fl sample.monotonic_now ≡ true
        → has_valid_readings fl r ≡ true
        → lt sample.monotonic_now r.last_monotonic ≡ false
        → Recorded (accept fl c writes sample r)
    unfolding accept has_valid_readings
    accept-Recorded laws writes sample r v w later = by_origin r.healthy_since_monotonic refl
      where
        by_origin :
            (since : Option Float)
            → r.healthy_since_monotonic ≡ since
            → Recorded (accept fl c writes sample r)
        by_origin none e = ground (arith, laws.irreflexive sample.monotonic_now)
        by_origin (some s) e =
            ground (arith, laws.transitive s r.last_monotonic sample.monotonic_now)

    record-Recorded :
        (laws : FloatOrder fl) (writes : Write) (sample : Sample Float) (r : ClockRecord Float)
        → is_monotonic fl sample.monotonic_now ≡ true
        → has_valid_readings fl r ≡ true
        → Recorded (observe_record fl c writes sample r)
    unfolding observe_record has_valid_readings
    record-Recorded laws writes sample r v w = ground (
      arith,
      anomaly-Recorded writes sample r (maximum fl r.last_monotonic sample.monotonic_now)
          unsynchronized,
      baseline-Recorded laws writes sample boot_changed v,
      anomaly-Recorded writes sample r sample.monotonic_now monotonic_rollback v,
      anomaly-Recorded writes sample r sample.monotonic_now wall_rollback v,
      anomaly-Recorded writes sample r sample.monotonic_now forward_step v,
      accept-Recorded laws writes sample r v w,
    )

    -- For doubles ordered as IEEE 754 says, an observation of a sample with a valid monotonic reading, whatever
    -- readable state is found and however the write ends, is never refused for the monotonic readings of its
    -- record: it returns a consistent assessment, or raises for another validator of the record or for a failed
    -- write, and a record that it publishes passes the validators of the readings with which it is read back.
    pub observe-Recorded :
        (laws : FloatOrder fl) (writes : Write) (sample : Sample Float) (reading : Reading Float)
        → is_monotonic fl sample.monotonic_now ≡ true
        → IsReadable reading
        → Recorded (observe fl c writes sample reading)
    unfolding observe
    observe-Recorded laws writes sample (stored r) v w = record-Recorded laws writes sample r v w
    observe-Recorded laws writes sample (unreadable b recoverable quarantined) v w =
        absent-Recorded laws writes sample b recoverable quarantined v
