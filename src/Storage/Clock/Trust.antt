-- ===== src/Storage/Clock/Trust.antt =====
-- The runs of the clock's state file: what stands behind a trusted clock.
use nplg_dspace_mcp.Prelude.{
  Result, ◌≡◌, refl, ◌⊎◌, inl, inr, Bool, true, false, Option, none, some, List, [], ◌∷◌, arith, ok,
  err, if◌then◌else◌, Bool-cases,
}
use nplg_dspace_mcp.Prelude.Floats.{Floats, maximum}
use nplg_dspace_mcp.Storage.Clock.{
  ClockBlocker, ClockAssessment, ClockError, Write, refused, unpublished, published, returned,
  publish, record_refused, write_failed, record_invalid, has_valid_readings, Sample, ClockRecord,
  Reading, Observed, write, anomaly, baseline, accept, is_trusted, observe_record, observe, origin,
  ClockHighWater, assessment, missing_state, corrupt_state, unsynchronized, boot_changed,
  monotonic_rollback, wall_rollback, forward_step, warming_up,
}
use nplg_dspace_mcp.Storage.Clock.History.{
  In, History, after_blocker, extend, after, Reads, found, missing, corrupt, Spans, IsBacked,
}

module _ (fl : Floats) where
  open fl use {Float, sub, le}

  Spans-cons :
      (window m : Float) (healthy : List Float)
      → Spans fl window healthy
      → Spans fl window (m ∷ healthy)
  Spans-cons window m healthy (a, b, i, j, e) = (a, b, inr i, inr j, e)

  -- A record that is untrusted and whose origin is a healthy reading.
  module _ (window : Float) (r : ClockRecord Float) (healthy : List Float) where
    untrusted-IsBacked :
        r.trusted ≡ false
        → ((r.healthy_since_monotonic ≡ none)
            ⊎ ((since : Float) × (r.healthy_since_monotonic ≡ some since) × In since healthy))
        → IsBacked fl window (record { stored = some r; healthy = healthy })
    untrusted-IsBacked u (inl e) = record { origin = λ q s p f. cc; trust = λ q p t. ground arith }
    untrusted-IsBacked u (inr (since, e, i)) = record {
      origin = λ q s p f. ground (arith, i);
      trust = λ q p t. ground arith;
    }

  -- How a write may end: it returns, it raises but the record stands, or it raises and changes nothing.
  abbrev Ends : Observed Float → ClockRecord Float → ClockAssessment → Type 0
  Ends seen r a =
      (seen ≡ (ok a, some (r, a)))
      ⊎ ((e : ClockError) × (seen ≡ (err e, some (r, a))))
      ⊎ ((e : ClockError) × (seen ≡ (err e, none)))

  publish-Ends :
      (writes : Write) (r : ClockRecord Float) (a : ClockAssessment)
      → Ends (publish fl writes r a) r a
  unfolding publish
  publish-Ends refused r a = inr (inr (record_refused, refl))
  publish-Ends unpublished r a = inr (inr (write_failed, refl))
  publish-Ends published r a = inr (inl (write_failed, refl))
  publish-Ends returned r a = inl refl

  write-cases :
      (writes : Write) (r : ClockRecord Float) (a : ClockAssessment)
      → Ends (write fl writes r a) r a
  unfolding write
  write-cases writes r a = elim (Bool-cases (has_valid_readings fl r)) [
    | inl valid ↦ rw valid (publish-Ends writes r a)
    | inr invalid ↦ rw invalid (inr (inr (record_invalid, refl)))
  ]

  -- A trusted assessment rests on a healthy window that this sample ends or that was there before it.
  abbrev pub Rests : Float → Sample Float → Result ClockError ClockAssessment → List Float → Type 0
  Rests window sample (err e) healthy = Unit
  Rests window sample (ok a) healthy =
      a.trusted ≡ true → Spans fl window (sample.monotonic_now ∷ healthy)

  abbrev pub Trusts : Float → Sample Float → Observed Float → List Float → Type 0
  Trusts window sample seen healthy = Rests window sample seen.0 healthy

  abbrev Keeps : Float → Sample Float → History Float → Observed Float → Type 0
  Keeps window sample h seen =
      IsBacked fl window (after sample seen h) × Trusts window sample seen h.healthy

  -- What is written, if it is, keeps the history backed.
  write-Keeps :
      (window : Float) (sample : Sample Float) (h : History Float) (writes : Write)
      (r : ClockRecord Float) (a : ClockAssessment)
      → IsBacked fl window h
      → IsBacked fl window (record { stored = some r; healthy = extend sample a h.healthy })
      → (a.trusted ≡ true → Spans fl window (sample.monotonic_now ∷ h.healthy))
      → Keeps window sample h (write fl writes r a)
  write-Keeps window sample h writes r a v w t = elim (write-cases writes r a) [
    | inl e ↦ rw e (w, t)
    | inr (inl (x, e)) ↦ rw e (w, tt)
    | inr (inr (x, e)) ↦ rw e (v, tt)
  ]

  anomaly-Keeps :
      (window : Float) (sample : Sample Float) (h : History Float) (writes : Write)
      (r : ClockRecord Float) (last : Float) (blocker : ClockBlocker)
      → IsBacked fl window h
      → Keeps window sample h (anomaly fl writes sample r last blocker)
  unfolding anomaly
  anomaly-Keeps window sample h writes r last blocker v =
      write-Keeps window sample h writes _ _ v (untrusted-IsBacked window _ _ refl (inl refl))
        (λ e. cc)

  -- The blockers of a restart.
  abbrev is_restart : ClockBlocker → Bool
  is_restart missing_state = true
  is_restart corrupt_state = true
  is_restart boot_changed = true
  is_restart _ = false

  restart_origin :
      (sample : Sample Float)
      → ((if sample.synchronized then some sample.monotonic_now else none) ≡ none)
        ⊎ ((since : Float) × ((if sample.synchronized then some sample.monotonic_now else none)
              ≡ some since)
            × In since (if sample.synchronized then sample.monotonic_now ∷ [] else []))
  restart_origin sample = elim (Bool-cases sample.synchronized) [
    | inr off ↦ inl (rw off refl)
    | inl on ↦ inr (sample.monotonic_now, rw on refl, rw on (inl refl))
  ]

  baseline_origin :
      (sample : Sample Float) (healthy : List Float) (blocker : ClockBlocker)
      → is_restart blocker ≡ true
      → ((if sample.synchronized then some sample.monotonic_now else none) ≡ none)
        ⊎ ((since : Float) × ((if sample.synchronized then some sample.monotonic_now else none)
              ≡ some since)
            × In since (after_blocker sample blocker healthy))
  baseline_origin sample healthy missing_state e = restart_origin sample
  baseline_origin sample healthy corrupt_state e = restart_origin sample
  baseline_origin sample healthy boot_changed e = restart_origin sample
  baseline_origin sample healthy _ e = cc

  baseline-Keeps :
      (window : Float) (sample : Sample Float) (h : History Float) (writes : Write)
      (blocker : ClockBlocker)
      → is_restart blocker ≡ true
      → IsBacked fl window h
      → Keeps window sample h (baseline fl writes sample blocker)
  unfolding baseline
  baseline-Keeps window sample h writes blocker restart v =
      write-Keeps window sample h writes _ _ v
        (untrusted-IsBacked window _ _ refl (baseline_origin sample h.healthy blocker restart))
        (λ e. cc)

  module _ (c : ClockHighWater fl) where
    open c use {healthy_window_seconds as window}

    -- The origin of the window that a sample continues is a healthy reading or the sample's own.
    origin-In :
        (sample : Sample Float) (r : ClockRecord Float) (h : History Float) (since : Option Float)
        → r.healthy_since_monotonic ≡ since
        → h.stored ≡ some r
        → IsBacked fl window h
        → In (origin fl since sample.monotonic_now) (sample.monotonic_now ∷ h.healthy)
    origin-In sample r h none f e v = inl refl
    origin-In sample r h (some s) f e v = inr (v.origin r s e f)

    accept-Spans :
        (sample : Sample Float) (r : ClockRecord Float) (h : History Float)
        → h.stored ≡ some r
        → IsBacked fl window h
        → is_trusted fl c sample r ≡ true
        → Spans fl window (sample.monotonic_now ∷ h.healthy)
    unfolding is_trusted
    accept-Spans sample r h e v t = elim (Bool-cases r.trusted) [
      | inl before ↦ Spans-cons window sample.monotonic_now h.healthy (v.trust r e before)
      | inr new ↦ (
        origin fl r.healthy_since_monotonic sample.monotonic_now,
        sample.monotonic_now,
        origin-In sample r h r.healthy_since_monotonic refl e v,
        inl refl,
        rw new at t,
      )
    ]

    accepted-IsBacked :
        (r : ClockRecord Float) (healthy : List Float) (since : Float)
        → r.healthy_since_monotonic ≡ some since
        → In since healthy
        → (r.trusted ≡ true → Spans fl window healthy)
        → IsBacked fl window (record { stored = some r; healthy = healthy })
    accepted-IsBacked r healthy since e i t = record {
      origin = λ q s p f. ground (arith, i);
      trust = λ q p u. t (cc);
    }

    extend-accepted :
        (sample : Sample Float) (trusted : Bool) (healthy : List Float)
        → extend sample (assessment trusted (if trusted then none else some warming_up)) healthy
          ≡ sample.monotonic_now ∷ healthy
    unfolding assessment
    extend-accepted sample true healthy = refl
    extend-accepted sample false healthy = refl

    accept-Keeps :
        (sample : Sample Float) (r : ClockRecord Float) (h : History Float) (writes : Write)
        → h.stored ≡ some r
        → IsBacked fl window h
        → Keeps window sample h (accept fl c writes sample r)
    unfolding accept
    accept-Keeps sample r h writes e v =
        write-Keeps window sample h writes _ _ v
          (rw extend-accepted (
            accepted-IsBacked _ _ _ refl (origin-In sample r h r.healthy_since_monotonic refl e v)
              (accept-Spans sample r h e v)))
          (accept-Spans sample r h e v)

    observe-Keeps :
        (sample : Sample Float) (reading : Reading Float) (h : History Float) (writes : Write)
        → Reads h reading
        → IsBacked fl window h
        → Keeps window sample h (observe fl c writes sample reading)
    unfolding observe observe_record
    observe-Keeps sample reading h writes (found r e) v = ground (
      arith,
      anomaly-Keeps window sample h writes r (maximum fl r.last_monotonic sample.monotonic_now)
          unsynchronized v,
      baseline-Keeps window sample h writes boot_changed refl v,
      anomaly-Keeps window sample h writes r sample.monotonic_now monotonic_rollback v,
      anomaly-Keeps window sample h writes r sample.monotonic_now wall_rollback v,
      anomaly-Keeps window sample h writes r sample.monotonic_now forward_step v,
      accept-Keeps sample r h writes e v,
    )
    observe-Keeps sample reading h writes missing v =
        baseline-Keeps window sample h writes missing_state refl v
    observe-Keeps sample reading h writes (corrupt a b) v =
        ground (arith, baseline-Keeps window sample h writes corrupt_state refl v)

    -- One observation, whatever the file then reads as and however the write ends.
    pub data Step (h : History Float) : History Float → Type 0 where
      observing :
          (sample : Sample Float) (reading : Reading Float) (writes : Write)
          → Reads h reading
          → Step h (after sample (observe fl c writes sample reading) h)

    pub data Reach (h : History Float) : History Float → Type 0 where
      here : Reach h h
      next : {j k : History Float} → Reach h j → Step j k → Reach h k

    Reach-IsBacked : {h k : History Float} → IsBacked fl window h → Reach h k → IsBacked fl window k
    Reach-IsBacked v here = v
    Reach-IsBacked v (next {j = j} r (observing sample reading writes reads)) =
        (observe-Keeps sample reading j writes reads (Reach-IsBacked v r)).0

    -- Whatever was observed since there was no state file, however the writes ended, and whether the file then
    -- reads as the record published last or as none, a sample is trusted only if it and the samples recorded since
    -- the last anomaly, with the synchronized one that a restart begins with, hold two monotonic readings whose
    -- difference is at least the healthy window.
    pub trusted_spans :
        {h : History Float} (sample : Sample Float) (reading : Reading Float) (writes : Write)
        → Reach (record { stored = none; healthy = [] }) h
        → Reads h reading
        → Trusts window sample (observe fl c writes sample reading) h.healthy
    trusted_spans {h} sample reading writes r reads =
        let empty : IsBacked fl window (record { stored = none; healthy = [] }) = record {
          origin = λ q s p f. cc;
          trust = λ q p t. cc;
        } in
        (observe-Keeps sample reading h writes reads (Reach-IsBacked empty r)).1
