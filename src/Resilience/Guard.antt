-- ===== src/Resilience/Guard.antt =====
-- `UpstreamGuard` of src/nplg_mcp/resilience.py up to admission.
use nplg_dspace_mcp.Prelude.{
  arith, ℕ, ◌+◌, ◌-◌, ◌≡◌, ◌⊎◌, inl, inr, refl, Bool-cases, Bool, true, false, not, ◌&&◌, ◌==◌,
  Option, none, some, leb, if◌then◌else◌, Result, ok, err,
}
use nplg_dspace_mcp.Prelude.Floats.{Floats, minimum, maximum}
use nplg_dspace_mcp.Resilience.Deadline.{
  Deadline, DeadlineError, is_instant, monotonic_deadline, remaining,
}
use nplg_dspace_mcp.Resilience.Policy.{Policy}

pub data CircuitState (Float : Type 0) : Type 0 where
  closed : ℕ → CircuitState Float
  open_until : Float → ℕ → CircuitState Float
  half_open : Float → ℕ → CircuitState Float

pub data GuardError (Float : Type 0) : Type 0 where
  clock_invalid sample_invalid retry_invalid accounting_invalid outcome_invalid : GuardError Float
  deadline_expired already_recorded observer_cancelled : GuardError Float
  deadline_error : DeadlineError → GuardError Float
  unavailable : Float → GuardError Float

-- `AttemptPermit`, less its guard
pub record Permit (Float : Type 0) : Type 0 where
  pub probe : Bool
  pub generation : ℕ
  pub deadline : Deadline Float

pub record Guard (Float : Type 0) : Type 0 where
  pub policy : Policy Float
  pub last_now : Option Float
  pub active : ℕ
  pub generation : ℕ
  pub state : CircuitState Float

-- `_state_label`
abbrev pub state_label : {Float : Type 0} → CircuitState Float → ℕ
state_label (closed _) = 0
state_label (open_until _ _) = 1
state_label (half_open _ _) = 2

module _ (fl : Floats) where
  open fl use {Float, add, sub, lt, le, thousandths}

  -- `__init__` with its policy
  unfoldable pub upstream_guard : Policy Float → Guard Float
  upstream_guard policy = record {
    policy = policy;
    last_now = none;
    active = 0;
    generation = 0;
    state = closed 0;
  }

  has_gone_back : Option Float → Float → Bool
  has_gone_back none value = false
  has_gone_back (some last) value = lt value last

  -- `_now`; a reading that is no double is `none`
  unfoldable pub read_clock :
      Option Float → Guard Float → Result (GuardError Float) Float × Guard Float
  unfolding has_gone_back
  read_clock none g = (err clock_invalid, g)
  read_clock (some value) g =
      if is_instant fl value && not (has_gone_back g.last_now value)
      then (ok value, record g { last_now = some value })
      else (err clock_invalid, g)

  -- A reading is refused and changes nothing, or it is taken and kept.
  pub read_clock-cases :
      (reading : Option Float) (g : Guard Float)
      → (read_clock reading g ≡ (err clock_invalid, g))
        ⊎ ((v : Float) × (reading ≡ some v)
            × (read_clock reading g ≡ (ok v, record g { last_now = some v })))
  unfolding read_clock
  read_clock-cases none g = inl refl
  read_clock-cases (some v) g =
      elim (Bool-cases (is_instant fl v && not (has_gone_back g.last_now v))) [
        | inl valid ↦ inr (v, refl, rw valid)
        | inr invalid ↦ inl (rw invalid)
      ]

  -- A reading that is no clock's: no double, not finite, negative, or earlier than the last one.
  abbrev pub IsBadReading : Option Float → Option Float → Type 0
  IsBadReading last none = Unit
  IsBadReading none (some v) = (fl.is_finite v ≡ false) ⊎ (lt v (thousandths 0) ≡ true)
  IsBadReading (some last) (some v) =
      (fl.is_finite v ≡ false) ⊎ (lt v (thousandths 0) ≡ true) ⊎ (lt v last ≡ true)

  pub read_clock-bad :
      (reading : Option Float) (g : Guard Float)
      → IsBadReading g.last_now reading
      → read_clock reading g ≡ (err clock_invalid, g)
  unfolding read_clock has_gone_back
  read_clock-bad none g bad = refl
  read_clock-bad (some v) g bad = by_last g.last_now refl bad
    where
      by_last :
          (last : Option Float)
          → g.last_now ≡ last
          → IsBadReading last (some v)
          → read_clock (some v) g ≡ (err clock_invalid, g)
      by_last none e b = ground (arith, e, b)
      by_last (some l) e b = ground (arith, e, b)

  -- `_set_state`; the flag is whether an observer is set and raises a cancellation when it is called.
  -- Any other exception of the observer is swallowed.
  unfoldable pub set_state :
      CircuitState Float → Bool → Guard Float → Result (GuardError Float) (Unit {0}) × Guard Float
  set_state state cancels g = (
    if not (state_label g.state == state_label state) && cancels
        then err observer_cancelled
        else ok tt,
    record g { state = state },
  )

  -- `_unavailable`
  unavailable_for : Float → GuardError Float
  unavailable_for seconds =
      unavailable (minimum fl (thousandths 60_000) (maximum fl (thousandths 1) seconds))

  -- the end of `admit` for a probe: an observer that cancels takes the admission back
  entered :
      Float
      → ℕ
      → Permit Float
      → Result (GuardError Float) (Unit {0}) × Guard Float
      → Result (GuardError Float) (Permit Float) × Guard Float
  entered now reopen_count permit (ok _, g) = (ok permit, g)
  entered now reopen_count permit (err e, g) = (
    err e,
    record g {
      active = g.active - 1;
      generation = g.generation + 1;
      state = open_until now reopen_count;
    },
  )

  probe_granted :
      Float
      → Float
      → ℕ
      → Bool
      → Guard Float
      → Result DeadlineError (Deadline Float)
      → Result (GuardError Float) (Permit Float) × Guard Float
  unfolding entered set_state
  probe_granted now retry_at reopen_count cancels g (err e) = (err (deadline_error e), g)
  probe_granted now retry_at reopen_count cancels g (ok d) =
      entered now reopen_count (record { probe = true; generation = g.generation; deadline = d })
        (set_state (half_open retry_at reopen_count) cancels g)

  attempt_granted :
      Guard Float
      → Result DeadlineError (Deadline Float)
      → Result (GuardError Float) (Permit Float) × Guard Float
  attempt_granted g (err e) = (err (deadline_error e), g)
  attempt_granted g (ok d) =
      (ok (record { probe = false; generation = g.generation; deadline = d }), g)

  -- the deadline of the attempt
  unfoldable pub attempt_deadline :
      Float → Float → Guard Float → Result DeadlineError (Deadline Float)
  attempt_deadline now left g =
      monotonic_deadline fl now (add now (minimum fl left g.policy.max_attempt_seconds))

  -- `admit` from the state on, with time left
  admit_in :
      CircuitState Float
      → Float
      → Float
      → Bool
      → Guard Float
      → Result (GuardError Float) (Permit Float) × Guard Float
  unfolding unavailable_for probe_granted attempt_granted
  admit_in (closed failures) now left cancels g =
      if leb g.policy.capacity g.active
      then (err (unavailable_for (thousandths 100)), g)
      else attempt_granted (record g { active = g.active + 1 }) (attempt_deadline now left g)
  admit_in (open_until retry_at reopen_count) now left cancels g =
      if lt now retry_at
      then (err (unavailable_for (sub retry_at now)), g)
      else if leb g.policy.capacity g.active
      then (err (unavailable_for (thousandths 100)), g)
      else probe_granted now retry_at reopen_count cancels
          (record g { active = g.active + 1; generation = g.generation + 1 })
          (attempt_deadline now left g)
  admit_in (half_open retry_at reopen_count) now left cancels g =
      (err (unavailable_for (maximum fl (thousandths 100) (sub retry_at now))), g)

  unfoldable pub admit_with :
      Float
      → Bool
      → Guard Float
      → Result DeadlineError Float
      → Result (GuardError Float) (Permit Float) × Guard Float
  unfolding admit_in
  admit_with now cancels g (err e) = (err (deadline_error e), g)
  admit_with now cancels g (ok left) =
      if le left (thousandths 0)
      then (err deadline_expired, g)
      else admit_in g.state now left cancels g

  admit_at :
      Deadline Float
      → Bool
      → Result (GuardError Float) Float × Guard Float
      → Result (GuardError Float) (Permit Float) × Guard Float
  unfolding admit_with
  admit_at d cancels (err e, g) = (err e, g)
  admit_at d cancels (ok now, g) = admit_with now cancels g (remaining fl d now)

  unfoldable pub admit :
      Option Float
      → Deadline Float
      → Bool
      → Guard Float
      → Result (GuardError Float) (Permit Float) × Guard Float
  unfolding admit_at
  admit reading d cancels g = admit_at d cancels (read_clock reading g)
