-- ===== src/Resilience/Complete.antt =====
-- `complete_attempt` of `UpstreamGuard` and what it calls, src/nplg_mcp/resilience.py.
use nplg_dspace_mcp.Prelude.{
  ℕ, ◌+◌, ◌-◌, Bool, true, false, not, ◌&&◌, ◌||◌, ◌==◌, Option, none, some, ltb, leb, min,
  if◌then◌else◌, Result, ok, err,
}
use nplg_dspace_mcp.Prelude.Floats.{Floats, minimum}
use nplg_dspace_mcp.Resilience.Policy.{Policy}
use nplg_dspace_mcp.Resilience.Guard.{
  CircuitState, closed, open_until, half_open, GuardError, sample_invalid, retry_invalid,
  accounting_invalid, outcome_invalid, Guard, read_clock, set_state,
}

-- `other` is any text that is none of the three literals.
pub data Outcome : Type 0 where
  success transient excluded other_outcome : Outcome

-- What the guard's collaborators answer during one completion.
pub record Environment (Float : Type 0) : Type 0 where
  pub reading : Option Float
  pub sample : Option Float
  pub cancels : Bool

abbrev pub is_closed : {Float : Type 0} → CircuitState Float → Bool
is_closed (closed _) = true
is_closed _ = false

module _ (fl : Floats) where
  open fl use {Float, add, sub, mul, lt, le, is_finite, ldexp_one, thousandths}

  abbrev pub Completion : Type 0
  Completion = Result (GuardError Float) (Unit {0}) × Guard Float

  -- `_open_interval`; the exponent is never negative here, as the count is at least 1
  unfoldable pub open_interval : Policy Float → ℕ → Option Float → Result (GuardError Float) Float
  open_interval p reopen_count none = err sample_invalid
  open_interval p reopen_count (some sample) =
      let exponent = min (reopen_count - 1) 30 in
      let baseline = minimum fl p.max_open_seconds (mul p.base_open_seconds (ldexp_one exponent)) in
      let factor =
        add (thousandths 1_000)
          (mul p.jitter_ratio (sub (mul (thousandths 2_000) sample) (thousandths 1_000))) in
      if is_finite sample && (le (thousandths 0) sample && le sample (thousandths 1_000))
      then ok (minimum fl p.max_open_seconds (mul baseline factor))
      else err sample_invalid

  -- `_transient_reopen_count`: a failure below the threshold is counted in the closed state, and any
  -- other gives the count to open with.
  unfoldable pub transient_reopen_count :
      CircuitState Float → Bool → Guard Float → Option ℕ × Guard Float
  transient_reopen_count (half_open retry_at reopen_count) probe g = (some (reopen_count + 1), g)
  transient_reopen_count (open_until retry_at reopen_count) probe g = (some (reopen_count + 1), g)
  transient_reopen_count (closed failures) probe g =
      if ltb (failures + 1) g.policy.failure_threshold
      then (none, record g { state = closed (failures + 1) })
      else (some 1, g)

  opened_at : Float → ℕ → Bool → Guard Float → Result (GuardError Float) Float → Completion
  opened_at now reopen_count cancels g (err e) = (err e, g)
  opened_at now reopen_count cancels g (ok interval) =
      let retry_at = add now interval in
      if not (is_finite retry_at) || le retry_at now
      then (err retry_invalid, g)
      else set_state fl (open_until retry_at reopen_count) cancels g

  opened_with : ℕ → Environment Float → Result (GuardError Float) Float × Guard Float → Completion
  unfolding opened_at
  opened_with reopen_count env (err e, g) = (err e, g)
  opened_with reopen_count env (ok now, g) =
      opened_at now reopen_count env.cancels g (open_interval g.policy reopen_count env.sample)

  opened : Environment Float → Option ℕ × Guard Float → Completion
  unfolding opened_with
  opened env (none, g) = (ok tt, g)
  opened env (some reopen_count, g) =
      opened_with reopen_count env
        (read_clock fl env.reading (record g { generation = g.generation + 1 }))

  reopened : ℕ → Bool → Result (GuardError Float) Float × Guard Float → Completion
  reopened reopen_count cancels (err e, g) = (err e, g)
  reopened reopen_count cancels (ok now, g) = set_state fl (open_until now reopen_count) cancels g

  excluded_in : CircuitState Float → Bool → Environment Float → Guard Float → Completion
  unfolding reopened
  excluded_in (half_open retry_at reopen_count) true env g =
      reopened reopen_count env.cancels
        (read_clock fl env.reading (record g { generation = g.generation + 1 }))
  excluded_in _ probe env g = (ok tt, g)

  -- the part of `complete_attempt` that a permit of the current generation reaches
  complete_current : Outcome → Bool → Environment Float → Guard Float → Completion
  unfolding excluded_in opened
  complete_current success probe env g =
      set_state fl (closed 0) env.cancels
        (record g { generation = if is_closed g.state then g.generation else g.generation + 1 })
  complete_current excluded probe env g = excluded_in g.state probe env g
  complete_current transient probe env g = opened env (transient_reopen_count g.state probe g)
  complete_current other_outcome probe env g = (err outcome_invalid, g)

  unfoldable pub complete_attempt :
      Bool → ℕ → Outcome → Environment Float → Guard Float → Completion
  unfolding complete_current
  complete_attempt probe generation outcome env g =
      if leb g.active 0
      then (err accounting_invalid, g)
      else if not (generation == g.generation)
      then (ok tt, record g { active = g.active - 1 })
      else complete_current outcome probe env (record g { active = g.active - 1 })
