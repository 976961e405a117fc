-- ===== src/Resilience/Permits.antt =====
-- `AttemptPermit` and `_PermitContext` of src/nplg_mcp/resilience.py: each permit records one outcome.
-- A run keeps the guard and every permit it has given out, by its place.
use nplg_dspace_mcp.Prelude.{
  ℕ, Bool, true, false, Option, List, [], ◌∷◌, ◌++◌, if◌then◌else◌, Result, ok, err, set,
}
use nplg_dspace_mcp.Prelude.Floats.{Floats}
use nplg_dspace_mcp.Resilience.Deadline.{Deadline}
use nplg_dspace_mcp.Resilience.Guard.{GuardError, already_recorded, Permit, Guard, admit}
use nplg_dspace_mcp.Resilience.Complete.{Outcome, excluded, Environment, complete_attempt}

pub record Attempt (Float : Type 0) : Type 0 where
  pub permit : Permit Float
  pub finalized : Bool

pub record World (Float : Type 0) : Type 0 where
  pub guard : Guard Float
  pub attempts : List (Attempt Float)

module _ (fl : Floats) where
  open fl use {Float}

  unfoldable pub entered :
      List (Attempt Float) → Result (GuardError Float) (Permit Float) × Guard Float → World Float
  entered attempts (ok p, g) = record {
    guard = g;
    attempts = attempts ++ record { permit = p; finalized = false } ∷ [];
  }
  entered attempts (err e, g) = record { guard = g; attempts = attempts }

  -- `__aenter__`
  unfoldable pub enter : Option Float → Deadline Float → Bool → World Float → World Float
  unfolding entered
  enter reading d cancels w = entered w.attempts (admit fl reading d cancels w.guard)

  -- `_record`: the permit is final once the completion has run, also where it raised.
  unfoldable pub record_outcome :
      ℕ
      → Attempt Float
      → Outcome
      → Environment Float
      → World Float
      → Result (GuardError Float) (Unit {0}) × World Float
  record_outcome i a outcome env w =
      if a.finalized
      then (err already_recorded, w)
      else (let (r, g) =
            complete_attempt fl a.permit.probe a.permit.generation outcome env w.guard in
          (r, record { guard = g; attempts = set w.attempts i (record a { finalized = true }) }))

  -- `__aexit__`: what the block did not record is recorded as excluded.
  unfoldable pub leave :
      ℕ
      → Attempt Float
      → Environment Float
      → World Float
      → Result (GuardError Float) (Unit {0}) × World Float
  unfolding record_outcome
  leave i a env w = if a.finalized then (ok tt, w) else record_outcome i a excluded env w
