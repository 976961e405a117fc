-- ===== src/Resilience/Deadline.antt =====
-- `MonotonicDeadline` of src/nplg_mcp/contracts/base.py.
use nplg_dspace_mcp.Prelude.{Bool, not, ◌||◌, ◌&&◌, if◌then◌else◌, Result, ok, err}
use nplg_dspace_mcp.Prelude.Floats.{Floats, maximum}

pub record Deadline (Float : Type 0) : Type 0 where
  pub created_at : Float
  pub expires_at : Float

pub data DeadlineError : Type 0 where
  endpoint_invalid budget_invalid now_invalid clock_backwards : DeadlineError

module _ (fl : Floats) where
  open fl use {Float, sub, lt, le, is_finite, thousandths}

  -- a finite nonnegative double
  abbrev pub is_instant : Float → Bool
  is_instant v = is_finite v && not (lt v (thousandths 0))

  -- `__post_init__`; MAX_DEADLINE_BUDGET_SECONDS is 60
  unfoldable pub monotonic_deadline : Float → Float → Result DeadlineError (Deadline Float)
  monotonic_deadline created expires =
      if not (is_instant created) || not (is_instant expires)
      then err endpoint_invalid
      else if lt (sub expires created) (thousandths 0)
          || lt (thousandths 60_000) (sub expires created)
      then err budget_invalid
      else ok (record { created_at = created; expires_at = expires })

  unfoldable pub remaining : Deadline Float → Float → Result DeadlineError Float
  remaining d now =
      if not (is_instant now)
      then err now_invalid
      else if lt now d.created_at
      then err clock_backwards
      else ok (maximum fl (thousandths 0) (sub d.expires_at now))
