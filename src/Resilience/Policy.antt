-- ===== src/Resilience/Policy.antt =====
-- `UpstreamGuardPolicy` of src/nplg_mcp/resilience.py.
use nplg_dspace_mcp.Prelude.{
  ℕ, Bool, ◌&&◌, Option, none, some, leb, if◌then◌else◌, Argument, int, pos,
}
use nplg_dspace_mcp.Prelude.Floats.{Floats}

pub record Policy (Float : Type 0) : Type 0 where
  pub capacity : ℕ
  pub failure_threshold : ℕ
  pub base_open_seconds : Float
  pub max_open_seconds : Float
  pub max_attempt_seconds : Float
  pub jitter_ratio : Float

-- an exact int from `lo` to `hi`
abbrev bounded_int : ℕ → ℕ → Argument → Option ℕ
bounded_int lo hi (int (pos n)) = if leb lo n && leb n hi then some n else none
bounded_int lo hi _ = none

module _ (fl : Floats) where
  open fl use {Float, lt, le, is_finite, thousandths}

  -- the conditions on the doubles; each argument is an exact float already
  unfoldable pub are_valid_seconds : Float → Float → Float → Float → Bool
  are_valid_seconds base longest attempt jitter =
      (is_finite base && lt (thousandths 0) base && le base (thousandths 3_600_000))
      && (is_finite longest && le base longest && le longest (thousandths 3_600_000))
      && (is_finite attempt && lt (thousandths 0) attempt && le attempt (thousandths 59_000))
      && (is_finite jitter && le (thousandths 0) jitter && le jitter (thousandths 500))

  -- `__post_init__`; `none` is the ValueError
  unfoldable pub upstream_guard_policy :
      Argument → Argument → Float → Float → Float → Float → Option (Policy Float)
  unfolding are_valid_seconds
  upstream_guard_policy capacity threshold base longest attempt jitter =
      elim (bounded_int 1 64 capacity) [
        | none ↦ none
        | some c ↦ elim (bounded_int 1 100 threshold) [
          | none ↦ none
          | some t ↦
              if are_valid_seconds base longest attempt jitter
              then some (record {
                capacity = c;
                failure_threshold = t;
                base_open_seconds = base;
                max_open_seconds = longest;
                max_attempt_seconds = attempt;
                jitter_ratio = jitter;
              })
              else none
        ]
      ]
