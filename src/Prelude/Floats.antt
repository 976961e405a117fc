-- ===== src/Prelude/Floats.antt =====
-- The doubles that the program computes with, as an interface: only what the code calls, with no laws.
-- `min` and `max` are Python's built-in functions, which compare by `<`.
use Prim.Native.Nat.{ℕ}
use mathlib.Core.Bool.{Bool}
use nplg_dspace_mcp.Prelude.Tests.{if◌then◌else◌}

pub record Floats : Type 1 where
  pub Float : Type 0
  pub add : Float → Float → Float
  pub sub : Float → Float → Float
  pub mul : Float → Float → Float
  -- `a < b` and `a <= b`; a NaN makes both false
  pub lt : Float → Float → Bool
  pub le : Float → Float → Bool
  -- `math.isfinite` and `math.ldexp(1.0, n)`
  pub is_finite : Float → Bool
  pub ldexp_one : ℕ → Float
  -- the literal n / 1000
  pub thousandths : ℕ → Float

module _ (fl : Floats) where
  open fl use {Float, lt}

  abbrev pub minimum : Float → Float → Float
  minimum a b = if lt b a then b else a

  abbrev pub maximum : Float → Float → Float
  maximum a b = if lt a b then b else a
