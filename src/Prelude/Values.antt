-- ===== src/Prelude/Values.antt =====
-- Results, integers and the dynamic arguments that the constructors of the program validate.
use Prim.Native.Nat.{ℕ}
use mathlib.Core.Bool.{Bool, true, false}

-- A call that returns or raises.
pub data Result {ℓ κ} (E : Type ℓ) (A : Type κ) : Type (ℓ ⊔ κ) where
  ok : A → Result E A
  err : E → Result E A

-- A Python int; `negsuc n` is -(n + 1).
pub data ℤ : Type 0 where
  pos : ℕ → ℤ
  negsuc : ℕ → ℤ

-- A value that a guard `type(value) is not int` examines: an exact int, or anything else.
pub data Argument : Type 0 where
  int : ℤ → Argument
  other : Argument

abbrev pub is_ok {ℓ κ} : {E : Type ℓ} {A : Type κ} → Result E A → Bool
is_ok (ok _) = true
is_ok (err _) = false
