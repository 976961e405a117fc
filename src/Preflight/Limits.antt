-- ===== src/Preflight/Limits.antt =====
-- `JsonPreflightLimits`, the error, and what a step of the parser returns.
use nplg_dspace_mcp.Prelude.{ℕ, ◌*◌, Bool, true, false, ◌&&◌, leb, Result, ok, err}

pub data Stop : Type 0 where
  rejected out_of_fuel : Stop

abbrev pub Parsed {ℓ} : Type ℓ → Type ℓ
Parsed A = Result Stop A

infixl 5 ◌>>=◌ ◌>>◌
abbrev pub ◌>>=◌ {ℓ κ} : {A : Type ℓ} {B : Type κ} → Parsed A → (A → Parsed B) → Parsed B
ok a >>= f = f a
err e >>= f = err e

abbrev pub ◌>>◌ {ℓ} : {B : Type ℓ} → Parsed (Unit {0}) → Parsed B → Parsed B
m >> k = m >>= λ _. k

-- `if not condition: self._fail()`
abbrev pub require : Bool → Parsed (Unit {0})
require true = ok tt
require false = err rejected

pub record Limits : Type 0 where
  pub max_body_bytes : ℕ
  pub max_depth : ℕ
  pub max_object_members : ℕ
  pub max_array_items : ℕ
  pub max_tokens : ℕ
  pub max_key_bytes : ℕ
  pub max_scalar_bytes : ℕ
  pub max_integer_digits : ℕ
  pub max_exponent_magnitude : ℕ

abbrev between : ℕ → ℕ → ℕ → Bool
between lo hi n = leb lo n && leb n hi

-- the field constraints
unfoldable pub are_valid_limits : Limits → Bool
are_valid_limits l =
    between 1 (4 * 1024 * 1024) l.max_body_bytes
    && between 1 128 l.max_depth
    && between 1 65_536 l.max_object_members
    && between 1 65_536 l.max_array_items
    && between 1 1_000_000 l.max_tokens
    && between 1 65_536 l.max_key_bytes
    && between 1 (4 * 1024 * 1024) l.max_scalar_bytes
    && between 1 65_536 l.max_integer_digits
    && leb l.max_exponent_magnitude 1_000_000

-- `_DEFAULT_LIMITS`
abbrev pub default_limits : Limits
default_limits = record {
  max_body_bytes = 4 * 1024 * 1024;
  max_depth = 64;
  max_object_members = 4_096;
  max_array_items = 4_096;
  max_tokens = 100_000;
  max_key_bytes = 4_096;
  max_scalar_bytes = 4 * 1024 * 1024;
  max_integer_digits = 1_024;
  max_exponent_magnitude = 308;
}
