-- ===== src/Prelude/Bytes.antt =====
-- Byte strings as lists of numbers, with the operations of Python's `bytes` that the program calls.
use Prim.Native.Char.{code}
use Prim.Native.String.{String}
use Prim.Native.Nat.{ℕ, ◌+◌}
use mathlib.Core.Path.{◌≡◌, refl}
use mathlib.Core.Logic.{◌↔◌}
use mathlib.Core.Bool.{Bool, true, false, ◌&&◌}
use mathlib.Core.Option
use mathlib.Core.Option.{Option, none, some}
use mathlib.Core.List.{List, [], ◌∷◌, map}
use native.Mathlib.Omega.{arith}
use nplg_dspace_mcp.Prelude.Tests.{leb, ◌==◌, if◌then◌else◌}

abbrev pub Bytes : Type 0
Bytes = List ℕ

-- A literal.
abbrev pub codes : String → Bytes
codes String.[] = []
codes (String.◌∷◌ c s) = code c ∷ codes s

-- `a == b`
unfoldable pub bytes_eq : Bytes → Bytes → Bool
bytes_eq [] [] = true
bytes_eq [] (b ∷ s) = false
bytes_eq (a ∷ r) [] = false
bytes_eq (a ∷ r) (b ∷ s) = (a == b) && bytes_eq r s

pub bytes_eq_refl : (s : Bytes) → bytes_eq s s ≡ true
unfolding bytes_eq
bytes_eq_refl [] = refl
bytes_eq_refl (b ∷ s) = ground (arith, bytes_eq_refl s)

pub eq_of_bytes_eq : (r s : Bytes) → bytes_eq r s ≡ true → r ≡ s
unfolding bytes_eq
eq_of_bytes_eq [] [] h = refl
eq_of_bytes_eq [] (b ∷ s) h = cc
eq_of_bytes_eq (a ∷ r) [] h = cc
eq_of_bytes_eq (a ∷ r) (b ∷ s) h = ground (arith, eq_of_bytes_eq r s)

pub bytes_eq_iff : (r s : Bytes) → (bytes_eq r s ≡ true) ↔ (r ≡ s)
bytes_eq_iff r s = (eq_of_bytes_eq r s, λ e. rw e (bytes_eq_refl s))

-- `s.startswith(p)`
unfoldable pub starts_with : Bytes → Bytes → Bool
starts_with [] s = true
starts_with (a ∷ p) [] = false
starts_with (a ∷ p) (b ∷ s) = (a == b) && starts_with p s

abbrev pub between : ℕ → ℕ → ℕ → Bool
between lo hi b = leb lo b && leb b hi

-- `s.lower()`
unfoldable pub lower : Bytes → Bytes
lower s = map (λ b. if between b'A' b'Z' b then b + 32 else b) s

-- `b in s`
unfoldable pub has_byte : ℕ → Bytes → Bool
has_byte b [] = false
has_byte b (c ∷ s) = if b == c then true else has_byte b s

-- `s.split(sep)`
abbrev pub split_add : ℕ → List Bytes → List Bytes
split_add b [] = (b ∷ []) ∷ []
split_add b (p ∷ ps) = (b ∷ p) ∷ ps

unfoldable pub split : ℕ → Bytes → List Bytes
split sep [] = [] ∷ []
split sep (b ∷ s) = let parts = split sep s in if b == sep then [] ∷ parts else split_add b parts

-- `s.split(sep, 1)`, and `none` where the separator does not occur
unfoldable pub cut_at : ℕ → Bytes → Option (Bytes × Bytes)
cut_at sep [] = none
cut_at sep (b ∷ s) =
    let rest = Option.map (λ (p : Bytes × Bytes). (b ∷ p.0, p.1)) (cut_at sep s) in
    if b == sep then some ([], s) else rest
