-- ===== src/Preflight/Progress.antt =====
-- Every step of the lexer ends and reads what it says it read: no loop of the model runs out of fuel.
pub mod Rounds
use nplg_dspace_mcp.Prelude.{
  ℕ, zero, suc, ◌+◌, ◌-◌, ◌≤◌, ◌<◌, ◌≡◌, ◌==◌, refl, Bool, true, false, not, ◌&&◌, ◌||◌, Option,
  none, some, List, [], ◌∷◌, ◌++◌, arith, leb, if◌then◌else◌, length, ok, err, take, Bool-cases,
  inl, inr,
}
use nplg_dspace_mcp.Preflight.Limits.{Parsed, Limits, rejected, require, ◌>>=◌, ◌>>◌}
use nplg_dspace_mcp.Preflight.Post.{Post, Post-bind, Post-require, Post-if, Post-imp}
use nplg_dspace_mcp.Preflight.Scan.{
  next_is, next_is_digit, next_is_nonzero_digit, after, skip_whitespace, scan_digits,
  consume_one_or_more_digits, consume_sign, consume_integer, consume_fraction, consume_exponent,
  after_sign, consume_number, digit,
}
use nplg_dspace_mcp.Preflight.Text.{
  Decoder, ready, is_ready, is_utf8, decode_byte, hex_value, simple_escape,
  consume_unicode_code_unit, consume_low_surrogate, consume_unicode_escape, encode_utf8,
  consume_escape, string_loop, consume_string,
}

-- The rest is shorter than `n` bytes, or at most as long.
abbrev pub Shorter : {A : Type 0} → ℕ → A × List ℕ → Type 0
Shorter n (_, rest) = length rest < n

abbrev pub NoLonger : {A : Type 0} → ℕ → A × List ℕ → Type 0
NoLonger n (_, rest) = length rest ≤ n

pub length-skip_whitespace : (rest : List ℕ) → length (skip_whitespace rest) ≤ length rest
unfolding skip_whitespace
length-skip_whitespace [] = omega arith
length-skip_whitespace (b ∷ rest) = ground (arith, length-skip_whitespace rest)

pub length-after :
    (b : ℕ) (rest : List ℕ) → next_is b rest ≡ true → length (after rest) < length rest
unfolding after next_is
length-after b [] h = cc
length-after b (c ∷ rest) h = omega arith

length-after_le : (rest : List ℕ) → length (after rest) ≤ length rest
unfolding after
length-after_le [] = omega arith
length-after_le (b ∷ rest) = omega arith

-- The digits read and what is left make up the text.
scan_digits-length :
    (limit : Option ℕ) (rest : List ℕ) (n v : ℕ)
    → let (digits, _, left) = scan_digits limit n v rest in digits + length left ≡ n + length rest
unfolding scan_digits
scan_digits-length limit [] n v = refl
scan_digits-length limit (b ∷ rest) n v = elim (Bool-cases (digit b)) [
  | inl d ↦ rw (d, scan_digits) (omega (arith, scan_digits-length limit rest (n + 1) _))
  | inr d ↦ rw (d, scan_digits) refl
]

digits-Shorter :
    (limit : Option ℕ) (rest : List ℕ)
    → Post (Shorter (length rest)) (consume_one_or_more_digits limit rest)
unfolding consume_one_or_more_digits
digits-Shorter limit rest = ground (arith, scan_digits-length limit rest 0 0)

sign-NoLonger : (rest : List ℕ) → Post (λ (r : List ℕ). length r ≤ length rest) (consume_sign rest)
unfolding consume_sign
sign-NoLonger [] = omega arith
sign-NoLonger (b ∷ []) = ground arith
sign-NoLonger (b ∷ c ∷ rest) = ground arith

integer-Shorter :
    (limits : Limits) (rest : List ℕ)
    → Post (λ (r : List ℕ). length r < length rest) (consume_integer limits rest)
unfolding consume_integer
integer-Shorter limits rest = ground (arith, digits-Shorter none rest, length-after 0x30 rest)

fraction-NoLonger : (rest : List ℕ) → Post (NoLonger (length rest)) (consume_fraction rest)
unfolding consume_fraction
fraction-NoLonger rest = ground (arith, digits-Shorter none (after rest), length-after 0x2e rest)

length-after_sign : (rest : List ℕ) → length (after_sign rest) ≤ length rest
unfolding after_sign
length-after_sign rest = ground (arith, length-after_le rest)

exponent-NoLonger :
    (limits : Limits) (rest : List ℕ) → Post (NoLonger (length rest)) (consume_exponent limits rest)
unfolding consume_exponent
exponent-NoLonger limits rest = ground (
  arith,
  digits-Shorter (some limits.max_exponent_magnitude) (after_sign (after rest)),
  length-after_sign (after rest),
  length-after_le rest,
)

pub number-Shorter :
    (finite : List ℕ → Bool) (limits : Limits) (start : List ℕ)
    → Post (Shorter (length start)) (consume_number finite limits start)
unfolding consume_number
number-Shorter finite limits start =
    grind (arith, sign-NoLonger, integer-Shorter, fraction-NoLonger, exponent-NoLonger)

code_unit-Shorter : (rest : List ℕ) → Post (Shorter (length rest)) (consume_unicode_code_unit rest)
unfolding consume_unicode_code_unit
code_unit-Shorter (a ∷ b ∷ c ∷ d ∷ rest) = ground arith
code_unit-Shorter _ = tt

low_surrogate-NoLonger :
    (high : ℕ) (rest : List ℕ) → Post (NoLonger (length rest)) (consume_low_surrogate high rest)
unfolding consume_low_surrogate
low_surrogate-NoLonger high rest = ground (
  arith,
  code_unit-Shorter (after (after rest)),
  length-after_le rest,
  length-after_le (after rest),
)

unicode_escape-NoLonger :
    (rest : List ℕ) → Post (NoLonger (length rest)) (consume_unicode_escape rest)
unfolding consume_unicode_escape
unicode_escape-NoLonger rest = grind (arith, code_unit-Shorter, low_surrogate-NoLonger)

escape-Shorter : (rest : List ℕ) → Post (Shorter (length rest)) (consume_escape rest)
unfolding consume_escape
escape-Shorter [] = tt
escape-Shorter (b ∷ rest) = ground (arith, unicode_escape-NoLonger rest)

string_loop-Shorter :
    (fuel max_bytes start : ℕ) (decoder : Decoder) (decoded rest : List ℕ)
    → length rest < fuel
    → Post (Shorter (length rest)) (string_loop fuel max_bytes start decoder decoded rest)
unfolding string_loop
string_loop-Shorter zero max_bytes start decoder decoded rest h = absurd (omega arith)
string_loop-Shorter (suc fuel) max_bytes start decoder decoded [] h = tt
string_loop-Shorter (suc fuel) max_bytes start decoder decoded (b ∷ rest) h = grind (
  arith,
  λ (d : Decoder).
      string_loop-Shorter fuel max_bytes start d (decoded ++ b ∷ []) rest (omega arith),
  escape-Shorter rest,
  λ (value left : List ℕ) (p : length left < fuel).
      string_loop-Shorter fuel max_bytes start ready (decoded ++ value) left p,
)

pub string-Shorter :
    (max_bytes : ℕ) (retain : Bool) (rest : List ℕ)
    → Post (Shorter (length rest)) (consume_string max_bytes retain rest)
unfolding consume_string
string-Shorter max_bytes retain [] = tt
string-Shorter max_bytes retain (b ∷ rest) =
    ground (arith, string_loop-Shorter (suc (length rest)) max_bytes (length rest) ready [] rest)
