-- ===== src/Preflight/Scan.antt =====
-- The byte level of `_JsonPreflightParser`: peeking, whitespace and numbers.
use nplg_dspace_mcp.Prelude.{
  ℕ, ◌+◌, ◌-◌, ◌*◌, Bool, true, false, not, ◌&&◌, ◌||◌, ◌==◌, leb, Option, none, some, List, [],
  ◌∷◌, if◌then◌else◌, length, take, ok, err,
}
use nplg_dspace_mcp.Preflight.Limits.{Parsed, Limits, rejected, require, ◌>>=◌, ◌>>◌}

unfoldable pub peek : List ℕ → Option ℕ
peek [] = none
peek (b ∷ rest) = some b

-- `_peek_byte() == expected`
unfoldable pub next_is : ℕ → List ℕ → Bool
next_is expected [] = false
next_is expected (b ∷ rest) = b == expected

-- the bytes after one that was read; there is one wherever the code calls it
unfoldable pub after : List ℕ → List ℕ
after [] = []
after (b ∷ rest) = rest

abbrev pub digit : ℕ → Bool
digit b = leb 0x30 b && leb b 0x39

-- `_is_digit(_peek_byte())` and `_is_nonzero_digit(_peek_byte())`
unfoldable pub next_is_digit : List ℕ → Bool
next_is_digit [] = false
next_is_digit (b ∷ rest) = digit b

unfoldable pub next_is_nonzero_digit : List ℕ → Bool
next_is_nonzero_digit [] = false
next_is_nonzero_digit (b ∷ rest) = leb 0x31 b && leb b 0x39

-- `_JSON_WHITESPACE`
abbrev pub is_whitespace : ℕ → Bool
is_whitespace b = b == 0x09 || (b == 0x0a || (b == 0x0d || b == 0x20))

unfoldable pub skip_whitespace : List ℕ → List ℕ
skip_whitespace [] = []
skip_whitespace (b ∷ rest) = if is_whitespace b then skip_whitespace rest else b ∷ rest

-- the loop of `_consume_one_or_more_digits`: the count of digits, the value, what is left
unfoldable pub scan_digits : Option ℕ → ℕ → ℕ → List ℕ → ℕ × ℕ × List ℕ
scan_digits limit digits value [] = (digits, value, [])
scan_digits limit digits value (b ∷ rest) =
    let value' : ℕ = elim limit [
      | none ↦ value
      | some l ↦ if leb value l then value * 10 + b - 0x30 else value
    ] in
    let more = scan_digits limit (digits + 1) value' rest in
    if digit b then more else (digits, value, b ∷ rest)

unfoldable pub consume_one_or_more_digits : Option ℕ → List ℕ → Parsed (ℕ × List ℕ)
unfolding scan_digits
consume_one_or_more_digits limit rest =
    let (digits, value, left) = scan_digits limit 0 0 rest in
    if digits == 0 then err rejected else ok (elim limit [ none ↦ digits | some _ ↦ value ], left)

unfoldable pub consume_sign : List ℕ → Parsed (List ℕ)
consume_sign [] = ok []
consume_sign (b ∷ []) = if b == 0x2d then err rejected else ok (b ∷ [])
consume_sign (b ∷ c ∷ rest) = ok (if b == 0x2d then c ∷ rest else b ∷ c ∷ rest)

unfoldable pub consume_integer : Limits → List ℕ → Parsed (List ℕ)
unfolding consume_one_or_more_digits next_is next_is_digit next_is_nonzero_digit after
consume_integer limits rest =
    if next_is 0x30 rest
    then (if next_is_digit (after rest) then err rejected else ok (after rest))
    else if next_is_nonzero_digit rest
    then (do
      (digits, left) ← consume_one_or_more_digits none rest
      require (leb digits limits.max_integer_digits)
      ok left)
    else err rejected

unfoldable pub consume_fraction : List ℕ → Parsed (Bool × List ℕ)
unfolding consume_one_or_more_digits next_is after
consume_fraction rest =
    if next_is 0x2e rest
    then (do (_, left) ← consume_one_or_more_digits none (after rest); ok (true, left))
    else ok (false, rest)

-- an optional sign of the exponent
unfoldable pub after_sign : List ℕ → List ℕ
unfolding next_is after
after_sign rest = if next_is 0x2b rest || next_is 0x2d rest then after rest else rest

unfoldable pub consume_exponent : Limits → List ℕ → Parsed (Bool × List ℕ)
unfolding consume_one_or_more_digits next_is after after_sign
consume_exponent limits rest =
    if next_is 0x65 rest || next_is 0x45 rest
    then (do
      (exponent, left) ←
          consume_one_or_more_digits (some limits.max_exponent_magnitude) (after_sign (after rest))
      require (leb exponent limits.max_exponent_magnitude)
      ok (true, left))
    else ok (false, rest)

-- `_consume_number`: whether the number is an integer. `finite` says whether the literal is a finite
-- double.
unfoldable pub consume_number : (List ℕ → Bool) → Limits → List ℕ → Parsed (Bool × List ℕ)
consume_number finite limits start = do
  unsigned ← consume_sign start
  whole ← consume_integer limits unsigned
  (has_fraction, fraction) ← consume_fraction whole
  (has_exponent, rest) ← consume_exponent limits fraction
  require (leb (length start - length rest) limits.max_scalar_bytes)
  require (finite (take (length start - length rest) start))
  ok (not has_fraction && not has_exponent, rest)
