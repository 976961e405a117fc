-- ===== src/Preflight/Grammar/Strings.antt =====
-- The strings that src/nplg_mcp/json_preflight.py accepts are in the grammar.
use nplg_dspace_mcp.Prelude.{
  ℕ, zero, suc, ◌≡◌, ◌==◌, ◌&&◌, Bool, true, false, some, List, [], ◌∷◌, ◌++◌, arith, leb, subst,
}
use nplg_dspace_mcp.Preflight.Scan.{next_is, after}
use nplg_dspace_mcp.Preflight.Text.{
  Decoder, ready, hex_value, simple_escape, consume_unicode_code_unit, consume_low_surrogate,
  consume_unicode_escape, consume_escape, string_loop, consume_string,
}
use nplg_dspace_mcp.Preflight.Grammar.{
  is_hex, is_simple_escape, Chars, quote, plain, simple, unicode, Text, text,
}
use nplg_dspace_mcp.Preflight.Grammar.Lexical.{Gives, Read, seen}

hex_value-is_hex : (b v : ℕ) → hex_value b ≡ some v → is_hex b ≡ true
unfolding hex_value
hex_value-is_hex b v e = ground arith

simple_escape-is_simple : (b v : ℕ) → simple_escape b ≡ some v → is_simple_escape b ≡ true
unfolding simple_escape
simple_escape-is_simple b v e = ground arith

-- What is read is the start of a string's content, whatever its end.
abbrev Content : {A : Type 0} → List ℕ → A × List ℕ → Type 0
Content rest (_, left) = (s : List ℕ) → Chars left s → Chars rest s

code_unit-Content :
    (rest : List ℕ) → Gives (Content (0x5c ∷ 0x75 ∷ rest)) (consume_unicode_code_unit rest)
unfolding consume_unicode_code_unit
code_unit-Content (a ∷ b ∷ c ∷ d ∷ rest) = grind (
  arith,
  hex_value-is_hex,
  λ (h : (is_hex a && (is_hex b && (is_hex c && is_hex d))) ≡ true) (s : List ℕ)
        (more : Chars rest s).
      unicode a b c d h more,
)
code_unit-Content _ = tt

-- A backslash and a `u` that were seen.
unicode_seen :
    (rest s : List ℕ)
    → next_is 0x5c rest ≡ true
    → next_is 0x75 (after rest) ≡ true
    → Chars (0x5c ∷ 0x75 ∷ after (after rest)) s
    → Chars rest s
unicode_seen rest s h k more =
    seen (λ r. Chars r s) 0x5c rest h (seen (λ r. Chars (0x5c ∷ r) s) 0x75 (after rest) k more)

low_surrogate-Content :
    (high : ℕ) (rest : List ℕ) → Gives (Content rest) (consume_low_surrogate high rest)
unfolding consume_low_surrogate
low_surrogate-Content high rest = grind (arith, code_unit-Content, unicode_seen)

unicode_escape-Content :
    (rest : List ℕ) → Gives (Content (0x5c ∷ 0x75 ∷ rest)) (consume_unicode_escape rest)
unfolding consume_unicode_escape
unicode_escape-Content rest = grind (arith, code_unit-Content, low_surrogate-Content)

escape-Content : (rest : List ℕ) → Gives (Content (0x5c ∷ rest)) (consume_escape rest)
unfolding consume_escape
escape-Content [] = tt
escape-Content (b ∷ rest) = grind (
  arith,
  unicode_escape-Content,
  simple_escape-is_simple,
  λ (h : is_simple_escape b ≡ true) (s : List ℕ) (more : Chars rest s). simple b h more,
)

quote_at : (b : ℕ) (rest : List ℕ) → (b == 0x22) ≡ true → Chars (b ∷ rest) rest
quote_at b rest e =
    let same : 0x22 ≡ b = ground (arith, e) in subst (λ c. Chars (c ∷ rest) rest) same quote

escape_at :
    (b : ℕ) (rest s : List ℕ) → (b == 0x5c) ≡ true → Chars (0x5c ∷ rest) s → Chars (b ∷ rest) s
escape_at b rest s e more =
    let same : 0x5c ≡ b = ground (arith, e) in subst (λ c. Chars (c ∷ rest) s) same more

string_loop-Chars :
    (fuel max_bytes start : ℕ) (decoder : Decoder) (decoded rest : List ℕ)
    → Gives (Read Chars rest) (string_loop fuel max_bytes start decoder decoded rest)
unfolding string_loop
string_loop-Chars zero max_bytes start decoder decoded rest = tt
string_loop-Chars (suc fuel) max_bytes start decoder decoded [] = tt
string_loop-Chars (suc fuel) max_bytes start decoder decoded (b ∷ rest) = grind (
  arith,
  λ (d : Decoder). string_loop-Chars fuel max_bytes start d (decoded ++ b ∷ []) rest,
  quote_at b rest,
  escape_at b rest,
  λ (s : List ℕ) (q : (b == 0x22) ≡ false) (e : (b == 0x5c) ≡ false) (c : leb b 0x1f ≡ false)
        (more : Chars rest s).
      plain b q e c more,
  escape-Content rest,
  λ (value left : List ℕ). string_loop-Chars fuel max_bytes start ready (decoded ++ value) left,
)

pub string-Text :
    (max_bytes : ℕ) (retain : Bool) (rest : List ℕ)
    → Gives (Read Text rest) (consume_string max_bytes retain rest)
unfolding consume_string
string-Text max_bytes retain rest = grind (
  arith,
  string_loop-Chars,
  λ (h : next_is 0x22 rest ≡ true) (left : List ℕ) (more : Chars (after rest) left).
      seen (λ r. Text r left) 0x22 rest h (text more),
)
