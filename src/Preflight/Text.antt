-- ===== src/Preflight/Text.antt =====
-- `_consume_string` and what it calls, with the incremental strict UTF-8 decoder of the standard library.
use nplg_dspace_mcp.Prelude.{
  ℕ, zero, suc, ◌+◌, ◌-◌, ◌*◌, ◌/◌, ◌%◌, ◌^◌, Bool, true, false, not, ◌&&◌, ◌||◌, ◌==◌, ltb, leb,
  Option, none, some, List, [], ◌∷◌, ◌++◌, if◌then◌else◌, length, ok, err,
}
use nplg_dspace_mcp.Preflight.Limits.{Parsed, rejected, out_of_fuel, require, ◌>>=◌, ◌>>◌}
use nplg_dspace_mcp.Preflight.Scan.{next_is, after}

-- The decoder between two bytes: how many continuation bytes it still waits for, and the range of the
-- next of them.
pub data Decoder : Type 0 where
  ready : Decoder
  awaiting : ℕ → ℕ → ℕ → Decoder

abbrev within : ℕ → ℕ → ℕ → Bool
within lo hi b = leb lo b && leb b hi

-- the first byte of a code point
unfoldable pub decode_first : ℕ → Option Decoder
decode_first b =
    if ltb b 0x80
    then some ready
    else if within 0xc2 0xdf b
    then some (awaiting 1 0x80 0xbf)
    else if b == 0xe0
    then some (awaiting 2 0xa0 0xbf)
    else if b == 0xed
    then some (awaiting 2 0x80 0x9f)
    else if within 0xe1 0xef b
    then some (awaiting 2 0x80 0xbf)
    else if b == 0xf0
    then some (awaiting 3 0x90 0xbf)
    else if within 0xf1 0xf3 b
    then some (awaiting 3 0x80 0xbf)
    else if b == 0xf4
    then some (awaiting 3 0x80 0x8f)
    else none

-- `decoder.decode(bytes((value,)), final=False)`; `none` is a UnicodeDecodeError
unfoldable pub decode_byte : Decoder → ℕ → Option Decoder
unfolding decode_first
decode_byte ready b = decode_first b
decode_byte (awaiting zero lo hi) b = none
decode_byte (awaiting (suc zero) lo hi) b = if within lo hi b then some ready else none
decode_byte (awaiting (suc (suc n)) lo hi) b =
    if within lo hi b then some (awaiting (suc n) 0x80 0xbf) else none

-- `decoder.decode(b"", final=True)` raises nothing
abbrev pub is_ready : Decoder → Bool
is_ready ready = true
is_ready (awaiting _ _ _) = false

-- `decoded.decode("utf-8")` raises nothing
unfoldable pub is_utf8 : Decoder → List ℕ → Bool
unfolding decode_byte
is_utf8 d [] = is_ready d
is_utf8 d (b ∷ bytes) = elim (decode_byte d b) [ none ↦ false | some d' ↦ is_utf8 d' bytes ]

-- `_SIMPLE_ESCAPES`
unfoldable pub simple_escape : ℕ → Option ℕ
simple_escape b =
    if b == 0x22 || (b == 0x2f || b == 0x5c)
    then some b
    else if b == b'b'
    then some 0x08
    else if b == b'f'
    then some 0x0c
    else if b == b'n'
    then some 0x0a
    else if b == b'r'
    then some 0x0d
    else if b == b't'
    then some 0x09
    else none

-- the value of a byte of `_HEX_DIGITS`
unfoldable pub hex_value : ℕ → Option ℕ
hex_value b =
    if within 0x30 0x39 b
    then some (b - 0x30)
    else if within 0x41 0x46 b
    then some (b - 0x41 + 10)
    else if within 0x61 0x66 b
    then some (b - 0x61 + 10)
    else none

-- `_consume_unicode_code_unit`
unfoldable pub consume_unicode_code_unit : List ℕ → Parsed (ℕ × List ℕ)
consume_unicode_code_unit (a ∷ b ∷ c ∷ d ∷ rest) = elim (hex_value a) [
  | none ↦ err rejected
  | some w ↦ elim (hex_value b) [
    | none ↦ err rejected
    | some x ↦ elim (hex_value c) [
      | none ↦ err rejected
      | some y ↦ elim (hex_value d) [
        | none ↦ err rejected
        | some z ↦ ok (((w * 16 + x) * 16 + y) * 16 + z, rest)
      ]
    ]
  ]
]
consume_unicode_code_unit _ = err rejected

-- `chr(codepoint).encode("utf-8")` of a code point that is no surrogate
unfoldable pub encode_utf8 : ℕ → List ℕ
encode_utf8 c =
    if ltb c 0x80
    then c ∷ []
    else if ltb c 0x800
    then (0xc0 + c / 64) ∷ (0x80 + c % 64) ∷ []
    else if ltb c 0x10000
    then (0xe0 + c / 4096) ∷ (0x80 + (c / 64) % 64) ∷ (0x80 + c % 64) ∷ []
    else (0xf0 + c / 262144)
      ∷ (0x80 + (c / 4096) % 64)
      ∷ (0x80 + (c / 64) % 64)
      ∷ (0x80 + c % 64)
      ∷ []

-- the second half of a pair: `\u` and a low surrogate
unfoldable pub consume_low_surrogate : ℕ → List ℕ → Parsed (ℕ × List ℕ)
unfolding next_is after
consume_low_surrogate high rest = do
  require (next_is 0x5c rest && next_is b'u' (after rest))
  (low, left) ← consume_unicode_code_unit (after (after rest))
  require (within 0xdc00 0xdfff low)
  ok (0x10000 + (high - 0xd800) * 2 ^ 10 + (low - 0xdc00), left)

-- the branch of `_consume_escape` for `u`
unfoldable pub consume_unicode_escape : List ℕ → Parsed (List ℕ × List ℕ)
unfolding encode_utf8
consume_unicode_escape rest = do
  (unit, left) ← consume_unicode_code_unit rest
  if within 0xd800 0xdbff unit
      then (do
        (codepoint, after_pair) ← consume_low_surrogate unit left
        ok (encode_utf8 codepoint, after_pair))
      else if within 0xdc00 0xdfff unit
      then err rejected
      else ok (encode_utf8 unit, left)

-- `_consume_escape`: the bytes that it decodes to, and what is left
unfoldable pub consume_escape : List ℕ → Parsed (List ℕ × List ℕ)
unfolding simple_escape
consume_escape [] = err rejected
consume_escape (b ∷ rest) = elim (simple_escape b) [
  | some value ↦ ok (value ∷ [], rest)
  | none ↦ if b == b'u' then consume_unicode_escape rest else err rejected
]

-- The loop of `_consume_string`. `start` is how much was unread at `content_start`, so what has been
-- read of the content is `start - length rest`. The decoded bytes are kept whether or not the caller
-- wants them.
unfoldable pub string_loop : ℕ → ℕ → ℕ → Decoder → List ℕ → List ℕ → Parsed (List ℕ × List ℕ)
string_loop zero max_bytes start decoder decoded rest = err out_of_fuel
string_loop (suc fuel) max_bytes start decoder decoded [] = err rejected
string_loop (suc fuel) max_bytes start decoder decoded (b ∷ rest) =
    let plain = λ (d : Decoder). string_loop fuel max_bytes start d (decoded ++ b ∷ []) rest in
    let escaped =
      λ (value left : List ℕ). string_loop fuel max_bytes start ready (decoded ++ value) left in
    if b == 0x22
    then (do require (is_ready decoder); ok (decoded, rest))
    else if leb max_bytes (start - suc (length rest))
    then err rejected
    else if leb b 0x1f
    then err rejected
    else if not (b == 0x5c)
    then elim (decode_byte decoder b) [ none ↦ err rejected | some d ↦ plain d ]
    else (do
      require (is_ready decoder)
      (value, left) ← consume_escape rest
      require (leb (start - length left) max_bytes)
      escaped value left)

-- `_consume_string`: the decoded bytes, which the caller uses only if it said to retain them
unfoldable pub consume_string : ℕ → Bool → List ℕ → Parsed (List ℕ × List ℕ)
unfolding next_is after
consume_string max_bytes retain rest = do
  require (next_is 0x22 rest)
  (decoded, left) ← string_loop (length rest) max_bytes (length (after rest)) ready [] (after rest)
  require (not retain || is_utf8 ready decoded)
  ok (decoded, left)
