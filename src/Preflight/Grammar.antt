-- ===== src/Preflight/Grammar.antt =====
-- JSON texts as relations between the bytes from where something starts and the bytes after it, written from the
-- grammar of RFC 8259 and not from the parser.
pub mod Lexical
pub mod Strings
pub mod Frames
pub mod States
pub mod Sound
use nplg_dspace_mcp.Prelude.{ℕ, ◌≡◌, ◌⊎◌, Bool, true, false, ◌&&◌, ◌||◌, ◌==◌, leb, List, [], ◌∷◌}

pub data Spaces : List ℕ → List ℕ → Type 0 where
  no_space : {r : List ℕ} → Spaces r r
  space :
      (b : ℕ) {r s : List ℕ}
      → (b == 0x09 || (b == 0x0a || (b == 0x0d || b == 0x20))) ≡ true
      → Spaces r s
      → Spaces (b ∷ r) s

abbrev pub is_digit : ℕ → Bool
is_digit b = leb 0x30 b && leb b 0x39

pub data Digits : List ℕ → List ℕ → Type 0 where
  last_digit : (b : ℕ) {r : List ℕ} → is_digit b ≡ true → Digits (b ∷ r) r
  next_digit : (b : ℕ) {r s : List ℕ} → is_digit b ≡ true → Digits r s → Digits (b ∷ r) s

pub data Whole : List ℕ → List ℕ → Type 0 where
  zero_alone : {r : List ℕ} → Whole (0x30 ∷ r) r
  nonzero_first :
      (b : ℕ) {r s : List ℕ}
      → (leb 0x31 b && leb b 0x39) ≡ true
      → Digits (b ∷ r) s
      → Whole (b ∷ r) s

pub data Fraction : List ℕ → List ℕ → Type 0 where
  no_fraction : {r : List ℕ} → Fraction r r
  fraction : {r s : List ℕ} → Digits r s → Fraction (0x2e ∷ r) s

pub data Sign : List ℕ → List ℕ → Type 0 where
  no_sign : {r : List ℕ} → Sign r r
  plus : {r : List ℕ} → Sign (0x2b ∷ r) r
  minus : {r : List ℕ} → Sign (0x2d ∷ r) r

pub data Exponent : List ℕ → List ℕ → Type 0 where
  no_exponent : {r : List ℕ} → Exponent r r
  exponent :
      (b : ℕ) {r s t : List ℕ}
      → (b == 0x65 || b == 0x45) ≡ true
      → Sign r s
      → Digits s t
      → Exponent (b ∷ r) t

pub data Number : List ℕ → List ℕ → Type 0 where
  number : {r s t u : List ℕ} → Whole r s → Fraction s t → Exponent t u → Number r u
  negative : {r s t u : List ℕ} → Whole r s → Fraction s t → Exponent t u → Number (0x2d ∷ r) u

abbrev pub is_hex : ℕ → Bool
is_hex b = is_digit b || ((leb 0x41 b && leb b 0x46) || (leb 0x61 b && leb b 0x66))

-- The bytes that may follow a backslash, but for `u`.
abbrev pub is_simple_escape : ℕ → Bool
is_simple_escape b =
    (b == 0x22 || (b == 0x5c || (b == 0x2f || b == 0x62)))
    || (b == 0x66 || (b == 0x6e || (b == 0x72 || b == 0x74)))

pub data Chars : List ℕ → List ℕ → Type 0 where
  quote : {r : List ℕ} → Chars (0x22 ∷ r) r
  plain :
      (b : ℕ) {r s : List ℕ}
      → (b == 0x22) ≡ false
      → (b == 0x5c) ≡ false
      → leb b 0x1f ≡ false
      → Chars r s
      → Chars (b ∷ r) s
  simple : (b : ℕ) {r s : List ℕ} → is_simple_escape b ≡ true → Chars r s → Chars (0x5c ∷ b ∷ r) s
  unicode :
      (a b c d : ℕ) {r s : List ℕ}
      → (is_hex a && (is_hex b && (is_hex c && is_hex d))) ≡ true
      → Chars r s
      → Chars (0x5c ∷ 0x75 ∷ a ∷ b ∷ c ∷ d ∷ r) s

pub data Text : List ℕ → List ℕ → Type 0 where
  text : {r s : List ℕ} → Chars r s → Text (0x22 ∷ r) s

-- A value, and what follows a value in its container, to the closing bracket.
mutual
  pub data Value : List ℕ → List ℕ → Type 0 where
    true_value : {r : List ℕ} → Value (0x74 ∷ 0x72 ∷ 0x75 ∷ 0x65 ∷ r) r
    false_value : {r : List ℕ} → Value (0x66 ∷ 0x61 ∷ 0x6c ∷ 0x73 ∷ 0x65 ∷ r) r
    null_value : {r : List ℕ} → Value (0x6e ∷ 0x75 ∷ 0x6c ∷ 0x6c ∷ r) r
    number_value : {r s : List ℕ} → Number r s → Value r s
    text_value : {r s : List ℕ} → Text r s → Value r s
    empty_array : {r s : List ℕ} → Spaces r (0x5d ∷ s) → Value (0x5b ∷ r) s
    array_of :
        {a b c d e : List ℕ}
        → Spaces a b
        → Value b c
        → Spaces c d
        → ArrayTail d e
        → Value (0x5b ∷ a) e
    empty_object : {r s : List ℕ} → Spaces r (0x7d ∷ s) → Value (0x7b ∷ r) s
    object_of :
        {a b c d e : List ℕ}
        → Spaces a b
        → Member b c
        → Spaces c d
        → ObjectTail d e
        → Value (0x7b ∷ a) e

  pub data Member : List ℕ → List ℕ → Type 0 where
    member :
        {a b c d e : List ℕ} → Text a b → Spaces b (0x3a ∷ c) → Spaces c d → Value d e → Member a e

  pub data ArrayTail : List ℕ → List ℕ → Type 0 where
    array_end : {r : List ℕ} → ArrayTail (0x5d ∷ r) r
    array_next :
        {a b c d e : List ℕ}
        → Spaces a b
        → Value b c
        → Spaces c d
        → ArrayTail d e
        → ArrayTail (0x2c ∷ a) e

  pub data ObjectTail : List ℕ → List ℕ → Type 0 where
    object_end : {r : List ℕ} → ObjectTail (0x7d ∷ r) r
    object_next :
        {a b c d e : List ℕ}
        → Spaces a b
        → Member b c
        → Spaces c d
        → ObjectTail d e
        → ObjectTail (0x2c ∷ a) e

-- A value with space around it and nothing else.
pub data Document : List ℕ → Type 0 where
  document : {a b c : List ℕ} → Spaces a b → Value b c → Spaces c [] → Document a
