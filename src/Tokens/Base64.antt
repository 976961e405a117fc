-- ===== src/Tokens/Base64.antt =====
-- `_b64encode` and `_b64decode` of src/nplg_mcp/tokens.py, with the base64 of the standard library: the URL alphabet
-- to write, and to read also the standard one, in strict mode as it is documented.
pub mod RoundTrip
pub mod Letters
use mathlib.Core.Option
use nplg_dspace_mcp.Prelude.{
  ℕ, zero, suc, ◌*◌, ◌+◌, ◌-◌, ◌/◌, ◌%◌, ◌==◌, ltb, Bool, true, false, ◌||◌, List, [], ◌∷◌, ◌++◌,
  Option, none, some, if◌then◌else◌, length,
}
use nplg_dspace_mcp.Prelude.Bytes.{Bytes, between}

-- the character of six bits
unfoldable pub letter : ℕ → ℕ
letter n =
    if ltb n 26
    then b'A' + n
    else if ltb n 52
    then b'a' + (n - 26)
    else if ltb n 62
    then b'0' + (n - 52)
    else if n == 62
    then b'-'
    else b'_'

-- the six bits of a character; `altchars` are translated to the standard ones
unfoldable pub sextet : ℕ → Option ℕ
sextet c =
    if between b'A' b'Z' c
    then some (c - b'A')
    else if between b'a' b'z' c
    then some (c - b'a' + 26)
    else if between b'0' b'9' c
    then some (c - b'0' + 52)
    else if c == b'-' || c == b'+'
    then some 62
    else if c == b'_' || c == b'/'
    then some 63
    else none

-- `base64.urlsafe_b64encode`
unfoldable pub urlsafe_b64encode : Bytes → Bytes
unfolding letter
urlsafe_b64encode [] = []
urlsafe_b64encode (a ∷ []) = letter (a / 4) ∷ letter (a % 4 * 16) ∷ b'=' ∷ b'=' ∷ []
urlsafe_b64encode (a ∷ b ∷ []) =
    letter (a / 4) ∷ letter (a % 4 * 16 + b / 16) ∷ letter (b % 16 * 4) ∷ b'=' ∷ []
urlsafe_b64encode (a ∷ b ∷ c ∷ rest) =
    letter (a / 4)
    ∷ letter (a % 4 * 16 + b / 16)
    ∷ letter (b % 16 * 4 + c / 64)
    ∷ letter (c % 64)
    ∷ urlsafe_b64encode rest

-- `s.rstrip(b"=")`
unfoldable pub rstrip : Bytes → Bytes
rstrip [] = []
rstrip (c ∷ s) = elim (rstrip s) as (λ _. Bytes) [
  | [] ↦ if c == b'=' then [] else c ∷ []
  | d ∷ t ↦ c ∷ d ∷ t
]

unfoldable pub b64encode : Bytes → Bytes
unfolding urlsafe_b64encode rstrip
b64encode value = rstrip (urlsafe_b64encode value)

infixl 5 ◌>>=◌
abbrev ◌>>=◌ {ℓ κ} : {A : Type ℓ} {B : Type κ} → Option A → (A → Option B) → Option B
none >>= k = none
some a >>= k = k a

-- the last group, by its padding
unfoldable pub last_group : ℕ → ℕ → ℕ → Option Bytes
unfolding sextet
last_group a b c =
    if c == b'=' then (do x ← sextet a; y ← sextet b; some ((x * 4 + y / 16) ∷ [])) else (do
      x ← sextet a
      y ← sextet b
      z ← sextet c
      some ((x * 4 + y / 16) ∷ (y % 16 * 16 + z / 4) ∷ []))

abbrev is_nil : Bytes → Bool
is_nil [] = true
is_nil (b ∷ s) = false

-- `base64.b64decode` of a padded text
unfoldable pub strict_b64decode : Bytes → Option Bytes
unfolding last_group sextet
strict_b64decode [] = some []
strict_b64decode (a ∷ b ∷ c ∷ d ∷ rest) =
    let more = strict_b64decode rest in
    if d == b'=' then (if is_nil rest then last_group a b c else none) else (do
      x ← sextet a
      y ← sextet b
      z ← sextet c
      w ← sextet d
      decoded ← more
      some ((x * 4 + y / 16) ∷ (y % 16 * 16 + z / 4) ∷ (z % 4 * 64 + w) ∷ decoded))
strict_b64decode _ = none

-- `"=" * (-n % 4)`
unfoldable pub padding : ℕ → Bytes
padding n =
    if n % 4 == 0
    then []
    else if n % 4 == 1
    then b'=' ∷ b'=' ∷ b'=' ∷ []
    else if n % 4 == 2
    then b'=' ∷ b'=' ∷ []
    else b'=' ∷ []

unfoldable pub b64decode : Bytes → Option Bytes
unfolding padding strict_b64decode
b64decode value = strict_b64decode (value ++ padding (length value))
