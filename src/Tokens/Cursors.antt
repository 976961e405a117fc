-- ===== src/Tokens/Cursors.antt =====
-- The search cursors of src/nplg_mcp/tokens.py. The keyed hash, the hash, the JSON codec of the standard library and
-- the model layer, a third-party library, are parameters; the constraints that the model declares are `is_cursor`.
-- Texts are code points, and times are microseconds of UTC. Python's recursion limit is not modelled.
pub mod Bound
pub mod Issued
mod Tests
use nplg_dspace_mcp.Prelude.{
  ℕ, ◌*◌, ◌+◌, Bool, true, false, not, ◌&&◌, ◌||◌, ◌==◌, ltb, leb, [], ◌∷◌, ◌++◌, Option, none,
  some, if◌then◌else◌, Result, ok, ℤ, pos, negsuc, length, any,
}
use nplg_dspace_mcp.Prelude.Bytes.{Bytes, codes, bytes_eq, between, cut_at}
use nplg_dspace_mcp.Tokens.Checks.{◌>>=◌, ◌>>◌, check, present}
use nplg_dspace_mcp.Tokens.Halves.{is_ascii}
use nplg_dspace_mcp.Tokens.Base64.{b64encode, b64decode}
use nplg_dspace_mcp.Tokens.Json.{JsonValue, load_json_object}

pub record CursorV1 : Type 0 where
  pub version : ℤ
  pub key_id : Bytes
  pub query_hash : Bytes
  pub scope_handle : Option Bytes
  pub offset : ℤ
  pub page_size : ℤ
  pub issued_at : ℕ
  pub expires_at : ℕ

-- `Ge(lo), Le(hi)`
unfoldable pub in_range : ℕ → ℕ → ℤ → Bool
in_range lo hi (pos n) = between lo hi n
in_range lo hi (negsuc n) = false

unfoldable pub is_digit : ℕ → Bool
is_digit c = between b'0' b'9' c

-- `^[a-z0-9-]+$`, of 1 to 64 characters
unfoldable pub is_bounded_key_id : Bytes → Bool
unfolding is_digit
is_bounded_key_id s =
    between 1 64 (length s)
    && not (any (λ c. not (between b'a' b'z' c || is_digit c || c == b'-')) s)

-- `^[0-9a-f]{64}$`
unfoldable pub is_sha256 : Bytes → Bool
unfolding is_digit
is_sha256 s = (length s == 64) && not (any (λ c. not (is_digit c || between b'a' b'f' c)) s)

-- `[1-9][0-9]{0,31}`
unfoldable pub is_handle_number : Bytes → Bool
unfolding is_digit
is_handle_number [] = false
is_handle_number (c ∷ s) =
    between b'1' b'9' c && not (any (λ c. not (is_digit c)) s) && leb (length s) 31

-- the two numbers around the slash; their lengths keep the limits of the whole
unfoldable pub is_canonical_handle : Bytes → Bool
unfolding is_handle_number
is_canonical_handle s = elim (cut_at b'/' s) as (λ _. Bool) [
  | none ↦ false
  | some (prefix, suffix) ↦ is_handle_number prefix && is_handle_number suffix
]

unfoldable pub is_scope : Option Bytes → Bool
unfolding is_canonical_handle
is_scope none = true
is_scope (some handle) = is_canonical_handle handle

-- `bounded_lifetime` returns
unfoldable pub bounded_lifetime : CursorV1 → Bool
bounded_lifetime cursor =
    ltb cursor.issued_at cursor.expires_at
    && leb cursor.expires_at (cursor.issued_at + 3_600 * 1_000_000)

-- the constraints of the model's fields, and its validator
unfoldable pub is_cursor : CursorV1 → Bool
unfolding in_range is_bounded_key_id is_sha256 is_scope bounded_lifetime
is_cursor cursor =
    in_range 1 1 cursor.version
    && is_bounded_key_id cursor.key_id
    && is_sha256 cursor.query_hash
    && is_scope cursor.scope_handle
    && in_range 0 10_000_000 cursor.offset
    && in_range 1 50 cursor.page_size
    && bounded_lifetime cursor

pub data CursorError : Type 0 where
  malformed unsupported lifetime_invalid context_mismatch : CursorError
  value_error unicode_error : CursorError

unfoldable pub same_int : ℤ → ℤ → Bool
same_int (pos m) (pos n) = m == n
same_int (negsuc m) (negsuc n) = m == n
same_int _ _ = false

unfoldable pub same_scope : Option Bytes → Option Bytes → Bool
same_scope none none = true
same_scope (some a) (some b) = bytes_eq a b
same_scope _ _ = false

-- `len(s.encode("utf-8"))`, which raises at a surrogate
unfoldable pub utf8_length : Bytes → Option ℕ
utf8_length [] = some 0
utf8_length (c ∷ s) = elim (utf8_length s) as (λ _. Option ℕ) [
  | none ↦ none
  | some n ↦
      if ltb c 0x80
      then some (1 + n)
      else if ltb c 0x800
      then some (2 + n)
      else if between 0xd800 0xdfff c
      then none
      else if ltb c 0x10000
      then some (3 + n)
      else some (4 + n)
]

-- `now` is in the lifetime
unfoldable pub in_lifetime : CursorV1 → ℕ → Bool
in_lifetime cursor now = not (ltb now cursor.issued_at || leb cursor.expires_at now)

module _ (digest : Bytes → Bytes → Bytes) where
  unfoldable pub derive_cursor_signing_key : Bytes → Option Bytes
  derive_cursor_signing_key root_secret =
      if ltb (length root_secret) 32
      then none
      else some (digest root_secret (codes "nplg-mcp:cursor-signing:v1"))

  module _ (dump : CursorV1 → Bytes) where
    -- `sign_cursor`, of a cursor that the model accepted
    unfoldable pub sign_cursor : Bytes → CursorV1 → Result CursorError Bytes
    unfolding derive_cursor_signing_key
    sign_cursor secret cursor = do
      key ← present (derive_cursor_signing_key secret) value_error
      let encoded = b64encode (dump cursor)
      ok (encoded ++ b'.' ∷ b64encode (digest key encoded))

module _ (hexdigest : Bytes → Bytes) where
  -- `cursor_query_hash`; `hexdigest` is of the UTF-8 of a text
  unfoldable pub cursor_query_hash : Bytes → Result CursorError Bytes
  unfolding utf8_length
  cursor_query_hash normalized_query = do
    check (not (bytes_eq normalized_query [])) value_error
    size ← present (utf8_length normalized_query) unicode_error
    ok (hexdigest normalized_query)

  unfoldable pub matches_context : CursorV1 → Bytes → Option Bytes → ℤ → Bool
  unfolding same_scope same_int
  matches_context cursor query_hash scope_handle page_size =
      bytes_eq cursor.query_hash query_hash
      && same_scope cursor.scope_handle scope_handle
      && same_int cursor.page_size page_size

-- `loads` parses a text, with the pairs of each object as they stand, and `read_fields` is the model's reading of the
-- fields of the text of an object at their types, before their constraints.
module _ (digest : Bytes → Bytes → Bytes) (hexdigest : Bytes → Bytes)
    (loads : Bytes → Option JsonValue) (read_fields : JsonValue → Option CursorV1) where
  unfoldable pub validated : JsonValue → Option CursorV1
  unfolding is_cursor
  validated value = elim (read_fields value) as (λ _. Option CursorV1) [
    | none ↦ none
    | some cursor ↦ if is_cursor cursor then some cursor else none
  ]

  -- the authenticated payload of a token
  unfoldable pub open_cursor : Bytes → Bytes → Result CursorError JsonValue
  unfolding derive_cursor_signing_key is_ascii
  open_cursor secret token = do
    (encoded, signature) ← present (cut_at b'.' token) malformed
    supplied ← present (b64decode signature) malformed
    key ← present (derive_cursor_signing_key digest secret) malformed
    check (is_ascii encoded) malformed
    check (bytes_eq supplied (digest key encoded)) malformed
    raw ← present (b64decode encoded) malformed
    present (load_json_object loads raw) malformed

  -- `verify_cursor`
  unfoldable pub verify_cursor :
      Bytes → Bytes → Bytes → Option Bytes → ℤ → ℕ → Result CursorError CursorV1
  unfolding utf8_length open_cursor validated cursor_query_hash matches_context in_lifetime
  verify_cursor secret token normalized_query scope_handle page_size now = do
    size ← present (utf8_length token) unicode_error
    check (not (bytes_eq token []) && leb size 1_024) malformed
    value ← open_cursor secret token
    cursor ← present (validated value) malformed
    check (bytes_eq cursor.key_id (codes "cursor-v1") && in_range 1 1 cursor.version) unsupported
    check (in_lifetime cursor now) lifetime_invalid
    query_hash ← cursor_query_hash hexdigest normalized_query
    check (matches_context hexdigest cursor query_hash scope_handle page_size) context_mismatch
    ok cursor
