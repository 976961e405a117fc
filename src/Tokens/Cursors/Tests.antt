-- ===== src/Tokens/Cursors/Tests.antt =====
-- Cursors at a concrete input, with a hash and a codec for one cursor in place of the library's, and the theorems
-- there.
use nplg_dspace_mcp.Prelude.{
  ℕ, ◌+◌, ◌≤◌, ◌≡◌, refl, true, false, length, [], ◌∷◌, Option, none, some, ok, err, pos, arith,
}
use nplg_dspace_mcp.Prelude.Bytes.{Bytes, codes, bytes_eq, cut_at}
use nplg_dspace_mcp.Tokens.Halves.{is_ascii}
use nplg_dspace_mcp.Tokens.Base64.{
  letter, sextet, urlsafe_b64encode, rstrip, b64encode, last_group, strict_b64decode, padding,
  b64decode,
}
use nplg_dspace_mcp.Tokens.Json.{
  JsonValue, real, object, end, member, null, is_json_value, accepts_pairs, hook_accepts,
  require_json_object, load_json_value, load_json_object,
}
use nplg_dspace_mcp.Tokens.Cursors.{
  CursorV1, in_range, is_digit, is_bounded_key_id, is_sha256, is_handle_number, is_canonical_handle,
  is_scope, bounded_lifetime, is_cursor, context_mismatch, same_int, same_scope, utf8_length,
  in_lifetime, derive_cursor_signing_key, sign_cursor, cursor_query_hash, matches_context,
  validated, open_cursor, verify_cursor,
}
use nplg_dspace_mcp.Tokens.Cursors.Bound.{Carries, IsBound, verify_cursor-Bound}
use nplg_dspace_mcp.Tokens.Cursors.Issued.{verify-sign_cursor}

abbrev secret : Bytes
secret = codes "0123456789abcdef0123456789abcdef"

abbrev digest : Bytes → Bytes → Bytes
digest key message = codes "ab"

abbrev hexdigest : Bytes → Bytes
hexdigest query = codes "0123456789abcdef0123456789abcdef0123456789abcdef0123456789abcdef"

abbrev cursor : CursorV1
cursor = record {
  version = pos 1;
  key_id = codes "cursor-v1";
  query_hash = hexdigest [];
  scope_handle = some (codes "1234/56");
  offset = pos 20;
  page_size = pos 10;
  issued_at = 100;
  expires_at = 900_000_100;
}

abbrev dump : CursorV1 → Bytes
dump c = codes "{}"

abbrev loads : Bytes → Option JsonValue
loads raw = some (object end)

abbrev read_fields : JsonValue → Option CursorV1
read_fields value = some cursor

-- A repeated key and a number that is not finite are refused.
objects :
    (load_json_object
        (λ raw. some (object (member (codes "a") null (member (codes "a") null end))))
        []
      ≡ none)
    × (load_json_object (λ raw. some (object (member (codes "a") (real false) end))) [] ≡ none)
    × (load_json_object (λ raw. some null) [] ≡ none)
unfolding load_json_object load_json_value require_json_object hook_accepts accepts_pairs
    is_json_value bytes_eq
objects = (refl, refl, refl)

sizes : (utf8_length (b'a' ∷ 0x10d0 ∷ 0x1f600 ∷ []) ≡ some 8) × (utf8_length (0xd800 ∷ []) ≡ none)
unfolding utf8_length
sizes = (refl, refl)

accepted :
    verify_cursor digest hexdigest loads read_fields secret
      (codes "e30.YWI")
      (codes "q")
      (some (codes "1234/56"))
      (pos 10)
      200
    ≡ ok cursor
unfolding verify_cursor open_cursor cut_at b64decode strict_b64decode sextet last_group padding
    is_ascii bytes_eq derive_cursor_signing_key load_json_object load_json_value require_json_object
    hook_accepts accepts_pairs is_json_value validated is_cursor in_range is_digit is_bounded_key_id
    is_sha256 is_handle_number is_canonical_handle is_scope bounded_lifetime in_lifetime utf8_length
    cursor_query_hash matches_context same_int same_scope
accepted = refl

-- Another scope.
refused :
    verify_cursor digest hexdigest loads read_fields secret
      (codes "e30.YWI")
      (codes "q")
      none
      (pos 10)
      200
    ≡ err context_mismatch
unfolding verify_cursor open_cursor cut_at b64decode strict_b64decode sextet last_group padding
    is_ascii bytes_eq derive_cursor_signing_key load_json_object load_json_value require_json_object
    hook_accepts accepts_pairs is_json_value validated is_cursor in_range is_digit is_bounded_key_id
    is_sha256 is_handle_number is_canonical_handle is_scope bounded_lifetime in_lifetime utf8_length
    cursor_query_hash matches_context same_int same_scope
refused = refl

verify_cursor-Bound_example :
    ((size : ℕ) × (utf8_length (codes "e30.YWI") ≡ some size) × (size ≤ 1_024))
    × ((payload : JsonValue) × Carries digest hexdigest loads read_fields secret
          (codes "e30.YWI")
          payload
        × (read_fields payload ≡ some cursor))
    × IsBound digest hexdigest loads read_fields
        (codes "q")
        (some (codes "1234/56"))
        (pos 10)
        200
        cursor
verify_cursor-Bound_example =
    verify_cursor-Bound digest hexdigest loads read_fields secret (codes "e30.YWI") (codes "q")
      (some (codes "1234/56")) (pos 10) 200 accepted

bound :
    IsBound digest hexdigest loads read_fields
      (codes "q")
      (some (codes "1234/56"))
      (pos 10)
      200
      cursor
bound =
    (verify_cursor-Bound digest hexdigest loads read_fields secret (codes "e30.YWI") (codes "q")
      (some (codes "1234/56")) (pos 10) 200 accepted).2

constrained : is_cursor cursor ≡ true
unfolding is_cursor in_range is_digit is_bounded_key_id is_sha256 is_handle_number
    is_canonical_handle is_scope bounded_lifetime cut_at
constrained = refl

encodable : utf8_length (codes "q") ≡ some 1
unfolding utf8_length
encodable = refl

reads : load_json_object loads (dump cursor) ≡ some (object end)
unfolding load_json_object load_json_value require_json_object hook_accepts accepts_pairs
    is_json_value
reads = refl

short : length (b64encode (codes "{}")) + length (b64encode (codes "ab")) ≤ 1_023
unfolding b64encode urlsafe_b64encode letter rstrip
short = omega arith

verify-sign_cursor_example :
    (token : Bytes) × (sign_cursor digest dump secret cursor ≡ ok token)
    × (verify_cursor digest hexdigest loads read_fields secret token
          (codes "q")
          (some (codes "1234/56"))
          (pos 10)
          200
        ≡ ok cursor)
verify-sign_cursor_example =
    verify-sign_cursor digest hexdigest loads read_fields dump secret (codes "q")
      (some (codes "1234/56")) (pos 10) 200 1 cursor (object end) (omega arith) encodable
      constrained bound reads refl (omega arith, (omega arith, tt)) (omega arith, (omega arith, tt))
      short
