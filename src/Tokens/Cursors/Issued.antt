-- ===== src/Tokens/Cursors/Issued.antt =====
-- A cursor that was signed verifies.
use nplg_dspace_mcp.Prelude.{
  ℕ, ◌+◌, ◌≤◌, ◌≡◌, ◌≢◌, refl, true, false, ◌&&◌, ltb, leb, [], ◌∷◌, ◌++◌, Option, none, some, ok,
  ℤ, pos, negsuc, length, length-append, All, arith,
}
use nplg_dspace_mcp.Prelude.Bytes.{Bytes, codes, bytes_eq, bytes_eq_refl}
use nplg_dspace_mcp.Tokens.Halves.{is_ascii, cut_at-append, is_ascii-IsPlain}
use nplg_dspace_mcp.Tokens.Base64.{b64encode}
use nplg_dspace_mcp.Tokens.Base64.RoundTrip.{IsByte, b64decode-encode}
use nplg_dspace_mcp.Tokens.Base64.Letters.{b64encode-All}
use nplg_dspace_mcp.Tokens.Json.{JsonValue, load_json_object}
use nplg_dspace_mcp.Tokens.Cursors.{
  CursorV1, in_range, is_cursor, same_int, same_scope, utf8_length, in_lifetime,
  derive_cursor_signing_key, sign_cursor, cursor_query_hash, matches_context, validated,
  open_cursor, verify_cursor,
}
use nplg_dspace_mcp.Tokens.Cursors.Bound.{IsBound}

utf8_length-ascii : (s : Bytes) → is_ascii s ≡ true → utf8_length s ≡ some (length s)
unfolding utf8_length is_ascii
utf8_length-ascii [] h = refl
utf8_length-ascii (c ∷ s) h = ground (arith, utf8_length-ascii s)

is_ascii-token :
    (s t : Bytes) → is_ascii s ≡ true → is_ascii t ≡ true → is_ascii (s ++ b'.' ∷ t) ≡ true
unfolding is_ascii
is_ascii-token [] t h k = k
is_ascii-token (c ∷ s) t h k = ground (arith, is_ascii-token s t)

token_given : (s t : Bytes) → bytes_eq (s ++ b'.' ∷ t) [] ≡ false
unfolding bytes_eq
token_given [] t = refl
token_given (c ∷ s) t = refl

same_scope_refl : (a : Option Bytes) → same_scope a a ≡ true
unfolding same_scope
same_scope_refl none = refl
same_scope_refl (some a) = bytes_eq_refl a

same_int_refl : (a : ℤ) → same_int a a ≡ true
unfolding same_int
same_int_refl (pos n) = ground arith
same_int_refl (negsuc n) = ground arith

module _ (digest : Bytes → Bytes → Bytes) (hexdigest : Bytes → Bytes)
    (loads : Bytes → Option JsonValue) (read_fields : JsonValue → Option CursorV1)
    (dump : CursorV1 → Bytes) where
  abbrev key_of : Bytes → Bytes
  key_of secret = digest secret (codes "nplg-mcp:cursor-signing:v1")

  derives :
      (secret : Bytes)
      → 32 ≤ length secret
      → derive_cursor_signing_key digest secret ≡ some (key_of secret)
  unfolding derive_cursor_signing_key
  derives secret h = let long : ltb (length secret) 32 ≡ false = ground arith in rw long

  open_cursor-signed :
      (secret raw : Bytes) (payload : JsonValue)
      → 32 ≤ length secret
      → All IsByte raw
      → All IsByte (digest (key_of secret) (b64encode raw))
      → load_json_object loads raw ≡ some payload
      → open_cursor digest hexdigest loads read_fields secret
          (b64encode raw ++ b'.' ∷ b64encode (digest (key_of secret) (b64encode raw)))
        ≡ ok payload
  unfolding open_cursor
  open_cursor-signed secret raw payload strong h k e =
      let plain = b64encode-All raw h in
      let hash = digest (key_of secret) (b64encode raw) in
      rw (cut_at-append (b64encode raw) (b64encode hash) plain) (
        rw (b64decode-encode hash k) (
          rw (derives secret strong) (
            rw (is_ascii-IsPlain (b64encode raw) plain)
              (rw (bytes_eq_refl hash) (rw (b64decode-encode raw h) (rw e))))))

  -- The checks of the context.
  context_lem :
      (query : Bytes) (scope_handle : Option Bytes) (page_size : ℤ) (now : ℕ) (c : CursorV1)
      → IsBound digest hexdigest loads read_fields query scope_handle page_size now c
      → (bytes_eq c.key_id (codes "cursor-v1") && in_range 1 1 c.version ≡ true)
        × (in_lifetime c now ≡ true)
        × (matches_context hexdigest c (hexdigest query) scope_handle page_size ≡ true)
  unfolding in_range in_lifetime matches_context
  context_lem query scope_handle page_size now c b =
      let early : ltb now c.issued_at ≡ false = ground (arith, b.issued) in
      let late : leb c.expires_at now ≡ false = ground (arith, b.alive) in
      (
        rw b.key_id (rw b.version (rw (bytes_eq_refl (codes "cursor-v1")))),
        rw early (rw late),
        rw b.query_hash (
            rw (bytes_eq_refl (hexdigest query)) (
              rw b.scope
                (rw (same_scope_refl scope_handle) (rw b.sized (same_int_refl page_size))))),
      )

  query_hashed :
      (query : Bytes) (size : ℕ)
      → query ≢ []
      → utf8_length query ≡ some size
      → cursor_query_hash hexdigest query ≡ ok (hexdigest query)
  unfolding cursor_query_hash bytes_eq
  query_hashed [] size h e = absurd (h refl)
  query_hashed (c ∷ query) size h e = rw e

  validates :
      (c : CursorV1) (payload : JsonValue)
      → read_fields payload ≡ some c
      → is_cursor c ≡ true
      → validated digest hexdigest loads read_fields payload ≡ some c
  unfolding validated
  validates c payload fields valid = ground arith

  -- A cursor that meets the constraints of its model and is bound to a query of encodable text, a scope, a page
  -- size and the time is signed under a secret of at least 32 bytes, and its token verifies in that context to the
  -- same cursor, when the JSON codec and the model read back the object that was written, it and the keyed hash
  -- give bytes, and the two halves have at most 1023 characters.
  pub verify-sign_cursor :
      (secret query : Bytes) (scope_handle : Option Bytes) (page_size : ℤ) (now size : ℕ)
      (c : CursorV1) (payload : JsonValue)
      → 32 ≤ length secret
      → utf8_length query ≡ some size
      → is_cursor c ≡ true
      → IsBound digest hexdigest loads read_fields query scope_handle page_size now c
      → load_json_object loads (dump c) ≡ some payload
      → read_fields payload ≡ some c
      → All IsByte (dump c)
      → All IsByte (digest (key_of secret) (b64encode (dump c)))
      → length (b64encode (dump c))
          + length (b64encode (digest (key_of secret) (b64encode (dump c))))
        ≤ 1_023
      → (token : Bytes) × (sign_cursor digest dump secret c ≡ ok token)
        × (verify_cursor digest hexdigest loads read_fields secret token query scope_handle
              page_size now
            ≡ ok c)
  unfolding sign_cursor verify_cursor
  verify-sign_cursor secret query scope_handle page_size now size c payload strong encodable valid
        bound reads fields bytes hashes short =
      let first = b64encode (dump c) in
      let hash = digest (key_of secret) first in
      let second = b64encode hash in
      let token = first ++ b'.' ∷ second in
      let ascii =
        is_ascii-token first second (is_ascii-IsPlain first (b64encode-All (dump c) bytes))
          (is_ascii-IsPlain second (b64encode-All hash hashes)) in
      let small : leb (length token) 1_024 ≡ true =
        ground (arith, length-append first (b'.' ∷ second)) in
      let (kind, alive, matches) = context_lem query scope_handle page_size now c bound in
      (
        token,
        rw (derives secret strong),
        rw (utf8_length-ascii token ascii) (
            rw (token_given first second) (
              rw small (
                rw (open_cursor-signed secret (dump c) payload strong bytes hashes reads) (
                  rw (validates c payload fields valid) (
                    rw (kind, alive)
                      (rw (query_hashed query size bound.query_given encodable) (rw matches))))))),
      )
