-- ===== src/Tokens/Cursors/Bound.antt =====
-- What a verified cursor is bound to.
use nplg_dspace_mcp.Prelude.{
  ℕ, ◌*◌, ◌+◌, ◌≤◌, ◌<◌, ◌≡◌, ◌≢◌, refl, ap, ◌∙◌, sym, subst, true, false, not, ◌&&◌, ltb, leb, [],
  ◌∷◌, ◌++◌, Option, none, some, ok, ℤ, pos, negsuc, length, arith,
}
use nplg_dspace_mcp.Prelude.Bytes.{Bytes, codes, bytes_eq, eq_of_bytes_eq, cut_at}
use nplg_dspace_mcp.Tokens.Checks.{present, check-ok, >>=-ok, present-ok, ok-injective}
use nplg_dspace_mcp.Tokens.Halves.{is_ascii, cut_at-eq}
use nplg_dspace_mcp.Tokens.Base64.{b64decode}
use nplg_dspace_mcp.Tokens.Json.{JsonValue, load_json_object}
use nplg_dspace_mcp.Tokens.Cursors.{
  CursorV1, in_range, bounded_lifetime, is_cursor, malformed, unsupported, lifetime_invalid,
  context_mismatch, value_error, unicode_error, same_int, same_scope, utf8_length, in_lifetime,
  derive_cursor_signing_key, cursor_query_hash, matches_context, validated, open_cursor,
  verify_cursor,
}

in_range-pos :
    (lo hi : ℕ) (z : ℤ) → in_range lo hi z ≡ true → (n : ℕ) × (z ≡ pos n) × (lo ≤ n) × (n ≤ hi)
unfolding in_range
in_range-pos lo hi (pos n) h = (n, refl, ground arith, ground arith)
in_range-pos lo hi (negsuc n) h = cc

same_int-eq : (a b : ℤ) → same_int a b ≡ true → a ≡ b
unfolding same_int
same_int-eq (pos m) (pos n) h = ground arith
same_int-eq (negsuc m) (negsuc n) h = ground arith
same_int-eq (pos m) (negsuc n) h = cc
same_int-eq (negsuc m) (pos n) h = cc

same_scope-eq : (a b : Option Bytes) → same_scope a b ≡ true → a ≡ b
unfolding same_scope
same_scope-eq none none h = refl
same_scope-eq (some a) (some b) h = ap some (eq_of_bytes_eq a b h)
same_scope-eq none (some b) h = cc
same_scope-eq (some a) none h = cc

given_lem : (s : Bytes) → not (bytes_eq s []) ≡ true → s ≢ []
unfolding bytes_eq
given_lem [] h = λ e. cc
given_lem (c ∷ s) h = λ e. cc

-- The pages that a cursor goes on with.
pub record IsPage (c : CursorV1) : Type 0 where
  pub offset : ℕ
  pub page_size : ℕ
  pub starts : c.offset ≡ pos offset
  pub sized : c.page_size ≡ pos page_size
  pub bounded : offset ≤ 10_000_000
  pub least : 1 ≤ page_size
  pub most : page_size ≤ 50

is_cursor-IsPage :
    (c : CursorV1)
    → is_cursor c ≡ true
    → IsPage c × (c.expires_at ≤ c.issued_at + 3_600 * 1_000_000)
unfolding is_cursor bounded_lifetime
is_cursor-IsPage c h =
    let o : in_range 0 10_000_000 c.offset ≡ true = ground arith in
    let p : in_range 1 50 c.page_size ≡ true = ground arith in
    let (offset, starts, _, bounded) = in_range-pos 0 10_000_000 c.offset o in
    let (page_size, sized, least, most) = in_range-pos 1 50 c.page_size p in
    (
      record {
        offset = offset;
        page_size = page_size;
        starts = starts;
        sized = sized;
        bounded = bounded;
        least = least;
        most = most;
      },
      ground arith,
    )

module _ (digest : Bytes → Bytes → Bytes) (hexdigest : Bytes → Bytes)
    (loads : Bytes → Option JsonValue) (read_fields : JsonValue → Option CursorV1) where
  -- A token that the key of the secret signed: its two halves, and the object that they carry.
  pub record Carries (secret token : Bytes) (payload : JsonValue) : Type 0 where
    pub encoded : Bytes
    pub signature : Bytes
    pub raw : Bytes
    pub strong : 32 ≤ length secret
    pub spelled : token ≡ encoded ++ b'.' ∷ signature
    pub signed :
        b64decode signature
        ≡ some (digest (digest secret (codes "nplg-mcp:cursor-signing:v1")) encoded)
    pub decoded : b64decode encoded ≡ some raw
    pub loaded : load_json_object loads raw ≡ some payload

  derived :
      (secret : Bytes) {key : Bytes}
      → derive_cursor_signing_key digest secret ≡ some key
      → (32 ≤ length secret) × (key ≡ digest secret (codes "nplg-mcp:cursor-signing:v1"))
  unfolding derive_cursor_signing_key
  derived secret h =
      let long : ltb (length secret) 32 ≡ false = ground arith in (ground arith, ground arith)

  open_cursor-Carries :
      (secret token : Bytes) {payload : JsonValue}
      → open_cursor digest hexdigest loads read_fields secret token ≡ ok payload
      → Carries secret token payload
  unfolding open_cursor
  open_cursor-Carries secret token h =
      let (halves, cut, h1) = >>=-ok (present (cut_at b'.' token) malformed) _ h in
      let (supplied, got, h2) = >>=-ok (present (b64decode halves.1) malformed) _ h1 in
      let (key, derives, h3) =
        >>=-ok (present (derive_cursor_signing_key digest secret) malformed) _ h2 in
      let (_, h4) = check-ok (is_ascii halves.0) malformed _ h3 in
      let (matches, h5) = check-ok (bytes_eq supplied (digest key halves.0)) malformed _ h4 in
      let (raw, read, h6) = >>=-ok (present (b64decode halves.0) malformed) _ h5 in
      let (strong, same) = derived secret (present-ok _ malformed derives) in
      record {
        encoded = halves.0;
        signature = halves.1;
        raw = raw;
        strong = strong;
        spelled = cut_at-eq b'.' token (present-ok (cut_at b'.' token) malformed cut);
        signed =
            present-ok (b64decode halves.1) malformed got
            ∙ ap some (eq_of_bytes_eq supplied (digest key halves.0) matches)
            ∙ ap (λ k. some (digest k halves.0)) same;
        decoded = present-ok (b64decode halves.0) malformed read;
        loaded = present-ok (load_json_object loads raw) malformed h6;
      }

  validated-some :
      (value : JsonValue) {c : CursorV1}
      → validated digest hexdigest loads read_fields value ≡ some c
      → (read_fields value ≡ some c) × (is_cursor c ≡ true)
  unfolding validated
  validated-some value h = ground arith

  hashed :
      (query : Bytes) {hash : Bytes}
      → cursor_query_hash hexdigest query ≡ ok hash
      → (query ≢ []) × (hexdigest query ≡ hash)
  unfolding cursor_query_hash
  hashed query h =
      let (given, h1) = check-ok (not (bytes_eq query [])) value_error _ h in
      let (size, _, same) = >>=-ok (present (utf8_length query) unicode_error) _ h1 in
      (given_lem query given, ok-injective _ _ same)

  -- A cursor in the context of a search.
  pub record IsBound (query : Bytes) (scope_handle : Option Bytes) (page_size : ℤ) (now : ℕ)
      (c : CursorV1) : Type 0 where
    pub version : c.version ≡ pos 1
    pub key_id : c.key_id ≡ codes "cursor-v1"
    pub issued : c.issued_at ≤ now
    pub alive : now < c.expires_at
    pub near : c.expires_at ≤ c.issued_at + 3_600 * 1_000_000
    pub query_given : query ≢ []
    pub query_hash : c.query_hash ≡ hexdigest query
    pub scope : c.scope_handle ≡ scope_handle
    pub sized : c.page_size ≡ page_size
    pub page : IsPage c

  bound_lem :
      (query : Bytes) (scope_handle : Option Bytes) (page_size : ℤ) (now : ℕ) (c : CursorV1)
      {hash : Bytes}
      → is_cursor c ≡ true
      → bytes_eq c.key_id (codes "cursor-v1") && in_range 1 1 c.version ≡ true
      → in_lifetime c now ≡ true
      → query ≢ []
      → hexdigest query ≡ hash
      → matches_context hexdigest c hash scope_handle page_size ≡ true
      → IsBound query scope_handle page_size now c
  unfolding in_lifetime matches_context
  bound_lem query scope_handle page_size now c {hash} valid kind alive given is_hash matches =
      let (page, near) = is_cursor-IsPage c valid in
      let key : bytes_eq c.key_id (codes "cursor-v1") ≡ true = ground arith in
      let version : in_range 1 1 c.version ≡ true = ground arith in
      let (n, is_n, least, most) = in_range-pos 1 1 c.version version in
      let one : n ≡ 1 = omega arith in
      let same_hash : bytes_eq c.query_hash hash ≡ true = ground arith in
      let scope : same_scope c.scope_handle scope_handle ≡ true = ground arith in
      let size : same_int c.page_size page_size ≡ true = ground arith in
      record {
        version = is_n ∙ ap pos one;
        key_id = eq_of_bytes_eq c.key_id (codes "cursor-v1") key;
        issued = ground arith;
        alive = ground arith;
        near = near;
        query_given = given;
        query_hash = eq_of_bytes_eq c.query_hash hash same_hash ∙ sym is_hash;
        scope = same_scope-eq c.scope_handle scope_handle scope;
        sized = same_int-eq c.page_size page_size size;
        page = page;
      }

  -- Every cursor that verifies comes from a token of at most 1024 bytes of UTF-8 whose second half decodes to the
  -- hash of the first under the key derived from a secret of at least 32 bytes, and whose first half decodes to
  -- the object that the cursor is read from. It has the version and the key of the program, was issued no later
  -- than now and expires after it, within an hour of its issue, and it belongs to the query, the scope and the
  -- page size of the call.
  pub verify_cursor-Bound :
      (secret token query : Bytes) (scope_handle : Option Bytes) (page_size : ℤ) (now : ℕ)
      {c : CursorV1}
      → verify_cursor digest hexdigest loads read_fields secret token query scope_handle page_size
          now
        ≡ ok c
      → ((size : ℕ) × (utf8_length token ≡ some size) × (size ≤ 1_024))
        × ((payload : JsonValue) × Carries secret token payload × (read_fields payload ≡ some c))
        × IsBound query scope_handle page_size now c
  unfolding verify_cursor
  verify_cursor-Bound secret token query scope_handle page_size now {c} h =
      let (size, sized, h1) = >>=-ok (present (utf8_length token) unicode_error) _ h in
      let (short, h2) = check-ok (not (bytes_eq token []) && leb size 1_024) malformed _ h1 in
      let (payload, opened, h3) =
        >>=-ok (open_cursor digest hexdigest loads read_fields secret token) _ h2 in
      let (cursor, valid, h4) =
        >>=-ok (present (validated digest hexdigest loads read_fields payload) malformed) _ h3 in
      let (kind, h5) =
        check-ok (bytes_eq cursor.key_id (codes "cursor-v1") && in_range 1 1 cursor.version)
          unsupported _ h4 in
      let (alive, h6) = check-ok (in_lifetime cursor now) lifetime_invalid _ h5 in
      let (hash, hashes, h7) = >>=-ok (cursor_query_hash hexdigest query) _ h6 in
      let (matches, same) =
        check-ok (matches_context hexdigest cursor hash scope_handle page_size) context_mismatch _
          h7 in
      let (read, constrained) = validated-some payload (present-ok _ malformed valid) in
      let (given, is_hash) = hashed query hashes in
      subst
        (λ x.
          ((size : ℕ) × (utf8_length token ≡ some size) × (size ≤ 1_024))
          × ((payload : JsonValue) × Carries secret token payload × (read_fields payload ≡ some x))
          × IsBound query scope_handle page_size now x)
        (ok-injective cursor c same)
        (
          (size, present-ok _ unicode_error sized, ground arith),
          (payload, open_cursor-Carries secret token opened, read),
          bound_lem query scope_handle page_size now cursor constrained kind alive given is_hash
              matches,
        )
