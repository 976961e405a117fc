-- ===== src/Tokens/Assets/Granted.antt =====
-- What a verified token grants.
use nplg_dspace_mcp.Prelude.{
  ℕ, ◌+◌, ◌≤◌, ◌<◌, ◌≡◌, refl, sym, subst, ◌∙◌, ap, true, not, leb, ◌∷◌, ◌++◌, Option, some, ok, ℤ,
  pos, negsuc, Argument, int, other, arith,
}
use nplg_dspace_mcp.Prelude.Bytes.{Bytes, codes, bytes_eq, eq_of_bytes_eq, cut_at}
use nplg_dspace_mcp.Tokens.Checks.{present, check-ok, >>=-ok, present-ok, ok-injective}
use nplg_dspace_mcp.Tokens.Halves.{is_ascii, cut_at-eq}
use nplg_dspace_mcp.Tokens.Base64.{b64decode}
use nplg_dspace_mcp.Tokens.Paths.{validate_path}
use nplg_dspace_mcp.Tokens.Paths.Canonical.{IsCanonical, validate_path_iff}
use nplg_dspace_mcp.Tokens.Assets.{
  Value, integer, text, Payload, claim, AssetGrant, unauthorized, invalid_input, expired,
  lifetime_invalid, ttl_out_of_range, is_version_one, typed, validate_asset_claims, has_expired,
  seconds_left, valid_ttl, authenticate, verify_asset_token,
}

-- The claims of a payload, as a grant that the checks let pass.
abbrev pub Claims : Payload → AssetGrant → Type 0
Claims payload g =
    (claim (codes "path") payload ≡ some (text g.path))
    × (claim (codes "media_type") payload ≡ some (text g.media_type))
    × (claim (codes "exp") payload ≡ some (integer g.expires_at))

typed-some :
    (a b c : Option Value) {g : AssetGrant}
    → typed a b c ≡ some g
    → (a ≡ some (text g.path)) × (b ≡ some (text g.media_type)) × (c ≡ some (integer g.expires_at))
unfolding typed
typed-some (some (text path)) (some (text media)) (some (integer expiry)) h = ground arith
typed-some _ _ _ h = ground arith

-- A path that is checked is kept.
checked_path :
    (path : Bytes) {q : Bytes}
    → present (validate_path path) invalid_input ≡ ok q
    → (q ≡ path) × IsCanonical path
checked_path path {q} h =
    (validate_path_iff path q).0 (present-ok (validate_path path) invalid_input h)

validate_asset_claims-Claims :
    (payload : Payload) {g : AssetGrant}
    → validate_asset_claims payload ≡ ok g
    → (is_version_one (claim (codes "v") payload) ≡ true) × Claims payload g × IsCanonical g.path
unfolding validate_asset_claims
validate_asset_claims-Claims payload h =
    let (version, rest) = check-ok (is_version_one (claim (codes "v") payload)) unauthorized _ h in
    let (grant, read, valid) =
      >>=-ok
        (present
          (typed (claim (codes "path") payload) (claim (codes "media_type") payload)
            (claim (codes "exp") payload))
          unauthorized)
        _ rest in
    let (path, checked, same) = >>=-ok (present (validate_path grant.path) invalid_input) _ valid in
    let (kept, canonical) = checked_path grant.path checked in
    let (p, m, e) = typed-some _ _ _ (present-ok _ unauthorized read) in
    rw (← ok-injective _ _ same) (
      version,
      (p ∙ ap (λ t. some (text t)) (sym kept), m, e),
      subst IsCanonical (sym kept) canonical,
    )

module _ (digest : Bytes → Bytes → Bytes) (loads : Bytes → Option Payload) where
  -- A token that the secret signed: its two halves, and the payload that they carry.
  pub record Signed (secret token : Bytes) (payload : Payload) : Type 0 where
    pub encoded : Bytes
    pub signature : Bytes
    pub raw : Bytes
    pub spelled : token ≡ encoded ++ b'.' ∷ signature
    pub signed : b64decode signature ≡ some (digest secret encoded)
    pub decoded : b64decode encoded ≡ some raw
    pub loaded : loads raw ≡ some payload

  authenticate-Signed :
      (secret token : Bytes) {payload : Payload}
      → authenticate digest loads secret token ≡ ok payload
      → Signed secret token payload
  unfolding authenticate
  authenticate-Signed secret token h =
      let (halves, cut, h1) = >>=-ok (present (cut_at b'.' token) unauthorized) _ h in
      let (supplied, got, h2) = >>=-ok (present (b64decode halves.1) unauthorized) _ h1 in
      let (_, h3) = check-ok (is_ascii halves.0) unauthorized _ h2 in
      let (matches, h4) = check-ok (bytes_eq supplied (digest secret halves.0)) unauthorized _ h3 in
      let (raw, read, h5) = >>=-ok (present (b64decode halves.0) unauthorized) _ h4 in
      record {
        encoded = halves.0;
        signature = halves.1;
        raw = raw;
        spelled = cut_at-eq b'.' token (present-ok (cut_at b'.' token) unauthorized cut);
        signed =
            present-ok (b64decode halves.1) unauthorized got
            ∙ ap some (eq_of_bytes_eq supplied (digest secret halves.0) matches);
        decoded = present-ok (b64decode halves.0) unauthorized read;
        loaded = present-ok (loads raw) unauthorized h5;
      }

  -- The lifetime of a grant at the time of its check.
  pub record IsAlive (max_ttl : Argument) (now : ℕ) (expires_at : ℤ) : Type 0 where
    pub expiry : ℕ
    pub ttl : ℕ
    pub expires : expires_at ≡ pos expiry
    pub limited : max_ttl ≡ int (pos ttl)
    pub future : now < expiry
    pub near : expiry ≤ now + ttl
    pub bounded : ttl ≤ 86_400

  alive_lem :
      (max_ttl : Argument) (now ttl : ℕ) (expires_at : ℤ)
      → valid_ttl max_ttl ≡ some ttl
      → not (has_expired now expires_at) ≡ true
      → leb (seconds_left now expires_at) ttl ≡ true
      → IsAlive max_ttl now expires_at
  unfolding valid_ttl has_expired seconds_left
  alive_lem (int (pos n)) now ttl (pos expiry) t e l = record {
    expiry = expiry;
    ttl = n;
    expires = refl;
    limited = refl;
    future = ground arith;
    near = ground arith;
    bounded = ground arith;
  }
  alive_lem (int (negsuc n)) now ttl expires_at t e l = cc
  alive_lem other now ttl expires_at t e l = cc
  alive_lem (int (pos n)) now ttl (negsuc m) t e l = cc

  -- Every token that verifies is two halves around a full stop, of which the second decodes to the hash of the
  -- first under the secret and the first decodes to a payload with the claims of the grant; the path of the grant
  -- is canonical, and it expires in the future, within the time limit of the call and so within a day.
  pub verify_asset_token-Signed :
      (secret token : Bytes) (max_ttl : Argument) (now : ℕ) {g : AssetGrant}
      → verify_asset_token digest loads secret max_ttl now token ≡ ok g
      → ((payload : Payload) × Signed secret token payload × Claims payload g)
        × IsCanonical g.path
        × IsAlive max_ttl now g.expires_at
  unfolding verify_asset_token
  verify_asset_token-Signed secret token max_ttl now h =
      let (payload, signed, h1) = >>=-ok (authenticate digest loads secret token) _ h in
      let (grant, valid, h2) = >>=-ok (validate_asset_claims payload) _ h1 in
      let (ttl, limit, h3) = >>=-ok (present (valid_ttl max_ttl) ttl_out_of_range) _ h2 in
      let (open_, h4) = check-ok (not (has_expired now grant.expires_at)) expired _ h3 in
      let (near, same) =
        check-ok (leb (seconds_left now grant.expires_at) ttl) lifetime_invalid _ h4 in
      let (_, claims, canonical) = validate_asset_claims-Claims payload valid in
      rw (← ok-injective _ _ same) (
        (payload, authenticate-Signed secret token signed, claims),
        canonical,
        alive_lem max_ttl now ttl grant.expires_at
            (present-ok (valid_ttl max_ttl) ttl_out_of_range limit) open_ near,
      )
