-- ===== src/Tokens/Assets/Issued.antt =====
-- A token that was signed verifies.
use nplg_dspace_mcp.Prelude.{
  ℕ, ◌+◌, ◌-◌, ◌≤◌, ◌<◌, ◌≡◌, refl, true, false, leb, ◌∷◌, ◌++◌, Option, some, All, ok, pos, int,
  arith,
}
use nplg_dspace_mcp.Prelude.Bytes.{Bytes, bytes_eq, bytes_eq_refl}
use nplg_dspace_mcp.Tokens.Base64.{b64encode}
use nplg_dspace_mcp.Tokens.Base64.RoundTrip.{IsByte, b64decode-encode}
use nplg_dspace_mcp.Tokens.Halves.{cut_at-append, is_ascii-IsPlain}
use nplg_dspace_mcp.Tokens.Base64.Letters.{b64encode-All}
use nplg_dspace_mcp.Tokens.Paths.Canonical.{IsCanonical, validate_path_iff}
use nplg_dspace_mcp.Tokens.Assets.{
  Payload, claim, AssetGrant, validate_asset_claims, has_expired, seconds_left, valid_ttl,
  payload_of, authenticate, sign_asset_token, verify_asset_token,
}

module _ (digest : Bytes → Bytes → Bytes) (loads : Bytes → Option Payload)
    (dumps : Payload → Bytes) where
  -- The token of an encoded payload.
  authenticate-signed :
      (secret raw : Bytes) (payload : Payload)
      → All IsByte raw
      → All IsByte (digest secret (b64encode raw))
      → loads raw ≡ some payload
      → authenticate digest loads secret
          (b64encode raw ++ b'.' ∷ b64encode (digest secret (b64encode raw)))
        ≡ ok payload
  unfolding authenticate
  authenticate-signed secret raw payload h k e =
      let plain = b64encode-All raw h in
      rw (cut_at-append (b64encode raw) (b64encode (digest secret (b64encode raw))) plain) (
        rw (b64decode-encode (digest secret (b64encode raw)) k) (
          rw (is_ascii-IsPlain (b64encode raw) plain) (
            rw (bytes_eq_refl (digest secret (b64encode raw)))
              (rw (b64decode-encode raw h) (rw e)))))

  -- The claims that are signed are read back.
  claims-payload_of :
      (g : AssetGrant) → IsCanonical g.path → validate_asset_claims (payload_of g) ≡ ok g
  unfolding validate_asset_claims payload_of claim bytes_eq
  claims-payload_of g h = rw ((validate_path_iff g.path g.path).1 (refl, h))

  -- When the JSON codec reads back the payload that it wrote, and it and the keyed hash give bytes, a grant of a
  -- canonical path that expires in the future, within a time limit of at most a day, is signed, and the token
  -- verifies under the same secret to the same grant.
  pub verify-sign :
      (secret : Bytes) (g : AssetGrant) (now ttl expiry : ℕ)
      → loads (dumps (payload_of g)) ≡ some (payload_of g)
      → All IsByte (dumps (payload_of g))
      → All IsByte (digest secret (b64encode (dumps (payload_of g))))
      → IsCanonical g.path
      → g.expires_at ≡ pos expiry
      → 1 ≤ ttl
      → ttl ≤ 86_400
      → now < expiry
      → expiry ≤ now + ttl
      → (token : Bytes) × (sign_asset_token digest dumps secret true g ≡ ok token)
        × (verify_asset_token digest loads secret (int (pos ttl)) now token ≡ ok g)
  unfolding sign_asset_token verify_asset_token valid_ttl has_expired seconds_left
  verify-sign secret g now ttl expiry reads bytes hashes path expires least most future near =
      let lower : leb 1 ttl ≡ true = ground arith in
      let upper : leb ttl 86_400 ≡ true = ground arith in
      let alive : leb expiry now ≡ false = ground arith in
      let soon : leb (expiry - now) ttl ≡ true = ground arith in
      let raw = dumps (payload_of g) in
      (
        b64encode raw ++ b'.' ∷ b64encode (digest secret (b64encode raw)),
        rw ((validate_path_iff g.path g.path).1 (refl, path)),
        rw (authenticate-signed secret raw (payload_of g) bytes hashes reads)
            (rw (claims-payload_of g path) (rw expires (rw (lower, upper) (rw alive (rw soon))))),
      )
