-- ===== src/Tokens/Assets.antt =====
-- `sign_asset_token` and `verify_asset_token` of src/nplg_mcp/tokens.py. The keyed hash and the JSON codec of the
-- standard library are parameters; `loads` gives the object of a text, or fails where the text is no object of JSON
-- values. Texts are code points, and the observed time is a second after 1970.
pub mod Granted
pub mod Issued
use nplg_dspace_mcp.Prelude.{
  ℕ, ◌*◌, ◌+◌, ◌-◌, Bool, true, false, not, ◌&&◌, ◌||◌, ◌==◌, ltb, leb, List, [], ◌∷◌, ◌++◌, Option,
  none, some, if◌then◌else◌, Result, ok, err, ℤ, pos, negsuc, Argument, int, other,
}
use nplg_dspace_mcp.Prelude.Bytes.{Bytes, codes, bytes_eq, cut_at}
use nplg_dspace_mcp.Tokens.Checks.{◌>>=◌, ◌>>◌, check, present}
use nplg_dspace_mcp.Tokens.Halves.{is_ascii}
use nplg_dspace_mcp.Tokens.Base64.{b64encode, b64decode}
use nplg_dspace_mcp.Tokens.Paths.{validate_path}

-- A value of the payload, by what the checks ask of it; `True` and the double 1.0 are equal to 1.
pub data Value : Type 0 where
  integer : ℤ → Value
  text : Bytes → Value
  equals_one unrelated : Value

abbrev pub Payload : Type 0
Payload = List (Bytes × Value)

-- `payload.get(key)`
unfoldable pub claim : Bytes → Payload → Option Value
claim key [] = none
claim key ((k, v) ∷ payload) = if bytes_eq k key then some v else claim key payload

pub record AssetGrant : Type 0 where
  pub path : Bytes
  pub media_type : Bytes
  pub expires_at : ℤ

pub data TokenError : Type 0 where
  invalid_input unauthorized expired lifetime_invalid ttl_out_of_range : TokenError

unfoldable pub is_version_one : Option Value → Bool
is_version_one (some (integer (pos n))) = n == 1
is_version_one (some equals_one) = true
is_version_one _ = false

-- `raw_path`, `raw_media_type` and `raw_expiry`, of the types that they must have
unfoldable pub typed : Option Value → Option Value → Option Value → Option AssetGrant
typed (some (text path)) (some (text media_type)) (some (integer expiry)) =
    some (record { path = path; media_type = media_type; expires_at = expiry })
typed _ _ _ = none

-- `_validate_asset_claims`. Both of its errors end the verification: a ValueError becomes `unauthorized`, and the
-- error of the path is raised as it is.
unfoldable pub validate_asset_claims : Payload → Result TokenError AssetGrant
unfolding is_version_one typed
validate_asset_claims payload = do
  check (is_version_one (claim (codes "v") payload)) unauthorized
  grant ←
      present
        (typed (claim (codes "path") payload) (claim (codes "media_type") payload)
          (claim (codes "exp") payload))
        unauthorized
  path ← present (validate_path grant.path) invalid_input
  ok (record grant { path = path })

-- `current_timestamp >= expires_at`, and the seconds left
unfoldable pub has_expired : ℕ → ℤ → Bool
has_expired now (pos expiry) = leb expiry now
has_expired now (negsuc n) = true

unfoldable pub seconds_left : ℕ → ℤ → ℕ
seconds_left now (pos expiry) = expiry - now
seconds_left now (negsuc n) = 0

-- `max_ttl_seconds`
unfoldable pub valid_ttl : Argument → Option ℕ
valid_ttl (int (pos n)) = if leb 1 n && leb n 86_400 then some n else none
valid_ttl _ = none

-- the claims that are signed, in the order of their keys
unfoldable pub payload_of : AssetGrant → Payload
payload_of grant =
    (codes "exp", integer grant.expires_at)
    ∷ (codes "media_type", text grant.media_type)
    ∷ (codes "path", text grant.path)
    ∷ (codes "v", integer (pos 1))
    ∷ []

module _ (digest : Bytes → Bytes → Bytes) (dumps : Payload → Bytes) where
  -- `sign_asset_token`, of an expiry that has a time zone or has none
  unfoldable pub sign_asset_token : Bytes → Bool → AssetGrant → Result TokenError Bytes
  unfolding payload_of
  sign_asset_token secret has_timezone grant = do
    path ← present (validate_path grant.path) invalid_input
    check has_timezone invalid_input
    let encoded = b64encode (dumps (payload_of (record grant { path = path })))
    ok (encoded ++ b'.' ∷ b64encode (digest secret encoded))

module _ (digest : Bytes → Bytes → Bytes) (loads : Bytes → Option Payload) where
  -- the authenticated payload of a token
  unfoldable pub authenticate : Bytes → Bytes → Result TokenError Payload
  unfolding is_ascii
  authenticate secret token = do
    (encoded, signature) ← present (cut_at b'.' token) unauthorized
    supplied ← present (b64decode signature) unauthorized
    check (is_ascii encoded) unauthorized
    check (bytes_eq supplied (digest secret encoded)) unauthorized
    raw ← present (b64decode encoded) unauthorized
    present (loads raw) unauthorized

  -- `verify_asset_token`
  unfoldable pub verify_asset_token : Bytes → Argument → ℕ → Bytes → Result TokenError AssetGrant
  unfolding authenticate validate_asset_claims has_expired seconds_left valid_ttl
  verify_asset_token secret max_ttl now token = do
    payload ← authenticate secret token
    grant ← validate_asset_claims payload
    ttl ← present (valid_ttl max_ttl) ttl_out_of_range
    check (not (has_expired now grant.expires_at)) expired
    check (leb (seconds_left now grant.expires_at) ttl) lifetime_invalid
    ok grant
