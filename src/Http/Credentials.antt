-- ===== src/Http/Credentials.antt =====
-- `_authenticated_principal` of src/nplg_mcp/http_security.py. A secret is the UTF-8 bytes of its text.
use Prim.Native.String.{String}
use nplg_dspace_mcp.Prelude.{Bool, false, List, [], ◌∷◌, ◌++◌, if◌then◌else◌, Option, none, some}
use nplg_dspace_mcp.Prelude.Bytes.{Bytes, codes, bytes_eq}
use nplg_dspace_mcp.Http.Headers.{Header, values_named}

-- `ApiPrincipalCredential` of src/nplg_mcp/config.py
pub record ApiPrincipal : Type 0 where
  pub principal_id : String
  pub bearer_token : Option Bytes
  pub api_key : Option Bytes

-- The settings that authentication reads.
pub record Credentials : Type 0 where
  pub allow_anonymous : Bool
  pub api_principals : List ApiPrincipal
  pub api_bearer_token : Option Bytes
  pub api_key : Option Bytes

-- Which header carries what is presented.
pub data Scheme : Type 0 where
  authorization x_api_key : Scheme

unfoldable pub secret_of : Scheme → ApiPrincipal → Option Bytes
secret_of authorization p = p.bearer_token
secret_of x_api_key p = p.api_key

-- the bytes that a secret is compared as
unfoldable pub expected : Scheme → Bytes → Bytes
expected authorization secret = codes "Bearer " ++ secret
expected x_api_key secret = secret

-- `secret is not None and hmac.compare_digest(presented, expected)`
unfoldable pub is_presented : Scheme → Bytes → Option Bytes → Bool
unfolding expected
is_presented scheme presented none = false
is_presented scheme presented (some secret) = bytes_eq presented (expected scheme secret)

-- the loop over the principals; the last match stays
unfoldable pub match_each : Scheme → Bytes → List ApiPrincipal → Option String → Option String
unfolding is_presented secret_of
match_each scheme presented [] matched = matched
match_each scheme presented (p ∷ ps) matched =
    match_each scheme presented ps
      (if is_presented scheme presented (secret_of scheme p) then some p.principal_id else matched)

unfoldable pub legacy_of : Scheme → Credentials → Option Bytes
legacy_of authorization c = c.api_bearer_token
legacy_of x_api_key c = c.api_key

unfoldable pub legacy_id : Scheme → String
legacy_id authorization = "legacy-bearer"
legacy_id x_api_key = "legacy-api-key"

-- one value presented
unfoldable pub match_one : Credentials → Scheme → Bytes → Option String
unfolding match_each is_presented legacy_of legacy_id
match_one c scheme presented =
    if is_presented scheme presented (legacy_of scheme c)
    then some (legacy_id scheme)
    else match_each scheme presented c.api_principals none

-- by the values of the two headers
unfoldable pub authenticate : Credentials → List Bytes → List Bytes → Option String
unfolding match_one
authenticate c [] [] = if c.allow_anonymous then some "anonymous" else none
authenticate c (presented ∷ []) [] = match_one c authorization presented
authenticate c [] (presented ∷ []) = match_one c x_api_key presented
authenticate c _ _ = none

unfoldable pub authenticated_principal : Credentials → List Header → Option String
unfolding authenticate
authenticated_principal c headers =
    authenticate c (values_named (codes "authorization") headers)
      (values_named (codes "x-api-key") headers)
