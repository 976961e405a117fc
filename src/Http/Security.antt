-- ===== src/Http/Security.antt =====
-- `_security_call` of src/nplg_mcp/http_security.py for a request of /mcp, up to the call of the application. The
-- settings are those that config.py admits; `finite` judges number tokens for the JSON check.
use mathlib.Core.List.{reverse}
use nplg_dspace_mcp.Prelude.{
  ℕ, Bool, true, false, not, ◌&&◌, ◌||◌, ◌==◌, leb, List, [], ◌∷◌, Option, none, some,
  if◌then◌else◌, length, any, Result, ok, err,
}
use nplg_dspace_mcp.Prelude.Bytes.{Bytes, codes, bytes_eq, lower, between, has_byte}
use nplg_dspace_mcp.Http.Headers.{Header, values_named}
use nplg_dspace_mcp.Http.Host.{all, is_digit, decimal, is_canonical_host}
use nplg_dspace_mcp.Http.Credentials.{Credentials, authenticated_principal}
use nplg_dspace_mcp.Http.Body.{Event, BodyError, timed_out, too_large, bounded_body}
use nplg_dspace_mcp.Preflight.Limits.{Parsed, Limits, default_limits}
use nplg_dspace_mcp.Preflight.Parser.{has_valid_root_request_id}

pub record Settings : Type 0 where
  pub allowed_hosts : List Bytes
  pub allowed_origins : List Bytes
  pub gateway_authority : Bool
  pub credentials : Credentials
  pub max_body_bytes : ℕ

pub record Request : Type 0 where
  pub is_https : Bool
  pub method : Bytes
  pub headers : List Header

-- The responses that refuse a request, and the ValueError of `int` for more digits than it converts.
pub data Refusal : Type 0 where
  host_or_origin unsupported_encoding unauthenticated method_not_allowed : Refusal
  invalid_version ambiguous_headers content_type_not_json ambiguous_framing : Refusal
  invalid_content_length body_too_large body_timeout invalid_json no_request_id : Refusal
  too_many_digits : Refusal

abbrev pub Checked {ℓ} : Type ℓ → Type ℓ
Checked A = Result Refusal A

infixl 5 ◌>>=◌ ◌>>◌
abbrev pub ◌>>=◌ {ℓ κ} : {A : Type ℓ} {B : Type κ} → Checked A → (A → Checked B) → Checked B
ok a >>= f = f a
err e >>= f = err e

abbrev pub ◌>>◌ {ℓ} : {B : Type ℓ} → Checked (Unit {0}) → Checked B → Checked B
m >> k = m >>= λ _. k

-- a guard that returns the response unless its condition holds
abbrev pub check : Bool → Refusal → Checked (Unit {0})
check true e = ok tt
check false e = err e

-- `value in values`
abbrev pub is_one_of : List Bytes → Bytes → Bool
is_one_of values value = any (bytes_eq value) values

-- `_HANDSHAKE_VERSIONS` and `_SAFE_VERSION_BYTES`
unfoldable pub is_handshake_version : Bytes → Bool
is_handshake_version = is_one_of (codes "2025-03-26" ∷ codes "2025-06-18" ∷ codes "2025-11-25" ∷ [])

unfoldable pub is_safe_version_byte : ℕ → Bool
is_safe_version_byte b =
    between b'A' b'Z' b || between b'a' b'z' b || is_digit b || has_byte b (codes "!#$%&'*+-.^_`|~")

-- `not unsafe_version`
unfoldable pub is_version : List Bytes → Bool
unfolding is_handshake_version is_safe_version_byte
is_version (version ∷ []) =
    between 1 32 (length version)
    && all is_safe_version_byte version
    && not (is_handshake_version version)
is_version _ = false

-- `value.split(b";", 1)[0].strip().lower()`
abbrev is_space : ℕ → Bool
is_space b = between 0x09 0x0d b || b == b' '

unfoldable pub lstrip : Bytes → Bytes
lstrip [] = []
lstrip (b ∷ s) = let rest = lstrip s in if is_space b then rest else b ∷ s

unfoldable pub before : ℕ → Bytes → Bytes
before sep [] = []
before sep (b ∷ s) = let rest = before sep s in if b == sep then [] else b ∷ rest

unfoldable pub media_type : Bytes → Bytes
unfolding lstrip before
media_type value = lower (reverse (lstrip (reverse (lstrip (before b';' value)))))

unfoldable pub is_json : List Bytes → Bool
unfolding media_type
is_json (value ∷ []) = bytes_eq (media_type value) (codes "application/json")
is_json _ = false

abbrev pub at_most_one {ℓ} : {A : Type ℓ} → List A → Bool
at_most_one [] = true
at_most_one (x ∷ []) = true
at_most_one (x ∷ y ∷ xs) = false

abbrev pub is_none {ℓ} : {A : Type ℓ} → Option A → Bool
is_none none = true
is_none (some a) = false

abbrev pub is_nil {ℓ} : {A : Type ℓ} → List A → Bool
is_nil [] = true
is_nil (x ∷ xs) = false

unfoldable pub is_identity : List Bytes → Bool
is_identity [] = true
is_identity (value ∷ []) = bytes_eq value (codes "identity")
is_identity (value ∷ other ∷ values) = false

-- the Content-Length: digits that `int` converts, within the limit
unfoldable pub declared_length : ℕ → List Bytes → Checked (Option ℕ)
declared_length limit (text ∷ _) = do
  check (not (is_nil text) && all is_digit text) invalid_content_length
  check (leb (length text) 4300) too_many_digits
  check (leb (decimal 0 text) limit) body_too_large
  ok (some (decimal 0 text))
declared_length limit [] = ok none

unfoldable pub refused_body : BodyError → Refusal
refused_body timed_out = body_timeout
refused_body too_large = body_too_large

unfoldable pub received : Result BodyError (Bytes × List Event) → Checked (Bytes × List Event)
unfolding refused_body
received (ok r) = ok r
received (err e) = err (refused_body e)

unfoldable pub is_declared : Option ℕ → Bytes → Bool
is_declared none body = true
is_declared (some n) body = n == length body

-- the verdict of the JSON check
unfoldable pub judged_json : Parsed Bool → Checked (Unit {0})
judged_json (ok valid) = check valid no_request_id
judged_json (err e) = err invalid_json

-- `JsonPreflightLimits(max_body_bytes=...)`
abbrev pub body_limits : ℕ → Limits
body_limits limit = record default_limits { max_body_bytes = limit }

module _ (ip_address : Bytes → Option (ℕ × Bytes)) (finite : List ℕ → Bool)
    (settings : Settings) where
  unfoldable pub is_host : Bool → Bytes → Bool
  is_host is_https host =
      if settings.gateway_authority
      then is_canonical_host ip_address (if is_https then 443 else 80) host
      else is_one_of settings.allowed_hosts host

  -- `not invalid_authority`
  unfoldable pub is_allowed : Bool → List Bytes → List Bytes → Bool
  unfolding is_host
  is_allowed is_https (host ∷ []) [] = is_host is_https host
  is_allowed is_https (host ∷ []) (origin ∷ []) =
      is_host is_https host && is_one_of settings.allowed_origins origin
  is_allowed is_https _ _ = false

  -- the checks of the headers, before the body is read
  unfoldable pub check_authority : Request → Checked (Unit {0})
  unfolding is_allowed is_identity
  check_authority r = do
    check
        (is_allowed r.is_https (values_named (codes "host") r.headers)
          (values_named (codes "origin") r.headers))
        host_or_origin
    check (is_identity (values_named (codes "content-encoding") r.headers)) unsupported_encoding
    check (not (is_none (authenticated_principal settings.credentials r.headers))) unauthenticated

  unfoldable pub has_single_headers : List Header → Bool
  has_single_headers headers =
      at_most_one (values_named (codes "content-type") headers)
      && at_most_one (values_named (codes "content-length") headers)
      && at_most_one (values_named (codes "transfer-encoding") headers)
      && at_most_one (values_named (codes "mcp-method") headers)
      && at_most_one (values_named (codes "mcp-name") headers)

  unfoldable pub check_headers : Request → Checked (Option ℕ)
  unfolding is_version has_single_headers is_json declared_length
  check_headers r = do
    check (bytes_eq r.method (codes "POST")) method_not_allowed
    check (is_version (values_named (codes "mcp-protocol-version") r.headers)) invalid_version
    check (has_single_headers r.headers) ambiguous_headers
    check (is_json (values_named (codes "content-type") r.headers)) content_type_not_json
    check
        (is_nil (values_named (codes "content-length") r.headers)
          || is_nil (values_named (codes "transfer-encoding") r.headers))
        ambiguous_framing
    declared_length settings.max_body_bytes (values_named (codes "content-length") r.headers)

  -- the body, when the headers are checked
  unfoldable pub check_body : Option ℕ → List Event → Checked (Bytes × List Event)
  unfolding received is_declared judged_json
  check_body declared events = do
    (body, later) ← received (bounded_body settings.max_body_bytes [] events)
    check (is_declared declared body) invalid_content_length
    judged_json (has_valid_root_request_id finite (body_limits settings.max_body_bytes) body)
    ok (body, later)

  -- the body that the application is given, with the events after it
  unfoldable pub security_call : Request → List Event → Checked (Bytes × List Event)
  unfolding check_authority check_headers check_body
  security_call r events = do
    check_authority r
    declared ← check_headers r
    check_body declared events
