-- ===== src/Http/Headers.antt =====
-- Headers of requests and responses, and `_send_with_policy` of src/nplg_mcp/http_security.py.
use nplg_dspace_mcp.Prelude.{Bool, true, false, not, ◌&&◌, List, [], ◌∷◌, ◌++◌, any, filter}
use nplg_dspace_mcp.Prelude.Bytes.{Bytes, codes, bytes_eq, lower, starts_with}

abbrev pub Header : Type 0
Header = Bytes × Bytes

-- `[value for name, value in headers if name.lower() == wanted]`
unfoldable pub values_named : Bytes → List Header → List Bytes
values_named wanted [] = []
values_named wanted ((name, value) ∷ headers) =
    let rest = values_named wanted headers in
    elim (bytes_eq (lower name) wanted) [ true ↦ value ∷ rest | false ↦ rest ]

-- `_RESPONSE_POLICY`
unfoldable pub response_policy : List Header
response_policy =
    (
      codes "content-security-policy",
      codes "default-src 'none'; base-uri 'none'; object-src 'none'; frame-ancestors 'none'",
    )
    ∷ (codes "x-content-type-options", codes "nosniff")
    ∷ (codes "referrer-policy", codes "no-referrer")
    ∷ (codes "cache-control", codes "no-store, no-transform")
    ∷ []

-- `name in _POLICY_NAMES`
unfoldable pub is_policy_name : Bytes → Bool
unfolding response_policy
is_policy_name name = any (λ h. bytes_eq h.0 name) response_policy

unfoldable pub access_control : Bytes
access_control = codes "access-control-"

unfoldable pub accel_buffering : Bytes
accel_buffering = codes "x-accel-buffering"

-- the headers that the policy leaves as they are
unfoldable pub is_kept : Bytes → Bool
is_kept name =
    not (is_policy_name name)
    && not (starts_with access_control name)
    && not (bytes_eq accel_buffering name)

unfoldable pub is_sse : List Header → Bool
is_sse headers =
    any
      (λ h.
        bytes_eq (lower h.0) (codes "content-type")
        && starts_with (codes "text/event-stream") (lower h.1))
      headers

unfoldable pub sse_headers : Bool → List Header
sse_headers true = (accel_buffering, codes "no") ∷ []
sse_headers false = []

-- `_send_with_policy`: the headers that a response starts with
unfoldable pub with_policy : List Header → List Header
with_policy headers =
    filter (λ h. is_kept (lower h.0)) headers ++ response_policy ++ sse_headers (is_sse headers)
