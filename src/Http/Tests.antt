-- ===== src/Http/Tests.antt =====
-- Requests at concrete settings, and the theorems at them.
use Prim.Native.String.{String}
use nplg_dspace_mcp.Prelude.{
  ℕ, ◌≡◌, refl, Bool, true, false, List, [], ◌∷◌, Option, none, some, ok, err, arith,
}
use nplg_dspace_mcp.Prelude.Bytes.{Bytes, codes, bytes_eq, lower, has_byte, split, cut_at}
use nplg_dspace_mcp.Preflight.Tests.{lexer}
use nplg_dspace_mcp.Preflight.Parser.{has_valid_root_request_id}
use nplg_dspace_mcp.Http.Headers.{Header, values_named, with_policy}
use nplg_dspace_mcp.Http.Policy.{decided, with_policy-decides}
use nplg_dspace_mcp.Http.Body.{
  Event, request, unrelated, disconnect, bounded_body, sent, judged, bounded_body-eq-judged,
}
use nplg_dspace_mcp.Http.Credentials.{Credentials, authenticated_principal}
use nplg_dspace_mcp.Http.Authenticated.{CreditedBy, authenticated_principal_iff}
use nplg_dspace_mcp.Http.Host.{decimal, is_canonical_host, is_dns_label, is_unsafe, is_port}
use nplg_dspace_mcp.Http.Security.{
  Settings, Request, Refusal, host_or_origin, unauthenticated, body_too_large, invalid_version,
  check_authority, check_headers, check_body, security_call,
}
use nplg_dspace_mcp.Http.Admitted.{Admits, security_call-Admits}
use nplg_dspace_mcp.Prelude.Dict.{lookup}
use text.Mathlib.TextEquality.{eq_iff}
use nplg_dspace_mcp.Http.Gates.{Gates, try_acquire_admission}
use nplg_dspace_mcp.Http.Flight.{IsBalanced, Left}
use nplg_dspace_mcp.Http.Flight.Arrive.{try_acquire_admission-Left}
use nplg_dspace_mcp.Http.Flight.Runs.{Server, after_arrival, arrive, here, next, Reach-EachBalanced}
use nplg_dspace_mcp.Http.Unread.{IsEarly, unauthenticated-unread}

abbrev all_finite : List ℕ → Bool
all_finite literal = true

-- No text is an address.
abbrev no_address : Bytes → Option (ℕ × Bytes)
no_address text = none

abbrev credentials : Credentials
credentials = record {
  allow_anonymous = false;
  api_principals =
      record { principal_id = "alice"; bearer_token = some (codes "s3"); api_key = none } ∷ [];
  api_bearer_token = none;
  api_key = none;
}

abbrev settings : Settings
settings = record {
  allowed_hosts = codes "h" ∷ [];
  allowed_origins = [];
  gateway_authority = false;
  credentials = credentials;
  max_body_bytes = 16;
}

abbrev identified : List Header
identified =
    (codes "Host", codes "h")
    ∷ (codes "Authorization", codes "Bearer s3")
    ∷ (codes "MCP-Protocol-Version", codes "2026-01-01")
    ∷ (codes "Content-Type", codes "application/json; charset=utf-8")
    ∷ (codes "Content-Length", codes "8")
    ∷ []

abbrev posted : Request
posted = record { is_https = true; method = codes "POST"; headers = identified }

abbrev chunks : List Event
chunks = request (codes "{\"id\"") true ∷ unrelated ∷ request (codes ":7}") false ∷ disconnect ∷ []

-- Everything that the checks compute with.
pipeline : Unit {0}
unfolding values_named lower bytes_eq has_byte decimal authenticated_principal check_authority
    check_headers check_body security_call bounded_body has_valid_root_request_id lexer
pipeline = tt

passes :
    security_call no_address all_finite settings posted chunks
    ≡ ok (codes "{\"id\":7}", disconnect ∷ [])
unfolding pipeline
passes = refl

-- The checks refuse in their order: the host, the credentials, the version, the declared size.
refusals :
    (security_call no_address all_finite settings
        (record posted { headers = (codes "host", codes "other") ∷ identified })
        chunks
      ≡ err host_or_origin)
    × (security_call no_address all_finite settings
          (record posted { headers = (codes "Host", codes "h") ∷ [] })
          chunks
        ≡ err unauthenticated)
    × (security_call no_address all_finite settings
          (record posted { headers = (codes "MCP-Protocol-Version", codes "1") ∷ identified })
          chunks
        ≡ err invalid_version)
    × (security_call no_address all_finite (record settings { max_body_bytes = 7 }) posted chunks
        ≡ err body_too_large)
unfolding pipeline
refusals = (refl, refl, refl, refl)

hosts :
    (is_canonical_host no_address 443 (codes "a-1.example:8443") ≡ true)
    × (is_canonical_host no_address 443 (codes "a.example:443") ≡ false)
    × (is_canonical_host no_address 443 (codes "a.example:08") ≡ false)
    × (is_canonical_host no_address 443 (codes "A.example") ≡ false)
    × (is_canonical_host no_address 443 (codes "-a.example") ≡ false)
unfolding is_canonical_host cut_at is_dns_label has_byte bytes_eq decimal is_unsafe split is_port
hosts = (refl, refl, refl, refl, refl)

security_call-Admits_example :
    Admits no_address all_finite settings posted chunks (codes "{\"id\":7}") (disconnect ∷ [])
security_call-Admits_example =
    security_call-Admits no_address all_finite settings posted chunks passes

-- No header but the host.
abbrev unidentified : Request
unidentified = record posted { headers = (codes "Host", codes "h") ∷ [] }

nobody : authenticated_principal credentials unidentified.headers ≡ none
unfolding pipeline
nobody = refl

unauthenticated-unread_example :
    (refusal : Refusal) × IsEarly refusal
    × ((events : List Event)
        → security_call no_address all_finite settings unidentified events ≡ err refusal)
unauthenticated-unread_example =
    unauthenticated-unread no_address all_finite settings unidentified nobody

with_policy-decides_example :
    values_named
      (codes "cache-control")
      (with_policy ((codes "Cache-Control", codes "public") ∷ identified))
    ≡ decided (codes "cache-control") ((codes "Cache-Control", codes "public") ∷ identified)
with_policy-decides_example =
    with_policy-decides (codes "cache-control")
      ((codes "Cache-Control", codes "public") ∷ identified)

bounded_body-eq-judged_example : bounded_body 16 [] chunks ≡ judged 16 (sent chunks)
bounded_body-eq-judged_example = bounded_body-eq-judged 16 chunks

authenticated_principal_iff_example :
    (authenticated_principal credentials identified ≡ some "alice"
      → CreditedBy credentials identified "alice")
    × (CreditedBy credentials identified "alice"
        → (id : String) × (authenticated_principal credentials identified ≡ some id)
          × CreditedBy credentials identified id)
authenticated_principal_iff_example = authenticated_principal_iff credentials identified "alice"

-- One place for each of two gates, and a request of the principal in flight.
abbrev gates : Gates
gates = record {
  gate = record { capacity = 2; active = 0 };
  principals = some (("alice", record { capacity = 1; active = 0 }) ∷ []);
}

gates-IsBalanced : IsBalanced gates []
unfolding lookup
gates-IsBalanced = record {
  within = omega arith;
  counted = refl;
  each = λ k p e. ground (arith, eq_iff "alice" k);
  known = λ k e. refl;
}

abbrev idle : Server
idle = record { gates = gates; flights = [] }

Reach-EachBalanced_example :
    IsBalanced
      (after_arrival "alice" [] (try_acquire_admission "alice" gates)).gates
      (after_arrival "alice" [] (try_acquire_admission "alice" gates)).flights
Reach-EachBalanced_example =
    Reach-EachBalanced {s = idle} gates-IsBalanced (next here (arrive "alice" idle))

try_acquire_admission-Left_example : Left "alice" gates [] (try_acquire_admission "alice" gates)
try_acquire_admission-Left_example = try_acquire_admission-Left "alice" gates [] gates-IsBalanced
