-- ===== src/Network/Resolution.antt =====
-- `is_forbidden_address` and `resolve_approved_addresses` of src/nplg_mcp/security.py. The resolver, the parser of
-- addresses, their text and the registry of global addresses are parameters. Texts are code points, and an address
-- is its number. No character but an ASCII letter lowers to a letter of the host, so `lower` of ASCII is enough.
pub mod Public
pub mod Approved
use nplg_dspace_mcp.Prelude.{
  ℕ, ◌/◌, ◌^◌, ◌==◌, Bool, true, false, not, ◌||◌, List, [], ◌∷◌, ◌++◌, Option, none, some, any,
  if◌then◌else◌, Result, ok, err,
}
use nplg_dspace_mcp.Prelude.Bytes.{Bytes, codes, bytes_eq, lower}

pub data Address : Type 0 where
  ipv4 : (number : ℕ) → Address
  ipv6 : (number : ℕ) (has_scope : Bool) → Address

pub data DnsError : Type 0 where
  host_rejected unresolved malformed_address forbidden_address no_address : DnsError

-- `ipv4_mapped`, ::ffff:0:0/96, and fec0::/10
unfoldable pub is_ipv4_mapped : ℕ → Bool
is_ipv4_mapped n = n / 2 ^ 32 == 0xffff

unfoldable pub is_site_local : ℕ → Bool
is_site_local n = n / 2 ^ 118 == 0x3fb

module _ (is_global : Address → Bool) where
  unfoldable pub is_forbidden_address : Address → Bool
  unfolding is_ipv4_mapped is_site_local
  is_forbidden_address (ipv4 n) = not (is_global (ipv4 n))
  is_forbidden_address (ipv6 n has_scope) =
      not (is_global (ipv6 n has_scope)) || has_scope || is_ipv4_mapped n || is_site_local n

  module _ (ip_address : Bytes → Option Address) (str : Address → Bytes) where
    -- the loop over the answers, each given by the text of its address
    unfoldable pub approve_each : List Bytes → List Bytes → Result DnsError (List Bytes)
    unfolding is_forbidden_address
    approve_each [] addresses = ok addresses
    approve_each (raw ∷ answers) addresses =
        elim (ip_address raw) as (λ _. Result DnsError (List Bytes)) [
          | none ↦ err malformed_address
          | some parsed ↦
              let kept = approve_each answers addresses in
              let added = approve_each answers (addresses ++ str parsed ∷ []) in
              if is_forbidden_address parsed
              then err forbidden_address
              else if any (bytes_eq (str parsed)) addresses
              then kept
              else added
        ]

    -- the end of the call
    unfoldable pub require_addresses : Result DnsError (List Bytes) → Result DnsError (List Bytes)
    require_addresses (ok []) = err no_address
    require_addresses r = r

    -- `answers` is what the resolver returns, or none where it raises an `OSError`
    unfoldable pub resolve_approved_addresses :
        Bytes → Option (List Bytes) → Result DnsError (List Bytes)
    unfolding approve_each require_addresses
    resolve_approved_addresses host answers =
        if bytes_eq (lower host) (codes "dspace.nplg.gov.ge")
        then elim answers as (λ _. Result DnsError (List Bytes)) [
          | none ↦ err unresolved
          | some each ↦ require_addresses (approve_each each [])
        ]
        else err host_rejected
