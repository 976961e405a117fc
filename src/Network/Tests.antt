-- ===== src/Network/Tests.antt =====
-- Resolutions at concrete inputs, with a registry and a reader for a few addresses in place of the library's, and the
-- theorems there.
use nplg_dspace_mcp.Prelude.{
  ◌≡◌, ◌≢◌, ◌↔◌, refl, ◌*◌, ◌+◌, ◌^◌, Bool, true, false, List, [], ◌∷◌, Option, none, some, ok, err,
  All, if◌then◌else◌, ◌==◌,
}
use nplg_dspace_mcp.Prelude.Bytes.{Bytes, codes, bytes_eq, lower}
use nplg_dspace_mcp.Network.Resolution.{
  Address, ipv4, ipv6, forbidden_address, no_address, malformed_address, host_rejected,
  is_ipv4_mapped, is_site_local, is_forbidden_address, approve_each, require_addresses,
  resolve_approved_addresses,
}
use nplg_dspace_mcp.Network.Resolution.Approved.{
  IsApproved, IsPublic, IsDistinct, IsUsable, resolve_approved_addresses-Approves,
  resolve_approved_addresses_iff,
}

-- Every address is global but 10.0.0.1, which the text b stands for; a stands for 8.8.8.8.
abbrev is_global : Address → Bool
is_global (ipv4 n) = if n == 0x0a000001 then false else true
is_global (ipv6 n has_scope) = true

abbrev ip_address : Bytes → Option Address
ip_address [] = none
ip_address (c ∷ s) =
    if c == b'a' then some (ipv4 0x08080808) else if c == b'b' then some (ipv4 0x0a000001) else none

abbrev str : Address → Bytes
str _ = codes "8.8.8.8"

abbrev host : Bytes
host = codes "DSpace.NPLG.gov.ge"

-- One private address refuses the answers, as does a text that is no address; the others are listed once.
resolutions :
    (resolve_approved_addresses is_global ip_address str host (some (codes "a" ∷ codes "b" ∷ []))
      ≡ err forbidden_address)
    × (resolve_approved_addresses is_global ip_address str host (some (codes "a" ∷ codes "c" ∷ []))
        ≡ err malformed_address)
    × (resolve_approved_addresses is_global ip_address str host (some []) ≡ err no_address)
    × (resolve_approved_addresses is_global ip_address str (codes "nplg.ge") none
        ≡ err host_rejected)
unfolding resolve_approved_addresses approve_each require_addresses is_forbidden_address lower
    bytes_eq
resolutions = (refl, refl, refl, refl)

-- ::ffff:8.8.8.8 and fec0::1 are forbidden.
forbidden :
    (is_forbidden_address is_global (ipv6 (0xffff * 2 ^ 32 + 0x08080808) false) ≡ true)
    × (is_forbidden_address is_global (ipv6 (0x3fb * 2 ^ 118 + 1) false) ≡ true)
    × (is_forbidden_address is_global (ipv6 (0x2001 * 2 ^ 112 + 1) false) ≡ false)
    × (is_forbidden_address is_global (ipv6 (0x2001 * 2 ^ 112 + 1) true) ≡ true)
unfolding is_forbidden_address is_ipv4_mapped is_site_local
forbidden = (refl, refl, refl, refl)

twice :
    resolve_approved_addresses is_global ip_address str host (some (codes "a" ∷ codes "a" ∷ []))
    ≡ ok (codes "8.8.8.8" ∷ [])
unfolding resolve_approved_addresses approve_each require_addresses is_forbidden_address lower
    bytes_eq
twice = refl

resolve_approved_addresses-Approves_example :
    (lower host ≡ codes "dspace.nplg.gov.ge")
    × ((each : List Bytes) × (some (codes "a" ∷ codes "a" ∷ []) ≡ some each)
        × All (IsApproved is_global ip_address str (codes "8.8.8.8" ∷ [])) each)
    × All (IsPublic is_global ip_address str) (codes "8.8.8.8" ∷ [])
    × IsDistinct (codes "8.8.8.8" ∷ [])
    × (codes "8.8.8.8" ∷ [] ≢ [])
resolve_approved_addresses-Approves_example =
    resolve_approved_addresses-Approves is_global ip_address str host
      (some (codes "a" ∷ codes "a" ∷ [])) twice

resolve_approved_addresses_iff_example :
    ((out : List Bytes) × (resolve_approved_addresses is_global ip_address str host
          (some (codes "a" ∷ []))
        ≡ ok out))
    ↔ ((lower host ≡ codes "dspace.nplg.gov.ge")
        × ((raw : Bytes) × (each : List Bytes) × (some (codes "a" ∷ []) ≡ some (raw ∷ each))
            × All (IsUsable is_global ip_address str) (raw ∷ each)))
resolve_approved_addresses_iff_example =
    resolve_approved_addresses_iff is_global ip_address str host (some (codes "a" ∷ []))
