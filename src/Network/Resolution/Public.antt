-- ===== src/Network/Resolution/Public.antt =====
-- Which addresses are public, by their ranges.
use nplg_dspace_mcp.Prelude.{◌*◌, ◌^◌, ◌<◌, ◌≤◌, ◌⊎◌, ◌≡◌, ◌↔◌, Bool, true, false, arith}
use nplg_dspace_mcp.Network.Resolution.{
  Address, ipv4, ipv6, is_ipv4_mapped, is_site_local, is_forbidden_address,
}

module _ (is_global : Address → Bool) where
  -- An address of the public internet: IPv6 without a scope, and in neither ::ffff:0:0/96 nor fec0::/10.
  abbrev pub IsPublicAddress : Address → Type 0
  IsPublicAddress (ipv4 n) = is_global (ipv4 n) ≡ true
  IsPublicAddress (ipv6 n has_scope) =
      (is_global (ipv6 n has_scope) ≡ true)
      × (has_scope ≡ false)
      × ((n < 0xffff * 2 ^ 32) ⊎ (0x10000 * 2 ^ 32 ≤ n))
      × ((n < 0xfec0 * 2 ^ 112) ⊎ (0xff00 * 2 ^ 112 ≤ n))

  pub is_forbidden_address_iff :
      (a : Address) → (is_forbidden_address is_global a ≡ false) ↔ IsPublicAddress a
  unfolding is_forbidden_address is_ipv4_mapped is_site_local
  is_forbidden_address_iff (ipv4 n) = ground arith
  is_forbidden_address_iff (ipv6 n has_scope) = ground arith
