-- ===== src/Storage/Leases/Tests.antt =====
-- The leases at concrete inputs, and the theorems about them applied there.
use nplg_dspace_mcp.Prelude.{
  ◌≡◌, refl, true, false, none, some, ok, err, is_ok, if◌then◌else◌, ◌==◌,
}
use nplg_dspace_mcp.Storage.Leases.{
  render_in_use, LeaseTable, acquire_asset_lease, register_transaction, require_authority,
  authorize_delete,
}
use nplg_dspace_mcp.Storage.Leases.Authority.{here, next, acquiring, authority_exclusive}

-- One reader of object 1.
abbrev reading : LeaseTable
reading = record { readers = λ k. if k == 1 then some 1 else none; writers = λ k. none }

-- A transaction on object 2 besides.
abbrev writing : LeaseTable
unfolding register_transaction
writing = (register_transaction 2 7 reading).1

authority_exclusive_example :
    let later = (acquire_asset_lease 1 true writing).1 in
    (require_authority 2 (some 7) later ≡ ok tt)
    × (authorize_delete 2 (some 7) later ≡ ok tt)
    × (acquire_asset_lease 2 true later ≡ (err render_in_use, later))
    × (is_ok (require_authority 2 none later) ≡ false)
    × (is_ok (authorize_delete 2 none later) ≡ false)
unfolding register_transaction require_authority
authority_exclusive_example =
    authority_exclusive {key = 2} {token = 7} {s = writing} true none refl
      (next here (acquiring 1 true)) (λ e. cc)
