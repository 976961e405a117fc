-- ===== src/Slot/Tests.antt =====
-- The slot at concrete inputs, and the theorems about it applied there.
use nplg_dspace_mcp.Prelude.{inr, ◌≡◌, refl, true, false, none, some, [], ◌∷◌, arith, ok, err}
use nplg_dspace_mcp.Slot.Root.{
  Policy, Filesystem, validate_quota_bound_staging_root, has_options, has_option,
}
use nplg_dspace_mcp.Slot.{
  already_leased, issued, Context, Active, Quota, lease_object, lease, enter, release, contains,
}
use nplg_dspace_mcp.Slot.Lifetime.{
  IsSound, IsFit, releasing, silent, foreign, Foreign-keeps, lease-cycle,
}

abbrev policy : Policy
policy = record {
  filesystem_type = "ext4";
  maximum_total_bytes = 1000;
  minimum_available_bytes = 600;
  maximum_total_inodes = 100;
  minimum_available_inodes = 60;
}

abbrev mounted : Filesystem
mounted = record {
  filesystem_type = "ext4";
  mount_options = "rw" ∷ "relatime" ∷ "noexec" ∷ "nosuid" ∷ "nodev" ∷ [];
  total_bytes = 1000;
  available_bytes = 700;
  total_inodes = 100;
  available_inodes = 99;
}

abbrev parent : Context
parent = record { thread = 1; task = some 5 }

abbrev stranger : Context
stranger = record { thread = 1; task = some 6 }

abbrev idle : Quota
idle = record { policy = policy; active = none; released_leases = []; made = 0 }

idle-IsSound : IsSound idle
unfolding contains
idle-IsSound = record { made = λ l e. ground arith; active = λ l e. ground arith }

abbrev held : Active
held = record { lease = 0; state = issued; owner = parent }

abbrev busy : Quota
busy = record idle { active = some held; made = 1 }

lease-cycle_example :
    let held = (lease parent mounted idle).1 in
    let used = (enter parent (lease_object 0) held).1 in
    let left = (release parent (lease_object 0) used).1 in
    (contains 0 [] ≡ false)
    × (idle.active ≡ none)
    × IsFit policy mounted
    × ((enter parent (lease_object 0) held).0 ≡ ok tt)
    × ((release parent (lease_object 0) used).0 ≡ ok tt)
    × (left.active ≡ none)
    × (contains 0 left.released_leases ≡ true)
unfolding lease validate_quota_bound_staging_root has_options has_option
lease-cycle_example = lease-cycle parent mounted idle 0 idle-IsSound refl

Foreign-keeps_example :
    ((release stranger (lease_object 0) busy).1 ≡ busy)
    × (lease parent mounted (release stranger (lease_object 0) busy).1
        ≡ (err already_leased, (release stranger (lease_object 0) busy).1))
Foreign-keeps_example =
    Foreign-keeps held parent mounted refl
      (foreign silent (releasing stranger (lease_object 0)) (inr (λ e. ground arith)))
