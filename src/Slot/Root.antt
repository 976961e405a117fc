-- ===== src/Slot/Root.antt =====
-- The check of the worker's mounted file system in src/nplg_mcp/pdf_worker_slot.py.
use Prim.Native.String.{String}
use text.Mathlib.Text.{◌==◌}
use nplg_dspace_mcp.Prelude as Numbers
use nplg_dspace_mcp.Prelude.{
  ℕ, Bool, true, false, not, ◌&&◌, ◌||◌, List, [], ◌∷◌, ltb, if◌then◌else◌, Result, ok, err,
}

-- `PdfWorkerSlotPolicy`, what the check of the root reads
pub record Policy : Type 0 where
  pub filesystem_type : String
  pub maximum_total_bytes : ℕ
  pub minimum_available_bytes : ℕ
  pub maximum_total_inodes : ℕ
  pub minimum_available_inodes : ℕ

-- `WorkerSlotFilesystem`
pub record Filesystem : Type 0 where
  pub filesystem_type : String
  pub mount_options : List String
  pub total_bytes : ℕ
  pub available_bytes : ℕ
  pub total_inodes : ℕ
  pub available_inodes : ℕ

pub data RootError : Type 0 where
  type_mismatch options_mismatch byte_capacity_mismatch bytes_insufficient : RootError
  inode_capacity_mismatch inodes_insufficient : RootError

abbrev required_mount_options : List String
required_mount_options = "rw" ∷ "nodev" ∷ "nosuid" ∷ "noexec" ∷ []

unfoldable pub has_option : String → List String → Bool
has_option o [] = false
has_option o (x ∷ xs) = x == o || has_option o xs

-- `issubset`
unfoldable pub has_options : List String → List String → Bool
unfolding has_option
has_options [] present = true
has_options (o ∷ os) present = has_option o present && has_options os present

-- `validate_quota_bound_staging_root`
unfoldable pub validate_quota_bound_staging_root : Policy → Filesystem → Result RootError (Unit {0})
unfolding has_options
validate_quota_bound_staging_root policy observed =
    if not (observed.filesystem_type == policy.filesystem_type)
    then err type_mismatch
    else if not (has_options required_mount_options observed.mount_options)
    then err options_mismatch
    else if not (Numbers.◌==◌ observed.total_bytes policy.maximum_total_bytes)
    then err byte_capacity_mismatch
    else if ltb observed.available_bytes policy.minimum_available_bytes
    then err bytes_insufficient
    else if not (Numbers.◌==◌ observed.total_inodes policy.maximum_total_inodes)
    then err inode_capacity_mismatch
    else if ltb observed.available_inodes policy.minimum_available_inodes
    then err inodes_insufficient
    else ok tt
