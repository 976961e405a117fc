-- ===== src/Tokens/Paths.antt =====
-- `_validate_path` of src/nplg_mcp/tokens.py, with the `PurePosixPath` of the standard library: its parts leave out
-- empty and `.` segments, and `as_posix` joins them.
pub mod Canonical
use nplg_dspace_mcp.Prelude.{
  ℕ, Bool, not, ◌&&◌, ◌||◌, List, [], ◌∷◌, ◌++◌, Option, none, some, if◌then◌else◌, any, filter,
}
use nplg_dspace_mcp.Prelude.Bytes.{Bytes, codes, bytes_eq, starts_with, has_byte, split}

-- `"/".join(parts)`
unfoldable pub join : ℕ → List Bytes → Bytes
join sep [] = []
join sep (p ∷ []) = p
join sep (p ∷ q ∷ ps) = p ++ sep ∷ join sep (q ∷ ps)

unfoldable pub is_part : Bytes → Bool
is_part segment = not (bytes_eq segment []) && not (bytes_eq segment (codes "."))

unfoldable pub parts : Bytes → List Bytes
unfolding is_part
parts path = filter is_part (split b'/' path)

-- `as_posix` of a relative path
unfoldable pub as_posix : List Bytes → Bytes
unfolding join
as_posix [] = codes "."
as_posix (p ∷ ps) = join b'/' (p ∷ ps)

unfoldable pub validate_path : Bytes → Option Bytes
unfolding parts as_posix
validate_path path =
    if bytes_eq path [] || has_byte b'\\' path
    then none
    else if starts_with (codes "/") path
        || bytes_eq path (codes ".")
        || bytes_eq path (codes "..")
        || any (bytes_eq (codes "..")) (parts path)
    then none
    else if not (bytes_eq (as_posix (parts path)) path)
    then none
    else some path
