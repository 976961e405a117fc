-- ===== src/Ipc/Values.antt =====
-- `_preflight_json` of src/nplg_mcp/pdf_ipc.py. `loads` is the decoding and the parse by the standard library.
pub mod Bounded
use nplg_dspace_mcp.Prelude.{
  ℕ, zero, suc, ◌+◌, Bool, true, false, ◌||◌, ◌==◌, ltb, List, [], ◌∷◌, Option, none, some,
  if◌then◌else◌, length, any, Result, ok, err,
}
use nplg_dspace_mcp.Prelude.Bytes.{Bytes, bytes_eq, starts_with}

-- A JSON value. The walk asks of a double only whether it is finite, and of the other scalars nothing.
mutual
  pub data Json : Type 0 where
    scalar : Json
    real : (is_finite : Bool) → Json
    list : Items → Json
    object : Members → Json

  pub data Items : Type 0 where
    nil : Items
    cons : Json → Items → Items

  pub data Members : Type 0 where
    end : Members
    member : Bytes → Json → Members → Members

pub data IpcError : Type 0 where
  length_out_of_range byte_order_mark not_json over_limit not_finite out_of_fuel : IpcError

abbrev pub Stack : Type 0
Stack = List (Json × ℕ)

-- `stack.extend(...)`; the last of the children comes first
unfoldable pub push_items : Items → ℕ → Stack → Stack
push_items nil depth stack = stack
push_items (cons v vs) depth stack = push_items vs depth ((v, depth) ∷ stack)

unfoldable pub push_members : Members → ℕ → Stack → Stack
push_members end depth stack = stack
push_members (member k v ms) depth stack = push_members ms depth ((v, depth) ∷ stack)

unfoldable pub push_children : Json → ℕ → Stack → Stack
unfolding push_items push_members
push_children scalar depth stack = stack
push_children (real is_finite) depth stack = stack
push_children (list items) depth stack = push_items items (depth + 1) stack
push_children (object members) depth stack = push_members members (depth + 1) stack

abbrev pub is_infinite : Json → Bool
is_infinite (real false) = true
is_infinite _ = false

module _ (max_values max_depth : ℕ) where
  -- the loop over the stack; a round visits a value
  unfoldable pub walk : ℕ → ℕ → Stack → Result IpcError (Unit {0})
  unfolding push_children
  walk zero visited stack = err out_of_fuel
  walk (suc fuel) visited [] = ok tt
  walk (suc fuel) visited ((item, depth) ∷ stack) =
      let rest = walk fuel (visited + 1) (push_children item depth stack) in
      if ltb max_values (visited + 1) || ltb max_depth depth
      then err over_limit
      else if is_infinite item
      then err not_finite
      else rest

  -- one round more than there may be values
  unfoldable pub check_structure : Json → Result IpcError (Unit {0})
  unfolding walk
  check_structure value = walk (suc (suc max_values)) 0 ((value, 1) ∷ [])

-- `_reject_duplicate_pairs`; a dict keeps the order of its keys
module _ {V : Type 0} where
  unfoldable pub reject_duplicates : List Bytes → List (Bytes × V) → Option (List (Bytes × V))
  reject_duplicates seen [] = some []
  reject_duplicates seen ((key, item) ∷ pairs) =
      let rest = reject_duplicates (key ∷ seen) pairs in
      if any (bytes_eq key) seen then none else elim rest as (λ _. Option (List (Bytes × V))) [
        | none ↦ none
        | some value ↦ some ((key, item) ∷ value)
      ]

module _ (loads : Bytes → Option Json) where
  unfoldable pub preflight_json : ℕ → Bytes → Result IpcError (Unit {0})
  unfolding check_structure
  preflight_json maximum frame =
      if length frame == 0 || ltb maximum (length frame)
      then err length_out_of_range
      else if starts_with (0xef ∷ 0xbb ∷ 0xbf ∷ []) frame
      then err byte_order_mark
      else elim (loads frame) [ none ↦ err not_json | some value ↦ check_structure 32_768 64 value ]
