-- ===== src/Tokens/Json.antt =====
-- src/nplg_mcp/json_types.py as the tokens use it, and `_reject_duplicate_cursor_keys` of src/nplg_mcp/tokens.py.
-- The parse of the standard library is a parameter.
use nplg_dspace_mcp.Prelude.{
  Bool, true, false, ◌&&◌, List, [], ◌∷◌, Option, none, some, if◌then◌else◌, any, ℤ,
}
use nplg_dspace_mcp.Prelude.Bytes.{Bytes, bytes_eq}

-- What the parser makes of a text; of a double only whether it is finite.
mutual
  pub data JsonValue : Type 0 where
    null : JsonValue
    boolean : Bool → JsonValue
    integer : ℤ → JsonValue
    real : (is_finite : Bool) → JsonValue
    text : Bytes → JsonValue
    array : Items → JsonValue
    object : Members → JsonValue

  pub data Items : Type 0 where
    nil : Items
    item : JsonValue → Items → Items

  pub data Members : Type 0 where
    end : Members
    member : Bytes → JsonValue → Members → Members

-- `is_json_value`; the keys of a parsed object are texts
unfoldable mutual
  pub is_json_value : JsonValue → Bool
  is_json_value (real is_finite) = is_finite
  is_json_value (array items) = are_json_items items
  is_json_value (object members) = are_json_members members
  is_json_value _ = true

  pub are_json_items : Items → Bool
  are_json_items nil = true
  are_json_items (item v vs) = is_json_value v && are_json_items vs

  pub are_json_members : Members → Bool
  are_json_members end = true
  are_json_members (member k v ms) = is_json_value v && are_json_members ms

-- `_reject_duplicate_cursor_keys` returns on these pairs, with the keys that the result already has; it has then
-- the same members.
unfoldable pub accepts_pairs : List Bytes → Members → Bool
unfolding is_json_value
accepts_pairs seen end = true
accepts_pairs seen (member key value pairs) =
    let rest = accepts_pairs (key ∷ seen) pairs in
    if any (bytes_eq key) seen then false else is_json_value value && rest

-- the parser calls the hook on every object
unfoldable mutual
  unfolding accepts_pairs

  pub hook_accepts : JsonValue → Bool
  hook_accepts (array items) = hook_accepts_items items
  hook_accepts (object members) = hook_accepts_members members && accepts_pairs [] members
  hook_accepts _ = true

  pub hook_accepts_items : Items → Bool
  hook_accepts_items nil = true
  hook_accepts_items (item v vs) = hook_accepts v && hook_accepts_items vs

  pub hook_accepts_members : Members → Bool
  hook_accepts_members end = true
  hook_accepts_members (member k v ms) = hook_accepts v && hook_accepts_members ms

-- `require_json_object`
unfoldable pub require_json_object : JsonValue → Option JsonValue
unfolding is_json_value
require_json_object (object members) =
    if are_json_members members then some (object members) else none
require_json_object _ = none

module _ (loads : Bytes → Option JsonValue) where
  -- `load_json_value` with the hook
  unfoldable pub load_json_value : Bytes → Option JsonValue
  unfolding hook_accepts is_json_value
  load_json_value payload = elim (loads payload) as (λ _. Option JsonValue) [
    | none ↦ none
    | some value ↦ if hook_accepts value && is_json_value value then some value else none
  ]

  unfoldable pub load_json_object : Bytes → Option JsonValue
  unfolding load_json_value require_json_object
  load_json_object payload = elim (load_json_value payload) as (λ _. Option JsonValue) [
    | none ↦ none
    | some value ↦ require_json_object value
  ]
