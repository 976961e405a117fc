-- ===== src/Preflight/Parser.antt =====
-- `_JsonPreflightParser`: frames, the values between them, and the loop of `validate`.
use nplg_dspace_mcp.Prelude.{
  ℕ, zero, suc, ◌+◌, Bool, true, false, ◌&&◌, ◌||◌, ◌==◌, ltb, leb, Option, none, some, List, [],
  ◌∷◌, if◌then◌else◌, length, ok, err,
}
use nplg_dspace_mcp.Preflight.Limits.{Parsed, Limits, rejected, out_of_fuel, require, ◌>>=◌, ◌>>◌}
use nplg_dspace_mcp.Preflight.Scan.{after, digit, next_is, skip_whitespace, consume_number}
use nplg_dspace_mcp.Preflight.Text.{consume_string}

-- A decoded key, by its UTF-8 bytes.
abbrev pub Key : Type 0
Key = List ℕ

pub data ContainerKind : Type 0 where
  array object : ContainerKind

pub data FrameState : Type 0 where
  array_value_or_end array_after_value object_key_or_end object_value object_after_value :
      FrameState

pub data ValueKind : Type 0 where
  array_value boolean integer null number object_value_kind string : ValueKind

-- `_Frame`
pub record Frame : Type 0 where
  pub kind : ContainerKind
  pub state : FrameState
  pub members : ℕ
  pub keys : List Key
  pub current_key : Option Key
  pub allow_end : Bool

-- The parser's fields; the innermost frame comes first. `root_object_keys` and the keys of the
-- outermost frame are one set in the program, so a key is added to both.
pub record Parser : Type 0 where
  pub rest : List ℕ
  pub tokens : ℕ
  pub frames : List Frame
  pub root_object_keys : Option (List Key)
  pub root_request_id_is_valid : Bool
  pub root_complete : Bool

unfoldable pub parser : List ℕ → Parser
parser payload = record {
  rest = payload;
  tokens = 0;
  frames = [];
  root_object_keys = none;
  root_request_id_is_valid = false;
  root_complete = false;
}

unfoldable pub key_eq : Key → Key → Bool
key_eq [] [] = true
key_eq [] (b ∷ k) = false
key_eq (a ∷ j) [] = false
key_eq (a ∷ j) (b ∷ k) = (a == b) && key_eq j k

-- `key in keys`
unfoldable pub has_key : Key → List Key → Bool
unfolding key_eq
has_key k [] = false
has_key k (j ∷ keys) = key_eq j k || has_key k keys

-- `payload.startswith(word, index)`, and the bytes after it
unfoldable pub strip_prefix : List ℕ → List ℕ → Option (List ℕ)
strip_prefix [] rest = some rest
strip_prefix (b ∷ word) [] = none
strip_prefix (b ∷ word) (c ∷ rest) = if b == c then strip_prefix word rest else none

abbrev pub true_word : List ℕ
true_word = b't' ∷ b'r' ∷ b'u' ∷ b'e' ∷ []

abbrev pub false_word : List ℕ
false_word = b'f' ∷ b'a' ∷ b'l' ∷ b's' ∷ b'e' ∷ []

abbrev pub null_word : List ℕ
null_word = b'n' ∷ b'u' ∷ b'l' ∷ b'l' ∷ []

-- `_push_container`, the bracket read
unfoldable pub push_container : Limits → ContainerKind → Parser → Parsed Parser
push_container limits kind p =
    if leb limits.max_depth (length p.frames)
    then err rejected
    else ok (record p {
      rest = after p.rest;
      frames =
          record {
            kind = kind;
            state = elim kind [ array ↦ array_value_or_end | object ↦ object_key_or_end ];
            members = 0;
            keys = [];
            current_key = none;
            allow_end = true;
          }
          ∷ p.frames;
      root_object_keys = elim p.frames [
        | [] ↦ elim kind [ array ↦ p.root_object_keys | object ↦ some [] ]
        | f ∷ fs ↦ p.root_object_keys
      ];
    })

abbrev pub is_empty : List Frame → Bool
is_empty [] = true
is_empty (f ∷ fs) = false

-- `_finish_scalar`, with the bytes of the scalar read
unfoldable pub finish_scalar : List ℕ → Parser → Parser
finish_scalar rest p = record p {
  rest = rest;
  root_complete = p.root_complete || is_empty p.frames;
}

-- `_finish_container`, the closing bracket read; the frames are those outside it
unfoldable pub finish_container : List Frame → Parser → Parser
finish_container frames p = record p {
  rest = after p.rest;
  frames = frames;
  root_complete = p.root_complete || is_empty frames;
}

abbrev pub at_end : List ℕ → Bool
at_end [] = true
at_end (b ∷ rest) = false

module _ (finite : List ℕ → Bool) (limits : Limits) where
  -- a scalar word
  unfoldable pub begin_word : Parser → Parsed (ValueKind × Parser)
  unfolding finish_scalar
  begin_word p = elim (strip_prefix true_word p.rest) [
    | some rest ↦ ok (boolean, finish_scalar rest p)
    | none ↦ elim (strip_prefix false_word p.rest) [
      | some rest ↦ ok (boolean, finish_scalar rest p)
      | none ↦ elim (strip_prefix null_word p.rest) [
        | some rest ↦ ok (null, finish_scalar rest p)
        | none ↦ err rejected
      ]
    ]
  ]

  -- the branches of `_begin_value` on the next byte
  unfoldable pub begin_with : ℕ → Parser → Parsed (ValueKind × Parser)
  unfolding finish_scalar
  begin_with b p =
      if b == 0x7b
      then (do q ← push_container limits object p; ok (object_value_kind, q))
      else if b == 0x5b
      then (do q ← push_container limits array p; ok (array_value, q))
      else if b == 0x22
      then (do
        (_, rest) ← consume_string limits.max_scalar_bytes false p.rest
        ok (string, finish_scalar rest p))
      else if b == 0x2d || digit b
      then (do
        (is_integer, rest) ← consume_number finite limits p.rest
        ok (if is_integer then integer else number, finish_scalar rest p))
      else begin_word p

  -- `_begin_value`: `_count_token`, then the branches
  unfoldable pub begin_value : Parser → Parsed (ValueKind × Parser)
  begin_value p = if ltb limits.max_tokens (p.tokens + 1) then err rejected else elim p.rest [
    | [] ↦ err rejected
    | b ∷ _ ↦ begin_with b (record p { tokens = p.tokens + 1 })
  ]

  drop_kind : Parsed (ValueKind × Parser) → Parsed Parser
  drop_kind (ok (_, p)) = ok p
  drop_kind (err e) = err e

  -- state `array_value_or_end`; the frames outside `f` are `fs`
  unfoldable pub array_item : Frame → List Frame → Parser → Parsed Parser
  unfolding finish_container drop_kind
  array_item f fs p =
      if f.allow_end && next_is 0x5d p.rest
      then ok (finish_container fs p)
      else if ltb limits.max_array_items (f.members + 1)
      then err rejected
      else drop_kind (
          begin_value (record p {
            frames = record f { members = f.members + 1; state = array_after_value } ∷ fs;
          }))

  -- `_consume_array_separator`
  unfoldable pub consume_array_separator : Frame → List Frame → Parser → Parsed Parser
  unfolding finish_container
  consume_array_separator f fs p =
      if next_is 0x2c p.rest
      then ok (record p {
        rest = after p.rest;
        frames = record f { state = array_value_or_end; allow_end = false } ∷ fs;
      })
      else if next_is 0x5d p.rest
      then ok (finish_container fs p)
      else err rejected

  -- the root's key set, when the frame is the root
  abbrev with_root_key : Key → List Frame → Option (List Key) → Option (List Key)
  with_root_key key [] (some keys) = some (key ∷ keys)
  with_root_key key _ root = root

  -- the rest of `_consume_object_key`, the key read
  unfoldable pub add_key : Key → List ℕ → Frame → List Frame → Parser → Parsed Parser
  add_key key rest f fs p =
      if has_key key f.keys
      then err rejected
      else if next_is 0x3a (skip_whitespace rest)
      then ok (record p {
        rest = after (skip_whitespace rest);
        frames =
            record f { keys = key ∷ f.keys; current_key = some key; state = object_value } ∷ fs;
        root_object_keys = with_root_key key fs p.root_object_keys;
      })
      else err rejected

  -- `_consume_object_key`
  unfoldable pub consume_object_key : Frame → List Frame → Parser → Parsed Parser
  unfolding finish_container
  consume_object_key f fs p =
      if f.allow_end && next_is 0x7d p.rest
      then ok (finish_container fs p)
      else if next_is 0x22 p.rest
      then (do
        (key, rest) ← consume_string limits.max_key_bytes true p.rest
        add_key key rest f fs p)
      else err rejected

  -- `_consume_object_separator`
  unfoldable pub consume_object_separator : Frame → List Frame → Parser → Parsed Parser
  unfolding finish_container
  consume_object_separator f fs p =
      if next_is 0x2c p.rest
      then ok (record p {
        rest = after p.rest;
        frames = record f { current_key = none; state = object_key_or_end; allow_end = false } ∷ fs;
      })
      else if next_is 0x7d p.rest
      then ok (finish_container fs p)
      else err rejected

  abbrev is_id : Option Key → Bool
  is_id none = false
  is_id (some key) = key_eq key (b'i' ∷ b'd' ∷ [])

  -- `_is_root_request_id_value`
  unfoldable pub is_root_request_id_value : Frame → List Frame → Bool
  unfolding key_eq
  is_root_request_id_value f fs =
      is_empty fs && (elim f.kind [ array ↦ false | object ↦ true ] && is_id f.current_key)

  abbrev is_request_id_kind : ValueKind → Bool
  is_request_id_kind integer = true
  is_request_id_kind string = true
  is_request_id_kind _ = false

  noted : Bool → Parsed (ValueKind × Parser) → Parsed Parser
  noted is_id (err e) = err e
  noted false (ok (kind, p)) = ok p
  noted true (ok (kind, p)) = ok (record p { root_request_id_is_valid = is_request_id_kind kind })

  -- `_consume_object_value`
  unfoldable pub consume_object_value : Frame → List Frame → Parser → Parsed Parser
  unfolding noted
  consume_object_value f fs p =
      if ltb limits.max_object_members (f.members + 1)
      then err rejected
      else noted (is_root_request_id_value f fs) (
          begin_value (record p {
            frames = record f { members = f.members + 1; state = object_after_value } ∷ fs;
          }))

  unfoldable pub in_state : FrameState → Frame → List Frame → Parser → Parsed Parser
  in_state array_value_or_end f fs p = array_item f fs p
  in_state array_after_value f fs p = consume_array_separator f fs p
  in_state object_key_or_end f fs p = consume_object_key f fs p
  in_state object_value f fs p = consume_object_value f fs p
  in_state object_after_value f fs p = consume_object_separator f fs p

  unfoldable pub in_frames : List Frame → Parser → Parsed Parser
  unfolding drop_kind
  in_frames [] p = drop_kind (begin_value p)
  in_frames (f ∷ fs) p = in_state f.state f fs p

  -- one round of the loop of `validate`
  unfoldable pub round : Parser → Parsed Parser
  round p = in_frames p.frames (record p { rest = skip_whitespace p.rest })

  unfoldable pub rounds : ℕ → Parser → Parsed Parser
  rounds zero p = if p.root_complete then ok p else err out_of_fuel
  rounds (suc fuel) p = let rest = round p >>= rounds fuel in if p.root_complete then ok p else rest

  -- `validate`; one round more than there are bytes is enough
  unfoldable pub validate : List ℕ → Parsed Parser
  unfolding parser
  validate payload =
      if length payload == 0 || ltb limits.max_body_bytes (length payload)
      then err rejected
      else (do
        p ← rounds (suc (length payload)) (parser payload)
        require (at_end (skip_whitespace p.rest))
        ok (record p { rest = skip_whitespace p.rest }))

  -- `preflight_json_has_root_object_member` of a key by its UTF-8 bytes
  unfoldable pub has_root_object_member : List ℕ → Key → Parsed Bool
  has_root_object_member payload member = do
    p ← validate payload
    ok (elim p.root_object_keys [ none ↦ false | some keys ↦ has_key member keys ])

  -- `preflight_json_has_valid_root_request_id`
  unfoldable pub has_valid_root_request_id : List ℕ → Parsed Bool
  has_valid_root_request_id payload = do p ← validate payload; ok p.root_request_id_is_valid
