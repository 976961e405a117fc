-- ===== src/Ipc/Parser.antt =====
-- The frames of src/nplg_mcp/parser_ipc.py. The model layer is a parameter: `model_dump_json` of a message, and
-- `validate_json` of an adapter in strict mode with its `dump_json`.
use nplg_dspace_mcp.Prelude.{
  ℕ, ◌*◌, ◌≡◌, refl, Bool, false, ◌||◌, ◌==◌, ltb, List, Option, none, some, if◌then◌else◌, length,
  Result, ok, err, arith, Bool-cases, inl, inr,
}
use nplg_dspace_mcp.Prelude.Bytes.{Bytes, bytes_eq, eq_of_bytes_eq}
use nplg_dspace_mcp.Preflight.Limits.{Limits, Parsed}
use nplg_dspace_mcp.Preflight.Parser
use nplg_dspace_mcp.Preflight.Grammar.{Document}
use nplg_dspace_mcp.Preflight.Grammar.Sound.{validate-Document}

pub data ParserIpcError : Type 0 where
  length_out_of_range not_bounded_json failed_validation not_canonical : ParserIpcError

-- the limits of `_preflight_frame`
abbrev pub frame_limits : ℕ → Limits
frame_limits maximum = record {
  max_body_bytes = maximum;
  max_depth = 64;
  max_object_members = 64;
  max_array_items = 4_096;
  max_tokens = 100_000;
  max_key_bytes = 128;
  max_scalar_bytes = maximum;
  max_integer_digits = 32;
  max_exponent_magnitude = 0;
}

-- `MAX_PARSER_COMMAND_BYTES` and `MAX_PARSER_RESULT_BYTES`
abbrev pub max_parser_bytes : ℕ
max_parser_bytes = 4 * 1024 * 1024

abbrev is_out_of_range : ℕ → Bytes → Bool
is_out_of_range maximum frame = length frame == 0 || ltb maximum (length frame)

unfoldable pub preflight_result : Parsed Parser.Parser → Result ParserIpcError (Unit {0})
preflight_result (ok p) = ok tt
preflight_result (err e) = err not_bounded_json

module _ (finite : List ℕ → Bool) where
  unfoldable pub preflight_frame : ℕ → Bytes → Result ParserIpcError (Unit {0})
  unfolding preflight_result
  preflight_frame maximum frame =
      if is_out_of_range maximum frame
      then err length_out_of_range
      else preflight_result (Parser.validate finite (frame_limits maximum) frame)

module _ {Message : Type 0} (model_dump_json : Message → Bytes) where
  unfoldable pub encode_parser_frame : ℕ → Message → Result ParserIpcError Bytes
  encode_parser_frame maximum message =
      if is_out_of_range maximum (model_dump_json message)
      then err length_out_of_range
      else ok (model_dump_json message)

module _ {Message : Type 0} (dump_json : Message → Bytes) where
  unfoldable pub canonical : Bytes → Option Message → Result ParserIpcError Message
  canonical frame none = err failed_validation
  canonical frame (some message) =
      if bytes_eq (dump_json message) frame then ok message else err not_canonical

preflight_result-ok :
    (m : Parsed Parser.Parser) {t : Unit {0}}
    → preflight_result m ≡ ok t
    → (p : Parser.Parser) × (m ≡ ok p)
unfolding preflight_result
preflight_result-ok (ok p) h = (p, refl)
preflight_result-ok (err e) h = cc

preflight_frame-Document :
    (finite : List ℕ → Bool) (maximum : ℕ) (frame : Bytes) {t : Unit {0}}
    → preflight_frame finite maximum frame ≡ ok t
    → (is_out_of_range maximum frame ≡ false) × Document frame
unfolding preflight_frame
preflight_frame-Document finite maximum frame h =
    elim (Bool-cases (is_out_of_range maximum frame)) [
      | inl out ↦ absurd (ground arith)
      | inr within ↦
          let (p, e) =
            preflight_result-ok (Parser.validate finite (frame_limits maximum) frame)
              (rw within at h) in
          (within, validate-Document finite (frame_limits maximum) frame e)
    ]

canonical-ok :
    {Message : Type 0} (dump_json : Message → Bytes) (frame : Bytes) (o : Option Message)
    {message : Message}
    → canonical dump_json frame o ≡ ok message
    → dump_json message ≡ frame
unfolding canonical
canonical-ok dump_json frame none h = cc
canonical-ok dump_json frame (some m) h = ground (arith, eq_of_bytes_eq (dump_json m) frame)

parse_steps :
    {Message : Type 0} (r : Result ParserIpcError (Unit {0})) (c : Result ParserIpcError Message)
    {message : Message}
    → elim r as (λ _. Result ParserIpcError Message) [ err e ↦ err e | ok t ↦ c ] ≡ ok message
    → (r ≡ ok tt) × (c ≡ ok message)
parse_steps (ok t) c h = (refl, h)
parse_steps (err e) c h = cc

module _ {Message : Type 0} (finite : List ℕ → Bool) (validate_json : Bytes → Option Message)
    (dump_json : Message → Bytes) where
  -- `parse_command_frame` and `parse_result_frame`, which differ in their adapters
  unfoldable pub parse_frame : Bytes → Result ParserIpcError Message
  unfolding preflight_frame canonical
  parse_frame frame = elim (preflight_frame finite max_parser_bytes frame) [
    | err e ↦ err e
    | ok t ↦ canonical dump_json frame (validate_json frame)
  ]

  -- An accepted frame is what the adapter writes for the message it is read as, and is one JSON text.
  parse_frame-canonical :
      (frame : Bytes) {message : Message}
      → parse_frame frame ≡ ok message
      → (dump_json message ≡ frame) × Document frame
  unfolding parse_frame
  parse_frame-canonical frame h =
      let (passed, checked) = parse_steps (preflight_frame finite max_parser_bytes frame) _ h in
      let (_, text) = preflight_frame-Document finite max_parser_bytes frame passed in
      (canonical-ok dump_json frame (validate_json frame) checked, text)
