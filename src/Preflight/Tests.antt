-- ===== src/Preflight/Tests.antt =====
-- Runs of the preflight parser, and the theorems about it at concrete inputs.
use Prim.Native.Char.{code}
use Prim.Native.String.{String}
use nplg_dspace_mcp.Prelude.{
  ℕ, ◌≡◌, ◌≢◌, refl, Bool, true, false, none, some, List, [], ◌∷◌, ok, err, is_ok,
}
use nplg_dspace_mcp.Preflight.Limits.{default_limits, rejected, out_of_fuel}
use nplg_dspace_mcp.Preflight.Post.{Post}
use nplg_dspace_mcp.Preflight.Bounds.{IsBounded, Reach, here, next, Reach-IsBounded}
use nplg_dspace_mcp.Preflight.Progress.Rounds.{Accepted, validate_total}
use nplg_dspace_mcp.Preflight.Grammar.{Document}
use nplg_dspace_mcp.Preflight.Grammar.Sound.{validate-Document}
use nplg_dspace_mcp.Preflight.Scan.{
  skip_whitespace, next_is, after, consume_number, consume_sign, consume_integer, consume_fraction,
  consume_exponent,
}
use nplg_dspace_mcp.Preflight.Text.{
  consume_string, consume_escape, decode_byte, is_utf8, string_loop, hex_value,
  consume_unicode_code_unit, consume_low_surrogate, consume_unicode_escape,
}
use nplg_dspace_mcp.Preflight.Parser.{
  Parser, parser, object, object_key_or_end, has_root_object_member, has_valid_root_request_id,
  push_container, strip_prefix, begin_word, begin_with, begin_value, array_item,
  consume_array_separator, consume_object_key, consume_object_value, consume_object_separator,
  add_key, has_key, is_root_request_id_value, in_state, in_frames, round, rounds, validate,
}

abbrev codes : String → List ℕ
codes String.[] = []
codes (String.◌∷◌ c s) = code c ∷ codes s

-- Everything that a run computes with.
unfoldable pub lexer : Unit {0}
unfolding skip_whitespace next_is after consume_number consume_sign consume_integer consume_fraction
    consume_exponent consume_string string_loop consume_escape consume_unicode_escape
    consume_unicode_code_unit consume_low_surrogate hex_value decode_byte is_utf8 push_container
    strip_prefix begin_word begin_with begin_value array_item consume_array_separator
    consume_object_key consume_object_value consume_object_separator add_key has_key
    is_root_request_id_value in_state in_frames round rounds validate
lexer = tt

abbrev all_finite : List ℕ → Bool
all_finite literal = true

accepted :
    is_ok (validate all_finite default_limits (codes " {\"id\": [1, -2.5e3, null], \"a\": {}} "))
    ≡ true
unfolding lexer
accepted = refl

ids :
    (has_valid_root_request_id all_finite default_limits
        (codes "{\"id\": 7, \"x\": [{\"id\": null}]}")
      ≡ ok true)
    × (has_valid_root_request_id all_finite default_limits (codes "{\"id\": 7.5}") ≡ ok false)
    × (has_root_object_member all_finite default_limits (codes "{\"\\u0069d\": 1}") (codes "id")
        ≡ ok true)
unfolding has_valid_root_request_id has_root_object_member lexer
ids = (refl, refl, refl)

rejections :
    (validate all_finite default_limits (codes "{\"a\": 1, \"\\u0061\": 2}") ≡ err rejected)
    × (validate all_finite default_limits (codes "[1, ]") ≡ err rejected)
    × (validate all_finite default_limits (codes "[") ≡ err rejected)
    × (validate all_finite default_limits (codes "01") ≡ err rejected)
    × (validate all_finite (record default_limits { max_depth = 1 }) (codes "[[]]") ≡ err rejected)
unfolding lexer
rejections = (refl, refl, refl, refl, refl)

abbrev request : List ℕ
request = codes "{\"id\": 7}"

validate_total_example :
    (validate all_finite default_limits request ≢ err out_of_fuel)
    × Post (Accepted all_finite default_limits request) (validate all_finite default_limits request)
validate_total_example = validate_total all_finite default_limits request

abbrev reached : Parser
reached = record (parser request) {
  rest = codes "\"id\": 7}";
  tokens = 1;
  frames =
      record {
        kind = object;
        state = object_key_or_end;
        members = 0;
        keys = [];
        current_key = none;
        allow_end = true;
      }
      ∷ [];
  root_object_keys = some [];
}

-- One round has opened the object.
Reach-one : Reach default_limits all_finite (parser request) reached
unfolding parser lexer
Reach-one = next here refl

Reach-IsBounded_example : IsBounded default_limits reached.frames reached.tokens
Reach-IsBounded_example = Reach-IsBounded default_limits all_finite request Reach-one

validate-Document_example : Document request
unfolding parser lexer
validate-Document_example = validate-Document all_finite default_limits request refl
