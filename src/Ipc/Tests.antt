-- ===== src/Ipc/Tests.antt =====
-- Frames and values at concrete inputs, and the theorems there.
use nplg_dspace_mcp.Prelude.{
  ℕ, ◌≡◌, ◌≤◌, ◌↔◌, refl, Bool, true, false, List, [], ◌∷◌, Option, some, ok, err, arith,
}
use nplg_dspace_mcp.Prelude.Bytes.{Bytes, codes, bytes_eq}
use nplg_dspace_mcp.Preflight.Tests.{lexer}
use nplg_dspace_mcp.Ipc.Frames.{encode_frame, read_frame, truncated, trailing, out_of_range}
use nplg_dspace_mcp.Ipc.Frames.RoundTrip.{read_frame_iff}
use nplg_dspace_mcp.Ipc.Values.{
  Json, scalar, real, list, object, nil, cons, end, member, over_limit, not_finite, push_items,
  push_members, check_structure,
}
use nplg_dspace_mcp.Ipc.Values.Bounded.{size, Within, Judges, check_structure-Judges}
use nplg_dspace_mcp.Ipc.Parser.{parse_frame}

frames :
    (encode_frame 8 (codes "{}") ≡ ok (0 ∷ 0 ∷ 0 ∷ 2 ∷ codes "{}"))
    × (read_frame 8 (0 ∷ 0 ∷ 0 ∷ 2 ∷ codes "{}") ≡ ok (codes "{}"))
    × (read_frame 8 (0 ∷ 0 ∷ 0 ∷ 2 ∷ codes "{}}") ≡ err trailing)
    × (read_frame 8 (0 ∷ 0 ∷ 0 ∷ 3 ∷ codes "{}") ≡ err truncated)
    × (read_frame 8 (0 ∷ 0 ∷ 1 ∷ 0 ∷ []) ≡ err out_of_range)
unfolding encode_frame read_frame
frames = (refl, refl, refl, refl, refl)

-- `[1.5, {"a": [null]}]`
abbrev nested : Json
nested =
    list (cons (real true) (cons (object (member (codes "a") (list (cons scalar nil)) end)) nil))

structures :
    (check_structure 5 4 nested ≡ ok tt)
    × (check_structure 4 4 nested ≡ err over_limit)
    × (check_structure 5 3 nested ≡ err over_limit)
    × (check_structure 5 4 (list (cons (real false) nil)) ≡ err not_finite)
unfolding check_structure push_items push_members
structures = (refl, refl, refl, refl)

read_frame_iff_example :
    (read_frame 8 (0 ∷ 0 ∷ 0 ∷ 2 ∷ codes "{}") ≡ ok (codes "{}"))
    ↔ (encode_frame 8 (codes "{}") ≡ ok (0 ∷ 0 ∷ 0 ∷ 2 ∷ codes "{}"))
read_frame_iff_example = read_frame_iff 8 (codes "{}") (0 ∷ 0 ∷ 0 ∷ 2 ∷ codes "{}") (omega arith)

check_structure-Judges_example :
    Judges ((size nested ≤ 5) × Within 4 1 nested) (check_structure 5 4 nested)
check_structure-Judges_example = check_structure-Judges 5 4 nested

-- A model layer with one message.
abbrev all_finite : List ℕ → Bool
all_finite literal = true

abbrev validate_json : Bytes → Option (Unit {0})
validate_json frame = some tt

abbrev dump_json : Unit {0} → Bytes
dump_json message = codes "{}"

parses : parse_frame all_finite validate_json dump_json (codes "{}") ≡ ok tt
unfolding parse_frame bytes_eq lexer
parses = refl
