-- ===== src/Resource/Weights.antt =====
-- The weights of inline responses in src/nplg_mcp/resource_admission.py. Sizes are validated before use;
-- `none` is the ValueError.
use nplg_dspace_mcp.Prelude.{
  ℕ, ◌+◌, ◌*◌, ◌/◌, ◌≤◌, ◌≡◌, Option, none, some, arith, ◌&&◌, leb, if◌then◌else◌, max,
}

-- config.py
abbrev pub hard_max_inline_resource_bytes : ℕ
hard_max_inline_resource_bytes = 4 * 1024 * 1024

abbrev pub base64_code_points : ℕ
base64_code_points = ((hard_max_inline_resource_bytes + 2) / 3) * 4

abbrev pub max_json_escaped_bytes_per_utf8_byte : ℕ
max_json_escaped_bytes_per_utf8_byte = 6

abbrev pub response_envelope_bytes : ℕ
response_envelope_bytes = 64 * 1024

abbrev pub min_base64_code_points : ℕ
min_base64_code_points = 4

abbrev pub inline_resource_response_reservation_bytes : ℕ
inline_resource_response_reservation_bytes =
    max (hard_max_inline_resource_bytes + (2 * base64_code_points)) (
      hard_max_inline_resource_bytes
      + (max_json_escaped_bytes_per_utf8_byte * hard_max_inline_resource_bytes))
    + response_envelope_bytes

abbrev pub inline_resource_aggregate_capacity_bytes : ℕ
inline_resource_aggregate_capacity_bytes = 2 * inline_resource_response_reservation_bytes

unfoldable pub inline_text_response_reservation_bytes : ℕ → Option ℕ
inline_text_response_reservation_bytes utf8_bytes =
    if leb utf8_bytes hard_max_inline_resource_bytes
    then some (response_envelope_bytes + ((1 + max_json_escaped_bytes_per_utf8_byte) * utf8_bytes))
    else none

unfoldable pub inline_blob_response_reservation_bytes : ℕ → ℕ → Option ℕ
inline_blob_response_reservation_bytes decoded_bytes base64_bytes =
    if (leb 1 decoded_bytes && leb decoded_bytes hard_max_inline_resource_bytes)
      && (leb min_base64_code_points base64_bytes && leb base64_bytes base64_code_points)
    then some (response_envelope_bytes + decoded_bytes + (2 * base64_bytes))
    else none

-- The weight of every text and of every blob that passes validation is positive and at most the worst case
-- reserved up front.
weight-within-reservation :
    (text decoded base64 : ℕ) {w v : ℕ}
    → inline_text_response_reservation_bytes text ≡ some w
    → inline_blob_response_reservation_bytes decoded base64 ≡ some v
    → (1 ≤ w)
      × (w ≤ inline_resource_response_reservation_bytes)
      × (1 ≤ v)
      × (v ≤ inline_resource_response_reservation_bytes)
unfolding inline_text_response_reservation_bytes inline_blob_response_reservation_bytes
weight-within-reservation text decoded base64 e f = ground arith
