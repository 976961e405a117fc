-- ===== src/Ipc/Frames/RoundTrip.antt =====
-- Writing and reading a frame.
use nplg_dspace_mcp.Prelude.{
  ℕ, ◌*◌, ◌+◌, ◌/◌, ◌%◌, ◌^◌, ◌<◌, ◌≤◌, ◌≡◌, ◌∙◌, sym, ◌↔◌, [], ◌∷◌, ◌++◌, length, ok, All, arith,
}
use nplg_dspace_mcp.Prelude.Bytes.{Bytes}
use nplg_dspace_mcp.Ipc.Frames.{to_bytes, encode_frame, read_body, read_frame}

abbrev pub IsByte : ℕ → Type 0
IsByte b = b < 256

-- The four bytes are the digits of the size.
digits :
    (n : ℕ)
    → n < 2 ^ 32
    → ((n / 2 ^ 24 * 256 + n / 2 ^ 16 % 256) * 256 + n / 2 ^ 8 % 256) * 256 + n % 256 ≡ n
digits n h = omega arith

read_frame_of_prefix :
    (maximum size : ℕ) (rest : Bytes)
    → size < 2 ^ 32
    → read_frame maximum (to_bytes size ++ rest) ≡ read_body maximum size rest
unfolding read_frame to_bytes
read_frame_of_prefix maximum size rest h = rw (digits size h)

encode_frame-ok :
    (maximum : ℕ) (body stream : Bytes)
    → encode_frame maximum body ≡ ok stream
    → (stream ≡ to_bytes (length body) ++ body)
      × (0 < length body)
      × (length body ≤ maximum)
      × (length body < 2 ^ 32)
unfolding encode_frame
encode_frame-ok maximum body stream h = ground arith

encode_frame-eq :
    (maximum : ℕ) (body : Bytes)
    → 0 < length body
    → length body ≤ maximum
    → length body < 2 ^ 32
    → encode_frame maximum body ≡ ok (to_bytes (length body) ++ body)
unfolding encode_frame
encode_frame-eq maximum body h k l = ground arith

read_body-ok :
    (maximum size : ℕ) (rest body : Bytes)
    → read_body maximum size rest ≡ ok body
    → (rest ≡ body) × (size ≡ length body) × (0 < size) × (size ≤ maximum)
unfolding read_body
read_body-ok maximum size rest body h = ground arith

read_body-eq :
    (maximum : ℕ) (body : Bytes)
    → 0 < length body
    → length body ≤ maximum
    → read_body maximum (length body) body ≡ ok body
unfolding read_body
read_body-eq maximum body h k = ground arith

read-encode :
    (maximum : ℕ) (body stream : Bytes)
    → encode_frame maximum body ≡ ok stream
    → read_frame maximum stream ≡ ok body
read-encode maximum body stream h =
    let (same, some, within, fits) = encode_frame-ok maximum body stream h in
    rw same
      (read_frame_of_prefix maximum (length body) body fits ∙ read_body-eq maximum body some within)

-- The digits of four bytes are the bytes.
of_digits :
    (a b c d n : ℕ)
    → a < 256
    → b < 256
    → c < 256
    → d < 256
    → n ≡ ((a * 256 + b) * 256 + c) * 256 + d
    → (n / 2 ^ 24 ≡ a)
      × (n / 2 ^ 16 % 256 ≡ b)
      × (n / 2 ^ 8 % 256 ≡ c)
      × (n % 256 ≡ d)
      × (n < 2 ^ 32)
of_digits a b c d n ha hb hc hd e = omega arith

encode-read :
    (maximum : ℕ) (body stream : Bytes)
    → All IsByte stream
    → read_frame maximum stream ≡ ok body
    → encode_frame maximum body ≡ ok stream
unfolding read_frame to_bytes
encode-read maximum body [] bytes h = cc
encode-read maximum body (a ∷ []) bytes h = cc
encode-read maximum body (a ∷ b ∷ []) bytes h = cc
encode-read maximum body (a ∷ b ∷ c ∷ []) bytes h = cc
encode-read maximum body (a ∷ b ∷ c ∷ d ∷ rest) (ha, (hb, (hc, (hd, _)))) h =
    let (same, size, some, within) = read_body-ok maximum _ rest body h in
    let (ea, eb, ec, ed, fits) = of_digits a b c d (length body) ha hb hc hd (sym size) in
    encode_frame-eq maximum body (omega arith) (omega arith) fits ∙ rw (ea, eb, ec, ed, same)

-- For any limit, a stream of bytes reads as one frame with a body exactly when it is what the encoder writes for
-- that body.
pub read_frame_iff :
    (maximum : ℕ) (body stream : Bytes)
    → All IsByte stream
    → (read_frame maximum stream ≡ ok body) ↔ (encode_frame maximum body ≡ ok stream)
read_frame_iff maximum body stream bytes =
    (encode-read maximum body stream bytes, read-encode maximum body stream)
