-- ===== src/Ipc/Frames.antt =====
-- `encode_frame` of src/nplg_mcp/pdf_ipc.py, and the readers of one frame from a pipe or a socket. A stream is the
-- bytes up to its end.
pub mod RoundTrip
use nplg_dspace_mcp.Prelude.{
  ℕ, suc, ◌*◌, ◌+◌, ◌/◌, ◌%◌, ◌^◌, Bool, ◌||◌, ◌==◌, ltb, leb, List, [], ◌∷◌, ◌++◌, if◌then◌else◌,
  length, Result, ok, err,
}
use nplg_dspace_mcp.Prelude.Bytes.{Bytes}

pub data FrameError : Type 0 where
  out_of_range truncated trailing overflow : FrameError

-- `n.to_bytes(4, "big")`
unfoldable pub to_bytes : ℕ → Bytes
to_bytes n = n / 2 ^ 24 ∷ n / 2 ^ 16 % 256 ∷ n / 2 ^ 8 % 256 ∷ n % 256 ∷ []

-- The body is what the model serialises to.
unfoldable pub encode_frame : ℕ → Bytes → Result FrameError Bytes
unfolding to_bytes
encode_frame maximum body =
    if length body == 0 || ltb maximum (length body)
    then err out_of_range
    else if leb (2 ^ 32) (length body)
    then err overflow
    else ok (to_bytes (length body) ++ body)

-- the read of the body and of what follows it
unfoldable pub read_body : ℕ → ℕ → Bytes → Result FrameError Bytes
read_body maximum size rest =
    if ltb size 1 || ltb maximum size
    then err out_of_range
    else if ltb (length rest) size
    then err truncated
    else if ltb size (length rest)
    then err trailing
    else ok rest

-- `_read_command`, `_read_socket_command`, `_read_job_result` and `_read_result_body`, up to the parse of the body
unfoldable pub read_frame : ℕ → Bytes → Result FrameError Bytes
unfolding read_body
read_frame maximum (a ∷ b ∷ c ∷ d ∷ rest) =
    read_body maximum (((a * 256 + b) * 256 + c) * 256 + d) rest
read_frame maximum _ = err truncated
