-- ===== src/Http/Body.antt =====
-- `_bounded_body` of src/nplg_mcp/http_security.py. The events are those that arrive before the body's deadline;
-- when they run out the deadline passes, and `asyncio.timeout` raises as a disconnect does.
use nplg_dspace_mcp.Prelude.{
  ℕ, ◌+◌, ◌≡◌, ◌∙◌, ap, Bool, true, false, List, [], ◌∷◌, ◌++◌, if◌then◌else◌, ltb, length,
  length-append, Option, none, some, Result, ok, err, Bool-cases, inl, inr, arith,
}
use mathlib.Core.List.{append_assoc, append-nil}
use nplg_dspace_mcp.Prelude.Bytes.{Bytes}

pub data Event : Type 0 where
  disconnect unrelated : Event
  request : Bytes → (more_body : Bool) → Event

pub data BodyError : Type 0 where
  timed_out too_large : BodyError

-- The body, and the events after it.
unfoldable pub bounded_body : ℕ → Bytes → List Event → Result BodyError (Bytes × List Event)
bounded_body limit body [] = err timed_out
bounded_body limit body (disconnect ∷ events) = err timed_out
bounded_body limit body (unrelated ∷ events) = bounded_body limit body events
bounded_body limit body (request chunk more ∷ events) =
    let rest = bounded_body limit (body ++ chunk) events in
    if ltb limit (length body + length chunk)
    then err too_large
    else if more
    then rest
    else ok (body ++ chunk, events)

-- What was sent: the bytes up to the last chunk or a disconnect, with the later events if there was a last chunk.
unfoldable pub sent : List Event → Bytes × Option (List Event)
sent [] = ([], none)
sent (disconnect ∷ events) = ([], none)
sent (unrelated ∷ events) = sent events
sent (request chunk false ∷ events) = (chunk, some events)
sent (request chunk true ∷ events) = (chunk ++ (sent events).0, (sent events).1)

-- The answer to what was sent, by its size as a whole.
unfoldable pub judged : ℕ → Bytes × Option (List Event) → Result BodyError (Bytes × List Event)
judged limit (body, later) =
    if ltb limit (length body)
    then err too_large
    else elim later [ none ↦ err timed_out | some events ↦ ok (body, events) ]

unfoldable pub accumulated : Bytes → Bytes × Option (List Event) → Bytes × Option (List Event)
accumulated body s = (body ++ s.0, s.1)

bounded_body-judged :
    (limit : ℕ) (body : Bytes) (events : List Event)
    → ltb limit (length body) ≡ false
    → bounded_body limit body events ≡ judged limit (accumulated body (sent events))
unfolding bounded_body judged accumulated sent
bounded_body-judged limit body [] h = rw (append-nil body) (rw h)
bounded_body-judged limit body (disconnect ∷ events) h = rw (append-nil body) (rw h)
bounded_body-judged limit body (unrelated ∷ events) h = bounded_body-judged limit body events h
bounded_body-judged limit body (request chunk false ∷ events) h =
    rw (length-append body chunk) (ground arith)
bounded_body-judged limit body (request chunk true ∷ events) h =
    elim (Bool-cases (ltb limit (length body + length chunk))) [
      | inl over ↦ ground (
        arith,
        length-append body (chunk ++ (sent events).0),
        length-append chunk (sent events).0,
      )
      | inr fits ↦ rw fits (
          bounded_body-judged limit (body ++ chunk) events (rw (length-append body chunk) fits)
          ∙ ap (λ whole. judged limit (whole, (sent events).1))
              (append_assoc body chunk (sent events).0))
    ]

-- For every limit and all events, the body that is read chunk by chunk is what the events before a disconnect or
-- the deadline sent up to the last chunk, when those bytes are within the limit and there was a last chunk; it is
-- too large exactly when those bytes exceed the limit, and otherwise the read times out.
pub bounded_body-eq-judged :
    (limit : ℕ) (events : List Event) → bounded_body limit [] events ≡ judged limit (sent events)
unfolding sent accumulated
bounded_body-eq-judged limit events = bounded_body-judged limit [] events (ground arith)
