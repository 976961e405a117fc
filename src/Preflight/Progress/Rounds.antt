-- ===== src/Preflight/Progress/Rounds.antt =====
-- The rounds of `validate` end: each reads a byte at least, so one more round than there are bytes is
-- enough, whatever the payload.
use nplg_dspace_mcp.Prelude.{
  ℕ, zero, suc, ◌+◌, ◌≤◌, ◌<◌, ◌≡◌, ◌≢◌, ◌==◌, refl, Bool, true, false, ◌||◌, Option, none, some,
  List, [], ◌∷◌, arith, ltb, length, ok, err,
}
use nplg_dspace_mcp.Preflight.Limits.{Limits, rejected, out_of_fuel}
use nplg_dspace_mcp.Preflight.Post.{
  Post, Post-bind, Post-imp, Post-if, Post-require, Post-ne-out_of_fuel,
}
use nplg_dspace_mcp.Preflight.Scan.{after, skip_whitespace}
use nplg_dspace_mcp.Preflight.Progress.{
  length-skip_whitespace, length-after, number-Shorter, string-Shorter,
}
use nplg_dspace_mcp.Preflight.Parser.{
  Key, ValueKind, Frame, FrameState, Parser, parser, push_container, strip_prefix, begin_word,
  begin_with, begin_value, array_item, consume_array_separator, add_key, consume_object_key,
  consume_object_separator, consume_object_value, in_state, in_frames, at_end, round, rounds,
  validate, true_word, false_word, null_word,
}

-- The parser has read something since `n` bytes were left.
abbrev pub Reads : ℕ → Parser → Type 0
Reads n p = length p.rest < n

abbrev pub ReadsValue : ℕ → ValueKind × Parser → Type 0
ReadsValue n (_, p) = length p.rest < n

abbrev Stripped : List ℕ → List ℕ → Option (List ℕ) → Type 0
Stripped word rest none = Unit
Stripped word rest (some left) = length left + length word ≡ length rest

strip_prefix-Stripped : (word rest : List ℕ) → Stripped word rest (strip_prefix word rest)
unfolding strip_prefix
strip_prefix-Stripped [] rest = omega arith
strip_prefix-Stripped (b ∷ word) [] = tt
strip_prefix-Stripped (b ∷ word) (c ∷ rest) = ground (arith, strip_prefix-Stripped word rest)

module _ (finite : List ℕ → Bool) (limits : Limits) where
  begin_word-Reads : (p : Parser) → Post (ReadsValue (length p.rest)) (begin_word finite limits p)
  unfolding begin_word
  begin_word-Reads p = ground (
    arith,
    strip_prefix-Stripped true_word p.rest,
    strip_prefix-Stripped false_word p.rest,
    strip_prefix-Stripped null_word p.rest,
  )

  begin_with-Reads :
      (b : ℕ) (rest : List ℕ) (p : Parser)
      → p.rest ≡ b ∷ rest
      → Post (ReadsValue (length p.rest)) (begin_with finite limits b p)
  unfolding begin_with push_container after
  begin_with-Reads b rest p e = ground (
    arith,
    begin_word-Reads p,
    string-Shorter limits.max_scalar_bytes false p.rest,
    number-Shorter finite limits p.rest,
  )

  begin_value-Reads : (p : Parser) → Post (ReadsValue (length p.rest)) (begin_value finite limits p)
  unfolding begin_value
  begin_value-Reads p = reads p.rest refl
    where
      reads :
          (rest : List ℕ)
          → p.rest ≡ rest
          → Post (ReadsValue (length p.rest)) (begin_value finite limits p)
      reads [] e = ground arith
      reads (b ∷ rest) e =
          ground (arith, begin_with-Reads b rest (record p { tokens = p.tokens + 1 }) e)

  array_item-Reads :
      (f : Frame) (fs : List Frame) (p : Parser)
      → Post (Reads (length p.rest)) (array_item finite limits f fs p)
  unfolding array_item
  array_item-Reads f fs p = ground (
    arith,
    length-after 0x5d p.rest,
    begin_value-Reads (record p {
      frames = record f { members = f.members + 1; state = FrameState.array_after_value } ∷ fs;
    }),
  )

  array_separator-Reads :
      (f : Frame) (fs : List Frame) (p : Parser)
      → Post (Reads (length p.rest)) (consume_array_separator finite limits f fs p)
  unfolding consume_array_separator
  array_separator-Reads f fs p = ground (arith, length-after 0x5d p.rest, length-after 0x2c p.rest)

  add_key-Reads :
      (key : Key) (rest : List ℕ) (f : Frame) (fs : List Frame) (p : Parser)
      → Post (Reads (suc (length rest))) (add_key finite limits key rest f fs p)
  unfolding add_key
  add_key-Reads key rest f fs p =
      ground (arith, length-after 0x3a (skip_whitespace rest), length-skip_whitespace rest)

  object_key-Reads :
      (f : Frame) (fs : List Frame) (p : Parser)
      → Post (Reads (length p.rest)) (consume_object_key finite limits f fs p)
  unfolding consume_object_key
  object_key-Reads f fs p = grind (
    arith,
    length-after 0x7d p.rest,
    string-Shorter limits.max_key_bytes true p.rest,
    add_key-Reads,
  )

  object_separator-Reads :
      (f : Frame) (fs : List Frame) (p : Parser)
      → Post (Reads (length p.rest)) (consume_object_separator finite limits f fs p)
  unfolding consume_object_separator
  object_separator-Reads f fs p = ground (arith, length-after 0x7d p.rest, length-after 0x2c p.rest)

  object_value-Reads :
      (f : Frame) (fs : List Frame) (p : Parser)
      → Post (Reads (length p.rest)) (consume_object_value finite limits f fs p)
  unfolding consume_object_value
  object_value-Reads f fs p = ground (
    arith,
    begin_value-Reads (record p {
      frames = record f { members = f.members + 1; state = FrameState.object_after_value } ∷ fs;
    }),
  )

  in_state-Reads :
      (state : FrameState) (f : Frame) (fs : List Frame) (p : Parser)
      → Post (Reads (length p.rest)) (in_state finite limits state f fs p)
  unfolding in_state
  in_state-Reads FrameState.array_value_or_end f fs p = array_item-Reads f fs p
  in_state-Reads FrameState.array_after_value f fs p = array_separator-Reads f fs p
  in_state-Reads FrameState.object_key_or_end f fs p = object_key-Reads f fs p
  in_state-Reads FrameState.object_value f fs p = object_value-Reads f fs p
  in_state-Reads FrameState.object_after_value f fs p = object_separator-Reads f fs p

  in_frames-Reads :
      (frames : List Frame) (p : Parser)
      → Post (Reads (length p.rest)) (in_frames finite limits frames p)
  unfolding in_frames
  in_frames-Reads [] p = ground (arith, begin_value-Reads p)
  in_frames-Reads (f ∷ fs) p = in_state-Reads f.state f fs p

  round-Reads : (p : Parser) → Post (Reads (length p.rest)) (round finite limits p)
  unfolding round
  round-Reads p =
      Post-imp (Reads (length (skip_whitespace p.rest))) (Reads (length p.rest)) _
        (λ q h. omega (arith, length-skip_whitespace p.rest))
        (in_frames-Reads p.frames (record p { rest = skip_whitespace p.rest }))

  rounds_complete :
      (fuel : ℕ) (p : Parser)
      → length p.rest < fuel
      → Post (λ q. q.root_complete ≡ true) (rounds finite limits fuel p)
  unfolding rounds
  rounds_complete zero p h = absurd (omega arith)
  rounds_complete (suc fuel) p h =
      Post-if (λ q. q.root_complete ≡ true) p.root_complete (ok p) _ (λ done. done)
        (λ _.
          Post-bind (Reads (length p.rest)) (λ q. q.root_complete ≡ true) (round finite limits p)
            (rounds finite limits fuel) (round-Reads p)
            (λ q r. rounds_complete fuel q (omega arith)))

  -- An accepted payload has been read to its end, and its size is within the limit.
  abbrev pub Accepted : List ℕ → Parser → Type 0
  Accepted payload q =
      (q.root_complete ≡ true)
      × (q.rest ≡ [])
      × (0 < length payload)
      × (length payload ≤ limits.max_body_bytes)

  pub at_end-eq : (rest : List ℕ) → at_end rest ≡ true → rest ≡ []
  at_end-eq [] h = refl
  at_end-eq (b ∷ rest) h = cc

  validate-Accepted : (payload : List ℕ) → Post (Accepted payload) (validate finite limits payload)
  unfolding validate
  validate-Accepted payload =
      Post-if (Accepted payload) (length payload == 0 || ltb limits.max_body_bytes (length payload))
        (err rejected) _ (λ _. tt)
        (λ fits.
          Post-bind (λ q. q.root_complete ≡ true) (Accepted payload)
            (rounds finite limits (suc (length payload)) (parser payload)) _
            (rounds_complete (suc (length payload)) (parser payload) (unfold parser in omega arith))
            (λ q done.
              Post-require (Accepted payload) (at_end (skip_whitespace q.rest))
                (ok (record q { rest = skip_whitespace q.rest }))
                (λ e. (
                  done,
                  at_end-eq (skip_whitespace q.rest) e,
                  ground (arith, fits),
                  ground (arith, fits),
                ))))

  -- For every payload, all limits and every judgement of which numbers are finite, the JSON check ends without
  -- running out of rounds; a payload that it accepts was read to its end as one complete value, is not empty and
  -- is within the size limit.
  pub validate_total :
      (payload : List ℕ)
      → (validate finite limits payload ≢ err out_of_fuel)
        × Post (Accepted payload) (validate finite limits payload)
  validate_total payload =
      let post = validate-Accepted payload in
      (Post-ne-out_of_fuel (Accepted payload) (validate finite limits payload) post, post)
