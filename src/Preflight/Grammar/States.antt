-- ===== src/Preflight/Grammar/States.antt =====
-- One step of the parser of src/nplg_mcp/json_preflight.py in each state of a frame: what it reads is a piece of grammar.
use nplg_dspace_mcp.Prelude.{
  ℕ, ◌+◌, ◌≡◌, refl, Bool, true, false, ◌==◌, List, [], ◌∷◌, arith, subst, sym,
}
use nplg_dspace_mcp.Preflight.Limits.{Limits}
use nplg_dspace_mcp.Preflight.Scan.{next_is, after, skip_whitespace}
use nplg_dspace_mcp.Preflight.Parser.{
  Key, array, object, ValueKind, Frame, FrameState, Parser, begin_word, begin_with, begin_value,
  array_item, consume_array_separator, add_key, consume_object_key, consume_object_separator,
  consume_object_value, in_state, has_key, true_word, false_word, null_word,
}
use nplg_dspace_mcp.Preflight.Grammar.{
  Spaces, Number, Text, Value, true_value, false_value, null_value, number_value, text_value,
  ArrayTail, array_end, ObjectTail, object_end,
}
use nplg_dspace_mcp.Preflight.Grammar.Lexical.{
  Gives, Gives-if, Gives-imp, skip_whitespace-Spaces, consume_number-Number, seen, next_is-eq,
  next_is-eq,
}
use nplg_dspace_mcp.Preflight.Grammar.Strings.{string-Text}
use nplg_dspace_mcp.Preflight.Grammar.Frames.{
  ArrayBody, ObjectBody, ObjectValue, Asks, Owes, OwesValue, scalar-Owes, word-Owes, closing-Owes,
  Todo-Before, inside-Owes, push-Owes, array_continued, object_continued, member_of, array_body_end,
  array_body_of, object_body_end, object_value_of,
}

module _ (finite : List ℕ → Bool) (limits : Limits) where
  begin_word-Owes :
      (p : Parser)
      → p.root_complete ≡ false
      → Gives (OwesValue p.frames p.rest) (begin_word finite limits p)
  unfolding begin_word
  begin_word-Owes p going = grind (
    arith,
    λ (left : List ℕ). word-Owes p true_word left going true_value,
    λ (left : List ℕ). word-Owes p false_word left going false_value,
    λ (left : List ℕ). word-Owes p null_word left going null_value,
  )

  begin_with-Owes :
      (b : ℕ) (rest : List ℕ) (p : Parser)
      → p.root_complete ≡ false
      → p.rest ≡ b ∷ rest
      → Gives (OwesValue p.frames p.rest) (begin_with finite limits b p)
  unfolding begin_with
  begin_with-Owes b rest p going e =
      let is_next : (c : ℕ) → (b == c) ≡ true → next_is c p.rest ≡ true =
        λ c h. subst (λ r. next_is c r ≡ true) (sym e) (unfold next_is in h) in
      grind (
        arith,
        λ (h : (b == 0x7b) ≡ true). push-Owes limits object p going (is_next 0x7b h),
        λ (h : (b == 0x5b) ≡ true). push-Owes limits array p going (is_next 0x5b h),
        begin_word-Owes p going,
        string-Text limits.max_scalar_bytes false p.rest,
        consume_number-Number finite limits p.rest,
        λ (left : List ℕ) (n : Number p.rest left). scalar-Owes p left going (number_value n),
        λ (left : List ℕ) (s : Text p.rest left). scalar-Owes p left going (text_value s),
      )

  pub begin_value-Owes :
      (p : Parser)
      → p.root_complete ≡ false
      → Gives (OwesValue p.frames p.rest) (begin_value finite limits p)
  unfolding begin_value
  begin_value-Owes p going = owes p.rest refl
    where
      owes :
          (rest : List ℕ)
          → p.rest ≡ rest
          → Gives (OwesValue p.frames p.rest) (begin_value finite limits p)
      owes [] e = ground (arith, e)
      owes (b ∷ rest) e =
          ground (arith, e, begin_with-Owes b rest (record p { tokens = p.tokens + 1 }) going e)

  -- A value that is read in the frame `f`.
  begin_inside-Owes :
      (R : List ℕ → List ℕ → Type 0) (f : Frame) (fs : List Frame) (p : Parser)
      → p.root_complete ≡ false
      → ((v l m : List ℕ) → Value p.rest v → Spaces v l → Asks f.state f.allow_end l m → R p.rest m)
      → Gives
          (λ ((_, q) : ValueKind × Parser). Owes R fs p.rest q)
          (begin_value finite limits (record p { frames = f ∷ fs }))
  begin_inside-Owes R f fs p going k =
      Gives-imp (OwesValue (f ∷ fs) p.rest) (λ ((_, q) : ValueKind × Parser). Owes R fs p.rest q) _
        (λ (_, q) h. inside-Owes R f fs p.rest q k h)
        (begin_value-Owes (record p { frames = f ∷ fs }) going)

  array_item-Owes :
      (f : Frame) (fs : List Frame) (p : Parser)
      → p.root_complete ≡ false
      → Gives (Owes (ArrayBody f.allow_end) fs p.rest) (array_item finite limits f fs p)
  unfolding array_item
  array_item-Owes f fs p going =
      let f' = record f { members = f.members + 1; state = FrameState.array_after_value } in
      grind (
        arith,
        λ (e : f.allow_end ≡ true) (h : next_is 0x5d p.rest ≡ true).
            closing-Owes (ArrayBody f.allow_end) fs p going
              (seen (λ r. ArrayBody f.allow_end r (after p.rest)) 0x5d p.rest h (array_body_end e)),
        begin_inside-Owes (ArrayBody f.allow_end) f' fs p going
            (λ v l m value s t. array_body_of value s t),
      )

  array_separator-Owes :
      (f : Frame) (fs : List Frame) (p : Parser)
      → p.root_complete ≡ false
      → Gives (Owes ArrayTail fs p.rest) (consume_array_separator finite limits f fs p)
  unfolding consume_array_separator
  array_separator-Owes f fs p going =
      Gives-if (Owes ArrayTail fs p.rest) (next_is 0x2c p.rest) _ _
        (λ h out t.
          Todo-Before (ArrayTail p.rest) p.root_complete _ fs (after p.rest) out going
            (λ l m s r. seen (λ x. ArrayTail x m) 0x2c p.rest h (array_continued s r)) t)
        (λ _.
          Gives-if (Owes ArrayTail fs p.rest) (next_is 0x5d p.rest) _ _
            (λ h.
              closing-Owes ArrayTail fs p going
                (seen (λ x. ArrayTail x (after p.rest)) 0x5d p.rest h array_end))
            (λ _. tt))

  object_separator-Owes :
      (f : Frame) (fs : List Frame) (p : Parser)
      → p.root_complete ≡ false
      → Gives (Owes ObjectTail fs p.rest) (consume_object_separator finite limits f fs p)
  unfolding consume_object_separator
  object_separator-Owes f fs p going =
      Gives-if (Owes ObjectTail fs p.rest) (next_is 0x2c p.rest) _ _
        (λ h out t.
          Todo-Before (ObjectTail p.rest) p.root_complete _ fs (after p.rest) out going
            (λ l m s r. seen (λ x. ObjectTail x m) 0x2c p.rest h (object_continued s r)) t)
        (λ _.
          Gives-if (Owes ObjectTail fs p.rest) (next_is 0x7d p.rest) _ _
            (λ h.
              closing-Owes ObjectTail fs p going
                (seen (λ x. ObjectTail x (after p.rest)) 0x7d p.rest h object_end))
            (λ _. tt))

  add_key-Owes :
      (key : Key) (rest : List ℕ) (f : Frame) (fs : List Frame) (p : Parser)
      → p.root_complete ≡ false
      → Text p.rest rest
      → Gives (Owes (ObjectBody f.allow_end) fs p.rest) (add_key finite limits key rest f fs p)
  unfolding add_key
  add_key-Owes key rest f fs p going k =
      let R = ObjectBody f.allow_end in
      Gives-if (Owes R fs p.rest) (has_key key f.keys) _ _ (λ _. tt)
        (λ _.
          Gives-if (Owes R fs p.rest) (next_is 0x3a (skip_whitespace rest)) _ _
            (λ h out t.
              Todo-Before (R p.rest) p.root_complete _ fs (after (skip_whitespace rest)) out going
                (λ l m s r.
                  member_of f.allow_end k
                    (subst (Spaces rest) (sym (next_is-eq 0x3a (skip_whitespace rest) h))
                      (skip_whitespace-Spaces rest))
                    s r)
                t)
            (λ _. tt))

  object_key-Owes :
      (f : Frame) (fs : List Frame) (p : Parser)
      → p.root_complete ≡ false
      → Gives (Owes (ObjectBody f.allow_end) fs p.rest) (consume_object_key finite limits f fs p)
  unfolding consume_object_key
  object_key-Owes f fs p going = grind (
    arith,
    λ (e : f.allow_end ≡ true) (h : next_is 0x7d p.rest ≡ true).
        closing-Owes (ObjectBody f.allow_end) fs p going
          (seen (λ r. ObjectBody f.allow_end r (after p.rest)) 0x7d p.rest h (object_body_end e)),
    string-Text limits.max_key_bytes true p.rest,
    λ (key rest : List ℕ) (k : Text p.rest rest). add_key-Owes key rest f fs p going k,
  )

  consume_value-Owes :
      (f : Frame) (fs : List Frame) (p : Parser)
      → p.root_complete ≡ false
      → Gives (Owes ObjectValue fs p.rest) (consume_object_value finite limits f fs p)
  unfolding consume_object_value
  consume_value-Owes f fs p going =
      let f' = record f { members = f.members + 1; state = FrameState.object_after_value } in
      ground (
        arith,
        begin_inside-Owes ObjectValue f' fs p going (λ v l m value s t. object_value_of value s t),
      )

  pub in_state-Owes :
      (state : FrameState) (f : Frame) (fs : List Frame) (p : Parser)
      → p.root_complete ≡ false
      → Gives (Owes (Asks state f.allow_end) fs p.rest) (in_state finite limits state f fs p)
  unfolding in_state
  in_state-Owes FrameState.array_value_or_end f fs p = array_item-Owes f fs p
  in_state-Owes FrameState.array_after_value f fs p = array_separator-Owes f fs p
  in_state-Owes FrameState.object_key_or_end f fs p = object_key-Owes f fs p
  in_state-Owes FrameState.object_value f fs p = consume_value-Owes f fs p
  in_state-Owes FrameState.object_after_value f fs p = object_separator-Owes f fs p
