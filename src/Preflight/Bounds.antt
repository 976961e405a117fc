-- ===== src/Preflight/Bounds.antt =====
-- What the parser retains: at every round its frames, members, keys and tokens are within the limits.
use nplg_dspace_mcp.Prelude.{
  ℕ, suc, ◌+◌, ◌≤◌, ◌≡◌, ◌==◌, refl, Bool, true, false, ◌&&◌, List, [], ◌∷◌, arith, ltb, length,
  All, ok, err, subst,
}
use nplg_dspace_mcp.Preflight.Limits.{Parsed, Limits, rejected}
use nplg_dspace_mcp.Preflight.Post.{Post, Post-bind, Post-imp, Post-if}
use nplg_dspace_mcp.Preflight.Scan.{next_is, skip_whitespace}
use nplg_dspace_mcp.Preflight.Progress.{Shorter, string-Shorter, number-Shorter}
use nplg_dspace_mcp.Preflight.Text.{consume_string}
use nplg_dspace_mcp.Preflight.Parser.{
  Key, ValueKind, ContainerKind, array, object, Frame, FrameState, array_value_or_end,
  array_after_value, object_key_or_end, object_value, object_after_value, Parser, parser, has_key,
  push_container, begin_word, begin_with, begin_value, array_item, consume_array_separator, add_key,
  consume_object_key, consume_object_separator, consume_object_value, in_state, in_frames, round,
}

-- No key is in the set twice.
unfoldable pub Distinct : List Key → Type 0
Distinct [] = Unit
Distinct (k ∷ keys) = (has_key k keys ≡ false) × Distinct keys

abbrev pub suits : ContainerKind → FrameState → Bool
suits array array_value_or_end = true
suits array array_after_value = true
suits array _ = false
suits object array_value_or_end = false
suits object array_after_value = false
suits object _ = true

-- How many keys a frame holds: one for each member, and the one whose value is awaited.
abbrev pub keys_due : ContainerKind → FrameState → ℕ → ℕ
keys_due array state members = 0
keys_due object object_value members = members + 1
keys_due object _ members = members

module _ (limits : Limits) where
  abbrev pub member_limit : ContainerKind → ℕ
  member_limit array = limits.max_array_items
  member_limit object = limits.max_object_members

  pub record IsWithin (f : Frame) : Type 0 where
    pub state : suits f.kind f.state ≡ true
    pub members : f.members ≤ member_limit f.kind
    pub keys : length f.keys ≡ keys_due f.kind f.state f.members
    pub distinct : Distinct f.keys

  pub record IsBounded (fs : List Frame) (n : ℕ) : Type 0 where
    pub depth : length fs ≤ limits.max_depth
    pub tokens : n ≤ limits.max_tokens
    pub frames : All IsWithin fs

  abbrev Keeps : Parser → Type 0
  Keeps p = IsBounded p.frames p.tokens

  abbrev KeepsValue : ValueKind × Parser → Type 0
  KeepsValue (_, p) = IsBounded p.frames p.tokens

  push-Keeps :
      (kind : ContainerKind) (p : Parser) → Keeps p → Post Keeps (push_container limits kind p)
  unfolding push_container Distinct
  push-Keeps array p v = ground arith
  push-Keeps object p v = ground arith

  module _ (finite : List ℕ → Bool) where
    begin_word-Keeps : (p : Parser) → Keeps p → Post KeepsValue (begin_word finite limits p)
    unfolding begin_word
    begin_word-Keeps p v = ground arith

    begin_with-Keeps :
        (b : ℕ) (p : Parser) → Keeps p → Post KeepsValue (begin_with finite limits b p)
    unfolding begin_with
    begin_with-Keeps b p v =
        Post-if KeepsValue (b == 0x7b) _ _
          (λ _.
            Post-bind Keeps KeepsValue (push_container limits object p) _ (push-Keeps object p v)
              (λ q h. h))
          (λ _.
            Post-if KeepsValue (b == 0x5b) _ _
              (λ _.
                Post-bind Keeps KeepsValue (push_container limits array p) _ (push-Keeps array p v)
                  (λ q h. h))
              (λ _. ground (
                arith,
                begin_word-Keeps p v,
                string-Shorter limits.max_scalar_bytes false p.rest,
                number-Shorter finite limits p.rest,
              )))

    begin_value-Keeps :
        (p : Parser)
        → length p.frames ≤ limits.max_depth
        → All IsWithin p.frames
        → Post KeepsValue (begin_value finite limits p)
    unfolding begin_value
    begin_value-Keeps p d v = keeps p.rest refl
      where
        keeps : (rest : List ℕ) → p.rest ≡ rest → Post KeepsValue (begin_value finite limits p)
        keeps [] e = ground arith
        keeps (b ∷ rest) e =
            rw (e, begin_value)
              (Post-if KeepsValue (ltb limits.max_tokens (p.tokens + 1)) (err rejected) _ (λ _. tt)
                (λ fits.
                  begin_with-Keeps b (record p { tokens = p.tokens + 1 })
                    (record { depth = d; tokens = ground (arith, fits); frames = v })))

    -- What is kept of the parser when the innermost frame is `f`.
    abbrev Within : Frame → List Frame → ℕ → Type 0
    Within f fs tokens =
        IsWithin f
        × All IsWithin fs
        × (suc (length fs) ≤ limits.max_depth)
        × (tokens ≤ limits.max_tokens)

    array_item-Keeps :
        (f : Frame) (fs : List Frame) (p : Parser)
        → f.state ≡ array_value_or_end
        → Within f fs p.tokens
        → Post Keeps (array_item finite limits f fs p)
    unfolding array_item
    array_item-Keeps f fs p s v = ground (
      arith,
      begin_value-Keeps (record p {
        frames = record f { members = f.members + 1; state = array_after_value } ∷ fs;
      }),
    )

    array_separator-Keeps :
        (f : Frame) (fs : List Frame) (p : Parser)
        → f.state ≡ array_after_value
        → Within f fs p.tokens
        → Post Keeps (consume_array_separator finite limits f fs p)
    unfolding consume_array_separator
    array_separator-Keeps f fs p s v = ground arith

    add_key-Keeps :
        (key : Key) (rest : List ℕ) (f : Frame) (fs : List Frame) (p : Parser)
        → f.state ≡ object_key_or_end
        → Within f fs p.tokens
        → Post Keeps (add_key finite limits key rest f fs p)
    unfolding add_key Distinct
    add_key-Keeps key rest f fs p s v = ground arith

    object_key-Keeps :
        (f : Frame) (fs : List Frame) (p : Parser)
        → f.state ≡ object_key_or_end
        → Within f fs p.tokens
        → Post Keeps (consume_object_key finite limits f fs p)
    unfolding consume_object_key
    object_key-Keeps f fs p s v =
        Post-if Keeps (f.allow_end && next_is 0x7d p.rest) _ _ (λ _. ground arith)
          (λ _.
            Post-if Keeps (next_is 0x22 p.rest) _ (err rejected)
              (λ _.
                Post-bind (λ (r : List ℕ × List ℕ). Unit {0}) Keeps
                  (consume_string limits.max_key_bytes true p.rest) _
                  (Post-imp (Shorter (length p.rest)) (λ r. Unit) _ (λ r h. tt)
                    (string-Shorter limits.max_key_bytes true p.rest))
                  (λ r h. add_key-Keeps r.0 r.1 f fs p s v))
              (λ _. tt))

    object_separator-Keeps :
        (f : Frame) (fs : List Frame) (p : Parser)
        → f.state ≡ object_after_value
        → Within f fs p.tokens
        → Post Keeps (consume_object_separator finite limits f fs p)
    unfolding consume_object_separator
    object_separator-Keeps f fs p s v = ground arith

    object_value-Keeps :
        (f : Frame) (fs : List Frame) (p : Parser)
        → f.state ≡ object_value
        → Within f fs p.tokens
        → Post Keeps (consume_object_value finite limits f fs p)
    unfolding consume_object_value
    object_value-Keeps f fs p s v = ground (
      arith,
      begin_value-Keeps (record p {
        frames = record f { members = f.members + 1; state = object_after_value } ∷ fs;
      }),
    )

    in_state-Keeps :
        (state : FrameState) (f : Frame) (fs : List Frame) (p : Parser)
        → f.state ≡ state
        → Within f fs p.tokens
        → Post Keeps (in_state finite limits state f fs p)
    unfolding in_state
    in_state-Keeps array_value_or_end f fs p e v = array_item-Keeps f fs p e v
    in_state-Keeps array_after_value f fs p e v = array_separator-Keeps f fs p e v
    in_state-Keeps object_key_or_end f fs p e v = object_key-Keeps f fs p e v
    in_state-Keeps object_value f fs p e v = object_value-Keeps f fs p e v
    in_state-Keeps object_after_value f fs p e v = object_separator-Keeps f fs p e v

    in_frames-Keeps :
        (frames : List Frame) (p : Parser)
        → p.frames ≡ frames
        → Keeps p
        → Post Keeps (in_frames finite limits frames p)
    unfolding in_frames
    in_frames-Keeps [] p e v = ground (arith, begin_value-Keeps p v.depth v.frames)
    in_frames-Keeps (f ∷ fs) p e v = in_state-Keeps f.state f fs p refl (ground arith)

    round-Keeps : (p : Parser) → Keeps p → Post Keeps (round finite limits p)
    unfolding round
    round-Keeps p v =
        in_frames-Keeps p.frames (record p { rest = skip_whitespace p.rest }) refl
          (record { depth = v.depth; tokens = v.tokens; frames = v.frames })

    -- The states that the loop of `validate` goes through.
    pub data Reach (p : Parser) : Parser → Type 0 where
      here : Reach p p
      next : {q r : Parser} → Reach p q → round finite limits q ≡ ok r → Reach p r

    Post-ok : {A : Type 0} (P : A → Type 0) (m : Parsed A) (a : A) → Post P m → m ≡ ok a → P a
    Post-ok P m a h e = subst (Post P) e h

    Reach-Keeps : {p q : Parser} → Keeps p → Reach p q → Keeps q
    Reach-Keeps v here = v
    Reach-Keeps v (next {q = q} {r = r} reached e) =
        Post-ok Keeps (round finite limits q) r (round-Keeps q (Reach-Keeps v reached)) e

    -- In every state that the rounds of the JSON check of any payload reach, the open frames are within the depth
    -- limit, the counted tokens within theirs, each frame has its members within the limit of its kind, its keys
    -- are distinct, and it has one key for each member and for the one whose value is awaited.
    pub Reach-IsBounded :
        (payload : List ℕ) {q : Parser} → Reach (parser payload) q → IsBounded q.frames q.tokens
    unfolding parser
    Reach-IsBounded payload r =
        Reach-Keeps (record { depth = omega arith; tokens = omega arith; frames = tt }) r
