-- ===== src/Preflight/Grammar/Sound.antt =====
-- What `validate` of src/nplg_mcp/json_preflight.py accepts is a JSON text. The proof follows the rounds backwards:
-- what the frames of a state still ask for, before its round, is a piece of grammar and what they ask for after it.
use nplg_dspace_mcp.Prelude.{
  ℕ, zero, suc, ◌≡◌, refl, Bool, false, ◌||◌, ◌==◌, List, [], ◌∷◌, arith, length, ltb, ok, subst,
  sym,
}
use nplg_dspace_mcp.Preflight.Limits.{Limits}
use nplg_dspace_mcp.Preflight.Scan.{skip_whitespace}
use nplg_dspace_mcp.Preflight.Parser.{
  ValueKind, Frame, Parser, parser, begin_value, in_frames, at_end, round, rounds, validate,
}
use nplg_dspace_mcp.Preflight.Progress.Rounds.{at_end-eq}
use nplg_dspace_mcp.Preflight.Grammar.{Spaces, Document}
use nplg_dspace_mcp.Preflight.Grammar.Lexical.{
  Gives, Gives-bind, Gives-if, Gives-require, Gives-imp, skip_whitespace-Spaces,
}
use nplg_dspace_mcp.Preflight.Grammar.Frames.{
  Asks, Todo, TodoOf, Owes, OwesValue, root-Before, frames-Before, finished-Document, complete-Todo,
}
use nplg_dspace_mcp.Preflight.Grammar.States.{begin_value-Owes, in_state-Owes}

module _ (finite : List ℕ → Bool) (limits : Limits) where
  -- What the state after a round asks for is the end of what the state before it does.
  abbrev Continues : Parser → Parser → Type 0
  Continues p q = (out : List ℕ) → TodoOf q out → Todo false p.frames p.rest out

  in_frames-Continues :
      (frames : List Frame) (p : Parser)
      → p.root_complete ≡ false
      → p.frames ≡ frames
      → Gives
          (λ q. (out : List ℕ) → TodoOf q out → Todo false frames p.rest out)
          (in_frames finite limits frames (record p { rest = skip_whitespace p.rest }))
  unfolding in_frames
  in_frames-Continues [] p going e =
      let p' = record p { rest = skip_whitespace p.rest } in
      let owes : Gives (OwesValue [] p'.rest) (begin_value finite limits p') =
        subst (λ fs. Gives (OwesValue fs p'.rest) (begin_value finite limits p')) e
          (begin_value-Owes finite limits p' going) in
      ground (
        arith,
        Gives-imp (OwesValue [] p'.rest)
            (λ ((_, q) : ValueKind × Parser).
              (out : List ℕ) → TodoOf q out → Todo false [] p.rest out)
            (begin_value finite limits p')
            (λ (_, q) h out t. root-Before (skip_whitespace-Spaces p.rest) (h out t)) owes,
      )
  in_frames-Continues (f ∷ fs) p going e =
      let p' = record p { rest = skip_whitespace p.rest } in
      Gives-imp (Owes (Asks f.state f.allow_end) fs p'.rest) _ _
        (λ q h out t. frames-Before f fs (skip_whitespace-Spaces p.rest) (h out t))
        (in_state-Owes finite limits f.state f fs p' going)

  round-Continues :
      (p : Parser) → p.root_complete ≡ false → Gives (Continues p) (round finite limits p)
  unfolding round
  round-Continues p going = in_frames-Continues p.frames p going refl

  rounds-Todo : (fuel : ℕ) (p : Parser) → Gives (λ q. TodoOf p q.rest) (rounds finite limits fuel p)
  unfolding rounds
  rounds-Todo zero p =
      Gives-if (λ q. TodoOf p q.rest) p.root_complete (ok p) _ (λ e. complete-Todo p e) (λ _. tt)
  rounds-Todo (suc fuel) p =
      Gives-if (λ q. TodoOf p q.rest) p.root_complete (ok p) _ (λ e. complete-Todo p e)
        (λ going.
          Gives-bind (Continues p) (λ q. TodoOf p q.rest) (round finite limits p)
            (rounds finite limits fuel) (round-Continues p going)
            (λ q k.
              Gives-imp (λ r. TodoOf q r.rest) (λ r. TodoOf p r.rest) _
                (λ r t. subst (λ c. Todo c p.frames p.rest r.rest) (sym going) (k r.rest t))
                (rounds-Todo fuel q)))

  validate-Gives :
      (payload : List ℕ) → Gives (λ _. Document payload) (validate finite limits payload)
  unfolding validate parser
  validate-Gives payload =
      Gives-if (λ _. Document payload)
        (length payload == 0 || ltb limits.max_body_bytes (length payload)) _ _ (λ _. tt)
        (λ _.
          Gives-bind (λ q. Todo false [] payload q.rest) (λ _. Document payload)
            (rounds finite limits (suc (length payload)) (parser payload)) _
            (rounds-Todo (suc (length payload)) (parser payload))
            (λ q t.
              Gives-require (λ _. Document payload) (at_end (skip_whitespace q.rest)) _
                (λ e. finished-Document t (
                  subst (Spaces q.rest) (at_end-eq finite limits (skip_whitespace q.rest) e)
                    (skip_whitespace-Spaces q.rest)))))

  -- Every payload that the JSON check accepts, whatever the limits and the judgement of which numbers are finite,
  -- is a JSON text by the grammar: one value with space around it and nothing else.
  pub validate-Document :
      (payload : List ℕ) {q : Parser} → validate finite limits payload ≡ ok q → Document payload
  validate-Document payload e = subst (Gives (λ _. Document payload)) e (validate-Gives payload)
