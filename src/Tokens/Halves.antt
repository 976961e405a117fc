-- ===== src/Tokens/Halves.antt =====
-- The two halves of the tokens of src/nplg_mcp/tokens.py around their full stop.
use nplg_dspace_mcp.Prelude.{
  ℕ, ◌≡◌, refl, ap, Bool, true, ◌&&◌, ◌==◌, ltb, [], ◌∷◌, ◌++◌, some, Bool-cases, inl, inr, All,
  arith,
}
use mathlib.Core.Option
use nplg_dspace_mcp.Prelude.Bytes.{Bytes, cut_at}
use nplg_dspace_mcp.Tokens.Base64.Letters.{IsPlain}

-- `s.encode("ascii")` returns
unfoldable pub is_ascii : Bytes → Bool
is_ascii [] = true
is_ascii (b ∷ s) = ltb b 0x80 && is_ascii s

pub is_ascii-IsPlain : (s : Bytes) → All IsPlain s → is_ascii s ≡ true
unfolding is_ascii
is_ascii-IsPlain [] h = refl
is_ascii-IsPlain (b ∷ s) ((_, e), h) = rw (e, is_ascii-IsPlain s h)

pub cut_at-append :
    (s rest : Bytes) → All IsPlain s → cut_at b'.' (s ++ b'.' ∷ rest) ≡ some (s, rest)
unfolding cut_at
cut_at-append [] rest h = refl
cut_at-append (b ∷ s) rest ((dot, _), h) = rw dot (rw (cut_at-append s rest h))

pub cut_at-eq : (sep : ℕ) (s : Bytes) {p q : Bytes} → cut_at sep s ≡ some (p, q) → s ≡ p ++ sep ∷ q
unfolding cut_at
cut_at-eq sep [] h = cc
cut_at-eq sep (b ∷ s) h = elim (Bool-cases (b == sep)) [
  | inl e ↦ ground arith
  | inr e ↦
      let ((p, q), cut, same) = (Option.map-eq-some_iff _ _).0 (rw e at h) in
      rw (← ap (λ (t : Bytes × Bytes). t.0) same, ← ap (λ (t : Bytes × Bytes). t.1) same)
        (ap (λ t. b ∷ t) (cut_at-eq sep s cut))
]
