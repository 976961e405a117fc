-- ===== src/Tokens/Base64/Letters.antt =====
-- The characters of an encoded text: ASCII, and none of them a full stop.
use nplg_dspace_mcp.Prelude.{
  ℕ, ◌*◌, ◌+◌, ◌/◌, ◌%◌, ◌==◌, ltb, true, false, [], ◌∷◌, if◌then◌else◌, ◌≡◌, refl, ◌<◌, All, arith,
}
use nplg_dspace_mcp.Prelude.Bytes.{Bytes}
use nplg_dspace_mcp.Tokens.Base64.{letter, urlsafe_b64encode, rstrip, b64encode}
use nplg_dspace_mcp.Tokens.Base64.RoundTrip.{IsByte}

abbrev pub IsPlain : ℕ → Type 0
IsPlain c = ((c == b'.') ≡ false) × (ltb c 0x80 ≡ true)

letter-IsPlain : (n : ℕ) → n < 64 → IsPlain (letter n)
unfolding letter
letter-IsPlain n h = ground arith

encode-All : (v : Bytes) → All IsByte v → All IsPlain (urlsafe_b64encode v)
unfolding urlsafe_b64encode
encode-All [] h = tt
encode-All (a ∷ []) (ha, _) = (
  letter-IsPlain (a / 4) (omega arith),
  (letter-IsPlain (a % 4 * 16) (omega arith), ((refl, refl), ((refl, refl), tt))),
)
encode-All (a ∷ b ∷ []) (ha, (hb, _)) = (
  letter-IsPlain (a / 4) (omega arith),
  (
    letter-IsPlain (a % 4 * 16 + b / 16) (omega arith),
    (letter-IsPlain (b % 16 * 4) (omega arith), ((refl, refl), tt)),
  ),
)
encode-All (a ∷ b ∷ c ∷ rest) (ha, (hb, (hc, h))) = (
  letter-IsPlain (a / 4) (omega arith),
  (
    letter-IsPlain (a % 4 * 16 + b / 16) (omega arith),
    (
      letter-IsPlain (b % 16 * 4 + c / 64) (omega arith),
      (letter-IsPlain (c % 64) (omega arith), encode-All rest h),
    ),
  ),
)

rstrip-All : (P : ℕ → Type 0) (s : Bytes) → All P s → All P (rstrip s)
unfolding rstrip
rstrip-All P [] h = tt
rstrip-All P (c ∷ s) (e, h) = keeps (rstrip s) (rstrip-All P s h)
  where
    keeps :
        (t : Bytes)
        → All P t
        → All P
            (elim t as (λ _. Bytes) [ [] ↦ if c == b'=' then [] else c ∷ [] | d ∷ u ↦ c ∷ d ∷ u ])
    keeps [] k = elim (c == b'=') as (λ b. All P (if b then [] else c ∷ [])) [
      | true ↦ tt
      | false ↦ (e, tt)
    ]
    keeps (d ∷ u) k = (e, k)

pub b64encode-All : (v : Bytes) → All IsByte v → All IsPlain (b64encode v)
unfolding b64encode
b64encode-All v h = rstrip-All IsPlain (urlsafe_b64encode v) (encode-All v h)
