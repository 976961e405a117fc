-- ===== src/Tokens/Base64/RoundTrip.antt =====
-- What is encoded decodes to itself.
use nplg_dspace_mcp.Prelude.{
  ℕ, suc, ◌*◌, ◌+◌, ◌/◌, ◌%◌, ◌==◌, false, [], ◌∷◌, ◌++◌, some, if◌then◌else◌, length, ◌≡◌, ◌<◌,
  refl, ◌∙◌, ap, All, arith,
}
use nplg_dspace_mcp.Prelude.Bytes.{Bytes}
use nplg_dspace_mcp.Tokens.Base64.{
  letter, sextet, urlsafe_b64encode, rstrip, b64encode, last_group, strict_b64decode, padding,
  b64decode,
}

abbrev pub IsByte : ℕ → Type 0
IsByte b = b < 256

letter_other : (n : ℕ) → n < 64 → (letter n == b'=') ≡ false
unfolding letter
letter_other n h = ground arith

sextet-letter : (n : ℕ) → n < 64 → sextet (letter n) ≡ some n
unfolding sextet letter
sextet-letter n h = ground arith

rstrip-cons : (c : ℕ) (s : Bytes) → (c == b'=') ≡ false → rstrip (c ∷ s) ≡ c ∷ rstrip s
unfolding rstrip
rstrip-cons c s h = nonempty (rstrip s)
  where
    nonempty :
        (t : Bytes)
        → (elim t as (λ _. Bytes) [ [] ↦ if c == b'=' then [] else c ∷ [] | d ∷ u ↦ c ∷ d ∷ u ])
          ≡ c ∷ t
    nonempty [] = rw h
    nonempty (d ∷ u) = refl

padding-four : (n : ℕ) → padding (suc (suc (suc (suc n)))) ≡ padding n
unfolding padding
padding-four n = ground arith

-- Stripping the padding loses nothing.
abbrev Restores : Bytes → Type 0
Restores s = rstrip s ++ padding (length (rstrip s)) ≡ s

Restores-four :
    (x y z w : ℕ) (s : Bytes)
    → x < 64
    → y < 64
    → z < 64
    → w < 64
    → Restores s
    → Restores (letter x ∷ letter y ∷ letter z ∷ letter w ∷ s)
Restores-four x y z w s hx hy hz hw h =
    rw (rstrip-cons (letter x) (letter y ∷ letter z ∷ letter w ∷ s) (letter_other x hx)) (
      rw (rstrip-cons (letter y) (letter z ∷ letter w ∷ s) (letter_other y hy)) (
        rw (rstrip-cons (letter z) (letter w ∷ s) (letter_other z hz)) (
          rw (rstrip-cons (letter w) s (letter_other w hw)) (
            rw (padding-four (length (rstrip s)))
              (ap (λ (t : Bytes). letter x ∷ letter y ∷ letter z ∷ letter w ∷ t) h)))))

encode-Restores : (v : Bytes) → All IsByte v → Restores (urlsafe_b64encode v)
unfolding urlsafe_b64encode
encode-Restores [] h = unfold rstrip padding in refl
encode-Restores (a ∷ []) (ha, _) =
    rw (rstrip-cons (letter (a / 4)) _ (letter_other (a / 4) (omega arith))) (
      rw (rstrip-cons (letter (a % 4 * 16)) _ (letter_other (a % 4 * 16) (omega arith)))
        (unfold rstrip padding in refl))
encode-Restores (a ∷ b ∷ []) (ha, (hb, _)) =
    rw (rstrip-cons (letter (a / 4)) _ (letter_other (a / 4) (omega arith))) (
      rw
        (rstrip-cons (letter (a % 4 * 16 + b / 16)) _
          (letter_other (a % 4 * 16 + b / 16) (omega arith)))
        (rw (rstrip-cons (letter (b % 16 * 4)) _ (letter_other (b % 16 * 4) (omega arith)))
          (unfold rstrip padding in refl)))
encode-Restores (a ∷ b ∷ c ∷ rest) (ha, (hb, (hc, h))) =
    Restores-four (a / 4) (a % 4 * 16 + b / 16) (b % 16 * 4 + c / 64) (c % 64)
      (urlsafe_b64encode rest) (omega arith) (omega arith) (omega arith) (omega arith)
      (encode-Restores rest h)

-- Groups of four, three and two characters with known bits.
module _ (p q r s x y z w : ℕ) (px : sextet p ≡ some x) (qy : sextet q ≡ some y) where
  four_lem :
      (rest v : Bytes)
      → sextet r ≡ some z
      → sextet s ≡ some w
      → (s == b'=') ≡ false
      → strict_b64decode rest ≡ some v
      → strict_b64decode (p ∷ q ∷ r ∷ s ∷ rest)
        ≡ some ((x * 4 + y / 16) ∷ (y % 16 * 16 + z / 4) ∷ (z % 4 * 64 + w) ∷ v)
  unfolding strict_b64decode
  four_lem rest v rz sw e h = rw e (rw px (rw qy (rw rz (rw sw (rw h)))))

module _ (p q x y : ℕ) (px : sextet p ≡ some x) (qy : sextet q ≡ some y) where
  three_lem :
      (r z : ℕ)
      → sextet r ≡ some z
      → (r == b'=') ≡ false
      → last_group p q r ≡ some ((x * 4 + y / 16) ∷ (y % 16 * 16 + z / 4) ∷ [])
  unfolding last_group
  three_lem r z rz e = rw e (rw px (rw qy (rw rz)))

  two_lem : last_group p q b'=' ≡ some ((x * 4 + y / 16) ∷ [])
  unfolding last_group
  two_lem = rw px (rw qy)

strict_b64decode-encode :
    (v : Bytes) → All IsByte v → strict_b64decode (urlsafe_b64encode v) ≡ some v
unfolding urlsafe_b64encode
strict_b64decode-encode [] h = unfold strict_b64decode in refl
strict_b64decode-encode (a ∷ []) (ha, _) =
    unfold strict_b64decode in
    two_lem (letter (a / 4)) (letter (a % 4 * 16)) (a / 4) (a % 4 * 16)
      (sextet-letter (a / 4) (omega arith)) (sextet-letter (a % 4 * 16) (omega arith))
    ∙ ground arith
strict_b64decode-encode (a ∷ b ∷ []) (ha, (hb, _)) =
    unfold strict_b64decode in
    three_lem (letter (a / 4)) (letter (a % 4 * 16 + b / 16)) (a / 4) (a % 4 * 16 + b / 16)
      (sextet-letter (a / 4) (omega arith)) (sextet-letter (a % 4 * 16 + b / 16) (omega arith))
      (letter (b % 16 * 4)) (b % 16 * 4) (sextet-letter (b % 16 * 4) (omega arith))
      (letter_other (b % 16 * 4) (omega arith))
    ∙ ground arith
strict_b64decode-encode (a ∷ b ∷ c ∷ rest) (ha, (hb, (hc, h))) =
    four_lem (letter (a / 4)) (letter (a % 4 * 16 + b / 16)) (letter (b % 16 * 4 + c / 64))
      (letter (c % 64)) (a / 4) (a % 4 * 16 + b / 16) (b % 16 * 4 + c / 64) (c % 64)
      (sextet-letter (a / 4) (omega arith)) (sextet-letter (a % 4 * 16 + b / 16) (omega arith))
      (urlsafe_b64encode rest) rest (sextet-letter (b % 16 * 4 + c / 64) (omega arith))
      (sextet-letter (c % 64) (omega arith)) (letter_other (c % 64) (omega arith))
      (strict_b64decode-encode rest h)
    ∙ ground arith

-- about
pub b64decode-encode : (v : Bytes) → All IsByte v → b64decode (b64encode v) ≡ some v
unfolding b64decode b64encode
b64decode-encode v h = rw (encode-Restores v h) (strict_b64decode-encode v h)
