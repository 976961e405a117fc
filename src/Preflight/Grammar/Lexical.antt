-- ===== src/Preflight/Grammar/Lexical.antt =====
-- What the lexer of src/nplg_mcp/json_preflight.py accepts is in the grammar: space and numbers.
use nplg_dspace_mcp.Prelude.{
  ℕ, ◌+◌, ◌*◌, ◌-◌, ◌≡◌, ◌⊎◌, inl, inr, refl, Bool, true, false, Option, none, some, List, [], ◌∷◌,
  arith, leb, if◌then◌else◌, ok, err, Bool-cases, subst, sym,
}
use nplg_dspace_mcp.Preflight.Limits.{Parsed, Limits, require, ◌>>=◌, ◌>>◌}
use nplg_dspace_mcp.Preflight.Scan.{
  next_is, next_is_nonzero_digit, after, skip_whitespace, scan_digits, is_whitespace,
  consume_one_or_more_digits, consume_sign, consume_integer, consume_fraction, consume_exponent,
  after_sign, consume_number, digit,
}
use nplg_dspace_mcp.Preflight.Grammar.{
  Spaces, no_space, space, Digits, last_digit, next_digit, Whole, zero_alone, nonzero_first,
  Fraction, no_fraction, fraction, Sign, no_sign, plus, minus, Exponent, no_exponent, exponent,
  Number, number, negative,
}

-- What holds of a step that succeeds.
abbrev pub Gives {ℓ} : {A : Type ℓ} → (A → Type 0) → Parsed A → Type 0
Gives P (ok a) = P a
Gives P (err e) = Unit

module _ {ℓ κ} {A : Type ℓ} {B : Type κ} (P : A → Type 0) (Q : B → Type 0) where
  pub Gives-bind :
      (m : Parsed A) (f : A → Parsed B)
      → Gives P m
      → ((a : A) → P a → Gives Q (f a))
      → Gives Q (m >>= f)
  Gives-bind (ok a) f h k = k a h
  Gives-bind (err e) f h k = tt

module _ {ℓ} {A : Type ℓ} (P : A → Type 0) where
  pub Gives-require : (b : Bool) (m : Parsed A) → (b ≡ true → Gives P m) → Gives P (require b >> m)
  Gives-require true m h = h refl
  Gives-require false m h = tt

  pub Gives-if :
      (b : Bool) (m n : Parsed A)
      → (b ≡ true → Gives P m)
      → (b ≡ false → Gives P n)
      → Gives P (if b then m else n)
  Gives-if true m n h k = h refl
  Gives-if false m n h k = k refl

pub Gives-imp {ℓ} :
    {A : Type ℓ} (P Q : A → Type 0) (m : Parsed A) → ((a : A) → P a → Q a) → Gives P m → Gives Q m
Gives-imp P Q (ok a) f h = f a h
Gives-imp P Q (err e) f h = tt

pub skip_whitespace-Spaces : (rest : List ℕ) → Spaces rest (skip_whitespace rest)
unfolding skip_whitespace
skip_whitespace-Spaces [] = no_space
skip_whitespace-Spaces (b ∷ rest) = elim (Bool-cases (is_whitespace b)) [
  | inl e ↦ rw e (space b e (skip_whitespace-Spaces rest))
  | inr e ↦ rw e no_space
]

-- What a step reads, with a first component that does not matter here.
abbrev pub Read : {A : Type 0} → (List ℕ → List ℕ → Type 0) → List ℕ → A × List ℕ → Type 0
Read R rest (_, left) = R rest left

-- One digit more.
digit-Digits :
    (b : ℕ) (rest left : List ℕ) (none_read : Type 0)
    → digit b ≡ true
    → (none_read × (left ≡ rest)) ⊎ Digits rest left
    → Digits (b ∷ rest) left
digit-Digits b rest left none_read found (inl (_, same)) =
    subst (Digits (b ∷ rest)) (sym same) (last_digit b found)
digit-Digits b rest left none_read found (inr more) = next_digit b found more

-- Either nothing is read, or digits are.
scan_digits-Digits :
    (limit : Option ℕ) (rest : List ℕ) (n v : ℕ)
    → let (digits, _, left) = scan_digits limit n v rest in
      ((digits ≡ n) × (left ≡ rest)) ⊎ Digits rest left
unfolding scan_digits
scan_digits-Digits limit [] n v = inl (refl, refl)
scan_digits-Digits limit (b ∷ rest) n v =
    let value : ℕ = elim limit [ none ↦ v | some l ↦ if leb v l then v * 10 + b - 0x30 else v ] in
    let more = scan_digits-Digits limit rest (n + 1) value in
    elim (Bool-cases (digit b)) [
      | inr other ↦ rw (other, scan_digits) (inl (refl, refl))
      | inl found ↦ rw (found, scan_digits) (inr (digit-Digits b rest _ _ found more))
    ]

one_or_more-Digits :
    (limit : Option ℕ) (rest : List ℕ)
    → Gives (Read Digits rest) (consume_one_or_more_digits limit rest)
unfolding consume_one_or_more_digits
one_or_more-Digits limit rest = ground (arith, scan_digits-Digits limit rest 0 0)

-- A byte that was seen.
pub next_is-eq : (b : ℕ) (rest : List ℕ) → next_is b rest ≡ true → b ∷ after rest ≡ rest
unfolding next_is after
next_is-eq b [] e = cc
next_is-eq b (c ∷ rest) e = ground (arith, e)

pub seen :
    (P : List ℕ → Type 0) (b : ℕ) (rest : List ℕ)
    → next_is b rest ≡ true
    → P (b ∷ after rest)
    → P rest
seen P b rest e = subst P (next_is-eq b rest e)

nonzero-Whole :
    (rest left : List ℕ) → next_is_nonzero_digit rest ≡ true → Digits rest left → Whole rest left
unfolding next_is_nonzero_digit
nonzero-Whole [] left e ds = cc
nonzero-Whole (b ∷ rest) left e ds = nonzero_first b e ds

integer-Whole : (limits : Limits) (rest : List ℕ) → Gives (Whole rest) (consume_integer limits rest)
unfolding consume_integer
integer-Whole limits rest = grind (
  arith,
  one_or_more-Digits none rest,
  λ (h : next_is 0x30 rest ≡ true). seen (λ r. Whole r (after rest)) 0x30 rest h zero_alone,
  λ (left : List ℕ). nonzero-Whole rest left,
)

consume_fraction-Fraction : (rest : List ℕ) → Gives (Read Fraction rest) (consume_fraction rest)
unfolding consume_fraction
consume_fraction-Fraction rest = grind (
  arith,
  one_or_more-Digits none (after rest),
  no_fraction {r = rest},
  λ (h : next_is 0x2e rest ≡ true) (left : List ℕ) (ds : Digits (after rest) left).
      seen (λ r. Fraction r left) 0x2e rest h (fraction ds),
)

after_sign-Sign : (rest : List ℕ) → Sign rest (after_sign rest)
unfolding after_sign
after_sign-Sign rest = ground (
  arith,
  no_sign {r = rest},
  λ (h : next_is 0x2b rest ≡ true). seen (λ r. Sign r (after rest)) 0x2b rest h plus,
  λ (h : next_is 0x2d rest ≡ true). seen (λ r. Sign r (after rest)) 0x2d rest h minus,
)

consume_exponent-Exponent :
    (limits : Limits) (rest : List ℕ) → Gives (Read Exponent rest) (consume_exponent limits rest)
unfolding consume_exponent
consume_exponent-Exponent limits rest = grind (
  arith,
  one_or_more-Digits (some limits.max_exponent_magnitude) (after_sign (after rest)),
  no_exponent {r = rest},
  λ (h : next_is 0x65 rest ≡ true) (left : List ℕ) (ds : Digits (after_sign (after rest)) left).
      seen (λ r. Exponent r left) 0x65 rest h
        (exponent 0x65 refl (after_sign-Sign (after rest)) ds),
  λ (h : next_is 0x45 rest ≡ true) (left : List ℕ) (ds : Digits (after_sign (after rest)) left).
      seen (λ r. Exponent r left) 0x45 rest h
        (exponent 0x45 refl (after_sign-Sign (after rest)) ds),
)

-- A number of which the sign may have been read.
sign-Number :
    (start unsigned whole part rest : List ℕ)
    → ((unsigned ≡ start) ⊎ (start ≡ 0x2d ∷ unsigned))
    → Whole unsigned whole
    → Fraction whole part
    → Exponent part rest
    → Number start rest
sign-Number start unsigned whole part rest (inl same) w f e =
    subst (λ r. Number r rest) same (number w f e)
sign-Number start unsigned whole part rest (inr same) w f e =
    subst (λ r. Number r rest) (sym same) (negative w f e)

sign-cases :
    (start : List ℕ)
    → Gives (λ unsigned. (unsigned ≡ start) ⊎ (start ≡ 0x2d ∷ unsigned)) (consume_sign start)
unfolding consume_sign
sign-cases [] = inl refl
sign-cases (b ∷ []) = ground arith
sign-cases (b ∷ c ∷ rest) = ground arith

pub consume_number-Number :
    (finite : List ℕ → Bool) (limits : Limits) (start : List ℕ)
    → Gives (Read Number start) (consume_number finite limits start)
unfolding consume_number
consume_number-Number finite limits start = grind (
  arith, sign-cases, integer-Whole, consume_fraction-Fraction, consume_exponent-Exponent,
  sign-Number,
)
