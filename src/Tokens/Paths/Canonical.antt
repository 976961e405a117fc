-- ===== src/Tokens/Paths/Canonical.antt =====
-- Splitting and joining at a separator, and which paths are canonical.
use nplg_dspace_mcp.Prelude.{
  ℕ, ◌≤◌, ◌≡◌, ◌≢◌, ◌↔◌, refl, sym, ◌∙◌, ap, subst, Bool, true, false, ◌==◌, List, [], ◌∷◌, ◌++◌,
  some, any, filter, length, All, Bool-cases, inl, inr, arith,
}
use nplg_dspace_mcp.Prelude.Bytes.{
  Bytes, codes, bytes_eq, bytes_eq_refl, eq_of_bytes_eq, bytes_eq_iff, starts_with, has_byte, split,
  split_add,
}
use nplg_dspace_mcp.Tokens.Paths.{join, is_part, parts, as_posix, validate_path}

module _ (sep : ℕ) where
  split_cons : (s : Bytes) → (p : Bytes) × (ps : List Bytes) × (split sep s ≡ p ∷ ps)
  unfolding split
  split_cons [] = ([], [], refl)
  split_cons (b ∷ s) = elim (Bool-cases (b == sep)) [
    | inl e ↦ ([], split sep s, rw e)
    | inr e ↦ let (p, ps, here) = split_cons s in (b ∷ p, ps, rw (e, here))
  ]

  join-split_add : (b : ℕ) (ps : List Bytes) → ps ≢ [] → join sep (split_add b ps) ≡ b ∷ join sep ps
  unfolding join
  join-split_add b [] h = absurd (h refl)
  join-split_add b (p ∷ []) h = refl
  join-split_add b (p ∷ q ∷ ps) h = refl

  join-nil : (ps : List Bytes) → ps ≢ [] → join sep ([] ∷ ps) ≡ sep ∷ join sep ps
  unfolding join
  join-nil [] h = absurd (h refl)
  join-nil (p ∷ ps) h = refl

  split-ne-nil : (s : Bytes) → split sep s ≢ []
  split-ne-nil s h = let (p, ps, e) = split_cons s in cc

  join-split : (s : Bytes) → join sep (split sep s) ≡ s
  unfolding split
  join-split [] = unfold join in refl
  join-split (b ∷ s) = elim (Bool-cases (b == sep)) [
    | inl e ↦ rw e (join-nil (split sep s) (split-ne-nil s) ∙ ground (arith, join-split s))
    | inr e ↦
        rw e (join-split_add b (split sep s) (split-ne-nil s) ∙ ap (λ t. b ∷ t) (join-split s))
  ]

  -- A text without the separator.
  abbrev Lacks : Bytes → Type 0
  Lacks = All (λ b. (b == sep) ≡ false)

  split-Lacks : (s : Bytes) → All Lacks (split sep s)
  unfolding split
  split-Lacks [] = (tt, tt)
  split-Lacks (b ∷ s) = elim (Bool-cases (b == sep)) [
    | inl e ↦ rw e (tt, split-Lacks s)
    | inr e ↦
        let (p, ps, here) = split_cons s in
        let rest = subst (All Lacks) here (split-Lacks s) in rw (e, here) ((e, rest.0), rest.1)
  ]

  split_whole : (x : Bytes) → Lacks x → split sep x ≡ x ∷ []
  unfolding split
  split_whole [] h = refl
  split_whole (b ∷ x) (e, h) = rw (e, split_whole x h)

  split-append : (x rest : Bytes) → Lacks x → split sep (x ++ sep ∷ rest) ≡ x ∷ split sep rest
  unfolding split
  split-append [] rest h = ground arith
  split-append (b ∷ x) rest (e, h) = rw (e, split-append x rest h)

  split-join :
      (x : Bytes) (xs : List Bytes) → All Lacks (x ∷ xs) → split sep (join sep (x ∷ xs)) ≡ x ∷ xs
  unfolding join
  split-join x [] (h, _) = split_whole x h
  split-join x (y ∷ xs) (h, hs) =
      split-append x (join sep (y ∷ xs)) h ∙ ap (λ t. x ∷ t) (split-join y xs hs)

module _ {A : Type 0} (p : A → Bool) where
  length-filter-le : (xs : List A) → length (filter p xs) ≤ length xs
  length-filter-le [] = omega arith
  length-filter-le (x ∷ xs) = ground (arith, length-filter-le xs)

  -- A filter that keeps the list keeps each element.
  All-filter : (xs : List A) → filter p xs ≡ xs → All (λ x. p x ≡ true) xs
  All-filter [] h = tt
  All-filter (x ∷ xs) h = elim (Bool-cases (p x)) [
    | inl e ↦ (e, All-filter xs (ground arith))
    | inr e ↦
        let short : length (filter p (x ∷ xs)) ≤ length xs = rw (e, filter) (length-filter-le xs) in
        absurd (omega (arith, short, ap length h))
  ]

  filter_all : (xs : List A) → All (λ x. p x ≡ true) xs → filter p xs ≡ xs
  filter_all [] h = refl
  filter_all (x ∷ xs) (e, h) = rw (e, filter) (ap (λ t. x ∷ t) (filter_all xs h))

  All-Lacks_filter : (P : A → Type 0) (xs : List A) → All P xs → All P (filter p xs)
  All-Lacks_filter P [] h = tt
  All-Lacks_filter P (x ∷ xs) (e, h) = elim (Bool-cases (p x)) [
    | inl keep ↦ rw (keep, filter) (e, All-Lacks_filter P xs h)
    | inr drop ↦ rw (drop, filter) (All-Lacks_filter P xs h)
  ]

-- A segment that names something below its directory.
abbrev pub IsClean : Bytes → Type 0
IsClean segment = (segment ≢ []) × (segment ≢ codes ".") × (segment ≢ codes "..")

abbrev pub IsCanonical : Bytes → Type 0
IsCanonical path = (has_byte b'\\' path ≡ false) × All IsClean (split b'/' path)

-- The two tests on segments, and what they say together.
IsClean-iff : (s : Bytes) → ((is_part s ≡ true) × (bytes_eq (codes "..") s ≡ false)) ↔ IsClean s
unfolding is_part
IsClean-iff s = (
  λ h. (
    λ e. ground (arith, bytes_eq_iff s []),
    λ e. ground (arith, bytes_eq_iff s (codes ".")),
    λ e. ground (arith, bytes_eq_iff (codes "..") s),
  ),
  λ h. ground (arith, bytes_eq_iff s [], bytes_eq_iff s (codes "."), bytes_eq_iff (codes "..") s),
)

All-IsClean :
    (segments : List Bytes)
    → All (λ s. is_part s ≡ true) segments
    → any (bytes_eq (codes "..")) segments ≡ false
    → All IsClean segments
All-IsClean [] h k = tt
All-IsClean (s ∷ segments) (e, h) k = elim (Bool-cases (bytes_eq (codes "..") s)) [
  | inl up ↦ absurd (ground arith)
  | inr same ↦ ((IsClean-iff s).0 (e, same), All-IsClean segments h (rw (same, any) at k))
]

All-is_part : (segments : List Bytes) → All IsClean segments → All (λ s. is_part s ≡ true) segments
All-is_part [] h = tt
All-is_part (s ∷ segments) (c, h) = (((IsClean-iff s).1 c).0, All-is_part segments h)

any-IsClean :
    (segments : List Bytes) → All IsClean segments → any (bytes_eq (codes "..")) segments ≡ false
any-IsClean [] h = refl
any-IsClean (s ∷ segments) (c, h) = rw (((IsClean-iff s).1 c).1, any) (any-IsClean segments h)

as_posix-join : (ps : List Bytes) → ps ≢ [] → as_posix ps ≡ join b'/' ps
unfolding as_posix
as_posix-join [] h = absurd (h refl)
as_posix-join (p ∷ ps) h = refl

-- The tests of `validate_path`, when it answers.
validate_path-some :
    (path : Bytes) {q : Bytes}
    → validate_path path ≡ some q
    → (q ≡ path)
      × (has_byte b'\\' path ≡ false)
      × (bytes_eq path (codes ".") ≡ false)
      × (any (bytes_eq (codes "..")) (parts path) ≡ false)
      × (bytes_eq (as_posix (parts path)) path ≡ true)
unfolding validate_path
validate_path-some path h = ground arith

split-parts :
    (path : Bytes) (ps : List Bytes)
    → parts path ≡ ps
    → bytes_eq path (codes ".") ≡ false
    → as_posix ps ≡ path
    → split b'/' path ≡ ps
unfolding as_posix
split-parts path [] e dot same = absurd (ground (arith, bytes_eq_iff path (codes ".")))
split-parts path (p ∷ ps) e dot same =
    ap (split b'/') (sym same)
    ∙ split-join b'/' p ps (
        subst (All (Lacks b'/')) e (
          unfold parts in
          All-Lacks_filter is_part (Lacks b'/') (split b'/' path) (split-Lacks b'/' path)))

filter-split :
    (path : Bytes)
    → split b'/' path ≡ parts path
    → filter is_part (split b'/' path) ≡ split b'/' path
unfolding parts
filter-split path h = sym h

parts_clean : (path : Bytes) → All IsClean (split b'/' path) → parts path ≡ split b'/' path
unfolding parts
parts_clean path h = filter_all is_part (split b'/' path) (All-is_part (split b'/' path) h)

-- No clean path is one of the few that have a test of their own.
clean_other :
    (path : Bytes)
    → All IsClean (split b'/' path)
    → (path ≢ []) × (path ≢ codes ".") × (path ≢ codes "..")
unfolding split
clean_other path h =
    (λ e. (rw e at h).0.0 refl, λ e. (rw e at h).0.1 refl, λ e. (rw e at h).0.2 refl)

clean_relative :
    (path : Bytes) → All IsClean (split b'/' path) → starts_with (codes "/") path ≡ false
unfolding split starts_with
clean_relative [] h = refl
clean_relative (b ∷ path) h = elim (Bool-cases (b'/' == b)) [
  | inl e ↦ let flip : (b == b'/') ≡ true = ground arith in absurd ((rw flip at h).0.0 refl)
  | inr e ↦ rw e
]

clean-validates : (path : Bytes) → IsCanonical path → validate_path path ≡ some path
unfolding validate_path
clean-validates path (slash, h) =
    let (some_text, dot, up) = clean_other path h in
    let root = clean_relative path h in
    let inside : any (bytes_eq (codes "..")) (parts path) ≡ false =
      rw (parts_clean path h) (any-IsClean (split b'/' path) h) in
    let posix : as_posix (parts path) ≡ path =
      rw (parts_clean path h)
        (as_posix-join (split b'/' path) (split-ne-nil b'/' path) ∙ join-split b'/' path) in
    let spelled : bytes_eq (as_posix (parts path)) path ≡ true = rw posix (bytes_eq_refl path) in
    ground (
      arith,
      bytes_eq_iff path [],
      bytes_eq_iff path (codes "."),
      bytes_eq_iff path (codes ".."),
      slash,
      root,
      inside,
      spelled,
      some_text,
      dot,
      up,
    )

-- The path check accepts exactly the texts without a backslash whose segments between slashes are all neither
-- empty nor one or two dots, and it returns them unchanged.
pub validate_path_iff :
    (path q : Bytes) → (validate_path path ≡ some q) ↔ ((q ≡ path) × IsCanonical path)
validate_path_iff path q = (
  λ h.
      let (same, slash, dot, up, posix) = validate_path-some path h in
      let kept = split-parts path (parts path) refl dot (eq_of_bytes_eq _ _ posix) in
      (
        same,
        (
          slash,
          All-IsClean (split b'/' path)
              (All-filter is_part (split b'/' path) (filter-split path kept)) (rw kept up),
        ),
      ),
  λ h. rw h.0 (clean-validates path h.1),
)
