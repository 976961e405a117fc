-- ===== src/Storage/Insertion/Numbering.antt =====
-- Numberings: at most one key has a number, and every number is from 1 and below a bound.
use nplg_dspace_mcp.Prelude.{
  ℕ, ◌+◌, ◌≤◌, ◌<◌, ◌≡◌, Option, none, some, arith, Bool-cases, inl, inr, refl, sym, ap, subst, ◌∙◌,
  ◌==◌,
}
use nplg_dspace_mcp.Storage.Insertion.{File, absent, invalid, present, SequenceRecord, update}

-- What the files and the fields of a journal both are.
pub record IsNumbering (n : ℕ) (f : ℕ → Option ℕ) : Type 0 where
  pub bounded : (k q : ℕ) → f k ≡ some q → (1 ≤ q) × (q < n)
  pub distinct : (i k q : ℕ) → f i ≡ some q → f k ≡ some q → i ≡ k

pub IsNumbering-none : (n : ℕ) → IsNumbering n (λ k. none)
IsNumbering-none n = record { bounded = λ k q e. cc; distinct = λ i k q e f. cc }

pub IsNumbering-weaken : (n m : ℕ) (f : ℕ → Option ℕ) → n ≤ m → IsNumbering n f → IsNumbering m f
IsNumbering-weaken n m f h v = record {
  bounded = λ k q e. ground (arith, v.bounded k q e);
  distinct = v.distinct;
}

-- A new number is the bound itself.
pub IsNumbering-update :
    (n k : ℕ) (f : ℕ → Option ℕ)
    → 1 ≤ n
    → IsNumbering n f
    → IsNumbering (n + 1) (update f k (some n))
IsNumbering-update n k f h v = record {
  bounded = λ i q e. ground (arith, v.bounded i q);
  distinct = λ i j q e e'. ground (arith, v.bounded i q, v.bounded j q, v.distinct i j q);
}

pub IsNumbering-drop :
    (n k : ℕ) (f : ℕ → Option ℕ) → IsNumbering n f → IsNumbering n (update f k none)
IsNumbering-drop n k f v = record {
  bounded = λ i q e. ground (arith, v.bounded i q);
  distinct = λ i j q e e'. ground (arith, v.distinct i j q);
}

-- The number in a sequence file.
abbrev pub number_of : File SequenceRecord → Option ℕ
number_of absent = none
number_of invalid = none
number_of (present r) = some r.sequence

abbrev pub numbers : (ℕ → File SequenceRecord) → ℕ → Option ℕ
numbers files k = number_of (files k)

-- A sequence file, if there is one, is valid and of its key.
abbrev pub IsOf : ℕ → File SequenceRecord → Type 0
IsOf k absent = Unit
IsOf k invalid = ⊥
IsOf k (present r) = r.object_key ≡ k

IsNumbering-ext :
    (n : ℕ) (f g : ℕ → Option ℕ) → ((k : ℕ) → g k ≡ f k) → IsNumbering n f → IsNumbering n g
IsNumbering-ext n f g e v = record {
  bounded = λ k q h. v.bounded k q (sym (e k) ∙ h);
  distinct = λ i k q h h'. v.distinct i k q (sym (e i) ∙ h) (sym (e k) ∙ h');
}

-- A file that takes the number of the bound, or no number.
pub numbers-update :
    (n k : ℕ) (files : ℕ → File SequenceRecord)
    → 1 ≤ n
    → IsNumbering n (numbers files)
    → IsNumbering
        (n + 1)
        (numbers (update files k (present (record { object_key = k; sequence = n }))))
numbers-update n k files h v =
    IsNumbering-ext (n + 1) (update (numbers files) k (some n)) _
      (λ i. elim (Bool-cases (i == k)) [ inl e ↦ rw e refl | inr e ↦ rw e refl ])
      (IsNumbering-update n k (numbers files) h v)

pub numbers-delete :
    (n k : ℕ) (files : ℕ → File SequenceRecord)
    → IsNumbering n (numbers files)
    → IsNumbering n (numbers (update files k absent))
numbers-delete n k files v =
    IsNumbering-ext n (update (numbers files) k none) _
      (λ i. elim (Bool-cases (i == k)) [ inl e ↦ rw e refl | inr e ↦ rw e refl ])
      (IsNumbering-drop n k (numbers files) v)

pub IsOf-update :
    (k q : ℕ) (files : ℕ → File SequenceRecord)
    → ((i : ℕ) → IsOf i (files i))
    → (i : ℕ) → IsOf i (update files k (present (record { object_key = k; sequence = q })) i)
IsOf-update k q files v i = elim (Bool-cases (i == k)) [
  | inl e ↦ rw e (ground (arith, e))
  | inr e ↦ rw e (v i)
]

pub IsOf-delete :
    (k : ℕ) (files : ℕ → File SequenceRecord)
    → ((i : ℕ) → IsOf i (files i))
    → (i : ℕ) → IsOf i (update files k absent i)
IsOf-delete k files v i = elim (Bool-cases (i == k)) [ inl e ↦ rw e tt | inr e ↦ rw e (v i) ]

-- A file that keeps what it was.
pub update_same : {A : Type 0} (f : ℕ → A) (k i : ℕ) → update f k (f k) i ≡ f i
update_same f k i = elim (Bool-cases (i == k)) [
  | inl e ↦ rw e (ap f (sym (ground (arith, e))))
  | inr e ↦ rw e refl
]

pub numbers-keep :
    (n k : ℕ) (files : ℕ → File SequenceRecord)
    → IsNumbering n (numbers files)
    → IsNumbering n (numbers (update files k (files k)))
numbers-keep n k files v =
    IsNumbering-ext n (numbers files) _ (λ i. ap number_of (update_same files k i)) v

pub IsOf-keep :
    (k : ℕ) (files : ℕ → File SequenceRecord)
    → ((i : ℕ) → IsOf i (files i))
    → (i : ℕ) → IsOf i (update files k (files k) i)
IsOf-keep k files v i = subst (IsOf i) (sym (update_same files k i)) (v i)

-- A key that takes the number that another numbering gives it.
pub IsNumbering-assign :
    (n k q : ℕ) (f g : ℕ → Option ℕ)
    → IsNumbering n f
    → ((i p : ℕ) → f i ≡ some p → g i ≡ some p)
    → IsNumbering n g
    → g k ≡ some q
    → IsNumbering n (update f k (some q))
IsNumbering-assign n k q f g v same w e = record {
  bounded = λ i p h. ground (arith, v.bounded i p, w.bounded k q e);
  distinct =
      λ i j p h h'. w.distinct i j p (ground (arith, same i p, e)) (ground (arith, same j p, e));
}
