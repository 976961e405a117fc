-- ===== src/Storage/Insertion/Loading.antt =====
-- `initialize` of src/nplg_mcp/storage_lifecycle.py on the files of another process.
use nplg_dspace_mcp.Prelude.{
  ℕ, ◌≤◌, ◌≡◌, some, List, [], ◌∷◌, arith, Bool-cases, inl, inr, refl, true, Result, ok, err, is_ok,
  subst, ap,
}
use nplg_dspace_mcp.Storage.Insertion.{
  File, absent, invalid, present, SequenceRecord, update, Write, Entry, Journal, write_high_water,
  write_sequence, allocate, load_object_sequence, load_each, initialize, restarted, contains,
  InsertionError,
}
use nplg_dspace_mcp.Storage.Insertion.Numbering.{
  IsNumbering, IsNumbering-none, IsNumbering-weaken, IsNumbering-assign, numbers, number_of,
}
use nplg_dspace_mcp.Storage.Insertion.Durable.{
  floor_of, IsDurable, IsLive, IsLive-IsDurable, allocate-IsLive,
}

-- While the files are read, what a process remembers is what they say.
pub record IsLoading (j : Journal) : Type 0 where
  pub live : IsLive j
  pub agrees : (k q : ℕ) → j.sequences k ≡ some q → numbers j.files k ≡ some q

-- The numbers grow, on the disk and in the process.
abbrev pub Grows : Journal → Journal → Type 0
Grows j j' = (j.next_sequence ≤ j'.next_sequence) × (floor_of j.high_water ≤ floor_of j'.high_water)

pub allocate-Grows : (e : Entry) (j : Journal) → IsLive j → Grows j (allocate e j).1
unfolding allocate write_high_water write_sequence
allocate-Grows e j v = ground (arith, v.covered, v.close)

allocate-agrees :
    (e : Entry) (j : Journal)
    → ((k q : ℕ) → j.sequences k ≡ some q → numbers j.files k ≡ some q)
    → j.files e.key ≡ absent
    → (k q : ℕ) → (allocate e j).1.sequences k ≡ some q
    → numbers (allocate e j).1.files k ≡ some q
unfolding allocate write_high_water write_sequence
allocate-agrees e j h new k q = ground (arith, h k q, h e.key q, new)

-- A sequence file that is read.
read-IsLoading :
    (k : ℕ) (r : SequenceRecord) (j : Journal)
    → j.files k ≡ present r
    → IsLoading j
    → IsLoading (record j { sequences = update j.sequences k (some r.sequence) })
read-IsLoading k r j found v = record {
  live = record {
    keyed = v.live.keyed;
    numbered = v.live.numbered;
    remembered =
        IsNumbering-assign j.next_sequence k r.sequence j.sequences (numbers j.files)
          v.live.remembered v.agrees v.live.numbered (ap number_of found);
    positive = v.live.positive;
    covered = v.live.covered;
    close = v.live.close;
  };
  agrees = λ i q h. ground (arith, v.agrees i q, ap number_of found);
}

allocate-IsLoading :
    (e : Entry) (j : Journal) → j.files e.key ≡ absent → IsLoading j → IsLoading (allocate e j).1
allocate-IsLoading e j new v = record {
  live = allocate-IsLive e j v.live;
  agrees = allocate-agrees e j v.agrees new;
}

pub load-IsLoading :
    (e : Entry) (j : Journal)
    → IsLoading j
    → IsLoading (load_object_sequence e j).1 × Grows j (load_object_sequence e j).1
unfolding load_object_sequence
load-IsLoading e j v = go (j.files e.key) refl
  where
    go :
        (f : File SequenceRecord)
        → j.files e.key ≡ f
        → IsLoading (load_object_sequence e j).1 × Grows j (load_object_sequence e j).1
    go absent same =
        rw (same, load_object_sequence)
          (ground (arith, v, allocate-IsLoading e j same v, allocate-Grows e j v.live))
    go invalid same = rw (same, load_object_sequence) (ground (arith, v))
    go (present r) same =
        rw (same, load_object_sequence) (ground (arith, v, read-IsLoading e.key r j same v))

load_next-IsLoading :
    (used : List ℕ) (e : Entry) (es : List Entry) (j : Journal)
    → IsLoading (load_object_sequence e j).1 × Grows j (load_object_sequence e j).1
    → (r : Result InsertionError ℕ) → (load_object_sequence e j).0 ≡ r
    → ((q : ℕ)
        → IsLoading (load_each (q ∷ used) es (load_object_sequence e j).1).1
          × Grows
              (load_object_sequence e j).1
              (load_each (q ∷ used) es (load_object_sequence e j).1).1)
    → IsLoading (load_each used (e ∷ es) j).1 × Grows j (load_each used (e ∷ es) j).1
unfolding load_each
load_next-IsLoading used e es j loaded (err x) same rest = rw (same, load_each) loaded
load_next-IsLoading used e es j loaded (ok q) same rest = elim (Bool-cases (contains q used)) [
  | inl again ↦ rw (same, load_each) (rw again loaded)
  | inr new ↦ rw (same, load_each) (rw new ((rest q).0, ground (arith, rest q, loaded)))
]

pub load_each-IsLoading :
    (used : List ℕ) (es : List Entry) (j : Journal)
    → IsLoading j
    → IsLoading (load_each used es j).1 × Grows j (load_each used es j).1
unfolding load_each
load_each-IsLoading used [] j v = (v, (omega arith, omega arith))
load_each-IsLoading used (e ∷ es) j v =
    let loaded = load-IsLoading e j v in
    load_next-IsLoading used e es j loaded (load_object_sequence e j).0 refl
      (λ q. load_each-IsLoading (q ∷ used) es (load_object_sequence e j).1 loaded.0)

-- A process that starts on durable files with the high water `h`.
pub resumed-IsLoading :
    (h : ℕ) (j : Journal)
    → IsDurable j
    → floor_of j.high_water ≡ h
    → IsLoading (record (restarted j) { next_sequence = h })
unfolding restarted
resumed-IsLoading h j v same = record {
  live = record {
    keyed = v.keyed;
    numbered =
        IsNumbering-weaken (floor_of j.high_water) h (numbers j.files) (omega arith) v.numbered;
    remembered = IsNumbering-none h;
    positive = omega (arith, v.positive);
    covered = omega arith;
    close = omega arith;
  };
  agrees = λ k q e. cc;
}

-- What a start leaves: files for another start, with a high water no lower; and when it returned, a journal in use
-- whose next number is no lower than the high water was.
abbrev pub IsStarted : Journal → Result InsertionError (Unit {0}) × Journal → Type 0
IsStarted j (r, j') =
    IsDurable j'
    × (floor_of j.high_water ≤ floor_of j'.high_water)
    × (is_ok r ≡ true → IsLive j' × (floor_of j.high_water ≤ j'.next_sequence))

loaded-IsStarted :
    (h : ℕ) (es : List Entry) (j : Journal)
    → IsDurable j
    → floor_of j.high_water ≡ h
    → IsStarted j (load_each [] es (record (restarted j) { next_sequence = h }))
loaded-IsStarted h es j v same =
    let (w, g) = load_each-IsLoading [] es _ (resumed-IsLoading h j v same) in
    (IsLive-IsDurable _ w.live, ground (arith, same, g), λ e. (w.live, ground (arith, same, g)))

-- The same files under a high water that says what the absence of one meant.
pub first-IsDurable :
    (j : Journal)
    → IsDurable j
    → j.high_water ≡ absent
    → IsDurable (record j { high_water = present 1 })
first-IsDurable j v same = record {
  keyed = v.keyed;
  numbered = subst (λ f. IsNumbering (floor_of f) (numbers j.files)) same v.numbered;
  positive = omega arith;
}

restarted-IsDurable : (j : Journal) → IsDurable j → IsDurable (restarted j)
unfolding restarted
restarted-IsDurable j v = record { keyed = v.keyed; numbered = v.numbered; positive = v.positive }

pub initialize-IsStarted :
    (w : Write) (es : List Entry) (j : Journal)
    → IsDurable j
    → IsStarted j (initialize w es (restarted j))
unfolding initialize write_high_water restarted
initialize-IsStarted w es j v = go j.high_water refl
  where
    go : (f : File ℕ) → j.high_water ≡ f → IsStarted j (initialize w es (restarted j))
    go absent same =
        let first = first-IsDurable j v same in
        rw (same, initialize)
          (ground (arith, same, first, restarted-IsDurable j v, loaded-IsStarted 1 es _ first refl))
    go invalid same = rw (same, initialize) (ground (arith, restarted-IsDurable j v))
    go (present h) same =
        rw (same, initialize)
          (ground
            (arith, same, restarted-IsDurable j v, loaded-IsStarted h es j v (ap floor_of same)))
