-- ===== src/Storage/Insertion/Restored.antt =====
-- A start on durable files, whose writes succeed, gives every object back the number that it had.
use nplg_dspace_mcp.Prelude.{
  ℕ, ◌+◌, ◌≤◌, ◌<◌, ◌≡◌, ◌≢◌, ◌==◌, true, false, Option, none, some, List, [], ◌∷◌, arith,
  Bool-cases, inl, inr, refl, Result, ok, length, All, sym, ◌∙◌, ap, subst,
}
use nplg_dspace_mcp.Storage.Insertion.{
  File, absent, invalid, present, SequenceRecord, written, Entry, Journal, write_high_water,
  write_sequence, allocate, load_object_sequence, load_each, contains, names, has_duplicate,
  is_sorted, any_exists, max_filesystem_count, initialize, restarted, InsertionError,
}
use nplg_dspace_mcp.Storage.Insertion.Numbering.{numbers, number_of, IsOf}
use nplg_dspace_mcp.Storage.Insertion.Durable.{floor_of, IsDurable}
use nplg_dspace_mcp.Storage.Insertion.Loading.{
  IsLoading, load-IsLoading, resumed-IsLoading, first-IsDurable,
}

-- An object's path is its directory and its writes return.
abbrev pub IsWorking : Entry → Type 0
IsWorking e =
    (e.is_valid_path ≡ true) × (e.high_water_write ≡ written) × (e.sequence_write ≡ written)

-- A key's number after a start: the one of its file, if it had one.
abbrev pub IsRestored : Option ℕ → Option ℕ → Type 0
IsRestored (some q) now = now ≡ some q
IsRestored none now = (q : ℕ) × (now ≡ some q)

-- One object is loaded.
record IsLoaded (e : Entry) (j : Journal) (q : ℕ) (r : Result InsertionError ℕ × Journal)
    : Type 0 where
  done : r.0 ≡ ok q
  remembered : r.1.sequences e.key ≡ some q
  filed : numbers r.1.files e.key ≡ some q
  restored : IsRestored (numbers j.files e.key) (some q)
  others : (i : ℕ) → i ≢ e.key → (r.1.files i ≡ j.files i) × (r.1.sequences i ≡ j.sequences i)
  spent : r.1.next_sequence ≤ j.next_sequence + 1

load-IsLoaded :
    (e : Entry) (j : Journal)
    → IsLoading j
    → IsWorking e
    → j.next_sequence < max_filesystem_count
    → (q : ℕ) × IsLoaded e j q (load_object_sequence e j)
unfolding load_object_sequence allocate write_high_water write_sequence
load-IsLoaded e j v (path, high, low) room = go (j.files e.key) refl
  where
    go :
        (f : File SequenceRecord)
        → j.files e.key ≡ f
        → (q : ℕ) × IsLoaded e j q (load_object_sequence e j)
    go absent same = (
      j.next_sequence,
      record {
        done = ground (arith, same, path, high, low, room);
        remembered = ground (arith, same, path, high, low, room);
        filed = ground (arith, same, path, high, low, room);
        restored =
            subst (λ f. IsRestored (number_of f) (some j.next_sequence)) (sym same)
              (j.next_sequence, refl);
        others = λ i ne. ground (arith, same, path, high, low, room, ne);
        spent = ground (arith, same, path, high, low, room);
      },
    )
    go invalid same = absurd (subst (IsOf e.key) same (v.live.keyed e.key))
    go (present r) same =
        let mine : r.object_key ≡ e.key = subst (IsOf e.key) same (v.live.keyed e.key) in
        let small = (v.live.numbered.bounded e.key r.sequence (ap number_of same)).1 in
        (
          r.sequence,
          record {
            done = ground (arith, same, path, mine, small);
            remembered = ground (arith, same, path, mine, small);
            filed = ground (arith, same, path, mine, small);
            restored = subst (λ f. IsRestored (number_of f) (some r.sequence)) (sym same) refl;
            others = λ i ne. ground (arith, same, path, mine, small, ne);
            spent = ground (arith, same, path, mine, small);
          },
        )

-- All objects are loaded.
record AreLoaded (es : List Entry) (j : Journal) (r : Result InsertionError (Unit {0}) × Journal)
    : Type 0 where
  done : r.0 ≡ ok tt
  others : (i : ℕ) → names i es ≡ false → r.1.sequences i ≡ j.sequences i
  each : (i : ℕ) → names i es ≡ true → IsRestored (numbers j.files i) (r.1.sequences i)

-- The numbers used so far belong to objects that do not come again.
Uses : List ℕ → List Entry → Journal → Type 0
Uses used es j =
    (u : ℕ) → contains u used ≡ true → (k : ℕ) × (numbers j.files k ≡ some u) × (names k es ≡ false)

differs : (e : Entry) (es : List Entry) (k : ℕ) → names k (e ∷ es) ≡ false → k ≢ e.key
unfolding names
differs e es k h same = ground arith

-- The number of the first object is new, and is used from then on.
loaded-new :
    (used : List ℕ) (e : Entry) (es : List Entry) (j : Journal) (q : ℕ)
    → IsLoading j
    → IsLoaded e j q (load_object_sequence e j)
    → Uses used (e ∷ es) j
    → contains q used ≡ false
unfolding Uses
loaded-new used e es j q v l uses = elim (Bool-cases (contains q used)) [
  | inr new ↦ new
  | inl again ↦
      let (k, has, away) = uses q again in
      let ne = differs e es k away in
      let has' = ap number_of (l.others k ne).0 ∙ has in
      absurd (ne ((load-IsLoading e j v).0.live.numbered.distinct k e.key q has' l.filed))
]

loaded-Uses :
    (used : List ℕ) (e : Entry) (es : List Entry) (j : Journal) (q : ℕ)
    → IsLoaded e j q (load_object_sequence e j)
    → names e.key es ≡ false
    → Uses used (e ∷ es) j
    → Uses (q ∷ used) es (load_object_sequence e j).1
unfolding Uses contains
loaded-Uses used e es j q l once uses u h = elim (Bool-cases (q == u)) [
  | inl same ↦ (e.key, ground (arith, same, l.filed), once)
  | inr other ↦
      let (k, has, away) = uses u (ground (arith, h, other)) in
      (
        k,
        ap number_of (l.others k (differs e es k away)).0 ∙ has,
        unfold names in ground (arith, away),
      )
]

first-AreLoaded :
    (used : List ℕ) (e : Entry) (es : List Entry) (j : Journal) (q : ℕ)
    → IsLoaded e j q (load_object_sequence e j)
    → contains q used ≡ false
    → names e.key es ≡ false
    → AreLoaded es
        (load_object_sequence e j).1
        (load_each (q ∷ used) es (load_object_sequence e j).1)
    → AreLoaded (e ∷ es) j (load_each used (e ∷ es) j)
unfolding load_each
first-AreLoaded used e es j q l new once rest =
    rw (l.done, load_each)
      (rw new (record {
        done = rest.done;
        others = λ i away.
            rest.others i (unfold names in ground (arith, away))
            ∙ (l.others i (differs e es i away)).1;
        each = λ i among. elim (Bool-cases (names i es)) [
          | inl later ↦
              let ne : i ≢ e.key = λ same. ground (arith, once, later, same) in
              subst (λ f. IsRestored (number_of f) (left.sequences i)) (l.others i ne).0
                (rest.each i later)
          | inr away ↦
              let same : e.key ≡ i = unfold names in ground (arith, among, away) in
              let kept : left.sequences i ≡ some q =
                rest.others i away
                ∙ sym (ap (load_object_sequence e j).1.sequences same)
                ∙ l.remembered in
              subst (λ k. IsRestored (numbers j.files k) (left.sequences i)) same
                (subst (IsRestored (numbers j.files e.key)) (sym kept) l.restored)
        ];
      }))
  where
    left : Journal
    left = (load_each (q ∷ used) es (load_object_sequence e j).1).1

load_each-AreLoaded :
    (used : List ℕ) (es : List Entry) (j : Journal)
    → IsLoading j
    → All IsWorking es
    → j.next_sequence + length es ≤ max_filesystem_count
    → has_duplicate es ≡ false
    → Uses used es j
    → AreLoaded es j (load_each used es j)
unfolding load_each has_duplicate names
load_each-AreLoaded used [] j v works room once uses = record {
  done = refl;
  others = λ i away. refl;
  each = λ i among. ground arith;
}
load_each-AreLoaded used (e ∷ es) j v (work, works) room once uses =
    let (q, l) = load-IsLoaded e j v work (omega arith) in
    let new = loaded-new used e es j q v l uses in
    let first : names e.key es ≡ false = ground (arith, once) in
    first-AreLoaded used e es j q l new first (
      load_each-AreLoaded (q ∷ used) es (load_object_sequence e j).1 (load-IsLoading e j v).0 works
        (omega (arith, l.spent, room)) (ground (arith, once))
        (loaded-Uses used e es j q l first uses))

-- Without a high water there is no sequence file.
no_file : (k : ℕ) (j : Journal) → IsDurable j → j.high_water ≡ absent → j.files k ≡ absent
no_file k j v none_yet = go (j.files k) refl
  where
    go : (f : File SequenceRecord) → j.files k ≡ f → j.files k ≡ absent
    go absent same = same
    go invalid same = absurd (subst (IsOf k) same (v.keyed k))
    go (present r) same =
        let small = v.numbered.bounded k r.sequence (ap number_of same) in
        ground (arith, small, none_yet)

no_files :
    (es : List Entry) (j : Journal)
    → IsDurable j
    → j.high_water ≡ absent
    → any_exists j.files es ≡ false
unfolding any_exists
no_files [] j v none_yet = refl
no_files (e ∷ es) j v none_yet = rw (no_file e.key j v none_yet) (no_files es j v none_yet)

resumed-AreLoaded :
    (es : List Entry) (h : ℕ) (j : Journal)
    → IsDurable j
    → floor_of j.high_water ≡ h
    → All IsWorking es
    → h + length es ≤ max_filesystem_count
    → has_duplicate es ≡ false
    → AreLoaded es
        (record (restarted j) { next_sequence = h })
        (load_each [] es (record (restarted j) { next_sequence = h }))
unfolding Uses contains restarted
resumed-AreLoaded es h j v same works room once =
    load_each-AreLoaded [] es _ (resumed-IsLoading h j v same) works room once
      (λ u none_used. ground arith)

-- A start on durable files completes, when the objects are listed once each and in order, their paths are their
-- directories, the writes return and there is room for the new numbers; then each listed object that had a number
-- in its file has it again, and each other one has some number.
pub initialize-restores :
    (es : List Entry) (j : Journal) (k : ℕ)
    → IsDurable j
    → is_sorted es ≡ true
    → has_duplicate es ≡ false
    → All IsWorking es
    → floor_of j.high_water + length es ≤ max_filesystem_count
    → names k es ≡ true
    → let (r, j') = initialize written es (restarted j) in
      (r ≡ ok tt) × IsRestored (numbers j.files k) (j'.sequences k)
unfolding initialize restarted write_high_water
initialize-restores es j k v order once works room named = go j.high_water refl
  where
    go :
        (f : File ℕ)
        → j.high_water ≡ f
        → ((initialize written es (restarted j)).0 ≡ ok tt)
          × IsRestored (numbers j.files k) ((initialize written es (restarted j)).1.sequences k)
    go absent same =
        let all =
          resumed-AreLoaded es 1 (record j { high_water = present 1 }) (first-IsDurable j v same)
            refl works (ground (arith, same, room)) once in
        rw (order, initialize) (rw (once, same, no_files es j v same) (all.done, all.each k named))
    go invalid same = ground (arith, same, v.positive)
    go (present h) same =
        let all =
          resumed-AreLoaded es h j v (ap floor_of same) works (ground (arith, same, room)) once in
        rw (order, initialize) (rw (once, same) (all.done, all.each k named))
