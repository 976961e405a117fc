-- ===== src/Storage/Insertion.antt =====
-- `PersistentInsertionOrder` of src/nplg_mcp/storage_lifecycle.py: each stored object gets the next number of a
-- sequence whose high water is written before the number is used. The directories of the objects are a function
-- from an object's key, by its rank among the keys, to the sequence file in its directory.
pub mod Numbering
pub mod Durable
pub mod Loading
pub mod Restarts
pub mod Restored
mod Tests
use nplg_dspace_mcp.Prelude.{
  ℕ, ◌+◌, Bool, true, false, not, ◌&&◌, ◌||◌, ◌==◌, Option, none, some, List, [], ◌∷◌, leb,
  if◌then◌else◌, Result, ok, err,
}

-- What `_read_private_record` and the validators of a record find.
pub data File (A : Type 0) : Type 0 where
  absent invalid : File A
  present : A → File A

-- `InsertionSequenceRecord`, less its version and digest
pub record SequenceRecord : Type 0 where
  pub object_key : ℕ
  pub sequence : ℕ

-- How `_write_private_record` ends: it returns, it raises before the file is replaced, or after.
pub data Write : Type 0 where
  written failed unsynced : Write

-- An object that a call names: whether its path is the directory of its key, and how the writes of the high water
-- and of its sequence file end, if the call comes to them.
pub record Entry : Type 0 where
  pub key : ℕ
  pub is_valid_path : Bool
  pub high_water_write : Write
  pub sequence_write : Write

-- The files, which outlive the process, and the fields `_next_sequence` and `_sequences`, which do not.
pub record Journal : Type 0 where
  pub high_water : File ℕ
  pub files : ℕ → File SequenceRecord
  pub next_sequence : ℕ
  pub sequences : ℕ → Option ℕ

pub data InsertionError : Type 0 where
  path_mismatch exhausted write_failed state_invalid not_bound not_canonical : InsertionError
  duplicate_keys high_water_missing high_water_invalid not_unique not_initialized : InsertionError

abbrev pub max_filesystem_count : ℕ
max_filesystem_count = 9_223_372_036_854_775_807

abbrev pub update : {A : Type 0} → (ℕ → A) → ℕ → A → ℕ → A
update f k v i = if i == k then v else f i

abbrev pub is_written : Write → Bool
is_written written = true
is_written _ = false

-- the file after a write
abbrev pub file_after : {A : Type 0} → Write → A → File A → File A
file_after written v f = present v
file_after failed v f = f
file_after unsynced v f = present v

-- `_write_high_water`
unfoldable pub write_high_water : Write → ℕ → Journal → Result InsertionError (Unit {0}) × Journal
write_high_water w n j = (
  if is_written w then ok tt else err write_failed,
  record j {
    high_water = file_after w n j.high_water;
    next_sequence = if is_written w then n else j.next_sequence;
  },
)

-- the end of `_allocate`: the sequence file, then the field
unfoldable pub write_sequence : Entry → ℕ → Journal → Result InsertionError ℕ × Journal
write_sequence e q j = (
  if is_written e.sequence_write then ok q else err write_failed,
  record j {
    files =
        update j.files e.key (
          file_after e.sequence_write (record { object_key = e.key; sequence = q })
            (j.files e.key));
    sequences =
        if is_written e.sequence_write then update j.sequences e.key (some q) else j.sequences;
  },
)

allocated :
    Entry → ℕ → Result InsertionError (Unit {0}) × Journal → Result InsertionError ℕ × Journal
unfolding write_sequence
allocated e q (err x, j) = (err x, j)
allocated e q (ok t, j) = write_sequence e q j

-- `_allocate`
unfoldable pub allocate : Entry → Journal → Result InsertionError ℕ × Journal
unfolding allocated write_high_water
allocate e j =
    if not e.is_valid_path
    then (err path_mismatch, j)
    else if leb max_filesystem_count j.next_sequence
    then (err exhausted, j)
    else allocated e j.next_sequence (write_high_water e.high_water_write (j.next_sequence + 1) j)

-- `_load_object_sequence`
unfoldable pub load_object_sequence : Entry → Journal → Result InsertionError ℕ × Journal
unfolding allocate
load_object_sequence e j =
    if not e.is_valid_path then (err path_mismatch, j) else elim (j.files e.key) [
      | absent ↦ allocate e j
      | invalid ↦ (err state_invalid, j)
      | present r ↦
          if not (r.object_key == e.key) || leb j.next_sequence r.sequence
          then (err not_bound, j)
          else (ok r.sequence, record j { sequences = update j.sequences e.key (some r.sequence) })
    ]

unfoldable pub contains : ℕ → List ℕ → Bool
contains q [] = false
contains q (x ∷ xs) = x == q || contains q xs

-- the loop of `initialize` over `used_sequences`
unfoldable pub load_each :
    List ℕ → List Entry → Journal → Result InsertionError (Unit {0}) × Journal
load_each used [] j = (ok tt, j)
load_each used (e ∷ es) j =
    let (r, j') = load_object_sequence e j in
    elim r [
      | err x ↦ (err x, j')
      | ok q ↦ elim (contains q used) [
        | true ↦ (err not_unique, j')
        | false ↦ load_each (q ∷ used) es j'
      ]
    ]

-- the keys are in order
unfoldable pub is_sorted : List Entry → Bool
is_sorted [] = true
is_sorted (e ∷ []) = true
is_sorted (e ∷ f ∷ es) = leb e.key f.key && is_sorted (f ∷ es)

unfoldable pub names : ℕ → List Entry → Bool
names k [] = false
names k (e ∷ es) = e.key == k || names k es

unfoldable pub has_duplicate : List Entry → Bool
unfolding names
has_duplicate [] = false
has_duplicate (e ∷ es) = names e.key es || has_duplicate es

abbrev pub exists : {A : Type 0} → File A → Bool
exists absent = false
exists _ = true

unfoldable pub any_exists : (ℕ → File SequenceRecord) → List Entry → Bool
any_exists files [] = false
any_exists files (e ∷ es) = exists (files e.key) || any_exists files es

started :
    List Entry
    → Result InsertionError (Unit {0}) × Journal
    → Result InsertionError (Unit {0}) × Journal
started es (err x, j) = (err x, j)
started es (ok t, j) = load_each [] es j

-- `initialize`; the write is that of the first high water
unfoldable pub initialize :
    Write → List Entry → Journal → Result InsertionError (Unit {0}) × Journal
unfolding started write_high_water
initialize w es j =
    if not (is_sorted es)
    then (err not_canonical, j)
    else if has_duplicate es
    then (err duplicate_keys, j)
    else elim j.high_water [
      | absent ↦
          if any_exists j.files es
          then (err high_water_missing, j)
          else started es (write_high_water w 1 j)
      | invalid ↦ (err high_water_invalid, j)
      | present h ↦ load_each [] es (record j { next_sequence = h })
    ]

-- `ensure`
unfoldable pub ensure : Entry → Journal → Result InsertionError ℕ × Journal
unfolding allocate
ensure e j =
    if not e.is_valid_path
    then (err path_mismatch, j)
    else elim (j.sequences e.key) [ some q ↦ (ok q, j) | none ↦ allocate e j ]

-- `sequence_for`
unfoldable pub sequence_for : ℕ → Journal → Result InsertionError ℕ
sequence_for k j = elim (j.sequences k) [ some q ↦ ok q | none ↦ err not_initialized ]

-- `remove`
unfoldable pub remove : ℕ → Journal → Journal
remove k j = record j { sequences = update j.sequences k none }

-- `__init__` in a process that starts on the files of another
unfoldable pub restarted : Journal → Journal
restarted j = record j { next_sequence = 1; sequences = λ k. none }
