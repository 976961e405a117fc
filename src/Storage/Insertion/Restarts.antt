-- ===== src/Storage/Insertion/Restarts.antt =====
-- The life of a store's insertion order over any number of processes: objects are published and deleted, writes
-- fail, and a process may end at any time, also in the middle of a call, which then is a call whose next write fails.
use nplg_dspace_mcp.Prelude.{
  ℕ, ◌≤◌, ◌<◌, ◌≡◌, Bool, true, false, none, some, List, arith, inl, inr, Bool-cases, ok, is_ok,
  if◌then◌else◌, ◌⊎◌,
}
use nplg_dspace_mcp.Storage.Insertion.{
  absent, update, Write, Entry, Journal, write_high_water, write_sequence, allocate, initialize,
  restarted, ensure, remove,
}
use nplg_dspace_mcp.Storage.Insertion.Numbering.{
  IsNumbering-none, IsNumbering-drop, numbers, numbers-delete, IsOf-delete,
}
use nplg_dspace_mcp.Storage.Insertion.Durable.{
  floor_of, IsDurable, IsLive, IsLive-IsDurable, allocate-IsLive,
}
use nplg_dspace_mcp.Storage.Insertion.Loading.{initialize-IsStarted, Grows, allocate-Grows}

-- The journal, and whether the process that has it completed its `initialize`.
pub record World : Type 0 where
  pub journal : Journal
  pub ready : Bool

-- a root directory before its first use
abbrev pub empty_root : World
empty_root = record {
  journal = record {
    high_water = absent;
    files = λ k. absent;
    next_sequence = 1;
    sequences = λ k. none;
  };
  ready = false;
}

-- the directory of an object is deleted
abbrev pub deleted : ℕ → Journal → Journal
deleted k j = record j { files = update j.files k absent }

-- A new process.
abbrev pub started : Write → List Entry → Journal → World
started w es j =
    let (r, j') = initialize w es (restarted j) in record { journal = j'; ready = is_ok r }

pub data Step (w : World) : World → Type 0 where
  ensuring : (e : Entry) → w.ready ≡ true → Step w (record w { journal = (ensure e w.journal).1 })
  removing : (k : ℕ) → Step w (record w { journal = remove k w.journal })
  deleting : (k : ℕ) → Step w (record w { journal = deleted k w.journal })
  starting : (write : Write) (es : List Entry) → Step w (started write es w.journal)

pub data Reach (v : World) : World → Type 0 where
  here : Reach v v
  next : {w u : World} → Reach v w → Step w u → Reach v u

-- Below this number lie all that the files and a process in use have.
abbrev pub bound : World → ℕ
bound w = if w.ready then w.journal.next_sequence else floor_of w.journal.high_water

pub record IsKept (w : World) : Type 0 where
  pub durable : IsDurable w.journal
  pub live : w.ready ≡ true → IsLive w.journal

ensure-IsLive :
    (e : Entry) (j : Journal) → IsLive j → IsLive (ensure e j).1 × Grows j (ensure e j).1
unfolding ensure
ensure-IsLive e j v = ground (arith, v, allocate-IsLive e j v, allocate-Grows e j v)

remove-IsLive : (k : ℕ) (j : Journal) → IsLive j → IsLive (remove k j)
unfolding remove
remove-IsLive k j v = record {
  keyed = v.keyed;
  numbered = v.numbered;
  remembered = IsNumbering-drop j.next_sequence k j.sequences v.remembered;
  positive = v.positive;
  covered = v.covered;
  close = v.close;
}

remove-IsDurable : (k : ℕ) (j : Journal) → IsDurable j → IsDurable (remove k j)
unfolding remove
remove-IsDurable k j v = record { keyed = v.keyed; numbered = v.numbered; positive = v.positive }

deleted-IsLive : (k : ℕ) (j : Journal) → IsLive j → IsLive (deleted k j)
deleted-IsLive k j v = record {
  keyed = IsOf-delete k j.files v.keyed;
  numbered = numbers-delete j.next_sequence k j.files v.numbered;
  remembered = v.remembered;
  positive = v.positive;
  covered = v.covered;
  close = v.close;
}

deleted-IsDurable : (k : ℕ) (j : Journal) → IsDurable j → IsDurable (deleted k j)
deleted-IsDurable k j v = record {
  keyed = IsOf-delete k j.files v.keyed;
  numbered = numbers-delete (floor_of j.high_water) k j.files v.numbered;
  positive = v.positive;
}

-- A step keeps what the files and the fields must be, and the bound never falls.
Step-IsKept : {w u : World} → Step w u → IsKept w → IsKept u × (bound w ≤ bound u)
unfolding remove
Step-IsKept {w} (ensuring e ready) v =
    let (live, grows) = ensure-IsLive e w.journal (v.live ready) in
    (record { durable = IsLive-IsDurable _ live; live = λ r. live }, rw ready (omega arith))
Step-IsKept {w} (removing k) v = (
  record {
    durable = remove-IsDurable k w.journal v.durable;
    live = λ r. remove-IsLive k w.journal (v.live r);
  },
  omega arith,
)
Step-IsKept {w} (deleting k) v = (
  record {
    durable = deleted-IsDurable k w.journal v.durable;
    live = λ r. deleted-IsLive k w.journal (v.live r);
  },
  omega arith,
)
Step-IsKept {w} (starting write es) v =
    let (durable, above, live) = initialize-IsStarted write es w.journal v.durable in
    (record { durable = durable; live = λ r. (live r).0 }, ground (arith, above, live, v.live))

empty_root-IsKept : IsKept empty_root
empty_root-IsKept = record {
  durable = record { keyed = λ k. tt; numbered = IsNumbering-none 1; positive = omega arith };
  live = λ r. ground arith;
}

-- Over any life of a root that starts empty, the sequence files are valid and of their keys, no two have the same
-- number, and all are below the high water; and in a process that completed its start the numbers that it
-- remembers are distinct too, and all are below its next one.
pub Reach-IsKept : {w : World} → Reach empty_root w → IsKept w
Reach-IsKept here = empty_root-IsKept
Reach-IsKept (next r step) = (Step-IsKept step (Reach-IsKept r)).0

Reach-bound : {v w : World} → IsKept v → Reach v w → IsKept w × (bound v ≤ bound w)
Reach-bound v here = (v, omega arith)
Reach-bound v (next r step) =
    let (w, below) = Reach-bound v r in
    let (u, above) = Step-IsKept step w in (u, omega (arith, below, above))

-- What has a number in a world: a sequence file, or a process that completed its start.
abbrev pub Has : World → ℕ → ℕ → Type 0
Has w k q =
    (numbers w.journal.files k ≡ some q) ⊎ ((w.ready ≡ true) × (w.journal.sequences k ≡ some q))

Has-bound : (w : World) (k q : ℕ) → IsKept w → Has w k q → q < bound w
Has-bound w k q v (inl e) = elim (Bool-cases w.ready) [
  | inl ready ↦ rw ready ((v.live ready).numbered.bounded k q e).1
  | inr off ↦ rw off (v.durable.numbered.bounded k q e).1
]
Has-bound w k q v (inr (ready, e)) = rw ready ((v.live ready).remembered.bounded k q e).1

-- In any life of a root that starts empty, with whatever failed writes, deletions and restarts in between, a
-- number that a started process allocates for an object without one is above every number that a sequence file or
-- a started process had before.
pub ensure-increases :
    {v w : World} (e : Entry) (k p q : ℕ)
    → Reach empty_root v
    → Reach v w
    → w.ready ≡ true
    → w.journal.sequences e.key ≡ none
    → (ensure e w.journal).0 ≡ ok q
    → Has v k p
    → p < q
unfolding ensure allocate write_high_water write_sequence
ensure-increases {v} {w} e k p q before between ready new done had =
    let kept = Reach-IsKept before in
    let below : bound v ≤ w.journal.next_sequence =
      ground (arith, ready, (Reach-bound kept between).1) in
    let under = Has-bound v k p kept had in
    let same : q ≡ w.journal.next_sequence = ground (arith, new, done) in omega arith
