-- ===== src/Storage/Insertion/Durable.antt =====
-- What the journal keeps through failed writes and restarts.
use nplg_dspace_mcp.Prelude.{ℕ, ◌+◌, ◌≤◌, ◌≡◌, arith, refl}
use nplg_dspace_mcp.Storage.Insertion.{
  File, absent, invalid, present, Write, written, failed, unsynced, Entry, Journal,
  write_high_water, write_sequence, allocate,
}
use nplg_dspace_mcp.Storage.Insertion.Numbering.{
  IsNumbering, IsNumbering-weaken, IsNumbering-update, numbers, numbers-update, numbers-keep, IsOf,
  IsOf-update, IsOf-keep,
}

-- The number from which the next process allocates.
abbrev pub floor_of : File ℕ → ℕ
floor_of absent = 1
floor_of invalid = 0
floor_of (present h) = h

-- The files that a process may start on.
pub record IsDurable (j : Journal) : Type 0 where
  pub keyed : (k : ℕ) → IsOf k (j.files k)
  pub numbered : IsNumbering (floor_of j.high_water) (numbers j.files)
  pub positive : 1 ≤ floor_of j.high_water

-- A journal that is in use: the numbers of the files and the fields are below the next one, which the high water
-- covers; it is at most one above, after a write of it that raised.
pub record IsLive (j : Journal) : Type 0 where
  pub keyed : (k : ℕ) → IsOf k (j.files k)
  pub numbered : IsNumbering j.next_sequence (numbers j.files)
  pub remembered : IsNumbering j.next_sequence j.sequences
  pub positive : 1 ≤ j.next_sequence
  pub covered : j.next_sequence ≤ floor_of j.high_water
  pub close : floor_of j.high_water ≤ j.next_sequence + 1

pub IsLive-IsDurable : (j : Journal) → IsLive j → IsDurable j
IsLive-IsDurable j v = record {
  keyed = v.keyed;
  numbered =
      IsNumbering-weaken j.next_sequence (floor_of j.high_water) (numbers j.files) v.covered
        v.numbered;
  positive = ground (arith, v.positive, v.covered);
}

-- The high water covers the number that is about to be used.
record IsClaimed (q : ℕ) (j : Journal) : Type 0 where
  keyed : (k : ℕ) → IsOf k (j.files k)
  numbered : IsNumbering q (numbers j.files)
  remembered : IsNumbering q j.sequences
  positive : 1 ≤ q
  next : j.next_sequence ≡ q + 1
  covered : floor_of j.high_water ≡ q + 1

write_sequence-IsLive :
    (e : Entry) (q : ℕ) (j : Journal) → IsClaimed q j → IsLive (write_sequence e q j).1
unfolding write_sequence
write_sequence-IsLive e q j v = go e.sequence_write refl
  where
    kept : IsNumbering (q + 1) (numbers j.files)
    kept = IsNumbering-weaken q (q + 1) (numbers j.files) (omega arith) v.numbered

    go : (w : Write) → e.sequence_write ≡ w → IsLive (write_sequence e q j).1
    go written same =
        rw (same, v.next)
          (record {
            keyed = IsOf-update e.key q j.files v.keyed;
            numbered = numbers-update q e.key j.files v.positive v.numbered;
            remembered = IsNumbering-update q e.key j.sequences v.positive v.remembered;
            positive = omega arith;
            covered = omega (arith, v.covered);
            close = omega (arith, v.covered);
          })
    go unsynced same =
        rw (same, v.next)
          (record {
            keyed = IsOf-update e.key q j.files v.keyed;
            numbered = numbers-update q e.key j.files v.positive v.numbered;
            remembered = IsNumbering-weaken q (q + 1) j.sequences (omega arith) v.remembered;
            positive = omega arith;
            covered = omega (arith, v.covered);
            close = omega (arith, v.covered);
          })
    go failed same =
        rw (same, v.next)
          (record {
            keyed = IsOf-keep e.key j.files v.keyed;
            numbered = numbers-keep (q + 1) e.key j.files kept;
            remembered = IsNumbering-weaken q (q + 1) j.sequences (omega arith) v.remembered;
            positive = omega arith;
            covered = omega (arith, v.covered);
            close = omega (arith, v.covered);
          })

-- The three ends of the write of the high water: as before, as before under a higher one, or claimed.
pub allocate-IsLive : (e : Entry) (j : Journal) → IsLive j → IsLive (allocate e j).1
unfolding allocate write_high_water
allocate-IsLive e j v = go e.high_water_write refl
  where
    claimed : IsClaimed j.next_sequence (write_high_water written (j.next_sequence + 1) j).1
    claimed = record {
      keyed = v.keyed;
      numbered = v.numbered;
      remembered = v.remembered;
      positive = v.positive;
      next = refl;
      covered = refl;
    }

    above : IsLive (write_high_water unsynced (j.next_sequence + 1) j).1
    above = record {
      keyed = v.keyed;
      numbered = v.numbered;
      remembered = v.remembered;
      positive = v.positive;
      covered = omega arith;
      close = omega arith;
    }

    go : (w : Write) → e.high_water_write ≡ w → IsLive (allocate e j).1
    go written same =
        rw (same, allocate) (ground (arith, v, write_sequence-IsLive e j.next_sequence _ claimed))
    go failed same = rw (same, allocate) (ground (arith, v))
    go unsynced same = rw (same, allocate) (ground (arith, v, above))
