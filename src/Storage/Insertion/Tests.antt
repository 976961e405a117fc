-- ===== src/Storage/Insertion/Tests.antt =====
-- The insertion order at concrete inputs, and the theorems about it applied there.
use nplg_dspace_mcp.Prelude.{ℕ, ◌<◌, ◌≡◌, true, [], ◌∷◌, arith, refl, inl, ok}
use nplg_dspace_mcp.Storage.Insertion.{
  written, unsynced, Entry, ensure, initialize, restarted, is_sorted, has_duplicate, any_exists,
  load_each, load_object_sequence, contains, names,
}
use nplg_dspace_mcp.Storage.Insertion.Numbering.{numbers}
use nplg_dspace_mcp.Storage.Insertion.Restarts.{
  World, empty_root, ensuring, starting, Reach, here, next, IsKept, Reach-IsKept, ensure-increases,
}
use nplg_dspace_mcp.Storage.Insertion.Restored.{IsRestored, initialize-restores}

abbrev working : ℕ → Entry
working k = record {
  key = k;
  is_valid_path = true;
  high_water_write = written;
  sequence_write = written;
}

-- the sequence file is replaced, but its directory is not synced
abbrev unsure : Entry
unsure = record (working 7) { sequence_write = unsynced }

-- A first process numbers an object, and fails while it numbers another.
abbrev crashed : World
crashed = record {
  journal =
      (ensure unsure
        (ensure (working 4) (initialize written [] (restarted empty_root.journal)).1).1).1;
  ready = true;
}

first_life : Reach empty_root crashed
unfolding initialize is_sorted has_duplicate restarted ensure any_exists load_each
    load_object_sequence contains
first_life =
    next (next (next here (starting written [])) (ensuring (working 4) refl)) (ensuring unsure refl)

-- A second process starts on its files.
abbrev resumed : World
resumed = record {
  journal = (initialize written (working 4 ∷ working 7 ∷ []) (restarted crashed.journal)).1;
  ready = true;
}

second_life : Reach crashed resumed
unfolding initialize is_sorted has_duplicate restarted ensure any_exists load_each
    load_object_sequence contains
second_life = next here (starting written (working 4 ∷ working 7 ∷ []))

Reach-IsKept_example : IsKept crashed
Reach-IsKept_example = Reach-IsKept first_life

ensure-increases_example : 2 < 3
unfolding initialize is_sorted has_duplicate restarted ensure any_exists load_each
    load_object_sequence contains
ensure-increases_example =
    ensure-increases {v = crashed} {w = resumed} (working 9) 7 2 3 first_life second_life refl refl
      refl (inl refl)

initialize-restores_example :
    ((initialize written (working 4 ∷ working 7 ∷ []) (restarted crashed.journal)).0 ≡ ok tt)
    × IsRestored (numbers crashed.journal.files 7) (resumed.journal.sequences 7)
unfolding initialize names is_sorted has_duplicate restarted ensure any_exists load_each
    load_object_sequence contains
initialize-restores_example =
    initialize-restores (working 4 ∷ working 7 ∷ []) crashed.journal 7
      (Reach-IsKept first_life).durable refl refl ((refl, refl, refl), ((refl, refl, refl), tt))
      (omega arith) refl
