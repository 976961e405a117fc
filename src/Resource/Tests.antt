-- ===== src/Resource/Tests.antt =====
-- The byte budget at concrete inputs, and the theorems about it applied there.
use nplg_dspace_mcp.Prelude.{◌+◌, ◌≡◌, some, [], ◌∷◌, arith, ok, pos, int}
use mathlib.Core.List.{reverse}
use nplg_dspace_mcp.Resource.{Admission, try_reserve, shrink, close_scope}
use nplg_dspace_mcp.Resource.Budget.{IsExact, live_bytes, AllPositive}
use nplg_dspace_mcp.Resource.Scopes.{held_at, here, next, reserve, resize, close_scope_all}

abbrev empty_budget : Admission
empty_budget = record { capacity_bytes = 60; active_bytes = 0; ledger = [] }

abbrev reserved_once : Admission
unfolding try_reserve
reserved_once = (try_reserve (int (pos 30)) (some []) empty_budget).2

close_scope_all_example :
    ((close_scope (0 ∷ []) (shrink 0 (int (pos 10)) reserved_once).1).0 ≡ ok tt)
    × IsExact (close_scope (0 ∷ []) (shrink 0 (int (pos 10)) reserved_once).1).1
    × ((close_scope (0 ∷ []) (shrink 0 (int (pos 10)) reserved_once).1).1.active_bytes
          + held_at (reverse (0 ∷ [])) (shrink 0 (int (pos 10)) reserved_once).1.ledger
        ≡ (shrink 0 (int (pos 10)) reserved_once).1.active_bytes)
    × ((close_scope (0 ∷ []) (shrink 0 (int (pos 10)) reserved_once).1).1.capacity_bytes
        ≡ (shrink 0 (int (pos 10)) reserved_once).1.capacity_bytes)
unfolding try_reserve live_bytes AllPositive
close_scope_all_example =
    close_scope_all {scope = 0 ∷ []} {a = empty_budget} (omega arith)
      (next (next here (reserve (int (pos 30)))) (resize 0 (int (pos 10))))
