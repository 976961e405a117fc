-- ===== src/Storage/Prune/Freed.antt =====
-- What a prune reports as freed is what it deleted.
use nplg_dspace_mcp.Prelude.{
  ℕ, ◌+◌, ◌≤◌, ◌≡◌, inl, inr, List, [], ◌∷◌, arith, length, one_if, Bool-cases, subst, sym, ap,
  Result, ok, err, Bool, true, false, none, some,
}
use nplg_dspace_mcp.Storage.Lifecycle.{Policy, Latch}
use nplg_dspace_mcp.Storage.Prune.{
  StoredObject, same, sorted, remove, Leases, WorkingSet, total_size, Pruned, visit, visit_each,
  prune_unleased, finish_prune, PruneObservation, PruneError, PruneReport, PruneStore, working_set,
  prune, PruneFault, undisturbed, before_deletions, rescan, recount, report_refused, deletion,
  conclude, delete_and_conclude, delete_until, interrupted, Pruning,
}
use nplg_dspace_mcp.Storage.Prune.Kept.{times, same→eq, same_refl, times-remove, times-sorted}

-- Removing an object that stands in the list takes its size and one object away.
remove-size :
    (o : StoredObject) (xs : List StoredObject)
    → 1 ≤ times o xs
    → (total_size (remove o xs) + o.size ≡ total_size xs) × (length (remove o xs) + 1 ≡ length xs)
unfolding remove
remove-size o [] h = absurd (omega arith)
remove-size o (y ∷ ys) h = elim (Bool-cases (same o y)) [
  | inl found ↦ rw found (
    subst (λ z. total_size ys + z.size ≡ y.size + total_size ys) (sym (same→eq o y found))
        (omega arith),
    omega arith,
  )
  | inr other ↦
      let rest = remove-size o ys (omega (arith, ap one_if other)) in
      rw other (omega (arith, rest.0), omega (arith, rest.1))
]

-- The objects still to be visited are all in the list.
abbrev Covers : List StoredObject → List StoredObject → Type 0
Covers os objects = (x : StoredObject) → times x os ≤ times x objects

-- What is left and what was freed make up what there was.
abbrev pub IsBalanced : ℕ → ℕ → Pruned → Type 0
IsBalanced bytes count p =
    (total_size p.objects + p.freed_bytes ≡ bytes) × (length p.objects + p.freed_objects ≡ count)

visit-IsBalanced :
    (w : WorkingSet) (leases : Leases) (o : StoredObject) (p : Pruned) (bytes count : ℕ)
    → 1 ≤ times o p.objects
    → IsBalanced bytes count p
    → IsBalanced bytes count (visit w leases o p)
unfolding visit
visit-IsBalanced w leases o p bytes count h b = ground (arith, remove-size o p.objects h)

visit-Covers :
    (w : WorkingSet) (leases : Leases) (o : StoredObject) (os : List StoredObject) (p : Pruned)
    → Covers (o ∷ os) p.objects
    → Covers os (visit w leases o p).objects
unfolding visit
visit-Covers w leases o os p c x = ground (arith, c x, times-remove x o p.objects)

visit_each-IsBalanced :
    (w : WorkingSet) (leases : Leases) (os : List StoredObject) (p : Pruned) (bytes count : ℕ)
    → Covers os p.objects
    → IsBalanced bytes count p
    → IsBalanced bytes count (visit_each w leases os p)
unfolding visit_each
visit_each-IsBalanced w leases [] p bytes count c b = b
visit_each-IsBalanced w leases (o ∷ os) p bytes count c b =
    visit_each-IsBalanced w leases os (visit w leases o p) bytes count
      (visit-Covers w leases o os p c)
      (visit-IsBalanced w leases o p bytes count (omega (arith, c o, ap one_if (same_refl o))) b)

prune_unleased-IsBalanced :
    (w : WorkingSet) (leases : Leases) (objects : List StoredObject)
    → IsBalanced (total_size objects) (length objects) (prune_unleased w leases objects)
unfolding prune_unleased
prune_unleased-IsBalanced w leases objects =
    visit_each-IsBalanced w leases (sorted objects) _ (total_size objects) (length objects)
      (λ x. omega (arith, times-sorted x objects)) (omega arith, omega arith)

-- The freed bytes and objects of a report are the difference between the stores.
abbrev pub FreedIs : PruneStore → Result PruneError PruneReport × PruneStore → Type 0
FreedIs s (err e, s') = Unit
FreedIs s (ok report, s') =
    (report.post_stored_bytes + report.freed_bytes ≡ total_size s.objects)
    × (report.post_stored_objects + report.freed_objects ≡ length s.objects)
    × (report.post_stored_bytes ≡ total_size s'.objects)
    × (report.post_stored_objects ≡ length s'.objects)

-- The report is of what was deleted, for the objects that remain.
abbrev IsOf : PruneStore → PruneReport → List StoredObject → Type 0
IsOf s report objects =
    (report.post_stored_bytes + report.freed_bytes ≡ total_size s.objects)
    × (report.post_stored_objects + report.freed_objects ≡ length s.objects)
    × (report.post_stored_bytes ≡ total_size objects)
    × (report.post_stored_objects ≡ length objects)

conclude-FreedIs :
    (fault : PruneFault) (stable : Bool) (p : Pruned) (report : PruneReport) (latch : Latch)
    (s : PruneStore)
    → IsOf s report p.objects
    → FreedIs s (conclude fault stable p (report, latch) s)
unfolding conclude
conclude-FreedIs rescan stable p report latch s f = tt
conclude-FreedIs recount stable p report latch s f = tt
conclude-FreedIs report_refused true p report latch s f = tt
conclude-FreedIs report_refused false p report latch s f = tt
conclude-FreedIs _ true p report latch s f = f
conclude-FreedIs _ false p report latch s f = tt

delete_and_conclude-FreedIs :
    (fault : PruneFault) (w : WorkingSet) (leases : Leases) (stable : Bool) (p : Pruned)
    (report : PruneReport) (latch : Latch) (s : PruneStore)
    → IsOf s report p.objects
    → FreedIs s (delete_and_conclude fault w leases stable p (report, latch) s)
unfolding delete_and_conclude
delete_and_conclude-FreedIs before_deletions w leases stable p report latch s f = tt
delete_and_conclude-FreedIs (deletion k left) w leases stable p report latch s f =
    elim (delete_until w leases k left (sorted s.objects)
        (record { objects = s.objects; freed_bytes = 0; freed_objects = 0 }))
      as (λ o. FreedIs s (elim o as (λ _. Pruning) [
        | some objects ↦ (err interrupted, record s { objects = objects })
        | none ↦ conclude undisturbed stable p (report, latch) s
      ])) [ some objects ↦ tt | none ↦ conclude-FreedIs undisturbed stable p report latch s f ]
delete_and_conclude-FreedIs undisturbed w leases stable p report latch s f =
    conclude-FreedIs undisturbed stable p report latch s f
delete_and_conclude-FreedIs rescan w leases stable p report latch s f =
    conclude-FreedIs rescan stable p report latch s f
delete_and_conclude-FreedIs recount w leases stable p report latch s f =
    conclude-FreedIs recount stable p report latch s f
delete_and_conclude-FreedIs report_refused w leases stable p report latch s f =
    conclude-FreedIs report_refused stable p report latch s f

-- Whenever a prune returns a report, its freed bytes and objects together with the bytes and objects that it says
-- are stored afterwards are those stored before, and those afterwards are what the store then holds.
pub prune-frees :
    (policy : Policy) (seen : PruneObservation) (leases : Leases) (s : PruneStore)
    → FreedIs s (prune policy seen leases s)
unfolding prune finish_prune
prune-frees policy seen leases s =
    let w = working_set policy seen s.objects in
    let p = prune_unleased w leases s.objects in
    let (report, latch) =
      finish_prune policy seen.trusted_clock_observation seen.now_ns leases seen.post_capacity p
        s.latch in
    ground (
      arith,
      delete_and_conclude-FreedIs seen.fault w leases seen.authority_stable_after p report latch s
          (omega (arith, prune_unleased-IsBalanced w leases s.objects)),
    )
