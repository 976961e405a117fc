-- ===== src/Storage/Prune/Kept.antt =====
-- Which objects a prune keeps.
use nplg_dspace_mcp.Prelude.{
  ℕ, ◌+◌, ◌-◌, ◌≤◌, ◌≡◌, ◌⊎◌, inl, inr, refl, sym, ap, ◌∙◌, subst, true, false, List, [], ◌∷◌,
  arith, ==_iff, if◌then◌else◌, length, count_if, one_if, Bool-cases,
}
use nplg_dspace_mcp.Storage.Prune.{
  StoredObject, same, precedes, insert_sorted, sorted, remove, Leases, WorkingSet, total_size,
  prune_pressure, is_expired, is_leased, Pruned, is_deleted, visit, visit_each, prune_unleased,
}

-- How often an object stands in a list.
abbrev pub times : StoredObject → List StoredObject → ℕ
times o objects = count_if (same o) objects

pub same→eq : (a b : StoredObject) → same a b ≡ true → a ≡ b
same→eq a b e = grind (
  arith,
  ==_iff a.key b.key,
  ==_iff a.size b.size,
  ==_iff a.inodes b.inodes,
  ==_iff a.modified_ns b.modified_ns,
  ==_iff a.insertion_sequence b.insertion_sequence,
)

pub same_refl : (a : StoredObject) → same a a ≡ true
same_refl a = ground arith

times-insert_sorted :
    (x o : StoredObject) (xs : List StoredObject)
    → times x (insert_sorted o xs) ≡ one_if (same x o) + times x xs
unfolding insert_sorted
times-insert_sorted x o [] = refl
times-insert_sorted x o (y ∷ ys) = elim (Bool-cases (precedes o y)) [
  | inl before ↦ rw before refl
  | inr beyond ↦ rw beyond (omega (arith, times-insert_sorted x o ys))
]

-- Sorting keeps how often each object stands in the list.
pub times-sorted : (x : StoredObject) (xs : List StoredObject) → times x (sorted xs) ≡ times x xs
unfolding sorted
times-sorted x [] = refl
times-sorted x (y ∷ ys) =
    times-insert_sorted x y (sorted ys) ∙ ap (λ n. one_if (same x y) + n) (times-sorted x ys)

pub times-remove :
    (x o : StoredObject) (xs : List StoredObject)
    → times x (remove o xs) ≡ times x xs - one_if (same x o)
unfolding remove
times-remove x o [] = omega arith
times-remove x o (y ∷ ys) = elim (Bool-cases (same o y)) [
  | inl found ↦ rw found (
      subst (λ z. times x ys ≡ one_if (same x y) + times x ys - one_if (same x z))
        (sym (same→eq o y found)) (omega arith))
  | inr other ↦ elim (Bool-cases (same x o)) [
    | inr differs ↦ rw (other, differs) (omega (arith, times-remove x o ys, ap one_if differs))
    | inl equal ↦
        let apart : same x y ≡ false =
          subst (λ z. same z y ≡ false) (sym (same→eq x o equal)) other in
        rw (other, equal) (omega (arith, times-remove x o ys, ap one_if equal, ap one_if apart))
  ]
]

total_size-remove :
    (o : StoredObject) (xs : List StoredObject) → total_size (remove o xs) ≤ total_size xs
unfolding remove
total_size-remove o [] = omega arith
total_size-remove o (y ∷ ys) = ground (arith, total_size-remove o ys)

length-remove : (o : StoredObject) (xs : List StoredObject) → length (remove o xs) ≤ length xs
unfolding remove
length-remove o [] = omega arith
length-remove o (y ∷ ys) = ground (arith, length-remove o ys)

-- Pressure that remains after a removal was there before it.
remove-pressure :
    (w : WorkingSet) (o : StoredObject) (xs : List StoredObject)
    → prune_pressure w (remove o xs) ≡ true
    → prune_pressure w xs ≡ true
unfolding prune_pressure
remove-pressure w o xs e = ground (arith, total_size-remove o xs, length-remove o xs)

visit-pressure :
    (w : WorkingSet) (leases : Leases) (o : StoredObject) (p : Pruned)
    → prune_pressure w (visit w leases o p).objects ≡ true
    → prune_pressure w p.objects ≡ true
unfolding visit
visit-pressure w leases o p e = ground (arith, remove-pressure w o p.objects)

visit_each-pressure :
    (w : WorkingSet) (leases : Leases) (os : List StoredObject) (p : Pruned)
    → prune_pressure w (visit_each w leases os p).objects ≡ true
    → prune_pressure w p.objects ≡ true
unfolding visit_each
visit_each-pressure w leases [] p e = e
visit_each-pressure w leases (o ∷ os) p e =
    visit-pressure w leases o p (visit_each-pressure w leases os (visit w leases o p) e)

-- A round deletes its candidate once, or nothing.
visit-times :
    (w : WorkingSet) (leases : Leases) (x o : StoredObject) (p : Pruned)
    → times x (visit w leases o p).objects
      ≡ times x p.objects - (if is_deleted w leases o p.objects then one_if (same x o) else 0)
unfolding visit
visit-times w leases x o p = ground (arith, times-remove x o p.objects)

visit-spares :
    (w : WorkingSet) (leases : Leases) (x o : StoredObject) (p : Pruned)
    → is_deleted w leases x p.objects ≡ false
    → times x (visit w leases o p).objects ≡ times x p.objects
visit-spares w leases x o p e = elim (Bool-cases (same x o)) [
  | inr differs ↦ ground (arith, visit-times w leases x o p)
  | inl equal ↦
      let kept = subst (λ z. is_deleted w leases z p.objects ≡ false) (same→eq x o equal) e in
      ground (arith, visit-times w leases x o p)
]

-- A leased object stays, and without pressure so does one that has not expired.
spared :
    (w : WorkingSet) (leases : Leases) (x : StoredObject) (objects : List StoredObject)
    → (is_leased leases x ≡ true) ⊎ ((is_expired w x ≡ false) × (prune_pressure w objects ≡ false))
    → is_deleted w leases x objects ≡ false
unfolding is_deleted
spared w leases x objects h = ground arith

visit_each-spares :
    (w : WorkingSet) (leases : Leases) (x : StoredObject) (os : List StoredObject) (p : Pruned)
    → (is_leased leases x ≡ true)
      ⊎ ((is_expired w x ≡ false) × (prune_pressure w p.objects ≡ false))
    → times x (visit_each w leases os p).objects ≡ times x p.objects
unfolding visit_each
visit_each-spares w leases x [] p h = refl
visit_each-spares w leases x (o ∷ os) p h =
    let rest =
      visit_each-spares w leases x os (visit w leases o p)
        (ground (arith, visit-pressure w leases o p)) in
    rest ∙ visit-spares w leases x o p (spared w leases x p.objects h)

-- A prune deletes no leased object and, without pressure on the store, none that has not expired: each such object
-- stays as often as it stood before.
pub prune_unleased-spares :
    (w : WorkingSet) (leases : Leases) (x : StoredObject) (objects : List StoredObject)
    → (is_leased leases x ≡ true) ⊎ ((is_expired w x ≡ false) × (prune_pressure w objects ≡ false))
    → times x (prune_unleased w leases objects).objects ≡ times x objects
unfolding prune_unleased
prune_unleased-spares w leases x objects h = visit_each-spares w leases x (sorted objects) _ h

visit-takes :
    (w : WorkingSet) (leases : Leases) (x o : StoredObject) (p : Pruned)
    → is_deleted w leases x p.objects ≡ true
    → times x (visit w leases o p).objects ≡ times x p.objects - one_if (same x o)
visit-takes w leases x o p e = elim (Bool-cases (same x o)) [
  | inr differs ↦ ground (arith, visit-times w leases x o p)
  | inl equal ↦
      let taken = subst (λ z. is_deleted w leases z p.objects ≡ true) (same→eq x o equal) e in
      ground (arith, visit-times w leases x o p)
]

taken :
    (w : WorkingSet) (leases : Leases) (x : StoredObject) (objects : List StoredObject)
    → is_leased leases x ≡ false
    → (prune_pressure w objects ≡ true) ⊎ (is_expired w x ≡ true)
    → is_deleted w leases x objects ≡ true
unfolding is_deleted
taken w leases x objects free h = ground arith

visit_each-exhausts :
    (w : WorkingSet) (leases : Leases) (x : StoredObject) (os : List StoredObject) (p : Pruned)
    → is_leased leases x ≡ false
    → (prune_pressure w (visit_each w leases os p).objects ≡ true) ⊎ (is_expired w x ≡ true)
    → times x (visit_each w leases os p).objects ≡ times x p.objects - times x os
unfolding visit_each
visit_each-exhausts w leases x [] p free h = omega arith
visit_each-exhausts w leases x (o ∷ os) p free h =
    let rest = visit_each-exhausts w leases x os (visit w leases o p) free h in
    let pressed = visit_each-pressure w leases (o ∷ os) p in
    let step =
      visit-takes w leases x o p (taken w leases x p.objects free (ground (arith, pressed))) in
    omega (arith, rest, step)

-- When a prune leaves the store under pressure, no unleased object remains; and no unleased object remains that
-- the working set counts as expired.
pub prune_unleased-exhausts :
    (w : WorkingSet) (leases : Leases) (x : StoredObject) (objects : List StoredObject)
    → is_leased leases x ≡ false
    → (prune_pressure w (prune_unleased w leases objects).objects ≡ true) ⊎ (is_expired w x ≡ true)
    → times x (prune_unleased w leases objects).objects ≡ 0
unfolding prune_unleased
prune_unleased-exhausts w leases x objects free h =
    omega (arith, visit_each-exhausts w leases x (sorted objects) _ free h, times-sorted x objects)
