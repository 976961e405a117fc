-- ===== src/Storage/Publication/Accounts.antt =====
-- The reserved totals of the store are the sums over its registered reservations.
use nplg_dspace_mcp.Prelude.{
  ℕ, ◌+◌, ◌-◌, ◌≡◌, ◌≢◌, inl, inr, sym, subst, refl, true, false, some, [], ◌∷◌, ◌++◌, arith,
  if◌then◌else◌, get_elem?, set, ok, All, All-set, All-get, All-append, sum_by, sum_by-set,
  sum_by-append, Bool-cases,
}
use nplg_dspace_mcp.Storage.Lifecycle.{Policy, PublicationBlocker, close_admission}
use nplg_dspace_mcp.Storage.Publication.{
  Reservation, Store, Observation, are_publication_maxima, reserve_publication, deny, admitted,
  activate, release_reservation, commit_locked,
}

-- What a reservation counts for: what it asks for while it is registered.
abbrev pub counted : (Reservation → ℕ) → Reservation → ℕ
counted size r = if r.registered then size r else 0

-- A registered reservation is active, and a closed one is not.
abbrev pub IsConsistent : Reservation → Type 0
IsConsistent r = (r.registered ≡ r.active) × (r.closed ≡ true → r.active ≡ false)

pub record IsExact (s : Store) : Type 0 where
  pub bytes : s.publication_reserved_bytes ≡ sum_by (counted (λ r. r.reserved_bytes)) s.reservations
  pub objects :
      s.publication_reserved_objects ≡ sum_by (counted (λ r. r.reserved_objects)) s.reservations
  pub inodes :
      s.publication_reserved_inodes ≡ sum_by (counted (λ r. r.reserved_inodes)) s.reservations
  pub consistent : All IsConsistent s.reservations

-- The store but for its latch.
abbrev pub Unchanged : Store → Store → Type 0
Unchanged s s' = s' ≡ record s { latch = s'.latch }

pub deny-Unchanged : (b : PublicationBlocker) (s : Store) → Unchanged s (deny b s).1
unfolding deny close_admission
deny-Unchanged b s = ground arith

pub deny-errs : (b : PublicationBlocker) (s : Store) → (deny b s).0 ≢ ok tt
unfolding deny close_admission
deny-errs b s = ground arith

kept : (s s' : Store) → IsExact s → Unchanged s s' → IsExact s'
kept s s' v e =
    subst IsExact (sym e) (record {
      bytes = v.bytes;
      objects = v.objects;
      inodes = v.inodes;
      consistent = v.consistent;
    })

added :
    (s : Store) (r : Reservation)
    → IsExact s
    → r.registered ≡ false
    → IsConsistent r
    → IsExact (record s { reservations = s.reservations ++ r ∷ [] })
added s r v e c = record {
  bytes = rw sum_by-append (omega (arith, v.bytes, nothing (λ x. x.reserved_bytes)));
  objects = rw sum_by-append (omega (arith, v.objects, nothing (λ x. x.reserved_objects)));
  inodes = rw sum_by-append (omega (arith, v.inodes, nothing (λ x. x.reserved_inodes)));
  consistent = All-append IsConsistent s.reservations (r ∷ []) v.consistent (c, tt);
}
  where
    nothing : (size : Reservation → ℕ) → counted size r ≡ 0
    nothing size = rw e refl

pub reserve_publication-IsExact :
    (policy : Policy) (bytes objects inodes : ℕ) (s : Store)
    → IsExact s
    → IsExact (reserve_publication policy bytes objects inodes s).1
unfolding reserve_publication
reserve_publication-IsExact policy bytes objects inodes s v =
    elim (Bool-cases (are_publication_maxima bytes objects inodes s)) [
      | inl within ↦ rw within (added s _ v refl (refl, λ e. refl))
      | inr beyond ↦ rw beyond v
    ]

registered :
    (s : Store) (place : ℕ) (r r' : Reservation)
    → IsExact s
    → get_elem? s.reservations place ≡ some r
    → r.active ≡ false
    → (r'.registered ≡ true) × (r'.active ≡ true) × (r'.closed ≡ false)
    → (r'.reserved_bytes ≡ r.reserved_bytes)
      × (r'.reserved_objects ≡ r.reserved_objects)
      × (r'.reserved_inodes ≡ r.reserved_inodes)
    → IsExact (record s {
      publication_reserved_bytes = s.publication_reserved_bytes + r.reserved_bytes;
      publication_reserved_objects = s.publication_reserved_objects + r.reserved_objects;
      publication_reserved_inodes = s.publication_reserved_inodes + r.reserved_inodes;
      reservations = set s.reservations place r';
    })
registered s place r r' v e idle live same =
    let c = All-get IsConsistent s.reservations place r v.consistent e in
    let unregistered : r.registered ≡ false = cc in
    let change =
      λ (size : Reservation → ℕ). sum_by-set (counted size) s.reservations place r r' e in
    record {
      bytes = ground (arith, v.bytes, change (λ x. x.reserved_bytes));
      objects = ground (arith, v.objects, change (λ x. x.reserved_objects));
      inodes = ground (arith, v.inodes, change (λ x. x.reserved_inodes));
      consistent =
          All-set IsConsistent s.reservations place r' v.consistent (ground arith, ground arith);
    }

released :
    (s : Store) (place : ℕ) (r r' : Reservation)
    → IsExact s
    → get_elem? s.reservations place ≡ some r
    → r.registered ≡ true
    → (r'.registered ≡ false) × (r'.active ≡ false)
    → IsExact (record s {
      publication_reserved_bytes = s.publication_reserved_bytes - r.reserved_bytes;
      publication_reserved_objects = s.publication_reserved_objects - r.reserved_objects;
      publication_reserved_inodes = s.publication_reserved_inodes - r.reserved_inodes;
      reservations = set s.reservations place r';
    })
released s place r r' v e live idle =
    let change =
      λ (size : Reservation → ℕ). sum_by-set (counted size) s.reservations place r r' e in
    record {
      bytes = ground (arith, v.bytes, change (λ x. x.reserved_bytes));
      objects = ground (arith, v.objects, change (λ x. x.reserved_objects));
      inodes = ground (arith, v.inodes, change (λ x. x.reserved_inodes));
      consistent = All-set IsConsistent s.reservations place r' v.consistent (cc, λ _. idle.1);
    }

pub release_reservation-IsExact :
    (place : ℕ) (r : Reservation) (s : Store)
    → IsExact s
    → get_elem? s.reservations place ≡ some r
    → IsExact (release_reservation place r s).1
unfolding release_reservation
release_reservation-IsExact place r s v e = elim (Bool-cases r.registered) [
  | inl live ↦ rw live (released s place r _ v e live (refl, refl))
  | inr idle ↦ rw idle v
]

admitted-IsExact :
    (place : ℕ) (r : Reservation) (seen : Observation) (s : Store)
    → IsExact s
    → get_elem? s.reservations place ≡ some r
    → r.active ≡ false
    → r.closed ≡ false
    → IsExact (admitted place r seen s).1
unfolding admitted
admitted-IsExact place r seen s v e idle live =
    registered s place r _ v e idle (refl, refl, live) (refl, refl, refl)

pub activate-IsExact :
    (place : ℕ) (r : Reservation) (seen : Observation) (s : Store)
    → IsExact s
    → get_elem? s.reservations place ≡ some r
    → IsExact (activate place r seen s).1
unfolding activate
activate-IsExact place r seen s v e = grind (arith, admitted-IsExact, deny-Unchanged, kept)

pub commit_locked-IsExact :
    (place : ℕ) (r : Reservation) (bytes objects inodes : ℕ) (seen : Observation) (s : Store)
    → IsExact s
    → get_elem? s.reservations place ≡ some r
    → IsExact (commit_locked place r bytes objects inodes seen s).1
unfolding commit_locked
commit_locked-IsExact place r bytes objects inodes seen s v e =
    grind (arith, release_reservation-IsExact, deny-Unchanged, kept)
