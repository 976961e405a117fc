-- ===== src/Http/Flight/Depart.antt =====
-- The release in the `finally` of `_admitted_call` on balanced gates.
use Prim.Native.String.{String}
use text.Mathlib.TextEquality.{eq_iff}
use nplg_dspace_mcp.Prelude.{
  suc, ◌-◌, ◌+◌, ◌<◌, ◌≡◌, refl, ◌∙◌, Bool, List, [], ◌∷◌, ◌++◌, Option, none, some, Option-cases,
  inl, inr, length, count_if, one_if, Result, ok, err, arith,
}
use nplg_dspace_mcp.Prelude.Dict.{Dict, lookup, insert, lookup-insert}
use nplg_dspace_mcp.Admission.Gate
use nplg_dspace_mcp.Admission.Gate.{AdmissionGate}
use nplg_dspace_mcp.Admission.Principals
use nplg_dspace_mcp.Admission.Principals.{PrincipalError, try_acquire-lookup, release-lookup}
use nplg_dspace_mcp.Http.Gates.{
  Gates, Grant, refused, global_only, with_principal, release_admission, release_principal,
  release_after,
}
use nplg_dspace_mcp.Http.Flight.{holds, Flights, IsBalanced}

count_if-middle :
    {A : Type 0} (p : A → Bool) (xs : List A) (x : A) (ys : List A)
    → count_if p (xs ++ x ∷ ys) ≡ one_if (p x) + count_if p (xs ++ ys)
count_if-middle p [] x ys = refl
count_if-middle p (y ∷ xs) x ys = omega (arith, count_if-middle p xs x ys)

length-middle :
    {A : Type 0} (xs : List A) (x : A) (ys : List A)
    → length (xs ++ x ∷ ys) ≡ suc (length (xs ++ ys))
length-middle [] x ys = refl
length-middle (y ∷ xs) x ys = omega (arith, length-middle xs x ys)

IsBalanced-front :
    (g : Gates) (xs : Flights) (f : String × Grant) (ys : Flights)
    → IsBalanced g (xs ++ f ∷ ys)
    → IsBalanced g (f ∷ (xs ++ ys))
IsBalanced-front g xs f ys v = record {
  within = v.within;
  counted = v.counted ∙ length-middle xs f ys;
  each = λ k p e. rw (← count_if-middle (holds k) xs f ys) (v.each k p e);
  known = λ k e. rw (← count_if-middle (holds k) xs f ys) (v.known k e);
}

-- A release that returns, with the requests that are left.
abbrev pub Released : Flights → Result PrincipalError (Unit {0}) × Gates → Type 0
Released flights (ok t, g) = IsBalanced g flights
Released flights (err e, g) = ⊥

release_room :
    (g : AdmissionGate)
    → 0 < g.active
    → Gate.release g ≡ (ok tt, record g { active = g.active - 1 })
unfolding Gate.release
release_room g h = ground arith

release-lookup_eq :
    (id : String) (p : AdmissionGate) (ps : Dict AdmissionGate)
    → lookup id ps ≡ some p
    → 0 < p.active
    → Principals.release id ps ≡ (ok tt, insert id (record p { active = p.active - 1 }) ps)
unfolding Principals.release Principals.released
release-lookup_eq id p ps e h = rw (e, Principals.release) (rw (release_room p h))

release_admission-head :
    (id : String) (grant : Grant) (gate : AdmissionGate) (principals : Option (Dict AdmissionGate))
    (flights : Flights)
    → IsBalanced (record { gate = gate; principals = principals }) ((id, grant) ∷ flights)
    → Released flights
        (release_admission grant id (record { gate = gate; principals = principals }))
unfolding release_admission release_after release_principal
release_admission-head id refused gate principals flights v =
    rw (release_room gate (omega (arith, v.counted))) (record {
      within = omega (arith, v.within);
      counted = omega (arith, v.counted);
      each = λ k p e. ground (arith, v.each k p);
      known = λ k e. ground (arith, v.known k);
    })
release_admission-head id global_only gate principals flights v =
    rw (release_room gate (omega (arith, v.counted))) (record {
      within = omega (arith, v.within);
      counted = omega (arith, v.counted);
      each = λ k p e. ground (arith, v.each k p);
      known = λ k e. ground (arith, v.known k);
    })
release_admission-head id with_principal gate none flights v =
    absurd (ground (arith, v.known id, eq_iff id id))
release_admission-head id with_principal gate (some ps) flights v =
    elim (Option-cases (lookup id ps)) [
      | inl e ↦ absurd (ground (arith, v.known id, eq_iff id id))
      | inr (p, e) ↦ rw (release_room gate (omega (arith, v.counted))) (
          rw (release-lookup_eq id p ps e (ground (arith, v.each id p, eq_iff id id))) (record {
            within = omega (arith, v.within);
            counted = omega (arith, v.counted);
            each = λ k q h. ground (
              arith,
              lookup-insert id k (record p { active = p.active - 1 }) ps,
              eq_iff id k,
              v.each k q,
              v.each id p,
            );
            known = λ k h. ground (
              arith,
              lookup-insert id k (record p { active = p.active - 1 }) ps,
              eq_iff id k,
              v.known k,
            );
          }))
    ]

-- On balanced gates, the release at the end of any request in flight raises nothing and leaves the gates balanced
-- with the other requests.
pub release_admission-Released :
    (g : Gates) (xs : Flights) (id : String) (grant : Grant) (ys : Flights)
    → IsBalanced g (xs ++ (id, grant) ∷ ys)
    → Released (xs ++ ys) (release_admission grant id g)
release_admission-Released g xs id grant ys v =
    release_admission-head id grant g.gate g.principals (xs ++ ys)
      (IsBalanced-front g xs (id, grant) ys v)
