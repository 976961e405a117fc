-- ===== src/Admission/Principals.antt =====
-- `PrincipalAdmission` of src/nplg_mcp/admission.py: one gate for each configured principal.
use Prim.Native.String.{String}
use text.Mathlib.Text.{◌==◌}
use nplg_dspace_mcp.Prelude.{
  ◌≡◌, Bool, false, none, some, List, [], ◌∷◌, arith, if◌then◌else◌, Result, ok, err, Argument,
  ◌||◌, Option-cases, inl, inr,
}
use nplg_dspace_mcp.Prelude.Dict.{Dict, lookup, insert, lookup-insert}
use nplg_dspace_mcp.Admission.Gate
use nplg_dspace_mcp.Admission.Gate.{AdmissionGate, GateError}

pub data PrincipalError : Type 0 where
  identifiers_not_unique not_configured : PrincipalError
  gate_error : GateError → PrincipalError

-- `k in ks`
unfoldable pub contains : String → List String → Bool
contains k [] = false
contains k (j ∷ ks) = j == k || contains k ks

-- `len(set(identifiers)) != len(identifiers)`
unfoldable pub has_duplicate : List String → Bool
unfolding contains
has_duplicate [] = false
has_duplicate (k ∷ ks) = contains k ks || has_duplicate ks

-- the dict comprehension; each round builds a gate, and the first error ends it
unfoldable pub gates_for : List String → Argument → Result GateError (Dict AdmissionGate)
gates_for [] capacity = ok []
gates_for (k ∷ ks) capacity = elim (Gate.admission_gate capacity) [
  | err e ↦ err e
  | ok g ↦ elim (gates_for ks capacity) [ err e ↦ err e | ok gates ↦ ok ((k, g) ∷ gates) ]
]

gate_result : Result GateError (Dict AdmissionGate) → Result PrincipalError (Dict AdmissionGate)
gate_result (ok gates) = ok gates
gate_result (err e) = err (gate_error e)

-- `__init__`
unfoldable pub principal_admission :
    List String → Argument → Result PrincipalError (Dict AdmissionGate)
unfolding has_duplicate gates_for gate_result
principal_admission [] capacity = err identifiers_not_unique
principal_admission (k ∷ ks) capacity =
    if has_duplicate (k ∷ ks)
    then err identifiers_not_unique
    else gate_result (gates_for (k ∷ ks) capacity)

unfoldable pub try_acquire :
    String → Dict AdmissionGate → Result PrincipalError Bool × Dict AdmissionGate
try_acquire principal gates = elim (lookup principal gates) [
  | none ↦ (err not_configured, gates)
  | some g ↦ let (admitted, g') = Gate.try_acquire g in (ok admitted, insert principal g' gates)
]

unfoldable pub released : Result GateError (Unit {0}) → Result PrincipalError (Unit {0})
released (ok t) = ok t
released (err e) = err (gate_error e)

unfoldable pub release :
    String → Dict AdmissionGate → Result PrincipalError (Unit {0}) × Dict AdmissionGate
unfolding released
release principal gates = elim (lookup principal gates) [
  | none ↦ (err not_configured, gates)
  | some g ↦ let (r, g') = Gate.release g in (released r, insert principal g' gates)
]

-- A call for a configured principal acts on that principal's gate as the gate's own method does, and
-- answers what it answers.
pub try_acquire-lookup :
    (p q : String) (gates : Dict AdmissionGate) {g : AdmissionGate}
    → lookup p gates ≡ some g
    → ((try_acquire p gates).0 ≡ ok (Gate.try_acquire g).0)
      × (lookup q (try_acquire p gates).1
          ≡ (if p == q then some (Gate.try_acquire g).1 else lookup q gates))
unfolding try_acquire
try_acquire-lookup p q gates e = (rw (e, try_acquire), rw (e, try_acquire) (rw lookup-insert))

-- When a principal has a gate, a release for it answers what the release of that gate answers, replaces that gate
-- by the gate after its release, and leaves the gate of every other principal as it was.
pub release-lookup :
    (p q : String) (gates : Dict AdmissionGate) {g : AdmissionGate}
    → lookup p gates ≡ some g
    → ((release p gates).0 ≡ released (Gate.release g).0)
      × (lookup q (release p gates).1
          ≡ (if p == q then some (Gate.release g).1 else lookup q gates))
unfolding release
release-lookup p q gates e = (rw (e, release), rw (e, release) (rw lookup-insert))

-- Every configured gate is bounded.
abbrev pub AllBounded : Dict AdmissionGate → Type 0
AllBounded gates = (k : String) (g : AdmissionGate) → lookup k gates ≡ some g → Gate.IsBounded g

pub try_acquire-AllBounded :
    (p : String) (gates : Dict AdmissionGate)
    → AllBounded gates
    → AllBounded (try_acquire p gates).1
try_acquire-AllBounded p gates v k g = elim (Option-cases (lookup p gates)) [
  | inl e ↦ unfold try_acquire in rw (e, try_acquire) (v k g)
  | inr (h, e) ↦ ground (
    arith,
    (try_acquire-lookup p k gates e).1,
    v k g,
    v p h e,
    Gate.try_acquire-IsBounded h (v p h e),
  )
]

pub release-AllBounded :
    (p : String) (gates : Dict AdmissionGate) → AllBounded gates → AllBounded (release p gates).1
release-AllBounded p gates v k g = elim (Option-cases (lookup p gates)) [
  | inl e ↦ unfold release in rw (e, release) (v k g)
  | inr (h, e) ↦
      ground
        (arith, (release-lookup p k gates e).1, v k g, v p h e, Gate.release-IsBounded h (v p h e))
]
