-- ===== src/Http/Gates.antt =====
-- `_try_acquire_admission` and the `finally` of `_admitted_call` of src/nplg_mcp/http_security.py.
use Prim.Native.String.{String}
use text.Mathlib.Text.{◌==◌}
use nplg_dspace_mcp.Prelude.{Bool, true, false, Option, none, some, if◌then◌else◌, Result, ok, err}
use nplg_dspace_mcp.Prelude.Dict.{Dict}
use nplg_dspace_mcp.Admission.Gate
use nplg_dspace_mcp.Admission.Gate.{AdmissionGate, GateError}
use nplg_dspace_mcp.Admission.Principals
use nplg_dspace_mcp.Admission.Principals.{PrincipalError, gate_error}

-- `_admission` and `_principal_admission`
pub record Gates : Type 0 where
  pub gate : AdmissionGate
  pub principals : Option (Dict AdmissionGate)

-- `(False, None)`, `(True, None)` and `(True, principal_admission)`
pub data Grant : Type 0 where
  refused global_only with_principal : Grant

abbrev pub Answer : Type 0
Answer = Result PrincipalError Grant × Gates

abbrev anonymous_grant : Bool → Grant
anonymous_grant true = global_only
anonymous_grant false = refused

abbrev given_back : Result PrincipalError (Unit {0}) → Result PrincipalError Grant
given_back (ok t) = ok refused
given_back (err e) = err e

-- the global gate, with the principal's permit taken
unfoldable pub after_global : String → Dict AdmissionGate → Bool × AdmissionGate → Answer
after_global id ps (true, gate) = (ok with_principal, record { gate = gate; principals = some ps })
after_global id ps (false, gate) =
    let (answer, ps') = Principals.release id ps in
    (given_back answer, record { gate = gate; principals = some ps' })

unfoldable pub after_principal :
    String → AdmissionGate → Result PrincipalError Bool × Dict AdmissionGate → Answer
unfolding after_global
after_principal id gate (ok true, ps) = after_global id ps (Gate.try_acquire gate)
after_principal id gate (ok false, ps) = (ok refused, record { gate = gate; principals = some ps })
after_principal id gate (err e, ps) = (err e, record { gate = gate; principals = some ps })

unfoldable pub identified : String → AdmissionGate → Option (Dict AdmissionGate) → Answer
unfolding after_principal
identified id gate none = (ok refused, record { gate = gate; principals = none })
identified id gate (some ps) = after_principal id gate (Principals.try_acquire id ps)

unfoldable pub anonymous : Gates → Bool × AdmissionGate → Answer
anonymous g (admitted, gate) = (ok (anonymous_grant admitted), record g { gate = gate })

unfoldable pub try_acquire_admission : String → Gates → Answer
unfolding anonymous identified
try_acquire_admission id g =
    if id == "anonymous"
    then anonymous g (Gate.try_acquire g.gate)
    else identified id g.gate g.principals

-- the permits of a grant; an error of the global gate leaves the principal's
unfoldable pub release_principal :
    String → AdmissionGate → Option (Dict AdmissionGate) → Result PrincipalError (Unit {0}) × Gates
release_principal id gate none = (ok tt, record { gate = gate; principals = none })
release_principal id gate (some ps) =
    let (answer, ps') = Principals.release id ps in
    (answer, record { gate = gate; principals = some ps' })

unfoldable pub release_after :
    Grant
    → String
    → Option (Dict AdmissionGate)
    → Result GateError (Unit {0}) × AdmissionGate
    → Result PrincipalError (Unit {0}) × Gates
unfolding release_principal
release_after grant id ps (err e, gate) =
    (err (gate_error e), record { gate = gate; principals = ps })
release_after with_principal id ps (ok t, gate) = release_principal id gate ps
release_after refused id ps (ok t, gate) = (ok tt, record { gate = gate; principals = ps })
release_after global_only id ps (ok t, gate) = (ok tt, record { gate = gate; principals = ps })

unfoldable pub release_admission : Grant → String → Gates → Result PrincipalError (Unit {0}) × Gates
unfolding release_after
release_admission grant id g = release_after grant id g.principals (Gate.release g.gate)
