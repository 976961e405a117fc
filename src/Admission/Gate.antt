-- ===== src/Admission/Gate.antt =====
-- `AdmissionGate` of src/nplg_mcp/admission.py. Each method runs under the gate's lock, so it is one step.
use nplg_dspace_mcp.Prelude.{
  ℕ, suc, ◌+◌, ◌-◌, ◌≤◌, ◌<◌, ◌≡◌, Bool, true, false, arith, leb, if◌then◌else◌, Result, ok, err,
  pos, Argument, int,
}

pub record AdmissionGate : Type 0 where
  pub capacity : ℕ
  pub active : ℕ

pub data GateError : Type 0 where
  capacity_not_positive unbalanced_release : GateError

-- `__init__`
unfoldable pub admission_gate : Argument → Result GateError AdmissionGate
admission_gate (int (pos (suc n))) = ok (record { capacity = suc n; active = 0 })
admission_gate _ = err capacity_not_positive

unfoldable pub try_acquire : AdmissionGate → Bool × AdmissionGate
try_acquire g =
    if leb g.capacity g.active then (false, g) else (true, record g { active = g.active + 1 })

unfoldable pub release : AdmissionGate → Result GateError (Unit {0}) × AdmissionGate
release g =
    if leb g.active 0
    then (err unbalanced_release, g)
    else (ok tt, record g { active = g.active - 1 })

-- What every gate keeps: its bound.
pub record IsBounded (g : AdmissionGate) : Type 0 where
  pub positive : 0 < g.capacity
  pub within : g.active ≤ g.capacity

pub admission_gate-IsBounded :
    (a : Argument) {g : AdmissionGate} → admission_gate a ≡ ok g → IsBounded g
unfolding admission_gate
admission_gate-IsBounded (int (pos (suc n))) h = ground arith
admission_gate-IsBounded _ h = ground arith

pub try_acquire-IsBounded : (g : AdmissionGate) → IsBounded g → IsBounded (try_acquire g).1
unfolding try_acquire
try_acquire-IsBounded g v = ground arith

pub release-IsBounded : (g : AdmissionGate) → IsBounded g → IsBounded (release g).1
unfolding release
release-IsBounded g v = ground arith
