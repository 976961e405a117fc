-- ===== src/Admission/Paths.antt =====
-- `PathAdmissionMiddleware` of src/nplg_mcp/admission.py: one gate shared by all requests below a path,
-- each holding its permit from admission to the end of its response. Requests interleave at the
-- awaited call of the wrapped application, which is where `enter` ends and `leave` begins.
pub mod Flight
use Prim.Native.String.{String}
use text.Mathlib.Text.{◌==◌, starts_with}
use nplg_dspace_mcp.Prelude.{
  ℕ, ◌+◌, ◌-◌, Bool, true, false, not, ◌||◌, Option, none, some, if◌then◌else◌, Result,
}
use nplg_dspace_mcp.Admission.Gate
use nplg_dspace_mcp.Admission.Gate.{AdmissionGate, GateError}

-- The entries of an ASGI scope that the middleware reads; `none` is a path that is no text.
pub record Scope : Type 0 where
  pub scope_type : String
  pub path : Option String

pub record BusyResponse : Type 0 where
  pub status_code : ℕ
  pub retry_after : String

-- How a call begins: the application runs without a permit, with one, or not at all.
pub data Entry : Type 0 where
  passed admitted : Entry
  refused : BusyResponse → Entry

abbrev pub busy : BusyResponse
busy = record { status_code = 503; retry_after = "1" }

-- The gate, and how many admitted calls of the application have not ended.
pub record Server : Type 0 where
  pub path_prefix : String
  pub gate : AdmissionGate
  pub in_flight : ℕ

path_of : Scope → String
path_of scope = elim scope.path [ none ↦ "" | some p ↦ p ]

-- the first condition of `__call__`, negated
unfoldable pub is_guarded : Server → Scope → Bool
unfolding path_of
is_guarded s scope =
    not (not (scope.scope_type == "http") || not (starts_with (path_of scope) s.path_prefix))

enter_gate : Bool × AdmissionGate → Server → Entry × Server
enter_gate (false, g) s = (refused busy, record s { gate = g })
enter_gate (true, g) s = (admitted, record s { gate = g; in_flight = s.in_flight + 1 })

-- `__call__` up to the call of the application
unfoldable pub enter : Scope → Server → Entry × Server
unfolding is_guarded enter_gate
enter scope s = if is_guarded s scope then enter_gate (Gate.try_acquire s.gate) s else (passed, s)

-- the `finally` of an admitted call, whether the application returned or raised
unfoldable pub leave : Server → Result GateError (Unit {0}) × Server
leave s =
    let (r, g) = Gate.release s.gate in (r, record s { gate = g; in_flight = s.in_flight - 1 })
