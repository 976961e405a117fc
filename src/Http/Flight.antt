-- ===== src/Http/Flight.antt =====
-- The permits of the requests in flight, over the two kinds of gates.
pub mod Arrive
pub mod Depart
pub mod Runs
use Prim.Native.String.{String}
use text.Mathlib.Text
use nplg_dspace_mcp.Prelude.{
  ℕ, ◌≤◌, ◌≡◌, ◌⊎◌, Bool, false, List, ◌∷◌, Option, none, some, length, count_if, Result, ok, err,
}
use nplg_dspace_mcp.Prelude.Dict.{Dict, lookup}
use nplg_dspace_mcp.Admission.Gate.{AdmissionGate}
use nplg_dspace_mcp.Admission.Principals.{PrincipalError}
use nplg_dspace_mcp.Http.Gates.{Gates, Grant, refused, global_only, with_principal}

-- The gate of a principal.
abbrev pub gate_of : String → Option (Dict AdmissionGate) → Option AdmissionGate
gate_of k none = none
gate_of k (some ps) = lookup k ps

-- Whether an admitted request holds a permit of a principal.
abbrev pub holds : String → String × Grant → Bool
holds k (id, with_principal) = Text.◌==◌ id k
holds k (id, refused) = false
holds k (id, global_only) = false

abbrev pub Flights : Type 0
Flights = List (String × Grant)

-- The permits out of each gate are those of the requests in flight, and within its capacity.
pub record IsBalanced (g : Gates) (flights : Flights) : Type 0 where
  pub within : g.gate.active ≤ g.gate.capacity
  pub counted : g.gate.active ≡ length flights
  pub each :
      (k : String) (p : AdmissionGate)
      → gate_of k g.principals ≡ some p
      → (p.active ≤ p.capacity) × (p.active ≡ count_if (holds k) flights)
  pub known : (k : String) → gate_of k g.principals ≡ none → count_if (holds k) flights ≡ 0

-- No place in the common gate, or in that of the principal.
abbrev pub IsFull : String → Gates → Type 0
IsFull id g =
    (g.gate.capacity ≤ g.gate.active)
    ⊎ ((p : AdmissionGate) → gate_of id g.principals ≡ some p → p.capacity ≤ p.active)

-- Gates that no call can tell apart.
abbrev pub SameGates : Gates → Gates → Type 0
SameGates g h = (g.gate ≡ h.gate) × ((k : String) → gate_of k g.principals ≡ gate_of k h.principals)

-- What an answer of the admission leaves, by what it grants.
abbrev pub Left : String → Gates → Flights → Result PrincipalError Grant × Gates → Type 0
Left id g flights (ok refused, g') = IsFull id g × SameGates g' g
Left id g flights (ok grant, g') = IsBalanced g' ((id, grant) ∷ flights)
Left id g flights (err e, g') = SameGates g' g
