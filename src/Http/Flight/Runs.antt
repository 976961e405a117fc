-- ===== src/Http/Flight/Runs.antt =====
-- Runs: requests arrive under an identity, and admitted ones end, in any order.
use Prim.Native.String.{String}
use nplg_dspace_mcp.Prelude.{◌≡◌, sym, ◌∙◌, ◌∷◌, ◌++◌, Result, ok, err}
use nplg_dspace_mcp.Admission.Principals.{PrincipalError}
use nplg_dspace_mcp.Http.Gates.{
  Gates, Grant, refused, global_only, with_principal, try_acquire_admission, release_admission,
}
use nplg_dspace_mcp.Http.Flight.{Flights, IsBalanced, SameGates, Left}
use nplg_dspace_mcp.Http.Flight.Arrive.{try_acquire_admission-Left}
use nplg_dspace_mcp.Http.Flight.Depart.{Released, release_admission-Released}

-- The requests that hold permits, beside the gates.
pub record Server : Type 0 where
  pub gates : Gates
  pub flights : Flights

abbrev pub after_arrival : String → Flights → Result PrincipalError Grant × Gates → Server
after_arrival id flights (ok refused, g) = record { gates = g; flights = flights }
after_arrival id flights (ok grant, g) = record { gates = g; flights = (id, grant) ∷ flights }
after_arrival id flights (err e, g) = record { gates = g; flights = flights }

pub data Step : Server → Server → Type 0 where
  arrive :
      (id : String) (s : Server)
      → Step s (after_arrival id s.flights (try_acquire_admission id s.gates))
  finish :
      (s : Server) (xs : Flights) (id : String) (grant : Grant) (ys : Flights)
      → s.flights ≡ xs ++ (id, grant) ∷ ys
      → Step s (record { gates = (release_admission grant id s.gates).1; flights = xs ++ ys })

pub data Reach (s : Server) : Server → Type 0 where
  here : Reach s s
  next : {t u : Server} → Reach s t → Step t u → Reach s u

SameGates-IsBalanced :
    (g h : Gates) (flights : Flights) → SameGates h g → IsBalanced g flights → IsBalanced h flights
SameGates-IsBalanced g h flights (gate, each) v = record {
  within = rw gate v.within;
  counted = rw gate v.counted;
  each = λ k p e. v.each k p (sym (each k) ∙ e);
  known = λ k e. v.known k (sym (each k) ∙ e);
}

after_arrival-IsBalanced :
    (id : String) (g : Gates) (flights : Flights) (answer : Result PrincipalError Grant × Gates)
    → IsBalanced g flights
    → Left id g flights answer
    → IsBalanced (after_arrival id flights answer).gates (after_arrival id flights answer).flights
after_arrival-IsBalanced id g flights (ok refused, h) v left =
    SameGates-IsBalanced g h flights left.1 v
after_arrival-IsBalanced id g flights (ok global_only, h) v left = left
after_arrival-IsBalanced id g flights (ok with_principal, h) v left = left
after_arrival-IsBalanced id g flights (err e, h) v left = SameGates-IsBalanced g h flights left v

Released-IsBalanced :
    (flights : Flights) (answer : Result PrincipalError (Unit {0}) × Gates)
    → Released flights answer
    → IsBalanced answer.1 flights
Released-IsBalanced flights (ok t, g) h = h
Released-IsBalanced flights (err e, g) h = absurd h

Step-IsBalanced :
    {s t : Server} → Step s t → IsBalanced s.gates s.flights → IsBalanced t.gates t.flights
Step-IsBalanced (arrive id s) v =
    after_arrival-IsBalanced id s.gates s.flights (try_acquire_admission id s.gates) v
      (try_acquire_admission-Left id s.gates s.flights v)
Step-IsBalanced (finish s xs id grant ys e) v =
    Released-IsBalanced (xs ++ ys) (release_admission grant id s.gates)
      (release_admission-Released s.gates xs id grant ys (rw (← e) v))

-- From balanced gates, however requests under any identities arrive and end, the global gate has exactly the
-- requests in flight and the gate of each principal exactly those that hold its permit, both within their
-- capacity, and only principals with a gate hold permits.
pub Reach-EachBalanced :
    {s t : Server} → IsBalanced s.gates s.flights → Reach s t → IsBalanced t.gates t.flights
Reach-EachBalanced v here = v
Reach-EachBalanced v (next r st) = Step-IsBalanced st (Reach-EachBalanced v r)
