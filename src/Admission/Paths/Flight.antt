-- ===== src/Admission/Paths/Flight.antt =====
-- The runs of the path middleware: requests arrive and admitted ones end, in any order.
use nplg_dspace_mcp.Prelude.{◌≤◌, ◌<◌, ◌≡◌, ◌↔◌, true, arith, ok}
use nplg_dspace_mcp.Admission.Gate
use nplg_dspace_mcp.Admission.Paths.{Scope, refused, Server, busy, is_guarded, enter, leave}

-- One step: a request enters, or one of those in flight ends.
pub data Step : Server → Server → Type 0 where
  arrive : (s : Server) (scope : Scope) → Step s (enter scope s).1
  finish : (s : Server) → 0 < s.in_flight → Step s (leave s).1

pub data Reach (s : Server) : Server → Type 0 where
  here : Reach s s
  next : {t u : Server} → Reach s t → Step t u → Reach s u

-- The permits out are those of the requests in flight.
pub record IsBalanced (s : Server) : Type 0 where
  pub positive : 0 < s.gate.capacity
  pub within : s.gate.active ≤ s.gate.capacity
  pub counted : s.gate.active ≡ s.in_flight

enter-IsBalanced : (scope : Scope) (s : Server) → IsBalanced s → IsBalanced (enter scope s).1
unfolding enter Gate.try_acquire
enter-IsBalanced scope s v = ground arith

leave-IsBalanced : (s : Server) → 0 < s.in_flight → IsBalanced s → IsBalanced (leave s).1
unfolding leave Gate.release
leave-IsBalanced s h v = ground arith

Step-IsBalanced : {s t : Server} → Step s t → IsBalanced s → IsBalanced t
Step-IsBalanced (arrive s scope) v = enter-IsBalanced scope s v
Step-IsBalanced (finish s h) v = leave-IsBalanced s h v

-- From a balanced server, however requests interleave, the permits out are exactly those of the admitted requests
-- that have not ended, and they never pass the capacity.
Reach-IsBalanced : {s t : Server} → IsBalanced s → Reach s t → IsBalanced t
Reach-IsBalanced v here = v
Reach-IsBalanced v (next r st) = Step-IsBalanced st (Reach-IsBalanced v r)

-- In a state reached from a balanced server with a request in flight, the release in the finally of a request does
-- not raise.
leave-balanced : {s t : Server} → IsBalanced s → Reach s t → 0 < t.in_flight → (leave t).0 ≡ ok tt
unfolding leave Gate.release
leave-balanced {s} {t} v r h = let w = Reach-IsBalanced v r in ground arith

-- In a state reached from a balanced server, a guarded request is refused exactly when as many requests are in
-- flight as the capacity allows, and a refusal changes nothing.
enter-refuses :
    {s t : Server} (scope : Scope)
    → IsBalanced s
    → Reach s t
    → is_guarded t scope ≡ true
    → (((enter scope t).0 ≡ refused busy) ↔ (t.in_flight ≡ t.gate.capacity))
      × ((enter scope t).0 ≡ refused busy → (enter scope t).1 ≡ t)
unfolding enter Gate.try_acquire
enter-refuses {s} {t} scope v r g =
    let w = Reach-IsBalanced v r in ((λ e. ground arith, λ e. ground arith), λ e. ground arith)
