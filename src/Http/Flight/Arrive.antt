-- ===== src/Http/Flight/Arrive.antt =====
-- `_try_acquire_admission` on balanced gates.
use Prim.Native.String.{String}
use text.Mathlib.Text
use text.Mathlib.TextEquality.{eq_iff}
use nplg_dspace_mcp.Prelude.{
  ◌+◌, ◌≤◌, ◌<◌, ◌≡◌, ◌⊎◌, refl, true, false, ◌∷◌, Option, none, some, Option-cases, Bool-cases,
  inl, inr, count_if, ok, arith,
}
use nplg_dspace_mcp.Prelude.Dict.{Dict, lookup, insert, lookup-insert}
use nplg_dspace_mcp.Admission.Gate
use nplg_dspace_mcp.Admission.Gate.{AdmissionGate}
use nplg_dspace_mcp.Admission.Principals
use nplg_dspace_mcp.Admission.Principals.{PrincipalError, try_acquire-lookup, release-lookup}
use nplg_dspace_mcp.Http.Gates.{
  Gates, with_principal, try_acquire_admission, identified, after_principal, after_global,
  anonymous,
}
use nplg_dspace_mcp.Http.Flight.{holds, Flights, IsBalanced, Left}

-- Putting back what stood there.
lookup-insert_back :
    (id : String) (p q : AdmissionGate) (ps : Dict AdmissionGate) (k : String)
    → lookup id ps ≡ some p
    → lookup k (insert id p (insert id q ps)) ≡ lookup k ps
lookup-insert_back id p q ps k e =
    ground (arith, lookup-insert id k p (insert id q ps), lookup-insert id k q ps, eq_iff id k)

lookup-insert_same :
    (id : String) (p : AdmissionGate) (ps : Dict AdmissionGate) (k : String)
    → lookup id ps ≡ some p
    → lookup k (insert id p ps) ≡ lookup k ps
lookup-insert_same id p ps k e = ground (arith, lookup-insert id k p ps, eq_iff id k)

-- One more permit of a principal is out.
each_insert :
    (id : String) (p : AdmissionGate) (ps : Dict AdmissionGate) (flights : Flights)
    → lookup id ps ≡ some p
    → p.active < p.capacity
    → ((k : String) (q : AdmissionGate)
        → lookup k ps ≡ some q
        → (q.active ≤ q.capacity) × (q.active ≡ count_if (holds k) flights))
    → (k : String) (q : AdmissionGate)
    → lookup k (insert id (record p { active = p.active + 1 }) ps) ≡ some q
    → (q.active ≤ q.capacity) × (q.active ≡ count_if (holds k) ((id, with_principal) ∷ flights))
each_insert id p ps flights e room v k q h = ground (
  arith,
  lookup-insert id k (record p { active = p.active + 1 }) ps,
  eq_iff id k,
  v k q,
  v id p e,
)

abbrev taken : AdmissionGate → AdmissionGate
taken p = record p { active = p.active + 1 }

try_acquire_full : (g : AdmissionGate) → g.capacity ≤ g.active → Gate.try_acquire g ≡ (false, g)
unfolding Gate.try_acquire
try_acquire_full g h = ground arith

try_acquire_room :
    (g : AdmissionGate) → g.active < g.capacity → Gate.try_acquire g ≡ (true, taken g)
unfolding Gate.try_acquire
try_acquire_room g h = ground arith

release-taken : (g : AdmissionGate) → Gate.release (taken g) ≡ (ok tt, g)
unfolding Gate.release
release-taken g = ground arith

-- Taking a permit of a principal and giving it back.
release-insert :
    (id : String) (p : AdmissionGate) (ps : Dict AdmissionGate)
    → Principals.release id (insert id (taken p) ps) ≡ (ok tt, insert id p (insert id (taken p) ps))
unfolding Principals.release Principals.released
release-insert id p ps =
    let here : lookup id (insert id (taken p) ps) ≡ some (taken p) =
      ground (arith, lookup-insert id id (taken p) ps, eq_iff id id) in
    rw (here, Principals.release) (rw (release-taken p))

full_or_room : (g : AdmissionGate) → (g.capacity ≤ g.active) ⊎ (g.active < g.capacity)
full_or_room g = ground arith

module _ (id : String) (gate : AdmissionGate) (ps : Dict AdmissionGate) (p : AdmissionGate) where
  -- the principal's permit is taken
  after_global-Left :
      (flights : Flights)
      → lookup id ps ≡ some p
      → p.active < p.capacity
      → IsBalanced (record { gate = gate; principals = some ps }) flights
      → Left id
          (record { gate = gate; principals = some ps })
          flights
          (after_global id (insert id (taken p) ps) (Gate.try_acquire gate))
  unfolding after_global
  after_global-Left flights e room v = elim (full_or_room gate) [
    | inl full ↦ rw (try_acquire_full gate full) (
        rw (release-insert id p ps)
          (inl full, (refl, λ k. lookup-insert_back id p (taken p) ps k e)))
    | inr free ↦ rw (try_acquire_room gate free) (record {
      within = omega arith;
      counted = omega (arith, v.counted);
      each = each_insert id p ps flights e room v.each;
      known = λ k h. ground (arith, lookup-insert id k (taken p) ps, eq_iff id k, v.known k);
    })
  ]

  identified-Left :
      (flights : Flights)
      → lookup id ps ≡ some p
      → IsBalanced (record { gate = gate; principals = some ps }) flights
      → Left id
          (record { gate = gate; principals = some ps })
          flights
          (identified id gate (some ps))
  unfolding identified after_principal Principals.try_acquire
  identified-Left flights e v = elim (full_or_room p) [
    | inl full ↦
        rw (e, Principals.try_acquire)
          (rw (try_acquire_full p full)
            (inr (λ q f. ground arith), (refl, λ k. lookup-insert_same id p ps k e)))
    | inr room ↦
        rw (e, Principals.try_acquire)
          (rw (try_acquire_room p room) (after_global-Left flights e room v))
  ]

anonymous-Left :
    (id : String) (g : Gates) (flights : Flights)
    → IsBalanced g flights
    → Left id g flights (anonymous g (Gate.try_acquire g.gate))
unfolding anonymous
anonymous-Left id g flights v = elim (full_or_room g.gate) [
  | inl full ↦ rw (try_acquire_full g.gate full) (inl full, (refl, λ k. refl))
  | inr free ↦ rw (try_acquire_room g.gate free) (record {
    within = omega arith;
    counted = omega (arith, v.counted);
    each = λ k p e. ground (arith, v.each k p);
    known = λ k e. ground (arith, v.known k);
  })
]

identified_any-Left :
    (id : String) (gate : AdmissionGate) (principals : Option (Dict AdmissionGate))
    (flights : Flights)
    → IsBalanced (record { gate = gate; principals = principals }) flights
    → Left id
        (record { gate = gate; principals = principals })
        flights
        (identified id gate principals)
unfolding identified after_principal Principals.try_acquire
identified_any-Left id gate none flights v = (inr (λ p f. cc), (refl, λ k. refl))
identified_any-Left id gate (some ps) flights v = elim (Option-cases (lookup id ps)) [
  | inl e ↦ rw (e, Principals.try_acquire) (refl, λ k. refl)
  | inr (p, e) ↦ identified-Left id gate ps p flights e v
]

-- On balanced gates an admission that is refused finds the global gate or the gate of its principal full, or no
-- gate for it, and leaves every gate as it was; one that is granted leaves them balanced with one more request;
-- and one that raises changes nothing.
pub try_acquire_admission-Left :
    (id : String) (g : Gates) (flights : Flights)
    → IsBalanced g flights
    → Left id g flights (try_acquire_admission id g)
unfolding try_acquire_admission
try_acquire_admission-Left id g flights v = elim (Bool-cases (Text.◌==◌ id "anonymous")) [
  | inl e ↦ rw e (anonymous-Left id g flights v)
  | inr e ↦ rw e (identified_any-Left id g.gate g.principals flights v)
]
