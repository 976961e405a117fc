-- ===== src/Resilience/Wedge.antt =====
-- The half-open circuit: how a probe leaves it, and what a fault of the clock or the random source does.
use nplg_dspace_mcp.Prelude.{
  ◌⊎◌, ℕ, ◌+◌, ◌-◌, ◌<◌, ◌≡◌, inl, inr, refl, Bool, true, false, Option, some, arith, ap₂, ◌≢◌,
  is_ok, Result, ok, err, get_elem?, set, All-get, All-set, ◌∙◌, count_if, count_if-set, Bool-cases,
}
use nplg_dspace_mcp.Prelude.Floats.{Floats}
use nplg_dspace_mcp.Resilience.Deadline.{Deadline}
use nplg_dspace_mcp.Resilience.Guard.{
  CircuitState, closed, open_until, half_open, GuardError, observer_cancelled, Permit, Guard, admit,
  admit_with, read_clock-cases, read_clock-bad, IsBadReading, set_state,
}
use nplg_dspace_mcp.Resilience.Complete.{
  Outcome, success, transient, excluded, other_outcome, Environment, complete_attempt,
  transient_reopen_count, open_interval,
}
use nplg_dspace_mcp.Resilience.Permits.{Attempt, World, entered, enter, record_outcome}
use nplg_dspace_mcp.Resilience.Runs.{is_current, fits, IsSafe, none_current}
use nplg_dspace_mcp.Resilience.Runs.Safety.{
  Step, ask, end, Reach, here, next, Reach-IsSafe, finalized-counts,
}

module _ {Float : Type 0} where
  -- Half open, and no attempt is left that could change the circuit.
  abbrev pub IsWedged : World Float → Type 0
  IsWedged w =
      ((r : Float) × (n : ℕ) × (w.guard.state ≡ half_open r n))
      × (count_if (is_current w.guard.generation) w.attempts ≡ 0)

  -- A completion ends in no fault: it returns, or only the observer interrupts it.
  abbrev pub is_sound : Result (GuardError Float) (Unit {0}) → Bool
  is_sound (ok _) = true
  is_sound (err observer_cancelled) = true
  is_sound (err _) = false

  -- The circuit has left the half-open state in the way that the outcome asks for.
  abbrev pub Decided : Outcome → CircuitState Float → Type 0
  Decided success (closed n) = n ≡ 0
  Decided success _ = ⊥
  Decided _ (open_until _ _) = Unit
  Decided _ _ = ⊥

module _ (fl : Floats) where
  open fl use {Float}

  probe-Decided :
      (outcome : Outcome) (env : Environment Float) (g : Guard Float) {r : Float} {n : ℕ}
      → g.state ≡ half_open r n
      → 0 < g.active
      → is_sound (complete_attempt fl true g.generation outcome env g).0 ≡ true
      → Decided outcome (complete_attempt fl true g.generation outcome env g).1.state
        × ((complete_attempt fl true g.generation outcome env g).1.generation ≡ g.generation + 1)
  unfolding complete_attempt transient_reopen_count set_state open_interval
  probe-Decided success env g e p s = ground arith
  probe-Decided transient env g e p s = ground (
    arith,
    read_clock-cases fl env.reading
        (record g { active = g.active - 1; generation = g.generation + 1 }),
  )
  probe-Decided excluded env g e p s = ground (
    arith,
    read_clock-cases fl env.reading
        (record g { active = g.active - 1; generation = g.generation + 1 }),
  )
  probe-Decided other_outcome env g e p s = ground arith

  record_outcome-live :
      (i : ℕ) (a : Attempt Float) (outcome : Outcome) (env : Environment Float) (w : World Float)
      → a.finalized ≡ false
      → let done = complete_attempt fl a.permit.probe a.permit.generation outcome env w.guard in
        record_outcome fl i a outcome env w ≡ (
          done.0,
          record { guard = done.1; attempts = set w.attempts i (record a { finalized = true }) },
        )
  unfolding record_outcome
  record_outcome-live i a outcome env w live = rw (live, record_outcome)

  current-probe :
      (w : World Float) (i : ℕ) (a : Attempt Float) {r : Float} {n : ℕ}
      → IsSafe w
      → w.guard.state ≡ half_open r n
      → get_elem? w.attempts i ≡ some a
      → is_current w.guard.generation a ≡ true
      → (a.finalized ≡ false)
        × (a.permit.probe ≡ true)
        × (a.permit.generation ≡ w.guard.generation)
        × (0 < w.guard.active)
  current-probe w i a v half e cur =
      let fit =
        All-get (λ a. fits w.guard.generation w.guard.state a ≡ true) w.attempts i a v.fitting e in
      let live : a.finalized ≡ false = ground arith in
      (
        live,
        ground (arith, fit),
        ground arith,
        omega (arith, (finalized-counts w.guard.generation w.attempts i a e live).0, v.out),
      )

  -- In a half-open state reached from a safe one, an attempt that is current is the probe, and its outcome
  -- decides: success closes the circuit with no failures and any other outcome of a permit opens it, when the
  -- completion returns or only a cancellation of the observer interrupts it.
  pub probe_decides :
      {u w : World Float} (i : ℕ) (a : Attempt Float) (outcome : Outcome) (env : Environment Float)
      {r : Float} {n : ℕ}
      → IsSafe u
      → Reach fl u w
      → w.guard.state ≡ half_open r n
      → get_elem? w.attempts i ≡ some a
      → is_current w.guard.generation a ≡ true
      → is_sound (record_outcome fl i a outcome env w).0 ≡ true
      → (a.permit.probe ≡ true)
        × Decided outcome (record_outcome fl i a outcome env w).1.guard.state
  probe_decides {w = w} i a outcome env safe reach half e cur sound =
      let p = current-probe w i a (Reach-IsSafe fl safe reach) half e cur in
      let ran = record_outcome-live i a outcome env w p.0 in
      let same : complete_attempt fl a.permit.probe a.permit.generation outcome env w.guard
          ≡ complete_attempt fl true w.guard.generation outcome env w.guard =
        ap₂ (λ b k. complete_attempt fl b k outcome env w.guard) p.1 p.2 in
      let sound' : is_sound (complete_attempt fl true w.guard.generation outcome env w.guard).0
          ≡ true =
        rw (← same) (rw ran at sound) in
      (p.1, rw ran (rw same (probe-Decided outcome env w.guard half p.3 sound').0))

  -- A completion of the probe that raises has taken its generation and left the state.
  probe-faults :
      (outcome : Outcome) (env : Environment Float) (g : Guard Float) {r : Float} {n : ℕ}
      → g.state ≡ half_open r n
      → 0 < g.active
      → outcome ≢ other_outcome
      → is_sound (complete_attempt fl true g.generation outcome env g).0 ≡ false
      → ((complete_attempt fl true g.generation outcome env g).1.state ≡ g.state)
        × ((complete_attempt fl true g.generation outcome env g).1.generation ≡ g.generation + 1)
  unfolding complete_attempt transient_reopen_count set_state open_interval
  probe-faults success env g e p known s = ground arith
  probe-faults transient env g e p known s = ground (
    arith,
    read_clock-cases fl env.reading
        (record g { active = g.active - 1; generation = g.generation + 1 }),
  )
  probe-faults excluded env g e p known s = ground (
    arith,
    read_clock-cases fl env.reading
        (record g { active = g.active - 1; generation = g.generation + 1 }),
  )
  probe-faults other_outcome env g e p known s = absurd (known refl)

  -- A bad reading of the clock ends the completion, unless the outcome is a success, which reads no clock.
  bad_reading-faults :
      (outcome : Outcome) (env : Environment Float) (g : Guard Float) {r : Float} {n : ℕ}
      → g.state ≡ half_open r n
      → 0 < g.active
      → outcome ≢ success
      → outcome ≢ other_outcome
      → IsBadReading fl g.last_now env.reading
      → is_sound (complete_attempt fl true g.generation outcome env g).0 ≡ false
  unfolding complete_attempt transient_reopen_count
  bad_reading-faults success env g e p failed known bad = absurd (failed refl)
  bad_reading-faults transient env g e p failed known bad = ground (
    arith,
    read_clock-bad fl env.reading
        (record g { active = g.active - 1; generation = g.generation + 1 }) bad,
  )
  bad_reading-faults excluded env g e p failed known bad = ground (
    arith,
    read_clock-bad fl env.reading
        (record g { active = g.active - 1; generation = g.generation + 1 }) bad,
  )
  bad_reading-faults other_outcome env g e p failed known bad = absurd (known refl)

  -- The completion of a probe is at fault: the clock that it reads is bad, or it raises anything but the observer's
  -- cancellation.
  abbrev pub IsFault :
      Outcome → Environment Float → Option Float → Result (GuardError Float) (Unit {0}) → Type 0
  IsFault outcome env last result =
      ((outcome ≢ success) × IsBadReading fl last env.reading) ⊎ (is_sound result ≡ false)

  -- In a half-open state reached from a safe one, the circuit stays half open with no attempt that could change it
  -- when the current probe records a transient or excluded outcome while the clock reads no double, or one that is
  -- not finite, negative or earlier than the last reading; and so it does whenever recording one of the three
  -- outcomes of that probe raises anything but a cancellation of the observer.
  pub fault_wedges :
      {u w : World Float} (i : ℕ) (a : Attempt Float) (outcome : Outcome) (env : Environment Float)
      {r : Float} {n : ℕ}
      → IsSafe u
      → Reach fl u w
      → w.guard.state ≡ half_open r n
      → get_elem? w.attempts i ≡ some a
      → is_current w.guard.generation a ≡ true
      → outcome ≢ other_outcome
      → IsFault outcome env w.guard.last_now (record_outcome fl i a outcome env w).0
      → IsWedged (record_outcome fl i a outcome env w).1
  fault_wedges {w = w} i a outcome env {r = r} {n = n} safe reach half e cur known fault =
      let v = Reach-IsSafe fl safe reach in
      let p = current-probe w i a v half e cur in
      let ran = record_outcome-live i a outcome env w p.0 in
      let same : complete_attempt fl a.permit.probe a.permit.generation outcome env w.guard
          ≡ complete_attempt fl true w.guard.generation outcome env w.guard =
        ap₂ (λ b k. complete_attempt fl b k outcome env w.guard) p.1 p.2 in
      let faulty : is_sound (complete_attempt fl true w.guard.generation outcome env w.guard).0
          ≡ false =
        elim fault [
          | inl (failed, bad) ↦ bad_reading-faults outcome env w.guard half p.3 failed known bad
          | inr raised ↦ rw (← same) (rw ran at raised)
        ] in
      let (state, generation) = probe-faults outcome env w.guard half p.3 known faulty in
      rw ran (
        rw same (
          (r, n, state ∙ half),
          rw generation (
              none_current w.guard.generation (w.guard.generation + 1) w.guard.state
                (set w.attempts i (record a { finalized = true })) (omega arith)
                (All-set (λ a. fits w.guard.generation w.guard.state a ≡ true) w.attempts i
                  (record a { finalized = true }) v.fitting refl)),
        ))

  half_open_refuses :
      (reading : Option Float) (d : Deadline Float) (cancels : Bool) (g : Guard Float) {r : Float}
      {n : ℕ}
      → g.state ≡ half_open r n
      → (is_ok (admit fl reading d cancels g).0 ≡ false)
        × ((admit fl reading d cancels g).1.state ≡ g.state)
        × ((admit fl reading d cancels g).1.generation ≡ g.generation)
  unfolding admit admit_with
  half_open_refuses reading d cancels g half = elim (read_clock-cases fl reading g) [
    | inl e ↦ rw e (refl, refl, refl)
    | inr (v, _, e) ↦ rw e (ground arith)
  ]

  -- A permit of an earlier generation changes nothing of the circuit.
  stale_ignored :
      (probe : Bool) (generation : ℕ) (outcome : Outcome) (env : Environment Float)
      (g : Guard Float)
      → generation ≢ g.generation
      → ((complete_attempt fl probe generation outcome env g).1.state ≡ g.state)
        × ((complete_attempt fl probe generation outcome env g).1.generation ≡ g.generation)
  unfolding complete_attempt
  stale_ignored probe generation outcome env g ne = ground arith

  entered-refused :
      (w : World Float) (r : Result (GuardError Float) (Permit Float) × Guard Float)
      → is_ok r.0 ≡ false
      → entered fl w.attempts r ≡ record { guard = r.1; attempts = w.attempts }
  unfolding entered
  entered-refused w (ok p, g) h = cc
  entered-refused w (err e, g) h = refl

  Step-IsWedged : {u w : World Float} → Step fl u w → IsWedged u → IsWedged w
  Step-IsWedged {u} (ask reading d cancels) ((r, n, half), none_left) =
      let t = half_open_refuses reading d cancels u.guard half in
      unfold enter in
      rw (entered-refused u (admit fl reading d cancels u.guard) t.0)
        ((r, n, t.1 ∙ half), rw t.2 none_left)
  Step-IsWedged {u} (end i a outcome env e) ((r, n, half), none_left) =
      elim (Bool-cases a.finalized) [
        | inl final ↦ unfold record_outcome in rw (final, record_outcome) ((r, n, half), none_left)
        | inr live ↦
            let left =
              count_if-set (is_current u.guard.generation) u.attempts i a
                (record a { finalized = true }) e in
            let old : a.permit.generation ≢ u.guard.generation = λ same. ground (arith, left) in
            let kept = stale_ignored a.permit.probe a.permit.generation outcome env u.guard old in
            rw (record_outcome-live i a outcome env u live)
              ((r, n, kept.0 ∙ half), rw kept.1 (ground (arith, left)))
      ]

  -- From a circuit that is half open with no current attempt, every run leads to such a circuit, which refuses
  -- every admission.
  IsWedged-forever :
      {u w : World Float} (reading : Option Float) (d : Deadline Float) (cancels : Bool)
      → IsWedged u
      → Reach fl u w
      → IsWedged w × (is_ok (admit fl reading d cancels w.guard).0 ≡ false)
  IsWedged-forever {w = w} reading d cancels h reach =
      let v = stays h reach in (v, (half_open_refuses reading d cancels w.guard v.0.2).0)
    where
      stays : {u w : World Float} → IsWedged u → Reach fl u w → IsWedged w
      stays h here = h
      stays h (next r st) = Step-IsWedged st (stays h r)
