-- ===== src/Resilience/Runs/Safety.antt =====
-- Every run of the upstream guard is safe, faults of its clock and random source included.
use nplg_dspace_mcp.Prelude.{
  ℕ, ◌+◌, ◌≤◌, ◌<◌, ◌≡◌, ◌⊎◌, inl, inr, refl, Bool, true, false, Option, some, List, [], ◌∷◌, arith,
  Result, ok, err, get_elem?, set, All, All-imp, All-append, All-set, count_if, count_if-append,
  count_if-set, one_if, Bool-cases,
}
use nplg_dspace_mcp.Prelude.Floats.{Floats}
use nplg_dspace_mcp.Resilience.Deadline.{Deadline}
use nplg_dspace_mcp.Resilience.Guard.{
  CircuitState, closed, open_until, half_open, GuardError, Permit, Guard, state_label, admit,
}
use nplg_dspace_mcp.Resilience.Complete.{Outcome, Environment, complete_attempt}
use nplg_dspace_mcp.Resilience.Permits.{Attempt, World, entered, enter, record_outcome}
use nplg_dspace_mcp.Resilience.Runs.{
  is_out, is_current, fits, IsSingle, IsSafe, Advances, fits-advance, none_current, complete-counts,
  complete-IsCounted, AdmitCounts, AdmitGrants, admit-counts, admit-grants,
}

module _ {Float : Type 0} where
  fitting-advance :
      (g g' : Guard Float) (attempts : List (Attempt Float))
      → Advances g g'
      → All (λ a. fits g.generation g.state a ≡ true) attempts
      → All (λ a. fits g'.generation g'.state a ≡ true) attempts
  fitting-advance g g' attempts adv =
      All-imp (λ a. fits g.generation g.state a ≡ true) (λ a. fits g'.generation g'.state a ≡ true)
        attempts (λ a. fits-advance g.generation g'.generation g.state g'.state a adv)

  single-advance :
      (generation generation' : ℕ) (state state' : CircuitState Float)
      (attempts : List (Attempt Float))
      → ((generation' ≡ generation) × (state_label state' ≡ state_label state))
        ⊎ (generation < generation')
      → All (λ a. fits generation state a ≡ true) attempts
      → IsSingle state (count_if (is_current generation) attempts)
      → IsSingle state' (count_if (is_current generation') attempts)
  single-advance g g' s (closed _) attempts adv fit one = tt
  single-advance g g' s (open_until _ _) attempts adv fit one = tt
  single-advance g g' s (half_open _ _) attempts (inr later) fit one =
      omega (arith, none_current g g' s attempts later fit)
  single-advance g g' (closed _) (half_open _ _) attempts (inl same) fit one = absurd (omega arith)
  single-advance g g' (open_until _ _) (half_open _ _) attempts (inl same) fit one =
      absurd (omega arith)
  single-advance g g' (half_open _ _) (half_open _ _) attempts (inl same) fit one = rw (same.0) one

  -- Finalizing an attempt that was out leaves one fewer out, and no more current ones.
  pub finalized-counts :
      (generation : ℕ) (attempts : List (Attempt Float)) (i : ℕ) (a : Attempt Float)
      → get_elem? attempts i ≡ some a
      → a.finalized ≡ false
      → let attempts' = set attempts i (record a { finalized = true }) in
        (count_if is_out attempts' + 1 ≡ count_if is_out attempts)
        × (count_if (is_current generation) attempts' ≤ count_if (is_current generation) attempts)
  finalized-counts generation attempts i a e live =
      let out = count_if-set is_out attempts i a (record a { finalized = true }) e in
      let current =
        count_if-set (is_current generation) attempts i a (record a { finalized = true }) e in
      (ground (arith, out), ground (arith, current))

  single-le : (state : CircuitState Float) (n m : ℕ) → m ≤ n → IsSingle state n → IsSingle state m
  single-le (closed _) n m le h = tt
  single-le (open_until _ _) n m le h = tt
  single-le (half_open _ _) n m le h = omega arith

  single-new :
      (generation generation' : ℕ) (state state' : CircuitState Float)
      (attempts : List (Attempt Float)) (a : Attempt Float)
      → (state_label state' ≡ 0) ⊎ (generation' ≡ generation + 1)
      → All (λ a. fits generation state a ≡ true) attempts
      → IsSingle state'
          (count_if (is_current generation') attempts + one_if (is_current generation' a))
  single-new g g' s (closed _) attempts a h fit = tt
  single-new g g' s (open_until _ _) attempts a h fit = tt
  single-new g g' s (half_open _ _) attempts a (inl h) fit = absurd (omega arith)
  single-new g g' s (half_open _ _) attempts a (inr h) fit =
      ground (arith, none_current g g' s attempts (omega arith) fit)

module _ (fl : Floats) where
  open fl use {Float}

  entered-IsSafe :
      (w : World Float) (r : Result (GuardError Float) (Permit Float) × Guard Float)
      → IsSafe w
      → AdmitCounts fl w.guard r.1
      → AdmitGrants fl w.guard r
      → IsSafe (entered fl w.attempts r)
  unfolding entered
  entered-IsSafe w (err e, g) v c t = record {
    positive = rw c.2 v.positive;
    within = rw c.2 c.1;
    out = omega (arith, v.out, c.0);
    fitting = fitting-advance w.guard g w.attempts c.3 v.fitting;
    counted = rw c.2 c.4;
    single =
        single-advance w.guard.generation g.generation w.guard.state g.state w.attempts c.3
          v.fitting v.single;
  }
  entered-IsSafe w (ok p, g) v c t =
      let a : Attempt Float = record { permit = p; finalized = false } in
      let before = fitting-advance w.guard g w.attempts c.3 v.fitting in
      record {
        positive = rw c.2 v.positive;
        within = rw c.2 c.1;
        out = rw (count_if-append is_out w.attempts a) (omega (arith, v.out, t.0));
        fitting =
            All-append (λ a. fits g.generation g.state a ≡ true) w.attempts (a ∷ []) before
              (ground (arith, t), tt);
        counted = rw c.2 c.4;
        single = rw (count_if-append (is_current g.generation) w.attempts a) (
            single-new w.guard.generation g.generation w.guard.state g.state w.attempts a t.3
              v.fitting);
      }

  record_outcome-IsSafe :
      (i : ℕ) (a : Attempt Float) (outcome : Outcome) (env : Environment Float) (w : World Float)
      → get_elem? w.attempts i ≡ some a
      → IsSafe w
      → IsSafe (record_outcome fl i a outcome env w).1
  unfolding record_outcome
  record_outcome-IsSafe i a outcome env w e v = elim (Bool-cases a.finalized) [
    | inl final ↦ rw final v
    | inr live ↦
        let done = finalized-counts w.guard.generation w.attempts i a e live in
        let busy : 0 < w.guard.active = omega (arith, done.0, v.out) in
        let c = complete-counts fl a.permit.probe a.permit.generation outcome env w.guard busy in
        let g' = (complete_attempt fl a.permit.probe a.permit.generation outcome env w.guard).1 in
        let attempts' = set w.attempts i (record a { finalized = true }) in
        let kept : All (λ a. fits w.guard.generation w.guard.state a ≡ true) attempts' =
          All-set (λ a. fits w.guard.generation w.guard.state a ≡ true) w.attempts i
            (record a { finalized = true }) v.fitting refl in
        let safe : IsSafe (record { guard = g'; attempts = attempts' }) = record {
          positive = rw c.1 v.positive;
          within = rw c.1 (omega (arith, c.0, v.within));
          out = omega (arith, c.0, done.0, v.out);
          fitting = fitting-advance w.guard g' attempts' c.2 kept;
          counted = rw c.1 (
              complete-IsCounted fl a.permit.probe a.permit.generation outcome env w.guard
                v.positive v.counted);
          single =
              single-advance w.guard.generation g'.generation w.guard.state g'.state attempts' c.2
                kept (single-le w.guard.state _ _ done.1 v.single);
        } in
        rw (live, record_outcome) safe
  ]

  -- One step of a run: an attempt asks for admission, or an admitted one records an outcome.
  pub data Step (w : World Float) : World Float → Type 0 where
    ask :
        (reading : Option Float) (d : Deadline Float) (cancels : Bool)
        → Step w (enter fl reading d cancels w)
    end :
        (i : ℕ) (a : Attempt Float) (outcome : Outcome) (env : Environment Float)
        → get_elem? w.attempts i ≡ some a
        → Step w (record_outcome fl i a outcome env w).1

  pub data Reach (w : World Float) : World Float → Type 0 where
    here : Reach w w
    next : {u v : World Float} → Reach w u → Step u v → Reach w v

  Step-IsSafe : {u v : World Float} → Step u v → IsSafe u → IsSafe v
  Step-IsSafe {u} (ask reading d cancels) h =
      unfold enter in
      entered-IsSafe u (admit fl reading d cancels u.guard) h
        (admit-counts fl reading d cancels u.guard h.within h.counted)
        (admit-grants fl reading d cancels u.guard)
  Step-IsSafe {u} (end i a outcome env e) h = record_outcome-IsSafe i a outcome env u e h

  -- From a safe guard with its permits, every run of admissions and recorded or excluded outcomes, with any
  -- answers of the clock, the random source and the observer, leads to a safe one: the attempts without an outcome
  -- are at most the places taken, which never pass the capacity, the current attempts fit the state of the
  -- circuit, and a half-open circuit has at most one current attempt.
  pub Reach-IsSafe : {u v : World Float} → IsSafe u → Reach u v → IsSafe v
  Reach-IsSafe h here = h
  Reach-IsSafe h (next r st) = Step-IsSafe st (Reach-IsSafe h r)
