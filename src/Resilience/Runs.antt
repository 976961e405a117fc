-- ===== src/Resilience/Runs.antt =====
-- The permits of a run against the guard's state: what stays true whatever the clock, the random source
-- and the observer do, and in whatever order attempts are admitted, recorded and left.
pub mod Safety
use nplg_dspace_mcp.Prelude.{
  ℕ, ◌+◌, ◌-◌, ◌≤◌, ◌<◌, ◌≡◌, ◌⊎◌, inl, inr, refl, Bool, true, false, not, ◌&&◌, ◌||◌, ◌==◌, Option,
  none, some, List, [], ◌∷◌, ◌++◌, arith, ltb, if◌then◌else◌, Result, ok, err, get_elem?, set, All,
  All-imp, All-append, All-set, All-get, count_if, count_if-append, count_if-set, count_if-none,
}
use nplg_dspace_mcp.Prelude.Floats.{Floats}
use nplg_dspace_mcp.Resilience.Deadline.{Deadline, remaining}
use nplg_dspace_mcp.Resilience.Guard.{
  CircuitState, closed, open_until, half_open, GuardError, Permit, Guard, state_label, admit,
  admit_with, read_clock, read_clock-cases, set_state,
}
use nplg_dspace_mcp.Resilience.Complete.{
  Outcome, success, excluded, transient, other_outcome, Environment, complete_attempt,
  transient_reopen_count, open_interval,
}
use nplg_dspace_mcp.Resilience.Permits.{Attempt, World, enter, record_outcome}

module _ {Float : Type 0} where
  -- An attempt that has not recorded its outcome.
  abbrev pub is_out : Attempt Float → Bool
  is_out a = not a.finalized

  -- One that can still change the circuit: it is of the guard's generation.
  abbrev pub is_current : ℕ → Attempt Float → Bool
  is_current generation a = not a.finalized && (a.permit.generation == generation)

  -- Current attempts are ordinary while the circuit is closed and probes while it is half open.
  abbrev pub suits : CircuitState Float → Bool → Bool
  suits (closed _) probe = not probe
  suits (open_until _ _) probe = false
  suits (half_open _ _) probe = probe

  abbrev pub fits : ℕ → CircuitState Float → Attempt Float → Bool
  fits generation state a =
      a.finalized
      || (ltb a.permit.generation generation
          || ((a.permit.generation == generation) && suits state a.permit.probe))

  -- Failures below the threshold are counted in the closed state.
  abbrev pub IsCounted : ℕ → CircuitState Float → Type 0
  IsCounted threshold (closed failures) = failures < threshold
  IsCounted threshold _ = Unit

  -- At most one current attempt while half open.
  abbrev pub IsSingle : CircuitState Float → ℕ → Type 0
  IsSingle (half_open _ _) n = n ≤ 1
  IsSingle _ n = Unit

  pub record IsSafe (w : World Float) : Type 0 where
    pub positive : 0 < w.guard.policy.failure_threshold
    pub within : w.guard.active ≤ w.guard.policy.capacity
    pub out : count_if is_out w.attempts ≤ w.guard.active
    pub fitting : All (λ a. fits w.guard.generation w.guard.state a ≡ true) w.attempts
    pub counted : IsCounted w.guard.policy.failure_threshold w.guard.state
    pub single : IsSingle w.guard.state (count_if (is_current w.guard.generation) w.attempts)

  -- The guard after a transition: the same generation and the same kind of state, or
  -- a later generation.
  abbrev pub Advances : Guard Float → Guard Float → Type 0
  Advances g g' =
      ((g'.generation ≡ g.generation) × (state_label g'.state ≡ state_label g.state))
      ⊎ (g.generation < g'.generation)

  pub fits-advance :
      (generation generation' : ℕ) (state state' : CircuitState Float) (a : Attempt Float)
      → ((generation' ≡ generation) × (state_label state' ≡ state_label state))
        ⊎ (generation < generation')
      → fits generation state a ≡ true
      → fits generation' state' a ≡ true
  fits-advance g g' (closed _) (closed _) a h f = ground arith
  fits-advance g g' (open_until _ _) (closed _) a h f = ground arith
  fits-advance g g' (half_open _ _) (closed _) a h f = ground arith
  fits-advance g g' (closed _) (open_until _ _) a h f = ground arith
  fits-advance g g' (open_until _ _) (open_until _ _) a h f = ground arith
  fits-advance g g' (half_open _ _) (open_until _ _) a h f = ground arith
  fits-advance g g' (closed _) (half_open _ _) a h f = ground arith
  fits-advance g g' (open_until _ _) (half_open _ _) a h f = ground arith
  fits-advance g g' (half_open _ _) (half_open _ _) a h f = ground arith

  -- After the generation has moved on, no attempt given out before is current.
  pub none_current :
      (generation later : ℕ) (state : CircuitState Float) (attempts : List (Attempt Float))
      → generation < later
      → All (λ a. fits generation state a ≡ true) attempts
      → count_if (is_current later) attempts ≡ 0
  none_current g later s attempts lt h = count_if-none (is_current later) attempts (
      All-imp (λ a. fits g s a ≡ true) (λ a. is_current later a ≡ false) attempts
        (λ a f. ground arith) h)

module _ (fl : Floats) where
  open fl use {Float}

  pub complete-counts :
      (probe : Bool) (generation : ℕ) (outcome : Outcome) (env : Environment Float)
      (g : Guard Float)
      → 0 < g.active
      → ((complete_attempt fl probe generation outcome env g).1.active + 1 ≡ g.active)
        × ((complete_attempt fl probe generation outcome env g).1.policy ≡ g.policy)
        × Advances g (complete_attempt fl probe generation outcome env g).1
  unfolding complete_attempt read_clock set_state transient_reopen_count
  complete-counts probe generation success env g h = ground arith
  complete-counts probe generation excluded env g h = ground arith
  complete-counts probe generation transient env g h = ground arith
  complete-counts probe generation other_outcome env g h = ground arith

  pub complete-IsCounted :
      (probe : Bool) (generation : ℕ) (outcome : Outcome) (env : Environment Float)
      (g : Guard Float)
      → 0 < g.policy.failure_threshold
      → IsCounted g.policy.failure_threshold g.state
      → IsCounted g.policy.failure_threshold
          (complete_attempt fl probe generation outcome env g).1.state
  unfolding complete_attempt read_clock set_state transient_reopen_count
  complete-IsCounted probe generation success env g h c = ground arith
  complete-IsCounted probe generation excluded env g h c = ground arith
  complete-IsCounted probe generation transient env g h c = ground arith
  complete-IsCounted probe generation other_outcome env g h c = ground arith

  -- What an admission does to the guard, whether it is granted or not.
  abbrev pub AdmitCounts : Guard Float → Guard Float → Type 0
  AdmitCounts g g' =
      (g.active ≤ g'.active)
      × (g'.active ≤ g.policy.capacity)
      × (g'.policy ≡ g.policy)
      × Advances g g'
      × IsCounted g.policy.failure_threshold g'.state

  admit_with-counts :
      (state : CircuitState Float) (now : Float) (d : Deadline Float) (cancels : Bool)
      (g : Guard Float)
      → g.state ≡ state
      → g.active ≤ g.policy.capacity
      → IsCounted g.policy.failure_threshold state
      → AdmitCounts g (admit_with fl now cancels g (remaining fl d now)).1
  unfolding admit_with
  admit_with-counts (closed n) now d cancels g e h c = ground arith
  admit_with-counts (open_until r n) now d cancels g e h c = ground arith
  admit_with-counts (half_open r n) now d cancels g e h c = ground arith

  pub admit-counts :
      (reading : Option Float) (d : Deadline Float) (cancels : Bool) (g : Guard Float)
      → g.active ≤ g.policy.capacity
      → IsCounted g.policy.failure_threshold g.state
      → AdmitCounts g (admit fl reading d cancels g).1
  unfolding admit
  admit-counts reading d cancels g h c = elim (read_clock-cases fl reading g) [
    | inl e ↦ rw e (ground arith)
    | inr (v, _, e) ↦ rw e (
        unfold admit in
        admit_with-counts g.state v d cancels (record g { last_now = some v }) refl h c)
  ]

  -- A granted permit is current, suits the state, and holds one more place; a probe opens a generation.
  abbrev pub AdmitGrants :
      Guard Float → Result (GuardError Float) (Permit Float) × Guard Float → Type 0
  AdmitGrants g (err _, g') = Unit
  AdmitGrants g (ok p, g') =
      (g'.active ≡ g.active + 1)
      × (p.generation ≡ g'.generation)
      × (suits g'.state p.probe ≡ true)
      × ((state_label g'.state ≡ 0) ⊎ (g'.generation ≡ g.generation + 1))

  admit_with-grants :
      (state : CircuitState Float) (now : Float) (d : Deadline Float) (cancels : Bool)
      (g : Guard Float)
      → g.state ≡ state
      → AdmitGrants g (admit_with fl now cancels g (remaining fl d now))
  unfolding admit_with
  admit_with-grants (closed n) now d cancels g e = ground arith
  admit_with-grants (open_until r n) now d cancels g e = ground arith
  admit_with-grants (half_open r n) now d cancels g e = ground arith

  pub admit-grants :
      (reading : Option Float) (d : Deadline Float) (cancels : Bool) (g : Guard Float)
      → AdmitGrants g (admit fl reading d cancels g)
  unfolding admit
  admit-grants reading d cancels g = elim (read_clock-cases fl reading g) [
    | inl e ↦ rw e tt
    | inr (v, _, e) ↦
        rw e (admit_with-grants g.state v d cancels (record g { last_now = some v }) refl)
  ]
