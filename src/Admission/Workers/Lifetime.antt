-- ===== src/Admission/Workers/Lifetime.antt =====
-- The runs of a bounded thread runner: calls are submitted, callers are cancelled and jobs complete.
use nplg_dspace_mcp.Prelude.{
  ℕ, zero, suc, ◌+◌, ◌≤◌, ◌<◌, ◌≡◌, ◌≢◌, Bool, true, false, List, [], ◌∷◌, arith, length, All, ok,
  refl,
}
use nplg_dspace_mcp.Admission.Gate
use nplg_dspace_mcp.Admission.Workers.{
  Caller, Job, Runner, run, cancelled, cancel_at, cancel, remove_at, complete,
}

pub data Step : Runner → Runner → Type 0 where
  submit : (r : Runner) (to_completion accepted : Bool) → Step r (run to_completion accepted r).1
  drop : (r : Runner) (i : ℕ) → Step r (cancel i r)
  end : (r : Runner) (i : ℕ) → i < length r.jobs → Step r (complete i r).1

pub data Reach (r : Runner) : Runner → Type 0 where
  here : Reach r r
  next : {s t : Runner} → Reach r s → Step s t → Reach r t

-- A job that runs to completion still has its caller.
abbrev pub IsAttended : Job → Type 0
IsAttended job = job.to_completion ≡ true → job.caller ≢ Caller.gone

pub record IsSound (r : Runner) : Type 0 where
  pub positive : 0 < r.gate.capacity
  pub within : r.gate.active ≤ r.gate.capacity
  pub counted : r.gate.active ≡ length r.jobs
  pub attended : All IsAttended r.jobs

length-cancel_at : (i : ℕ) (jobs : List Job) → length (cancel_at i jobs) ≡ length jobs
unfolding cancel_at
length-cancel_at i [] = refl
length-cancel_at zero (job ∷ jobs) = refl
length-cancel_at (suc i) (job ∷ jobs) = omega (arith, length-cancel_at i jobs)

length-remove_at :
    (i : ℕ) (jobs : List Job) → i < length jobs → length (remove_at i jobs) + 1 ≡ length jobs
unfolding remove_at
length-remove_at i [] h = elim h [ ]
length-remove_at zero (job ∷ jobs) h = omega arith
length-remove_at (suc i) (job ∷ jobs) h = omega (arith, length-remove_at i jobs (omega arith))

cancelled-IsAttended : (job : Job) → IsAttended job → IsAttended (cancelled job)
unfolding cancelled
cancelled-IsAttended job h e = ground (arith, h e)

All-cancel_at : (i : ℕ) (jobs : List Job) → All IsAttended jobs → All IsAttended (cancel_at i jobs)
unfolding cancel_at
All-cancel_at i [] h = tt
All-cancel_at zero (job ∷ jobs) h = (cancelled-IsAttended job h.0, h.1)
All-cancel_at (suc i) (job ∷ jobs) h = (h.0, All-cancel_at i jobs h.1)

All-remove_at : (i : ℕ) (jobs : List Job) → All IsAttended jobs → All IsAttended (remove_at i jobs)
unfolding remove_at
All-remove_at i [] h = tt
All-remove_at zero (job ∷ jobs) h = h.1
All-remove_at (suc i) (job ∷ jobs) h = (h.0, All-remove_at i jobs h.1)

run-IsSound : (c a : Bool) (r : Runner) → IsSound r → IsSound (run c a r).1
unfolding run Gate.try_acquire Gate.release
run-IsSound c true r v = ground arith
run-IsSound c false r v = ground arith

cancel-IsSound : (i : ℕ) (r : Runner) → IsSound r → IsSound (cancel i r)
unfolding cancel
cancel-IsSound i r v = record {
  positive = v.positive;
  within = v.within;
  counted = omega (arith, length-cancel_at i r.jobs, v.counted);
  attended = All-cancel_at i r.jobs v.attended;
}

complete-IsSound : (i : ℕ) (r : Runner) → i < length r.jobs → IsSound r → IsSound (complete i r).1
unfolding complete Gate.release
complete-IsSound i r h v = record {
  positive = ground arith;
  within = ground arith;
  counted = ground (arith, length-remove_at i r.jobs h);
  attended = ground (arith, All-remove_at i r.jobs v.attended);
}

Step-IsSound : {r s : Runner} → Step r s → IsSound r → IsSound s
Step-IsSound (submit r c a) v = run-IsSound c a r v
Step-IsSound (drop r i) v = cancel-IsSound i r v
Step-IsSound (end r i h) v = complete-IsSound i r h v

-- From a sound runner, whatever is submitted, cancelled and completed, the permits out are exactly the jobs that
-- still run, never more than the capacity, and a job submitted to run to completion keeps its caller until it
-- ends.
pub Reach-IsSound : {r s : Runner} → IsSound r → Reach r s → IsSound s
Reach-IsSound v here = v
Reach-IsSound v (next h st) = Step-IsSound st (Reach-IsSound v h)

-- The completion callback of a job that runs in a state reached from a sound runner never raises.
complete-balanced :
    {r s : Runner} (i : ℕ) → IsSound r → Reach r s → i < length s.jobs → (complete i s).0 ≡ ok tt
unfolding complete Gate.release
complete-balanced {r} {s} i v h lt = let w = Reach-IsSound v h in ground arith
