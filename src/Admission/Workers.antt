-- ===== src/Admission/Workers.antt =====
-- `BoundedThreadRunner` of src/nplg_mcp/bounded_work.py. A permit follows the worker call, not the caller:
-- cancelling the caller gives nothing back, and the worker's callback releases.
pub mod Lifetime
use Prim.Native.String.{String}
use nplg_dspace_mcp.Prelude.{
  ℕ, zero, suc, Bool, true, false, ◌||◌, List, [], ◌∷◌, if◌then◌else◌, Result, ok, err, Argument,
}
use text.Mathlib.Text.{◌==◌}
use nplg_dspace_mcp.Admission.Gate
use nplg_dspace_mcp.Admission.Gate.{AdmissionGate, GateError}

-- Where the coroutine that submitted a job is.
pub data Caller : Type 0 where
  -- awaiting the shielded future
  waiting : Caller
  -- cancelled, and in the loop of `run_to_completion` that waits for the job
  draining : Caller
  -- the cancellation has left `run`
  gone : Caller

-- A submitted operation that has not completed.
pub record Job : Type 0 where
  pub to_completion : Bool
  pub caller : Caller

pub record Runner : Type 0 where
  pub gate : AdmissionGate
  pub jobs : List Job

pub data RunnerError : Type 0 where
  invalid_prefix capacity_exhausted submit_failed : RunnerError
  gate_error : GateError → RunnerError

started_runner : Result GateError AdmissionGate → Result RunnerError Runner
started_runner (ok g) = ok (record { gate = g; jobs = [] })
started_runner (err e) = err (gate_error e)

-- `__init__`; whether the prefix has a NUL is an argument
unfoldable pub bounded_thread_runner : Argument → String → Bool → Result RunnerError Runner
unfolding started_runner
bounded_thread_runner capacity prefix has_nul =
    if prefix == "" || has_nul
    then err invalid_prefix
    else started_runner (Gate.admission_gate capacity)

submitted : Bool × AdmissionGate → Bool → Bool → Runner → Result RunnerError (Unit {0}) × Runner
submitted (false, g) to_completion submits r = (err capacity_exhausted, record r { gate = g })
submitted (true, g) to_completion true r = (
  ok tt,
  record r { gate = g; jobs = record { to_completion = to_completion; caller = waiting } ∷ r.jobs },
)
submitted (true, g) to_completion false r =
    let (_, g') = Gate.release g in (err submit_failed, record r { gate = g' })

-- `run` (false) and `run_to_completion` (true) up to their await. The second flag is whether the
-- executor accepts the job; when it raises, the permit goes back.
unfoldable pub run : Bool → Bool → Runner → Result RunnerError (Unit {0}) × Runner
unfolding submitted
run to_completion submits r = submitted (Gate.try_acquire r.gate) to_completion submits r

-- what a cancellation of the caller does to it
unfoldable pub cancelled : Job → Job
cancelled job = record job {
  caller = elim job.caller [
    | gone ↦ gone
    | draining ↦ draining
    | waiting ↦ if job.to_completion then draining else gone
  ];
}

unfoldable pub cancel_at : ℕ → List Job → List Job
unfolding cancelled
cancel_at i [] = []
cancel_at zero (job ∷ jobs) = cancelled job ∷ jobs
cancel_at (suc i) (job ∷ jobs) = job ∷ cancel_at i jobs

-- The caller of the i-th job is cancelled.
unfoldable pub cancel : ℕ → Runner → Runner
unfolding cancel_at
cancel i r = record r { jobs = cancel_at i r.jobs }

unfoldable pub remove_at : ℕ → List Job → List Job
remove_at i [] = []
remove_at zero (job ∷ jobs) = jobs
remove_at (suc i) (job ∷ jobs) = job ∷ remove_at i jobs

-- The i-th job ends: `_release_permit`, called from the worker thread.
unfoldable pub complete : ℕ → Runner → Result GateError (Unit {0}) × Runner
unfolding remove_at
complete i r =
    let (result, g) = Gate.release r.gate in
    (result, record r { gate = g; jobs = remove_at i r.jobs })
