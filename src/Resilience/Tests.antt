-- ===== src/Resilience/Tests.antt =====
-- The upstream guard over milliseconds: runs of it, and the theorems about it at concrete inputs.
use nplg_dspace_mcp.Prelude.{
  inl, inr, ℕ, ◌+◌, ◌-◌, ◌*◌, ◌/◌, ◌^◌, ◌≡◌, refl, true, false, some, [], ◌∷◌, arith, ltb, leb,
}
use nplg_dspace_mcp.Prelude.Floats.{Floats}
use nplg_dspace_mcp.Resilience.Deadline.{Deadline}
use nplg_dspace_mcp.Resilience.Policy.{Policy}
use nplg_dspace_mcp.Resilience.Guard.{half_open, upstream_guard, read_clock, set_state}
use nplg_dspace_mcp.Resilience.Complete.{
  transient, Environment, complete_attempt, transient_reopen_count, open_interval,
}
use nplg_dspace_mcp.Resilience.Permits.{Attempt, World, enter, record_outcome}
use nplg_dspace_mcp.Resilience.Runs.{IsSafe}
use nplg_dspace_mcp.Resilience.Runs.Safety.{ask, here, next, Reach-IsSafe}
use nplg_dspace_mcp.Resilience.Wedge.{IsWedged, Decided, probe_decides, fault_wedges}

abbrev milliseconds : Floats
milliseconds = record {
  Float = ℕ;
  add = λ a b. a + b;
  sub = λ a b. a - b;
  mul = λ a b. a * b / 1000;
  lt = ltb;
  le = leb;
  is_finite = λ _. true;
  ldexp_one = λ n. 1000 * 2 ^ n;
  thousandths = λ n. n;
}

abbrev policy : Policy ℕ
policy = record {
  capacity = 2;
  failure_threshold = 1;
  base_open_seconds = 1000;
  max_open_seconds = 30_000;
  max_attempt_seconds = 15_000;
  jitter_ratio = 200;
}

abbrev request_deadline : Deadline ℕ
request_deadline = record { created_at = 0; expires_at = 60_000 }

abbrev working : Environment ℕ
working = record { reading = some 3000; sample = some 500; cancels = false }

abbrev idle : World ℕ
unfolding upstream_guard
idle = record { guard = upstream_guard milliseconds policy; attempts = [] }

idle-IsSafe : IsSafe idle
unfolding upstream_guard
idle-IsSafe = omega arith

Reach-IsSafe_example : IsSafe (enter milliseconds (some 5) request_deadline false idle)
Reach-IsSafe_example =
    Reach-IsSafe milliseconds idle-IsSafe (next here (ask (some 5) request_deadline false))

-- The circuit is half open and its probe is under way.
abbrev probe : Attempt ℕ
probe = record {
  permit = record { probe = true; generation = 2; deadline = request_deadline };
  finalized = false;
}

abbrev probing : World ℕ
probing = record {
  guard = record {
    policy = policy;
    last_now = some 2000;
    active = 1;
    generation = 2;
    state = half_open 1000 1;
  };
  attempts = probe ∷ [];
}

probing-IsSafe : IsSafe probing
probing-IsSafe = record {
  positive = omega arith;
  within = omega arith;
  out = omega arith;
  fitting = (refl, tt);
  counted = tt;
  single = omega arith;
}

probe_decides_example :
    (probe.permit.probe ≡ true)
    × Decided transient
        (record_outcome milliseconds 0 probe transient working probing).1.guard.state
unfolding record_outcome complete_attempt transient_reopen_count open_interval read_clock set_state
probe_decides_example =
    probe_decides milliseconds 0 probe transient working probing-IsSafe here refl refl refl refl

-- A clock that went back.
fault_wedges_example :
    IsWedged
      (record_outcome milliseconds 0 probe transient
        (record { reading = some 0; sample = some 500; cancels = false })
        probing).1
fault_wedges_example =
    fault_wedges milliseconds 0 probe transient
      (record { reading = some 0; sample = some 500; cancels = false }) probing-IsSafe here refl
      refl refl (λ e. cc) (inl ((λ e. cc), inr (inr (ground arith))))
