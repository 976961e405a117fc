-- ===== src/Admission/Tests.antt =====
-- The gates at concrete inputs, and the theorems about them applied there.
use nplg_dspace_mcp.Prelude.{refl, true, [], arith}
use nplg_dspace_mcp.Admission.Gate.{AdmissionGate}
use nplg_dspace_mcp.Admission.Workers.{Runner, run, cancel}
use nplg_dspace_mcp.Admission.Workers.Lifetime
use nplg_dspace_mcp.Admission.Workers.Lifetime.{IsSound, Reach-IsSound}

abbrev single : AdmissionGate
single = record { capacity = 1; active = 0 }

abbrev runner : Runner
runner = record { gate = single; jobs = [] }

Reach-IsSound_example : IsSound (cancel 0 (run true true runner).1)
Reach-IsSound_example =
    Reach-IsSound {r = runner}
      (record { positive = omega arith; within = omega arith; counted = refl; attended = tt })
      (Lifetime.next (Lifetime.next Lifetime.here (Lifetime.submit runner true true))
        (Lifetime.drop (run true true runner).1 0))
