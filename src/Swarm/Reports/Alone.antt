-- ===== src/Swarm/Reports/Alone.antt =====
-- packages/sweep/src/sim/swarm.service.ts: a report that nothing comes between.
use thalamus_usecase_ssa.Prelude.{Bool, List}
use thalamus_usecase_ssa.Swarm.{Job, Swarm}
use thalamus_usecase_ssa.Swarm.Reports.{Report, over, report_step}

module _ (accepts : List Job → Job → Bool) where
  -- A report that is taken from one `await` to the next until it is over, and the swarm it leaves.
  pub data Runs : Swarm → Report → Swarm → Type 0 where
    is_over : (s : Swarm) → Runs s over s
    goes :
        {s t : Swarm} {r : Report}
        → Runs (report_step accepts s r).0 (report_step accepts s r).1 t
        → Runs s r t
