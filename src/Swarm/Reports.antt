-- ===== src/Swarm/Reports.antt =====
-- packages/sweep/src/sim/swarm.service.ts: `onFishComplete` and `activatePendingFish` from one
-- `await` to the next. Reports of several fish, a launch, the writes of a run's status by its
-- worker, pause and resume (sim-orchestrator.service.ts) and an abort run side by side in any order.
use thalamus_usecase_ssa.Prelude.{
  ℕ, ◌≡◌, ◌≢◌, ◌++◌, min, String, Bool, true, false, Option, List, [], ◌∷◌, ltb, if◌then◌else◌,
  count_of,
}
use thalamus_usecase_ssa.Swarm.{
  RunStatus, pending, Job, fish_job, aggregate_job, Swarm, is_pending, is_accounted, claim_pending,
  abort, set_status, open_slots, new_swarm,
}
pub mod Alone

-- What a report is about to do: count the fish, claim so many, queue those that it claimed, count
-- again, claim the gate, queue the aggregate, release the gate; or it is over.
pub data Report : Type 0 where
  counting : Report
  claiming : ℕ → Report
  queueing : List ℕ → Report
  accounting gating aggregating releasing over : Report

pub record World : Type 0 where
  pub swarm : Swarm
  pub reports : List Report

-- A report that has claimed the gate and has neither queued the aggregate nor released the gate.
abbrev pub holds_gate : Report → Bool
holds_gate aggregating = true
holds_gate releasing = true
holds_gate _ = false

module _ (accepts : List Job → Job → Bool) where
  -- A report up to its next `await`.
  unfoldable pub report_step : Swarm → Report → Swarm × Report
  report_step s counting =
      if ltb (count_of is_pending s.fish) 1
      then (s, accounting)
      else if ltb (open_slots s) 1
      then (s, accounting)
      else (s, claiming (min (open_slots s) (count_of is_pending s.fish)))
  report_step s (claiming limit) =
      let (fish, claimed) = claim_pending limit 0 s.fish in
      (record s { fish = fish }, queueing claimed)
  report_step s (queueing []) = (s, accounting)
  report_step s (queueing (index ∷ indexes)) =
      if accepts s.jobs (fish_job index)
      then (record s { jobs = s.jobs ++ fish_job index ∷ [] }, queueing indexes)
      else (s, over)
  report_step s accounting =
      if ltb (count_of is_accounted s.fish) s.size then (s, over) else (s, gating)
  report_step s gating =
      if s.is_claimed then (s, over) else (record s { is_claimed = true }, aggregating)
  report_step s aggregating =
      if accepts s.jobs aggregate_job
      then (record s { jobs = s.jobs ++ aggregate_job ∷ [] }, over)
      else (s, releasing)
  report_step s releasing = (record s { is_claimed = false }, over)
  report_step s over = (s, over)

  -- A report starts, goes on, or ends with its process while it does not hold the gate, as the
  -- launch does after it has queued; `updateRunStatus` writes any status but that of waiting,
  -- whatever its caller had read; an operator aborts.
  pub data Step : World → World → Type 0 where
    reports :
        (s : Swarm) (rs : List Report)
        → Step record { swarm = s; reports = rs } record { swarm = s; reports = counting ∷ rs }
    advances :
        (s : Swarm) (before after : List Report) (r : Report)
        → Step
            record { swarm = s; reports = before ++ r ∷ after }
            record { swarm = (report_step s r).0; reports = before ++ (report_step s r).1 ∷ after }
    quits :
        (s : Swarm) (before after : List Report) (r : Report)
        → holds_gate r ≡ false
        → Step
            record { swarm = s; reports = before ++ r ∷ after }
            record { swarm = s; reports = before ++ after }
    updates :
        (s : Swarm) (rs : List Report) (index : ℕ) (status : RunStatus)
        → status ≢ pending
        → Step
            record { swarm = s; reports = rs }
            record { swarm = record s { fish = set_status index status s.fish }; reports = rs }
    aborts :
        (s : Swarm) (rs : List Report)
        → Step record { swarm = s; reports = rs } record { swarm = abort s; reports = rs }

  pub data Reachable : World → Type 0 where
    launched :
        (fish_concurrency : Option ℕ) (perturbations : List String)
        → Reachable
            record { swarm = new_swarm accepts fish_concurrency perturbations; reports = [] }
    next : {v w : World} → Reachable v → Step v w → Reachable w
