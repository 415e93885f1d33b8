-- ===== src/Swarm.antt =====
-- packages/sweep/src/sim/swarm.service.ts, with the gate of swarm-aggregate-gate.ts beside it and
-- the store's claimPendingFishForSwarm (apps/console-api/src/repositories/sim-run.repository.ts)
-- and abortSwarm (sim-swarm.repository.ts): fish are claimed, queued and counted.
-- The fish stand in the order of their index. A setting that should be a positive number is
-- `none` where it is not, and else counted in thousandths. The queue is a parameter: it accepts a
-- job, or the call throws.
use thalamus_usecase_ssa.Prelude.{
  ℕ, zero, suc, ◌+◌, ◌-◌, ◌/◌, min, ◌<◌, ◌≤◌, ◌≡◌, String, Bool, true, false, ◌&&◌, ◌||◌, Option,
  none, some, List, [], ◌∷◌, ◌++◌, map, ltb, nat_eq, if◌then◌else◌, ◌==◌, string_Eq, length,
  count_of,
}
pub mod Claim
pub mod Reports
pub mod Sound
pub mod Progress
pub mod Worker
mod Samples

-- The status of a fish, and of the swarm.
pub data RunStatus : Type 0 where
  pending running paused done failed timed_out : RunStatus

pub data Job : Type 0 where
  fish_job : ℕ → Job
  aggregate_job : Job

pub record Swarm : Type 0 where
  pub status : RunStatus
  pub size : ℕ
  pub fish_concurrency : Option ℕ
  pub fish : List RunStatus
  pub is_claimed : Bool
  pub jobs : List Job

-- What a call of the service comes to.
pub data Answer (A : Type 0) : Type 0 where
  threw : Answer A
  answered : A → Answer A

abbrev pub is_pending : RunStatus → Bool
is_pending pending = true
is_pending _ = false

abbrev pub is_running : RunStatus → Bool
is_running running = true
is_running _ = false

-- `done`, `failed` or `timeout`
abbrev pub is_accounted : RunStatus → Bool
is_accounted done = true
is_accounted failed = true
is_accounted timed_out = true
is_accounted _ = false

-- `readPositiveInt(value, fallback)`
abbrev pub read_positive_int : Option ℕ → ℕ → ℕ
read_positive_int none fallback = fallback
read_positive_int (some value) fallback = if ltb 0 value then value / 1000 else fallback

-- `claimPendingFishForSwarm(swarmId, limit)` on the fish from an index on: the statuses after it,
-- and the indexes that it claims.
pub claim_pending : ℕ → ℕ → List RunStatus → List RunStatus × List ℕ
claim_pending limit index [] = ([], [])
claim_pending zero index (f ∷ fs) = (f ∷ fs, [])
claim_pending (suc limit) index (pending ∷ fs) =
    let (rest, claimed) = claim_pending limit (suc index) fs in (running ∷ rest, index ∷ claimed)
claim_pending (suc limit) index (f ∷ fs) =
    let (rest, claimed) = claim_pending (suc limit) (suc index) fs in (f ∷ rest, claimed)

-- `abortSwarm`: the fish that are still open fail.
abbrev pub fail_open : RunStatus → RunStatus
fail_open pending = failed
fail_open running = failed
fail_open status = status

pub abort : Swarm → Swarm
abort s = record s { status = failed; fish = map fail_open s.fish }

-- `updateRunStatus` of the fish with an index.
pub set_status : ℕ → RunStatus → List RunStatus → List RunStatus
set_status index status [] = []
set_status zero status (f ∷ fs) = status ∷ fs
set_status (suc index) status (f ∷ fs) = f ∷ set_status index status fs

abbrev pub open_slots : Swarm → ℕ
open_slots s = read_positive_int s.fish_concurrency 1 - count_of is_running s.fish

module _ (accepts : List Job → Job → Bool) where
  -- The loop that queues the fish that were claimed; `false` where a call throws.
  pub enqueue_fish : List ℕ → List Job → List Job × Bool
  enqueue_fish [] jobs = (jobs, true)
  enqueue_fish (index ∷ indexes) jobs =
      let rest = enqueue_fish indexes (jobs ++ fish_job index ∷ []) in
      if accepts jobs (fish_job index) then rest else (jobs, false)

  -- The claim of so many fish, and the loop.
  pub claim_fish : ℕ → Swarm → Swarm × Answer ℕ
  unfolding claim_pending enqueue_fish
  claim_fish limit s =
      let (fish, claimed) = claim_pending limit 0 s.fish in
      let (jobs, is_queued) = enqueue_fish claimed s.jobs in
      (
        record s { fish = fish; jobs = jobs },
        if is_queued then answered (length claimed) else threw,
      )

  -- `activatePendingFish(swarmId, config)`
  pub activate_pending_fish : Swarm → Swarm × Answer ℕ
  unfolding claim_fish
  activate_pending_fish s =
      if ltb (count_of is_pending s.fish) 1
      then (s, answered 0)
      else if ltb (open_slots s) 1
      then (s, answered 0)
      else claim_fish (min (open_slots s) (count_of is_pending s.fish)) s

  -- The aggregate is queued by the first that claims the gate, which is released if that throws.
  pub enqueue_aggregate : Swarm → Swarm × Answer Bool
  enqueue_aggregate s =
      if s.is_claimed
      then (s, answered false)
      else if accepts s.jobs aggregate_job
      then (record s { is_claimed = true; jobs = s.jobs ++ aggregate_job ∷ [] }, answered true)
      else (record s { is_claimed = false }, threw)

  pub account : Swarm × Answer ℕ → Swarm × Answer Bool
  unfolding enqueue_aggregate
  account (s, threw) = (s, threw)
  account (s, answered n) =
      if ltb (count_of is_accounted s.fish) s.size then (s, answered false) else enqueue_aggregate s

  -- `onFishComplete(swarmId)` of a swarm that is found.
  unfoldable pub on_fish_complete : Swarm → Swarm × Answer Bool
  unfolding activate_pending_fish account
  on_fish_complete s = account (activate_pending_fish s)

  -- The swarm that `launchSwarm` stores, with a fish for each perturbation.
  abbrev pub new_swarm : Option ℕ → List String → Swarm
  new_swarm fish_concurrency perturbations = record {
    status = running;
    size = length perturbations;
    fish_concurrency = fish_concurrency;
    fish = map (λ p. pending) perturbations;
    is_claimed = false;
    jobs = [];
  }

  -- `launchSwarm(opts)`, on the kinds of the perturbations and on what the guard of the kind says:
  -- nothing is stored where it throws first.
  unfoldable pub launch_swarm : Bool → Option ℕ → List String → Option (Swarm × Answer ℕ)
  unfolding activate_pending_fish
  launch_swarm is_valid fish_concurrency [] = none
  launch_swarm is_valid fish_concurrency (p ∷ ps) =
      if (p == "noop") && is_valid
      then some (activate_pending_fish (new_swarm fish_concurrency (p ∷ ps)))
      else none
