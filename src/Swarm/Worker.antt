-- ===== src/Swarm/Worker.antt =====
-- packages/sweep/src/jobs/workers/swarm-fish.worker.ts: a job plays the turns of a fish, closes it
-- and reports it.
-- A turn gives whether it ended the run, or `none` where it throws or the run is aborted.
use thalamus_usecase_ssa.Prelude.{
  ℕ, zero, suc, ◌+◌, ◌≤◌, ◌<◌, ◌≡◌, ◌≢◌, subst, nat_eq, Bool-cases, inl, inr, refl, Bool, true,
  false, not, Option, none, some, List, [], ◌∷◌, length, ap, ◌∙◌, sym, if◌then◌else◌, arith,
}
use thalamus_usecase_ssa.Swarm.{
  RunStatus, pending, running, paused, done, failed, timed_out, Job, Swarm, Answer, threw, answered,
  is_running, set_status, on_fish_complete,
}
pub mod Turns
pub mod Jobs

-- How a kind of fish is driven.
pub data Runner : Type 0 where
  sequential : Runner
  dag : Bool → Runner

abbrev pub ends : Runner → Bool → Bool
ends sequential terminal = terminal
ends (dag single_turn) terminal = single_turn

-- The `while` loop of `drainFishTurns`, with the turns that are left: the turns played and whether
-- the last one ended the run.
unfoldable pub drain_turns : Runner → (ℕ → Option Bool) → ℕ → ℕ → Option (ℕ × Bool)
drain_turns runner turn zero index = some (index, false)
drain_turns runner turn (suc left) index =
    let rest = drain_turns runner turn left (index + 1) in
    elim (turn index) [
      | none ↦ none
      | some terminal ↦ if ends runner terminal then some (index + 1, true) else rest
    ]

-- `drainFishTurns(...)`
abbrev pub drain_fish_turns : Runner → (ℕ → Option Bool) → ℕ → Option (ℕ × Bool)
drain_fish_turns runner turn max_turns = drain_turns runner turn max_turns 0

pub data JobAnswer : Type 0 where
  job_ok job_skipped job_timeout job_threw : JobAnswer

-- The status that a job writes and its answer, on the fish's status, what the turns came to, and
-- whether the time limit stopped them.
abbrev pub close_fish : Option RunStatus → Option (ℕ × Bool) → Bool → Option RunStatus × JobAnswer
close_fish none drained is_late = (some failed, job_threw)
close_fish (some status) drained is_late =
    if not (is_running status) then (none, job_skipped) else elim drained [
      | some played ↦ (some done, job_ok)
      | none ↦ if is_late then (some timed_out, job_timeout) else (some failed, job_threw)
    ]

abbrev pub write_status : ℕ → Option RunStatus → Swarm → Swarm
write_status index none s = s
write_status index (some status) s = record s { fish = set_status index status s.fish }

-- An exception of the report takes the place of the answer.
abbrev pub job_answer : JobAnswer → Answer Bool → JobAnswer
job_answer answer threw = job_threw
job_answer answer (answered b) = answer

-- `processSwarmFishJob(deps, payload)`: the fish is reported whatever happened before.
pub process_fish_job :
    (List Job → Job → Bool)
    → ℕ
    → Option RunStatus
    → Option (ℕ × Bool)
    → Bool
    → Swarm
    → Swarm × JobAnswer
process_fish_job accepts index found drained is_late s =
    let (status, answer) = close_fish found drained is_late in
    let (after, told) = on_fish_complete accepts (write_status index status s) in
    (after, job_answer answer told)
