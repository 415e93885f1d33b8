-- ===== src/Swarm/Worker/Jobs.antt =====
-- packages/sweep/src/jobs/workers/swarm-fish.worker.ts: what a job writes, reports and answers.
use thalamus_usecase_ssa.Prelude.{
  ℕ, zero, suc, ◌<◌, ◌≡◌, ◌≢◌, Bool, true, false, Option, none, some, List, [], ◌∷◌, length,
}
use thalamus_usecase_ssa.Swarm.{
  RunStatus, running, done, failed, timed_out, Job, Swarm, threw, on_fish_complete,
}
use thalamus_usecase_ssa.Swarm.Worker.{JobAnswer, job_ok, job_skipped, job_timeout, job_threw}

-- What a job writes and answers, by what it found.
pub data IsClosed (found : Option RunStatus) (drained : Option (ℕ × Bool)) (is_late : Bool)
    : Option RunStatus → JobAnswer → Type 0 where
  lost : found ≡ none → IsClosed found drained is_late (some failed) job_threw
  skipped :
      (status : RunStatus)
      → found ≡ some status
      → status ≢ running
      → IsClosed found drained is_late none job_skipped
  played :
      (turns : ℕ × Bool)
      → found ≡ some running
      → drained ≡ some turns
      → IsClosed found drained is_late (some done) job_ok
  late :
      found ≡ some running
      → drained ≡ none
      → is_late ≡ true
      → IsClosed found drained is_late (some timed_out) job_timeout
  broken :
      found ≡ some running
      → drained ≡ none
      → is_late ≡ false
      → IsClosed found drained is_late (some failed) job_threw

-- The status of the fish with an index.
unfoldable pub status_at : List RunStatus → ℕ → Option RunStatus
status_at [] index = none
status_at (f ∷ fs) zero = some f
status_at (f ∷ fs) (suc index) = status_at fs index

-- The fish with the index has the status that is written, if one is, and no other has changed.
pub record IsWritten (index : ℕ) (written : Option RunStatus) (before after : List RunStatus)
    : Type 0 where
  pub own :
      (status : RunStatus)
      → written ≡ some status
      → index < length before
      → status_at after index ≡ some status
  pub others : (i : ℕ) → i ≢ index → status_at after i ≡ status_at before i
  pub unwritten : written ≡ none → after ≡ before

-- A job: the fish that it writes, the swarm that it reports, and its answer.
pub record IsJob (accepts : List Job → Job → Bool) (index : ℕ) (found : Option RunStatus)
    (drained : Option (ℕ × Bool)) (is_late : Bool) (s : Swarm) (r : Swarm × JobAnswer)
    : Type 0 where
  pub written : Option RunStatus
  pub fish : List RunStatus
  pub answer : JobAnswer
  pub closed : IsClosed found drained is_late written answer
  pub writes : IsWritten index written s.fish fish
  pub reports : r.0 ≡ (on_fish_complete accepts (record s { fish = fish })).0
  pub answers : (on_fish_complete accepts (record s { fish = fish })).1 ≢ threw → r.1 ≡ answer
  pub throws : (on_fish_complete accepts (record s { fish = fish })).1 ≡ threw → r.1 ≡ job_threw
