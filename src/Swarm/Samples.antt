-- ===== src/Swarm/Samples.antt =====
-- A swarm of three fish, of which two may run.
use thalamus_usecase_ssa.Prelude.{
  nat_eq, ℕ, String, ◌≡◌, refl, Bool, true, false, Option, none, some, List, [], ◌∷◌,
}
use thalamus_usecase_ssa.Swarm.{
  pending, running, done, Job, fish_job, aggregate_job, Swarm, threw, answered,
  activate_pending_fish, on_fish_complete, launch_swarm, new_swarm, claim_pending,
}
use thalamus_usecase_ssa.Swarm.Worker.{sequential, drain_turns, drain_fish_turns}
use thalamus_usecase_ssa.Swarm.Worker.Turns.{IsDrained, drain_fish_turns-IsDrained}
use thalamus_usecase_ssa.Swarm.Reports.{
  counting, claiming, queueing, World, report_step, reports, advances, Reachable, launched, next,
}
use thalamus_usecase_ssa.Swarm.Sound.{IsSound, Reachable-IsSound}
use thalamus_usecase_ssa.Swarm.Progress.{IsReport, on_fish_complete-IsReport}

abbrev takes_all : List Job → Job → Bool
takes_all jobs job = true

abbrev two : Option ℕ
two = some 2000

abbrev kinds : List String
kinds = "noop" ∷ "delay" ∷ "budget" ∷ []

abbrev after_launch : Swarm
after_launch = record {
  status = running;
  size = 3;
  fish_concurrency = two;
  fish = running ∷ running ∷ pending ∷ [];
  is_claimed = false;
  jobs = fish_job 0 ∷ fish_job 1 ∷ [];
}

abbrev one_done : Swarm
one_done = record after_launch { fish = done ∷ running ∷ pending ∷ [] }

launch_runs : launch_swarm takes_all true two kinds ≡ some (after_launch, answered 2)
unfolding launch_swarm activate_pending_fish
launch_runs = refl

launch_refuses : launch_swarm takes_all true two ("delay" ∷ []) ≡ none
unfolding launch_swarm
launch_refuses = refl

report_starts : on_fish_complete takes_all one_done ≡ (
  record one_done {
    fish = done ∷ running ∷ running ∷ [];
    jobs = fish_job 0 ∷ fish_job 1 ∷ fish_job 2 ∷ [];
  },
  answered false,
)
unfolding on_fish_complete
report_starts = refl

abbrev all_done : Swarm
all_done = record after_launch { fish = done ∷ done ∷ done ∷ [] }

last_report : on_fish_complete takes_all all_done ≡ (
  record all_done { is_claimed = true; jobs = fish_job 0 ∷ fish_job 1 ∷ aggregate_job ∷ [] },
  answered true,
)
unfolding on_fish_complete
last_report = refl

failed_report : on_fish_complete (λ jobs job. false) all_done ≡ (all_done, threw)
unfolding on_fish_complete
failed_report = refl

-- Three fish wait and one may run at a time.
abbrev all_wait : Swarm
all_wait = new_swarm takes_all (some 1000) kinds

abbrev first_counts : World
first_counts = record { swarm = all_wait; reports = claiming 1 ∷ counting ∷ [] }

-- Two reports that count before either claims start two fish where one may run.
count_twice : (report_step takes_all all_wait counting) ≡ (all_wait, claiming 1)
unfolding report_step claim_pending
count_twice = refl

claim_first :
    report_step takes_all all_wait (claiming 1)
    ≡ (record all_wait { fish = running ∷ pending ∷ pending ∷ [] }, queueing (0 ∷ []))
unfolding report_step claim_pending
claim_first = refl

claim_second :
    report_step takes_all (record all_wait { fish = running ∷ pending ∷ pending ∷ [] }) (claiming 1)
    ≡ (record all_wait { fish = running ∷ running ∷ pending ∷ [] }, queueing (1 ∷ []))
unfolding report_step claim_pending
claim_second = refl

two_run : Reachable takes_all record {
  swarm = record all_wait { fish = running ∷ running ∷ pending ∷ [] };
  reports = queueing (0 ∷ []) ∷ queueing (1 ∷ []) ∷ [];
}
unfolding report_step claim_pending
two_run =
    let r0 = next (launched (some 1000) kinds) (reports all_wait []) in
    let r1 = next r0 (reports all_wait (counting ∷ [])) in
    let r2 = next r1 (advances all_wait [] (counting ∷ []) counting) in
    let r3 = next r2 (advances all_wait (claiming 1 ∷ []) [] counting) in
    let r4 = next r3 (advances all_wait [] (claiming 1 ∷ []) (claiming 1)) in
    next r4 (
      advances (record all_wait { fish = running ∷ pending ∷ pending ∷ [] })
        (queueing (0 ∷ []) ∷ []) [] (claiming 1))

Reachable-IsSound_example : IsSound record {
  swarm = record all_wait { fish = running ∷ running ∷ pending ∷ [] };
  reports = queueing (0 ∷ []) ∷ queueing (1 ∷ []) ∷ [];
}
Reachable-IsSound_example =
    Reachable-IsSound takes_all
      record {
        swarm = record all_wait { fish = running ∷ running ∷ pending ∷ [] };
        reports = queueing (0 ∷ []) ∷ queueing (1 ∷ []) ∷ [];
      }
      two_run

on_fish_complete-IsReport_example : IsReport one_done (on_fish_complete takes_all one_done)
on_fish_complete-IsReport_example = on_fish_complete-IsReport takes_all (λ jobs job. refl) one_done

-- The third turn ends the run.
abbrev third_ends : ℕ → Option Bool
third_ends index = some (nat_eq index 2)

three_played : drain_fish_turns sequential third_ends 5 ≡ some (3, true)
unfolding drain_turns
three_played = refl

drain_fish_turns-IsDrained_example :
    IsDrained sequential third_ends 0 5 (drain_fish_turns sequential third_ends 5)
drain_fish_turns-IsDrained_example = drain_fish_turns-IsDrained sequential third_ends 5
