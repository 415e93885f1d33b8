-- ===== src/Simulation/Samples.antt =====
-- Two agents, at once and one at a time.
use thalamus_usecase_ssa.Prelude.{
  ℕ, ◌+◌, ◌≡◌, refl, ap, String, Bool, not, Option, none, some, List, [], ◌∷◌, has, nat_Eq, arith,
}
use thalamus_usecase_ssa.Simulation.{
  sequential, dag, Driver, TurnResponse, SimRun, start_standalone, was_started, enqueue_turn,
  build_agents, work_jobs,
}
use thalamus_usecase_ssa.Swarm.{running}
use thalamus_usecase_ssa.Simulation.Turns.{IsQueue, IsPlayedOut, start_standalone-IsPlayedOut}
use thalamus_usecase_ssa.Simulation.Stall.{IsStalled, start_standalone-IsStalled}

-- A queue that takes a job unless it has taken it before.
abbrev once : List ℕ → ℕ → Bool
once taken turn = not (has taken turn)

once-IsQueue : IsQueue once
once-IsQueue = record { new = λ taken turn h. ap not h; old = λ taken turn h. ap not h }

abbrev hold : TurnResponse
hold = record { action_kind = "hold"; rationale = "none"; observable_summary = "waits" }

abbrev holds : SimRun → ℕ → ℕ → Option TurnResponse
holds run turn agent = some hold

abbrev text : String → String → String
text kind rationale = kind

abbrev built : ℕ → ℕ → Option ℕ
built index subject = some (subject + 100)

abbrev begun : Driver → SimRun
begun driver = record {
  status = running;
  driver = driver;
  max_turns = 20;
  agents = 107 ∷ 108 ∷ [];
  agent_turns = [];
  memories = [];
  god_turns = [];
  waiting = 0 ∷ [];
  taken = 0 ∷ [];
}

begins :
    (driver : Driver)
    → start_standalone once built [] driver none (7 ∷ 8 ∷ []) ≡ was_started (begun driver)
unfolding start_standalone enqueue_turn build_agents
begins driver = refl

start_standalone-IsPlayedOut_example :
    IsPlayedOut (begun dag) (work_jobs once holds text 20 (begun dag))
start_standalone-IsPlayedOut_example =
    start_standalone-IsPlayedOut once once-IsQueue holds text (λ run turn agent. (hold, refl)) built
      [] none (7 ∷ 8 ∷ []) (begun dag) (begins dag) (omega arith)

start_standalone-IsStalled_example : IsStalled (work_jobs once holds text 5 (begun sequential))
start_standalone-IsStalled_example =
    start_standalone-IsStalled once once-IsQueue holds text (λ run turn agent. (hold, refl, refl))
      built [] none 7 8 [] (begun sequential) 3 (begins sequential) (omega arith)
