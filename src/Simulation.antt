-- ===== src/Simulation.antt =====
-- packages/sweep/src/sim/sim-orchestrator.service.ts, the runners turn-runner-sequential.ts and
-- turn-runner-dag.ts beside it, and the worker packages/sweep/src/jobs/workers/sim-turn.worker.ts:
-- a run of a simulation, one turn after the other.
-- The store has one run, or none. An agent's answer (`callTurnAgent` with its model) and whether the
-- queue takes a job are parameters; a job's id is made from its turn. Calls of the store that throw
-- are left out.
use thalamus_usecase_ssa.Prelude.{
  ℕ, zero, suc, ◌+◌, ◌-◌, ◌*◌, ◌/◌, ◌≡◌, String, Bool, true, false, not, ◌&&◌, ◌||◌, Option, none,
  some, List, [], ◌∷◌, ◌++◌, map, ltb, leb, nat_eq, ◌==◌, string_Eq, nat_Eq, if◌then◌else◌, length,
  get_elem?, keep,
}
use thalamus_usecase_ssa.Swarm.{
  RunStatus, is_running, is_accounted, pending, running, paused, done, failed, timed_out,
}
use Prim.Native.Nat.{◌%◌}
pub mod Turns
pub mod Stall
mod Samples

pub data Driver : Type 0 where
  sequential dag : Driver

pub record TurnResponse : Type 0 where
  pub action_kind : String
  pub rationale : String
  pub observable_summary : String

pub record AgentTurn : Type 0 where
  pub turn_index : ℕ
  pub agent_id : ℕ
  pub response : TurnResponse

pub data MemoryKind : Type 0 where
  self_action observation : MemoryKind

pub record MemoryRow : Type 0 where
  pub agent_id : ℕ
  pub turn_index : ℕ
  pub kind : MemoryKind
  pub content : String

pub record GodEvent : Type 0 where
  pub kind : String
  pub summary : String
  pub detail : Option String

-- A run with its rows, the turns whose jobs wait, and those whose jobs the queue has taken.
pub record SimRun : Type 0 where
  pub status : RunStatus
  pub driver : Driver
  pub max_turns : ℕ
  pub agents : List ℕ
  pub agent_turns : List AgentTurn
  pub memories : List MemoryRow
  pub god_turns : List (ℕ × GodEvent)
  pub waiting : List ℕ
  pub taken : List ℕ

pub data Reason : Type 0 where
  run_not_found max_turns_reached : Reason
  has_status : RunStatus → Reason

pub data Scheduled : Type 0 where
  scheduled : Scheduled
  not_scheduled : Reason → Scheduled

pub data Reply (A : Type 0) : Type 0 where
  refused : Reason → Reply A
  replied : A → Reply A

pub data TurnError : Type 0 where
  no_agents all_agents_failed agent_failed : TurnError

pub data TurnReply : Type 0 where
  threw : TurnError → TurnReply
  played : SimRun → Bool → TurnReply

pub data JobReply : Type 0 where
  job_threw : TurnError → JobReply
  skipped : Reason → JobReply
  closed : JobReply
  went_on : Scheduled → JobReply

abbrev pub is_paused : RunStatus → Bool
is_paused paused = true
is_paused _ = false

-- `isTerminal(action)`
abbrev pub is_terminal : TurnResponse → Bool
is_terminal response = (response.action_kind == "accept") || (response.action_kind == "reject")

-- `agentCount > 0 ? Math.ceil(played / agentCount) : 0`
abbrev pub turns_completed : SimRun → ℕ
turns_completed run =
    let agent_count = length run.agents in
    if ltb 0 agent_count then (length run.agent_turns + agent_count - 1) / agent_count else 0

module _ (takes : List ℕ → ℕ → Bool) where
  -- `enqueueTurn(simRunId, turnIndex)`
  unfoldable pub enqueue_turn : ℕ → SimRun → SimRun
  enqueue_turn turn_index run =
      if takes run.taken turn_index
      then record run { waiting = run.waiting ++ turn_index ∷ []; taken = turn_index ∷ run.taken }
      else run

  -- `scheduleNext(simRunId)` on a run that is there
  pub schedule_run : SimRun → SimRun × Scheduled
  schedule_run run =
      if is_running run.status
      then (if leb run.max_turns (turns_completed run)
          then (record run { status = done }, not_scheduled max_turns_reached)
          else (enqueue_turn (turns_completed run) run, scheduled))
      else (run, not_scheduled (has_status run.status))

  -- `scheduleNext(simRunId)`
  pub schedule_next : Option SimRun → Option SimRun × Scheduled
  schedule_next none = (none, not_scheduled run_not_found)
  schedule_next (some run) = let (next, reply) = schedule_run run in (some next, reply)

  -- `pause(simRunId)`
  pub pause : Option SimRun → Option SimRun × Reply Unit
  pause none = (none, refused run_not_found)
  pause (some run) =
      if is_running run.status
      then (some (record run { status = paused }), replied tt)
      else (some run, refused (has_status run.status))

  -- `resume(simRunId)`
  pub resume : Option SimRun → Option SimRun × Reply Unit
  resume none = (none, refused run_not_found)
  resume (some run) =
      if is_paused run.status
      then ((schedule_next (some (record run { status = running }))).0, replied tt)
      else (some run, refused (has_status run.status))

  -- `inject(simRunId, event)`, which answers the turn that the event stands in.
  pub inject : GodEvent → Option SimRun → Option SimRun × Reply ℕ
  inject event none = (none, refused run_not_found)
  inject event (some run) =
      let turn = turns_completed run in
      if is_accounted run.status
      then (some run, refused (has_status run.status))
      else (some (record run { god_turns = run.god_turns ++ (turn, event) ∷ [] }), replied turn)

  module _ (answer : SimRun → ℕ → ℕ → Option TurnResponse)
      (self_text : String → String → String) where
    -- The agents that answer in a turn, with what they answer.
    pub successes : SimRun → ℕ → List ℕ → List (ℕ × TurnResponse)
    successes run turn_index [] = []
    successes run turn_index (agent ∷ agents) = elim (answer run turn_index agent) [
      | none ↦ successes run turn_index agents
      | some response ↦ (agent, response) ∷ successes run turn_index agents
    ]

    abbrev pub turn_of : ℕ → ℕ × TurnResponse → AgentTurn
    turn_of turn_index (agent, response) = record {
      turn_index = turn_index;
      agent_id = agent;
      response = response;
    }

    -- The memories of an answer: the agent's own, and those of the others.
    abbrev pub memories_of : ℕ → List ℕ → ℕ × TurnResponse → List MemoryRow
    memories_of turn_index agents (speaker, response) =
        record {
          agent_id = speaker;
          turn_index = turn_index;
          kind = self_action;
          content = self_text response.action_kind response.rationale;
        }
        ∷ map
            (λ other. record {
              agent_id = other;
              turn_index = turn_index;
              kind = observation;
              content = response.observable_summary;
            })
            (keep (λ other. not (nat_eq other speaker)) agents)

    abbrev pub all_memories : ℕ → List ℕ → List (ℕ × TurnResponse) → List MemoryRow
    all_memories turn_index agents [] = []
    all_memories turn_index agents (answered ∷ more) =
        memories_of turn_index agents answered ++ all_memories turn_index agents more

    -- `persistTurnBatch(batch)` with the rows of some answers
    abbrev pub persist_answers : ℕ → List (ℕ × TurnResponse) → SimRun → SimRun
    persist_answers turn_index answered run = record run {
      agent_turns = run.agent_turns ++ map (turn_of turn_index) answered;
      memories = run.memories ++ all_memories turn_index run.agents answered;
    }

    -- `SequentialTurnRunner.runTurn(opts)`
    pub run_sequential_turn : ℕ → SimRun → TurnReply
    run_sequential_turn turn_index run =
        elim (get_elem? run.agents (turn_index % length run.agents)) [
          | none ↦ threw no_agents
          | some speaker ↦ elim (answer run turn_index speaker) [
            | none ↦ threw agent_failed
            | some response ↦
                let next = persist_answers turn_index ((speaker, response) ∷ []) run in
                if is_terminal response
                then played (record next { status = done }) true
                else played next false
          ]
        ]

    -- `DagTurnRunner.runTurn(opts)`
    pub run_dag_turn : ℕ → SimRun → TurnReply
    run_dag_turn turn_index run = elim run.agents [
      | [] ↦ threw no_agents
      | agent ∷ agents ↦ elim (successes run turn_index run.agents) [
        | [] ↦ threw all_agents_failed
        | first ∷ more ↦ played (persist_answers turn_index (first ∷ more) run) false
      ]
    ]

    abbrev pub run_turn : ℕ → SimRun → TurnReply
    run_turn turn_index run = elim run.driver [
      | sequential ↦ run_sequential_turn turn_index run
      | dag ↦ run_dag_turn turn_index run
    ]

    -- The processor of the worker, for the job of a turn.
    pub process_turn_job : ℕ → Option SimRun → Option SimRun × JobReply
    process_turn_job turn_index none = (none, skipped run_not_found)
    process_turn_job turn_index (some run) =
        if is_running run.status
        then (elim (run_turn turn_index run) [
          | threw error ↦ (some run, job_threw error)
          | played next is_closed ↦
              let (after, reply) = schedule_next (some next) in
              if is_closed then (some next, closed) else (after, went_on reply)
        ])
        else (some run, skipped (has_status run.status))

    -- The worker takes the job that has waited longest.
    abbrev pub work : SimRun → SimRun
    work run = elim run.waiting [
      | [] ↦ run
      | turn_index ∷ waiting ↦
          elim (process_turn_job turn_index (some (record run { waiting = waiting }))).0 [
            | none ↦ run
            | some next ↦ next
          ]
    ]

    abbrev pub work_jobs : ℕ → SimRun → SimRun
    work_jobs zero run = run
    work_jobs (suc n) run = work (work_jobs n run)

-- The loop of `createFish` over the subjects; `none` is an agent that cannot be built.
unfoldable pub build_agents : (ℕ → ℕ → Option ℕ) → ℕ → List ℕ → Option (List ℕ)
build_agents build index [] = some []
build_agents build index (subject ∷ subjects) =
    let rest = build_agents build (index + 1) subjects in
    elim (build index subject) [
      | none ↦ none
      | some agent ↦ elim rest [ none ↦ none | some agents ↦ some (agent ∷ agents) ]
    ]

abbrev pub default_max_turns : List ℕ → ℕ
default_max_turns subject_ids = if nat_eq (length subject_ids) 2 then 20 else 15

-- `opts.maxTurns ?? ...`
abbrev pub max_turns_of : Option ℕ → List ℕ → ℕ
max_turns_of none subject_ids = default_max_turns subject_ids
max_turns_of (some n) subject_ids = n

-- The run that is inserted before its agents are built.
abbrev pub inserted_run : Driver → ℕ → SimRun
inserted_run driver max_turns = record {
  status = pending;
  driver = driver;
  max_turns = max_turns;
  agents = [];
  agent_turns = [];
  memories = [];
  god_turns = [];
  waiting = [];
  taken = [];
}

pub data StartReply : Type 0 where
  no_subjects : StartReply
  agent_not_built : SimRun → StartReply
  was_started : SimRun → StartReply

-- `startStandalone(opts)`, for the driver of the kind and the events of the perturbation
unfoldable pub start_standalone :
    (List ℕ → ℕ → Bool)
    → (ℕ → ℕ → Option ℕ)
    → List GodEvent
    → Driver
    → Option ℕ
    → List ℕ
    → StartReply
unfolding enqueue_turn
start_standalone takes build seeded driver max_turns [] = no_subjects
start_standalone takes build seeded driver max_turns (subject ∷ subjects) =
    let run = inserted_run driver (max_turns_of max_turns (subject ∷ subjects)) in
    elim (build_agents build 0 (subject ∷ subjects)) [
      | none ↦ agent_not_built run
      | some agents ↦ was_started (
          enqueue_turn takes 0 (record run {
            agents = agents;
            god_turns = map (λ event. (0, event)) seeded;
            status = running;
          }))
    ]
