-- ===== src/Simulation/Stall.antt =====
-- A run whose agents take turns one at a time comes to a halt when there are two or more of them.
use native.Mathlib.Nat.{mod-eq_of_lt, mul-add-div_right, div-eq_of_lt}
use Prim.Native.Nat.{◌%◌}
use thalamus_usecase_ssa.Prelude.{
  ℕ, zero, suc, ◌+◌, ◌-◌, ◌*◌, ◌/◌, ◌≤◌, ◌≡◌, refl, sym, ap, subst, ◌∙◌, String, Bool, true, false,
  Option, some, List, [], ◌∷◌, map, ltb, leb, nat_Eq, length, get_elem?, length-append,
  Option-cases, inl, inr, arith,
}
use thalamus_usecase_ssa.Swarm.{running}
use thalamus_usecase_ssa.Simulation.{
  sequential, played, TurnResponse, AgentTurn, MemoryRow, GodEvent, SimRun, turns_completed,
  is_terminal, enqueue_turn, schedule_run, schedule_next, persist_answers, run_sequential_turn,
  process_turn_job, work, work_jobs, build_agents, max_turns_of, start_standalone, was_started,
  agent_not_built,
}
use thalamus_usecase_ssa.Simulation.Turns.{IsQueue, build_agents-some, run_or}

-- No job waits, and two turns were played.
pub record IsStalled (run : SimRun) : Type 0 where
  pub status : run.status ≡ running
  pub nothing_waits : run.waiting ≡ []
  pub played : length run.agent_turns ≡ 2

module _ (takes : List ℕ → ℕ → Bool) (queue : IsQueue takes)
    (answer : SimRun → ℕ → ℕ → Option TurnResponse) (self_text : String → String → String)
    (answers : (run : SimRun) (turn agent : ℕ)
      → (response : TurnResponse) × (answer run turn agent ≡ some response)
        × (is_terminal response ≡ false)) where
  module _ (max_turns first second : ℕ) (others : List ℕ) (gods : List (ℕ × GodEvent))
      (many : 2 ≤ max_turns) where
    abbrev agents : List ℕ
    agents = first ∷ second ∷ others

    abbrev at : List AgentTurn → List MemoryRow → List ℕ → List ℕ → SimRun
    at turns memories waiting taken = record {
      status = running;
      driver = sequential;
      max_turns = max_turns;
      agents = agents;
      agent_turns = turns;
      memories = memories;
      god_turns = gods;
      waiting = waiting;
      taken = taken;
    }

    -- One or two turns of two or more agents count as one.
    counted :
        (turns : List AgentTurn) (memories : List MemoryRow) (waiting taken : List ℕ)
        → 1 ≤ length turns
        → length turns ≤ 2
        → turns_completed (at turns memories waiting taken) ≡ 1
    counted turns memories waiting taken low high =
        let n = length agents in
        let positive : ltb 0 n ≡ true = ground arith in
        let split : length turns + n - 1 ≡ 1 * n + (length turns - 1) = omega (arith, low) in
        let none_more : (length turns - 1) / n ≡ 0 = div-eq_of_lt (omega (arith, low, high)) in
        rw positive (
          ap (λ m. m / n) split
          ∙ mul-add-div_right (omega arith) 1 (length turns - 1)
          ∙ ap (λ m. 1 + m) none_more
          ∙ omega arith)

    -- An agent that answers has its turn, and the next one is scheduled.
    played_turn :
        (k speaker : ℕ) (run : SimRun)
        → get_elem? run.agents (k % length run.agents) ≡ some speaker
        → (response : TurnResponse) → answer run k speaker ≡ some response
        → is_terminal response ≡ false
        → run_sequential_turn takes answer self_text k run
          ≡ played (persist_answers takes answer self_text k ((speaker, response) ∷ []) run) false
    unfolding run_sequential_turn
    played_turn k speaker run speaks response same open_end =
        rw (run_sequential_turn, speaks, same, open_end) refl

    worked :
        (k : ℕ) (turns : List AgentTurn) (memories : List MemoryRow) (taken : List ℕ)
        (next : SimRun)
        → run_sequential_turn takes answer self_text k (at turns memories [] taken)
          ≡ played next false
        → work takes answer self_text (at turns memories (k ∷ []) taken)
          ≡ (schedule_run takes next).0
    unfolding process_turn_job schedule_next
    worked k turns memories taken next h = rw (work, process_turn_job, h) refl

    first_turn :
        (turns : List AgentTurn) × (memories : List MemoryRow) × (work takes answer self_text
            (at [] [] (0 ∷ []) (0 ∷ []))
          ≡ at turns memories (1 ∷ []) (1 ∷ 0 ∷ []))
        × (length turns ≡ 1)
    unfolding schedule_run enqueue_turn
    first_turn =
        let start = at [] [] [] (0 ∷ []) in
        let speaks : 0 % length agents ≡ 0 = mod-eq_of_lt (omega arith) in
        let left : leb max_turns 1 ≡ false = ground (arith, many) in
        let (response, same, open_end) = answers start 0 first in
        let next = persist_answers takes answer self_text 0 ((first, response) ∷ []) start in
        (
          next.agent_turns,
          next.memories,
          worked 0 [] [] (0 ∷ []) next
                (played_turn 0 first start (ap (get_elem? agents) speaks) response same open_end)
              ∙ rw
                  (
                    counted next.agent_turns next.memories [] (0 ∷ []) (omega arith) (omega arith),
                    left,
                    queue.new (0 ∷ []) 1 refl,
                  )
                  refl,
          refl,
        )

    second_turn :
        (before : List AgentTurn) (old : List MemoryRow)
        → length before ≡ 1
        → (turns : List AgentTurn) × (memories : List MemoryRow) × (work takes answer self_text
              (at before old (1 ∷ []) (1 ∷ 0 ∷ []))
            ≡ at turns memories [] (1 ∷ 0 ∷ []))
          × (length turns ≡ 2)
    unfolding schedule_run enqueue_turn
    second_turn before old one =
        let start = at before old [] (1 ∷ 0 ∷ []) in
        let speaks : 1 % length agents ≡ 1 = mod-eq_of_lt (omega arith) in
        let left : leb max_turns 1 ≡ false = ground (arith, many) in
        let (response, same, open_end) = answers start 1 second in
        let next = persist_answers takes answer self_text 1 ((second, response) ∷ []) start in
        let size : length next.agent_turns ≡ 2 = length-append before _ ∙ omega (arith, one) in
        (
          next.agent_turns,
          next.memories,
          worked 1 before old (1 ∷ 0 ∷ []) next
                (played_turn 1 second start (ap (get_elem? agents) speaks) response same open_end)
              ∙ rw
                  (
                    counted next.agent_turns next.memories [] (1 ∷ 0 ∷ []) (omega (arith, size))
                        (omega (arith, size)),
                    left,
                    queue.old (1 ∷ 0 ∷ []) 1 refl,
                  )
                  refl,
          size,
        )

    -- No job is left to be worked on.
    idle :
        (j : ℕ) (turns : List AgentTurn) (memories : List MemoryRow)
        → work_jobs takes answer self_text j (at turns memories [] (1 ∷ 0 ∷ []))
          ≡ at turns memories [] (1 ∷ 0 ∷ [])
    idle zero turns memories = refl
    idle (suc j) turns memories = ap (work takes answer self_text) (idle j turns memories)

    work_jobs_after :
        (j : ℕ) (run : SimRun)
        → work_jobs takes answer self_text (suc j) run
          ≡ work_jobs takes answer self_text j (work takes answer self_text run)
    work_jobs_after zero run = refl
    work_jobs_after (suc j) run = ap (work takes answer self_text) (work_jobs_after j run)

    at_start-IsStalled :
        (j : ℕ)
        → IsStalled (work_jobs takes answer self_text (suc (suc j)) (at [] [] (0 ∷ []) (0 ∷ [])))
    at_start-IsStalled j =
        let (one, old, step, size) = first_turn in
        let (two, memories, step', size') = second_turn one old size in
        let end : work_jobs takes answer self_text (suc (suc j)) (at [] [] (0 ∷ []) (0 ∷ []))
            ≡ at two memories [] (1 ∷ 0 ∷ []) =
          work_jobs_after (suc j) (at [] [] (0 ∷ []) (0 ∷ []))
          ∙ ap (work_jobs takes answer self_text (suc j)) step
          ∙ work_jobs_after j (at one old (1 ∷ []) (1 ∷ 0 ∷ []))
          ∙ ap (work_jobs takes answer self_text j) step'
          ∙ idle j two memories in
        record {
          status = ap (λ r. r.status) end;
          nothing_waits = ap (λ r. r.waiting) end;
          played = ap (λ r. length r.agent_turns) end ∙ size';
        }

  -- A standalone run whose two or more agents take turns one at a time, and which may have two or more
  -- turns, comes to a halt when no answer ends it and its queue takes the job of a turn once: however
  -- long the worker goes on, it plays two turns, no job waits, and the run counts as running.
  pub start_standalone-IsStalled :
      (build : ℕ → ℕ → Option ℕ) (seeded : List GodEvent) (max_turns : Option ℕ) (subject other : ℕ)
      (subjects : List ℕ) (run : SimRun) (j : ℕ)
      → start_standalone takes build seeded sequential max_turns (subject ∷ other ∷ subjects)
        ≡ was_started run
      → 2 ≤ run.max_turns
      → IsStalled (work_jobs takes answer self_text (suc (suc j)) run)
  unfolding start_standalone enqueue_turn
  start_standalone-IsStalled build seeded max_turns subject other subjects run j h many =
      elim (Option-cases (build_agents build 0 (subject ∷ other ∷ subjects))) [
        | inl a ↦
            let wrong : agent_not_built _ ≡ was_started run = rw (start_standalone, a) at h in cc
        | inr (agents, a) ↦
            let gods : List (ℕ × GodEvent) = map (λ event. (0, event)) seeded in
            let limit = max_turns_of max_turns (subject ∷ other ∷ subjects) in
            let start : List ℕ → SimRun = λ l. record {
              status = running;
              driver = sequential;
              max_turns = limit;
              agents = l;
              agent_turns = [];
              memories = [];
              god_turns = gods;
              waiting = 0 ∷ [];
              taken = 0 ∷ [];
            } in
            let shape : was_started (start agents) ≡ was_started run =
              rw (start_standalone, a, enqueue_turn, queue.new [] 0 refl) at h in
            let (first, more, cons, rest) =
              build_agents-some build 0 subject (other ∷ subjects) agents a in
            let (second, others, cons', last) =
              build_agents-some build (0 + 1) other subjects more rest in
            let same : start (first ∷ second ∷ others) ≡ run =
              ap (λ l. start (first ∷ l)) (sym cons')
              ∙ ap start (sym cons)
              ∙ ap (run_or run) shape in
            subst (λ r. IsStalled (work_jobs takes answer self_text (suc (suc j)) r)) same
              (at_start-IsStalled limit first second others gods
                (subst (λ n. 2 ≤ n) (ap (λ r. r.max_turns) (sym same)) many) j)
      ]
