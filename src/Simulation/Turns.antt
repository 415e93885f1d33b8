-- ===== src/Simulation/Turns.antt =====
-- A run in which all agents answer is played to its end, one turn after the other.
use native.Mathlib.Nat.{mul-add-div_right, div-eq_of_lt}
use thalamus_usecase_ssa.Prelude.{
  ℕ, zero, suc, ◌+◌, ◌-◌, ◌*◌, ◌/◌, ◌<◌, ◌≡◌, refl, sym, ap, subst, ◌∙◌, String, Bool, true, false,
  Option, none, some, List, [], ◌∷◌, ◌++◌, map, ltb, leb, ◌==◌, nat_Eq, length, length-append,
  length-map, has, Option-cases, inl, inr, arith,
}
use thalamus_usecase_ssa.Swarm.{running, done}
use thalamus_usecase_ssa.Simulation.{
  dag, TurnResponse, AgentTurn, MemoryRow, GodEvent, SimRun, turns_completed, enqueue_turn,
  schedule_run, schedule_next, successes, turn_of, persist_answers, run_dag_turn, process_turn_job,
  work, work_jobs, build_agents, max_turns_of, start_standalone, was_started, no_subjects,
  agent_not_built, StartReply,
}

-- The queue takes a job once.
pub record IsQueue (takes : List ℕ → ℕ → Bool) : Type 0 where
  pub new : (taken : List ℕ) (turn : ℕ) → has taken turn ≡ false → takes taken turn ≡ true
  pub old : (taken : List ℕ) (turn : ℕ) → has taken turn ≡ true → takes taken turn ≡ false

-- As many whole turns as were played.
pub ceiling : (k n : ℕ) → 0 < n → (k * n + n - 1) / n ≡ k
ceiling k n positive =
    let split : k * n + n - 1 ≡ k * n + (n - 1) = omega (arith, positive) in
    let none_more : (n - 1) / n ≡ 0 = div-eq_of_lt (omega (arith, positive)) in
    ap (λ m. m / n) split
    ∙ mul-add-div_right positive k (n - 1)
    ∙ ap (λ m. k + m) none_more
    ∙ omega arith

-- The turns with their agents, in the order in which they are played.
abbrev pub rounds : ℕ → List ℕ → List (ℕ × ℕ)
rounds zero agents = []
rounds (suc k) agents = rounds k agents ++ map (λ agent. (k, agent)) agents

abbrev pub who : AgentTurn → ℕ × ℕ
who turn = (turn.turn_index, turn.agent_id)

length-rounds : (k : ℕ) (agents : List ℕ) → length (rounds k agents) ≡ k * length agents
length-rounds zero agents = omega arith
length-rounds (suc k) agents =
    length-append (rounds k agents) (map (λ agent. (k, agent)) agents)
    ∙ omega (arith, length-rounds k agents, length-map {B = ℕ × ℕ} (λ agent. (k, agent)) agents)

map-append {ℓ κ} :
    {A : Type ℓ} {B : Type κ} (f : A → B) (xs ys : List A) → map f (xs ++ ys) ≡ map f xs ++ map f ys
map-append f [] ys = refl
map-append f (x ∷ xs) ys = ap (λ l. f x ∷ l) (map-append f xs ys)

module _ (takes : List ℕ → ℕ → Bool) (queue : IsQueue takes)
    (answer : SimRun → ℕ → ℕ → Option TurnResponse) (self_text : String → String → String)
    (answers : (run : SimRun) (turn agent : ℕ)
      → (response : TurnResponse) × (answer run turn agent ≡ some response))
    (max_turns first : ℕ) (others : List ℕ) (gods : List (ℕ × GodEvent)) where
  abbrev agents : List ℕ
  agents = first ∷ others

  -- A run between two turns.
  abbrev at : ℕ → List AgentTurn → List MemoryRow → List ℕ → SimRun
  at k turns memories taken = record {
    status = running;
    driver = dag;
    max_turns = max_turns;
    agents = agents;
    agent_turns = turns;
    memories = memories;
    god_turns = gods;
    waiting = k ∷ [];
    taken = taken;
  }

  -- A run whose last turn was played.
  abbrev over : List AgentTurn → List MemoryRow → List ℕ → SimRun
  over turns memories taken = record {
    status = done;
    driver = dag;
    max_turns = max_turns;
    agents = agents;
    agent_turns = turns;
    memories = memories;
    god_turns = gods;
    waiting = [];
    taken = taken;
  }

  successes_all :
      (run : SimRun) (turn : ℕ) (some_agents : List ℕ)
      → map who (
          map
            (turn_of takes answer self_text turn)
            (successes takes answer self_text run turn some_agents))
        ≡ map (λ agent. (turn, agent)) some_agents
  unfolding successes
  successes_all run turn [] = refl
  successes_all run turn (agent ∷ more) =
      let (response, same) = answers run turn agent in
      rw (successes, same) (ap (λ l. (turn, agent) ∷ l) (successes_all run turn more))

  record IsAt (k : ℕ) (run : SimRun) : Type 0 where
    turns : List AgentTurn
    memories : List MemoryRow
    taken : List ℕ
    shape : run ≡ at k turns memories taken
    played : map who turns ≡ rounds k agents
    ahead : (turn : ℕ) → k < turn → has taken turn ≡ false

  record IsOver (run : SimRun) : Type 0 where
    turns : List AgentTurn
    memories : List MemoryRow
    taken : List ℕ
    shape : run ≡ over turns memories taken
    played : map who turns ≡ rounds max_turns agents

  -- The rows after the turn.
  abbrev turns_after : ℕ → List AgentTurn → List MemoryRow → List ℕ → List AgentTurn
  turns_after k turns memories taken =
      (persist_answers takes answer self_text k
        (successes takes answer self_text (record (at k turns memories taken) { waiting = [] }) k
          agents)
        (at k turns memories taken)).agent_turns

  abbrev memories_after : ℕ → List AgentTurn → List MemoryRow → List ℕ → List MemoryRow
  memories_after k turns memories taken =
      (persist_answers takes answer self_text k
        (successes takes answer self_text (record (at k turns memories taken) { waiting = [] }) k
          agents)
        (at k turns memories taken)).memories

  played_after :
      (k : ℕ) (turns : List AgentTurn) (memories : List MemoryRow) (taken : List ℕ)
      → map who turns ≡ rounds k agents
      → map who (turns_after k turns memories taken) ≡ rounds (suc k) agents
  played_after k turns memories taken h =
      let run = record (at k turns memories taken) { waiting = [] } in
      map-append who turns
        (map (turn_of takes answer self_text k) (successes takes answer self_text run k agents))
      ∙ ap
          (λ l.
            l
            ++ map who (
                map (turn_of takes answer self_text k)
                  (successes takes answer self_text run k agents)))
          h
      ∙ ap (λ l. rounds k agents ++ l) (successes_all run k agents)

  work_once :
      (k : ℕ) (turns : List AgentTurn) (memories : List MemoryRow) (taken : List ℕ)
      → work takes answer self_text (at k turns memories taken)
        ≡ (schedule_run takes
            (record (at k
              (turns_after k turns memories taken)
              (memories_after k turns memories taken)
              taken) { waiting = [] })).0
  unfolding process_turn_job run_dag_turn schedule_next successes
  work_once k turns memories taken =
      let run = record (at k turns memories taken) { waiting = [] } in
      let (response, same) = answers run k first in rw same refl

  -- The run when its turn was played and no job waits.
  abbrev between : ℕ → List AgentTurn → List MemoryRow → List ℕ → SimRun
  between k turns memories taken = record (at k turns memories taken) { waiting = [] }

  between_completed :
      (k : ℕ) (turns : List AgentTurn) (memories : List MemoryRow) (taken : List ℕ)
      → map who turns ≡ rounds (suc k) agents
      → turns_completed (between k turns memories taken) ≡ suc k
  between_completed k turns memories taken h =
      let size : length turns ≡ suc k * length agents =
        sym (length-map who turns) ∙ ap length h ∙ length-rounds (suc k) agents in
      let positive : ltb 0 (length agents) ≡ true = ground arith in
      rw (positive, size) (ceiling (suc k) (length agents) (omega arith))

  -- What scheduling does between two turns.
  scheduled_next :
      (k : ℕ) (turns : List AgentTurn) (memories : List MemoryRow) (taken : List ℕ)
      → map who turns ≡ rounds (suc k) agents
      → suc k < max_turns
      → has taken (suc k) ≡ false
      → (schedule_run takes (between k turns memories taken)).0
        ≡ at (suc k) turns memories (suc k ∷ taken)
  unfolding schedule_run enqueue_turn
  scheduled_next k turns memories taken h more fresh =
      let some_left : leb max_turns (suc k) ≡ false = ground (arith, more) in
      rw (between_completed k turns memories taken h, some_left, queue.new taken (suc k) fresh) refl

  scheduled_last :
      (k : ℕ) (turns : List AgentTurn) (memories : List MemoryRow) (taken : List ℕ)
      → map who turns ≡ rounds (suc k) agents
      → suc k ≡ max_turns
      → (schedule_run takes (between k turns memories taken)).0 ≡ over turns memories taken
  unfolding schedule_run
  scheduled_last k turns memories taken h last =
      let none_left : leb max_turns (suc k) ≡ true = ground (arith, last) in
      rw (between_completed k turns memories taken h, none_left) refl

  -- A turn that is not the last is followed by the next one.
  work-IsAt :
      (k : ℕ) (run : SimRun)
      → IsAt k run
      → suc k < max_turns
      → IsAt (suc k) (work takes answer self_text run)
  work-IsAt k run a more =
      let turns = turns_after k a.turns a.memories a.taken in
      let memories = memories_after k a.turns a.memories a.taken in
      let played = played_after k a.turns a.memories a.taken a.played in
      record {
        turns = turns;
        memories = memories;
        taken = suc k ∷ a.taken;
        shape =
            ap (work takes answer self_text) a.shape
            ∙ work_once k a.turns a.memories a.taken
            ∙ scheduled_next k turns memories a.taken played more (a.ahead (suc k) (omega arith));
        played = played;
        ahead = λ turn later.
            let apart : (suc k == turn) ≡ false = ground (arith, later) in
            rw apart (a.ahead turn (omega (arith, later)));
      }

  work-IsOver :
      (k : ℕ) (run : SimRun)
      → IsAt k run
      → suc k ≡ max_turns
      → IsOver (work takes answer self_text run)
  work-IsOver k run a last =
      let turns = turns_after k a.turns a.memories a.taken in
      let memories = memories_after k a.turns a.memories a.taken in
      let played = played_after k a.turns a.memories a.taken a.played in
      record {
        turns = turns;
        memories = memories;
        taken = a.taken;
        shape =
            ap (work takes answer self_text) a.shape
            ∙ work_once k a.turns a.memories a.taken
            ∙ scheduled_last k turns memories a.taken played last;
        played = played ∙ ap (λ n. rounds n agents) last;
      }

  work_jobs-IsAt :
      (k : ℕ)
      → k < max_turns
      → (start : SimRun) → IsAt 0 start
      → IsAt k (work_jobs takes answer self_text k start)
  work_jobs-IsAt zero less start a = a
  work_jobs-IsAt (suc k) less start a =
      work-IsAt k (work_jobs takes answer self_text k start)
        (work_jobs-IsAt k (omega (arith, less)) start a) less

  work_jobs-IsOver :
      (k : ℕ)
      → suc k ≡ max_turns
      → IsOver (work_jobs takes answer self_text (suc k) (at 0 [] [] (0 ∷ [])))
  work_jobs-IsOver k last =
      work-IsOver k _
        (work_jobs-IsAt k (omega (arith, last)) (at 0 [] [] (0 ∷ [])) (record {
          turns = [];
          memories = [];
          taken = 0 ∷ [];
          shape = refl;
          played = refl;
          ahead = λ turn later.
              let apart : (0 == turn) ≡ false = ground (arith, later) in rw apart refl;
        }))
        last

-- The run after its last turn.
pub record IsPlayedOut (run final : SimRun) : Type 0 where
  pub status : final.status ≡ done
  pub nothing_waits : final.waiting ≡ []
  pub played : map who final.agent_turns ≡ rounds run.max_turns run.agents

less_one : (n : ℕ) → 0 < n → (k : ℕ) × (suc k ≡ n)
less_one zero h = absurd (omega (arith, h))
less_one (suc k) h = (k, refl)

abbrev pub run_or : SimRun → StartReply → SimRun
run_or other no_subjects = other
run_or other (agent_not_built run) = run
run_or other (was_started run) = run

pub build_agents-some :
    (build : ℕ → ℕ → Option ℕ) (index subject : ℕ) (subjects agents : List ℕ)
    → build_agents build index (subject ∷ subjects) ≡ some agents
    → (first : ℕ) × (others : List ℕ) × (agents ≡ first ∷ others)
      × (build_agents build (index + 1) subjects ≡ some others)
unfolding build_agents
build_agents-some build index subject subjects agents h =
    elim (Option-cases (build index subject)) [
      | inl a ↦ let wrong : none ≡ some agents = rw (build_agents, a) at h in cc
      | inr (first, a) ↦ elim (Option-cases (build_agents build (index + 1) subjects)) [
        | inl b ↦ let wrong : none ≡ some agents = rw (build_agents, a, b) at h in cc
        | inr (others, b) ↦
            let right : some (first ∷ others) ≡ some agents = rw (build_agents, a, b) at h in
            (first, others, sym (ap (λ o. agents_or agents o) right), b)
      ]
    ]
  where
    agents_or : List ℕ → Option (List ℕ) → List ℕ
    agents_or other none = other
    agents_or other (some l) = l

module _ (takes : List ℕ → ℕ → Bool) (queue : IsQueue takes)
    (answer : SimRun → ℕ → ℕ → Option TurnResponse) (self_text : String → String → String)
    (answers : (run : SimRun) (turn agent : ℕ)
      → (response : TurnResponse) × (answer run turn agent ≡ some response)) where
  -- The run with agents, before its first turn.
  abbrev at_start : ℕ → List ℕ → List (ℕ × GodEvent) → SimRun
  at_start max_turns agents gods = record {
    status = running;
    driver = dag;
    max_turns = max_turns;
    agents = agents;
    agent_turns = [];
    memories = [];
    god_turns = gods;
    waiting = 0 ∷ [];
    taken = 0 ∷ [];
  }

  at_start-IsPlayedOut :
      (max_turns first : ℕ) (others : List ℕ) (gods : List (ℕ × GodEvent))
      → 0 < max_turns
      → IsPlayedOut
          (at_start max_turns (first ∷ others) gods)
          (work_jobs takes answer self_text max_turns (at_start max_turns (first ∷ others) gods))
  at_start-IsPlayedOut max_turns first others gods positive =
      let (k, last) = less_one max_turns positive in
      let end =
        work_jobs-IsOver takes queue answer self_text answers max_turns first others gods k last in
      let shape =
        ap (λ n. work_jobs takes answer self_text n (at_start max_turns (first ∷ others) gods))
          (sym last)
        ∙ end.shape in
      record {
        status = ap (λ r. r.status) shape;
        nothing_waits = ap (λ r. r.waiting) shape;
        played = ap (λ r. map who r.agent_turns) shape ∙ end.played;
      }

  -- A standalone run whose turns all its agents play at once, and whose agents always answer, is
  -- played to its end when its queue takes the job of a turn once: after as many jobs as it may have
  -- turns it is done, no job waits, and each agent has played each turn once, the turns one after
  -- the other and the agents in their order.
  pub start_standalone-IsPlayedOut :
      (build : ℕ → ℕ → Option ℕ) (seeded : List GodEvent) (max_turns : Option ℕ) (subjects : List ℕ)
      (run : SimRun)
      → start_standalone takes build seeded dag max_turns subjects ≡ was_started run
      → 0 < run.max_turns
      → IsPlayedOut run (work_jobs takes answer self_text run.max_turns run)
  unfolding start_standalone enqueue_turn
  start_standalone-IsPlayedOut build seeded max_turns [] run h positive =
      let wrong : no_subjects ≡ was_started run = h in cc
  start_standalone-IsPlayedOut build seeded max_turns (subject ∷ subjects) run h positive =
      elim (Option-cases (build_agents build 0 (subject ∷ subjects))) [
        | inl a ↦
            let wrong : agent_not_built _ ≡ was_started run = rw (start_standalone, a) at h in cc
        | inr (agents, a) ↦
            let gods : List (ℕ × GodEvent) = map (λ event. (0, event)) seeded in
            let limit = max_turns_of max_turns (subject ∷ subjects) in
            let shape : was_started (at_start limit agents gods) ≡ was_started run =
              rw (start_standalone, a, enqueue_turn, queue.new [] 0 refl) at h in
            let (first, others, cons, rest) = build_agents-some build 0 subject subjects agents a in
            let same : at_start limit (first ∷ others) gods ≡ run =
              ap (λ l. at_start limit l gods) (sym cons) ∙ ap (run_or run) shape in
            subst (λ r. IsPlayedOut r (work_jobs takes answer self_text r.max_turns r)) same
              (at_start-IsPlayedOut limit first others gods
                (subst (λ n. 0 < n) (ap (λ r. r.max_turns) (sym same)) positive))
      ]
