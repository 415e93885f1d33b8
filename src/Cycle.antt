-- ===== src/Cycle.antt =====
-- packages/thalamus/src/services/cycle-loop.service.ts with stop-criteria.service.ts beside it: the
-- research loop runs a plan, keeps what is sure enough, and plans again until it should stop.
-- Confidences and ratios are counted in millionths, costs in millionths of a dollar; ratios are
-- compared crosswise, without the rounding of floating-point division. The executor with its
-- costs, the reflexion, the planner and the operations on texts are parameters; a call that throws,
-- or during which the run is aborted, gives `none`.
use thalamus_usecase_ssa.Prelude.{
  ℕ, zero, suc, ◌+◌, ◌*◌, String, Bool, true, false, not, ◌&&◌, Option, none, some, List, [], ◌∷◌,
  ◌++◌, map, ltb, leb, ◌==◌, string_Eq, if◌then◌else◌, length, has, keep, count_of,
}
use thalamus_usecase_ssa.Dag.{DagNode, names}
pub mod History
pub mod Stop
pub mod Turns
pub mod Bounds
pub mod Targets
mod Samples

pub record Edge : Type 0 where
  pub entity_type : String
  pub entity_id : ℕ

pub record CortexFinding : Type 0 where
  pub title : String
  pub edges : List Edge
  pub confidence : ℕ
  pub source_cortex : Option String

pub record DagPlan : Type 0 where
  pub intent : String
  pub nodes : List DagNode

pub record IterationBudget : Type 0 where
  pub confidence_target : ℕ
  pub coverage_target : ℕ
  pub min_findings_to_stop : ℕ

pub record ReflexionResult : Type 0 where
  pub replan : Bool
  pub gaps : Option (List String)

pub data StopReason : Type 0 where
  completed consecutive_zero_runs cost_exhausted gap_plateau eagerness_satisfied : StopReason
  reflexion_sufficient max_iterations : StopReason

-- The variables of the loop.
pub record LoopState : Type 0 where
  pub iteration : ℕ
  pub total_cost : ℕ
  pub zero_runs : ℕ
  pub identical_gaps : ℕ
  pub last_gaps : Option String
  pub last_reflexion : Option ReflexionResult
  pub low_confidence_rounds : ℕ
  pub replan_count : ℕ
  pub all_findings : List CortexFinding
  pub plan : DagPlan

-- An iteration throws, breaks out of the loop, or goes on.
pub data Turn : Type 0 where
  threw : Turn
  broke : LoopState → StopReason → Turn
  goes_on : LoopState → Turn

-- `out_of_fuel` is no outcome of the source: it marks a loop bound that was too small.
pub data Ending : Type 0 where
  failed out_of_fuel : Ending
  ended : LoopState → StopReason → Ending

pub record Ports : Type 0 where
  -- The findings of a plan and what they cost.
  pub execute : ℕ → DagPlan → Option (List CortexFinding × ℕ)
  pub reflect : LoopState → List CortexFinding → Option ReflexionResult
  pub replan : LoopState → ReflexionResult → Option DagPlan
  -- The first 40 letters of a title, in lower case.
  pub title_key : String → String
  -- The gaps, trimmed, in lower case, sorted and joined.
  pub gap_signature : List String → String
  pub novelty_threshold : ℕ → ℕ
  pub max_iter : ℕ
  pub max_cost : ℕ
  pub min_confidence : ℕ
  pub budget : IterationBudget

abbrev pub million : ℕ
million = 1000000

abbrev pub total_confidence : List CortexFinding → ℕ
total_confidence [] = 0
total_confidence (f ∷ fs) = f.confidence + total_confidence fs

-- `new Set(xs).size`
abbrev pub count_distinct : List String → ℕ
count_distinct [] = 0
count_distinct (x ∷ xs) = if has xs x then count_distinct xs else suc (count_distinct xs)

-- `part / whole >= target`, where a ratio to nothing is 0.
abbrev pub reaches : ℕ → ℕ → ℕ → Bool
reaches part zero target = leb target 0
reaches part (suc n) target = leb (target * suc n) part

abbrev pub source_of : CortexFinding → String
source_of f = elim f.source_cortex [ none ↦ "unknown" | some name ↦ name ]

module _ (ports : Ports) where
  abbrev pub is_kept : CortexFinding → Bool
  is_kept f = leb ports.min_confidence f.confidence

  -- The findings that no earlier finding has the title of.
  pub novel_findings : List CortexFinding → List CortexFinding → List CortexFinding
  novel_findings earlier kept =
      keep (λ f. not (has (map (λ g. ports.title_key g.title) earlier) (ports.title_key f.title)))
        kept

  -- Sure enough, enough of it, from enough cortices, and little of it new. `earlier` are all
  -- findings but those of this iteration.
  pub is_eager : LoopState → List CortexFinding → List CortexFinding → Bool
  unfolding novel_findings
  is_eager s earlier kept =
      reaches (total_confidence s.all_findings) (length s.all_findings)
        ports.budget.confidence_target
      && leb ports.budget.min_findings_to_stop (length s.all_findings)
      && reaches (million * count_distinct (map source_of s.all_findings))
          (count_distinct (names s.plan.nodes)) ports.budget.coverage_target
      && not (
          reaches (million * length (novel_findings earlier kept)) (length kept)
            (ports.novelty_threshold s.iteration))

  -- `shouldStop(state)`
  pub should_stop : LoopState → List CortexFinding → List CortexFinding → Option StopReason
  unfolding is_eager
  should_stop s earlier kept =
      if leb 2 s.zero_runs
      then some consecutive_zero_runs
      else if leb ports.max_cost s.total_cost
      then some cost_exhausted
      else if leb 2 s.identical_gaps
      then some gap_plateau
      else if is_eager s earlier kept
      then some eagerness_satisfied
      else none

  -- What the loop does with the findings of an iteration.
  pub take_findings : LoopState → List CortexFinding → ℕ → LoopState
  take_findings s found cost =
      let kept = keep is_kept found in
      record s {
        iteration = s.iteration + 1;
        total_cost = s.total_cost + cost;
        all_findings = s.all_findings ++ kept;
        zero_runs = elim kept [ [] ↦ s.zero_runs + 1 | k ∷ ks ↦ 0 ];
        low_confidence_rounds = elim kept [
          | [] ↦ s.low_confidence_rounds + (elim found [ [] ↦ 0 | f ∷ fs ↦ 1 ])
          | k ∷ ks ↦ s.low_confidence_rounds
        ];
      }

  -- `gapSignature && gapSignature === lastGapSignature`
  abbrev pub is_same_gap : String → Option String → Bool
  is_same_gap signature none = false
  is_same_gap signature (some last) = not (signature == "") && signature == last

  -- What the loop does with a reflexion that asks for more.
  pub take_gaps : LoopState → ReflexionResult → LoopState
  take_gaps s r =
      let signature = ports.gap_signature (elim r.gaps [ none ↦ [] | some gaps ↦ gaps ]) in
      record s {
        replan_count = s.replan_count + 1;
        identical_gaps = if is_same_gap signature s.last_gaps then s.identical_gaps + 1 else 0;
        last_gaps = some signature;
      }

  abbrev pub set_plan : LoopState → Option DagPlan → Turn
  set_plan s none = threw
  set_plan s (some plan) = goes_on (record s { plan = plan })

  pub plan_again : LoopState → ReflexionResult → Turn
  plan_again s r = set_plan s (ports.replan s r)

  pub after_gaps : LoopState → ReflexionResult → Turn
  unfolding plan_again
  after_gaps s r = if leb 2 s.identical_gaps then broke s gap_plateau else plan_again s r

  -- After a reflexion, on whether it asks for more.
  pub after_replan : Bool → LoopState → ReflexionResult → Turn
  unfolding take_gaps after_gaps
  after_replan true s r = after_gaps (take_gaps s r) r
  after_replan false s r = broke s reflexion_sufficient

  pub after_reflexion : LoopState → Option ReflexionResult → Turn
  unfolding after_replan
  after_reflexion s none = threw
  after_reflexion s (some r) = after_replan r.replan (record s { last_reflexion = some r }) r

  pub after_findings : LoopState → List CortexFinding → Option StopReason → Turn
  unfolding after_reflexion
  after_findings s found (some reason) = broke s reason
  after_findings s found none =
      if ltb s.iteration ports.max_iter
      then after_reflexion s (ports.reflect s found)
      else goes_on s

  pub after_execution : LoopState → Option (List CortexFinding × ℕ) → Turn
  unfolding take_findings should_stop after_findings
  after_execution s none = threw
  after_execution s (some (found, cost)) =
      let t = take_findings s found cost in
      after_findings t found (should_stop t s.all_findings (keep is_kept found))

  pub follow : (LoopState → Ending) → Turn → Ending
  follow call threw = failed
  follow call (broke s reason) = ended s reason
  follow call (goes_on s) = call s

  pub iterate : ℕ → LoopState → Ending
  unfolding after_execution follow
  iterate zero s = out_of_fuel
  iterate (suc fuel) s =
      if ltb s.iteration ports.max_iter
      then follow (iterate fuel) (after_execution s (ports.execute s.iteration s.plan))
      else ended s completed

  abbrev pub start : DagPlan → LoopState
  start plan = record {
    iteration = 0;
    total_cost = 0;
    zero_runs = 0;
    identical_gaps = 0;
    last_gaps = none;
    last_reflexion = none;
    low_confidence_rounds = 0;
    replan_count = 0;
    all_findings = [];
    plan = plan;
  }

  -- The reason where the loop's own test ended it.
  pub label : Ending → Ending
  label (ended s completed) =
      ended s (if leb ports.max_iter s.iteration then max_iterations else completed)
  label ending = ending

  -- `run(initialPlan, ...)`
  unfoldable pub run : DagPlan → Ending
  unfolding iterate label
  run plan = label (iterate (suc ports.max_iter) (start plan))
