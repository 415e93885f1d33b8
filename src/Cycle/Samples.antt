-- ===== src/Cycle/Samples.antt =====
-- A loop whose reflexion always asks for the same.
use thalamus_usecase_ssa.Prelude.{
  ℕ, ◌≡◌, refl, String, Bool, true, Option, none, some, List, [], ◌∷◌, Distinct, All, string_Eq,
}
use thalamus_usecase_ssa.Cycle.Targets.{
  TargetHint, keys, push_findings, IsFrom, IsCovered, push_findings-IsCovered,
}
use thalamus_usecase_ssa.Cycle.{
  CortexFinding, DagPlan, StopReason, gap_plateau, max_iterations, cost_exhausted, Ports, Ending,
  failed, out_of_fuel, ended, run,
}

abbrev catalog : CortexFinding
catalog = record {
  title = "Catalog is late";
  edges = record { entity_type = "satellite"; entity_id = 7 } ∷ [];
  confidence = 800000;
  source_cortex = some "catalog";
}

abbrev guess : CortexFinding
guess = record {
  title = "Debris may grow";
  edges = record { entity_type = "satellite"; entity_id = 7 } ∷ [];
  confidence = 300000;
  source_cortex = none;
}

abbrev plan : DagPlan
plan = record { intent = "audit"; nodes = record { cortex = "catalog"; depends_on = [] } ∷ [] }

abbrev ports : ℕ → ℕ → Ports
ports rounds cents = record {
  execute = λ k p. some (catalog ∷ guess ∷ [], 10);
  reflect = λ s found. some (record { replan = true; gaps = some ("orbit" ∷ []) });
  replan = λ s r. some s.plan;
  title_key = λ title. title;
  gap_signature = λ gaps. "orbit";
  novelty_threshold = λ k. 0;
  max_iter = rounds;
  max_cost = cents;
  min_confidence = 700000;
  budget = record {
    confidence_target = 900000;
    coverage_target = 500000;
    min_findings_to_stop = 3;
  };
}

abbrev summary : Ending → Option (ℕ × ℕ × StopReason)
summary (ended s reason) = some (s.iteration, s.total_cost, reason)
summary failed = none
summary out_of_fuel = none

same_gaps : summary (run (ports 8 100) plan) ≡ some (3, 30, gap_plateau)
unfolding run
same_gaps = refl

spent : summary (run (ports 8 15) plan) ≡ some (2, 20, cost_exhausted)
unfolding run
spent = refl

short : summary (run (ports 2 100) plan) ≡ some (2, 20, max_iterations)
unfolding run
short = refl

abbrev by_type : String → ℕ → String
by_type entity_type id = entity_type

abbrev all_types : String → Bool
all_types entity_type = true

abbrev hints : List TargetHint
hints = push_findings by_type all_types (catalog ∷ guess ∷ []) []

push_findings-IsCovered_example :
    Distinct (keys by_type all_types hints)
    × All (IsFrom by_type all_types (catalog ∷ guess ∷ [])) hints
    × All (λ f. All (IsCovered by_type all_types hints) f.edges) (catalog ∷ guess ∷ [])
push_findings-IsCovered_example = push_findings-IsCovered by_type all_types (catalog ∷ guess ∷ [])
