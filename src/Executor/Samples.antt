-- ===== src/Executor/Samples.antt =====
-- Runs of small plans.
use thalamus_usecase_ssa.Prelude.{
  ◌≡◌, true, ℕ, String, refl, Bool, false, Option, none, some, List, [], ◌∷◌, ◌==◌, string_Eq,
  if◌then◌else◌,
}
use thalamus_usecase_ssa.Dag.{DagNode, ok, get_node, validate_dag}
use thalamus_usecase_ssa.Executor.Timeout.{
  PlannerConfig, compute_timeout, no_override, IsTimeout, compute_timeout-IsTimeout,
}
use thalamus_usecase_ssa.Executor.{
  PreviousFinding, CortexOutput, Outputs, done, execute, topological_levels,
}
use thalamus_usecase_ssa.Executor.Plan.{Schedule, validate_dag-Schedule}
use thalamus_usecase_ssa.Executor.Execution.{IsExecution, execute-IsExecution}

abbrev node : String → List String → DagNode
node name deps = record { cortex = name; depends_on = deps }

abbrev plan : List DagNode
plan =
    node "strategist" ("orbit" ∷ "debris" ∷ [])
    ∷ node "orbit" ("catalog" ∷ [])
    ∷ node "debris" ("catalog" ∷ [])
    ∷ node "catalog" []
    ∷ []

-- Each cortex repeats what it was told and adds a finding of its own; one of them fails.
abbrev told : Option (List PreviousFinding) → List PreviousFinding
told none = []
told (some fs) = fs

abbrev cortex : DagNode → Option (List PreviousFinding) → Option CortexOutput
cortex n fs =
    if n.cortex == "debris"
    then none
    else some (record {
      findings = record { title = n.cortex; summary = "seen"; confidence = 800000 } ∷ told fs;
      tokens_used = 10;
      duration = 5;
      model = "local";
    })

abbrev never : ℕ → Bool
never k = false

plan_passes : validate_dag false none plan ≡ ok tt
unfolding validate_dag get_node
plan_passes = refl

plan_levels :
    topological_levels plan
    ≡ ok (
        (node "catalog" [] ∷ [])
        ∷ (node "debris" ("catalog" ∷ []) ∷ node "orbit" ("catalog" ∷ []) ∷ [])
        ∷ (node "strategist" ("orbit" ∷ "debris" ∷ []) ∷ [])
        ∷ [])
unfolding topological_levels
plan_levels = refl

validate_dag-Schedule_example : Schedule plan
validate_dag-Schedule_example = validate_dag-Schedule false none plan plan_passes

execute-IsExecution_example :
    (outputs : Outputs) × (execute cortex never none plan ≡ done outputs)
    × IsExecution cortex plan outputs
execute-IsExecution_example = execute-IsExecution cortex never none plan (λ k. refl) plan_passes

abbrev planner : PlannerConfig
planner = record {
  provider = "openai";
  model = "local/small";
  reasoning_effort = "medium";
  thinking = true;
}

abbrev is_local : String → Bool
is_local model = model == "local/small"

three_times : compute_timeout is_local "orbit" 90000 planner none ≡ 270000
unfolding compute_timeout
three_times = refl

by_name : compute_timeout is_local "payload_profiler" 90000 planner none ≡ 180000
unfolding compute_timeout
by_name = refl

compute_timeout-IsTimeout_example :
    IsTimeout "orbit" 90000 planner no_override
      (compute_timeout is_local "orbit" 90000 planner none)
compute_timeout-IsTimeout_example = compute_timeout-IsTimeout is_local "orbit" 90000 planner none
