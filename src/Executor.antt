-- ===== src/Executor.antt =====
-- packages/thalamus/src/services/thalamus-executor.service.ts: a plan is cut into levels, and the
-- nodes of a level run side by side on the findings of the levels before it.
-- Confidences are decimal fractions, counted in millionths. A map is the list of its entries.
use thalamus_usecase_ssa.Prelude.{
  ℕ, zero, suc, ◌+◌, String, Bool, true, false, Option, none, some, List, [], ◌∷◌, ◌++◌, map, ◌==◌,
  string_Eq, if◌then◌else◌, length, has, every,
}
use thalamus_usecase_ssa.Dag.{
  DagNode, DagError, circular_dependency, out_of_fuel, names, Result, ok, err, ◌>>=◌, validate_dag,
}
pub mod Levels
pub mod Timeout
pub mod Plan
pub mod Run
pub mod Execution
mod Samples

-- The inner `for` loop, from the last node that remains to the first: the nodes whose
-- dependencies are placed, in the order in which the loop takes them, and those that remain.
pub split_level : List String → List DagNode → List DagNode × List DagNode
split_level placed [] = ([], [])
split_level placed (n ∷ ns) =
    let (level, rest) = split_level placed ns in
    if every (has placed) n.depends_on then (level ++ n ∷ [], rest) else (level, n ∷ rest)

-- The body of the `while` loop, on the level and what remains behind it.
pub next_level :
    (List String → List DagNode → Result (List (List DagNode)))
    → List String
    → List DagNode × List DagNode
    → Result (List (List DagNode))
next_level call placed ([], rest) = err (circular_dependency (names rest))
next_level call placed (n ∷ ns, rest) = do
  levels ← call (names (n ∷ ns) ++ placed) rest
  ok ((n ∷ ns) ∷ levels)

pub levels_from : ℕ → List String → List DagNode → Result (List (List DagNode))
unfolding split_level next_level
levels_from fuel placed [] = ok []
levels_from zero placed (n ∷ ns) = err out_of_fuel
levels_from (suc fuel) placed (n ∷ ns) =
    next_level (levels_from fuel) placed (split_level placed (n ∷ ns))

-- `topologicalLevels(nodes)`
unfoldable pub topological_levels : List DagNode → Result (List (List DagNode))
unfolding levels_from
topological_levels nodes = levels_from (length nodes) [] nodes

-- What a node is told of a finding of a node that it depends on.
pub record PreviousFinding : Type 0 where
  pub title : String
  pub summary : String
  pub confidence : ℕ

pub record CortexOutput : Type 0 where
  pub findings : List PreviousFinding
  pub tokens_used : ℕ
  pub duration : ℕ
  pub model : String

abbrev pub Outputs : Type 0
Outputs = List (String × CortexOutput)

unfoldable pub get_output : Outputs → String → Option CortexOutput
get_output [] name = none
get_output ((k, v) ∷ m) name = if k == name then some v else get_output m name

unfoldable pub set_output : Outputs → String → CortexOutput → Outputs
set_output [] name o = (name, o) ∷ []
set_output ((k, v) ∷ m) name o = if k == name then (k, o) ∷ m else (k, v) ∷ set_output m name o

abbrev pub findings_of : Option CortexOutput → List PreviousFinding
findings_of none = []
findings_of (some o) = o.findings

-- `node.dependsOn.flatMap(...)`
pub previous_findings : Outputs → List String → List PreviousFinding
unfolding get_output
previous_findings outputs [] = []
previous_findings outputs (dep ∷ deps) =
    findings_of (get_output outputs dep) ++ previous_findings outputs deps

-- `previousFindings.length > 0 ? { previousFindings } : undefined`
abbrev pub context : List PreviousFinding → Option (List PreviousFinding)
context [] = none
context (f ∷ fs) = some (f ∷ fs)

-- What stands for the output of a node whose cortex failed or ran out of time.
abbrev pub failed_output : CortexOutput
failed_output = record { findings = []; tokens_used = 0; duration = 0; model = "error" }

abbrev pub settle : Option CortexOutput → CortexOutput
settle none = failed_output
settle (some o) = o

pub data Outcome : Type 0 where
  done : Outputs → Outcome
  aborted : Outcome
  invalid : DagError → Outcome

-- All nodes of a level read the outputs that stood before it; then the results are entered.
pub collect : (DagNode → CortexOutput) → List DagNode → Outputs → Outputs
unfolding set_output
collect result [] outputs = outputs
collect result (n ∷ ns) outputs = collect result ns (set_output outputs n.cortex (result n))

-- `cortex` is the executor of one node, `none` where it rejects, its time limit included;
-- `stopped k` is what the k-th look at the abort signal finds.
module _ (cortex : DagNode → Option (List PreviousFinding) → Option CortexOutput)
    (stopped : ℕ → Bool) where
  pub execute_node : Outputs → DagNode → CortexOutput
  execute_node outputs node =
      settle (cortex node (context (previous_findings outputs node.depends_on)))

  pub run_levels : ℕ → Outputs → List (List DagNode) → Outcome
  run_levels look outputs [] = done outputs
  run_levels look outputs (level ∷ levels) =
      let after = run_levels (look + 2) (collect (execute_node outputs) level outputs) levels in
      if stopped look then aborted else if stopped (look + 1) then aborted else after

  -- `execute(plan, ...)`, with the cortices that the executor knows.
  pub execute : Option (List String) → List DagNode → Outcome
  execute known nodes = if stopped 0 then aborted else elim (validate_dag false known nodes) [
    | err e ↦ invalid e
    | ok _ ↦ elim (topological_levels nodes) [
      | err e ↦ invalid e
      | ok levels ↦ run_levels 1 [] levels
    ]
  ]
