-- ===== src/Dag/Samples.antt =====
-- Small plans, and what `validateDag` says of them.
use thalamus_usecase_ssa.Prelude.{String, ◌≡◌, refl, true, false, none, some, List, [], ◌∷◌}
use thalamus_usecase_ssa.Dag.{
  DagNode, empty_dag, unknown_cortex, duplicate_cortex, self_dependency, missing_dependency,
  circular_dependency, ok, err, get_node, validate_dag,
}
use thalamus_usecase_ssa.Dag.Decision.{IsRunnable, validate_dag-iff_IsRunnable}
use thalamus_usecase_ssa.Dag.Refusal.{Claims, validate_dag-Claims}

abbrev node : String → List String → DagNode
node name deps = record { cortex = name; depends_on = deps }

abbrev diamond : List DagNode
diamond =
    node "strategist" ("orbit" ∷ "debris" ∷ [])
    ∷ node "orbit" ("catalog" ∷ [])
    ∷ node "debris" ("catalog" ∷ [])
    ∷ node "catalog" []
    ∷ []

abbrev looped : List DagNode
looped = node "a" ("b" ∷ []) ∷ node "b" ("c" ∷ []) ∷ node "c" ("b" ∷ []) ∷ []

diamond_passes : validate_dag false none diamond ≡ ok tt
unfolding validate_dag get_node
diamond_passes = refl

looped_fails : validate_dag false none looped ≡ err (circular_dependency ("b" ∷ "c" ∷ "b" ∷ []))
unfolding validate_dag get_node
looped_fails = refl

empty_fails : validate_dag false none [] ≡ err empty_dag
unfolding validate_dag get_node
empty_fails = refl

empty_allowed : validate_dag true none [] ≡ ok tt
unfolding validate_dag get_node
empty_allowed = refl

unknown_fails :
    validate_dag false (some ("catalog" ∷ [])) (node "orbit" [] ∷ []) ≡ err (unknown_cortex "orbit")
unfolding validate_dag get_node
unknown_fails = refl

twice_fails : validate_dag false none (node "a" [] ∷ node "a" [] ∷ []) ≡ err (duplicate_cortex "a")
unfolding validate_dag get_node
twice_fails = refl

self_fails : validate_dag false none (node "a" ("a" ∷ []) ∷ []) ≡ err (self_dependency "a")
unfolding validate_dag get_node
self_fails = refl

missing_fails :
    validate_dag false none (node "a" ("b" ∷ []) ∷ []) ≡ err (missing_dependency "a" "b")
unfolding validate_dag get_node
missing_fails = refl

validate_dag-iff_IsRunnable_example : IsRunnable false none diamond
validate_dag-iff_IsRunnable_example =
    (validate_dag-iff_IsRunnable false none diamond).0 diamond_passes

validate_dag-Claims_example : Claims false none looped (circular_dependency ("b" ∷ "c" ∷ "b" ∷ []))
validate_dag-Claims_example =
    validate_dag-Claims false none looped (circular_dependency ("b" ∷ "c" ∷ "b" ∷ [])) looped_fails
