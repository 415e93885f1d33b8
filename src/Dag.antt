-- ===== src/Dag.antt =====
-- packages/thalamus/src/services/dag-validation.ts: the checks that a research plan passes before
-- it runs. A set is the list of its members, and a map from names is the list of its nodes.
use thalamus_usecase_ssa.Prelude.{
  ℕ, zero, suc, String, Bool, true, false, not, ◌&&◌, Option, none, some, List, [], ◌∷◌, ◌++◌, map,
  ◌==◌, string_Eq, if◌then◌else◌, length, has, drop,
}
pub mod Graph
pub mod Visit
pub mod Cycle
pub mod Valid
pub mod Decision
pub mod Refusal
mod Samples

pub record DagNode : Type 0 where
  pub cortex : String
  pub depends_on : List String

-- `out_of_fuel` is no outcome of the source: it marks a loop bound that was too small.
pub data DagError : Type 0 where
  empty_dag out_of_fuel : DagError
  unknown_cortex duplicate_cortex self_dependency : String → DagError
  missing_dependency : String → String → DagError
  circular_dependency : List String → DagError

pub data Result {ℓ} (Value : Type ℓ) : Type ℓ where
  err : DagError → Result Value
  ok : Value → Result Value

infixl 5 ◌>>=◌ ◌>>◌
abbrev pub ◌>>=◌ {ℓ κ} :
    {Value : Type ℓ} {Next : Type κ} → Result Value → (Value → Result Next) → Result Next
err e >>= next = err e
ok value >>= next = next value

abbrev pub ◌>>◌ {ℓ κ} : {Value : Type ℓ} {Next : Type κ} → Result Value → Result Next → Result Next
r >> next = r >>= λ _. next

abbrev pub names : List DagNode → List String
names = map (λ n. n.cortex)

unfoldable pub get_node : List DagNode → String → Option DagNode
get_node [] name = none
get_node (n ∷ ns) name = if n.cortex == name then some n else get_node ns name

-- `known && !known.has(name)`
abbrev pub is_unknown : Option (List String) → String → Bool
is_unknown none name = false
is_unknown (some known) name = not (has known name)

-- The first loop: it fills `byName`.
pub index_nodes : Option (List String) → List DagNode → List DagNode → Result (List DagNode)
index_nodes known by_name [] = ok by_name
index_nodes known by_name (n ∷ ns) =
    if is_unknown known n.cortex
    then err (unknown_cortex n.cortex)
    else if has (names by_name) n.cortex
    then err (duplicate_cortex n.cortex)
    else index_nodes known (by_name ++ n ∷ []) ns

pub check_deps : List DagNode → String → List String → Result (Unit {0})
check_deps by_name name [] = ok tt
check_deps by_name name (dep ∷ deps) =
    if dep == name
    then err (self_dependency name)
    else if has (names by_name) dep
    then check_deps by_name name deps
    else err (missing_dependency name dep)

-- The second loop: dependencies exist, and none is on the node itself.
pub check_nodes : List DagNode → List DagNode → Result (Unit {0})
unfolding check_deps
check_nodes by_name [] = ok tt
check_nodes by_name (n ∷ ns) = do check_deps by_name n.cortex n.depends_on; check_nodes by_name ns

pub record Dfs : Type 0 where
  pub visited : List String
  pub visiting : List String
  pub stack : List String

abbrev pub index_of : List String → String → ℕ
index_of [] name = zero
index_of (x ∷ xs) name = if x == name then zero else suc (index_of xs name)

-- `stack.slice(Math.max(0, start))` and the name once more.
abbrev pub cycle_of : List String → String → List String
cycle_of stack name =
    (if has stack name then drop (index_of stack name) stack else stack) ++ name ∷ []

abbrev pub delete : String → List String → List String
delete name [] = []
delete name (x ∷ xs) = if x == name then xs else x ∷ delete name xs

abbrev pub pop : List String → List String
pop [] = []
pop (x ∷ []) = []
pop (x ∷ y ∷ ys) = x ∷ pop (y ∷ ys)

abbrev pub enter : String → Dfs → Dfs
enter name s = record s { visiting = name ∷ s.visiting; stack = s.stack ++ name ∷ [] }

abbrev pub leave : String → Dfs → Dfs
leave name s = record {
  visited = name ∷ s.visited;
  visiting = delete name s.visiting;
  stack = pop s.stack;
}

pub visit_all : (String → Dfs → Result Dfs) → List String → Dfs → Result Dfs
visit_all call [] s = ok s
visit_all call (dep ∷ deps) s = do s' ← call dep s; visit_all call deps s'

-- The depth-first search, with fuel for its depth.
pub visit : List DagNode → ℕ → String → Dfs → Result Dfs
visit by_name zero name s = err out_of_fuel
visit by_name (suc fuel) name s =
    if has s.visited name
    then ok s
    else if has s.visiting name
    then err (circular_dependency (cycle_of s.stack name))
    else elim (get_node by_name name) [
      | none ↦ ok s
      | some node ↦
          visit_all (visit by_name fuel) node.depends_on (enter name s) >>= λ s'. ok (leave name s')
    ]

abbrev pub unseen : Dfs
unseen = record { visited = []; visiting = []; stack = [] }

pub search_cycle : List DagNode → Result Dfs
unfolding visit visit_all
search_cycle by_name = visit_all (visit by_name (suc (length by_name))) (names by_name) unseen

abbrev pub is_empty : List DagNode → Bool
is_empty [] = true
is_empty (n ∷ ns) = false

-- The checks of a plan that is not refused as empty.
pub check_dag : Option (List String) → List DagNode → Result (Unit {0})
unfolding index_nodes check_nodes search_cycle
check_dag known nodes = do
  by_name ← index_nodes known [] nodes
  check_nodes by_name nodes
  search_cycle by_name
  ok tt

-- `validateDag(nodes, { allowEmpty, knownCortices })`
unfoldable pub validate_dag : Bool → Option (List String) → List DagNode → Result (Unit {0})
unfolding check_dag
validate_dag allow_empty known nodes =
    if not allow_empty && is_empty nodes then err empty_dag else check_dag known nodes
