-- ===== src/Dag/Graph.antt =====
-- The graph that a map of nodes stands for, and facts on lookups in it.
use thalamus_usecase_ssa.Prelude.{
  ◌++◌, ◌||◌, refl, String, ◌≡◌, true, none, some, List, [], ◌∷◌, has, arith, ◌≢◌, string_Eq,
}
use thalamus_usecase_ssa.Dag.{DagNode, names, get_node}

-- Node `n` of the map depends on `d`.
pub record Edge (by_name : List DagNode) (n d : String) : Type 0 where
  pub node : DagNode
  pub found : get_node by_name n ≡ some node
  pub needs : has node.depends_on d ≡ true

-- Every dependency is the name of a node.
abbrev pub IsKnown : List DagNode → Type 0
IsKnown by_name = (n d : String) → Edge by_name n d → has (names by_name) d ≡ true

-- A list of names, the newest first, in which each stands before all of its dependencies.
abbrev pub IsClosed : List DagNode → List String → Type 0
IsClosed by_name [] = Unit
IsClosed by_name (n ∷ ns) =
    ((d : String) → Edge by_name n d → has ns d ≡ true) × IsClosed by_name ns

pub get_node-ne-none :
    (by_name : List DagNode) (n : String) → has (names by_name) n ≡ true → get_node by_name n ≢ none
unfolding get_node
get_node-ne-none [] n h = cc
get_node-ne-none (x ∷ xs) n h = ground (arith, get_node-ne-none xs n)

pub has-get_node :
    (by_name : List DagNode) (n : String) (node : DagNode)
    → get_node by_name n ≡ some node
    → has (names by_name) n ≡ true
unfolding get_node
has-get_node [] n node h = cc
has-get_node (x ∷ xs) n node h = ground (arith, has-get_node xs n node)

pub has-names-append :
    (xs ys : List DagNode) (x : String)
    → has (names (xs ++ ys)) x ≡ (has (names xs) x || has (names ys) x)
has-names-append [] ys x = refl
has-names-append (n ∷ ns) ys x = ground (arith, has-names-append ns ys x)
