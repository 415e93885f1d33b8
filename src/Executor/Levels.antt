-- ===== src/Executor/Levels.antt =====
-- The levels hold every node once, and each node stands above its dependencies.
use mathlib.Core.List.{Perm, perm_middle}
use mathlib.Core.List.Perm
use thalamus_usecase_ssa.Prelude.{
  ◌<◌, ◌+◌, String, ◌≡◌, true, List, [], ◌∷◌, ◌++◌, has, length, length-append, every, some_of,
  arith, string_Eq, ◌⊎◌, Bool-cases, inl, inr, All, All-append, append_assoc,
}
use thalamus_usecase_ssa.Dag.{DagNode, names}
use thalamus_usecase_ssa.Dag.Graph.{has-names-append}
use thalamus_usecase_ssa.Executor.{split_level}

abbrev pub IsReady : List String → DagNode → Type 0
IsReady placed n = every (has placed) n.depends_on ≡ true

-- Every node of a level asks only for names of the levels before it, or of `placed`.
abbrev pub IsLayered : List String → List (List DagNode) → Type 0
IsLayered placed [] = Unit {0}
IsLayered placed (level ∷ levels) =
    All (IsReady placed) level × IsLayered (names level ++ placed) levels

pub split_level-perm :
    (placed : List String) (ns : List DagNode)
    → Perm ((split_level placed ns).0 ++ (split_level placed ns).1) ns
unfolding split_level
split_level-perm placed [] = Perm.nil
split_level-perm placed (n ∷ ns) = elim (Bool-cases (every (has placed) n.depends_on)) [
  | inl ready ↦
      rw (ready, append_assoc)
        (Perm.trans (perm_middle (split_level placed ns).0 (split_level placed ns).1)
          (Perm.cons n (split_level-perm placed ns)))
  | inr waits ↦ rw waits (
      Perm.trans (perm_middle (split_level placed ns).0 (split_level placed ns).1)
        (Perm.cons n (split_level-perm placed ns)))
]

pub split_level-IsReady :
    (placed : List String) (ns : List DagNode) → All (IsReady placed) (split_level placed ns).0
unfolding split_level
split_level-IsReady placed [] = tt
split_level-IsReady placed (n ∷ ns) = elim (Bool-cases (every (has placed) n.depends_on)) [
  | inl ready ↦ rw ready (
      All-append (IsReady placed) (split_level placed ns).0 (n ∷ []) (split_level-IsReady placed ns)
        (ready, tt))
  | inr waits ↦ rw waits (split_level-IsReady placed ns)
]

pub length-split_level :
    (placed : List String) (ns : List DagNode)
    → length (split_level placed ns).0 + length (split_level placed ns).1 ≡ length ns
unfolding split_level
length-split_level placed [] = omega arith
length-split_level placed (n ∷ ns) =
    ground (arith, length-split_level placed ns, length-append (split_level placed ns).0 (n ∷ []))

-- A name that remained is in the level or still remains.
pub split_level-has :
    (placed : List String) (ns : List DagNode) (x : String)
    → has (names ns) x ≡ true
    → (has (names (split_level placed ns).0) x ≡ true)
      ⊎ (has (names (split_level placed ns).1) x ≡ true)
unfolding split_level
split_level-has placed [] x h = cc
split_level-has placed (n ∷ ns) x h =
    ground
      (arith, has-names-append (split_level placed ns).0 (n ∷ []) x, split_level-has placed ns x)

pub split_level-sub :
    (placed : List String) (ns : List DagNode) (x : String)
    → has (names (split_level placed ns).1) x ≡ true
    → has (names ns) x ≡ true
unfolding split_level
split_level-sub placed [] x h = h
split_level-sub placed (n ∷ ns) x h = ground (arith, split_level-sub placed ns x)

pub split_level-All :
    (P : DagNode → Type 0) (placed : List String) (ns : List DagNode)
    → All P ns
    → All P (split_level placed ns).1
unfolding split_level
split_level-All P placed [] h = tt
split_level-All P placed (n ∷ ns) h = elim (Bool-cases (every (has placed) n.depends_on)) [
  | inl ready ↦ rw ready (split_level-All P placed ns h.1)
  | inr waits ↦ rw waits (h.0, split_level-All P placed ns h.1)
]

pub split_level-nonempty :
    (placed : List String) (ns : List DagNode)
    → some_of (λ n. every (has placed) n.depends_on) ns ≡ true
    → 0 < length (split_level placed ns).0
unfolding split_level
split_level-nonempty placed [] h = cc
split_level-nonempty placed (n ∷ ns) h =
    ground (arith, split_level-nonempty placed ns, length-append (split_level placed ns).0 (n ∷ []))
