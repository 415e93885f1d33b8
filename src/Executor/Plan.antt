-- ===== src/Executor/Plan.antt =====
-- A validated plan is cut into levels without fail.
use mathlib.Core.List.{Perm, flatten}
use mathlib.Core.List.Perm
use thalamus_usecase_ssa.Prelude.{
  ℕ, zero, suc, ◌≤◌, ◌<◌, String, ◌≡◌, refl, Bool, true, false, Option, some, List, [], ◌∷◌, ◌++◌,
  has, has-append, length, every, every-has, some_of, arith, subst, ap, sym, ◌∙◌, string_Eq, ◌⊎◌,
  Bool-cases, inl, inr, All, ◌==◌, ==_iff, ==_refl, append_assoc,
}
use thalamus_usecase_ssa.Dag.{DagNode, names, get_node, Result, ok, validate_dag}
use thalamus_usecase_ssa.Dag.Graph.{Edge, IsKnown, IsClosed}
use thalamus_usecase_ssa.Dag.Valid.{IsUnique, DepsOk-IsKnown, names-append}
use thalamus_usecase_ssa.Dag.Visit.{has-head, has-cons}
use thalamus_usecase_ssa.Dag.Decision.{validate_dag-iff_IsRunnable, Edge-stays}
use thalamus_usecase_ssa.Executor.{split_level, levels_from, topological_levels, next_level}
use thalamus_usecase_ssa.Executor.Levels.{
  IsLayered, IsReady, split_level-perm, split_level-IsReady, length-split_level, split_level-has,
  split_level-sub, split_level-All, split_level-nonempty,
}

levels_from-suc :
    (fuel : ℕ) (placed : List String) (n : DagNode) (ns : List DagNode)
    → levels_from (suc fuel) placed (n ∷ ns)
      ≡ next_level (levels_from fuel) placed (split_level placed (n ∷ ns))
unfolding levels_from
levels_from-suc fuel placed n ns = refl

next_level_cons :
    (call : List String → List DagNode → Result (List (List DagNode))) (placed : List String)
    (l : DagNode) (ls rest : List DagNode) (levels : List (List DagNode))
    → call (names (l ∷ ls) ++ placed) rest ≡ ok levels
    → next_level call placed (l ∷ ls, rest) ≡ ok ((l ∷ ls) ∷ levels)
unfolding next_level
next_level_cons call placed l ls rest levels h = rw h

module _ (nodes : List DagNode) where
  abbrev Listed : DagNode → Type 0
  Listed n = get_node nodes n.cortex ≡ some n

  abbrev ready : List String → DagNode → Bool
  ready placed n = every (has placed) n.depends_on

  -- A named node of a list passes a test that every node of that name passes.
  some_of-named :
      (p : DagNode → Bool) (ns : List DagNode) (x : String)
      → has (names ns) x ≡ true
      → All Listed ns
      → ((n : DagNode) → get_node nodes x ≡ some n → p n ≡ true)
      → some_of p ns ≡ true
  some_of-named p [] x h l pass = cc
  some_of-named p (n ∷ ns) x h l pass = elim (Bool-cases (n.cortex == x)) [
    | inl same ↦
        rw (pass n (subst (λ y. get_node nodes y ≡ some n) ((==_iff n.cortex x).0 same) l.0))
    | inr other ↦ ground (arith, some_of-named p ns x (ground arith) l.1 pass)
  ]

  abbrev Covered : List String → List DagNode → Type 0
  Covered placed remaining =
      (x : String)
      → has (names nodes) x ≡ true
      → (has placed x ≡ true) ⊎ (has (names remaining) x ≡ true)

  -- From the oldest name of a closed list on: all nodes are placed, or one can be placed.
  find_ready :
      (known : IsKnown nodes) (placed : List String) (remaining : List DagNode)
      (order : List String)
      → IsClosed nodes order
      → All Listed remaining
      → Covered placed remaining
      → ((x : String) → has order x ≡ true → has (names nodes) x ≡ true → has placed x ≡ true)
        ⊎ (some_of (ready placed) remaining ≡ true)
  find_ready known placed remaining [] c l cover = inl (λ x h k. cc)
  find_ready known placed remaining (n ∷ ns) c l cover =
      elim (find_ready known placed remaining ns c.1 l cover) [
        | inr found ↦ inr found
        | inl all ↦ elim (Bool-cases (has placed n)) [
          | inl here ↦ inl (λ x h k. elim (has-cons n ns x h) [
            | inl same ↦ subst (λ y. has placed y ≡ true) same here
            | inr later ↦ all x later k
          ])
          | inr waits ↦ elim (Bool-cases (has (names nodes) n)) [
            | inr foreign ↦ inl (λ x h k. elim (has-cons n ns x h) [
              | inl same ↦
                  let k' : has (names nodes) n ≡ true =
                    subst (λ y. has (names nodes) y ≡ true) (sym same) k in
                  cc
              | inr later ↦ all x later k
            ])
            | inl member ↦ inr (
                some_of-named (ready placed) remaining n (unplaced n member waits) l (λ node found.
                  every-has (has placed) node.depends_on (λ d m.
                    let edge : Edge nodes n d = record { node = node; found = found; needs = m } in
                    all d (c.0 d edge) (known n d edge))))
          ]
        ]
      ]
    where
      unplaced :
          (x : String)
          → has (names nodes) x ≡ true
          → has placed x ≡ false
          → has (names remaining) x ≡ true
      unplaced x k f = ground (arith, cover x k)

  progress :
      (known : IsKnown nodes) (placed : List String) (n : DagNode) (ns : List DagNode)
      (order : List String)
      → IsClosed nodes order
      → All Listed (n ∷ ns)
      → Covered placed (n ∷ ns)
      → has order n.cortex ≡ true
      → some_of (ready placed) (n ∷ ns) ≡ true
  progress known placed n ns order c l cover h =
      elim (find_ready known placed (n ∷ ns) order c l cover) [
        | inr found ↦ found
        | inl all ↦ rw (
            every-has (has placed) n.depends_on (λ d m.
              let edge : Edge nodes n.cortex d = record { node = n; found = l.0; needs = m } in
              all d (Edge-stays nodes order n.cortex d c edge h) (known n.cortex d edge)))
      ]

  -- The result of cutting what remains.
  record Cut (placed : List String) (remaining : List DagNode) (fuel : ℕ) : Type 0 where
    levels : List (List DagNode)
    result : levels_from fuel placed remaining ≡ ok levels
    all : Perm (flatten levels) remaining
    layered : IsLayered placed levels

  next_level-Cut :
      (fuel : ℕ) (placed : List String) (n : DagNode) (ns level rest : List DagNode)
      → split_level placed (n ∷ ns) ≡ (level, rest)
      → 0 < length level
      → Cut (names level ++ placed) rest fuel
      → Cut placed (n ∷ ns) (suc fuel)
  unfolding flatten
  next_level-Cut fuel placed n ns [] rest e pos cut = absurd (omega arith)
  next_level-Cut fuel placed n ns (l ∷ ls) rest e pos cut = record {
    levels = (l ∷ ls) ∷ cut.levels;
    result =
        levels_from-suc fuel placed n ns
        ∙ ap (next_level (levels_from fuel) placed) e
        ∙ next_level_cons (levels_from fuel) placed l ls rest cut.levels cut.result;
    all =
        Perm.trans (Perm.append_left (l ∷ ls) cut.all)
          (subst (λ p. Perm (p.0 ++ p.1) (n ∷ ns)) e (split_level-perm placed (n ∷ ns)));
    layered = (
      subst (λ p. All (IsReady placed) p.0) e (split_level-IsReady placed (n ∷ ns)),
      cut.layered,
    );
  }

  nil-Cut : (fuel : ℕ) (placed : List String) → Cut placed [] fuel
  unfolding levels_from flatten
  nil-Cut fuel placed = record { levels = []; result = refl; all = Perm.nil; layered = tt }

  levels_from-Cut :
      (known : IsKnown nodes) (order : List String)
      → IsClosed nodes order
      → (fuel : ℕ) (placed : List String) (remaining : List DagNode) → length remaining ≤ fuel
      → All Listed remaining
      → Covered placed remaining
      → ((x : String) → has (names remaining) x ≡ true → has order x ≡ true)
      → Cut placed remaining fuel
  levels_from-Cut known order c fuel placed [] bound l cover sub = nil-Cut fuel placed
  levels_from-Cut known order c zero placed (n ∷ ns) bound l cover sub = absurd (omega arith)
  levels_from-Cut known order c (suc fuel) placed (n ∷ ns) bound l cover sub =
      next_level-Cut fuel placed n ns level rest refl pos (
        levels_from-Cut known order c fuel (names level ++ placed) rest
          (omega (arith, length-split_level placed (n ∷ ns), pos))
          (split_level-All Listed placed (n ∷ ns) l) cover'
          (λ x h. sub x (split_level-sub placed (n ∷ ns) x h)))
    where
      level : List DagNode
      level = (split_level placed (n ∷ ns)).0

      rest : List DagNode
      rest = (split_level placed (n ∷ ns)).1

      pos : 0 < length level
      pos =
          split_level-nonempty placed (n ∷ ns) (
            progress known placed n ns order c l cover
              (sub n.cortex (has-head n.cortex (names ns))))

      cover' : Covered (names level ++ placed) rest
      cover' x h = elim (cover x h) [
        | inl here ↦ inl (rw (has-append (names level) placed x) (ground arith))
        | inr waits ↦ elim (split_level-has placed (n ∷ ns) x waits) [
          | inl now ↦ inl (rw (has-append (names level) placed x) (ground arith))
          | inr later ↦ inr later
        ]
      ]

  pub record Schedule : Type 0 where
    pub levels : List (List DagNode)
    pub result : topological_levels nodes ≡ ok levels
    pub all : Perm (flatten levels) nodes
    pub layered : IsLayered [] levels

get_node-middle :
    (before : List DagNode) (n : DagNode) (after : List DagNode)
    → has (names before) n.cortex ≡ false
    → get_node (before ++ n ∷ after) n.cortex ≡ some n
unfolding get_node
get_node-middle [] n after h = rw (==_refl n.cortex)
get_node-middle (x ∷ xs) n after h = ground (arith, get_node-middle xs n after)

IsUnique-Listed :
    (before ns : List DagNode) → IsUnique (names before) ns → All (Listed (before ++ ns)) ns
IsUnique-Listed before [] u = tt
IsUnique-Listed before (n ∷ ns) u = (
  get_node-middle before n ns u.0,
  subst (λ l. All (Listed l) ns) (append_assoc before (n ∷ []) ns)
      (IsUnique-Listed (before ++ n ∷ []) ns
        (subst (λ l. IsUnique l ns) (sym (names-append before (n ∷ []))) u.1)),
)

-- A plan that `validateDag` accepts is cut into levels by `topologicalLevels`, which never reports
-- a cycle on it: the levels hold each node of the plan once, and every dependency of a node is a
-- name of an earlier level.
pub validate_dag-Schedule :
    (allow_empty : Bool) (known : Option (List String)) (nodes : List DagNode)
    → validate_dag allow_empty known nodes ≡ ok tt
    → Schedule nodes
unfolding topological_levels
validate_dag-Schedule allow_empty known nodes h =
    let r = (validate_dag-iff_IsRunnable allow_empty known nodes).0 h in
    let cut =
      levels_from-Cut nodes (DepsOk-IsKnown nodes r.deps) r.order r.ordered.closed (length nodes) []
        nodes (omega arith) (IsUnique-Listed [] nodes r.indexed.unique) (λ x m. inr m)
        r.ordered.covers in
    record { levels = cut.levels; result = cut.result; all = cut.all; layered = cut.layered }
