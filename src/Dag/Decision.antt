-- ===== src/Dag/Decision.antt =====
-- `validateDag` accepts exactly the plans that can be run in order.
use thalamus_usecase_ssa.Prelude.{
  suc, String, ◌≡◌, Bool, true, false, not, ◌&&◌, Option, List, [], ◌∷◌, ◌++◌, has, length, arith,
  subst, sym, string_Eq, Bool-cases, inl, inr, All, ◌↔◌,
}
use thalamus_usecase_ssa.Dag.{
  DagNode, DagError, names, Dfs, ok, err, is_empty, index_nodes, check_nodes, visit, search_cycle,
  check_dag, validate_dag, unseen,
}
use thalamus_usecase_ssa.Dag.Graph.{Edge, IsKnown, IsClosed, has-get_node}
use thalamus_usecase_ssa.Dag.Visit.{
  >>=-eq-ok, visit-Grown, visit_all-Grown, has-tail, has-cons, Result-cases,
}
use thalamus_usecase_ssa.Dag.Cycle.{
  IsPath, IsCycle, Report, Ready, free-unseen-le, visit-Report, visit_all-Report,
}
use thalamus_usecase_ssa.Dag.Valid.{
  DepsOk, IsIndexed, DepsOk-IsKnown, index_nodes-ok, index_nodes_complete, check_nodes-ok,
  check_nodes_complete, ok-ne-err,
}

-- All names, the newest first, each before its dependencies.
pub record IsOrder (nodes : List DagNode) (order : List String) : Type 0 where
  pub closed : IsClosed nodes order
  pub covers : (n : String) → has (names nodes) n ≡ true → has order n ≡ true

-- A plan that can be run: it is not empty, its names are known and unique, every dependency is
-- another node of it, and its nodes have an order.
pub record IsRunnable (allow_empty : Bool) (known : Option (List String)) (nodes : List DagNode)
    : Type 0 where
  pub filled : (not allow_empty && is_empty nodes) ≡ false
  pub indexed : IsIndexed known [] nodes
  pub deps : All (DepsOk nodes) nodes
  pub order : List String
  pub ordered : IsOrder nodes order

module _ (nodes : List DagNode) where
  start-Ready :
      (n : String) → has (names nodes) n ≡ true → Ready nodes (suc (length nodes)) unseen n
  start-Ready n h = record {
    path = tt;
    matching = λ x m. m;
    closed = tt;
    enough = omega (arith, free-unseen-le nodes);
    listed = h;
  }

  pub search_cycle-Report :
      IsKnown nodes → (e : DagError) → search_cycle nodes ≡ err e → Report nodes e
  unfolding search_cycle
  search_cycle-Report known e h =
      let fuel = suc (length nodes) in
      visit_all-Report nodes fuel (visit nodes fuel) (visit-Grown nodes known fuel)
        (visit-Report nodes known fuel) (names nodes) unseen e h start-Ready

  pub search_cycle-IsOrder :
      IsKnown nodes → (s : Dfs) → search_cycle nodes ≡ ok s → IsOrder nodes s.visited
  unfolding search_cycle
  search_cycle-IsOrder known s h =
      let fuel = suc (length nodes) in
      let (g, all) =
        visit_all-Grown nodes (visit nodes fuel) (visit-Grown nodes known fuel) (names nodes) unseen
          s h tt (λ d m. m) in
      record { closed = g.closed; covers = all }

  pub Edge-stays :
      (order : List String) (x d : String)
      → IsClosed nodes order
      → Edge nodes x d
      → has order x ≡ true
      → has order d ≡ true
  Edge-stays [] x d c e h = cc
  Edge-stays (n ∷ ns) x d c e h = has-tail n ns d (elim (has-cons n ns x h) [
    | inl same ↦ c.0 d (subst (λ y. Edge nodes y d) (sym same) e)
    | inr later ↦ Edge-stays ns x d c.1 e later
  ])

  -- Along a path that starts in a closed list all later names are in it.
  path_stays :
      (order : List String) (x : String) (inner : List String) (last : String)
      → IsClosed nodes order
      → IsPath nodes (x ∷ inner ++ last ∷ [])
      → has order x ≡ true
      → has order last ≡ true
  path_stays order x [] last c p h = Edge-stays order x last c p.0 h
  path_stays order x (y ∷ ys) last c p h =
      path_stays order y ys last c p.1 (Edge-stays order x y c p.0 h)

  -- One step along the path from the head of a closed list leads below the head for good.
  path_falls :
      (n : String) (ns inner : List String) (last : String)
      → IsClosed nodes (n ∷ ns)
      → IsPath nodes (n ∷ inner ++ last ∷ [])
      → has ns last ≡ true
  path_falls n ns [] last c p = c.0 last p.0
  path_falls n ns (y ∷ ys) last c p = path_stays ns y ys last c.1 p.1 (c.0 y p.0)

  pub order_excludes_cycle :
      (order : List String) (start : String) (inner : List String)
      → IsClosed nodes order
      → IsPath nodes (start ∷ inner ++ start ∷ [])
      → has order start ≡ true
      → ⊥
  order_excludes_cycle [] start inner c p h = cc
  order_excludes_cycle (n ∷ ns) start inner c p h =
      order_excludes_cycle ns start inner c.1 p (elim (has-cons n ns start h) [
        | inl same ↦
            path_falls n ns inner start c
              (subst (λ x. IsPath nodes (x ∷ inner ++ start ∷ [])) (sym same) p)
        | inr later ↦ later
      ])

  edge_start :
      (x : String) (inner : List String) (last : String)
      → IsPath nodes (x ∷ inner ++ last ∷ [])
      → has (names nodes) x ≡ true
  edge_start x [] last p = has-get_node nodes x p.0.node p.0.found
  edge_start x (y ∷ ys) last p = has-get_node nodes x p.0.node p.0.found

  pub IsOrder-no_cycle : {order cycle : List String} → IsOrder nodes order → IsCycle nodes cycle → ⊥
  IsOrder-no_cycle {order} o cy =
      let p = subst (IsPath nodes) cy.closes cy.path in
      order_excludes_cycle order cy.start cy.inner o.closed p
        (o.covers cy.start (edge_start cy.start cy.inner cy.start p))

  search_cycle_complete :
      (order : List String)
      → IsKnown nodes
      → IsOrder nodes order
      → (s : Dfs) × (search_cycle nodes ≡ ok s)
  search_cycle_complete order known o = elim (Result-cases (search_cycle nodes)) [
    | inl found ↦ found
    | inr (e, failed) ↦ absurd (IsOrder-no_cycle o (search_cycle-Report known e failed).real)
  ]

-- What the checks after the first test have established.
check_dag-IsRunnable :
    (allow_empty : Bool) (known : Option (List String)) (nodes : List DagNode)
    → (not allow_empty && is_empty nodes) ≡ false
    → check_dag known nodes ≡ ok tt
    → IsRunnable allow_empty known nodes
unfolding check_dag
check_dag-IsRunnable allow_empty known nodes filled h =
    let (by_name, e₁, h₁) = >>=-eq-ok (index_nodes known [] nodes) _ h in
    let (i, same) = index_nodes-ok known [] nodes e₁ in
    let (u, e₂, h₂) = >>=-eq-ok (check_nodes by_name nodes) _ h₁ in
    let deps = check_nodes-ok nodes nodes (rw same at e₂) in
    let (s, e₃, h₃) = >>=-eq-ok (search_cycle by_name) _ h₂ in
    record {
      filled = filled;
      indexed = i;
      deps = deps;
      order = s.visited;
      ordered = search_cycle-IsOrder nodes (DepsOk-IsKnown nodes deps) s (rw same at e₃);
    }

check_dag_complete :
    (allow_empty : Bool) (known : Option (List String)) (nodes : List DagNode)
    → IsRunnable allow_empty known nodes
    → check_dag known nodes ≡ ok tt
unfolding check_dag
check_dag_complete allow_empty known nodes r =
    let (s, found) = search_cycle_complete nodes r.order (DepsOk-IsKnown nodes r.deps) r.ordered in
    rw (
      index_nodes_complete known [] nodes r.indexed,
      check_nodes_complete nodes nodes r.deps,
      found,
    )

-- `validateDag` accepts a plan exactly if the plan is runnable: not empty unless that is allowed,
-- all names known and unique, every dependency another node of the plan, and some order of the
-- names in which each comes after its dependencies.
pub validate_dag-iff_IsRunnable :
    (allow_empty : Bool) (known : Option (List String)) (nodes : List DagNode)
    → (validate_dag allow_empty known nodes ≡ ok tt) ↔ IsRunnable allow_empty known nodes
unfolding validate_dag
validate_dag-iff_IsRunnable allow_empty known nodes = (
  λ h. elim (Bool-cases (not allow_empty && is_empty nodes)) [
    | inl empty ↦ absurd (ok-ne-err (sym (rw empty at h)))
    | inr filled ↦ check_dag-IsRunnable allow_empty known nodes filled (rw filled at h)
  ],
  λ r. rw r.filled (check_dag_complete allow_empty known nodes r),
)
