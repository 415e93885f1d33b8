-- ===== src/Dag/Refusal.antt =====
-- What each refusal of `validateDag` says about the plan.
use thalamus_usecase_ssa.Prelude.{
  String, ◌≡◌, refl, Bool, true, false, Option, List, [], ◌∷◌, ◌++◌, has, ◌==◌, ==_iff, subst, sym,
  ◌∙◌, string_Eq, Bool-cases, inl, inr, append_assoc,
}
use thalamus_usecase_ssa.Dag.{
  DagNode, DagError, empty_dag, out_of_fuel, circular_dependency, unknown_cortex, duplicate_cortex,
  self_dependency, missing_dependency, names, ok, err, is_unknown, index_nodes, check_deps,
  check_nodes, search_cycle, check_dag, validate_dag,
}
use thalamus_usecase_ssa.Dag.Visit.{Result-cases, err-injective, has-head, has-tail}
use thalamus_usecase_ssa.Dag.Cycle.{IsCycle}
use thalamus_usecase_ssa.Dag.Valid.{DepsOk-IsKnown, check_nodes-ok, index_nodes-ok}
use thalamus_usecase_ssa.Dag.Decision.{search_cycle-Report}

-- A node of the plan, and the nodes before it.
pub record Occurs (nodes : List DagNode) (name : String) : Type 0 where
  pub before : List DagNode
  pub node : DagNode
  pub after : List DagNode
  pub split : nodes ≡ before ++ node ∷ after
  pub named : node.cortex ≡ name

-- What an error claims. The mark of an exhausted bound claims the impossible.
abbrev pub Claims : Bool → Option (List String) → List DagNode → DagError → Type 0
Claims allow_empty known nodes empty_dag = (allow_empty ≡ false) × (nodes ≡ [])
Claims allow_empty known nodes out_of_fuel = ⊥
Claims allow_empty known nodes (unknown_cortex name) =
    Occurs nodes name × (is_unknown known name ≡ true)
Claims allow_empty known nodes (duplicate_cortex name) =
    (o : Occurs nodes name) × (has (names o.before) name ≡ true)
Claims allow_empty known nodes (self_dependency name) =
    (o : Occurs nodes name) × (has o.node.depends_on name ≡ true)
Claims allow_empty known nodes (missing_dependency name dep) =
    (o : Occurs nodes name) × (has o.node.depends_on dep ≡ true) × (has (names nodes) dep ≡ false)
Claims allow_empty known nodes (circular_dependency cycle) = IsCycle nodes cycle

module _ (allow_empty : Bool) (known : Option (List String)) where
  index_nodes-Claims :
      (seen ns : List DagNode) (e : DagError)
      → index_nodes known seen ns ≡ err e
      → Claims allow_empty known (seen ++ ns) e
  unfolding index_nodes
  index_nodes-Claims seen [] e h = cc
  index_nodes-Claims seen (n ∷ ns) e h =
      let o : Occurs (seen ++ n ∷ ns) n.cortex = record {
        before = seen;
        node = n;
        after = ns;
        split = refl;
        named = refl;
      } in
      elim (Bool-cases (is_unknown known n.cortex)) [
        | inl bad ↦
            subst (Claims allow_empty known (seen ++ n ∷ ns)) (err-injective (rw bad at h)) (o, bad)
        | inr fine ↦ elim (Bool-cases (has (names seen) n.cortex)) [
          | inl twice ↦
              subst (Claims allow_empty known (seen ++ n ∷ ns))
                (err-injective (rw (fine, twice) at h)) (o, twice)
          | inr new ↦
              subst (λ l. Claims allow_empty known l e) (append_assoc seen (n ∷ []) ns)
                (index_nodes-Claims (seen ++ n ∷ []) ns e (rw (fine, new) at h))
        ]
      ]

  module _ (nodes : List DagNode) where
    check_deps-Claims :
        (name : String) (o : Occurs nodes name) (deps : List String) (e : DagError)
        → ((d : String) → has deps d ≡ true → has o.node.depends_on d ≡ true)
        → check_deps nodes name deps ≡ err e
        → Claims allow_empty known nodes e
    unfolding check_deps
    check_deps-Claims name o [] e sub h = cc
    check_deps-Claims name o (d ∷ ds) e sub h =
        let needs = sub d (has-head d ds) in
        elim (Bool-cases (d == name)) [
          | inl itself ↦
              subst (Claims allow_empty known nodes) (err-injective (rw itself at h))
                (o, subst (λ x. has o.node.depends_on x ≡ true) ((==_iff d name).0 itself) needs)
          | inr other ↦ elim (Bool-cases (has (names nodes) d)) [
            | inl there ↦
                check_deps-Claims name o ds e (λ x m. sub x (has-tail d ds x m))
                  (rw (other, there) at h)
            | inr missing ↦
                subst (Claims allow_empty known nodes) (err-injective (rw (other, missing) at h))
                  (o, needs, missing)
          ]
        ]

    check_nodes-Claims :
        (before ns : List DagNode) (e : DagError)
        → nodes ≡ before ++ ns
        → check_nodes nodes ns ≡ err e
        → Claims allow_empty known nodes e
    unfolding check_nodes
    check_nodes-Claims before [] e split h = cc
    check_nodes-Claims before (n ∷ ns) e split h =
        elim (Result-cases (check_deps nodes n.cortex n.depends_on)) [
          | inl (_, fine) ↦
              check_nodes-Claims (before ++ n ∷ []) ns e
                (split ∙ sym (append_assoc before (n ∷ []) ns)) (rw fine at h)
          | inr (e', failed) ↦
              subst (Claims allow_empty known nodes) (err-injective (rw failed at h)) (
                check_deps-Claims n.cortex
                  (record { before = before; node = n; after = ns; split = split; named = refl })
                  n.depends_on e' (λ d m. m) failed)
        ]

    check_dag-Claims :
        (e : DagError) → check_dag known nodes ≡ err e → Claims allow_empty known nodes e
    unfolding check_dag
    check_dag-Claims e h = elim (Result-cases (index_nodes known [] nodes)) [
      | inr (e', failed) ↦
          subst (Claims allow_empty known nodes) (err-injective (rw failed at h))
            (index_nodes-Claims [] nodes e' failed)
      | inl (by_name, indexed) ↦
          let same : by_name ≡ nodes = (index_nodes-ok known [] nodes indexed).1 in
          elim (Result-cases (check_nodes nodes nodes)) [
            | inr (e', failed) ↦
                subst (Claims allow_empty known nodes)
                  (err-injective (rw (indexed, same, failed) at h))
                  (check_nodes-Claims [] nodes e' refl failed)
            | inl (u, fine) ↦ elim (Result-cases (search_cycle nodes)) [
              | inl (s, found) ↦
                  let bad : ok tt ≡ err e = rw (indexed, same, fine, found) at h in cc
              | inr (e', failed) ↦
                  let known_deps = DepsOk-IsKnown nodes (check_nodes-ok nodes nodes fine) in
                  let r = search_cycle-Report nodes known_deps e' failed in
                  subst (Claims allow_empty known nodes)
                    (sym r.reported ∙ err-injective (rw (indexed, same, fine, failed) at h)) r.real
            ]
          ]
    ]

-- Every refusal of `validateDag` is true of the plan, and no search bound is ever exhausted: an
-- empty plan that must not be empty, a name outside the known ones, a name that an earlier node
-- has, a node that needs itself, a dependency that no node has, or a cycle of dependencies, which
-- the error lists from a name back to it.
pub validate_dag-Claims :
    (allow_empty : Bool) (known : Option (List String)) (nodes : List DagNode) (e : DagError)
    → validate_dag allow_empty known nodes ≡ err e
    → Claims allow_empty known nodes e
unfolding validate_dag
validate_dag-Claims true known nodes e h = check_dag-Claims true known nodes e h
validate_dag-Claims false known [] e h =
    subst (Claims false known []) (err-injective h) (refl, refl)
validate_dag-Claims false known (n ∷ ns) e h = check_dag-Claims false known (n ∷ ns) e h
