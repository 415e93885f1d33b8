-- ===== src/Dag/Valid.antt =====
-- What `validateDag` promises: a plan that passes has an order in which dependencies come first,
-- and every refusal is true.
use thalamus_usecase_ssa.Prelude.{
  String, ◌≡◌, refl, true, false, Option, some, List, [], ◌∷◌, ◌++◌, has, arith, ◌==◌, subst, ap,
  sym, ◌∙◌, string_Eq, Bool-cases, inl, inr, All, All-has, append_assoc, append-nil, ◌≢◌,
}
use thalamus_usecase_ssa.Dag.{
  DagNode, DagError, names, get_node, ok, err, index_nodes, check_deps, check_nodes, is_unknown,
}
use thalamus_usecase_ssa.Dag.Graph.{IsKnown}
use thalamus_usecase_ssa.Dag.Visit.{>>=-eq-ok}

-- Names are unique: none stands in what comes before it.
abbrev pub IsUnique : List String → List DagNode → Type 0
IsUnique seen [] = Unit {0}
IsUnique seen (n ∷ ns) = (has seen n.cortex ≡ false) × IsUnique (seen ++ n.cortex ∷ []) ns

-- What the node may ask for: other nodes of the plan.
abbrev pub DepsOk : List DagNode → DagNode → Type 0
DepsOk by_name n =
    All (λ d. ((d == n.cortex) ≡ false) × (has (names by_name) d ≡ true)) n.depends_on

pub record IsIndexed (known : Option (List String)) (seen ns : List DagNode) : Type 0 where
  pub unique : IsUnique (names seen) ns
  pub all_known : All (λ n. is_unknown known n.cortex ≡ false) ns

pub names-append : (xs ys : List DagNode) → names (xs ++ ys) ≡ names xs ++ names ys
names-append [] ys = refl
names-append (x ∷ xs) ys = cc (names-append xs ys)

pub ok-ne-err {ℓ} : {A : Type ℓ} {a : A} {e : DagError} → ok a ≢ err e
ok-ne-err h = cc

pub index_nodes-ok :
    (known : Option (List String)) (seen ns : List DagNode) {by_name : List DagNode}
    → index_nodes known seen ns ≡ ok by_name
    → IsIndexed known seen ns × (by_name ≡ seen ++ ns)
unfolding index_nodes
index_nodes-ok known seen [] h =
    (record { unique = tt; all_known = tt }, ground (arith, append-nil seen))
index_nodes-ok known seen (n ∷ ns) h = elim (Bool-cases (is_unknown known n.cortex)) [
  | inl bad ↦ absurd (ok-ne-err (sym (rw bad at h)))
  | inr fine ↦ elim (Bool-cases (has (names seen) n.cortex)) [
    | inl twice ↦ absurd (ok-ne-err (sym (rw (fine, twice) at h)))
    | inr new ↦
        let (i, e) = index_nodes-ok known (seen ++ n ∷ []) ns (rw (fine, new) at h) in
        (
          record {
            unique = (new, subst (λ l. IsUnique l ns) (names-append seen (n ∷ [])) i.unique);
            all_known = (fine, i.all_known);
          },
          e ∙ append_assoc seen (n ∷ []) ns,
        )
  ]
]

-- The first loop goes through whatever is indexed.
pub index_nodes_complete :
    (known : Option (List String)) (seen ns : List DagNode)
    → IsIndexed known seen ns
    → index_nodes known seen ns ≡ ok (seen ++ ns)
unfolding index_nodes
index_nodes_complete known seen [] i = ap ok (sym (append-nil seen))
index_nodes_complete known seen (n ∷ ns) i =
    rw (i.all_known.0, i.unique.0)
      (index_nodes_complete known (seen ++ n ∷ []) ns (record {
        unique = subst (λ l. IsUnique l ns) (sym (names-append seen (n ∷ []))) i.unique.1;
        all_known = i.all_known.1;
      })
        ∙ ap ok (append_assoc seen (n ∷ []) ns))

pub check_deps-ok :
    (by_name : List DagNode) (name : String) (deps : List String)
    → check_deps by_name name deps ≡ ok tt
    → All (λ d. ((d == name) ≡ false) × (has (names by_name) d ≡ true)) deps
unfolding check_deps
check_deps-ok by_name name [] h = tt
check_deps-ok by_name name (d ∷ ds) h = ground (arith, check_deps-ok by_name name ds)

pub check_deps_complete :
    (by_name : List DagNode) (name : String) (deps : List String)
    → All (λ d. ((d == name) ≡ false) × (has (names by_name) d ≡ true)) deps
    → check_deps by_name name deps ≡ ok tt
unfolding check_deps
check_deps_complete by_name name [] h = refl
check_deps_complete by_name name (d ∷ ds) h =
    rw (h.0.0, h.0.1) (check_deps_complete by_name name ds h.1)

pub check_nodes-ok :
    (by_name ns : List DagNode) → check_nodes by_name ns ≡ ok tt → All (DepsOk by_name) ns
unfolding check_nodes
check_nodes-ok by_name [] h = tt
check_nodes-ok by_name (n ∷ ns) h =
    let (u, e₁, e₂) =
      >>=-eq-ok (check_deps by_name n.cortex n.depends_on) (λ _. check_nodes by_name ns) h in
    (check_deps-ok by_name n.cortex n.depends_on e₁, check_nodes-ok by_name ns e₂)

pub check_nodes_complete :
    (by_name ns : List DagNode) → All (DepsOk by_name) ns → check_nodes by_name ns ≡ ok tt
unfolding check_nodes
check_nodes_complete by_name [] h = refl
check_nodes_complete by_name (n ∷ ns) h =
    rw (check_deps_complete by_name n.cortex n.depends_on h.0) (check_nodes_complete by_name ns h.1)

pub some-injective {ℓ} : {A : Type ℓ} {a b : A} → some a ≡ some b → a ≡ b
some-injective e = cc

pub All-get_node :
    (P : DagNode → Type 0) (ns : List DagNode) (name : String) (node : DagNode)
    → All P ns
    → get_node ns name ≡ some node
    → P node
unfolding get_node
All-get_node P [] name node h e = cc
All-get_node P (n ∷ ns) name node h e = elim (Bool-cases (n.cortex == name)) [
  | inl same ↦ subst P (some-injective (rw same at e)) h.0
  | inr other ↦ All-get_node P ns name node h.1 (rw other at e)
]

pub DepsOk-IsKnown : (by_name : List DagNode) → All (DepsOk by_name) by_name → IsKnown by_name
DepsOk-IsKnown by_name h n d edge =
    (All-has (λ x. ((x == edge.node.cortex) ≡ false) × (has (names by_name) x ≡ true))
      edge.node.depends_on d (All-get_node (DepsOk by_name) by_name n edge.node h edge.found)
      edge.needs).1
