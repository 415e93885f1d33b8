-- ===== src/Dag/Visit.antt =====
-- The search visits a node after all of its dependencies.
use thalamus_usecase_ssa.Prelude.{
  ℕ, zero, suc, String, ◌≡◌, refl, true, false, none, some, List, [], ◌∷◌, ◌++◌, has, arith,
  ==_refl, ==_iff, subst, ap, string_Eq, ◌⊎◌, Bool-cases, Option-cases, inl, inr, sym, ◌∙◌,
}
use thalamus_usecase_ssa.Dag.{
  DagNode, DagError, names, get_node, Dfs, Result, ok, err, ◌>>=◌, visit, visit_all, enter, leave,
  delete, pop,
}
use thalamus_usecase_ssa.Dag.Graph.{Edge, IsKnown, IsClosed, get_node-ne-none}

pub >>=-eq-ok {ℓ κ} :
    {Value : Type ℓ} {Next : Type κ} (r : Result Value) (next : Value → Result Next) {last : Next}
    → (r >>= next) ≡ ok last
    → (value : Value) × (r ≡ ok value) × (next value ≡ ok last)
>>=-eq-ok (err e) next done = cc
>>=-eq-ok (ok value) next done = (value, refl, done)

pub Result-cases {ℓ} :
    {A : Type ℓ} (r : Result A) → ((a : A) × (r ≡ ok a)) ⊎ ((e : DagError) × (r ≡ err e))
Result-cases (ok a) = inl (a, refl)
Result-cases (err e) = inr (e, refl)

pub err-injective {ℓ} : {A : Type ℓ} {a b : DagError} → ◌≡◌ {A = Result A} (err a) (err b) → a ≡ b
err-injective e = cc

pub pop-append : (xs : List String) (x : String) → pop (xs ++ x ∷ []) ≡ xs
pop-append [] x = refl
pop-append (y ∷ []) x = refl
pop-append (y ∷ z ∷ zs) x = cc (pop-append (z ∷ zs) x)

pub delete-head : (x : String) (xs : List String) → delete x (x ∷ xs) ≡ xs
delete-head x xs = rw (==_refl x)

some-injective {ℓ} : {A : Type ℓ} (a b : A) → some a ≡ some b → a ≡ b
some-injective a b e = cc

pub ok-injective {ℓ} : {A : Type ℓ} {a b : A} → ok a ≡ ok b → a ≡ b
ok-injective e = cc

pub has-head : (x : String) (xs : List String) → has (x ∷ xs) x ≡ true
has-head x xs = rw (==_refl x)

pub has-tail :
    (x : String) (xs : List String) (a : String) → has xs a ≡ true → has (x ∷ xs) a ≡ true
has-tail x xs a h = ground arith

pub has-cons :
    (x : String) (xs : List String) (a : String)
    → has (x ∷ xs) a ≡ true
    → (x ≡ a) ⊎ (has xs a ≡ true)
has-cons x xs a h = ground (arith, ==_iff x a)

module _ (by_name : List DagNode) where
  -- What a finished call leaves of the state that it was given.
  pub record Grown (s s' : Dfs) : Type 0 where
    pub closed : IsClosed by_name s'.visited
    pub same_visiting : s'.visiting ≡ s.visiting
    pub same_stack : s'.stack ≡ s.stack
    pub keeps : (x : String) → has s.visited x ≡ true → has s'.visited x ≡ true

  abbrev pub Visits : (String → Dfs → Result Dfs) → Type 0
  Visits call =
      (name : String) (s s' : Dfs)
      → call name s ≡ ok s'
      → IsClosed by_name s.visited
      → has (names by_name) name ≡ true
      → Grown s s' × (has s'.visited name ≡ true)

  Grown-trans : {s t u : Dfs} → Grown s t → Grown t u → Grown s u
  Grown-trans g h = record {
    closed = h.closed;
    same_visiting = h.same_visiting ∙ g.same_visiting;
    same_stack = h.same_stack ∙ g.same_stack;
    keeps = λ x k. h.keeps x (g.keeps x k);
  }

  Grown-refl : (s : Dfs) → IsClosed by_name s.visited → Grown s s
  Grown-refl s c = record { closed = c; same_visiting = refl; same_stack = refl; keeps = λ x k. k }

  pub visit_all-Grown :
      (call : String → Dfs → Result Dfs)
      → Visits call
      → (deps : List String) (s s' : Dfs) → visit_all call deps s ≡ ok s'
      → IsClosed by_name s.visited
      → ((d : String) → has deps d ≡ true → has (names by_name) d ≡ true)
      → Grown s s' × ((d : String) → has deps d ≡ true → has s'.visited d ≡ true)
  unfolding visit_all
  visit_all-Grown call visits [] s s' e c k =
      (subst (Grown s) (ok-injective e) (Grown-refl s c), λ d h. cc)
  visit_all-Grown call visits (dep ∷ deps) s s' e c k =
      let (t, e₁, e₂) = >>=-eq-ok (call dep s) (visit_all call deps) e in
      let (g, new) = visits dep s t e₁ c (k dep (has-head dep deps)) in
      let (h, rest) =
        visit_all-Grown call visits deps t s' e₂ g.closed (λ d m. k d (has-tail dep deps d m)) in
      (
        Grown-trans g h,
        λ d m. elim (has-cons dep deps d m) [
          | inl same ↦ h.keeps d (subst (λ x. has t.visited x ≡ true) same new)
          | inr later ↦ rest d later
        ],
      )

  -- How a call of `visit` ends well: the name was visited, is no node, or is visited now.
  pub data Outcome (fuel : ℕ) (name : String) (s s' : Dfs) : Type 0 where
    seen : has s.visited name ≡ true → s' ≡ s → Outcome fuel name s s'
    absent : get_node by_name name ≡ none → s' ≡ s → Outcome fuel name s s'
    walked :
        (node : DagNode) (t : Dfs)
        → has s.visiting name ≡ false
        → get_node by_name name ≡ some node
        → visit_all (visit by_name fuel) node.depends_on (enter name s) ≡ ok t
        → s' ≡ leave name t
        → Outcome fuel name s s'

  pub visit-Outcome :
      (fuel : ℕ) (name : String) (s s' : Dfs)
      → visit by_name (suc fuel) name s ≡ ok s'
      → Outcome fuel name s s'
  unfolding visit
  visit-Outcome fuel name s s' e = elim (Bool-cases (has s.visited name)) [
    | inl old ↦ seen old (ground arith)
    | inr new ↦ elim (Bool-cases (has s.visiting name)) [
      | inl on_stack ↦ ground arith
      | inr off_stack ↦ elim (Option-cases (get_node by_name name)) [
        | inl missing ↦ absent missing (ground arith)
        | inr (node, found) ↦
            let (t, e₁, e₂) =
              >>=-eq-ok (visit_all (visit by_name fuel) node.depends_on (enter name s))
                (λ r. ok (leave name r)) (rw (new, off_stack, found, visit) at e) in
            walked node t off_stack found e₁ (ground arith)
      ]
    ]
  ]

  module _ (known : IsKnown by_name) where
    leave-Grown :
        (name : String) (s t : Dfs) (node : DagNode)
        → get_node by_name name ≡ some node
        → Grown (enter name s) t
        → ((d : String) → has node.depends_on d ≡ true → has t.visited d ≡ true)
        → Grown s (leave name t)
    leave-Grown name s t node found g deps = record {
      closed = (λ d edge. deps d (same_needs edge), g.closed);
      same_visiting = ap (delete name) g.same_visiting ∙ delete-head name s.visiting;
      same_stack = ap pop g.same_stack ∙ pop-append s.stack name;
      keeps = λ x k. has-tail name t.visited x (g.keeps x k);
    }
      where
        same_needs : {d : String} → Edge by_name name d → has node.depends_on d ≡ true
        same_needs {d} edge =
            subst (λ n. has n.depends_on d ≡ true) (some-injective _ _ (sym edge.found ∙ found))
              edge.needs

    pub visit-Grown : (fuel : ℕ) → Visits (visit by_name fuel)
    unfolding visit
    visit-Grown zero name s s' e c k = cc
    visit-Grown (suc fuel) name s s' e c k = elim (visit-Outcome fuel name s s' e) [
      | seen old same ↦ rw same (Grown-refl s c, old)
      | absent missing same ↦ absurd (get_node-ne-none by_name name k missing)
      | walked node t off_stack found walk same ↦
          let (g, deps) =
            visit_all-Grown (visit by_name fuel) (visit-Grown fuel) node.depends_on (enter name s) t
              walk c (λ d m. known name d (record { node = node; found = found; needs = m })) in
          rw same (leave-Grown name s t node found g deps, has-head name t.visited)
    ]
