-- ===== src/Dag/Cycle.antt =====
-- A search that fails has found a cycle, and the fuel given is enough.
use thalamus_usecase_ssa.Prelude.{
  ℕ, zero, suc, ◌≤◌, ◌<◌, String, ◌≡◌, refl, true, false, not, some, List, [], ◌∷◌, ◌++◌, has,
  has-append, drop, keep, length, length-keep-le, arith, ◌==◌, ==_iff, subst, ap, sym, string_Eq,
  Bool-cases, Option-cases, inl, inr,
}
use thalamus_usecase_ssa.Dag.{
  DagNode, DagError, circular_dependency, names, get_node, Dfs, Result, ok, err, ◌>>=◌, visit,
  visit_all, enter, leave, index_of, cycle_of, unseen,
}
use thalamus_usecase_ssa.Dag.Graph.{Edge, IsKnown, IsClosed}
use thalamus_usecase_ssa.Dag.Visit.{
  Grown, Visits, visit-Grown, Result-cases, err-injective, has-head, has-tail,
}

-- Each name depends on the next one.
abbrev pub IsPath : List DagNode → List String → Type 0
IsPath by_name [] = Unit {0}
IsPath by_name (x ∷ []) = Unit {0}
IsPath by_name (x ∷ y ∷ ys) = Edge by_name x y × IsPath by_name (y ∷ ys)

pub record IsCycle (by_name : List DagNode) (cycle : List String) : Type 0 where
  pub start : String
  pub inner : List String
  pub closes : cycle ≡ start ∷ inner ++ start ∷ []
  pub path : IsPath by_name cycle

module _ (by_name : List DagNode) where
  IsPath-tail : (x : String) (xs : List String) → IsPath by_name (x ∷ xs) → IsPath by_name xs
  IsPath-tail x [] p = tt
  IsPath-tail x (y ∷ ys) p = p.1

  IsPath-snoc :
      (xs : List String) (n d : String)
      → IsPath by_name (xs ++ n ∷ [])
      → Edge by_name n d
      → IsPath by_name ((xs ++ n ∷ []) ++ d ∷ [])
  IsPath-snoc [] n d p e = (e, tt)
  IsPath-snoc (x ∷ []) n d p e = (p.0, (e, tt))
  IsPath-snoc (x ∷ y ∷ ys) n d p e = (p.0, IsPath-snoc (y ∷ ys) n d p.1 e)

  cut-IsCycle :
      (stack : List String) (name : String)
      → has stack name ≡ true
      → IsPath by_name (stack ++ name ∷ [])
      → IsCycle by_name (drop (index_of stack name) stack ++ name ∷ [])
  cut-IsCycle [] name h p = cc
  cut-IsCycle (x ∷ xs) name h p = elim (Bool-cases (x == name)) [
    | inl same ↦
        let e : x ≡ name = (==_iff x name).0 same in
        rw same
          (record { start = x; inner = xs; closes = ap (λ n. x ∷ xs ++ n ∷ []) (sym e); path = p })
    | inr other ↦ rw other (cut-IsCycle xs name (ground arith) (IsPath-tail x (xs ++ name ∷ []) p))
  ]

  pub free : Dfs → ℕ
  free s = length (keep (λ n. not (has s.visiting n)) (names by_name))

  length-names : (ns : List DagNode) → length (names ns) ≡ length ns
  length-names [] = refl
  length-names (n ∷ ns) = ap suc (length-names ns)

  pub free-unseen-le : free unseen ≤ length by_name
  unfolding free
  free-unseen-le = omega (arith, length-names by_name, length-keep-le (λ _. true) (names by_name))

  keep-enter-le :
      (v : List String) (a : String) (xs : List String)
      → length (keep (λ n. not (has (a ∷ v) n)) xs) ≤ length (keep (λ n. not (has v n)) xs)
  keep-enter-le v a [] = omega arith
  keep-enter-le v a (x ∷ xs) = ground (arith, keep-enter-le v a xs)

  pub keep-enter-lt :
      (v : List String) (a : String) (xs : List String)
      → has v a ≡ false
      → has xs a ≡ true
      → length (keep (λ n. not (has (a ∷ v) n)) xs) < length (keep (λ n. not (has v n)) xs)
  keep-enter-lt v a [] off h = cc
  keep-enter-lt v a (x ∷ xs) off h = elim (Bool-cases (x == a)) [
    | inl same ↦
        let e : x ≡ a = (==_iff x a).0 same in
        let hit : (a == x) ≡ true = (==_iff a x).1 (sym e) in
        let new : has v x ≡ false = subst (λ y. has v y ≡ false) (sym e) off in
        rw (hit, new) (omega (arith, keep-enter-le v a xs))
    | inr other ↦ ground (arith, keep-enter-lt v a xs, keep-enter-le v a xs)
  ]

  abbrev pub Matching : Dfs → Type 0
  Matching s = (x : String) → has s.visiting x ≡ true → has s.stack x ≡ true

  pub record Report (e : DagError) : Type 0 where
    pub cycle : List String
    pub reported : e ≡ circular_dependency cycle
    pub real : IsCycle by_name cycle

  -- How a call of `visit` fails: it meets a name on the stack, or a later call fails.
  data Failure (fuel : ℕ) (name : String) (s : Dfs) (e : DagError) : Type 0 where
    met :
        has s.visiting name ≡ true
        → e ≡ circular_dependency (cycle_of s.stack name)
        → Failure fuel name s e
    below :
        (node : DagNode)
        → has s.visiting name ≡ false
        → get_node by_name name ≡ some node
        → visit_all (visit by_name fuel) node.depends_on (enter name s) ≡ err e
        → Failure fuel name s e

  >>=-eq-err {ℓ κ} :
      {A : Type ℓ} {B : Type κ} (m : Result A) (f : A → B) {e : DagError}
      → (m >>= λ a. ok (f a)) ≡ err e
      → m ≡ err e
  >>=-eq-err (ok a) f h = cc
  >>=-eq-err (err e) f h = cc

  visit-Failure :
      (fuel : ℕ) (name : String) (s : Dfs) (e : DagError)
      → visit by_name (suc fuel) name s ≡ err e
      → Failure fuel name s e
  unfolding visit
  visit-Failure fuel name s e h = elim (Bool-cases (has s.visited name)) [
    | inl old ↦ let bad : ok s ≡ err e = rw old at h in cc
    | inr new ↦ elim (Bool-cases (has s.visiting name)) [
      | inl on_stack ↦ met on_stack (ground arith)
      | inr off_stack ↦ elim (Option-cases (get_node by_name name)) [
        | inl missing ↦ let bad : ok s ≡ err e = rw (new, off_stack, missing, visit) at h in cc
        | inr (node, found) ↦
            below node off_stack found
              (>>=-eq-err _ (leave name) (rw (new, off_stack, found, visit) at h))
      ]
    ]
  ]

  -- What a call may rely on: the stack is a path to the name, and fuel is left.
  pub record Ready (bound : ℕ) (s : Dfs) (name : String) : Type 0 where
    pub path : IsPath by_name (s.stack ++ name ∷ [])
    pub matching : Matching s
    pub closed : IsClosed by_name s.visited
    pub enough : free s < bound
    pub listed : has (names by_name) name ≡ true

  abbrev pub Reports : ℕ → (String → Dfs → Result Dfs) → Type 0
  Reports bound call =
      (name : String) (s : Dfs) (e : DagError) → call name s ≡ err e → Ready bound s name → Report e

  Ready-move :
      {bound : ℕ} {s t : Dfs} {name : String}
      → Grown by_name s t
      → Ready bound s name
      → Ready bound t name
  unfolding free
  Ready-move {s} {t} {name} g r = record {
    path = rw g.same_stack r.path;
    matching = λ x h. rw g.same_stack (r.matching x (rw g.same_visiting at h));
    closed = g.closed;
    enough = rw g.same_visiting r.enough;
    listed = r.listed;
  }

  pub visit_all-Report :
      (bound : ℕ) (call : String → Dfs → Result Dfs)
      → Visits by_name call
      → Reports bound call
      → (deps : List String) (s : Dfs) (e : DagError) → visit_all call deps s ≡ err e
      → ((d : String) → has deps d ≡ true → Ready bound s d)
      → Report e
  unfolding visit_all
  visit_all-Report bound call visits reports [] s e h ready = cc
  visit_all-Report bound call visits reports (dep ∷ deps) s e h ready =
      let first = ready dep (has-head dep deps) in
      elim (Result-cases (call dep s)) [
        | inr (e', failed) ↦
            subst Report (err-injective (rw failed at h)) (reports dep s e' failed first)
        | inl (t, done) ↦ visit_all-Report bound call visits reports deps t e (rw done at h) λ d m.
            Ready-move (visits dep s t done first.closed first.listed).0
              (ready d (has-tail dep deps d m))
      ]

  Ready-enter :
      (known : IsKnown by_name) (bound : ℕ) (name : String) (s : Dfs) (node : DagNode)
      → Ready (suc bound) s name
      → has s.visiting name ≡ false
      → get_node by_name name ≡ some node
      → (d : String) → has node.depends_on d ≡ true
      → Ready bound (enter name s) d
  unfolding free
  Ready-enter known bound name s node r off_stack found d m =
      let edge : Edge by_name name d = record { node = node; found = found; needs = m } in
      record {
        path = IsPath-snoc s.stack name d r.path edge;
        matching = λ x h. ground (arith, has-append s.stack (name ∷ []) x, r.matching x);
        closed = r.closed;
        enough =
            omega
              (arith, r.enough, keep-enter-lt s.visiting name (names by_name) off_stack r.listed);
        listed = known name d edge;
      }

  module _ (known : IsKnown by_name) where
    pub visit-Report : (fuel : ℕ) → Reports fuel (visit by_name fuel)
    visit-Report zero name s e h r = absurd (omega (arith, r.enough))
    visit-Report (suc fuel) name s e h r = elim (visit-Failure fuel name s e h) [
      | met on_stack reported ↦
          let on_path = r.matching name on_stack in
          record {
            cycle = cycle_of s.stack name;
            reported = reported;
            real = rw on_path (cut-IsCycle s.stack name on_path r.path);
          }
      | below node off_stack found failed ↦
          visit_all-Report fuel (visit by_name fuel) (visit-Grown by_name known fuel)
            (visit-Report fuel) node.depends_on (enter name s) e failed
            (Ready-enter known fuel name s node r off_stack found)
    ]
