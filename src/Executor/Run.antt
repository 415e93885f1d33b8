-- ===== src/Executor/Run.antt =====
-- What an execution computes: the output of each node is its cortex on the findings of the nodes
-- that it depends on, whatever the levels.
use thalamus_usecase_ssa.Prelude.{
  ℕ, String, ◌≡◌, refl, Bool, true, false, ◌||◌, Option, some, List, [], ◌∷◌, ◌++◌, map, has,
  every-has, has-every, arith, ap, sym, ◌∙◌, string_Eq, All, All-append, All-zip, All-map, ◌==◌,
  ==_iff, ==_refl, Distinct, Distinct-apart, Distinct-append_right, if◌then◌else◌,
}
use thalamus_usecase_ssa.Dag.{DagNode, names}
use thalamus_usecase_ssa.Dag.Visit.{has-head, has-tail}
use thalamus_usecase_ssa.Dag.Graph.{has-names-append}
use thalamus_usecase_ssa.Executor.{
  PreviousFinding, CortexOutput, Outputs, get_output, set_output, previous_findings, context,
  settle, execute_node, collect,
}
use thalamus_usecase_ssa.Executor.Levels.{IsReady}

abbrev pub keys : Outputs → List String
keys = map (λ p. p.0)

get_output-set_output :
    (m : Outputs) (k j : String) (o : CortexOutput)
    → get_output (set_output m k o) j ≡ (if k == j then some o else get_output m j)
unfolding get_output set_output
get_output-set_output [] k j o = refl
get_output-set_output ((i, v) ∷ m) k j o =
    ground (arith, ==_iff k j, ==_iff i k, ==_iff i j, get_output-set_output m k j o)

has-set_output :
    (m : Outputs) (k j : String) (o : CortexOutput)
    → has (keys (set_output m k o)) j ≡ (has (keys m) j || k == j)
unfolding set_output
has-set_output [] k j o = ground arith
has-set_output ((i, v) ∷ m) k j o =
    ground (arith, ==_iff i k, ==_iff k j, ==_iff i j, has-set_output m k j o)

apart : (k x : String) (b : Bool) → (k == x || b) ≡ false → (k == x) ≡ false
apart k x b h = ground arith

module _ (result : DagNode → CortexOutput) where
  collect-other :
      (ns : List DagNode) (m : Outputs) (x : String)
      → has (names ns) x ≡ false
      → get_output (collect result ns m) x ≡ get_output m x
  unfolding collect
  collect-other [] m x h = refl
  collect-other (n ∷ ns) m x h =
      collect-other ns (set_output m n.cortex (result n)) x (ground arith)
      ∙ get_output-set_output m n.cortex x (result n)
      ∙ rw (apart n.cortex x (has (names ns) x) h)

  collect_self :
      (ns : List DagNode) (m : Outputs)
      → Distinct (names ns)
      → All (λ n. get_output (collect result ns m) n.cortex ≡ some (result n)) ns
  unfolding collect
  collect_self [] m d = tt
  collect_self (n ∷ ns) m d = (
    collect-other ns (set_output m n.cortex (result n)) n.cortex d.0
        ∙ get_output-set_output m n.cortex n.cortex (result n)
        ∙ rw (==_refl n.cortex),
    collect_self ns (set_output m n.cortex (result n)) d.1,
  )

  has-collect :
      (ns : List DagNode) (m : Outputs) (x : String)
      → has (keys (collect result ns m)) x ≡ (has (keys m) x || has (names ns) x)
  unfolding collect
  has-collect [] m x = ground arith
  has-collect (n ∷ ns) m x = ground (
    arith,
    has-collect ns (set_output m n.cortex (result n)) x,
    has-set_output m n.cortex x (result n),
  )

previous_findings_congr :
    (m m' : Outputs) (deps : List String)
    → ((d : String) → has deps d ≡ true → get_output m d ≡ get_output m' d)
    → previous_findings m deps ≡ previous_findings m' deps
unfolding previous_findings
previous_findings_congr m m' [] h = refl
previous_findings_congr m m' (d ∷ ds) h =
    cc (h d (has-head d ds), previous_findings_congr m m' ds (λ x k. h x (has-tail d ds x k)))

pub IsReady-mono :
    (placed placed' : List String) (n : DagNode)
    → ((x : String) → has placed x ≡ true → has placed' x ≡ true)
    → IsReady placed n
    → IsReady placed' n
IsReady-mono placed placed' n sub r =
    every-has (has placed') n.depends_on (λ d m. sub d (has-every (has placed) n.depends_on d r m))

module _ (cortex : DagNode → Option (List PreviousFinding) → Option CortexOutput) where
  -- The output of the node is its cortex on the outputs of its dependencies.
  abbrev pub IsSolved : Outputs → DagNode → Type 0
  IsSolved outputs n =
      get_output outputs n.cortex
      ≡ some (settle (cortex n (context (previous_findings outputs n.depends_on))))

  -- The nodes that ran, and what is known of their outputs.
  pub record Progress (ran : List DagNode) (outputs : Outputs) : Type 0 where
    pub solved : All (IsSolved outputs) ran
    pub keyed : (x : String) → has (keys outputs) x ≡ has (names ran) x
    pub fed : All (IsReady (names ran)) ran
    pub named : All (λ n. has (names ran) n.cortex ≡ true) ran

  IsSolved-keep :
      (outputs outputs' : Outputs) (n : DagNode)
      → get_output outputs' n.cortex ≡ get_output outputs n.cortex
      → ((d : String) → has n.depends_on d ≡ true → get_output outputs' d ≡ get_output outputs d)
      → IsSolved outputs n
      → IsSolved outputs' n
  IsSolved-keep outputs outputs' n same deps s =
      same
      ∙ s
      ∙ ap (λ fs. some (settle (cortex n (context fs))))
          (sym (previous_findings_congr outputs' outputs n.depends_on deps))

  named_self : (ns : List DagNode) → All (λ n. has (names ns) n.cortex ≡ true) ns
  named_self [] = tt
  named_self (n ∷ ns) = (
    has-head n.cortex (names ns),
    All-map (λ x. has (names ns) x.cortex ≡ true) (λ x. has (names (n ∷ ns)) x.cortex ≡ true) ns
        (λ x h. has-tail n.cortex (names ns) x.cortex h) (named_self ns),
  )

  module _ (stopped : ℕ → Bool) (ran level : List DagNode) (outputs : Outputs)
      (before : Progress ran outputs) (can : All (IsReady (names ran)) level)
      (distinct : Distinct (names ran ++ names level)) where
    abbrev pub entered : Outputs
    entered = collect (execute_node cortex stopped outputs) level outputs

    untouched :
        (x : String) → has (names ran) x ≡ true → get_output entered x ≡ get_output outputs x
    untouched x h =
        collect-other (execute_node cortex stopped outputs) level outputs x
          (Distinct-apart (names ran) (names level) x distinct h)

    deps_untouched :
        (n : DagNode)
        → IsReady (names ran) n
        → (d : String) → has n.depends_on d ≡ true
        → get_output entered d ≡ get_output outputs d
    deps_untouched n r d m = untouched d (has-every (has (names ran)) n.depends_on d r m)

    level-IsSolved : All (IsSolved entered) level
    unfolding execute_node
    level-IsSolved =
        All-zip (IsReady (names ran)) _ (IsSolved entered) level
          (λ n r e.
            e
            ∙ ap (λ fs. some (settle (cortex n (context fs))))
                (sym (previous_findings_congr entered outputs n.depends_on (deps_untouched n r))))
          can
          (collect_self (execute_node cortex stopped outputs) level outputs
            (Distinct-append_right (names ran) (names level) distinct))

    ran-IsSolved : All (IsSolved entered) ran
    ran-IsSolved =
        All-zip (λ n. IsReady (names ran) n × (has (names ran) n.cortex ≡ true)) (IsSolved outputs)
          (IsSolved entered) ran
          (λ n (r, k) s.
            IsSolved-keep outputs entered n (untouched n.cortex k) (deps_untouched n r) s)
          (All-zip (IsReady (names ran)) (λ n. has (names ran) n.cortex ≡ true) _ ran
            (λ n r k. (r, k)) before.fed before.named)
          before.solved

    grown : (x : String) → has (names ran) x ≡ true → has (names (ran ++ level)) x ≡ true
    grown x h = rw (has-names-append ran level x, h)

    pub level-Progress : Progress (ran ++ level) entered
    level-Progress = record {
      solved = All-append (IsSolved entered) ran level ran-IsSolved level-IsSolved;
      keyed = λ x.
          has-collect (execute_node cortex stopped outputs) level outputs x
          ∙ rw (before.keyed x, has-names-append ran level x);
      fed =
          All-append (IsReady (names (ran ++ level))) ran level
            (All-map (IsReady (names ran)) _ ran (λ n r. IsReady-mono _ _ n grown r) before.fed)
            (All-map (IsReady (names ran)) _ level (λ n r. IsReady-mono _ _ n grown r) can);
      named = named_self (ran ++ level);
    }
