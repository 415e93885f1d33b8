-- ===== src/Executor/Execution.antt =====
-- The whole of an execution.
use mathlib.Core.List.{Perm, flatten, Mem, mem-cons, not-mem-nil}
use mathlib.Core.Logic.Or
use text.Mathlib.TextEquality.{IsScalar-prop}
use mathlib.Core.List.Perm
use thalamus_usecase_ssa.Prelude.{
  ℕ, ◌+◌, String, ◌≡◌, refl, Bool, true, false, Option, List, [], ◌∷◌, ◌++◌, has, has-append, arith,
  subst, ap, sym, ◌∙◌, string_Eq, ==_iff, ==_refl, ◌==◌, ◌||◌, All-map, Bool-cases, inl, inr, All,
  append_assoc, append-nil, Distinct, Distinct-perm, has-perm, Distinct-append_left,
}
use thalamus_usecase_ssa.Dag.{DagNode, names, ok, validate_dag}
use thalamus_usecase_ssa.Dag.Graph.{has-names-append}
use thalamus_usecase_ssa.Dag.Valid.{IsUnique, names-append}
use thalamus_usecase_ssa.Dag.Decision.{validate_dag-iff_IsRunnable}
use thalamus_usecase_ssa.Executor.{
  PreviousFinding, CortexOutput, Outputs, done, run_levels, execute,
}
use thalamus_usecase_ssa.Executor.Levels.{IsReady, IsLayered}
use thalamus_usecase_ssa.Executor.Plan.{validate_dag-Schedule}
use thalamus_usecase_ssa.Executor.Run.{
  keys, IsSolved, Progress, level-Progress, entered, IsReady-mono,
}

unique_apart :
    (seen : List String) (ns : List DagNode) (x : String)
    → IsUnique seen ns
    → has seen x ≡ true
    → has (names ns) x ≡ false
unique_apart seen [] x u h = refl
unique_apart seen (n ∷ ns) x u h = elim (Bool-cases (n.cortex == x)) [
  | inl same ↦
      let old : has seen n.cortex ≡ true =
        subst (λ y. has seen y ≡ true) (sym ((==_iff n.cortex x).0 same)) h in
      let new = u.0 in cc
  | inr other ↦ rw other (
      unique_apart (seen ++ n.cortex ∷ []) ns x u.1
        (rw (has-append seen (n.cortex ∷ []) x) (ground arith)))
]

IsUnique-Distinct :
    (seen : List String) (ns : List DagNode) → IsUnique seen ns → Distinct (names ns)
IsUnique-Distinct seen [] u = tt
IsUnique-Distinct seen (n ∷ ns) u = (
  unique_apart (seen ++ n.cortex ∷ []) ns n.cortex u.1
      (rw (has-append seen (n.cortex ∷ []) n.cortex) (ground (arith, ==_refl n.cortex))),
  IsUnique-Distinct (seen ++ n.cortex ∷ []) ns u.1,
)

module _ (cortex : DagNode → Option (List PreviousFinding) → Option CortexOutput)
    (stopped : ℕ → Bool) (never : (k : ℕ) → stopped k ≡ false) where
  run_levels-Progress :
      (look : ℕ) (levels : List (List DagNode)) (placed : List String) (ran : List DagNode)
      (outputs : Outputs)
      → ((x : String) → has placed x ≡ true → has (names ran) x ≡ true)
      → IsLayered placed levels
      → Distinct (names ran ++ names (flatten levels))
      → Progress cortex ran outputs
      → (outputs' : Outputs) × (run_levels cortex stopped look outputs levels ≡ done outputs')
        × Progress cortex (ran ++ flatten levels) outputs'
  unfolding run_levels flatten
  run_levels-Progress look [] placed ran outputs sub l d p = (outputs, refl, rw (append-nil ran) p)
  run_levels-Progress look (level ∷ levels) placed ran outputs sub l d p =
      let can : All (IsReady (names ran)) level =
        All-map (IsReady placed) (IsReady (names ran)) level
          (λ n r. IsReady-mono placed (names ran) n sub r) l.0 in
      let split : names ran ++ names (level ++ flatten levels)
          ≡ (names ran ++ names level) ++ names (flatten levels) =
        ap (λ t. names ran ++ t) (names-append level (flatten levels))
        ∙ sym (append_assoc (names ran) (names level) (names (flatten levels))) in
      let all = subst Distinct split d in
      let d' = Distinct-append_left (names ran ++ names level) (names (flatten levels)) all in
      let (outputs', e, p') =
        run_levels-Progress (look + 2) levels (names level ++ placed) (ran ++ level)
          (entered cortex stopped ran level outputs p can d')
          (λ x h. grown x (rw (has-append (names level) placed x) at h)) l.1
          (subst (λ t. Distinct (t ++ names (flatten levels))) (sym (names-append ran level)) all)
          (level-Progress cortex stopped ran level outputs p can d') in
      (
        outputs',
        rw (never look, never (look + 1)) e,
        subst (λ r. Progress cortex r outputs') (append_assoc ran level (flatten levels)) p',
      )
    where
      grown :
          (x : String)
          → (has (names level) x || has placed x) ≡ true
          → has (names (ran ++ level)) x ≡ true
      grown x h = rw (has-names-append ran level x) (ground (arith, sub x))

names-perm : (xs ys : List DagNode) → Perm xs ys → Perm (names xs) (names ys)
names-perm xs ys p = Perm.map (λ n. n.cortex) p

CortexOutput-set : IsSet CortexOutput
CortexOutput-set = hlevel IsScalar-prop

IsSolved-prop :
    (cortex : DagNode → Option (List PreviousFinding) → Option CortexOutput) (outputs : Outputs)
    (n : DagNode)
    → IsProp (IsSolved cortex outputs n)
IsSolved-prop cortex outputs n = hlevel CortexOutput-set

All-mem :
    (P : DagNode → Type 0) (ns : List DagNode) (n : DagNode)
    → IsProp (P n)
    → All P ns
    → Mem n ns
    → P n
All-mem P [] n prop h m = absurd (not-mem-nil m)
All-mem P (x ∷ xs) n prop h m =
    Or.elim prop (mem-cons.0 m) (λ same. subst P (sym same) h.0) (All-mem P xs n prop h.1)

-- Each node of the plan has the output that its cortex gives on the outputs of the nodes which it
-- depends on, and there are no other outputs.
pub record IsExecution (cortex : DagNode → Option (List PreviousFinding) → Option CortexOutput)
    (nodes : List DagNode) (outputs : Outputs) : Type 0 where
  pub solved : (n : DagNode) → Mem n nodes → IsSolved cortex outputs n
  pub keyed : (x : String) → has (keys outputs) x ≡ has (names nodes) x

-- An execution that is never stopped, of a plan that `validateDag` accepts, ends with outputs:
-- each node of the plan has the output that its cortex gives on the findings of the nodes it
-- depends on, as those stand at the end, or the empty output where the cortex fails; and the
-- outputs have the names of the plan, no others.
pub execute-IsExecution :
    (cortex : DagNode → Option (List PreviousFinding) → Option CortexOutput) (stopped : ℕ → Bool)
    (known : Option (List String)) (nodes : List DagNode)
    → ((k : ℕ) → stopped k ≡ false)
    → validate_dag false known nodes ≡ ok tt
    → (outputs : Outputs) × (execute cortex stopped known nodes ≡ done outputs)
      × IsExecution cortex nodes outputs
unfolding execute
execute-IsExecution cortex stopped known nodes never valid =
    let s = validate_dag-Schedule false known nodes valid in
    let r = (validate_dag-iff_IsRunnable false known nodes).0 valid in
    let unique = IsUnique-Distinct [] nodes r.indexed.unique in
    let distinct = Distinct-perm (names-perm _ _ (Perm.symm s.all)) unique in
    let (outputs, e, p) =
      run_levels-Progress cortex stopped never 1 s.levels [] [] [] (λ x h. h) s.layered distinct
        (record { solved = tt; keyed = λ x. refl; fed = tt; named = tt }) in
    (
      outputs,
      rw (never 0, valid, s.result) e,
      record {
        solved = λ n m.
            All-mem (IsSolved cortex outputs) (flatten s.levels) n (IsSolved-prop cortex outputs n)
              p.solved ((Perm.mem_iff s.all).1 m);
        keyed = λ x. p.keyed x ∙ has-perm _ _ x (names-perm _ _ s.all);
      },
    )
