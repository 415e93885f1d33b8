-- ===== src/Cycle/Stop.antt =====
-- What holds of the loop's state before each iteration.
use thalamus_usecase_ssa.Prelude.{
  ℕ, zero, suc, ◌+◌, ◌*◌, ◌≤◌, ◌<◌, ◌≡◌, refl, subst, true, false, ◌⊎◌, inl, inr, none, some, List,
  [], ◌∷◌, ◌++◌, leb, leb→le, length, keep, map, All, All-append, arith, Bool-cases,
}
use thalamus_usecase_ssa.Cycle.{
  CortexFinding, LoopState, ReflexionResult, StopReason, completed, consecutive_zero_runs,
  cost_exhausted, gap_plateau, eagerness_satisfied, reflexion_sufficient, max_iterations, Ports,
  is_kept, novel_findings, is_eager, should_stop, take_findings, DagPlan, total_confidence, reaches,
  million, count_distinct, source_of,
}
use thalamus_usecase_ssa.Cycle.History.{History, found-History}
use thalamus_usecase_ssa.Dag.{names}

module _ (ports : Ports) (step : ℕ) where
  -- The costs are counted up to `step`, a bound on the cost of one iteration.
  pub record IsCounted (s : LoopState) : Type 0 where
    pub sure : All (λ f. ports.min_confidence ≤ f.confidence) s.all_findings
    pub in_bounds : s.iteration ≤ ports.max_iter
    pub replans : s.replan_count ≤ s.iteration
    pub low_rounds : s.low_confidence_rounds ≤ s.iteration
    pub spent : s.total_cost ≤ ports.max_cost + step
    pub gaps_seen :
        ((s.last_gaps ≡ none) × (s.identical_gaps ≡ 0)) ⊎ (s.identical_gaps < s.replan_count)
    pub history :
        History ports s.iteration s.total_cost s.zero_runs s.identical_gaps s.replan_count
          s.last_gaps s.all_findings

  -- The loop goes on: the budget is not spent, and no other count has reached its limit.
  pub record IsGoing (s : LoopState) : Type 0 where
    pub counted : IsCounted s
    pub affordable : (s.total_cost ≡ 0) ⊎ (s.total_cost < ports.max_cost)
    pub zero_below : s.zero_runs < 2
    pub identical_below : s.identical_gaps < 2

  -- Few of these findings have a title that no earlier one has, against the threshold.
  abbrev pub IsOld : LoopState → List CortexFinding → List CortexFinding → Type 0
  IsOld s earlier kept =
      (length kept ≡ 0)
      ⊎ (million * length (novel_findings ports earlier kept)
          < ports.novelty_threshold s.iteration * length kept)

  -- What the last iteration kept is old.
  pub data IsStale (s : LoopState) : Type 0 where
    stale :
        (k cost : ℕ) (plan : DagPlan) (found earlier : List CortexFinding)
        → s.iteration ≡ k + 1
        → ports.execute k plan ≡ some (found, cost)
        → s.all_findings ≡ earlier ++ keep (is_kept ports) found
        → IsOld s earlier (keep (is_kept ports) found)
        → IsStale s

  -- Why the loop ended.
  abbrev pub Explains : LoopState → StopReason → Type 0
  Explains s completed = ⊥
  Explains s consecutive_zero_runs = 2 ≤ s.zero_runs
  Explains s cost_exhausted = ports.max_cost ≤ s.total_cost
  Explains s gap_plateau = (2 ≤ s.identical_gaps) × (3 ≤ s.replan_count)
  Explains s eagerness_satisfied =
      (ports.budget.min_findings_to_stop ≤ length s.all_findings)
      × (ports.budget.confidence_target * length s.all_findings ≤ total_confidence s.all_findings)
      × (ports.budget.coverage_target * count_distinct (names s.plan.nodes)
          ≤ million * count_distinct (map source_of s.all_findings))
      × IsStale s
  Explains s reflexion_sufficient =
      (r : ReflexionResult) × (s.last_reflexion ≡ some r) × (r.replan ≡ false)
  Explains s max_iterations = s.iteration ≡ ports.max_iter

  -- A state within an iteration, before the gaps are looked at.
  pub record IsTaken (s : LoopState) : Type 0 where
    pub counted : IsCounted s
    pub identical_below : s.identical_gaps < 2
    pub begun : s.replan_count < s.iteration

  keep-sure :
      (fs : List CortexFinding)
      → All (λ f. ports.min_confidence ≤ f.confidence) (keep (is_kept ports) fs)
  keep-sure [] = tt
  keep-sure (f ∷ fs) = ground (arith, keep-sure fs)

  pub take_findings-IsTaken :
      (s : LoopState) (found : List CortexFinding) (cost : ℕ)
      → IsGoing s
      → s.iteration < ports.max_iter
      → cost ≤ step
      → ports.execute s.iteration s.plan ≡ some (found, cost)
      → IsTaken (take_findings ports s found cost)
  unfolding take_findings
  take_findings-IsTaken s found cost h room cheap ran =
      let c = h.counted in
      record {
        counted = record {
          sure =
              All-append (λ f. ports.min_confidence ≤ f.confidence) s.all_findings
                (keep (is_kept ports) found) c.sure (keep-sure found);
          in_bounds = omega arith;
          replans = omega (arith, c.replans);
          low_rounds = ground (arith, c.low_rounds);
          spent = ground (arith, h.affordable);
          gaps_seen = c.gaps_seen;
          history = found-History ports s.iteration s.plan found cost ran c.history;
        };
        identical_below = h.identical_below;
        begun = omega (arith, c.replans);
      }

  some-injective : (r reason : StopReason) → some r ≡ some reason → r ≡ reason
  some-injective r reason h = cc

  reaches-le : (part whole target : ℕ) → reaches part whole target ≡ true → target * whole ≤ part
  reaches-le part zero target h = omega arith
  reaches-le part (suc n) target h = leb→le (target * suc n) part h

  reaches-not :
      (part whole target : ℕ)
      → reaches part whole target ≡ false
      → (whole ≡ 0) ⊎ (part < target * whole)
  reaches-not part zero target h = inl refl
  reaches-not part (suc n) target h = inr (leb-not (target * suc n) part h)
    where
      leb-not : (a b : ℕ) → leb a b ≡ false → b < a
      leb-not a b h = ground (arith, h)

  is_eager-Explains :
      (s : LoopState) (earlier kept : List CortexFinding)
      → (IsOld s earlier kept → IsStale s)
      → is_eager ports s earlier kept ≡ true
      → Explains s eagerness_satisfied
  unfolding is_eager
  is_eager-Explains s earlier kept last h =
      let sure =
        reaches-le (total_confidence s.all_findings) (length s.all_findings)
          ports.budget.confidence_target in
      let covered =
        reaches-le (million * count_distinct (map source_of s.all_findings))
          (count_distinct (names s.plan.nodes)) ports.budget.coverage_target in
      let old =
        reaches-not (million * length (novel_findings ports earlier kept)) (length kept)
          (ports.novelty_threshold s.iteration) (ground (arith, h)) in
      (ground (arith, h), sure (ground (arith, h)), covered (ground (arith, h)), last old)

  pub should_stop-Explains :
      (s : LoopState) (earlier kept : List CortexFinding) (reason : StopReason)
      → (IsOld s earlier kept → IsStale s)
      → s.identical_gaps < 2
      → should_stop ports s earlier kept ≡ some reason
      → Explains s reason
  unfolding should_stop
  should_stop-Explains s earlier kept reason last below h = elim (Bool-cases (leb 2 s.zero_runs)) [
    | inl a ↦ subst (Explains s) (some-injective _ reason (rw a at h)) (leb→le 2 s.zero_runs a)
    | inr a ↦ elim (Bool-cases (leb ports.max_cost s.total_cost)) [
      | inl b ↦
          subst (Explains s) (some-injective _ reason (rw (a, b) at h))
            (leb→le ports.max_cost s.total_cost b)
      | inr b ↦ elim (Bool-cases (leb 2 s.identical_gaps)) [
        | inl c ↦ absurd (ground (arith, c))
        | inr c ↦ elim (Bool-cases (is_eager ports s earlier kept)) [
          | inl d ↦
              subst (Explains s) (some-injective _ reason (rw (a, b, c, d) at h))
                (is_eager-Explains s earlier kept last d)
          | inr d ↦ let bad : none ≡ some reason = rw (a, b, c, d) at h in cc
        ]
      ]
    ]
  ]

  pub should_stop-none :
      (s : LoopState) (earlier kept : List CortexFinding)
      → should_stop ports s earlier kept ≡ none
      → (s.zero_runs < 2) × (s.total_cost < ports.max_cost)
  unfolding should_stop
  should_stop-none s earlier kept h = ground arith
