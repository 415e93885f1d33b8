-- ===== src/Cycle/Turns.antt =====
-- What one iteration of the loop leads to.
use thalamus_usecase_ssa.Prelude.{
  ℕ, ◌≤◌, ◌<◌, ◌≡◌, refl, Bool, true, false, inl, inr, Option, none, some, List, ltb, leb, keep,
  arith, Bool-cases,
}
use thalamus_usecase_ssa.Cycle.{
  CortexFinding, LoopState, ReflexionResult, StopReason, Ports, is_kept, should_stop, take_findings,
  take_gaps, Turn, threw, broke, goes_on, DagPlan, set_plan, plan_again, after_gaps, after_replan,
  after_reflexion, after_findings, after_execution,
}
use thalamus_usecase_ssa.Cycle.History.{gaps-History, IsAsked, asked_by, listed_gaps}
use thalamus_usecase_ssa.Cycle.Stop.{
  IsCounted, IsGoing, Explains, IsTaken, stale, take_findings-IsTaken, should_stop-Explains,
  should_stop-none,
}

module _ (ports : Ports) (step : ℕ) where
  -- A call that throws, or during which the run is aborted.
  pub data IsFailure : Type 0 where
    no_execution : (k : ℕ) (plan : DagPlan) → ports.execute k plan ≡ none → IsFailure
    no_reflexion :
        (s : LoopState) (found : List CortexFinding) → ports.reflect s found ≡ none → IsFailure
    no_plan : (s : LoopState) (r : ReflexionResult) → ports.replan s r ≡ none → IsFailure

  -- What a turn leads to.
  abbrev pub IsTurn : Turn → Type 0
  IsTurn threw = IsFailure
  IsTurn (broke s reason) = IsCounted ports step s × Explains ports step s reason
  IsTurn (goes_on s) = IsGoing ports step s

  set_plan-IsTurn :
      (s : LoopState) (r : ReflexionResult) (plan : Option DagPlan)
      → ports.replan s r ≡ plan
      → IsGoing ports step s
      → IsTurn (set_plan ports s plan)
  set_plan-IsTurn s r none e h = no_plan s r e
  set_plan-IsTurn s r (some plan) e h = record {
    counted = record {
      sure = h.counted.sure;
      in_bounds = h.counted.in_bounds;
      replans = h.counted.replans;
      low_rounds = h.counted.low_rounds;
      spent = h.counted.spent;
      gaps_seen = h.counted.gaps_seen;
      history = h.counted.history;
    };
    affordable = h.affordable;
    zero_below = h.zero_below;
    identical_below = h.identical_below;
  }

  plan_again-IsTurn :
      (s : LoopState) (r : ReflexionResult) → IsGoing ports step s → IsTurn (plan_again ports s r)
  unfolding plan_again
  plan_again-IsTurn s r h = set_plan-IsTurn s r (ports.replan s r) refl h

  take_gaps-IsCounted :
      (s : LoopState) (r : ReflexionResult)
      → IsAsked ports (ports.gap_signature (listed_gaps r))
      → IsTaken ports step s
      → IsCounted ports step (take_gaps ports s r)
  unfolding take_gaps
  take_gaps-IsCounted s r ev h =
      let c = h.counted in
      record {
        sure = c.sure;
        in_bounds = c.in_bounds;
        replans = omega (arith, h.begun);
        low_rounds = c.low_rounds;
        spent = c.spent;
        gaps_seen = inr (ground (arith, c.gaps_seen));
        history = gaps-History ports (ports.gap_signature (listed_gaps r)) ev c.history;
      }

  after_gaps-IsTurn :
      (s : LoopState) (r : ReflexionResult)
      → IsCounted ports step s
      → s.zero_runs < 2
      → s.total_cost < ports.max_cost
      → IsTurn (after_gaps ports s r)
  unfolding after_gaps
  after_gaps-IsTurn s r c few cheap = elim (Bool-cases (leb 2 s.identical_gaps)) [
    | inl a ↦ rw a (c, ground (arith, a, c.gaps_seen))
    | inr a ↦ rw a (
        plan_again-IsTurn s r (record {
          counted = c;
          affordable = inr cheap;
          zero_below = few;
          identical_below = ground (arith, a);
        }))
  ]

  after_replan-IsTurn :
      (replan : Bool) (s : LoopState) (r : ReflexionResult)
      → r.replan ≡ replan
      → (r.replan ≡ true → IsAsked ports (ports.gap_signature (listed_gaps r)))
      → s.last_reflexion ≡ some r
      → IsTaken ports step s
      → s.zero_runs < 2
      → s.total_cost < ports.max_cost
      → IsTurn (after_replan ports replan s r)
  unfolding after_replan take_gaps
  after_replan-IsTurn true s r asks ev last h few cheap =
      after_gaps-IsTurn (take_gaps ports s r) r (take_gaps-IsCounted s r (ev asks) h) few cheap
  after_replan-IsTurn false s r asks ev last h few cheap = (h.counted, (r, last, asks))

  after_reflexion-IsTurn :
      (s : LoopState) (found : List CortexFinding) (r : Option ReflexionResult)
      → ports.reflect s found ≡ r
      → IsTaken ports step s
      → s.zero_runs < 2
      → s.total_cost < ports.max_cost
      → IsTurn (after_reflexion ports s r)
  unfolding after_reflexion
  after_reflexion-IsTurn s found none told h few cheap = no_reflexion s found told
  after_reflexion-IsTurn s found (some r) told h few cheap =
      after_replan-IsTurn r.replan (record s { last_reflexion = some r }) r refl
        (λ more. asked_by s found r told more refl) refl
        (record {
          counted = record {
            sure = h.counted.sure;
            in_bounds = h.counted.in_bounds;
            replans = h.counted.replans;
            low_rounds = h.counted.low_rounds;
            spent = h.counted.spent;
            gaps_seen = h.counted.gaps_seen;
            history = h.counted.history;
          };
          identical_below = h.identical_below;
          begun = h.begun;
        })
        few cheap

  after_findings-IsTurn :
      (s : LoopState) (found : List CortexFinding) (decision : Option StopReason)
      → IsTaken ports step s
      → ((reason : StopReason) → decision ≡ some reason → Explains ports step s reason)
      → (decision ≡ none → (s.zero_runs < 2) × (s.total_cost < ports.max_cost))
      → IsTurn (after_findings ports s found decision)
  unfolding after_findings
  after_findings-IsTurn s found (some reason) h why below = (h.counted, why reason refl)
  after_findings-IsTurn s found none h why below =
      let (few, cheap) = below refl in
      elim (Bool-cases (ltb s.iteration ports.max_iter)) [
        | inl a ↦ rw a (after_reflexion-IsTurn s found (ports.reflect s found) refl h few cheap)
        | inr a ↦ rw a (record {
          counted = h.counted;
          affordable = inr cheap;
          zero_below = few;
          identical_below = h.identical_below;
        })
      ]

  pub after_execution-IsTurn :
      (s : LoopState) (executed : Option (List CortexFinding × ℕ))
      → ((found : List CortexFinding) (cost : ℕ) → executed ≡ some (found, cost) → cost ≤ step)
      → ports.execute s.iteration s.plan ≡ executed
      → IsGoing ports step s
      → s.iteration < ports.max_iter
      → IsTurn (after_execution ports s executed)
  unfolding after_execution take_findings
  after_execution-IsTurn s none cheap ran h room = no_execution s.iteration s.plan ran
  after_execution-IsTurn s (some (found, cost)) cheap ran h room =
      let t = take_findings ports s found cost in
      let kept = keep (is_kept ports) found in
      let taken =
        take_findings-IsTaken ports step s found cost h room (cheap found cost refl) ran in
      after_findings-IsTurn t found (should_stop ports t s.all_findings kept) taken
        (λ reason e.
          should_stop-Explains ports step t s.all_findings kept reason
            (λ few. stale s.iteration cost s.plan found s.all_findings refl ran refl few)
            taken.identical_below e)
        (should_stop-none ports step t s.all_findings kept)
