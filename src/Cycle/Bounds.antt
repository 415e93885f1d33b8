-- ===== src/Cycle/Bounds.antt =====
-- What a run of the loop ends with.
use thalamus_usecase_ssa.Prelude.{ℕ, ◌≤◌, ◌≡◌, ◌⊎◌, some, List}
use thalamus_usecase_ssa.Cycle.{
  CortexFinding, DagPlan, completed, Ports, Turn, goes_on, Ending, failed, out_of_fuel, ended,
}
use thalamus_usecase_ssa.Cycle.Stop.{IsCounted, Explains}
use thalamus_usecase_ssa.Cycle.Turns.{IsFailure}

module _ (ports : Ports) where
  -- A turn that goes on leads to this iteration.
  abbrev Leads : ℕ → Turn → Type 0
  Leads n (goes_on s) = s.iteration ≡ n
  Leads n _ = Unit

  module _ (step : ℕ)
      (cheap : (k : ℕ) (plan : DagPlan) (found : List CortexFinding) (cost : ℕ)
        → ports.execute k plan ≡ some (found, cost)
        → cost ≤ step) where
    -- A run that ends well has counted well, and for the reason that it gives.
    abbrev pub IsEnding : Ending → Type 0
    IsEnding failed = IsFailure ports step
    IsEnding out_of_fuel = ⊥
    IsEnding (ended s reason) = IsCounted ports step s × Explains ports step s reason

    -- The same of the loop, where the reason is not yet given.
    abbrev IsIterated : Ending → Type 0
    IsIterated failed = IsFailure ports step
    IsIterated out_of_fuel = ⊥
    IsIterated (ended s reason) =
        IsCounted ports step s
        × (Explains ports step s reason ⊎ (reason ≡ completed) × (s.iteration ≡ ports.max_iter))
