-- ===== src/Cycle/History.antt =====
-- The iterations of the loop so far, and what its counters count of them.
use thalamus_usecase_ssa.Prelude.{
  ℕ, ◌+◌, ◌≡◌, refl, sym, ap, ◌∙◌, String, true, Option, none, some, List, [], ◌∷◌, ◌++◌, ◌==◌,
  string_Eq, if◌then◌else◌, length, keep, All, arith,
}
use thalamus_usecase_ssa.Cycle.{
  CortexFinding, DagPlan, LoopState, ReflexionResult, Ports, is_kept, is_same_gap,
}

-- The empty iterations at the front, the last one first.
pub leading_empty : List (List CortexFinding) → ℕ
leading_empty [] = 0
leading_empty ([] ∷ rounds) = leading_empty rounds + 1
leading_empty ((f ∷ fs) ∷ rounds) = 0

-- How often in a row the last of the texts, which stands first, came again, where it is not blank.
pub repeated : List String → ℕ
repeated [] = 0
repeated (a ∷ []) = 0
repeated (a ∷ b ∷ rest) =
    let before = repeated (b ∷ rest) in if a == "" then 0 else if a == b then before + 1 else 0

abbrev pub latest_of : List String → Option String
latest_of [] = none
latest_of (a ∷ rest) = some a

abbrev Round : Type 0
Round = List CortexFinding × ℕ

abbrev pub costs_of : List Round → ℕ
costs_of [] = 0
costs_of (r ∷ rounds) = costs_of rounds + r.1

abbrev pub listed_gaps : ReflexionResult → List String
listed_gaps r = elim r.gaps [ none ↦ [] | some gaps ↦ gaps ]

module _ (ports : Ports) where
  abbrev pub kept_rounds : List Round → List (List CortexFinding)
  kept_rounds [] = []
  kept_rounds (r ∷ rounds) = keep (is_kept ports) r.0 ∷ kept_rounds rounds

  abbrev pub all_kept : List Round → List CortexFinding
  all_kept [] = []
  all_kept (r ∷ rounds) = all_kept rounds ++ keep (is_kept ports) r.0

  -- Each round is what the execution of a plan answered in the iteration with its number.
  abbrev pub AreRounds : List Round → Type 0
  AreRounds [] = Unit
  AreRounds (r ∷ rounds) =
      ((plan : DagPlan) × (ports.execute (length rounds) plan ≡ some r)) × AreRounds rounds

  -- The signature of the gaps of a reflexion that asked for more.
  pub data IsAsked (signature : String) : Type 0 where
    asked_by :
        (s : LoopState) (found : List CortexFinding) (r : ReflexionResult)
        → ports.reflect s found ≡ some r
        → r.replan ≡ true
        → signature ≡ ports.gap_signature (listed_gaps r)
        → IsAsked signature

  -- The counters of the loop against its rounds and the gaps that it was asked to fill, the last
  -- ones first.
  pub record History (iteration total_cost zero_runs identical_gaps replan_count : ℕ)
      (last_gaps : Option String) (all_findings : List CortexFinding) : Type 0 where
    pub rounds : List Round
    pub recorded : AreRounds rounds
    pub many : length rounds ≡ iteration
    pub costs : costs_of rounds ≡ total_cost
    pub found : all_kept rounds ≡ all_findings
    pub empties : leading_empty (kept_rounds rounds) ≡ zero_runs
    pub signatures : List String
    pub asked : All IsAsked signatures
    pub asks : length signatures ≡ replan_count
    pub latest : latest_of signatures ≡ last_gaps
    pub repeats : repeated signatures ≡ identical_gaps

  pub start-History : History 0 0 0 0 0 none []
  unfolding leading_empty repeated
  start-History = record {
    rounds = [];
    recorded = tt;
    many = refl;
    costs = refl;
    found = refl;
    empties = refl;
    signatures = [];
    asked = tt;
    asks = refl;
    latest = refl;
    repeats = refl;
  }

  leading_empty-cons :
      (kept : List CortexFinding) (rounds : List (List CortexFinding)) (n : ℕ)
      → leading_empty rounds ≡ n
      → leading_empty (kept ∷ rounds) ≡ (elim kept [ [] ↦ n + 1 | k ∷ ks ↦ 0 ])
  unfolding leading_empty
  leading_empty-cons [] rounds n h = ap (λ k. k + 1) h
  leading_empty-cons (f ∷ fs) rounds n h = refl

  repeated-cons :
      (signature : String) (signatures : List String) (last : Option String) (n : ℕ)
      → latest_of signatures ≡ last
      → repeated signatures ≡ n
      → repeated (signature ∷ signatures) ≡ (if is_same_gap ports signature last then n + 1 else 0)
  unfolding repeated
  repeated-cons signature [] last n l h = rw (sym l) refl
  repeated-cons signature (b ∷ rest) last n l h = rw (sym l) (ground (arith, h))

  -- An iteration whose execution answers adds a round.
  pub found-History :
      {cost zeros same replans : ℕ} {last : Option String} {findings : List CortexFinding}
      (iteration : ℕ) (plan : DagPlan) (found : List CortexFinding) (spent : ℕ)
      → ports.execute iteration plan ≡ some (found, spent)
      → History iteration cost zeros same replans last findings
      → History
          (iteration + 1)
          (cost + spent)
          (elim (keep (is_kept ports) found) [ [] ↦ zeros + 1 | k ∷ ks ↦ 0 ])
          same
          replans
          last
          (findings ++ keep (is_kept ports) found)
  found-History iteration plan found spent ran h = record {
    rounds = (found, spent) ∷ h.rounds;
    recorded = ((plan, ap (λ k. ports.execute k plan) h.many ∙ ran), h.recorded);
    many = ground (arith, h.many);
    costs = ap (λ c. c + spent) h.costs;
    found = ap (λ l. l ++ keep (is_kept ports) found) h.found;
    empties = leading_empty-cons (keep (is_kept ports) found) (kept_rounds h.rounds) _ h.empties;
    signatures = h.signatures;
    asked = h.asked;
    asks = h.asks;
    latest = h.latest;
    repeats = h.repeats;
  }

  -- A reflexion that asks for more adds the signature of its gaps.
  pub gaps-History :
      {iteration cost zeros same replans : ℕ} {last : Option String} {findings : List CortexFinding}
      (signature : String)
      → IsAsked signature
      → History iteration cost zeros same replans last findings
      → History iteration cost zeros
          (if is_same_gap ports signature last then same + 1 else 0)
          (replans + 1)
          (some signature)
          findings
  gaps-History signature ev h = record {
    rounds = h.rounds;
    recorded = h.recorded;
    many = h.many;
    costs = h.costs;
    found = h.found;
    empties = h.empties;
    signatures = signature ∷ h.signatures;
    asked = (ev, h.asked);
    asks = ground (arith, h.asks);
    latest = refl;
    repeats = repeated-cons signature h.signatures _ _ h.latest h.repeats;
  }
