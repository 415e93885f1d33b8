-- ===== src/Executor/Timeout.antt =====
-- The time limit of a cortex: `computeTimeout`.
-- A factor is counted in halves, and a thinking flag or another setting of a cortex is `none` where
-- the cortex does not override it. What the time limits of single cortices are by name is the
-- table CORTEX_TIMEOUT_OVERRIDES.
use native.Mathlib.Nat.{mul-le-mul_left, mul_left_comm}
use thalamus_usecase_ssa.Prelude.{
  ℕ, ◌+◌, ◌*◌, ◌/◌, ◌≤◌, ◌<◌, ◌≡◌, sym, subst, String, Bool, true, Option, none, some, max, ltb,
  ◌==◌, string_Eq, if◌then◌else◌, arith, ◌⊎◌,
}

pub record PlannerConfig : Type 0 where
  pub provider : String
  pub model : String
  pub reasoning_effort : String
  pub thinking : Bool

pub record CortexOverride : Type 0 where
  pub call_timeout : ℕ
  pub provider : Option String
  pub model : Option String
  pub reasoning_effort : Option String
  pub thinking : Option Bool

-- `a ?? b`
abbrev pub or_else {ℓ} : {A : Type ℓ} → Option A → A → A
or_else none b = b
or_else (some a) b = a

abbrev pub static_timeout : String → Option ℕ
static_timeout name = if name == "payload_profiler" then some 180000 else none

-- The factor of a reasoning effort, in halves.
abbrev pub effort_factor : String → ℕ
effort_factor effort =
    if effort == "xhigh"
    then 12
    else if effort == "high"
    then 6
    else if effort == "medium"
    then 3
    else 2

-- `mult`, in halves; `is_local` tells the models whose name starts with "local/".
pub factor : (String → Bool) → String → String → String → Bool → ℕ
factor is_local effort provider model thinking =
    let a = effort_factor effort in
    let b = if provider == "minimax" then max a 6 else a in
    let c = if thinking then max b 6 else b in if is_local model then max c 4 else c

-- `Math.round(baseMs * mult)`
abbrev pub round_half : ℕ → ℕ
round_half halves = (halves + 1) / 2

abbrev pub no_override : CortexOverride
no_override = record {
  call_timeout = 0;
  provider = none;
  model = none;
  reasoning_effort = none;
  thinking = none;
}

-- The limit where neither table sets it.
pub scaled_timeout : (String → Bool) → ℕ → PlannerConfig → CortexOverride → ℕ
unfolding factor
scaled_timeout is_local base planner o = round_half (
    base
    * factor is_local (or_else o.reasoning_effort planner.reasoning_effort)
        (or_else o.provider planner.provider) (or_else o.model planner.model)
        (or_else o.thinking planner.thinking))

-- The first limit that is set.
pub pick_timeout : ℕ → Option ℕ → ℕ → ℕ
pick_timeout own listed scaled =
    if ltb 0 own then own else elim listed [ some limit ↦ limit | none ↦ scaled ]

-- `computeTimeout(cortexName, baseMs, plannerCfg, cortexOverride)`
unfoldable pub compute_timeout :
    (String → Bool) → String → ℕ → PlannerConfig → Option CortexOverride → ℕ
unfolding pick_timeout scaled_timeout
compute_timeout is_local name base planner override =
    let o = or_else override no_override in
    pick_timeout o.call_timeout (static_timeout name) (scaled_timeout is_local base planner o)

pick_own :
    (own : ℕ) (listed : Option ℕ) (scaled : ℕ) → 0 < own → pick_timeout own listed scaled ≡ own
unfolding pick_timeout
pick_own own listed scaled h = ground arith

pick_listed :
    (own : ℕ) (listed : Option ℕ) (scaled t : ℕ)
    → own ≡ 0
    → listed ≡ some t
    → pick_timeout own listed scaled ≡ t
unfolding pick_timeout
pick_listed own listed scaled t h e = ground arith

pick_scaled :
    (own : ℕ) (listed : Option ℕ) (scaled : ℕ)
    → own ≡ 0
    → listed ≡ none
    → pick_timeout own listed scaled ≡ scaled
unfolding pick_timeout
pick_scaled own listed scaled h e = ground arith

pick_positive :
    (own : ℕ) (name : String) (scaled : ℕ)
    → 0 < scaled
    → 0 < pick_timeout own (static_timeout name) scaled
unfolding pick_timeout
pick_positive own name scaled h = ground arith

factor_bounds :
    (is_local : String → Bool) (effort provider model : String) (thinking : Bool)
    → let n = factor is_local effort provider model thinking in (2 ≤ n) × (n ≤ 12)
unfolding factor
factor_bounds is_local effort provider model thinking = ground arith

factor_slow :
    (is_local : String → Bool) (effort provider model : String) (thinking : Bool)
    → (thinking ≡ true) ⊎ ((provider == "minimax") ≡ true)
    → 6 ≤ factor is_local effort provider model thinking
unfolding factor
factor_slow is_local effort provider model thinking h = ground arith

round_half-le : (low base n : ℕ) → 2 * low ≤ n → base * low ≤ round_half (base * n)
round_half-le low base n h =
    let wide : base * (2 * low) ≤ base * n = mul-le-mul_left base h in
    let same : base * (2 * low) ≡ 2 * (base * low) = mul_left_comm base 2 low in omega arith

round_half-le_six : (base n : ℕ) → n ≤ 12 → round_half (base * n) ≤ 6 * base
round_half-le_six base n h = let wide : base * n ≤ base * 12 = mul-le-mul_left base h in omega arith

module _ (is_local : String → Bool) (base : ℕ) (planner : PlannerConfig) (o : CortexOverride) where
  scaled_timeout-bounds :
      (base ≤ scaled_timeout is_local base planner o)
      × (scaled_timeout is_local base planner o ≤ 6 * base)
  unfolding scaled_timeout
  scaled_timeout-bounds =
      let (low, high) =
        factor_bounds is_local (or_else o.reasoning_effort planner.reasoning_effort)
          (or_else o.provider planner.provider) (or_else o.model planner.model)
          (or_else o.thinking planner.thinking) in
      (omega (arith, round_half-le 1 base _ low), round_half-le_six base _ high)

  scaled_timeout_slow :
      (or_else o.thinking planner.thinking ≡ true)
        ⊎ ((or_else o.provider planner.provider == "minimax") ≡ true)
      → 3 * base ≤ scaled_timeout is_local base planner o
  unfolding scaled_timeout
  scaled_timeout_slow h = omega (
    arith,
    round_half-le 3 base _ (
        factor_slow is_local (or_else o.reasoning_effort planner.reasoning_effort)
          (or_else o.provider planner.provider) (or_else o.model planner.model)
          (or_else o.thinking planner.thinking) h),
  )

-- A time limit of a cortex: a call limit of its own comes first; else, unless the table of names
-- has it, it is from one to six times the base, and three times at least for a model that thinks
-- or is of minimax.
pub record IsTimeout (name : String) (base : ℕ) (planner : PlannerConfig) (o : CortexOverride)
    (limit : ℕ) : Type 0 where
  pub own : 0 < o.call_timeout → limit ≡ o.call_timeout
  pub listed : (t : ℕ) → o.call_timeout ≡ 0 → static_timeout name ≡ some t → limit ≡ t
  pub scaled : o.call_timeout ≡ 0 → static_timeout name ≡ none → (base ≤ limit) × (limit ≤ 6 * base)
  pub slow :
      o.call_timeout ≡ 0
      → static_timeout name ≡ none
      → (or_else o.thinking planner.thinking ≡ true)
        ⊎ ((or_else o.provider planner.provider == "minimax") ≡ true)
      → 3 * base ≤ limit
  pub positive : 0 < base → 0 < limit

-- The time limit of a cortex: a call limit of its own comes first, then the table of names; else
-- it is from one to six times the base, and at least three times for a model that thinks or is of
-- minimax. It is positive if the base is.
pub compute_timeout-IsTimeout :
    (is_local : String → Bool) (name : String) (base : ℕ) (planner : PlannerConfig)
    (override : Option CortexOverride)
    → IsTimeout name base planner
        (or_else override no_override)
        (compute_timeout is_local name base planner override)
unfolding compute_timeout
compute_timeout-IsTimeout is_local name base planner override =
    let o = or_else override no_override in
    let (low, high) = scaled_timeout-bounds is_local base planner o in
    record {
      own = pick_own o.call_timeout (static_timeout name) (scaled_timeout is_local base planner o);
      listed =
          pick_listed o.call_timeout (static_timeout name) (scaled_timeout is_local base planner o);
      scaled = λ h e.
          subst (λ t. (base ≤ t) × (t ≤ 6 * base))
            (sym (pick_scaled o.call_timeout (static_timeout name) _ h e))
            (scaled_timeout-bounds is_local base planner o);
      slow = λ h e w.
          subst (λ t. 3 * base ≤ t) (sym (pick_scaled o.call_timeout (static_timeout name) _ h e))
            (scaled_timeout_slow is_local base planner o w);
      positive = λ h. pick_positive o.call_timeout name _ (omega (arith, low));
    }
