-- ===== src/Swarm/Sound.antt =====
-- What holds of a swarm at all times.
use thalamus_usecase_ssa.Prelude.{
  ℕ, zero, suc, ◌+◌, ◌≤◌, ◌≡◌, ◌≢◌, refl, ◌∙◌, String, Bool, false, Option, List, [], ◌∷◌, ◌++◌,
  map, nat_eq, length, count_of, count_of-append, arith,
}
use thalamus_usecase_ssa.Swarm.{
  RunStatus, pending, Job, fish_job, aggregate_job, Swarm, is_pending, fail_open, abort, set_status,
  new_swarm,
}
use thalamus_usecase_ssa.Swarm.Claim.{
  bit, is_waiting, claim_pending-IsClaim, claim_pending-waiting, is_fish_job, is_aggregate_job,
}
use thalamus_usecase_ssa.Swarm.Reports.{
  Report, claiming, queueing, aggregating, World, holds_gate, report_step, Step, reports, advances,
  quits, updates, aborts, Reachable, launched, next,
}

-- How often a fish is claimed by reports that have not queued it yet.
abbrev pub claims_of : ℕ → Report → ℕ
claims_of index (queueing indexes) = count_of (nat_eq index) indexes
claims_of index _ = 0

unfoldable pub all_claims : ℕ → List Report → ℕ
all_claims index [] = 0
all_claims index (r ∷ rs) = claims_of index r + all_claims index rs

-- A swarm with as many fish as it was launched with; whose gate is claimed if the aggregate is in
-- the queue, once, or one report is about to queue it or to release the gate, and not otherwise;
-- and whose fish each wait, or are claimed by one report, or are in the queue once, or none of it.
pub record IsSound (w : World) : Type 0 where
  pub sized : length w.swarm.fish ≡ w.swarm.size
  pub gated :
      count_of is_aggregate_job w.swarm.jobs + count_of holds_gate w.reports
      ≡ bit w.swarm.is_claimed
  pub fresh :
      (index : ℕ)
      → count_of (is_fish_job index) w.swarm.jobs
          + all_claims index w.reports
          + bit (is_waiting 0 w.swarm.fish index)
        ≤ 1

set_status-length :
    (index : ℕ) (status : RunStatus) (fs : List RunStatus)
    → length (set_status index status fs) ≡ length fs
unfolding set_status
set_status-length index status [] = refl
set_status-length zero status (f ∷ fs) = refl
set_status-length (suc index) status (f ∷ fs) = ground (arith, set_status-length index status fs)

not_pending : (status : RunStatus) → status ≢ pending → is_pending status ≡ false
not_pending status h = ground (arith, h)

set_status-waiting :
    (at start : ℕ) (status : RunStatus) (fs : List RunStatus) (index : ℕ)
    → is_pending status ≡ false
    → bit (is_waiting start (set_status at status fs) index) ≤ bit (is_waiting start fs index)
unfolding set_status is_waiting
set_status-waiting at start status [] index h = omega arith
set_status-waiting zero start status (f ∷ fs) index h = ground arith
set_status-waiting (suc at) start status (f ∷ fs) index h =
    ground (arith, set_status-waiting at (suc start) status fs index h)

fail_open-length : (fs : List RunStatus) → length (map fail_open fs) ≡ length fs
fail_open-length [] = refl
fail_open-length (f ∷ fs) = ground (arith, fail_open-length fs)

fail_open-waiting :
    (start : ℕ) (fs : List RunStatus) (index : ℕ)
    → bit (is_waiting start (map fail_open fs) index) ≤ bit (is_waiting start fs index)
unfolding is_waiting
fail_open-waiting start [] index = omega arith
fail_open-waiting start (f ∷ fs) index = ground (arith, fail_open-waiting (suc start) fs index)

new_fish : (ps : List String) → length (map (λ p. pending) ps) ≡ length ps
new_fish [] = refl
new_fish (p ∷ ps) = ground (arith, new_fish ps)

all_claims-append :
    (index : ℕ) (rs qs : List Report)
    → all_claims index (rs ++ qs) ≡ all_claims index rs + all_claims index qs
unfolding all_claims
all_claims-append index [] qs = omega arith
all_claims-append index (r ∷ rs) qs = omega (arith, all_claims-append index rs qs)

-- What a step of a report keeps of the swarm and of itself.
record IsStep (s t : Swarm) (r q : Report) : Type 0 where
  sized : length s.fish ≡ s.size → length t.fish ≡ t.size
  gated :
      (others : ℕ)
      → count_of is_aggregate_job s.jobs + bit (holds_gate r) + others ≡ bit s.is_claimed
      → count_of is_aggregate_job t.jobs + bit (holds_gate q) + others ≡ bit t.is_claimed
  fresh :
      (index : ℕ)
      → count_of (is_fish_job index) t.jobs + claims_of index q + bit (is_waiting 0 t.fish index)
        ≤ count_of (is_fish_job index) s.jobs + claims_of index r + bit (is_waiting 0 s.fish index)

module _ (accepts : List Job → Job → Bool) where
  claiming-IsStep :
      (s : Swarm) (limit : ℕ)
      → IsStep s
          (report_step accepts s (claiming limit)).0
          (claiming limit)
          (report_step accepts s (claiming limit)).1
  unfolding report_step
  claiming-IsStep s limit = record {
    sized = λ h. (claim_pending-IsClaim limit 0 s.fish).same_length ∙ h;
    gated = λ n h. h;
    fresh = λ i. omega (arith, claim_pending-waiting limit 0 s.fish i);
  }

  report_step-IsStep :
      (s : Swarm) (r : Report) → IsStep s (report_step accepts s r).0 r (report_step accepts s r).1
  unfolding report_step
  report_step-IsStep s (claiming limit) = claiming-IsStep s limit
  report_step-IsStep s (queueing (i ∷ is)) = record {
    sized = λ h. ground (arith, h);
    gated = λ n h. ground (arith, h, count_of-append is_aggregate_job s.jobs (fish_job i ∷ []));
    fresh = λ k. ground (arith, count_of-append (is_fish_job k) s.jobs (fish_job i ∷ []));
  }
  report_step-IsStep s aggregating = record {
    sized = λ h. ground (arith, h);
    gated = λ n h. ground (arith, h, count_of-append is_aggregate_job s.jobs (aggregate_job ∷ []));
    fresh = λ k. ground (arith, count_of-append (is_fish_job k) s.jobs (aggregate_job ∷ []));
  }
  report_step-IsStep s r = record {
    sized = λ h. ground (arith, h);
    gated = λ n h. ground (arith, h);
    fresh = λ k. ground arith;
  }

  gate_apart :
      (jobs claimed : ℕ) (before after : List Report) (r : Report)
      → jobs + count_of holds_gate (before ++ r ∷ after) ≡ claimed
      → jobs + bit (holds_gate r) + (count_of holds_gate before + count_of holds_gate after)
        ≡ claimed
  gate_apart jobs claimed before after r h =
      ground (arith, h, count_of-append holds_gate before (r ∷ after))

  gate_around :
      (jobs claimed : ℕ) (before after : List Report) (r : Report)
      → jobs + bit (holds_gate r) + (count_of holds_gate before + count_of holds_gate after)
        ≡ claimed
      → jobs + count_of holds_gate (before ++ r ∷ after) ≡ claimed
  gate_around jobs claimed before after r h =
      ground (arith, h, count_of-append holds_gate before (r ∷ after))

  advances-IsSound :
      (s t : Swarm) (before after : List Report) (r q : Report)
      → IsStep s t r q
      → IsSound record { swarm = s; reports = before ++ r ∷ after }
      → IsSound record { swarm = t; reports = before ++ q ∷ after }
  unfolding all_claims
  advances-IsSound s t before after r q h i = record {
    sized = h.sized i.sized;
    gated = gate_around _ _ before after q (
        h.gated (count_of holds_gate before + count_of holds_gate after)
          (gate_apart _ _ before after r i.gated));
    fresh = λ k. omega (
      arith,
      h.fresh k,
      i.fresh k,
      all_claims-append k before (r ∷ after),
      all_claims-append k before (q ∷ after),
    );
  }

  quits-IsSound :
      (s : Swarm) (before after : List Report) (r : Report)
      → holds_gate r ≡ false
      → IsSound record { swarm = s; reports = before ++ r ∷ after }
      → IsSound record { swarm = s; reports = before ++ after }
  unfolding all_claims
  quits-IsSound s before after r idle i = record {
    sized = i.sized;
    gated = ground (
      arith,
      i.gated,
      idle,
      count_of-append holds_gate before (r ∷ after),
      count_of-append holds_gate before after,
    );
    fresh = λ k. omega (
      arith,
      i.fresh k,
      all_claims-append k before (r ∷ after),
      all_claims-append k before after,
    );
  }

  Step-IsSound : (v w : World) → Step accepts v w → IsSound v → IsSound w
  unfolding all_claims abort
  Step-IsSound v w (reports s rs) h = record {
    sized = h.sized;
    gated = h.gated;
    fresh = λ i. omega (arith, h.fresh i);
  }
  Step-IsSound v w (advances s before after r) h =
      advances-IsSound s (report_step accepts s r).0 before after r (report_step accepts s r).1
        (report_step-IsStep s r) h
  Step-IsSound v w (quits s before after r idle) h = quits-IsSound s before after r idle h
  Step-IsSound v w (updates s rs index status opened) h = record {
    sized = set_status-length index status s.fish ∙ h.sized;
    gated = h.gated;
    fresh = λ i.
        omega (
          arith,
          set_status-waiting index 0 status s.fish i (not_pending status opened),
          h.fresh i,
        );
  }
  Step-IsSound v w (aborts s rs) h = record {
    sized = fail_open-length s.fish ∙ h.sized;
    gated = h.gated;
    fresh = λ i. omega (arith, fail_open-waiting 0 s.fish i, h.fresh i);
  }

  waits_once : (start : ℕ) (fs : List RunStatus) (index : ℕ) → bit (is_waiting start fs index) ≤ 1
  waits_once start fs index = ground arith

  launched-IsSound :
      (slots : Option ℕ) (ps : List String)
      → IsSound record { swarm = new_swarm accepts slots ps; reports = [] }
  unfolding all_claims
  launched-IsSound slots ps = record {
    sized = new_fish ps;
    gated = refl;
    fresh = λ i. omega (arith, waits_once 0 (map (λ p. pending) ps) i);
  }

  -- At all times after a swarm is stored, in whatever order the reports of its fish and the launch
  -- go from one `await` to the next, quit before they hold the gate, and calls of the queue throw,
  -- and whatever statuses but the first one the workers, pause and resume write and an abort
  -- leaves: the swarm has all its fish; the aggregate was queued at most once, and while the gate
  -- is claimed it either was queued or one report holds the gate and no other does; and no fish was
  -- queued twice, claimed twice, or either while it waits. How many run at once is not stated.
  pub Reachable-IsSound : (w : World) → Reachable accepts w → IsSound w
  Reachable-IsSound w (launched slots ps) = launched-IsSound slots ps
  Reachable-IsSound w (next {v = v} before step) =
      Step-IsSound v w step (Reachable-IsSound v before)
