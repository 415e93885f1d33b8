-- ===== src/Swarm/Claim.antt =====
-- What a claim does to the fish, and what the loop does to the queue.
use thalamus_usecase_ssa.Prelude.{
  ℕ, zero, suc, ◌+◌, min, ◌<◌, ◌≤◌, ◌≡◌, refl, Bool, true, false, List, [], ◌∷◌, ◌++◌, nat_eq,
  arith, if◌then◌else◌, length, count_of, count_of-append,
}
use thalamus_usecase_ssa.Swarm.{
  RunStatus, Job, fish_job, aggregate_job, is_pending, is_running, is_accounted, claim_pending,
  enqueue_fish,
}

abbrev pub bit : Bool → ℕ
bit true = 1
bit false = 0

-- The fish with this index waits, where the first of the list has the index `start`.
unfoldable pub is_waiting : ℕ → List RunStatus → ℕ → Bool
is_waiting start [] index = false
is_waiting start (f ∷ fs) index =
    if nat_eq start index then is_pending f else is_waiting (suc start) fs index

-- What a claim of so many fish does.
pub record IsClaim (limit : ℕ) (before after : List RunStatus) (claimed : List ℕ) : Type 0 where
  pub same_length : length after ≡ length before
  pub starts : count_of is_running after ≡ count_of is_running before + length claimed
  pub leaves : count_of is_pending after + length claimed ≡ count_of is_pending before
  pub keeps : count_of is_accounted after ≡ count_of is_accounted before
  pub many : length claimed ≡ min limit (count_of is_pending before)

pub claim_pending-IsClaim :
    (limit start : ℕ) (fs : List RunStatus)
    → IsClaim limit fs (claim_pending limit start fs).0 (claim_pending limit start fs).1
unfolding claim_pending
claim_pending-IsClaim limit start [] = record {
  same_length = ground arith;
  starts = ground arith;
  leaves = ground arith;
  keeps = ground arith;
  many = ground arith;
}
claim_pending-IsClaim zero start (f ∷ fs) = record {
  same_length = ground arith;
  starts = ground arith;
  leaves = ground arith;
  keeps = ground arith;
  many = ground arith;
}
claim_pending-IsClaim (suc limit) start (f ∷ fs) =
    let h = claim_pending-IsClaim limit (suc start) fs in
    let g = claim_pending-IsClaim (suc limit) (suc start) fs in
    record {
      same_length = ground (arith, h, g);
      starts = ground (arith, h, g);
      leaves = ground (arith, h, g);
      keeps = ground (arith, h, g);
      many = ground (arith, h, g);
    }

not_waiting :
    (start : ℕ) (fs : List RunStatus) (index : ℕ)
    → index < start
    → is_waiting start fs index ≡ false
unfolding is_waiting
not_waiting start [] index h = refl
not_waiting start (f ∷ fs) index h = ground (arith, not_waiting (suc start) fs index)

-- A fish waits before a claim if it waits after it or is claimed, and not both.
pub claim_pending-waiting :
    (limit start : ℕ) (fs : List RunStatus) (index : ℕ)
    → bit (is_waiting start (claim_pending limit start fs).0 index)
        + count_of (nat_eq index) (claim_pending limit start fs).1
      ≡ bit (is_waiting start fs index)
unfolding claim_pending is_waiting
claim_pending-waiting limit start [] index = refl
claim_pending-waiting zero start (f ∷ fs) index = ground arith
claim_pending-waiting (suc limit) start (f ∷ fs) index = ground (
  arith,
  claim_pending-waiting limit (suc start) fs index,
  claim_pending-waiting (suc limit) (suc start) fs index,
  not_waiting (suc start) fs index,
)

abbrev pub is_fish_job : ℕ → Job → Bool
is_fish_job index (fish_job i) = nat_eq index i
is_fish_job index aggregate_job = false

abbrev pub is_aggregate_job : Job → Bool
is_aggregate_job aggregate_job = true
is_aggregate_job (fish_job i) = false

module _ (accepts : List Job → Job → Bool) where
  -- The loop queues each fish that was claimed at most as often as it was claimed.
  pub enqueue_fish-counts :
      (indexes : List ℕ) (jobs : List Job) (index : ℕ)
      → count_of (is_fish_job index) (enqueue_fish accepts indexes jobs).0
        ≤ count_of (is_fish_job index) jobs + count_of (nat_eq index) indexes
  unfolding enqueue_fish
  enqueue_fish-counts [] jobs index = omega arith
  enqueue_fish-counts (i ∷ is) jobs index = ground (
    arith,
    enqueue_fish-counts is (jobs ++ fish_job i ∷ []) index,
    count_of-append (is_fish_job index) jobs (fish_job i ∷ []),
  )

  pub enqueue_fish-aggregates :
      (indexes : List ℕ) (jobs : List Job)
      → count_of is_aggregate_job (enqueue_fish accepts indexes jobs).0
        ≡ count_of is_aggregate_job jobs
  unfolding enqueue_fish
  enqueue_fish-aggregates [] jobs = refl
  enqueue_fish-aggregates (i ∷ is) jobs = ground (
    arith,
    enqueue_fish-aggregates is (jobs ++ fish_job i ∷ []),
    count_of-append is_aggregate_job jobs (fish_job i ∷ []),
  )
