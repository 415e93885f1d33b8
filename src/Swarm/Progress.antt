-- ===== src/Swarm/Progress.antt =====
-- What a report of a fish brings about, when the queue takes every job.
use thalamus_usecase_ssa.Prelude.{
  ℕ, ◌+◌, min, ◌<◌, ◌≤◌, ◌≡◌, ◌≢◌, ◌↔◌, refl, sym, ap, ◌∙◌, Bool, true, false, List, [], ◌∷◌, ◌++◌,
  map, ltb, nat_eq, count_of, count_of-append, append_assoc, append-nil, arith, ◌⊎◌, inl, inr,
  Bool-cases,
}
use thalamus_usecase_ssa.Swarm.{
  Job, fish_job, aggregate_job, Swarm, Answer, threw, answered, is_pending, is_running,
  is_accounted, claim_pending, enqueue_fish, read_positive_int, open_slots, claim_fish,
  activate_pending_fish, enqueue_aggregate, account, on_fish_complete,
}
use thalamus_usecase_ssa.Swarm.Claim.{
  bit, is_waiting, claim_pending-IsClaim, claim_pending-waiting, is_fish_job, is_aggregate_job,
  enqueue_fish-aggregates,
}

-- No fish waits while there is a free slot.
abbrev pub IsFull : Swarm → Type 0
IsFull s =
    (count_of is_pending s.fish ≡ 0)
    ⊎ (read_positive_int s.fish_concurrency 1 ≤ count_of is_running s.fish)

-- Fish only move from waiting to running, each with a job of its own.
record IsMove (s t : Swarm) : Type 0 where
  moved :
      count_of is_running t.fish + count_of is_pending t.fish
      ≡ count_of is_running s.fish + count_of is_pending s.fish
  kept : count_of is_accounted t.fish ≡ count_of is_accounted s.fish
  queued :
      (index : ℕ)
      → count_of (is_fish_job index) t.jobs + bit (is_waiting 0 t.fish index)
        ≡ count_of (is_fish_job index) s.jobs + bit (is_waiting 0 s.fish index)

record IsActivated (s : Swarm) (r : Swarm × Answer ℕ) : Type 0 where
  move : IsMove s r.0
  full : IsFull r.0
  answer : r.1 ≢ threw
  aggregates : count_of is_aggregate_job r.0.jobs ≡ count_of is_aggregate_job s.jobs
  same_gate : r.0.is_claimed ≡ s.is_claimed
  same_size : r.0.size ≡ s.size

-- A report: fish only move from waiting to running, each with a job of its own; none waits while a
-- slot is free; no call throws; if all fish are accounted for, the gate is claimed; the aggregate is
-- queued once if this report claimed the gate, and the caller is told exactly then that it was.
pub record IsReport (s : Swarm) (r : Swarm × Answer Bool) : Type 0 where
  pub moved :
      count_of is_running r.0.fish + count_of is_pending r.0.fish
      ≡ count_of is_running s.fish + count_of is_pending s.fish
  pub kept : count_of is_accounted r.0.fish ≡ count_of is_accounted s.fish
  pub queued :
      (index : ℕ)
      → count_of (is_fish_job index) r.0.jobs + bit (is_waiting 0 r.0.fish index)
        ≡ count_of (is_fish_job index) s.jobs + bit (is_waiting 0 s.fish index)
  pub full : IsFull r.0
  pub answer : r.1 ≢ threw
  pub aggregates :
      count_of is_aggregate_job r.0.jobs + bit s.is_claimed
      ≡ count_of is_aggregate_job s.jobs + bit r.0.is_claimed
  pub aggregated : s.size ≤ count_of is_accounted s.fish → r.0.is_claimed ≡ true
  pub waits : count_of is_accounted s.fish < s.size → r.0.is_claimed ≡ s.is_claimed
  pub told : (r.1 ≡ answered true) ↔ (s.is_claimed ≡ false) × (r.0.is_claimed ≡ true)

count_fish_jobs :
    (indexes : List ℕ) (index : ℕ)
    → count_of (is_fish_job index) (map fish_job indexes) ≡ count_of (nat_eq index) indexes
count_fish_jobs [] index = refl
count_fish_jobs (i ∷ is) index = ground (arith, count_fish_jobs is index)

module _ (accepts : List Job → Job → Bool)
    (works : (jobs : List Job) (job : Job) → accepts jobs job ≡ true) where
  enqueue_fish_all :
      (indexes : List ℕ) (jobs : List Job)
      → enqueue_fish accepts indexes jobs ≡ (jobs ++ map fish_job indexes, true)
  unfolding enqueue_fish
  enqueue_fish_all [] jobs = ap (λ l. (l, true)) (sym (append-nil jobs))
  enqueue_fish_all (i ∷ is) jobs = rw (works jobs (fish_job i)) (
      enqueue_fish_all is (jobs ++ fish_job i ∷ [])
      ∙ ap (λ l. (l, true)) (append_assoc jobs (fish_job i ∷ []) (map fish_job is)))

  claim_fish-IsActivated :
      (s : Swarm)
      → 0 < open_slots s
      → IsActivated s (claim_fish accepts (min (open_slots s) (count_of is_pending s.fish)) s)
  unfolding claim_fish
  claim_fish-IsActivated s free =
      let limit = min (open_slots s) (count_of is_pending s.fish) in
      let c = claim_pending-IsClaim limit 0 s.fish in
      let claimed = (claim_pending limit 0 s.fish).1 in
      let q = enqueue_fish_all claimed s.jobs in
      record {
        move = record {
          moved = omega (arith, c.starts, c.leaves);
          kept = c.keeps;
          queued = λ i. rw q (
              omega (
                arith,
                count_of-append (is_fish_job i) s.jobs (map fish_job claimed),
                count_fish_jobs claimed i,
                claim_pending-waiting limit 0 s.fish i,
              ));
        };
        full = ground (arith, c);
        answer = ground (arith, q);
        aggregates = enqueue_fish-aggregates accepts claimed s.jobs;
        same_gate = refl;
        same_size = refl;
      }

  idle-IsActivated : (s : Swarm) → IsFull s → IsActivated s (s, answered 0)
  idle-IsActivated s full = record {
    move = record { moved = refl; kept = refl; queued = λ i. refl };
    full = full;
    answer = λ e. cc;
    aggregates = refl;
    same_gate = refl;
    same_size = refl;
  }

  activate-IsActivated : (s : Swarm) → IsActivated s (activate_pending_fish accepts s)
  unfolding activate_pending_fish
  activate-IsActivated s = elim (Bool-cases (ltb (count_of is_pending s.fish) 1)) [
    | inl a ↦ rw a (idle-IsActivated s (inl (ground (arith, a))))
    | inr a ↦ elim (Bool-cases (ltb (open_slots s) 1)) [
      | inl b ↦ rw (a, b) (idle-IsActivated s (inr (ground (arith, b))))
      | inr b ↦ rw (a, b) (claim_fish-IsActivated s (ground (arith, b)))
    ]
  ]

  account-IsReport :
      (s : Swarm) (r : Swarm × Answer ℕ) → IsActivated s r → IsReport s (account accepts r)
  unfolding account enqueue_aggregate
  account-IsReport s (t, threw) h = absurd (h.answer refl)
  account-IsReport s (t, answered n) h = record {
    moved = ground (arith, h.move.moved);
    kept = ground (arith, h.move.kept);
    queued = λ i.
        ground
          (arith, h.move.queued i, count_of-append (is_fish_job i) t.jobs (aggregate_job ∷ []));
    full = ground (arith, h.full);
    answer = ground (arith, works t.jobs aggregate_job);
    aggregates = ground (
      arith,
      h.aggregates,
      h.same_gate,
      works t.jobs aggregate_job,
      count_of-append is_aggregate_job t.jobs (aggregate_job ∷ []),
    );
    aggregated = ground (arith, h.move.kept, h.same_size, works t.jobs aggregate_job);
    waits = λ few. ground (arith, few, h.move.kept, h.same_gate, h.same_size);
    told = (
      ground (arith, h.same_gate, works t.jobs aggregate_job),
      ground (arith, h.same_gate, works t.jobs aggregate_job),
    );
  }

  -- Where the queue takes every job, a report of a fish starts fish until no slot is free or none
  -- waits, and puts each that it starts in the queue once; the fish that are accounted for stay
  -- so; if all are, the gate is claimed, and else it stays as it was; the aggregate gets into the queue once if this report
  -- claimed the gate and not otherwise; no call throws; and the answer says whether it did.
  pub on_fish_complete-IsReport : (s : Swarm) → IsReport s (on_fish_complete accepts s)
  unfolding on_fish_complete
  on_fish_complete-IsReport s =
      account-IsReport s (activate_pending_fish accepts s) (activate-IsActivated s)
