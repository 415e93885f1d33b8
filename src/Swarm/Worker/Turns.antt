-- ===== src/Swarm/Worker/Turns.antt =====
-- packages/sweep/src/jobs/workers/swarm-fish.worker.ts: what the turns of a fish come to.
use thalamus_usecase_ssa.Prelude.{
  ℕ, zero, suc, ◌+◌, ◌≤◌, ◌<◌, ◌≡◌, ◌≢◌, subst, nat_eq, Bool-cases, inl, inr, refl, Bool, true,
  false, Option, none, some, if◌then◌else◌, arith,
}
use thalamus_usecase_ssa.Swarm.Worker.{Runner, sequential, dag, ends, drain_turns, drain_fish_turns}

-- What an answered turn says where it ends the run, and where it does not: one runner reads the
-- answer, the other whether the kind plays a single turn.
abbrev pub Ended : Runner → Option Bool → Type 0
Ended sequential answer = answer ≡ some true
Ended (dag single_turn) answer = (answer ≢ none) × (single_turn ≡ true)

abbrev pub Continued : Runner → Option Bool → Type 0
Continued sequential answer = answer ≡ some false
Continued (dag single_turn) answer = (answer ≢ none) × (single_turn ≡ false)

abbrev AllContinued : Runner → (ℕ → Option Bool) → ℕ → ℕ → Type 0
AllContinued runner turn start stop =
    (index : ℕ) → start ≤ index → index < stop → Continued runner (turn index)

-- What the turns from `start` on and before `stop` come to.
pub data IsDrained (runner : Runner) (turn : ℕ → Option Bool) (start stop : ℕ)
    : Option (ℕ × Bool) → Type 0 where
  ended_by :
      (last : ℕ)
      → start ≤ last
      → last < stop
      → AllContinued runner turn start last
      → Ended runner (turn last)
      → IsDrained runner turn start stop (some (last + 1, true))
  all_played :
      (played : ℕ)
      → played ≡ stop
      → AllContinued runner turn start stop
      → IsDrained runner turn start stop (some (played, false))
  broken_by :
      (last : ℕ)
      → start ≤ last
      → last < stop
      → AllContinued runner turn start last
      → turn last ≡ none
      → IsDrained runner turn start stop none

module _ (runner : Runner) (turn : ℕ → Option Bool) (index stop : ℕ) where
  same_index : (i : ℕ) → nat_eq index i ≡ true → index ≡ i
  same_index i h = ground (arith, h)

  one_more :
      (last : ℕ)
      → Continued runner (turn index)
      → AllContinued runner turn (index + 1) last
      → AllContinued runner turn index last
  one_more last c all i low high = elim (Bool-cases (nat_eq index i)) [
    | inl same ↦ subst (λ k. Continued runner (turn k)) (same_index i same) c
    | inr differ ↦ all i (ground (arith, differ)) high
  ]

  Continued-IsDrained :
      (r : Option (ℕ × Bool))
      → Continued runner (turn index)
      → IsDrained runner turn (index + 1) stop r
      → IsDrained runner turn index stop r
  Continued-IsDrained _ c (ended_by last low high all e) =
      ended_by last (omega arith) high (one_more last c all) e
  Continued-IsDrained _ c (all_played played e all) = all_played played e (one_more stop c all)
  Continued-IsDrained _ c (broken_by last low high all e) =
      broken_by last (omega arith) high (one_more last c all) e

none_before :
    (runner : Runner) (turn : ℕ → Option Bool) (index : ℕ) → AllContinued runner turn index index
none_before runner turn index i low high = absurd (omega arith)

answer-IsDrained :
    (runner : Runner) (turn : ℕ → Option Bool) (index stop : ℕ) (answer : Option Bool)
    (rest : Option (ℕ × Bool))
    → turn index ≡ answer
    → index < stop
    → IsDrained runner turn (index + 1) stop rest
    → IsDrained runner turn index stop (elim answer [
      | none ↦ none
      | some terminal ↦ if ends runner terminal then some (index + 1, true) else rest
    ])
answer-IsDrained runner turn index stop none rest e h d =
    broken_by index (omega arith) h (none_before runner turn index) e
answer-IsDrained sequential turn index stop (some true) rest e h d =
    ended_by index (omega arith) h (none_before sequential turn index) e
answer-IsDrained sequential turn index stop (some false) rest e h d =
    Continued-IsDrained sequential turn index stop rest e d
answer-IsDrained (dag true) turn index stop (some b) rest e h d =
    ended_by index (omega arith) h (none_before (dag true) turn index) ((λ n. cc), refl)
answer-IsDrained (dag false) turn index stop (some b) rest e h d =
    Continued-IsDrained (dag false) turn index stop rest ((λ n. cc), refl) d

drain_turns-IsDrained :
    (runner : Runner) (turn : ℕ → Option Bool) (left index stop : ℕ)
    → left + index ≡ stop
    → IsDrained runner turn index stop (drain_turns runner turn left index)
unfolding drain_turns
drain_turns-IsDrained runner turn zero index stop e =
    all_played index (omega arith) (λ i low high. absurd (omega arith))
drain_turns-IsDrained runner turn (suc left) index stop e =
    answer-IsDrained runner turn index stop (turn index) (drain_turns runner turn left (index + 1))
      refl (omega arith) (drain_turns-IsDrained runner turn left (index + 1) stop (omega arith))

-- The turns of a fish are played up to the first that ends the run, whose number and `true` are the
-- result, or to the first that throws; where there is neither, all that may be played are, and
-- the result is their number and `false`. A turn ends a sequential run by its answer, and the other
-- kind of run where it plays a single turn.
pub drain_fish_turns-IsDrained :
    (runner : Runner) (turn : ℕ → Option Bool) (max_turns : ℕ)
    → IsDrained runner turn 0 max_turns (drain_fish_turns runner turn max_turns)
drain_fish_turns-IsDrained runner turn max_turns =
    drain_turns-IsDrained runner turn max_turns 0 max_turns (omega arith)
