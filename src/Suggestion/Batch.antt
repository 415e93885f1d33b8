-- ===== src/Suggestion/Batch.antt =====
-- A batch of an index.
use thalamus_usecase_ssa.Prelude.{
  ℕ, ◌+◌, ◌-◌, ◌≤◌, ◌≡◌, refl, sym, ap, ◌∙◌, String, false, List, [], ◌∷◌, ◌++◌, ltb, length, take,
  drop, drop_append, arith,
}
use thalamus_usecase_ssa.Suggestion.{IndexKey}
use thalamus_usecase_ssa.Suggestion.Store.{Redis}
use thalamus_usecase_ssa.Suggestion.Listing.{Ranking}

pub ltb_no : (a b : ℕ) → ltb a b ≡ false → b ≤ a
ltb_no a b h = ground (arith, h)

pub length-none : {A : Type 0} (xs : List A) → length xs ≡ 0 → xs ≡ []
length-none [] h = refl
length-none (x ∷ xs) h = absurd (omega (arith, h))

-- What is read behind the ids that were read before.
pub zrevrange-batch :
    {S : Type 0} (redis : Redis S) (s : S) (ranking : Ranking redis s) (index : IndexKey) (size : ℕ)
    (before after : List String)
    → 1 ≤ size
    → before ++ after ≡ ranking.ranked index
    → ranking.zrevrange index (length before) (length before + size - 1) ≡ take size after
zrevrange-batch redis s ranking index size before after positive e =
    let width : length before + size - 1 + 1 - length before ≡ size = omega (arith, positive) in
    ranking.zrevrange_law index (length before) (length before + size - 1)
    ∙ ap (λ n. take n (drop (length before) (ranking.ranked index))) width
    ∙ ap (λ l. take size (drop (length before) l)) (sym e)
    ∙ ap (take size) (drop_append before after)
