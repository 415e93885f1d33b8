-- ===== src/Suggestion/Stats.antt =====
-- sweep.repository.ts: the statistics, over the index of all suggestions in batches.
use thalamus_usecase_ssa.Prelude.{
  ℕ, zero, suc, ◌+◌, ◌-◌, ◌≤◌, ◌<◌, ◌≡◌, refl, sym, ap, subst, ◌∙◌, String, Bool, true, false,
  Option, none, some, List, [], ◌∷◌, ◌++◌, append_assoc, append-nil, ltb, ltb→lt, nat_eq,
  nat_eq_iff, ◌==◌, string_Eq, ==_iff, if◌then◌else◌, length, length-append, take, drop, take-drop,
  take_all, drop_append, length-take_le, count_of, count_of-append, Bool-cases, Option-cases, inl,
  inr, arith,
}
use thalamus_usecase_ssa.Suggestion.{lookup, filled, legacy_index}
use thalamus_usecase_ssa.Suggestion.Store.{Redis}
use thalamus_usecase_ssa.Suggestion.Batch.{ltb_no, length-none, zrevrange-batch}
use thalamus_usecase_ssa.Suggestion.Listing.{Ranking, same_text}
pub mod Counts

abbrev pub legacy_index_scan_batch : ℕ
legacy_index_scan_batch = 500

pub record Stats : Type 0 where
  pub total_suggestions : ℕ
  pub pending : ℕ
  pub accepted : ℕ
  pub rejected : ℕ
  pub by_severity : List (String × ℕ)
  pub by_category : List (String × ℕ)

-- `counts[key] ?? 0`
abbrev pub count_at : List (String × ℕ) → String → ℕ
count_at [] key = 0
count_at ((k, n) ∷ counts) key = if k == key then n else count_at counts key

abbrev pub bump : String → List (String × ℕ) → List (String × ℕ)
bump key [] = (key, 1) ∷ []
bump key ((k, n) ∷ counts) = if k == key then (k, n + 1) ∷ counts else (k, n) ∷ bump key counts

abbrev pub bump_if : Option String → List (String × ℕ) → List (String × ℕ)
bump_if none counts = counts
bump_if (some key) counts = bump key counts

abbrev pub add_if : Bool → ℕ → ℕ
add_if b n = if b then n + 1 else n

module _ {S : Type 0} (redis : Redis S) (s : S) where
  abbrev pub flag_is : String → String → Bool
  flag_is text id = same_text (lookup (redis.hgetall s id) "accepted") text

  -- What a reply of the pipeline adds.
  abbrev pub count_row : String → Stats → Stats
  count_row id stats = record stats {
    accepted = add_if (flag_is "true" id) stats.accepted;
    rejected = add_if (flag_is "false" id) stats.rejected;
    by_severity = bump_if (filled (lookup (redis.hgetall s id) "severity")) stats.by_severity;
    by_category = bump_if (filled (lookup (redis.hgetall s id) "category")) stats.by_category;
  }

  abbrev pub count_rows : List String → Stats → Stats
  count_rows [] stats = stats
  count_rows (id ∷ ids) stats = count_rows ids (count_row id stats)

  module _ (ranking : Ranking redis s) where
    -- `forEachLegacyIndexBatch(visit)`, with what `visit` does to a value; `none` is fuel that did
    -- not suffice.
    unfoldable pub for_each_batch : {R : Type 0} → (List String → R → R) → ℕ → ℕ → R → Option R
    for_each_batch visit zero start r = none
    for_each_batch visit (suc fuel) start r =
        let ids = ranking.zrevrange legacy_index start (start + legacy_index_scan_batch - 1) in
        let rest = for_each_batch visit fuel (start + legacy_index_scan_batch) (visit ids r) in
        if nat_eq (length ids) 0
        then some r
        else if ltb (length ids) legacy_index_scan_batch
        then some (visit ids r)
        else rest

    -- `getStats()`; the size of the pending set is given.
    unfoldable pub get_stats : ℕ → ℕ → Option Stats
    get_stats fuel pending = for_each_batch count_rows fuel 0 (record {
      total_suggestions = ranking.zcard legacy_index;
      pending = pending;
      accepted = 0;
      rejected = 0;
      by_severity = [];
      by_category = [];
    })
