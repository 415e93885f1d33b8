-- ===== src/Suggestion/Stats/Counts.antt =====
-- The statistics count each row once.
use thalamus_usecase_ssa.Prelude.{
  ℕ, zero, suc, ◌+◌, ◌-◌, ◌<◌, ◌≡◌, refl, sym, ap, subst, ◌∙◌, String, Bool, true, false, Option,
  none, some, List, [], ◌∷◌, ◌++◌, append_assoc, append-nil, ltb, ltb→lt, nat_eq, nat_eq_iff, ◌==◌,
  string_Eq, ==_iff, if◌then◌else◌, length, length-append, take, drop, take-drop, take_all,
  length-take_le, count_of, Bool-cases, inl, inr, arith,
}
use thalamus_usecase_ssa.Suggestion.{lookup, filled, legacy_index}
use thalamus_usecase_ssa.Suggestion.Store.{Redis}
use thalamus_usecase_ssa.Suggestion.Batch.{ltb_no, length-none, zrevrange-batch}
use thalamus_usecase_ssa.Suggestion.Listing.{Ranking, same_text}
use thalamus_usecase_ssa.Suggestion.Stats.{
  Stats, count_at, bump, bump_if, flag_is, count_row, count_rows, for_each_batch, get_stats,
}

count_at-bump :
    (key v : String) (counts : List (String × ℕ))
    → count_at (bump key counts) v ≡ (if key == v then count_at counts v + 1 else count_at counts v)
count_at-bump key v [] = refl
count_at-bump key v ((k, n) ∷ counts) = elim (Bool-cases (k == key)) [
  | inl a ↦
      let same : (k == v) ≡ (key == v) = ap (λ x. x == v) ((==_iff k key).0 a) in
      elim (Bool-cases (key == v)) [ inl b ↦ rw (a, same, b) refl | inr b ↦ rw (a, same, b) refl ]
  | inr a ↦ elim (Bool-cases (k == v)) [
    | inl b ↦
        let apart : (key == v) ≡ false = elim (Bool-cases (key == v)) [
          | inl c ↦
              let wrong : (k == key) ≡ true =
                subst (λ x. (k == x) ≡ true) (sym ((==_iff key v).0 c)) b in
              cc
          | inr c ↦ c
        ] in
        rw (a, b, apart) refl
    | inr b ↦ rw (a, b) (count_at-bump key v counts)
  ]
]

bumped :
    (key : Option String) (v : String) (counts : List (String × ℕ)) (n : ℕ)
    → count_at (bump_if key counts) v + n
      ≡ count_at counts v + (if same_text key v then suc n else n)
bumped none v counts n = refl
bumped (some key) v counts n = elim (Bool-cases (key == v)) [
  | inl a ↦
      let more : count_at (bump key counts) v ≡ count_at counts v + 1 =
        count_at-bump key v counts ∙ rw a refl in
      rw a (omega (arith, more))
  | inr a ↦
      let same : count_at (bump key counts) v ≡ count_at counts v =
        count_at-bump key v counts ∙ rw a refl in
      rw a (omega (arith, same))
]

module _ {S : Type 0} (redis : Redis S) (s : S) where
  module _ (ranking : Ranking redis s) where
    count_rows-append :
        (xs ys : List String) (stats : Stats)
        → count_rows redis s (xs ++ ys) stats ≡ count_rows redis s ys (count_rows redis s xs stats)
    count_rows-append [] ys stats = refl
    count_rows-append (x ∷ xs) ys stats = count_rows-append xs ys (count_row redis s x stats)

    -- How often a severity, or a category, stands among the rows.
    abbrev pub field_is : String → String → String → Bool
    field_is name v id = same_text (filled (lookup (redis.hgetall s id) name)) v

    total_count :
        (ids : List String) (stats : Stats)
        → (count_rows redis s ids stats).total_suggestions ≡ stats.total_suggestions
    total_count [] stats = refl
    total_count (id ∷ ids) stats = total_count ids (count_row redis s id stats)

    accepted_count :
        (ids : List String) (stats : Stats)
        → (count_rows redis s ids stats).accepted
          ≡ stats.accepted + count_of (flag_is redis s "true") ids
    accepted_count [] stats = omega arith
    accepted_count (id ∷ ids) stats = elim (Bool-cases (flag_is redis s "true" id)) [
      | inl a ↦ accepted_count ids (count_row redis s id stats) ∙ rw a (omega arith)
      | inr a ↦ accepted_count ids (count_row redis s id stats) ∙ rw a refl
    ]

    rejected_count :
        (ids : List String) (stats : Stats)
        → (count_rows redis s ids stats).rejected
          ≡ stats.rejected + count_of (flag_is redis s "false") ids
    rejected_count [] stats = omega arith
    rejected_count (id ∷ ids) stats = elim (Bool-cases (flag_is redis s "false" id)) [
      | inl a ↦ rejected_count ids (count_row redis s id stats) ∙ rw a (omega arith)
      | inr a ↦ rejected_count ids (count_row redis s id stats) ∙ rw a refl
    ]

    severity_count :
        (v : String) (ids : List String) (stats : Stats)
        → count_at (count_rows redis s ids stats).by_severity v
          ≡ count_at stats.by_severity v + count_of (field_is "severity" v) ids
    severity_count v [] stats = omega arith
    severity_count v (id ∷ ids) stats =
        severity_count v ids (count_row redis s id stats)
        ∙ bumped (filled (lookup (redis.hgetall s id) "severity")) v stats.by_severity
            (count_of (field_is "severity" v) ids)

    category_count :
        (v : String) (ids : List String) (stats : Stats)
        → count_at (count_rows redis s ids stats).by_category v
          ≡ count_at stats.by_category v + count_of (field_is "category" v) ids
    category_count v [] stats = omega arith
    category_count v (id ∷ ids) stats =
        category_count v ids (count_row redis s id stats)
        ∙ bumped (filled (lookup (redis.hgetall s id) "category")) v stats.by_category
            (count_of (field_is "category" v) ids)

    -- The numbers are those of the rows of the index.
    pub record AreCounts (stats : Stats) : Type 0 where
      pub total : stats.total_suggestions ≡ length (ranking.ranked legacy_index)
      pub accepted :
          stats.accepted ≡ count_of (flag_is redis s "true") (ranking.ranked legacy_index)
      pub rejected :
          stats.rejected ≡ count_of (flag_is redis s "false") (ranking.ranked legacy_index)
      pub severities :
          (v : String)
          → count_at stats.by_severity v
            ≡ count_of (field_is "severity" v) (ranking.ranked legacy_index)
      pub categories :
          (v : String)
          → count_at stats.by_category v
            ≡ count_of (field_is "category" v) (ranking.ranked legacy_index)

    -- The batches are the index, each id once and in its order.
    for_each_batch_all :
        (fuel : ℕ) (before after : List String) (stats : Stats)
        → before ++ after ≡ ranking.ranked legacy_index
        → length after < fuel
        → for_each_batch redis s ranking
            (count_rows redis s)
            fuel
            (length before)
            (count_rows redis s before stats)
          ≡ some (count_rows redis s (ranking.ranked legacy_index) stats)
    unfolding for_each_batch
    for_each_batch_all zero before after stats e room = absurd (omega (arith, room))
    for_each_batch_all (suc fuel) before after stats e room =
        let ids = ranking.zrevrange legacy_index (length before) (length before + 500 - 1) in
        let batch = zrevrange-batch redis s ranking legacy_index 500 before after (omega arith) e in
        let sizes : length after ≡ length (take 500 after) + length (drop 500 after) =
          sym (ap length (take-drop 500 after)) ∙ length-append (take 500 after) (drop 500 after) in
        let bound = length-take_le 500 after in
        let same_size = ap length batch in
        let whole : length ids < 500 → ids ≡ after =
          λ h. batch ∙ take_all 500 after (omega (arith, h, same_size)) in
        let counted = sym (count_rows-append before ids stats) in
        elim (Bool-cases (nat_eq (length ids) 0)) [
          | inl a ↦
              let none_left = (nat_eq_iff (length ids) 0).0 a in
              rw (for_each_batch, a)
                (ap (λ l. some (count_rows redis s l stats))
                  (sym (append-nil before)
                    ∙ ap (λ l. before ++ l)
                        (sym (length-none ids none_left) ∙ whole (omega (arith, none_left)))
                    ∙ e))
          | inr a ↦ elim (Bool-cases (ltb (length ids) 500)) [
            | inl b ↦
                rw (for_each_batch, a, b)
                  (ap some (
                    counted
                    ∙ ap (λ l. count_rows redis s l stats)
                        (ap (λ l. before ++ l) (whole (ltb→lt (length ids) 500 b)) ∙ e)))
            | inr b ↦
                let full : length (take 500 after) ≡ 500 =
                  omega (arith, ltb_no (length ids) 500 b, bound, same_size) in
                let start : length before + 500 ≡ length (before ++ take 500 after) =
                  omega (arith, length-append before (take 500 after), full) in
                rw (for_each_batch, a, b)
                  (ap
                      (λ n.
                        for_each_batch redis s ranking (count_rows redis s) fuel n
                          (count_rows redis s ids (count_rows redis s before stats)))
                      start
                    ∙ ap
                        (for_each_batch redis s ranking (count_rows redis s) fuel
                          (length (before ++ take 500 after)))
                        (counted ∙ ap (λ l. count_rows redis s (before ++ l) stats) batch)
                    ∙ for_each_batch_all fuel (before ++ take 500 after) (drop 500 after) stats
                        (append_assoc before (take 500 after) (drop 500 after)
                          ∙ ap (λ l. before ++ l) (take-drop 500 after)
                          ∙ e)
                        (omega (arith, sizes, full, room)))
          ]
        ]

    -- The statistics are the numbers of the index of all suggestions: how many there are, are accepted
    -- and are rejected, and how many have each severity and each category, each counted once. The
    -- fuel suffices when it is more than the ids of the index.
    pub get_stats-AreCounts :
        (fuel pending : ℕ)
        → length (ranking.ranked legacy_index) < fuel
        → (stats : Stats) × (get_stats redis s ranking fuel pending ≡ some stats) × AreCounts stats
    unfolding get_stats
    get_stats-AreCounts fuel pending room =
        let empty : Stats = record {
          total_suggestions = ranking.zcard legacy_index;
          pending = pending;
          accepted = 0;
          rejected = 0;
          by_severity = [];
          by_category = [];
        } in
        let ids = ranking.ranked legacy_index in
        (
          count_rows redis s ids empty,
          for_each_batch_all fuel [] ids empty refl room,
          record {
            total = total_count ids empty ∙ ranking.zcard_law legacy_index;
            accepted = accepted_count ids empty ∙ omega arith;
            rejected = rejected_count ids empty ∙ omega arith;
            severities = λ v. severity_count v ids empty ∙ omega arith;
            categories = λ v. category_count v ids empty ∙ omega arith;
          },
        )
