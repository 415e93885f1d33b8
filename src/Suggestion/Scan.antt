-- ===== src/Suggestion/Scan.antt =====
-- A list is a page of the rows that match.
use thalamus_usecase_ssa.Prelude.{
  ℕ, zero, suc, ◌+◌, ◌-◌, ◌<◌, ◌≡◌, refl, sym, ap, ◌∙◌, String, Option, some, List, [], ◌∷◌, ◌++◌,
  append_assoc, append-nil, ltb, nat_eq, nat_eq_iff, ltb→lt, length, length-append, take, drop,
  take-drop, take_all, length-take_le, keep, keep-append, page_of, page_of_none, page_snoc,
  Bool-cases, Option-cases, inl, inr, arith,
}
use thalamus_usecase_ssa.Suggestion.{IndexKey, Schema, Platform}
use thalamus_usecase_ssa.Suggestion.Store.{Redis, SuggestionRow, to_row}
use thalamus_usecase_ssa.Suggestion.Batch.{ltb_no, length-none, zrevrange-batch}
use thalamus_usecase_ssa.Suggestion.Listing.{
  Ranking, ListFilters, matches_list_filters, take_rows, rows_by_ids, scan_from,
  scan_filtered_index,
}

module _ (platform : Platform) where
  -- What was found so far is the page of the rows that matched.
  abbrev found_of : ℕ → ℕ → List SuggestionRow → List SuggestionRow × ℕ
  found_of offset limit rows = (page_of offset limit rows, length rows)

  take_rows_page :
      (filters : ListFilters) (offset limit : ℕ) (rows before : List SuggestionRow)
      → take_rows platform filters offset limit rows (found_of offset limit before)
        ≡ found_of offset limit (before ++ keep (matches_list_filters platform filters) rows)
  take_rows_page filters offset limit [] before =
      ap (found_of offset limit) (sym (append-nil before))
  take_rows_page filters offset limit (row ∷ rows) before =
      elim (Bool-cases (matches_list_filters platform filters row)) [
        | inr a ↦ rw a (take_rows_page filters offset limit rows before)
        | inl a ↦
            let kept = keep (matches_list_filters platform filters) rows in
            let more : length before + 1 ≡ length (before ++ row ∷ []) =
              omega (arith, length-append before (row ∷ [])) in
            let step : take_rows platform filters offset limit (row ∷ rows)
                  (found_of offset limit before)
                ≡ take_rows platform filters offset limit rows
                    (found_of offset limit (before ++ row ∷ [])) =
              rw a (
                ap (λ r. take_rows platform filters offset limit rows (r, length before + 1))
                  (sym (page_snoc offset limit before row))
                ∙ ap
                    (λ n.
                      take_rows platform filters offset limit rows
                        (page_of offset limit (before ++ row ∷ []), n))
                    more) in
            step
            ∙ take_rows_page filters offset limit rows (before ++ row ∷ [])
            ∙ ap (found_of offset limit) (append_assoc before (row ∷ []) kept ∙ rw a refl)
      ]

  module _ (schema : Option Schema) (domain : String) {S : Type 0} (redis : Redis S) (s : S) where
    rows_by_ids-append :
        (xs ys : List String)
        → rows_by_ids platform schema domain redis s (xs ++ ys)
          ≡ rows_by_ids platform schema domain redis s xs
            ++ rows_by_ids platform schema domain redis s ys
    rows_by_ids-append [] ys = refl
    rows_by_ids-append (x ∷ xs) ys =
        elim (Option-cases (to_row platform schema domain (redis.hgetall s x))) [
          | inl a ↦ rw (rows_by_ids, a) (rows_by_ids-append xs ys)
          | inr (row, a) ↦ rw (rows_by_ids, a) (ap (λ l. row ∷ l) (rows_by_ids-append xs ys))
        ]

    -- The rows of some ids that match.
    abbrev pub matching : ListFilters → List String → List SuggestionRow
    matching filters ids =
        keep (matches_list_filters platform filters)
          (rows_by_ids platform schema domain redis s ids)

    matching-append :
        (filters : ListFilters) (xs ys : List String)
        → matching filters (xs ++ ys) ≡ matching filters xs ++ matching filters ys
    matching-append filters xs ys =
        ap (keep (matches_list_filters platform filters)) (rows_by_ids-append xs ys)
        ∙ keep-append (matches_list_filters platform filters)
            (rows_by_ids platform schema domain redis s xs)
            (rows_by_ids platform schema domain redis s ys)

    module _ (ranking : Ranking redis s) (index : IndexKey) (filters : ListFilters)
        (offset limit : ℕ) where
      scan_from_exact :
          (fuel : ℕ) (before after : List String)
          → before ++ after ≡ ranking.ranked index
          → length after < fuel
          → scan_from platform schema domain redis s ranking fuel index filters offset limit
              (length before)
              (found_of offset limit (matching filters before))
            ≡ some (found_of offset limit (matching filters (ranking.ranked index)))
      unfolding scan_from
      scan_from_exact zero before after e room = absurd (omega (arith, room))
      scan_from_exact (suc fuel) before after e room =
          let ids = ranking.zrevrange index (length before) (length before + 100 - 1) in
          let batch = zrevrange-batch redis s ranking index 100 before after (omega arith) e in
          let found =
            take_rows_page filters offset limit (rows_by_ids platform schema domain redis s ids)
              (matching filters before)
            ∙ ap (found_of offset limit) (sym (matching-append filters before ids)) in
          let rest = scan_from_exact fuel (before ++ take 100 after) (drop 100 after) (
            append_assoc before (take 100 after) (drop 100 after)
            ∙ ap (λ l. before ++ l) (take-drop 100 after)
            ∙ e) in
          let sizes : length after ≡ length (take 100 after) + length (drop 100 after) =
            sym (ap length (take-drop 100 after))
            ∙ length-append (take 100 after) (drop 100 after) in
          let bound = length-take_le 100 after in
          let same_size = ap length batch in
          let whole : length ids < 100 → ids ≡ after =
            λ h. batch ∙ take_all 100 after (omega (arith, h, same_size)) in
          elim (Bool-cases (nat_eq (length ids) 0)) [
            | inl a ↦
                rw (scan_from, a)
                  (ap (λ l. some (found_of offset limit (matching filters l)))
                    (sym (append-nil before)
                      ∙ ap (λ l. before ++ l)
                          (sym (length-none ids ((nat_eq_iff (length ids) 0).0 a))
                            ∙ whole (omega (arith, (nat_eq_iff (length ids) 0).0 a)))
                      ∙ e))
            | inr a ↦ elim (Bool-cases (ltb (length ids) 100)) [
              | inl b ↦
                  rw (scan_from, a, b)
                    (ap some (
                      found
                      ∙ ap (λ l. found_of offset limit (matching filters l))
                          (ap (λ l. before ++ l) (whole (ltb→lt (length ids) 100 b)) ∙ e)))
              | inr b ↦
                  let full : length (take 100 after) ≡ 100 =
                    omega (arith, ltb_no (length ids) 100 b, bound, same_size) in
                  let start : length before + 100 ≡ length (before ++ take 100 after) =
                    omega (arith, length-append before (take 100 after), full) in
                  rw (scan_from, a, b)
                    (ap
                        (λ n.
                          scan_from platform schema domain redis s ranking fuel index filters offset
                            limit n
                            (take_rows platform filters offset limit
                              (rows_by_ids platform schema domain redis s ids)
                              (found_of offset limit (matching filters before))))
                        start
                      ∙ ap
                          (scan_from platform schema domain redis s ranking fuel index filters
                            offset limit (length (before ++ take 100 after)))
                          (found
                            ∙ ap (λ l. found_of offset limit (matching filters (before ++ l)))
                                batch)
                      ∙ rest (omega (arith, sizes, full, room)))
            ]
          ]

      -- The scan of an index goes through it in batches, and its fuel suffices when there is more of
      -- it than ids in the index: the rows are the page, and the total is the number, of the rows of
      -- the index that match the filters.
      pub scan_filtered_index_exact :
          (fuel : ℕ)
          → length (ranking.ranked index) < fuel
          → scan_filtered_index platform schema domain redis s ranking fuel index filters offset
              limit
            ≡ some (
              page_of offset limit (matching filters (ranking.ranked index)),
              length (matching filters (ranking.ranked index)),
            )
      unfolding scan_filtered_index
      scan_filtered_index_exact fuel room =
          ap
            (λ rows.
              scan_from platform schema domain redis s ranking fuel index filters offset limit 0
                (rows, 0))
            (sym (page_of_none offset limit))
          ∙ scan_from_exact fuel [] (ranking.ranked index) refl room
