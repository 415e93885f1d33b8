-- ===== src/Suggestion/Page.antt =====
-- A list is a page of the rows that match, whichever index it reads.
use thalamus_usecase_ssa.Prelude.{
  ℕ, zero, suc, ◌+◌, ◌-◌, ◌*◌, ◌≤◌, ◌<◌, ◌≡◌, max, refl, sym, ap, subst, ◌∙◌, String, true, false,
  Option, none, some, List, [], ◌∷◌, string_Eq, length, take, drop, has, All, All-of_has, page_of,
  Option-cases, inl, inr, arith,
}
use thalamus_usecase_ssa.Suggestion.{Scope, IndexKey, Schema, Platform}
use thalamus_usecase_ssa.Suggestion.Store.{Redis, SuggestionRow, to_row}
use thalamus_usecase_ssa.Suggestion.Kept.{IsKept}
use thalamus_usecase_ssa.Suggestion.Listing.{
  Ranking, ListFilters, scope_from_reviewed, direct_list_index, smallest_candidate_index,
  matches_list_filters, rows_by_ids, list,
}
use thalamus_usecase_ssa.Suggestion.Exact.{
  IsFaithful, is_match, direct_list_index_exact, smallest_candidate_index_complete,
}
use thalamus_usecase_ssa.Suggestion.Scan.{matching, scan_filtered_index_exact}

module _ (platform : Platform) (schema : Option Schema) (domain : String) {S : Type 0}
    (redis : Redis S) (s : S) (bound : ℕ) (kept : IsKept platform redis bound s)
    (faithful : IsFaithful platform schema domain) (filters : ListFilters) where
  abbrev scope : Scope
  scope = scope_from_reviewed filters.reviewed_is

  -- The ids whose rows match.
  abbrev AreMatches : List String → Type 0
  AreMatches ids =
      All (λ id. is_match platform schema domain filters (redis.hgetall s id) ≡ true) ids

  abbrev rows_of : List String → List SuggestionRow
  rows_of ids = matching platform schema domain redis s filters ids

  is_match_rows :
      (id : String)
      → is_match platform schema domain filters (redis.hgetall s id) ≡ true
      → (row : SuggestionRow) × ((ids : List String) → rows_of (id ∷ ids) ≡ row ∷ rows_of ids)
  is_match_rows id h = elim (Option-cases (to_row platform schema domain (redis.hgetall s id))) [
    | inl a ↦ let wrong : false ≡ true = rw (is_match, a) at h in cc
    | inr (row, a) ↦
        let good : matches_list_filters platform filters row ≡ true = rw (is_match, a) at h in
        (row, λ ids. rw (rows_by_ids, a, good) refl)
  ]

  rows_of-take :
      (limit : ℕ) (ids : List String)
      → AreMatches ids
      → rows_of (take limit ids) ≡ take limit (rows_of ids)
  rows_of-take zero ids good = refl
  rows_of-take (suc n) [] good = refl
  rows_of-take (suc n) (id ∷ ids) good =
      let (row, same) = is_match_rows id good.0 in
      same (take n ids)
      ∙ ap (λ l. row ∷ l) (rows_of-take n ids good.1)
      ∙ ap (take (suc n)) (sym (same ids))

  rows_of-drop :
      (offset : ℕ) (ids : List String)
      → AreMatches ids
      → (rows_of (drop offset ids) ≡ drop offset (rows_of ids)) × AreMatches (drop offset ids)
  rows_of-drop zero ids good = (refl, good)
  rows_of-drop (suc n) [] good = (refl, good)
  rows_of-drop (suc n) (id ∷ ids) good =
      let (row, same) = is_match_rows id good.0 in
      let (rest, still) = rows_of-drop n ids good.1 in
      (rest ∙ ap (drop (suc n)) (sym (same ids)), still)

  length-rows_of : (ids : List String) → AreMatches ids → length (rows_of ids) ≡ length ids
  length-rows_of [] good = refl
  length-rows_of (id ∷ ids) good =
      let (row, same) = is_match_rows id good.0 in
      ap length (same ids) ∙ omega (arith, length-rows_of ids good.1)

  module _ (ranking : Ranking redis s) where
    -- The index that the list reads.
    abbrev pub index_of : IndexKey
    index_of = elim (direct_list_index scope filters.severity_is filters.category_is) [
      | none ↦ smallest_candidate_index ranking.zcard scope filters.severity_is filters.category_is
      | some k ↦ k
    ]

    -- A page of the rows that match, which are all in the index.
    pub record IsPage (page limit : ℕ) (found : Option (List SuggestionRow × ℕ)) : Type 0 where
      pub rows :
          found
          ≡ some (
            page_of ((page - 1) * limit) limit (rows_of (ranking.ranked index_of)),
            length (rows_of (ranking.ranked index_of)),
          )
      pub complete :
          (id : String)
          → is_match platform schema domain filters (redis.hgetall s id) ≡ true
          → has (ranking.ranked index_of) id ≡ true

    abbrev counted : List SuggestionRow → ℕ → List SuggestionRow × ℕ
    counted rows total = (rows, total)

    direct_page :
        (offset limit : ℕ) (k : IndexKey)
        → direct_list_index scope filters.severity_is filters.category_is ≡ some k
        → 1 ≤ limit
        → counted (rows_of (ranking.zrevrange k offset (offset + limit - 1))) (ranking.zcard k)
          ≡ counted
              (page_of offset limit (rows_of (ranking.ranked k)))
              (length (rows_of (ranking.ranked k)))
    direct_page offset limit k a positive =
        let good : AreMatches (ranking.ranked k) =
          All-of_has (λ id. is_match platform schema domain filters (redis.hgetall s id) ≡ true)
            (ranking.ranked k)
            (λ id h.
              sym (
                direct_list_index_exact platform schema domain redis s bound kept faithful filters k
                  a id)
              ∙ sym (ranking.ranked_law k id)
              ∙ h) in
        let (dropped, still) = rows_of-drop offset (ranking.ranked k) good in
        let size : offset + limit - 1 + 1 - offset ≡ limit = omega (arith, positive) in
        let ids : ranking.zrevrange k offset (offset + limit - 1)
            ≡ take limit (drop offset (ranking.ranked k)) =
          ranking.zrevrange_law k offset (offset + limit - 1)
          ∙ ap (λ n. take n (drop offset (ranking.ranked k))) size in
        let rows : rows_of (ranking.zrevrange k offset (offset + limit - 1))
            ≡ page_of offset limit (rows_of (ranking.ranked k)) =
          ap rows_of ids
          ∙ rows_of-take limit (drop offset (ranking.ranked k)) still
          ∙ ap (take limit) dropped in
        let total : ranking.zcard k ≡ length (rows_of (ranking.ranked k)) =
          ranking.zcard_law k ∙ sym (length-rows_of (ranking.ranked k) good) in
        ap (λ l. counted l (ranking.zcard k)) rows
        ∙ ap (counted (page_of offset limit (rows_of (ranking.ranked k)))) total

    abbrev page_number : Option ℕ → ℕ
    page_number page = max 1 (elim page [ none ↦ 1 | some n ↦ n ])

    abbrev page_limit : Option ℕ → ℕ
    page_limit limit = max 1 (elim limit [ none ↦ 20 | some n ↦ n ])

    -- In a store whose indexes agree with its rows, and with a schema that gives severity and category
    -- back as they are stored, a list reads an index that has every id whose row matches the filters.
    -- Its rows are the page that was asked for, and its total the number, of the rows of that index
    -- that match, whether the index is read directly or scanned; the fuel suffices when it is more
    -- than the ids of the index.
    pub list-IsPage :
        (fuel : ℕ) (page limit : Option ℕ)
        → length (ranking.ranked index_of) < fuel
        → IsPage
            (page_number page)
            (page_limit limit)
            (list platform schema domain redis s ranking fuel filters page limit)
    unfolding list
    list-IsPage fuel page limit room =
        elim (Option-cases (direct_list_index scope filters.severity_is filters.category_is)) [
          | inl a ↦
              let chosen =
                smallest_candidate_index ranking.zcard scope filters.severity_is
                  filters.category_is in
              let at : index_of ≡ chosen = rw (index_of, a) refl in
              record {
                rows =
                    subst
                      (λ k.
                        list platform schema domain redis s ranking fuel filters page limit
                        ≡ some (
                          page_of ((page_number page - 1) * page_limit limit) (page_limit limit)
                              (rows_of (ranking.ranked k)),
                          length (rows_of (ranking.ranked k)),
                        ))
                      (sym at)
                      (rw (list, a)
                        (scan_filtered_index_exact platform schema domain redis s ranking chosen
                          filters ((page_number page - 1) * page_limit limit) (page_limit limit)
                          fuel (subst (λ k. length (ranking.ranked k) < fuel) at room)));
                complete = λ id h.
                    subst (λ k. has (ranking.ranked k) id ≡ true) (sym at)
                      (ranking.ranked_law chosen id
                        ∙ smallest_candidate_index_complete platform schema domain redis s bound
                            kept faithful filters ranking.zcard id h);
              }
          | inr (k, a) ↦
              let at : index_of ≡ k = rw (index_of, a) refl in
              record {
                rows =
                    subst
                      (λ k.
                        list platform schema domain redis s ranking fuel filters page limit
                        ≡ some (
                          page_of ((page_number page - 1) * page_limit limit) (page_limit limit)
                              (rows_of (ranking.ranked k)),
                          length (rows_of (ranking.ranked k)),
                        ))
                      (sym at)
                      (rw (list, a)
                        (ap some (
                          direct_page ((page_number page - 1) * page_limit limit) (page_limit limit)
                            k a (omega arith))));
                complete = λ id h.
                    subst (λ l. has (ranking.ranked l) id ≡ true) (sym at)
                      (ranking.ranked_law k id
                        ∙ direct_list_index_exact platform schema domain redis s bound kept faithful
                            filters k a id
                        ∙ h);
              }
        ]
