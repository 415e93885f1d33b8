-- ===== src/Suggestion/Listing.antt =====
-- sweep.repository.ts: the pages of a list, from the smallest index that has what is asked for.
-- Each reply of a pipeline is there; the ranked indexes have been ensured before.
use thalamus_usecase_ssa.Prelude.{
  ℕ, zero, suc, ◌+◌, ◌-◌, ◌*◌, ◌≡◌, max, String, Bool, true, false, not, ◌&&◌, Option, none, some,
  List, [], ◌∷◌, ◌++◌, ltb, leb, nat_eq, ◌==◌, string_Eq, if◌then◌else◌, length, take, drop, has,
  keep,
}
use thalamus_usecase_ssa.Suggestion.{
  Fields, Value, null_value, text_value, number_value, flag_value, object_value, Scope, all,
  pending, reviewed, IndexKey, scope_index, severity_index, category_index, Schema, Platform,
  normalize_filter,
}
use thalamus_usecase_ssa.Suggestion.Store.{Redis, SuggestionRow, to_row}

abbrev pub filter_scan_batch : ℕ
filter_scan_batch = 100

-- The members of an index from the highest score on, as `zrevrange` and `zcard` tell them.
pub record Ranking {S : Type 0} (redis : Redis S) (s : S) : Type 0 where
  pub zrevrange : IndexKey → ℕ → ℕ → List String
  pub zcard : IndexKey → ℕ
  pub ranked : IndexKey → List String
  pub zrevrange_law :
      (k : IndexKey) (start stop : ℕ)
      → zrevrange k start stop ≡ take (stop + 1 - start) (drop start (ranked k))
  pub zcard_law : (k : IndexKey) → zcard k ≡ length (ranked k)
  pub ranked_law : (k : IndexKey) (m : String) → has (ranked k) m ≡ redis.indexed s k m

-- What is asked for; severity and category are normalized.
pub record ListFilters : Type 0 where
  pub reviewed_is : Option Bool
  pub severity_is : Option String
  pub category_is : Option String

-- `scopeFromReviewed(reviewed)`
abbrev pub scope_from_reviewed : Option Bool → Scope
scope_from_reviewed none = all
scope_from_reviewed (some true) = reviewed
scope_from_reviewed (some false) = pending

-- `directListIndex(scope, filters)`
abbrev pub direct_list_index : Scope → Option String → Option String → Option IndexKey
direct_list_index scope (some severity) (some category) = none
direct_list_index scope (some severity) none = some (severity_index scope severity)
direct_list_index scope none (some category) = some (category_index scope category)
direct_list_index scope none none = some (scope_index scope)

-- `smallestCandidateIndex(scope, filters)`
abbrev pub smallest_candidate_index :
    (IndexKey → ℕ) → Scope → Option String → Option String → IndexKey
smallest_candidate_index zcard scope none none = scope_index scope
smallest_candidate_index zcard scope (some severity) none = severity_index scope severity
smallest_candidate_index zcard scope none (some category) = category_index scope category
smallest_candidate_index zcard scope (some severity) (some category) =
    if leb (zcard (severity_index scope severity)) (zcard (category_index scope category))
    then severity_index scope severity
    else category_index scope category

abbrev pub lookup_value : Fields → String → Value
lookup_value [] name = null_value
lookup_value ((key, value) ∷ fields) name = if key == name then value else lookup_value fields name

abbrev pub same_text : Option String → String → Bool
same_text none wanted = false
same_text (some text) wanted = text == wanted

-- A filter that is not given lets all pass.
abbrev pub passes : Option String → Option String → Bool
passes none actual = true
passes (some wanted) actual = same_text actual wanted

abbrev pub has_time : Option String → Bool
has_time none = false
has_time (some time) = true

abbrev pub passes_review : Option Bool → Option String → Bool
passes_review none reviewed_at = true
passes_review (some true) reviewed_at = has_time reviewed_at
passes_review (some false) reviewed_at = not (has_time reviewed_at)

module _ (platform : Platform) where
  -- `String(value)`, where there is a value
  abbrev pub value_text : Value → Option String
  value_text null_value = none
  value_text (text_value text) = some text
  value_text (number_value n) = some (platform.number_text n)
  value_text (flag_value b) = some (if b then "true" else "false")
  value_text (object_value json) = some (platform.object_text json)

  -- `matchesListFilters(row, filters)`
  abbrev pub matches_list_filters : ListFilters → SuggestionRow → Bool
  matches_list_filters filters row =
      passes_review filters.reviewed_is row.reviewed_at
      && passes filters.severity_is
          (normalize_filter platform (value_text (lookup_value row.domain_fields "severity")))
      && passes filters.category_is
          (normalize_filter platform (value_text (lookup_value row.domain_fields "category")))

  -- The loop of `scanFilteredIndex` over the rows of a batch.
  abbrev pub take_rows :
      ListFilters → ℕ → ℕ → List SuggestionRow → List SuggestionRow × ℕ → List SuggestionRow × ℕ
  take_rows filters offset limit [] found = found
  take_rows filters offset limit (row ∷ more) (rows, total) = take_rows filters offset limit more (
      if matches_list_filters filters row
      then (
        (if leb offset total && ltb (length rows) limit then rows ++ row ∷ [] else rows),
        total + 1,
      )
      else (rows, total))

  module _ (schema : Option Schema) (domain : String) {S : Type 0} (redis : Redis S) (s : S) where
    -- `rowsByIds(ids)`
    abbrev pub rows_by_ids : List String → List SuggestionRow
    rows_by_ids [] = []
    rows_by_ids (id ∷ ids) = elim (to_row platform schema domain (redis.hgetall s id)) [
      | none ↦ rows_by_ids ids
      | some row ↦ row ∷ rows_by_ids ids
    ]

    module _ (ranking : Ranking redis s) where
      -- The loop of `scanFilteredIndex`; `none` is fuel that did not suffice.
      unfoldable pub scan_from :
          ℕ
          → IndexKey
          → ListFilters
          → ℕ
          → ℕ
          → ℕ
          → List SuggestionRow × ℕ
          → Option (List SuggestionRow × ℕ)
      scan_from zero index filters offset limit start found = none
      scan_from (suc fuel) index filters offset limit start found =
          let ids = ranking.zrevrange index start (start + filter_scan_batch - 1) in
          let found' = take_rows filters offset limit (rows_by_ids ids) found in
          let rest = scan_from fuel index filters offset limit (start + filter_scan_batch) found' in
          if nat_eq (length ids) 0
          then some found
          else if ltb (length ids) filter_scan_batch
          then some found'
          else rest

      -- `scanFilteredIndex(indexKey, filters, offset, limit)`
      unfoldable pub scan_filtered_index :
          ℕ → IndexKey → ListFilters → ℕ → ℕ → Option (List SuggestionRow × ℕ)
      scan_filtered_index fuel index filters offset limit =
          scan_from fuel index filters offset limit 0 ([], 0)

      -- `list(opts)` from the choice of the index on.
      unfoldable pub list : ℕ → ListFilters → Option ℕ → Option ℕ → Option (List SuggestionRow × ℕ)
      list fuel filters page limit =
          let page' : ℕ = max 1 (elim page [ none ↦ 1 | some n ↦ n ]) in
          let limit' : ℕ = max 1 (elim limit [ none ↦ 20 | some n ↦ n ]) in
          let offset = (page' - 1) * limit' in
          let scope = scope_from_reviewed filters.reviewed_is in
          let scanned =
            scan_filtered_index fuel
              (smallest_candidate_index ranking.zcard scope filters.severity_is filters.category_is)
              filters offset limit' in
          elim (direct_list_index scope filters.severity_is filters.category_is) [
            | none ↦ scanned
            | some index ↦ some (
              keep (matches_list_filters filters)
                  (rows_by_ids (ranking.zrevrange index offset (offset + limit' - 1))),
              ranking.zcard index,
            )
          ]
