-- ===== src/Suggestion/Exact.antt =====
-- The index that a list reads has the rows that are asked for.
use thalamus_usecase_ssa.Prelude.{
  ℕ, ◌≡◌, refl, sym, ap, subst, ◌∙◌, String, Bool, true, false, not, ◌&&◌, ◌||◌, Option, none, some,
  leb, ◌==◌, string_Eq, if◌then◌else◌, Bool-cases, Option-cases, inl, inr, arith,
}
use thalamus_usecase_ssa.Suggestion.{
  Hash, lookup, filled, Scope, all, pending, reviewed, IndexKey, legacy_index, scope_index,
  severity_index, category_index, Schema, Platform, normalize_filter, deserialize_domain_fields,
}
use thalamus_usecase_ssa.Suggestion.Store.{Redis, scope_eq, key_eq, to_row}
use thalamus_usecase_ssa.Suggestion.Index.{hits}
use thalamus_usecase_ssa.Suggestion.Kept.{is_filled, IsKept}
use thalamus_usecase_ssa.Suggestion.Kept.Scopes.{key_in, hits_miss}
use thalamus_usecase_ssa.Suggestion.Listing.{
  ListFilters, scope_from_reviewed, direct_list_index, smallest_candidate_index, lookup_value,
  same_text, passes, has_time, passes_review, value_text, matches_list_filters,
}

and_assoc : (a b c : Bool) → ((a && b) && c) ≡ (a && (b && c))
and_assoc true b c = refl
and_assoc false b c = refl

and_parts : (a b c : Bool) → (a && (b && c)) ≡ true → (a ≡ true) × (b ≡ true) × (c ≡ true)
and_parts true true true h = (refl, refl, refl)
and_parts true true false h = cc
and_parts true false c h = cc
and_parts false b c h = cc

-- What the key asks of a severity and a category.
abbrev asks : IndexKey → Option String → Option String → Bool
asks legacy_index severity category = false
asks (scope_index t) severity category = true
asks (severity_index t part) severity category = same_text severity part
asks (category_index t part) severity category = same_text category part

hits_own :
    (severity category : Option String) (scope : Scope) (k : IndexKey)
    → key_in scope k ≡ true
    → hits severity category k scope ≡ asks k severity category
hits_own severity category scope legacy_index h = cc
hits_own severity category scope (scope_index t) h = rw h refl
hits_own none none scope (severity_index t part) h = refl
hits_own none (some c) scope (severity_index t part) h = refl
hits_own (some v) none scope (severity_index t part) h = rw h (ground arith)
hits_own (some v) (some c) scope (severity_index t part) h = rw h (ground arith)
hits_own none none scope (category_index t part) h = refl
hits_own none (some c) scope (category_index t part) h = rw h (ground arith)
hits_own (some v) none scope (category_index t part) h = refl
hits_own (some v) (some c) scope (category_index t part) h = rw h (ground arith)

abbrev scope_holds : Scope → Bool → Bool
scope_holds all was = true
scope_holds pending was = not was
scope_holds reviewed was = was

-- The key of one scope.
record IsOf (scope : Scope) (k : IndexKey) : Type 0 where
  ranked : key_eq legacy_index k ≡ false
  scopes : (t : Scope) → key_in t k ≡ scope_eq t scope

ranked_hits :
    (severity category : Option String) (scope : Scope) (was : Bool) (k : IndexKey)
    → IsOf scope k
    → (key_eq legacy_index k
        || (hits severity category k all
            || (hits severity category k (if was then reviewed else pending) || false)))
      ≡ (scope_holds scope was && asks k severity category)
ranked_hits severity category all true k o =
    rw
      (
        o.ranked,
        hits_own severity category all k (o.scopes all),
        hits_miss severity category reviewed k (o.scopes reviewed),
      )
      (ground arith)
ranked_hits severity category all false k o =
    rw
      (
        o.ranked,
        hits_own severity category all k (o.scopes all),
        hits_miss severity category pending k (o.scopes pending),
      )
      (ground arith)
ranked_hits severity category pending true k o =
    rw
      (
        o.ranked,
        hits_miss severity category all k (o.scopes all),
        hits_miss severity category reviewed k (o.scopes reviewed),
      )
      refl
ranked_hits severity category pending false k o =
    rw
      (
        o.ranked,
        hits_miss severity category all k (o.scopes all),
        hits_own severity category pending k (o.scopes pending),
      )
      (ground arith)
ranked_hits severity category reviewed true k o =
    rw
      (
        o.ranked,
        hits_miss severity category all k (o.scopes all),
        hits_own severity category reviewed k (o.scopes reviewed),
      )
      (ground arith)
ranked_hits severity category reviewed false k o =
    rw
      (
        o.ranked,
        hits_miss severity category all k (o.scopes all),
        hits_miss severity category pending k (o.scopes pending),
      )
      refl

scope_IsOf : (scope : Scope) → IsOf scope (scope_index scope)
scope_IsOf scope = record { ranked = refl; scopes = λ t. refl }

severity_IsOf : (scope : Scope) (part : String) → IsOf scope (severity_index scope part)
severity_IsOf scope part = record { ranked = refl; scopes = λ t. refl }

category_IsOf : (scope : Scope) (part : String) → IsOf scope (category_index scope part)
category_IsOf scope part = record { ranked = refl; scopes = λ t. refl }

abbrev key_or : IndexKey → Option IndexKey → IndexKey
key_or other none = other
key_or other (some k) = k

-- The key that is read directly asks what the filters ask.
direct_asks :
    (scope : Scope) (severity category : Option String) (k : IndexKey)
    → direct_list_index scope severity category ≡ some k
    → IsOf scope k × ((a b : Option String) → asks k a b ≡ (passes severity a && passes category b))
direct_asks scope none none k h =
    subst (λ l. IsOf scope l × ((a b : Option String) → asks l a b ≡ true)) (ap (key_or k) h)
      (scope_IsOf scope, λ a b. refl)
direct_asks scope none (some c) k h =
    subst (λ l. IsOf scope l × ((a b : Option String) → asks l a b ≡ same_text b c))
      (ap (key_or k) h) (category_IsOf scope c, λ a b. refl)
direct_asks scope (some v) none k h =
    subst (λ l. IsOf scope l × ((a b : Option String) → asks l a b ≡ (same_text a v && true)))
      (ap (key_or k) h) (severity_IsOf scope v, λ a b. ground arith)
direct_asks scope (some v) (some c) k h = let wrong : none ≡ some k = h in cc

-- The smallest key asks no more than the filters ask.
smallest_asks :
    (zcard : IndexKey → ℕ) (scope : Scope) (severity category : Option String)
    → IsOf scope (smallest_candidate_index zcard scope severity category)
      × ((a b : Option String)
          → (passes severity a && passes category b) ≡ true
          → asks (smallest_candidate_index zcard scope severity category) a b ≡ true)
smallest_asks zcard scope none none = (scope_IsOf scope, λ a b h. refl)
smallest_asks zcard scope none (some c) = (category_IsOf scope c, λ a b h. h)
smallest_asks zcard scope (some v) none = (severity_IsOf scope v, λ a b h. ground (arith, h))
smallest_asks zcard scope (some v) (some c) =
    elim (Bool-cases (leb (zcard (severity_index scope v)) (zcard (category_index scope c)))) [
      | inl less ↦ rw less (severity_IsOf scope v, λ a b h. ground (arith, h))
      | inr more ↦ rw more (category_IsOf scope c, λ a b h. ground (arith, h))
    ]

has_time-filled : (o : Option String) → has_time (filled o) ≡ is_filled o
has_time-filled none = refl
has_time-filled (some text) = elim (Bool-cases (text == "")) [
  | inl a ↦ rw a refl
  | inr a ↦ rw a refl
]

passes_review-scope :
    (review : Option Bool) (reviewed_at : Option String)
    → passes_review review (filled reviewed_at)
      ≡ scope_holds (scope_from_reviewed review) (is_filled reviewed_at)
passes_review-scope none reviewed_at = refl
passes_review-scope (some true) reviewed_at = has_time-filled reviewed_at
passes_review-scope (some false) reviewed_at = ap not (has_time-filled reviewed_at)

module _ (platform : Platform) (schema : Option Schema) (domain : String) where
  -- The schema gives the severity and the category back as they are stored.
  pub record IsFaithful : Type 0 where
    pub severity :
        (d : Hash)
        → normalize_filter platform (
            value_text platform
              (lookup_value (deserialize_domain_fields platform schema d) "severity"))
          ≡ normalize_filter platform (lookup d "severity")
    pub category :
        (d : Hash)
        → normalize_filter platform (
            value_text platform
              (lookup_value (deserialize_domain_fields platform schema d) "category"))
          ≡ normalize_filter platform (lookup d "category")

  -- There is a row, and it matches.
  abbrev pub is_match : ListFilters → Hash → Bool
  is_match filters d = elim (to_row platform schema domain d) [
    | none ↦ false
    | some row ↦ matches_list_filters platform filters row
  ]

  is_match_parts :
      (filters : ListFilters) (d : Hash)
      → IsFaithful
      → is_match filters d ≡ (
          is_filled (lookup d "id")
          && (scope_holds
                (scope_from_reviewed filters.reviewed_is)
                (is_filled (lookup d "reviewedAt"))
              && (passes filters.severity_is (normalize_filter platform (lookup d "severity"))
                  && passes filters.category_is (normalize_filter platform (lookup d "category")))))
  unfolding to_row
  is_match_parts filters d faithful = elim (Option-cases (filled (lookup d "id"))) [
    | inl a ↦
        let missing : is_filled (lookup d "id") ≡ false =
          sym (has_time-filled (lookup d "id")) ∙ ap has_time a in
        rw missing (rw (is_match, to_row, a) refl)
    | inr (id, a) ↦
        let present : is_filled (lookup d "id") ≡ true =
          sym (has_time-filled (lookup d "id")) ∙ ap has_time a in
        rw present (
          rw (is_match, to_row, a)
            (rw
              (
                passes_review-scope filters.reviewed_is (lookup d "reviewedAt"),
                faithful.severity d,
                faithful.category d,
              )
              (and_assoc
                (scope_holds (scope_from_reviewed filters.reviewed_is)
                  (is_filled (lookup d "reviewedAt")))
                (passes filters.severity_is (normalize_filter platform (lookup d "severity")))
                (passes filters.category_is (normalize_filter platform (lookup d "category"))))))
  ]

  module _ {S : Type 0} (redis : Redis S) (s : S) (bound : ℕ) (kept : IsKept platform redis bound s)
      (faithful : IsFaithful) (filters : ListFilters) where
    abbrev pub asked_scope : Scope
    asked_scope = scope_from_reviewed filters.reviewed_is

    indexed_is :
        (k : IndexKey) (id : String)
        → IsOf asked_scope k
        → redis.indexed s k id ≡ (
            is_filled (lookup (redis.hgetall s id) "id")
            && (scope_holds asked_scope (is_filled (lookup (redis.hgetall s id) "reviewedAt"))
                && asks k
                    (normalize_filter platform (lookup (redis.hgetall s id) "severity"))
                    (normalize_filter platform (lookup (redis.hgetall s id) "category"))))
    indexed_is k id o =
        kept.indexes k id
        ∙ ap (λ b. is_filled (lookup (redis.hgetall s id) "id") && b)
            (ranked_hits (normalize_filter platform (lookup (redis.hgetall s id) "severity"))
              (normalize_filter platform (lookup (redis.hgetall s id) "category")) asked_scope
              (is_filled (lookup (redis.hgetall s id) "reviewedAt")) k o)

    -- The index that a list reads directly has exactly the matching rows.
    pub direct_list_index_exact :
        (k : IndexKey)
        → direct_list_index asked_scope filters.severity_is filters.category_is ≡ some k
        → (id : String) → redis.indexed s k id ≡ is_match filters (redis.hgetall s id)
    direct_list_index_exact k h id =
        let (own, same) = direct_asks asked_scope filters.severity_is filters.category_is k h in
        indexed_is k id own
        ∙ rw
            (same (normalize_filter platform (lookup (redis.hgetall s id) "severity"))
              (normalize_filter platform (lookup (redis.hgetall s id) "category")))
            (sym (is_match_parts filters (redis.hgetall s id) faithful))

    pub smallest_candidate_index_complete :
        (zcard : IndexKey → ℕ) (id : String)
        → is_match filters (redis.hgetall s id) ≡ true
        → redis.indexed s
            (smallest_candidate_index zcard asked_scope filters.severity_is filters.category_is)
            id
          ≡ true
    smallest_candidate_index_complete zcard id h =
        let (own, more) = smallest_asks zcard asked_scope filters.severity_is filters.category_is in
        let all_of = sym (is_match_parts filters (redis.hgetall s id) faithful) ∙ h in
        let (there, in_scope, asked) =
          and_parts (is_filled (lookup (redis.hgetall s id) "id"))
            (scope_holds asked_scope (is_filled (lookup (redis.hgetall s id) "reviewedAt")))
            (passes filters.severity_is
                (normalize_filter platform (lookup (redis.hgetall s id) "severity"))
              && passes filters.category_is
                  (normalize_filter platform (lookup (redis.hgetall s id) "category")))
            all_of in
        indexed_is
          (smallest_candidate_index zcard asked_scope filters.severity_is filters.category_is) id
          own
        ∙ rw
            (
              there,
              in_scope,
              more (normalize_filter platform (lookup (redis.hgetall s id) "severity"))
                  (normalize_filter platform (lookup (redis.hgetall s id) "category")) asked,
            )
            refl
