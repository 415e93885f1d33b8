-- ===== src/Suggestion/Kept.antt =====
-- The indexes and the rows agree, in all states that the repository brings about.
use thalamus_usecase_ssa.Prelude.{
  ℕ, ◌+◌, ◌≤◌, ◌<◌, ◌≡◌, refl, sym, ap, subst, ◌∙◌, String, Bool, true, false, not, ◌&&◌, ◌||◌,
  Option, none, some, List, [], ◌∷◌, ◌++◌, ◌==◌, string_Eq, ==_iff, ==_refl, if◌then◌else◌, length,
  every, some_of, Bool-cases, Option-cases, inl, inr, arith,
}
use thalamus_usecase_ssa.Suggestion.{
  Hash, lookup, Scope, all, pending, reviewed, IndexKey, legacy_index, scope_index, severity_index,
  category_index, Command, hset, expire, zadd, zrem, sadd_pending, srem_pending, lpush_feedback,
  ltrim_feedback, incrby_counter, Platform, Schema, GenericInsertSuggestion, normalize_filter,
  ranked_score, index_suggestion, unindex_suggestion, serialize_domain_fields,
}
use thalamus_usecase_ssa.Suggestion.Store.{
  Redis, exec, key_eq, over, field_after, indexed_after, waits_after, feedback_after, counter_after,
  ttl_secs, to_hash, enqueue_write,
}
use thalamus_usecase_ssa.Suggestion.Index.{hits}
pub mod Scopes
pub mod Write
pub mod Insert
pub mod Many
pub mod Inserted
pub mod Review
pub mod Reach
pub mod Fetch

abbrev pub is_filled : Option String → Bool
is_filled none = false
is_filled (some text) = not (text == "")

abbrev pub scopes_of : Option String → List Scope
scopes_of reviewed_at = all ∷ (if is_filled reviewed_at then reviewed else pending) ∷ []

pub over-none : (o : Option String) → over o none ≡ o
over-none none = refl
over-none (some value) = refl

-- What the runtime promises: numbers have different texts, and no text of a number or a date is
-- blank.
pub record IsPlatform (platform : Platform) : Type 0 where
  pub injective : (a b : ℕ) → platform.number_text a ≡ platform.number_text b → a ≡ b
  pub number_filled : (n : ℕ) → (platform.number_text n == "") ≡ false
  pub date_filled : (n : ℕ) → (platform.iso_date n == "") ≡ false

module _ (platform : Platform) where
  -- The indexes that a row belongs into, by its fields.
  abbrev pub belongs :
      Option String → Option String → Option String → Option String → IndexKey → Bool
  belongs id reviewed_at severity category k =
      is_filled id
      && (key_eq legacy_index k
          || some_of
              (hits (normalize_filter platform severity) (normalize_filter platform category) k)
              (scopes_of reviewed_at))

  abbrev pub row_belongs : Hash → IndexKey → Bool
  row_belongs h k =
      belongs (lookup h "id") (lookup h "reviewedAt") (lookup h "severity") (lookup h "category") k

  module _ {S : Type 0} (redis : Redis S) where
    pub record IsKept (bound : ℕ) (s : S) : Type 0 where
      pub indexes :
          (k : IndexKey) (m : String) → redis.indexed s k m ≡ row_belongs (redis.hgetall s m) k
      pub pendings :
          (m : String)
          → redis.waits s m ≡ (
              is_filled (lookup (redis.hgetall s m) "id")
              && not (is_filled (lookup (redis.hgetall s m) "reviewedAt")))
      pub fresh :
          (n : ℕ)
          → bound < n
          → (lookup (redis.hgetall s (platform.number_text n)) "id" ≡ none)
            × (lookup (redis.hgetall s (platform.number_text n)) "severity" ≡ none)
            × (lookup (redis.hgetall s (platform.number_text n)) "category" ≡ none)
      pub few : length (redis.feedback s) ≤ 200

    -- A row with fields that are put over its old ones, in a state that keeps the other rows.
    pub record Written (s t : S) (id : String) (changes : Hash) : Type 0 where
      pub field_of :
          (m name : String)
          → lookup (redis.hgetall t m) name ≡ (
              if id == m
              then over (lookup changes name) (lookup (redis.hgetall s m) name)
              else lookup (redis.hgetall s m) name)
      pub others :
          (k : IndexKey) (m : String)
          → (id == m) ≡ false
          → redis.indexed t k m ≡ redis.indexed s k m
      pub other_pendings : (m : String) → (id == m) ≡ false → redis.waits t m ≡ redis.waits s m

    -- The old row of the others, and the new row, decide on what is kept.
    pub Written-IsKept :
        (bound bound' : ℕ) (s t : S) (id : String) (changes : Hash)
        → IsKept bound s
        → Written s t id changes
        → ((k : IndexKey) → redis.indexed t k id ≡ row_belongs (redis.hgetall t id) k)
        → redis.waits t id ≡ (
            is_filled (lookup (redis.hgetall t id) "id")
            && not (is_filled (lookup (redis.hgetall t id) "reviewedAt")))
        → bound ≤ bound'
        → ((n : ℕ) → bound' < n → (id == platform.number_text n) ≡ false)
        → length (redis.feedback t) ≤ 200
        → IsKept bound' t
    Written-IsKept bound bound' s t id changes kept w index wait le apart few =
        let unchanged : (m name : String)
            → (id == m) ≡ false
            → lookup (redis.hgetall t m) name ≡ lookup (redis.hgetall s m) name =
          λ m name a. w.field_of m name ∙ rw a refl in
        record {
          indexes = λ k m. elim (Bool-cases (id == m)) [
            | inl a ↦
                subst (λ x. redis.indexed t k x ≡ row_belongs (redis.hgetall t x) k)
                  ((==_iff id m).0 a) (index k)
            | inr a ↦
                w.others k m a
                ∙ kept.indexes k m
                ∙ rw
                    (
                      unchanged m "id" a,
                      unchanged m "reviewedAt" a,
                      unchanged m "severity" a,
                      unchanged m "category" a,
                    )
                    refl
          ];
          pendings = λ m. elim (Bool-cases (id == m)) [
            | inl a ↦
                subst
                  (λ x. redis.waits t x ≡ (
                    is_filled (lookup (redis.hgetall t x) "id")
                    && not (is_filled (lookup (redis.hgetall t x) "reviewedAt"))))
                  ((==_iff id m).0 a) wait
            | inr a ↦
                w.other_pendings m a
                ∙ kept.pendings m
                ∙ rw (unchanged m "id" a, unchanged m "reviewedAt" a) refl
          ];
          fresh = λ n more.
              let old = kept.fresh n (omega (arith, le, more)) in
              let a = apart n more in
              (
                unchanged _ "id" a ∙ old.0,
                unchanged _ "severity" a ∙ old.1,
                unchanged _ "category" a ∙ old.2,
              );
          few = few;
        }
