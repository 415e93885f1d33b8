-- ===== src/Suggestion/Kept/Reach.antt =====
-- The states that the operations of the repository bring about.
use thalamus_usecase_ssa.Prelude.{
  ℕ, ◌≡◌, refl, ap, ◌∙◌, String, Bool, false, Option, none, List, [], length, arith,
}
use thalamus_usecase_ssa.Suggestion.{lookup, IndexKey, Platform, Schema, GenericInsertSuggestion}
use thalamus_usecase_ssa.Suggestion.Store.{
  Redis, insert_many, insert_generic, review, update_suggestion,
}
use thalamus_usecase_ssa.Suggestion.Kept.{IsPlatform, IsKept}
use thalamus_usecase_ssa.Suggestion.Kept.Many.{insert_generic-IsKept, insert_many-IsKept}
use thalamus_usecase_ssa.Suggestion.Kept.Review.{review-IsKept, update_suggestion-IsKept}

module _ (platform : Platform) (schema : Option Schema) (domain : String) {S : Type 0}
    (redis : Redis S) where
  -- Before the first suggestion.
  pub record IsEmpty (s : S) : Type 0 where
    pub fields : (m name : String) → lookup (redis.hgetall s m) name ≡ none
    pub indexes : (k : IndexKey) (m : String) → redis.indexed s k m ≡ false
    pub pendings : (m : String) → redis.waits s m ≡ false
    pub feedbacks : redis.feedback s ≡ []

  -- The operations, one at a time, in any order and with any arguments.
  pub data Reachable : S → Type 0 where
    at_first : (s : S) → IsEmpty s → Reachable s
    inserted_many :
        (suggestions : List GenericInsertSuggestion) (now : ℕ) (s : S)
        → Reachable s
        → Reachable (insert_many platform schema domain redis suggestions now s).0
    inserted :
        (input : GenericInsertSuggestion) (now : ℕ) (s : S)
        → Reachable s
        → Reachable (insert_generic platform schema domain redis input now s).0
    was_reviewed :
        (id : String) (accepted : Bool) (note : Option String) (now : ℕ) (s : S)
        → Reachable s
        → Reachable (review platform schema domain redis id accepted note now s).0
    resolved :
        (id status : String) (resolved_at errors pending_selections : Option String) (s : S)
        → Reachable s
        → Reachable (
            update_suggestion platform schema domain redis id status resolved_at errors
              pending_selections s)

  empty_IsKept : (s : S) → IsEmpty s → IsKept platform redis (redis.counter s) s
  empty_IsKept s e = record {
    indexes = λ k m. e.indexes k m ∙ rw (e.fields m "id") refl;
    pendings = λ m. e.pendings m ∙ rw (e.fields m "id") refl;
    fresh = λ n more. (e.fields _ "id", e.fields _ "severity", e.fields _ "category");
    few = omega (arith, ap length e.feedbacks);
  }

  -- In each state that insertions, reviews and stored results bring about from an empty store, an id
  -- is in an index exactly when its row is there and belongs into it: in the one of all suggestions,
  -- and among the ranked ones in those of all scopes and of either the pending or the reviewed ones,
  -- by whether the row has a time of review, plain and with its severity and its category, and in
  -- no other. The pending set has exactly the rows that were not reviewed. No id that is still to be
  -- given out has a row, a severity or a category. No more than 200 reviews are kept as feedback.
  pub Reachable-IsKept :
      IsPlatform platform → (s : S) → Reachable s → IsKept platform redis (redis.counter s) s
  Reachable-IsKept promise s (at_first _ e) = empty_IsKept s e
  Reachable-IsKept promise _ (inserted_many suggestions now s r) =
      insert_many-IsKept platform promise schema domain redis suggestions now s
        (Reachable-IsKept promise s r)
  Reachable-IsKept promise _ (inserted input now s r) =
      insert_generic-IsKept platform promise schema domain redis input now s
        (Reachable-IsKept promise s r)
  Reachable-IsKept promise _ (was_reviewed id accepted note now s r) =
      review-IsKept platform promise schema domain redis id accepted note now s
        (Reachable-IsKept promise s r)
  Reachable-IsKept promise _ (resolved id status resolved_at errors pending_selections s r) =
      update_suggestion-IsKept platform promise schema domain redis id status resolved_at errors
        pending_selections s (Reachable-IsKept promise s r)
