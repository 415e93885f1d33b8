-- ===== src/Suggestion/Kept/Inserted.antt =====
-- What an insertion that answers an id has written.
use thalamus_usecase_ssa.Prelude.{
  ℕ, ◌≡◌, refl, sym, ap, subst, ◌∙◌, String, Option, none, some, List, string_Eq, ==_refl,
  Option-cases, inl, inr,
}
use thalamus_usecase_ssa.Suggestion.{
  lookup, Command, incrby_counter, Platform, Schema, GenericInsertSuggestion,
}
use thalamus_usecase_ssa.Suggestion.Store.{Redis, exec, enqueue_write, insert_generic}
use thalamus_usecase_ssa.Suggestion.Kept.{IsPlatform}
use thalamus_usecase_ssa.Suggestion.Kept.Write.{Write, enqueue_write-Write}
use thalamus_usecase_ssa.Suggestion.Kept.Insert.{write_fields}

module _ (platform : Platform) (promise : IsPlatform platform) (schema : Option Schema)
    (domain : String) where
  module _ {S : Type 0} (redis : Redis S) where
    pub record Inserted (input : GenericInsertSuggestion) (now : ℕ) (t : S) (id : String)
        : Type 0 where
      pub number : ℕ
      pub pipe : List Command
      pub write : Write platform promise schema domain input number now pipe
      pub named : id ≡ platform.number_text number
      pub stored :
          (name value : String)
          → lookup write.hash name ≡ some value
          → lookup (redis.hgetall t id) name ≡ some value

    abbrev id_or : String → Option String → String
    id_or other none = other
    id_or other (some id) = id

    pub insert_generic-Inserted :
        (input : GenericInsertSuggestion) (now : ℕ) (s t : S) (id : String)
        → insert_generic platform schema domain redis input now s ≡ (t, some id)
        → Inserted input now t id
    unfolding insert_generic
    insert_generic-Inserted input now s t id h =
        let s' = redis.apply (incrby_counter 1) s in
        elim (Option-cases (enqueue_write platform schema domain input (redis.counter s') now)) [
          | inl a ↦ let wrong : none ≡ some id = ap (λ r. r.1) (rw (insert_generic, a) at h) in cc
          | inr (pipe, a) ↦
              let w =
                enqueue_write-Write platform promise schema domain input (redis.counter s') now pipe
                  a in
              let key = platform.number_text (redis.counter s') in
              let right = rw (insert_generic, a) at h in
              let state : exec redis pipe s' ≡ t = ap (λ r. r.0) right in
              let named : id ≡ key = sym (ap (λ r. id_or id r.1) right) in
              record {
                number = redis.counter s';
                pipe = pipe;
                write = w;
                named = named;
                stored = λ name value is.
                    subst (λ u. lookup (redis.hgetall u id) name ≡ some value) state
                      (subst (λ i. lookup (redis.hgetall (exec redis pipe s') i) name ≡ some value)
                        (sym named)
                        (ap (λ l. lookup (redis.hgetall (exec redis l s') key) name) w.shape
                          ∙ write_fields platform promise schema domain redis (redis.counter s') now
                              w.hash s' key name
                          ∙ rw (==_refl key, is) refl));
              }
        ]
