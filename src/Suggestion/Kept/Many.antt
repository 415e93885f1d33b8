-- ===== src/Suggestion/Kept/Many.antt =====
-- One insertion, and many at once, keep the indexes in agreement with the rows.
use thalamus_usecase_ssa.Prelude.{
  ℕ, suc, ◌+◌, ◌-◌, ◌≤◌, ◌≡◌, refl, sym, ap, subst, ◌∙◌, String, Option, none, some, List, [], ◌∷◌,
  ◌++◌, string_Eq, length, Option-cases, inl, inr, arith,
}
use thalamus_usecase_ssa.Suggestion.{
  Command, incrby_counter, Platform, Schema, GenericInsertSuggestion,
}
use thalamus_usecase_ssa.Suggestion.Store.{
  Redis, exec, enqueue_write, enqueue_writes, insert_generic, insert_many,
}
use thalamus_usecase_ssa.Suggestion.Index.{exec-append}
use thalamus_usecase_ssa.Suggestion.Kept.{IsPlatform, IsKept}
use thalamus_usecase_ssa.Suggestion.Kept.Write.{pipe_or_none, enqueue_write-Write}
use thalamus_usecase_ssa.Suggestion.Kept.Insert.{written-IsKept, write_counter}

module _ (platform : Platform) (promise : IsPlatform platform) (schema : Option Schema)
    (domain : String) where
  module _ {S : Type 0} (redis : Redis S) where
    enqueue_write-IsKept :
        (suggestion : GenericInsertSuggestion) (id now : ℕ) (pipe : List Command) (s : S)
        → enqueue_write platform schema domain suggestion (id + 1) now ≡ some pipe
        → IsKept platform redis id s
        → IsKept platform redis (id + 1) (exec redis pipe s)
          × (redis.counter (exec redis pipe s) ≡ redis.counter s)
    enqueue_write-IsKept suggestion id now pipe s h kept =
        let w = enqueue_write-Write platform promise schema domain suggestion (id + 1) now pipe h in
        subst
          (λ l.
            IsKept platform redis (id + 1) (exec redis l s)
            × (redis.counter (exec redis l s) ≡ redis.counter s))
          (sym w.shape)
          (
            written-IsKept platform promise schema domain redis id now w.hash s w.own w.waiting
                kept,
            write_counter platform promise schema domain redis (id + 1) now w.hash s,
          )

    enqueue_writes-IsKept :
        (suggestions : List GenericInsertSuggestion) (id now : ℕ) (pipe : List Command) (s : S)
        → enqueue_writes platform schema domain suggestions (id + 1) now ≡ some pipe
        → IsKept platform redis id s
        → IsKept platform redis (id + length suggestions) (exec redis pipe s)
          × (redis.counter (exec redis pipe s) ≡ redis.counter s)
    unfolding enqueue_writes
    enqueue_writes-IsKept [] id now pipe s h kept =
        let e : [] ≡ pipe = ap (pipe_or_none platform promise schema domain) h in
        subst
          (λ l.
            IsKept platform redis (id + 0) (exec redis l s)
            × (redis.counter (exec redis l s) ≡ redis.counter s))
          e (subst (λ b. IsKept platform redis b s) (omega arith) kept, refl)
    enqueue_writes-IsKept (suggestion ∷ suggestions) id now pipe s h kept =
        elim (Option-cases (enqueue_write platform schema domain suggestion (id + 1) now)) [
          | inl a ↦ let wrong : none ≡ some pipe = rw (enqueue_writes, a) at h in cc
          | inr (first, a) ↦
              elim (Option-cases
                (enqueue_writes platform schema domain suggestions (id + 1 + 1) now)) [
                  | inl b ↦ let wrong : none ≡ some pipe = rw (enqueue_writes, a, b) at h in cc
                  | inr (rest, b) ↦
                      let parts : first ++ rest ≡ pipe =
                        ap (pipe_or_none platform promise schema domain)
                          (rw (enqueue_writes, a, b) at h) in
                      let one = enqueue_write-IsKept suggestion id now first s a kept in
                      let more =
                        enqueue_writes-IsKept suggestions (id + 1) now rest (exec redis first s) b
                          one.0 in
                      subst
                        (λ l.
                          IsKept platform redis (id + suc (length suggestions)) (exec redis l s)
                          × (redis.counter (exec redis l s) ≡ redis.counter s))
                        parts
                        (subst
                          (λ t.
                            IsKept platform redis (id + suc (length suggestions)) t
                            × (redis.counter t ≡ redis.counter s))
                          (sym (exec-append redis first rest s))
                          (
                            subst
                                (λ b'.
                                  IsKept platform redis b' (exec redis rest (exec redis first s)))
                                (omega arith) more.0,
                            more.1 ∙ one.1,
                          ))
                ]
        ]

    weaken :
        (low high : ℕ) (s : S)
        → low ≤ high
        → IsKept platform redis low s
        → IsKept platform redis high s
    weaken low high s le kept = record {
      indexes = kept.indexes;
      pendings = kept.pendings;
      fresh = λ n more. kept.fresh n (omega (arith, le, more));
      few = kept.few;
    }

    -- Numbers that were given out change no row.
    incrby-IsKept :
        (bound n : ℕ) (s : S)
        → IsKept platform redis bound s
        → IsKept platform redis bound (redis.apply (incrby_counter n) s)
    incrby-IsKept bound n s kept = record {
      indexes = λ k m.
          redis.indexed_law (incrby_counter n) s k m
          ∙ kept.indexes k m
          ∙ rw
              (
                redis.field_law (incrby_counter n) s m "id",
                redis.field_law (incrby_counter n) s m "reviewedAt",
                redis.field_law (incrby_counter n) s m "severity",
                redis.field_law (incrby_counter n) s m "category",
              )
              refl;
      pendings = λ m.
          redis.waits_law (incrby_counter n) s m
          ∙ kept.pendings m
          ∙ rw
              (
                redis.field_law (incrby_counter n) s m "id",
                redis.field_law (incrby_counter n) s m "reviewedAt",
              )
              refl;
      fresh = λ j more.
          let old = kept.fresh j more in
          let at = redis.field_law (incrby_counter n) s (platform.number_text j) in
          (at "id" ∙ old.0, at "severity" ∙ old.1, at "category" ∙ old.2);
      few = subst (λ l. length l ≤ 200) (sym (redis.feedback_law (incrby_counter n) s)) kept.few;
    }

    pub insert_generic-IsKept :
        (input : GenericInsertSuggestion) (now : ℕ) (s : S)
        → IsKept platform redis (redis.counter s) s
        → IsKept platform redis
            (redis.counter (insert_generic platform schema domain redis input now s).0)
            (insert_generic platform schema domain redis input now s).0
    unfolding insert_generic
    insert_generic-IsKept input now s kept =
        let s' = redis.apply (incrby_counter 1) s in
        let next : redis.counter s' ≡ redis.counter s + 1 =
          redis.counter_law (incrby_counter 1) s in
        let same = incrby-IsKept (redis.counter s) 1 s kept in
        elim (Option-cases (enqueue_write platform schema domain input (redis.counter s') now)) [
          | inl a ↦
              rw (insert_generic, a)
                (weaken (redis.counter s) (redis.counter s') s' (omega (arith, next)) same)
          | inr (pipe, a) ↦
              let done =
                enqueue_write-IsKept input (redis.counter s) now pipe s'
                  (subst (λ n. enqueue_write platform schema domain input n now ≡ some pipe) next a)
                  same in
              rw (insert_generic, a)
                (subst (λ b. IsKept platform redis b (exec redis pipe s')) (sym (done.1 ∙ next))
                  done.0)
        ]

    pub insert_many-IsKept :
        (inputs : List GenericInsertSuggestion) (now : ℕ) (s : S)
        → IsKept platform redis (redis.counter s) s
        → IsKept platform redis
            (redis.counter (insert_many platform schema domain redis inputs now s).0)
            (insert_many platform schema domain redis inputs now s).0
    unfolding insert_many
    insert_many-IsKept [] now s kept = kept
    insert_many-IsKept (input ∷ inputs) now s kept =
        let count = length (input ∷ inputs) in
        let s' = redis.apply (incrby_counter count) s in
        let next : redis.counter s' ≡ redis.counter s + count =
          redis.counter_law (incrby_counter count) s in
        let same = incrby-IsKept (redis.counter s) count s kept in
        let first : redis.counter s' - count + 1 ≡ redis.counter s + 1 = omega (arith, next) in
        elim (Option-cases (
          enqueue_writes platform schema domain (input ∷ inputs) (redis.counter s' - count + 1)
            now)) [
              | inl a ↦
                  rw (insert_many, a)
                    (weaken (redis.counter s) (redis.counter s') s' (omega (arith, next)) same)
              | inr (pipe, a) ↦
                  let done =
                    enqueue_writes-IsKept (input ∷ inputs) (redis.counter s) now pipe s'
                      (subst
                        (λ n.
                          enqueue_writes platform schema domain (input ∷ inputs) n now ≡ some pipe)
                        first a)
                      same in
                  rw (insert_many, a)
                    (subst (λ b. IsKept platform redis b (exec redis pipe s')) (sym (done.1 ∙ next))
                      done.0)
            ]
