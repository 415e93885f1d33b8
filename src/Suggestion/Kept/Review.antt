-- ===== src/Suggestion/Kept/Review.antt =====
-- A review, and the stored result of a resolution, keep the indexes in agreement with the rows.
use thalamus_usecase_ssa.Prelude.{
  ℕ, ◌≤◌, ◌<◌, ◌≡◌, refl, sym, ap, subst, ◌∙◌, String, Bool, true, false, not, ◌&&◌, ◌||◌, Option,
  none, some, List, [], ◌∷◌, ◌++◌, ◌==◌, string_Eq, ==_iff, ==_refl, if◌then◌else◌, length,
  length-take_le, Bool-cases, Option-cases, inl, inr, arith,
}
use thalamus_usecase_ssa.Suggestion.{
  Hash, lookup, filled, or_blank, pending, reviewed, IndexKey, Command, hset, srem_pending,
  lpush_feedback, ltrim_feedback, Platform, Schema, Fields, normalize_filter, index_suggestion,
  unindex_suggestion,
}
use thalamus_usecase_ssa.Suggestion.Store.{Redis, exec, over, to_row, review, update_suggestion}
use thalamus_usecase_ssa.Suggestion.Index.{
  Same, exec-Same, exec-indexed, exec-append, every-append, is_index_command,
  every-index_suggestion, every-unindex_suggestion, indexed_all-append, hash_hits,
  indexed_all-index_suggestion, indexed_all-unindex_suggestion,
}
use thalamus_usecase_ssa.Suggestion.Kept.{is_filled, IsPlatform, IsKept, Written-IsKept}
use thalamus_usecase_ssa.Suggestion.Kept.Scopes.{moved}

module _ (platform : Platform) (promise : IsPlatform platform) (schema : Option Schema)
    (domain : String) where
  abbrev changes : Bool → Option String → ℕ → Hash
  changes accepted note now =
      ("accepted", if accepted then "true" else "false")
      ∷ ("reviewerNote", or_blank note)
      ∷ ("reviewedAt", platform.iso_date now)
      ∷ []

  module _ {S : Type 0} (redis : Redis S) (id : String) (accepted : Bool) (note : Option String)
      (now : ℕ) (entry : String) (s : S) where
    abbrev patched : Hash
    patched = changes accepted note now ++ redis.hgetall s id

    abbrev index_pipe : List Command
    index_pipe =
        unindex_suggestion platform id patched (pending ∷ [])
        ++ index_suggestion platform id patched (reviewed ∷ [])

    abbrev marked : S
    marked = redis.apply (srem_pending id) (redis.apply (hset id (changes accepted note now)) s)

    abbrev after_review : S
    after_review =
        redis.apply (ltrim_feedback 199)
          (redis.apply (lpush_feedback entry) (exec redis index_pipe marked))

    index_pipe-Same : Same redis marked (exec redis index_pipe marked)
    index_pipe-Same = exec-Same redis index_pipe marked (
        every-append is_index_command (unindex_suggestion platform id patched (pending ∷ []))
          (index_suggestion platform id patched (reviewed ∷ []))
        ∙ rw
            (
              every-unindex_suggestion platform id patched (pending ∷ []),
              every-index_suggestion platform id patched (reviewed ∷ []),
            )
            refl)

    review_fields :
        (m name : String)
        → lookup (redis.hgetall after_review m) name ≡ (
            if id == m
            then over (lookup (changes accepted note now) name) (lookup (redis.hgetall s m) name)
            else lookup (redis.hgetall s m) name)
    review_fields m name =
        redis.field_law (ltrim_feedback 199) _ m name
        ∙ redis.field_law (lpush_feedback entry) _ m name
        ∙ index_pipe-Same.fields m name
        ∙ redis.field_law (srem_pending id) _ m name
        ∙ redis.field_law (hset id (changes accepted note now)) s m name

    review_waits : (m : String) → redis.waits after_review m ≡ (not (id == m) && redis.waits s m)
    review_waits m =
        redis.waits_law (ltrim_feedback 199) _ m
        ∙ redis.waits_law (lpush_feedback entry) _ m
        ∙ index_pipe-Same.pendings m
        ∙ redis.waits_law (srem_pending id) _ m
        ∙ ap (λ b. not (id == m) && b) (redis.waits_law (hset id (changes accepted note now)) s m)

    review_indexed :
        (k : IndexKey) (m : String)
        → redis.indexed after_review k m ≡ (
            ((id == m) && hash_hits platform id patched (reviewed ∷ []) k)
            || (not ((id == m) && hash_hits platform id patched (pending ∷ []) k)
                && redis.indexed s k m))
    review_indexed k m =
        redis.indexed_law (ltrim_feedback 199) _ k m
        ∙ redis.indexed_law (lpush_feedback entry) _ k m
        ∙ exec-indexed redis index_pipe marked k m
        ∙ indexed_all-append (unindex_suggestion platform id patched (pending ∷ []))
            (index_suggestion platform id patched (reviewed ∷ [])) k m _
        ∙ indexed_all-index_suggestion platform id patched (reviewed ∷ []) k m _
        ∙ ap (λ b. ((id == m) && hash_hits platform id patched (reviewed ∷ []) k) || b)
            (indexed_all-unindex_suggestion platform id patched (pending ∷ []) k m _
              ∙ ap (λ b. not ((id == m) && hash_hits platform id patched (pending ∷ []) k) && b)
                  (redis.indexed_law (srem_pending id) _ k m
                    ∙ redis.indexed_law (hset id (changes accepted note now)) s k m))

    review_few : length (redis.feedback after_review) ≤ 200
    review_few =
        subst (λ l. length l ≤ 200) (sym (redis.feedback_law (ltrim_feedback 199) _))
          (length-take_le 200
            (redis.feedback (redis.apply (lpush_feedback entry) (exec redis index_pipe marked))))

    after_review-IsKept :
        (bound : ℕ)
        → is_filled (lookup (redis.hgetall s id) "id") ≡ true
        → IsKept platform redis bound s
        → IsKept platform redis bound after_review
    after_review-IsKept bound present kept =
        let h = redis.hgetall s id in
        let at : (name : String)
            → lookup (redis.hgetall after_review id) name
              ≡ over (lookup (changes accepted note now) name) (lookup h name) =
          λ name. review_fields id name ∙ rw (==_refl id) refl in
        let date : not (platform.iso_date now == "") ≡ true = ap not (promise.date_filled now) in
        Written-IsKept platform redis bound bound s after_review id (changes accepted note now) kept
          (record {
            field_of = review_fields;
            others = λ k m a. review_indexed k m ∙ rw a refl;
            other_pendings = λ m a. review_waits m ∙ rw a refl;
          })
          (λ k.
            review_indexed k id
            ∙ rw
                (
                  ==_refl id,
                  kept.indexes k id,
                  at "id",
                  at "reviewedAt",
                  at "severity",
                  at "category",
                  present,
                  date,
                )
                (moved (normalize_filter platform (lookup h "severity"))
                  (normalize_filter platform (lookup h "category"))
                  (is_filled (lookup h "reviewedAt")) k))
          (review_waits id ∙ rw (==_refl id, at "id", at "reviewedAt", present, date) refl)
          (omega arith)
          (λ n more. elim (Bool-cases (id == platform.number_text n)) [
            | inl same ↦
                let e = (==_iff id (platform.number_text n)).0 same in
                let blank : lookup h "id" ≡ none =
                  subst (λ x. lookup (redis.hgetall s x) "id" ≡ none) (sym e)
                    (kept.fresh n more).0 in
                let wrong : false ≡ true = ap is_filled (sym blank) ∙ present in cc
            | inr other ↦ other
          ])
          review_few

    after_review_counter : redis.counter after_review ≡ redis.counter s
    after_review_counter =
        redis.counter_law (ltrim_feedback 199) _
        ∙ redis.counter_law (lpush_feedback entry) _
        ∙ index_pipe-Same.counters
        ∙ redis.counter_law (srem_pending id) _
        ∙ redis.counter_law (hset id (changes accepted note now)) s

  is_filled-of_filled :
      (o : Option String) (text : String) → filled o ≡ some text → is_filled o ≡ true
  is_filled-of_filled none text h = let wrong : none ≡ some text = h in cc
  is_filled-of_filled (some t) text h = elim (Bool-cases (t == "")) [
    | inl a ↦ let wrong : none ≡ some text = rw a at h in cc
    | inr a ↦ rw a refl
  ]

  module _ {S : Type 0} (redis : Redis S) where
    pub review-IsKept :
        (id : String) (accepted : Bool) (note : Option String) (now : ℕ) (s : S)
        → IsKept platform redis (redis.counter s) s
        → IsKept platform redis
            (redis.counter (review platform schema domain redis id accepted note now s).0)
            (review platform schema domain redis id accepted note now s).0
    unfolding review
    review-IsKept id accepted note now s kept =
        elim (Option-cases (filled (lookup (redis.hgetall s id) "id"))) [
          | inl a ↦ rw (review, a) kept
          | inr (text, a) ↦
              let fields : Fields =
                elim (to_row platform schema domain (
                  patched redis id accepted note now (platform.stringify_feedback accepted note [])
                    s)) [ none ↦ [] | some row ↦ row.domain_fields ] in
              let entry = platform.stringify_feedback accepted note fields in
              let t = after_review redis id accepted note now entry s in
              let same =
                exec-append redis (index_pipe redis id accepted note now entry s)
                  (lpush_feedback entry ∷ ltrim_feedback 199 ∷ [])
                  (marked redis id accepted note now entry s) in
              let done =
                after_review-IsKept redis id accepted note now entry s (redis.counter s)
                  (is_filled-of_filled (lookup (redis.hgetall s id) "id") text a) kept in
              rw (review, a)
                (subst (λ u. IsKept platform redis (redis.counter u) u) (sym same)
                  (subst (λ b. IsKept platform redis b t)
                    (sym (after_review_counter redis id accepted note now entry s)) done))
        ]

    same_field :
        (id m name : String) (fields : Hash) (s : S)
        → lookup fields name ≡ none
        → lookup (redis.hgetall (redis.apply (hset id fields) s) m) name
          ≡ lookup (redis.hgetall s m) name
    same_field id m name fields s h =
        redis.field_law (hset id fields) s m name
        ∙ elim (Bool-cases (id == m)) [ inl a ↦ rw (a, h) refl | inr a ↦ rw a refl ]

    pub update_suggestion-IsKept :
        (id status : String) (resolved_at errors pending_selections : Option String) (s : S)
        → IsKept platform redis (redis.counter s) s
        → IsKept platform redis
            (redis.counter (
              update_suggestion platform schema domain redis id status resolved_at errors
                pending_selections s))
            (update_suggestion platform schema domain redis id status resolved_at errors
              pending_selections s)
    unfolding update_suggestion
    update_suggestion-IsKept id status resolved_at errors pending_selections s kept =
        let fields : Hash =
          ("resolutionStatus", status)
          ∷ ("resolvedAt", or_blank resolved_at)
          ∷ ("resolutionErrors", or_blank errors)
          ∷ ("pendingSelections", or_blank pending_selections)
          ∷ [] in
        let at : (m name : String)
            → lookup fields name ≡ none
            → lookup (redis.hgetall (redis.apply (hset id fields) s) m) name
              ≡ lookup (redis.hgetall s m) name =
          λ m name h. same_field id m name fields s h in
        record {
          indexes = λ k m.
              redis.indexed_law (hset id fields) s k m
              ∙ kept.indexes k m
              ∙ rw
                  (
                    at m "id" refl,
                    at m "reviewedAt" refl,
                    at m "severity" refl,
                    at m "category" refl,
                  )
                  refl;
          pendings = λ m.
              redis.waits_law (hset id fields) s m
              ∙ kept.pendings m
              ∙ rw (at m "id" refl, at m "reviewedAt" refl) refl;
          fresh = λ n more.
              let old =
                kept.fresh n (subst (λ b. b < n) (redis.counter_law (hset id fields) s) more) in
              let m = platform.number_text n in
              (at m "id" refl ∙ old.0, at m "severity" refl ∙ old.1, at m "category" refl ∙ old.2);
          few = subst (λ l. length l ≤ 200) (sym (redis.feedback_law (hset id fields) s)) kept.few;
        }
