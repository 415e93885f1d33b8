-- ===== src/Suggestion/Kept/Insert.antt =====
-- The write of a suggestion keeps the indexes in agreement with the rows.
use thalamus_usecase_ssa.Prelude.{
  ℕ, ◌+◌, ◌≤◌, ◌<◌, ◌≡◌, refl, sym, ap, subst, ◌∙◌, String, false, ◌&&◌, ◌||◌, Option, some, List,
  [], ◌∷◌, ◌==◌, string_Eq, ==_iff, ==_refl, if◌then◌else◌, length, Bool-cases, inl, inr, arith,
}
use thalamus_usecase_ssa.Suggestion.{
  Hash, lookup, all, pending, IndexKey, legacy_index, Command, hset, expire, zadd, sadd_pending,
  Platform, Schema, index_suggestion,
}
use thalamus_usecase_ssa.Suggestion.Store.{Redis, exec, key_eq, over, ttl_secs}
use thalamus_usecase_ssa.Suggestion.Index.{
  Same, exec-Same, exec-indexed, every-index_suggestion, hash_hits, indexed_all-index_suggestion,
}
use thalamus_usecase_ssa.Suggestion.Kept.{over-none, IsPlatform, IsKept, Written-IsKept}

module _ (platform : Platform) (promise : IsPlatform platform) (schema : Option Schema)
    (domain : String) where
  pub different : (a b : ℕ) → a < b → (platform.number_text a == platform.number_text b) ≡ false
  different a b less = elim (Bool-cases (platform.number_text a == platform.number_text b)) [
    | inl same ↦
        let e =
          promise.injective a b
            ((==_iff (platform.number_text a) (platform.number_text b)).0 same) in
        absurd (omega (arith, e, less))
    | inr other ↦ other
  ]

  module _ {S : Type 0} (redis : Redis S) where
    -- The state after the pipeline of a write.
    abbrev pub write_state : ℕ → ℕ → Hash → S → S
    write_state id now hash s =
        let key = platform.number_text id in
        redis.apply (sadd_pending key) (
          redis.apply (zadd legacy_index now key)
            (redis.apply (expire key ttl_secs) (redis.apply (hset key hash) s)))

    abbrev pub index_pipe : ℕ → Hash → List Command
    index_pipe id hash =
        index_suggestion platform (platform.number_text id) hash (all ∷ pending ∷ [])

    index_pipe-Same :
        (id : ℕ) (hash : Hash) (s : S) → Same redis s (exec redis (index_pipe id hash) s)
    index_pipe-Same id hash s =
        exec-Same redis (index_pipe id hash) s
          (every-index_suggestion platform (platform.number_text id) hash (all ∷ pending ∷ []))

    pub write_fields :
        (id now : ℕ) (hash : Hash) (s : S) (m name : String)
        → lookup
            (redis.hgetall (exec redis (index_pipe id hash) (write_state id now hash s)) m)
            name
          ≡ (if platform.number_text id == m
              then over (lookup hash name) (lookup (redis.hgetall s m) name)
              else lookup (redis.hgetall s m) name)
    write_fields id now hash s m name =
        let key = platform.number_text id in
        (index_pipe-Same id hash (write_state id now hash s)).fields m name
        ∙ redis.field_law (sadd_pending key) _ m name
        ∙ redis.field_law (zadd legacy_index now key) _ m name
        ∙ redis.field_law (expire key ttl_secs) _ m name
        ∙ redis.field_law (hset key hash) s m name

    write_waits :
        (id now : ℕ) (hash : Hash) (s : S) (m : String)
        → redis.waits (exec redis (index_pipe id hash) (write_state id now hash s)) m
          ≡ ((platform.number_text id == m) || redis.waits s m)
    write_waits id now hash s m =
        let key = platform.number_text id in
        (index_pipe-Same id hash (write_state id now hash s)).pendings m
        ∙ redis.waits_law (sadd_pending key) _ m
        ∙ ap (λ b. (key == m) || b)
            (redis.waits_law (zadd legacy_index now key) _ m
              ∙ redis.waits_law (expire key ttl_secs) _ m
              ∙ redis.waits_law (hset key hash) s m)

    write_feedback :
        (id now : ℕ) (hash : Hash) (s : S)
        → redis.feedback (exec redis (index_pipe id hash) (write_state id now hash s))
          ≡ redis.feedback s
    write_feedback id now hash s =
        let key = platform.number_text id in
        (index_pipe-Same id hash (write_state id now hash s)).feedbacks
        ∙ redis.feedback_law (sadd_pending key) _
        ∙ redis.feedback_law (zadd legacy_index now key) _
        ∙ redis.feedback_law (expire key ttl_secs) _
        ∙ redis.feedback_law (hset key hash) s

    write_indexed :
        (id now : ℕ) (hash : Hash) (s : S) (k : IndexKey) (m : String)
        → redis.indexed (exec redis (index_pipe id hash) (write_state id now hash s)) k m ≡ (
            ((platform.number_text id == m)
              && (key_eq legacy_index k
                  || hash_hits platform (platform.number_text id) hash (all ∷ pending ∷ []) k))
            || redis.indexed s k m)
    write_indexed id now hash s k m =
        let key = platform.number_text id in
        exec-indexed redis (index_pipe id hash) (write_state id now hash s) k m
        ∙ indexed_all-index_suggestion platform key hash (all ∷ pending ∷ []) k m _
        ∙ ap (λ b. ((key == m) && hash_hits platform key hash (all ∷ pending ∷ []) k) || b)
            (redis.indexed_law (sadd_pending key) _ k m
              ∙ redis.indexed_law (zadd legacy_index now key) _ k m
              ∙ ap (λ b. (key_eq legacy_index k && (key == m)) || b)
                  (redis.indexed_law (expire key ttl_secs) _ k m
                    ∙ redis.indexed_law (hset key hash) s k m))
        ∙ ground arith

    pub written-IsKept :
        (id now : ℕ) (hash : Hash) (s : S)
        → lookup hash "id" ≡ some (platform.number_text (id + 1))
        → lookup hash "reviewedAt" ≡ some ""
        → IsKept platform redis id s
        → IsKept platform redis
            (id + 1)
            (exec redis (index_pipe (id + 1) hash) (write_state (id + 1) now hash s))
    written-IsKept id now hash s own waiting kept =
        let key = platform.number_text (id + 1) in
        let fresh = kept.fresh (id + 1) (omega arith) in
        let at : (name : String)
            → lookup
                (redis.hgetall
                  (exec redis (index_pipe (id + 1) hash) (write_state (id + 1) now hash s)) key)
                name
              ≡ over (lookup hash name) (lookup (redis.hgetall s key) name) =
          λ name. write_fields (id + 1) now hash s key name ∙ rw (==_refl key) refl in
        let id_is : lookup
              (redis.hgetall
                (exec redis (index_pipe (id + 1) hash) (write_state (id + 1) now hash s)) key)
              "id"
            ≡ some key =
          at "id" ∙ rw own refl in
        let reviewed_is : lookup
              (redis.hgetall
                (exec redis (index_pipe (id + 1) hash) (write_state (id + 1) now hash s)) key)
              "reviewedAt"
            ≡ some "" =
          at "reviewedAt" ∙ rw waiting refl in
        let severity_is : lookup
              (redis.hgetall
                (exec redis (index_pipe (id + 1) hash) (write_state (id + 1) now hash s)) key)
              "severity"
            ≡ lookup hash "severity" =
          at "severity"
          ∙ ap (over (lookup hash "severity")) fresh.1
          ∙ over-none (lookup hash "severity") in
        let category_is : lookup
              (redis.hgetall
                (exec redis (index_pipe (id + 1) hash) (write_state (id + 1) now hash s)) key)
              "category"
            ≡ lookup hash "category" =
          at "category"
          ∙ ap (over (lookup hash "category")) fresh.2
          ∙ over-none (lookup hash "category") in
        Written-IsKept platform redis id (id + 1) s _ key hash kept
          (record {
            field_of = write_fields (id + 1) now hash s;
            others = λ k m a. write_indexed (id + 1) now hash s k m ∙ rw a refl;
            other_pendings = λ m a. write_waits (id + 1) now hash s m ∙ rw a refl;
          })
          (λ k.
            write_indexed (id + 1) now hash s k key
            ∙ rw
                (
                  ==_refl key,
                  kept.indexes k key,
                  fresh.0,
                  id_is,
                  reviewed_is,
                  severity_is,
                  category_is,
                  promise.number_filled (id + 1),
                )
                (ground arith))
          (write_waits (id + 1) now hash s key
            ∙ rw (==_refl key, id_is, reviewed_is, promise.number_filled (id + 1)) refl)
          (omega arith) (λ n more. different (id + 1) n more)
          (subst (λ l. length l ≤ 200) (sym (write_feedback (id + 1) now hash s)) kept.few)

    pub write_counter :
        (id now : ℕ) (hash : Hash) (s : S)
        → redis.counter (exec redis (index_pipe id hash) (write_state id now hash s))
          ≡ redis.counter s
    write_counter id now hash s =
        let key = platform.number_text id in
        (index_pipe-Same id hash (write_state id now hash s)).counters
        ∙ redis.counter_law (sadd_pending key) _
        ∙ redis.counter_law (zadd legacy_index now key) _
        ∙ redis.counter_law (expire key ttl_secs) _
        ∙ redis.counter_law (hset key hash) s
