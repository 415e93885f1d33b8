-- ===== src/Suggestion/Index.antt =====
-- What the pipelines of the indexes leave in Redis.
use thalamus_usecase_ssa.Prelude.{
  ℕ, ◌≡◌, refl, ap, ◌∙◌, String, Bool, true, false, not, ◌&&◌, ◌||◌, Option, none, some, List, [],
  ◌∷◌, ◌++◌, ◌==◌, string_Eq, every, some_of, arith,
}
use thalamus_usecase_ssa.Suggestion.{
  Hash, lookup, Scope, IndexKey, scope_index, severity_index, category_index, Command, hset, expire,
  zadd, zrem, sadd_pending, srem_pending, lpush_feedback, ltrim_feedback, incrby_counter,
  zadd_scopes, zrem_scopes, index_suggestion, unindex_suggestion, Platform, normalize_filter,
  ranked_score,
}
use thalamus_usecase_ssa.Suggestion.Store.{Redis, exec, key_eq, indexed_after}

abbrev pub part_hits : (String → IndexKey) → Option String → IndexKey → Bool
part_hits index none k = false
part_hits index (some part) k = key_eq (index part) k

-- The key is one of the scope, with the severity or the category where it has one.
abbrev pub hits : Option String → Option String → IndexKey → Scope → Bool
hits severity category k scope =
    key_eq (scope_index scope) k
    || part_hits (severity_index scope) severity k
    || part_hits (category_index scope) category k

-- The commands that change no more than the indexes.
abbrev pub is_index_command : Command → Bool
is_index_command (zadd key score id) = true
is_index_command (zrem key id) = true
is_index_command (expire key seconds) = true
is_index_command _ = false

-- The membership after a pipeline.
abbrev pub indexed_all : List Command → IndexKey → String → Bool → Bool
indexed_all [] k m b = b
indexed_all (c ∷ pipe) k m b = indexed_all pipe k m (indexed_after c k m b)

pub indexed_all-append :
    (xs ys : List Command) (k : IndexKey) (m : String) (b : Bool)
    → indexed_all (xs ++ ys) k m b ≡ indexed_all ys k m (indexed_all xs k m b)
indexed_all-append [] ys k m b = refl
indexed_all-append (x ∷ xs) ys k m b = indexed_all-append xs ys k m (indexed_after x k m b)

pub every-append {ℓ} :
    {A : Type ℓ} (p : A → Bool) (xs ys : List A) → every p (xs ++ ys) ≡ (every p xs && every p ys)
every-append p [] ys = refl
every-append p (x ∷ xs) ys = ground (arith, every-append p xs ys)

every-zadd_scopes :
    (score : ℕ) (severity category : Option String) (id : String) (scopes : List Scope)
    → every is_index_command (zadd_scopes score severity category id scopes) ≡ true
unfolding zadd_scopes
every-zadd_scopes score severity category id [] = refl
every-zadd_scopes score none none id (scope ∷ scopes) = every-zadd_scopes score none none id scopes
every-zadd_scopes score none (some c) id (scope ∷ scopes) =
    every-zadd_scopes score none (some c) id scopes
every-zadd_scopes score (some v) none id (scope ∷ scopes) =
    every-zadd_scopes score (some v) none id scopes
every-zadd_scopes score (some v) (some c) id (scope ∷ scopes) =
    every-zadd_scopes score (some v) (some c) id scopes

every-zrem_scopes :
    (severity category : Option String) (id : String) (scopes : List Scope)
    → every is_index_command (zrem_scopes severity category id scopes) ≡ true
unfolding zrem_scopes
every-zrem_scopes severity category id [] = refl
every-zrem_scopes none none id (scope ∷ scopes) = every-zrem_scopes none none id scopes
every-zrem_scopes none (some c) id (scope ∷ scopes) = every-zrem_scopes none (some c) id scopes
every-zrem_scopes (some v) none id (scope ∷ scopes) = every-zrem_scopes (some v) none id scopes
every-zrem_scopes (some v) (some c) id (scope ∷ scopes) =
    every-zrem_scopes (some v) (some c) id scopes

module _ {S : Type 0} (redis : Redis S) where
  pub exec-append :
      (xs ys : List Command) (s : S) → exec redis (xs ++ ys) s ≡ exec redis ys (exec redis xs s)
  exec-append [] ys s = refl
  exec-append (x ∷ xs) ys s = exec-append xs ys (redis.apply x s)

  -- All but the indexes.
  pub record Same (s t : S) : Type 0 where
    pub fields :
        (id name : String) → lookup (redis.hgetall t id) name ≡ lookup (redis.hgetall s id) name
    pub pendings : (m : String) → redis.waits t m ≡ redis.waits s m
    pub feedbacks : redis.feedback t ≡ redis.feedback s
    pub counters : redis.counter t ≡ redis.counter s

  Same-trans : {s t u : S} → Same s t → Same t u → Same s u
  Same-trans f g = record {
    fields = λ id name. g.fields id name ∙ f.fields id name;
    pendings = λ m. g.pendings m ∙ f.pendings m;
    feedbacks = g.feedbacks ∙ f.feedbacks;
    counters = g.counters ∙ f.counters;
  }

  apply-Same : (c : Command) (s : S) → is_index_command c ≡ true → Same s (redis.apply c s)
  apply-Same (zadd key score id) s h = record {
    fields = redis.field_law (zadd key score id) s;
    pendings = redis.waits_law (zadd key score id) s;
    feedbacks = redis.feedback_law (zadd key score id) s;
    counters = redis.counter_law (zadd key score id) s;
  }
  apply-Same (zrem key id) s h = record {
    fields = redis.field_law (zrem key id) s;
    pendings = redis.waits_law (zrem key id) s;
    feedbacks = redis.feedback_law (zrem key id) s;
    counters = redis.counter_law (zrem key id) s;
  }
  apply-Same (expire key seconds) s h = record {
    fields = redis.field_law (expire key seconds) s;
    pendings = redis.waits_law (expire key seconds) s;
    feedbacks = redis.feedback_law (expire key seconds) s;
    counters = redis.counter_law (expire key seconds) s;
  }
  apply-Same (hset id fields) s h = cc
  apply-Same (sadd_pending id) s h = cc
  apply-Same (srem_pending id) s h = cc
  apply-Same (lpush_feedback entry) s h = cc
  apply-Same (ltrim_feedback last) s h = cc
  apply-Same (incrby_counter n) s h = cc

  pub exec-Same :
      (pipe : List Command) (s : S)
      → every is_index_command pipe ≡ true
      → Same s (exec redis pipe s)
  exec-Same [] s h = record {
    fields = λ id name. refl;
    pendings = λ m. refl;
    feedbacks = refl;
    counters = refl;
  }
  exec-Same (c ∷ pipe) s h =
      Same-trans (apply-Same c s (ground (arith, h)))
        (exec-Same pipe (redis.apply c s) (ground (arith, h)))

  pub exec-indexed :
      (pipe : List Command) (s : S) (k : IndexKey) (m : String)
      → redis.indexed (exec redis pipe s) k m ≡ indexed_all pipe k m (redis.indexed s k m)
  exec-indexed [] s k m = refl
  exec-indexed (c ∷ pipe) s k m =
      exec-indexed pipe (redis.apply c s) k m
      ∙ ap (indexed_all pipe k m) (redis.indexed_law c s k m)

-- Adding puts the id into the indexes that it hits; taking away takes it out of them.
indexed_all-zadd_scopes :
    (score : ℕ) (severity category : Option String) (id : String) (scopes : List Scope)
    (k : IndexKey) (m : String) (b : Bool)
    → indexed_all (zadd_scopes score severity category id scopes) k m b
      ≡ (((id == m) && some_of (hits severity category k) scopes) || b)
unfolding zadd_scopes
indexed_all-zadd_scopes score severity category id [] k m b = ground arith
indexed_all-zadd_scopes score none none id (scope ∷ scopes) k m b =
    indexed_all-zadd_scopes score none none id scopes k m _ ∙ ground arith
indexed_all-zadd_scopes score none (some c) id (scope ∷ scopes) k m b =
    indexed_all-zadd_scopes score none (some c) id scopes k m _ ∙ ground arith
indexed_all-zadd_scopes score (some v) none id (scope ∷ scopes) k m b =
    indexed_all-zadd_scopes score (some v) none id scopes k m _ ∙ ground arith
indexed_all-zadd_scopes score (some v) (some c) id (scope ∷ scopes) k m b =
    indexed_all-zadd_scopes score (some v) (some c) id scopes k m _ ∙ ground arith

indexed_all-zrem_scopes :
    (severity category : Option String) (id : String) (scopes : List Scope) (k : IndexKey)
    (m : String) (b : Bool)
    → indexed_all (zrem_scopes severity category id scopes) k m b
      ≡ (not ((id == m) && some_of (hits severity category k) scopes) && b)
unfolding zrem_scopes
indexed_all-zrem_scopes severity category id [] k m b = ground arith
indexed_all-zrem_scopes none none id (scope ∷ scopes) k m b =
    indexed_all-zrem_scopes none none id scopes k m _ ∙ ground arith
indexed_all-zrem_scopes none (some c) id (scope ∷ scopes) k m b =
    indexed_all-zrem_scopes none (some c) id scopes k m _ ∙ ground arith
indexed_all-zrem_scopes (some v) none id (scope ∷ scopes) k m b =
    indexed_all-zrem_scopes (some v) none id scopes k m _ ∙ ground arith
indexed_all-zrem_scopes (some v) (some c) id (scope ∷ scopes) k m b =
    indexed_all-zrem_scopes (some v) (some c) id scopes k m _ ∙ ground arith

module _ (platform : Platform) (id : String) (hash : Hash) (scopes : List Scope) where
  abbrev pub hash_hits : IndexKey → Bool
  hash_hits k =
      some_of
        (hits (normalize_filter platform (lookup hash "severity"))
          (normalize_filter platform (lookup hash "category")) k)
        scopes

  pub every-index_suggestion :
      every is_index_command (index_suggestion platform id hash scopes) ≡ true
  unfolding index_suggestion
  every-index_suggestion =
      every-zadd_scopes (ranked_score platform (lookup hash "createdAt") (lookup hash "severity"))
        (normalize_filter platform (lookup hash "severity"))
        (normalize_filter platform (lookup hash "category")) id scopes

  pub every-unindex_suggestion :
      every is_index_command (unindex_suggestion platform id hash scopes) ≡ true
  unfolding unindex_suggestion
  every-unindex_suggestion =
      every-zrem_scopes (normalize_filter platform (lookup hash "severity"))
        (normalize_filter platform (lookup hash "category")) id scopes

  pub indexed_all-index_suggestion :
      (k : IndexKey) (m : String) (b : Bool)
      → indexed_all (index_suggestion platform id hash scopes) k m b
        ≡ (((id == m) && hash_hits k) || b)
  unfolding index_suggestion
  indexed_all-index_suggestion k m b =
      indexed_all-zadd_scopes
        (ranked_score platform (lookup hash "createdAt") (lookup hash "severity"))
        (normalize_filter platform (lookup hash "severity"))
        (normalize_filter platform (lookup hash "category")) id scopes k m b

  pub indexed_all-unindex_suggestion :
      (k : IndexKey) (m : String) (b : Bool)
      → indexed_all (unindex_suggestion platform id hash scopes) k m b
        ≡ (not ((id == m) && hash_hits k) && b)
  unfolding unindex_suggestion
  indexed_all-unindex_suggestion k m b =
      indexed_all-zrem_scopes (normalize_filter platform (lookup hash "severity"))
        (normalize_filter platform (lookup hash "category")) id scopes k m b
