-- ===== src/Suggestion/Memory.antt =====
-- A Redis in memory, which behaves as the model asks.
use thalamus_usecase_ssa.Prelude.{
  ℕ, ◌+◌, ◌≡◌, refl, subst, ◌∙◌, String, Bool, true, false, not, ◌&&◌, ◌||◌, List, [], ◌∷◌, ◌++◌,
  ◌==◌, string_Eq, ==_iff, if◌then◌else◌, keep, has, take, Bool-cases, inl, inr, arith,
}
use thalamus_usecase_ssa.Suggestion.{
  Hash, lookup, IndexKey, Command, hset, expire, zadd, zrem, sadd_pending, srem_pending,
  lpush_feedback, ltrim_feedback, incrby_counter,
}
use thalamus_usecase_ssa.Suggestion.Store.{
  Redis, key_eq, over, field_after, indexed_after, waits_after, feedback_after, counter_after,
}

pub record Memory : Type 0 where
  pub hashes : String → Hash
  pub members : IndexKey → List String
  pub waiting : List String
  pub entries : List String
  pub count : ℕ

abbrev pub add : String → List String → List String
add id ids = if has ids id then ids else id ∷ ids

abbrev pub remove : String → List String → List String
remove id ids = keep (λ other. not (id == other)) ids

abbrev pub apply : Command → Memory → Memory
apply (hset key fields) m = record m {
  hashes = λ id. if key == id then fields ++ m.hashes id else m.hashes id;
}
apply (expire key seconds) m = m
apply (zadd key score id) m = record m {
  members = λ k. if key_eq key k then add id (m.members k) else m.members k;
}
apply (zrem key id) m = record m {
  members = λ k. if key_eq key k then remove id (m.members k) else m.members k;
}
apply (sadd_pending id) m = record m { waiting = add id m.waiting }
apply (srem_pending id) m = record m { waiting = remove id m.waiting }
apply (lpush_feedback entry) m = record m { entries = entry ∷ m.entries }
apply (ltrim_feedback last) m = record m { entries = take (last + 1) m.entries }
apply (incrby_counter n) m = record m { count = m.count + n }

lookup-append :
    (fields old : Hash) (name : String)
    → lookup (fields ++ old) name ≡ over (lookup fields name) (lookup old name)
lookup-append [] old name = refl
lookup-append ((key, value) ∷ fields) old name = elim (Bool-cases (key == name)) [
  | inl a ↦ rw a refl
  | inr a ↦ rw a (lookup-append fields old name)
]

has-add : (id m : String) (ids : List String) → has (add id ids) m ≡ ((id == m) || has ids m)
has-add id m ids = elim (Bool-cases (has ids id)) [
  | inr new ↦ rw new refl
  | inl old ↦ elim (Bool-cases (id == m)) [
    | inl same ↦ rw (old, same) (subst (λ x. has ids x ≡ true) ((==_iff id m).0 same) old)
    | inr other ↦ rw (old, other) refl
  ]
]

removed : (a b : Bool) → (not a && b) ≡ (not a && (a || b))
removed true b = refl
removed false b = refl

has-remove :
    (id m : String) (ids : List String) → has (remove id ids) m ≡ (not (id == m) && has ids m)
has-remove id m [] = ground arith
has-remove id m (x ∷ ids) = elim (Bool-cases (id == x)) [
  | inl same ↦
      let e = (==_iff id x).0 same in
      rw same (
        has-remove id m ids
        ∙ subst (λ y. (not (id == m) && has ids m) ≡ (not (id == m) && ((y == m) || has ids m))) e
            (removed (id == m) (has ids m)))
  | inr other ↦ elim (Bool-cases (x == m)) [
    | inl here ↦
        let apart : (id == m) ≡ false =
          subst (λ y. (id == y) ≡ false) ((==_iff x m).0 here) other in
        rw (other, here, apart) refl
    | inr later ↦ rw (other, later) (has-remove id m ids)
  ]
]

pub field_law :
    (c : Command) (s : Memory) (id name : String)
    → lookup ((apply c s).hashes id) name ≡ field_after c id name (lookup (s.hashes id) name)
field_law (hset key fields) s id name = elim (Bool-cases (key == id)) [
  | inl a ↦ rw a (lookup-append fields (s.hashes id) name)
  | inr a ↦ rw a refl
]
field_law (expire key seconds) s id name = refl
field_law (zadd key score member) s id name = refl
field_law (zrem key member) s id name = refl
field_law (sadd_pending member) s id name = refl
field_law (srem_pending member) s id name = refl
field_law (lpush_feedback entry) s id name = refl
field_law (ltrim_feedback last) s id name = refl
field_law (incrby_counter n) s id name = refl

pub indexed_law :
    (c : Command) (s : Memory) (k : IndexKey) (m : String)
    → has ((apply c s).members k) m ≡ indexed_after c k m (has (s.members k) m)
indexed_law (zadd key score id) s k m = elim (Bool-cases (key_eq key k)) [
  | inl a ↦ rw a (has-add id m (s.members k))
  | inr a ↦ rw a refl
]
indexed_law (zrem key id) s k m = elim (Bool-cases (key_eq key k)) [
  | inl a ↦ rw a (has-remove id m (s.members k))
  | inr a ↦ rw a refl
]
indexed_law (hset key fields) s k m = refl
indexed_law (expire key seconds) s k m = refl
indexed_law (sadd_pending member) s k m = refl
indexed_law (srem_pending member) s k m = refl
indexed_law (lpush_feedback entry) s k m = refl
indexed_law (ltrim_feedback last) s k m = refl
indexed_law (incrby_counter n) s k m = refl

pub waits_law :
    (c : Command) (s : Memory) (m : String)
    → has (apply c s).waiting m ≡ waits_after c m (has s.waiting m)
waits_law (sadd_pending id) s m = has-add id m s.waiting
waits_law (srem_pending id) s m = has-remove id m s.waiting
waits_law (hset key fields) s m = refl
waits_law (expire key seconds) s m = refl
waits_law (zadd key score id) s m = refl
waits_law (zrem key id) s m = refl
waits_law (lpush_feedback entry) s m = refl
waits_law (ltrim_feedback last) s m = refl
waits_law (incrby_counter n) s m = refl

pub feedback_law : (c : Command) (s : Memory) → (apply c s).entries ≡ feedback_after c s.entries
feedback_law (lpush_feedback entry) s = refl
feedback_law (ltrim_feedback last) s = refl
feedback_law (hset key fields) s = refl
feedback_law (expire key seconds) s = refl
feedback_law (zadd key score id) s = refl
feedback_law (zrem key id) s = refl
feedback_law (sadd_pending id) s = refl
feedback_law (srem_pending id) s = refl
feedback_law (incrby_counter n) s = refl

pub counter_law : (c : Command) (s : Memory) → (apply c s).count ≡ counter_after c s.count
counter_law (incrby_counter n) s = refl
counter_law (hset key fields) s = refl
counter_law (expire key seconds) s = refl
counter_law (zadd key score id) s = refl
counter_law (zrem key id) s = refl
counter_law (sadd_pending id) s = refl
counter_law (srem_pending id) s = refl
counter_law (lpush_feedback entry) s = refl
counter_law (ltrim_feedback last) s = refl

abbrev pub memory_redis : Redis Memory
memory_redis = record {
  apply = apply;
  hgetall = λ m id. m.hashes id;
  indexed = λ m k id. has (m.members k) id;
  waits = λ m id. has m.waiting id;
  feedback = λ m. m.entries;
  counter = λ m. m.count;
  field_law = field_law;
  indexed_law = indexed_law;
  waits_law = waits_law;
  feedback_law = feedback_law;
  counter_law = counter_law;
}
