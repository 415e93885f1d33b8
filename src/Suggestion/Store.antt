-- ===== src/Suggestion/Store.antt =====
-- sweep.repository.ts: insertion, review and the stored result of a resolution.
-- Redis is what its documentation says of each command, on what can be read from it; keys do not
-- expire here.
use thalamus_usecase_ssa.Prelude.{
  ℕ, ◌+◌, ◌-◌, ◌≡◌, String, Bool, true, false, not, ◌&&◌, ◌||◌, Option, none, some, List, [], ◌∷◌,
  ◌++◌, map, ◌==◌, string_Eq, if◌then◌else◌, length, take,
}
use thalamus_usecase_ssa.Suggestion.{
  Hash, lookup, or_blank, filled, Scope, all, pending, reviewed, IndexKey, legacy_index,
  scope_index, severity_index, category_index, Command, hset, expire, zadd, zrem, sadd_pending,
  srem_pending, lpush_feedback, ltrim_feedback, incrby_counter, GenericInsertSuggestion, Schema,
  Platform, Fields, index_suggestion, unindex_suggestion, serialize_domain_fields,
  deserialize_domain_fields,
}

abbrev pub scope_eq : Scope → Scope → Bool
scope_eq all all = true
scope_eq pending pending = true
scope_eq reviewed reviewed = true
scope_eq _ _ = false

abbrev pub key_eq : IndexKey → IndexKey → Bool
key_eq legacy_index legacy_index = true
key_eq (scope_index s) (scope_index t) = scope_eq s t
key_eq (severity_index s a) (severity_index t b) = scope_eq s t && (a == b)
key_eq (category_index s a) (category_index t b) = scope_eq s t && (a == b)
key_eq _ _ = false

-- A field that is set, or else the old one.
abbrev pub over : Option String → Option String → Option String
over none old = old
over (some value) old = some value

-- What a field, the membership in an index, the membership in the pending set, the feedback and
-- the counter are after a command.
abbrev pub field_after : Command → String → String → Option String → Option String
field_after (hset key fields) id name old = if key == id then over (lookup fields name) old else old
field_after _ id name old = old

abbrev pub indexed_after : Command → IndexKey → String → Bool → Bool
indexed_after (zadd key score id) k m old = (key_eq key k && (id == m)) || old
indexed_after (zrem key id) k m old = not (key_eq key k && (id == m)) && old
indexed_after _ k m old = old

abbrev pub waits_after : Command → String → Bool → Bool
waits_after (sadd_pending id) m old = (id == m) || old
waits_after (srem_pending id) m old = not (id == m) && old
waits_after _ m old = old

abbrev pub feedback_after : Command → List String → List String
feedback_after (lpush_feedback entry) old = entry ∷ old
feedback_after (ltrim_feedback last) old = take (last + 1) old
feedback_after _ old = old

abbrev pub counter_after : Command → ℕ → ℕ
counter_after (incrby_counter n) old = old + n
counter_after _ old = old

-- The documented behaviour of the commands, for a Redis with the states `S`.
pub record Redis (S : Type 0) : Type 0 where
  pub apply : Command → S → S
  pub hgetall : S → String → Hash
  pub indexed : S → IndexKey → String → Bool
  pub waits : S → String → Bool
  pub feedback : S → List String
  pub counter : S → ℕ
  pub field_law :
      (c : Command) (s : S) (id name : String)
      → lookup (hgetall (apply c s) id) name ≡ field_after c id name (lookup (hgetall s id) name)
  pub indexed_law :
      (c : Command) (s : S) (k : IndexKey) (m : String)
      → indexed (apply c s) k m ≡ indexed_after c k m (indexed s k m)
  pub waits_law :
      (c : Command) (s : S) (m : String) → waits (apply c s) m ≡ waits_after c m (waits s m)
  pub feedback_law : (c : Command) (s : S) → feedback (apply c s) ≡ feedback_after c (feedback s)
  pub counter_law : (c : Command) (s : S) → counter (apply c s) ≡ counter_after c (counter s)

-- `pipe.exec()`
abbrev pub exec : {S : Type 0} → Redis S → List Command → S → S
exec redis [] s = s
exec redis (c ∷ pipe) s = exec redis pipe (redis.apply c s)

pub record SuggestionRow : Type 0 where
  pub id : String
  pub domain : String
  pub created_at : String
  pub accepted : Option Bool
  pub reviewed_at : Option String
  pub reviewer_note : Option String
  pub resolution_status : String
  pub resolved_at : Option String
  pub resolution_errors : Option String
  pub sim_swarm_id : Option String
  pub sim_distribution : Option String
  pub domain_fields : Fields
  pub resolution_payload : Option String

abbrev pub read_flag : Option String → Option Bool
read_flag none = none
read_flag (some text) =
    if text == "true" then some true else if text == "false" then some false else none

abbrev pub filled_or : String → Option String → String
filled_or other text = elim (filled text) [ none ↦ other | some t ↦ t ]

abbrev pub ttl_secs : ℕ
ttl_secs = 7776000

module _ (platform : Platform) (schema : Option Schema) (domain : String) where
  -- The row of a hash with an id.
  abbrev pub row_of : String → Hash → SuggestionRow
  row_of id d = record {
    id = id;
    domain = filled_or domain (lookup d "domain");
    created_at = or_blank (lookup d "createdAt");
    accepted = read_flag (lookup d "accepted");
    reviewed_at = filled (lookup d "reviewedAt");
    reviewer_note = filled (lookup d "reviewerNote");
    resolution_status = filled_or "pending" (lookup d "resolutionStatus");
    resolved_at = filled (lookup d "resolvedAt");
    resolution_errors = filled (lookup d "resolutionErrors");
    sim_swarm_id = filled (lookup d "simSwarmId");
    sim_distribution = filled (lookup d "simDistribution");
    domain_fields = deserialize_domain_fields platform schema d;
    resolution_payload = filled (lookup d "resolutionPayload");
  }

  -- `toRow(d)`
  unfoldable pub to_row : Hash → Option SuggestionRow
  to_row d = elim (filled (lookup d "id")) [ none ↦ none | some id ↦ some (row_of id d) ]

  -- `isEmptyRecord(blob) ? "" : JSON.stringify(blob)`
  abbrev pub blob_text : Fields → String
  blob_text [] = ""
  blob_text (field ∷ fields) = platform.stringify (field ∷ fields)

  -- The flat fields as texts.
  abbrev pub flat_texts : List (String × Option String) → Hash
  flat_texts = map (λ field. (field.0, or_blank field.1))

  -- The fields of `toHash` that are the same for each domain.
  abbrev pub base_hash : GenericInsertSuggestion → ℕ → String → Fields → Hash
  base_hash suggestion id created_at blob =
      ("id", platform.number_text id)
      ∷ ("domain", filled_or domain (some suggestion.domain))
      ∷ ("accepted", "")
      ∷ ("reviewerNote", "")
      ∷ ("reviewedAt", "")
      ∷ ("createdAt", created_at)
      ∷ ("resolutionPayload", or_blank suggestion.resolution_payload)
      ∷ ("resolutionStatus", "")
      ∷ ("resolvedAt", "")
      ∷ ("resolutionErrors", "")
      ∷ ("pendingSelections", "")
      ∷ ("simSwarmId", or_blank suggestion.sim_swarm_id)
      ∷ ("simDistribution", or_blank suggestion.sim_distribution)
      ∷ ("domainBlob", blob_text blob)
      ∷ []

  -- `toHash(suggestion, id, createdAt)`: the flat fields are spread over the others.
  unfoldable pub to_hash : GenericInsertSuggestion → ℕ → String → Option Hash
  to_hash suggestion id created_at =
      elim (serialize_domain_fields platform schema suggestion.domain_fields) [
        | none ↦ none
        | some serialized ↦ some (
            flat_texts serialized.flat_fields ++ base_hash suggestion id created_at serialized.blob)
      ]

  -- `enqueueWrite(pipe, suggestion, id, now)`
  unfoldable pub enqueue_write : GenericInsertSuggestion → ℕ → ℕ → Option (List Command)
  enqueue_write suggestion id now =
      let key = platform.number_text id in
      elim (to_hash suggestion id (platform.iso_date now)) [
        | none ↦ none
        | some hash ↦ some (
            hset key hash
            ∷ expire key ttl_secs
            ∷ zadd legacy_index now key
            ∷ sadd_pending key
            ∷ index_suggestion platform key hash (all ∷ pending ∷ []))
      ]

  -- The loop of `insertMany`.
  unfoldable pub enqueue_writes : List GenericInsertSuggestion → ℕ → ℕ → Option (List Command)
  enqueue_writes [] first_id now = some []
  enqueue_writes (suggestion ∷ suggestions) first_id now =
      let rest = enqueue_writes suggestions (first_id + 1) now in
      elim (enqueue_write suggestion first_id now) [
        | none ↦ none
        | some pipe ↦ elim rest [ none ↦ none | some pipes ↦ some (pipe ++ pipes) ]
      ]

  module _ {S : Type 0} (redis : Redis S) where
    -- `insertMany(suggestions)`; `none` is an error before the pipeline is sent.
    unfoldable pub insert_many : List GenericInsertSuggestion → ℕ → S → S × Option ℕ
    insert_many [] now s = (s, some 0)
    insert_many (suggestion ∷ suggestions) now s =
        let count = length (suggestion ∷ suggestions) in
        let s' = redis.apply (incrby_counter count) s in
        elim (enqueue_writes (suggestion ∷ suggestions) (redis.counter s' - count + 1) now) [
          | none ↦ (s', none)
          | some pipe ↦ (exec redis pipe s', some count)
        ]

    -- `insertGeneric(input)`
    unfoldable pub insert_generic : GenericInsertSuggestion → ℕ → S → S × Option String
    insert_generic input now s =
        let s' = redis.apply (incrby_counter 1) s in
        let id = redis.counter s' in
        elim (enqueue_write input id now) [
          | none ↦ (s', none)
          | some pipe ↦ (exec redis pipe s', some (platform.number_text id))
        ]

    -- `review(id, accepted, reviewerNote)`
    unfoldable pub review : String → Bool → Option String → ℕ → S → S × Bool
    review id accepted reviewer_note now s =
        let current = redis.hgetall s id in
        let changes =
          ("accepted", if accepted then "true" else "false")
          ∷ ("reviewerNote", or_blank reviewer_note)
          ∷ ("reviewedAt", platform.iso_date now)
          ∷ [] in
        let patched = changes ++ current in
        let pipe =
          hset id changes ∷ srem_pending id ∷ unindex_suggestion platform id patched (pending ∷ [])
          ++ index_suggestion platform id patched (reviewed ∷ []) in
        let fields : Fields = elim (to_row patched) [ none ↦ [] | some row ↦ row.domain_fields ] in
        let entry = platform.stringify_feedback accepted reviewer_note fields in
        elim (filled (lookup current "id")) [
          | none ↦ (s, false)
          | some present ↦
              (exec redis (pipe ++ lpush_feedback entry ∷ ltrim_feedback 199 ∷ []) s, true)
        ]

    -- `updateResolution(id, result)`; the lists are JSON texts.
    unfoldable pub update_suggestion :
        String → String → Option String → Option String → Option String → S → S
    update_suggestion id status resolved_at errors pending_selections s =
        redis.apply
          (hset id (
            ("resolutionStatus", status)
            ∷ ("resolvedAt", or_blank resolved_at)
            ∷ ("resolutionErrors", or_blank errors)
            ∷ ("pendingSelections", or_blank pending_selections)
            ∷ []))
          s
