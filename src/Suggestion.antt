-- ===== src/Suggestion.antt =====
-- packages/sweep/src/repositories/sweep.repository.ts: suggestions in Redis, with their indexes.
-- A pipeline is the list of its commands. A key of an index is what `scopeIndex`, `severityIndex`
-- and `categoryIndex` build it from. What the runtime gives (`String`, `trim` and `toLowerCase`,
-- dates, JSON) and the schema of a domain are parameters. Records have no key twice, and where one
-- is put over another, its fields are looked up first.
use thalamus_usecase_ssa.Prelude.{
  ℕ, ◌+◌, ◌*◌, String, Bool, true, false, ◌&&◌, Option, none, some, List, [], ◌∷◌, ◌++◌, map, ◌==◌,
  string_Eq, if◌then◌else◌, has, some_of,
}
pub mod Store
pub mod Listing
pub mod Index
pub mod Kept
pub mod Scan
pub mod Exact
pub mod Page
pub mod Batch
pub mod Stats
pub mod Memory
mod Samples

pub data Value : Type 0 where
  null_value : Value
  text_value : String → Value
  number_value : ℕ → Value
  flag_value : Bool → Value
  object_value : String → Value

abbrev pub Fields : Type 0
Fields = List (String × Value)

-- `Record<string, string>`
abbrev pub Hash : Type 0
Hash = List (String × String)

abbrev pub lookup : Hash → String → Option String
lookup [] name = none
lookup ((key, value) ∷ h) name = if key == name then some value else lookup h name

abbrev pub or_blank : Option String → String
or_blank none = ""
or_blank (some text) = text

-- `d.name || null`
abbrev pub filled : Option String → Option String
filled none = none
filled (some text) = if text == "" then none else some text

pub data Scope : Type 0 where
  all pending reviewed : Scope

-- `sweep:index:all`, and the ranked indexes.
pub data IndexKey : Type 0 where
  legacy_index : IndexKey
  scope_index : Scope → IndexKey
  severity_index category_index : Scope → String → IndexKey

pub data Command : Type 0 where
  hset : String → Hash → Command
  expire : String → ℕ → Command
  zadd : IndexKey → ℕ → String → Command
  zrem : IndexKey → String → Command
  sadd_pending srem_pending : String → Command
  lpush_feedback : String → Command
  ltrim_feedback : ℕ → Command
  incrby_counter : ℕ → Command

pub record GenericInsertSuggestion : Type 0 where
  pub domain : String
  pub domain_fields : Fields
  pub resolution_payload : Option String
  pub sim_swarm_id : Option String
  pub sim_distribution : Option String

pub record FlatFields : Type 0 where
  pub flat_fields : List (String × Option String)
  pub blob : Fields

pub record Schema : Type 0 where
  pub serialize : Fields → FlatFields
  pub deserialize : List (String × Option String) → Fields → Fields

pub record Platform : Type 0 where
  pub number_text : ℕ → String
  pub object_text : String → String
  pub trim_lower : String → String
  pub parse_date : String → Option ℕ
  pub iso_date : ℕ → String
  pub stringify : Fields → String
  pub parse_object : String → Option Fields
  pub stringify_feedback : Bool → Option String → Fields → String

abbrev pub reserved_hash_keys : List String
reserved_hash_keys =
    "id" ∷ "domain" ∷ "accepted" ∷ "reviewerNote" ∷ "reviewedAt" ∷ "createdAt" ∷ "resolutionPayload"
    ∷ "resolutionStatus" ∷ "resolvedAt" ∷ "resolutionErrors" ∷ "pendingSelections" ∷ "simSwarmId"
    ∷ "simDistribution" ∷ "domainBlob" ∷ []

abbrev pub zadd_if : (String → IndexKey) → ℕ → String → Option String → List Command
zadd_if index score id none = []
zadd_if index score id (some part) = zadd (index part) score id ∷ []

-- The loop of `indexSuggestion` over the scopes.
unfoldable pub zadd_scopes : ℕ → Option String → Option String → String → List Scope → List Command
zadd_scopes score severity category id [] = []
zadd_scopes score severity category id (scope ∷ scopes) =
    zadd (scope_index scope) score id ∷ zadd_if (severity_index scope) score id severity
    ++ zadd_if (category_index scope) score id category
    ++ zadd_scopes score severity category id scopes

abbrev pub zrem_if : (String → IndexKey) → String → Option String → List Command
zrem_if index id none = []
zrem_if index id (some part) = zrem (index part) id ∷ []

-- The loop of `unindexSuggestion` over the scopes.
unfoldable pub zrem_scopes : Option String → Option String → String → List Scope → List Command
zrem_scopes severity category id [] = []
zrem_scopes severity category id (scope ∷ scopes) =
    zrem (scope_index scope) id ∷ zrem_if (severity_index scope) id severity
    ++ zrem_if (category_index scope) id category
    ++ zrem_scopes severity category id scopes

module _ (platform : Platform) where
  -- `normalizeFilter(value)` of a text that may be missing
  abbrev pub normalize_filter : Option String → Option String
  normalize_filter none = none
  normalize_filter (some value) = filled (some (platform.trim_lower value))

  abbrev pub severity_priority : Option String → ℕ
  severity_priority severity = elim (normalize_filter severity) [
    | none ↦ 0
    | some level ↦
        if level == "critical"
        then 3
        else if level == "warning"
        then 2
        else if level == "info"
        then 1
        else 0
  ]

  -- `rankedScore(createdAt, severity)`; a date before 1970 is none.
  abbrev pub ranked_score : Option String → Option String → ℕ
  ranked_score created_at severity =
      let parsed : Option ℕ = elim created_at [
        | none ↦ none
        | some text ↦ platform.parse_date text
      ] in
      let time : ℕ = elim parsed [ none ↦ 0 | some ms ↦ ms ] in
      severity_priority severity * 10000000000000 + time

  -- `indexSuggestion(pipe, id, hash, scopes)`
  unfoldable pub index_suggestion : String → Hash → List Scope → List Command
  index_suggestion id hash scopes =
      zadd_scopes (ranked_score (lookup hash "createdAt") (lookup hash "severity"))
        (normalize_filter (lookup hash "severity")) (normalize_filter (lookup hash "category")) id
        scopes

  -- `unindexSuggestion(pipe, id, hash, scopes)`
  unfoldable pub unindex_suggestion : String → Hash → List Scope → List Command
  unindex_suggestion id hash scopes =
      zrem_scopes (normalize_filter (lookup hash "severity"))
        (normalize_filter (lookup hash "category")) id scopes

  -- `fallbackSerializeDomainFields(input)`, its flat fields as texts
  pub fallback_serialize_domain_fields : Fields → FlatFields
  fallback_serialize_domain_fields [] = record { flat_fields = []; blob = [] }
  fallback_serialize_domain_fields ((key, value) ∷ input) =
      let rest = fallback_serialize_domain_fields input in
      let flat : Option String → FlatFields =
        λ text. record { flat_fields = (key, text) ∷ rest.flat_fields; blob = rest.blob } in
      elim value [
        | null_value ↦ flat none
        | text_value text ↦ flat (some text)
        | number_value n ↦ flat (some (platform.number_text n))
        | flag_value b ↦ flat (some (if b then "true" else "false"))
        | object_value json ↦ record {
          flat_fields = rest.flat_fields;
          blob = (key, object_value json) ∷ rest.blob;
        }
      ]

  -- `parseBlob(raw)`
  abbrev pub parse_blob : Option String → Fields
  parse_blob raw = elim (filled raw) [
    | none ↦ []
    | some text ↦ elim (platform.parse_object text) [ none ↦ [] | some fields ↦ fields ]
  ]

-- `extractFlatFields(d)`
abbrev pub extract_flat_fields : Hash → List (String × Option String)
extract_flat_fields [] = []
extract_flat_fields ((key, value) ∷ d) =
    if has reserved_hash_keys key
    then extract_flat_fields d
    else (key, filled (some value)) ∷ extract_flat_fields d

abbrev pub value_of : String × Option String → String × Value
value_of (key, none) = (key, null_value)
value_of (key, some text) = (key, text_value text)

module _ (platform : Platform) (schema : Option Schema) where
  -- `serializeDomainFields(input)`; `none` is the error of a reserved key.
  unfoldable pub serialize_domain_fields : Fields → Option FlatFields
  unfolding fallback_serialize_domain_fields
  serialize_domain_fields input =
      let serialized : FlatFields = elim schema [
        | none ↦ fallback_serialize_domain_fields platform input
        | some s ↦ s.serialize input
      ] in
      if some_of (λ field. has reserved_hash_keys field.0) serialized.flat_fields
      then none
      else some serialized

  -- `deserializeDomainFields(d)`
  abbrev pub deserialize_domain_fields : Hash → Fields
  deserialize_domain_fields d = elim schema [
    | none ↦ parse_blob platform (lookup d "domainBlob") ++ map value_of (extract_flat_fields d)
    | some s ↦ s.deserialize (extract_flat_fields d) (parse_blob platform (lookup d "domainBlob"))
  ]
