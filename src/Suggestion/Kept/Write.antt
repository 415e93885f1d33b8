-- ===== src/Suggestion/Kept/Write.antt =====
-- What the pipeline of a suggestion writes, where its fields can be stored.
use thalamus_usecase_ssa.Prelude.{
  ℕ, ◌≡◌, refl, sym, ap, ◌∙◌, String, Bool, true, false, ◌++◌, has, some_of, ◌||◌, Option, none,
  some, List, [], ◌∷◌, ◌==◌, string_Eq, ==_iff, if◌then◌else◌, Bool-cases, Option-cases, inl, inr,
  arith,
}
use thalamus_usecase_ssa.Suggestion.{
  Hash, lookup, Fields, FlatFields, reserved_hash_keys, fallback_serialize_domain_fields, or_blank,
  all, pending, legacy_index, Command, hset, expire, zadd, sadd_pending, Platform, Schema,
  GenericInsertSuggestion, index_suggestion, serialize_domain_fields,
}
use thalamus_usecase_ssa.Suggestion.Store.{
  ttl_secs, blob_text, flat_texts, base_hash, to_hash, enqueue_write,
}
use thalamus_usecase_ssa.Suggestion.Kept.{IsPlatform}

module _ (platform : Platform) (promise : IsPlatform platform) (schema : Option Schema)
    (domain : String) where
  -- The pipeline of a suggestion whose fields can be stored.
  pub record Write (suggestion : GenericInsertSuggestion) (id now : ℕ) (pipe : List Command)
      : Type 0 where
    pub hash : Hash
    pub own : lookup hash "id" ≡ some (platform.number_text id)
    pub waiting : lookup hash "reviewedAt" ≡ some ""
    pub undecided : lookup hash "accepted" ≡ some ""
    pub unresolved : lookup hash "resolutionStatus" ≡ some ""
    pub payload : lookup hash "resolutionPayload" ≡ some (or_blank suggestion.resolution_payload)
    pub created : lookup hash "createdAt" ≡ some (platform.iso_date now)
    pub serialized : FlatFields
    pub serializes :
        serialize_domain_fields platform schema suggestion.domain_fields ≡ some serialized
    pub flat :
        (name value : String)
        → lookup (flat_texts platform schema domain serialized.flat_fields) name ≡ some value
        → lookup hash name ≡ some value
    pub blob : lookup hash "domainBlob" ≡ some (blob_text platform schema domain serialized.blob)
    pub shape :
        pipe
        ≡ hset (platform.number_text id) hash
          ∷ expire (platform.number_text id) ttl_secs
          ∷ zadd legacy_index now (platform.number_text id)
          ∷ sadd_pending (platform.number_text id)
          ∷ index_suggestion platform (platform.number_text id) hash (all ∷ pending ∷ [])

  abbrev pub pipe_or_none : Option (List Command) → List Command
  pipe_or_none none = []
  pipe_or_none (some pipe) = pipe

  or_false : (a b : Bool) → (a || b) ≡ false → (a ≡ false) × (b ≡ false)
  or_false a b h = ground arith

  guard-free :
      (given serialized : FlatFields)
      → (if some_of (λ field. has reserved_hash_keys field.0) given.flat_fields
          then none
          else some given)
        ≡ some serialized
      → some_of (λ field. has reserved_hash_keys field.0) serialized.flat_fields ≡ false
  guard-free given serialized h =
      elim (Bool-cases (some_of (λ field. has reserved_hash_keys field.0) given.flat_fields)) [
        | inl a ↦ let bad : none ≡ some serialized = rw a at h in cc
        | inr a ↦
            let same : given ≡ serialized = some-same given serialized (rw a at h) in
            ap (λ f. some_of (λ field. has reserved_hash_keys field.0) f.flat_fields) (sym same) ∙ a
      ]
    where
      some-same : (f g : FlatFields) → some f ≡ some g → f ≡ g
      some-same f g e = cc

  lookup-under_flat :
      (flat : List (String × Option String)) (base : Hash) (name : String)
      → has reserved_hash_keys name ≡ true
      → some_of (λ field. has reserved_hash_keys field.0) flat ≡ false
      → lookup (flat_texts platform schema domain flat ++ base) name ≡ lookup base name
  lookup-under_flat [] base name reserved free = refl
  lookup-under_flat ((key, text) ∷ flat) base name reserved free =
      let (own, others) = or_false _ _ free in
      elim (Bool-cases (key == name)) [
        | inl same ↦
            let e : key ≡ name = (==_iff key name).0 same in
            let bad : true ≡ false =
              sym reserved ∙ ap (λ k. has reserved_hash_keys k) (sym e) ∙ own in
            cc
        | inr other ↦ rw other (lookup-under_flat flat base name reserved others)
      ]

  lookup-over :
      (flat base : Hash) (name value : String)
      → lookup flat name ≡ some value
      → lookup (flat ++ base) name ≡ some value
  lookup-over [] base name value h = cc
  lookup-over ((key, text) ∷ flat) base name value h = elim (Bool-cases (key == name)) [
    | inl same ↦ rw same (rw same at h)
    | inr other ↦ rw other (lookup-over flat base name value (rw other at h))
  ]

  serialize_domain_fields-free :
      (input : Fields) (serialized : FlatFields)
      → serialize_domain_fields platform schema input ≡ some serialized
      → some_of (λ field. has reserved_hash_keys field.0) serialized.flat_fields ≡ false
  unfolding serialize_domain_fields
  serialize_domain_fields-free input serialized h =
      let given : FlatFields = elim schema [
        | none ↦ fallback_serialize_domain_fields platform input
        | some s ↦ s.serialize input
      ] in
      guard-free given serialized h

  pub enqueue_write-Write :
      (suggestion : GenericInsertSuggestion) (id now : ℕ) (pipe : List Command)
      → enqueue_write platform schema domain suggestion id now ≡ some pipe
      → Write suggestion id now pipe
  unfolding enqueue_write to_hash
  enqueue_write-Write suggestion id now pipe h =
      elim (Option-cases (serialize_domain_fields platform schema suggestion.domain_fields)) [
        | inl a ↦ let wrong : none ≡ some pipe = rw (enqueue_write, to_hash, a) at h in cc
        | inr (serialized, a) ↦
            let right = rw (enqueue_write, to_hash, a) at h in
            let free = serialize_domain_fields-free suggestion.domain_fields serialized a in
            let base =
              base_hash platform schema domain suggestion id (platform.iso_date now)
                serialized.blob in
            let under : (name : String)
                → has reserved_hash_keys name ≡ true
                → lookup (flat_texts platform schema domain serialized.flat_fields ++ base) name
                  ≡ lookup base name =
              λ name r. lookup-under_flat serialized.flat_fields base name r free in
            record {
              hash = flat_texts platform schema domain serialized.flat_fields ++ base;
              own = under "id" refl;
              waiting = under "reviewedAt" refl;
              undecided = under "accepted" refl;
              unresolved = under "resolutionStatus" refl;
              payload = under "resolutionPayload" refl;
              created = under "createdAt" refl;
              serialized = serialized;
              serializes = a;
              flat = λ name value is.
                  lookup-over (flat_texts platform schema domain serialized.flat_fields) base name
                    value is;
              blob = under "domainBlob" refl;
              shape = sym (ap pipe_or_none right);
            }
      ]
