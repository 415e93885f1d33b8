-- ===== src/Suggestion/Kept/Fetch.antt =====
-- A suggestion that was inserted is read back (`getById`) as an open one.
use thalamus_usecase_ssa.Prelude.{ℕ, ◌≡◌, String, Option, none, some, string_Eq}
use thalamus_usecase_ssa.Suggestion.{
  Hash, lookup, filled, or_blank, Platform, Schema, GenericInsertSuggestion, FlatFields,
  serialize_domain_fields, deserialize_domain_fields,
}
use thalamus_usecase_ssa.Suggestion.Store.{blob_text, flat_texts, SuggestionRow, to_row}
use thalamus_usecase_ssa.Suggestion.Kept.{IsPlatform}

module _ (platform : Platform) (promise : IsPlatform platform) (schema : Option Schema)
    (domain : String) where
  -- The row of a suggestion on which nothing was done yet.
  pub record IsOpen (input : GenericInsertSuggestion) (now : ℕ) (id : String) (d : Hash)
      : Type 0 where
    pub row : SuggestionRow
    pub found : to_row platform schema domain d ≡ some row
    pub named : row.id ≡ id
    pub undecided : row.accepted ≡ none
    pub waiting : row.reviewed_at ≡ none
    pub unresolved : row.resolution_status ≡ "pending"
    pub created : row.created_at ≡ platform.iso_date now
    pub payload : row.resolution_payload ≡ filled (some (or_blank input.resolution_payload))
    pub serialized : FlatFields
    pub serializes : serialize_domain_fields platform schema input.domain_fields ≡ some serialized
    pub flat :
        (name value : String)
        → lookup (flat_texts platform schema domain serialized.flat_fields) name ≡ some value
        → lookup d name ≡ some value
    pub blob : lookup d "domainBlob" ≡ some (blob_text platform schema domain serialized.blob)
    pub fields : row.domain_fields ≡ deserialize_domain_fields platform schema d
