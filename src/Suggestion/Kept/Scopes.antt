-- ===== src/Suggestion/Kept/Scopes.antt =====
-- The keys of one scope are not hit by the rows of another.
use thalamus_usecase_ssa.Prelude.{
  ◌≡◌, refl, ◌⊎◌, String, Bool, true, false, not, ◌&&◌, ◌||◌, Option, none, some, string_Eq,
  if◌then◌else◌, inl, inr, arith,
}
use thalamus_usecase_ssa.Suggestion.{
  Scope, all, pending, reviewed, IndexKey, legacy_index, scope_index, severity_index,
  category_index,
}
use thalamus_usecase_ssa.Suggestion.Store.{scope_eq, key_eq}
use thalamus_usecase_ssa.Suggestion.Index.{hits, part_hits}

abbrev pub key_in : Scope → IndexKey → Bool
key_in scope legacy_index = false
key_in scope (scope_index t) = scope_eq scope t
key_in scope (severity_index t part) = scope_eq scope t
key_in scope (category_index t part) = scope_eq scope t

severity_miss :
    (scope : Scope) (severity : Option String) (k : IndexKey)
    → key_in scope k ≡ false
    → part_hits (severity_index scope) severity k ≡ false
severity_miss scope none k h = refl
severity_miss scope (some v) legacy_index h = refl
severity_miss scope (some v) (scope_index t) h = refl
severity_miss scope (some v) (severity_index t part) h = ground (arith, h)
severity_miss scope (some v) (category_index t part) h = refl

category_miss :
    (scope : Scope) (category : Option String) (k : IndexKey)
    → key_in scope k ≡ false
    → part_hits (category_index scope) category k ≡ false
category_miss scope none k h = refl
category_miss scope (some v) legacy_index h = refl
category_miss scope (some v) (scope_index t) h = refl
category_miss scope (some v) (severity_index t part) h = refl
category_miss scope (some v) (category_index t part) h = ground (arith, h)

scope_miss :
    (scope : Scope) (k : IndexKey) → key_in scope k ≡ false → key_eq (scope_index scope) k ≡ false
scope_miss scope legacy_index h = refl
scope_miss scope (scope_index t) h = h
scope_miss scope (severity_index t part) h = refl
scope_miss scope (category_index t part) h = refl

pub hits_miss :
    (severity category : Option String) (scope : Scope) (k : IndexKey)
    → key_in scope k ≡ false
    → hits severity category k scope ≡ false
hits_miss severity category scope k h =
    rw (scope_miss scope k h, severity_miss scope severity k h, category_miss scope category k h)
      refl

apart_keys :
    (k : IndexKey)
    → (key_in pending k ≡ false) ⊎ ((key_eq legacy_index k ≡ false) × (key_in all k ≡ false))
apart_keys legacy_index = inl refl
apart_keys (scope_index all) = inl refl
apart_keys (scope_index pending) = inr (refl, refl)
apart_keys (scope_index reviewed) = inl refl
apart_keys (severity_index all part) = inl refl
apart_keys (severity_index pending part) = inr (refl, refl)
apart_keys (severity_index reviewed part) = inl refl
apart_keys (category_index all part) = inl refl
apart_keys (category_index pending part) = inr (refl, refl)
apart_keys (category_index reviewed part) = inl refl

-- A row that is moved from the pending indexes to the reviewed ones is where it belongs.
pub moved :
    (severity category : Option String) (was : Bool) (k : IndexKey)
    → ((hits severity category k reviewed || false)
        || (not (hits severity category k pending || false)
            && (key_eq legacy_index k
                || (hits severity category k all
                    || (hits severity category k (if was then reviewed else pending) || false)))))
      ≡ (key_eq legacy_index k
          || (hits severity category k all || (hits severity category k reviewed || false)))
moved severity category true k = elim (apart_keys k) [
  | inl a ↦ rw (hits_miss severity category pending k a) (ground arith)
  | inr (a, b) ↦ rw (a, hits_miss severity category all k b) (ground arith)
]
moved severity category false k = elim (apart_keys k) [
  | inl a ↦ rw (hits_miss severity category pending k a) (ground arith)
  | inr (a, b) ↦ rw (a, hits_miss severity category all k b) (ground arith)
]
