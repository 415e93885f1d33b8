-- ===== src/Cycle/Targets.antt =====
-- The targets of a verification: the loop over the edges of all findings in
-- `buildCycleVerification`, and `pushVerificationTarget`.
-- `key` is the text of a type and a number with a colon between them; `is_relevant` is the port
-- that tells which entity types matter.
use mathlib.Core.List.{Memᴰ}
use thalamus_usecase_ssa.Prelude.{
  ℕ, ◌≡◌, refl, ◌∙◌, ap, sym, subst, String, Bool, true, ◌||◌, Option, List, [], ◌∷◌, ◌++◌, map,
  string_Eq, ==_refl, if◌then◌else◌, has, has-append, Distinct, Distinct-snoc, All, All-append,
  arith, Bool-cases, inl, inr,
}
use thalamus_usecase_ssa.Cycle.{CortexFinding, Edge}

-- A hint at what should be verified.
pub record TargetHint : Type 0 where
  pub entity_type : String
  pub entity_id : ℕ
  pub source_cortex : Option String
  pub source_title : String
  pub confidence : ℕ

module _ (key : String → ℕ → String) (is_relevant : String → Bool) where
  abbrev pub hint_of : CortexFinding → Edge → TargetHint
  hint_of f e = record {
    entity_type = e.entity_type;
    entity_id = e.entity_id;
    source_cortex = f.source_cortex;
    source_title = f.title;
    confidence = f.confidence;
  }

  abbrev pub keys : List TargetHint → List String
  keys = map (λ h. key h.entity_type h.entity_id)

  -- `pushVerificationTarget(seen, acc, hint)`: the keys seen are those of the hints.
  pub push_target : List TargetHint → TargetHint → List TargetHint
  push_target hints h =
      if has (keys hints) (key h.entity_type h.entity_id) then hints else hints ++ h ∷ []

  pub push_edges : CortexFinding → List Edge → List TargetHint → List TargetHint
  unfolding push_target
  push_edges f [] hints = hints
  push_edges f (e ∷ es) hints =
      push_edges f es (if is_relevant e.entity_type then push_target hints (hint_of f e) else hints)

  unfoldable pub push_findings : List CortexFinding → List TargetHint → List TargetHint
  unfolding push_edges
  push_findings [] hints = hints
  push_findings (f ∷ fs) hints = push_findings fs (push_edges f f.edges hints)

  keys-append : (hs gs : List TargetHint) → keys (hs ++ gs) ≡ keys hs ++ keys gs
  keys-append [] gs = refl
  keys-append (h ∷ hs) gs = ap (λ l. key h.entity_type h.entity_id ∷ l) (keys-append hs gs)

  -- Hints are added, none twice and none outside `P`.
  record Grows (P : TargetHint → Type 0) (before after : List TargetHint) : Type 0 where
    distinct : Distinct (keys before) → Distinct (keys after)
    stays : (k : String) → has (keys before) k ≡ true → has (keys after) k ≡ true
    allowed : All P before → All P after

  push_target-Grows :
      (P : TargetHint → Type 0) (hints : List TargetHint) (h : TargetHint)
      → P h
      → Grows P hints (push_target hints h)
        × (has (keys (push_target hints h)) (key h.entity_type h.entity_id) ≡ true)
  unfolding push_target
  push_target-Grows P hints h p =
      elim (Bool-cases (has (keys hints) (key h.entity_type h.entity_id))) [
        | inl old ↦ rw old (record { distinct = λ d. d; stays = λ k m. m; allowed = λ a. a }, old)
        | inr new ↦ rw new (
          record {
            distinct = λ d.
                subst (λ l. Distinct l) (sym (keys-append hints (h ∷ [])))
                  (Distinct-snoc (keys hints) (key h.entity_type h.entity_id) d new);
            stays = λ k m.
                ap (λ l. has l k) (keys-append hints (h ∷ []))
                ∙ has-append (keys hints) (keys (h ∷ [])) k
                ∙ ap (λ b. b || has (keys (h ∷ [])) k) m;
            allowed = λ a. All-append P hints (h ∷ []) a (p, tt);
          },
          ap (λ l. has l (key h.entity_type h.entity_id)) (keys-append hints (h ∷ []))
              ∙ has-append (keys hints) (keys (h ∷ [])) (key h.entity_type h.entity_id)
              ∙ ap (λ b. b || has (keys (h ∷ [])) (key h.entity_type h.entity_id)) new
              ∙ ground (arith, ==_refl (key h.entity_type h.entity_id)),
        )
      ]

  then-Grows :
      (P : TargetHint → Type 0) (a b c : List TargetHint) → Grows P a b → Grows P b c → Grows P a c
  then-Grows P a b c g h = record {
    distinct = λ d. h.distinct (g.distinct d);
    stays = λ k m. h.stays k (g.stays k m);
    allowed = λ x. h.allowed (g.allowed x);
  }

  -- Each edge of a relevant type has its key among the hints.
  abbrev pub IsCovered : List TargetHint → Edge → Type 0
  IsCovered hints e =
      is_relevant e.entity_type ≡ true → has (keys hints) (key e.entity_type e.entity_id) ≡ true

  -- A hint at an edge of a relevant type of one of these findings, with what both say.
  pub data IsFrom : List CortexFinding → TargetHint → Type 0 where
    from_edge :
        {fs : List CortexFinding} {h : TargetHint} (f : CortexFinding) (e : Edge)
        → Memᴰ f fs
        → Memᴰ e f.edges
        → is_relevant e.entity_type ≡ true
        → h.entity_type ≡ e.entity_type
        → h.entity_id ≡ e.entity_id
        → h.source_cortex ≡ f.source_cortex
        → h.source_title ≡ f.title
        → h.confidence ≡ f.confidence
        → IsFrom fs h

  module _ (found : List CortexFinding) where
    covers-Grows :
        (es : List Edge) (a b : List TargetHint)
        → Grows (IsFrom found) a b
        → All (IsCovered a) es
        → All (IsCovered b) es
    covers-Grows [] a b g c = tt
    covers-Grows (e ∷ es) a b g c =
        (λ r. g.stays (key e.entity_type e.entity_id) (c.0 r), covers-Grows es a b g c.1)

    same_Grows : (hints : List TargetHint) → Grows (IsFrom found) hints hints
    same_Grows hints = record { distinct = λ d. d; stays = λ k m. m; allowed = λ a. a }

    push_if-Grows :
        (f : CortexFinding) (e : Edge) (hints : List TargetHint)
        → Memᴰ f found
        → Memᴰ e f.edges
        → let after =
            if is_relevant e.entity_type then push_target hints (hint_of f e) else hints in
          Grows (IsFrom found) hints after × IsCovered after e
    push_if-Grows f e hints mf me = elim (Bool-cases (is_relevant e.entity_type)) [
      | inl r ↦
          let source : IsFrom found (hint_of f e) =
            from_edge f e mf me r refl refl refl refl refl in
          let (g, m) = push_target-Grows (IsFrom found) hints (hint_of f e) source in
          rw r (g, λ x. m)
      | inr i ↦ rw i (same_Grows hints, λ x. cc)
    ]

    push_edges-Grows :
        (f : CortexFinding) (es : List Edge) (hints : List TargetHint)
        → Memᴰ f found
        → ((e : Edge) → Memᴰ e es → Memᴰ e f.edges)
        → Grows (IsFrom found) hints (push_edges f es hints)
          × All (IsCovered (push_edges f es hints)) es
    unfolding push_edges
    push_edges-Grows f [] hints mf me = (same_Grows hints, tt)
    push_edges-Grows f (e ∷ es) hints mf me =
        let (g, m) = push_if-Grows f e hints mf (me e (Memᴰ.head refl)) in
        let (later, all) =
          push_edges-Grows f es
            (if is_relevant e.entity_type then push_target hints (hint_of f e) else hints) mf
            (λ d i. me d (Memᴰ.tail i)) in
        (then-Grows (IsFrom found) _ _ _ g later, (λ r. later.stays _ (m r), all))

    push_findings-Grows :
        (fs : List CortexFinding) (hints : List TargetHint)
        → ((f : CortexFinding) → Memᴰ f fs → Memᴰ f found)
        → Grows (IsFrom found) hints (push_findings fs hints)
          × All (λ f. All (IsCovered (push_findings fs hints)) f.edges) fs
    unfolding push_findings
    push_findings-Grows [] hints mf = (same_Grows hints, tt)
    push_findings-Grows (f ∷ fs) hints mf =
        let (g, here) = push_edges-Grows f f.edges hints (mf f (Memᴰ.head refl)) (λ e i. i) in
        let (later, all) =
          push_findings-Grows fs (push_edges f f.edges hints) (λ d i. mf d (Memᴰ.tail i)) in
        (
          then-Grows (IsFrom found) _ _ _ g later,
          (covers-Grows f.edges (push_edges f f.edges hints) _ later here, all),
        )

  -- The targets of a verification have different keys; each has the type and the number of an edge
  -- of a relevant type of some finding, and the title, the source and the confidence of that
  -- finding; and no relevant type and number that some finding has an edge to is missed.
  pub push_findings-IsCovered :
      (fs : List CortexFinding)
      → Distinct (keys (push_findings fs []))
        × All (IsFrom fs) (push_findings fs [])
        × All (λ f. All (IsCovered (push_findings fs [])) f.edges) fs
  push_findings-IsCovered fs =
      let (g, all) = push_findings-Grows fs fs [] (λ f i. i) in (g.distinct tt, g.allowed tt, all)
