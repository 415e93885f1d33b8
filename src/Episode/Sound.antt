-- ===== src/Episode/Sound.antt =====
-- What a match is made of.
use thalamus_usecase_ssa.Prelude.{
  ℕ, ◌-◌, ◌≡◌, refl, ap, ◌∙◌, String, true, false, Option, List, [], ◌∷◌, map, ◌==◌, string_Eq,
  ==_iff, keep, ◌⊎◌, inl, inr, Bool-cases,
}
use thalamus_usecase_ssa.Episode.{
  TemporalEvent, exceeds, is_open, match_from, match_any, contains_ordered_episode,
}

-- The first list is left of the second when some of its events are taken away.
abbrev pub IsWithin : List TemporalEvent → List TemporalEvent → Type 0
IsWithin [] ys = Unit
IsWithin (x ∷ xs) [] = ⊥
IsWithin (x ∷ xs) (y ∷ ys) = ((x ≡ y) × IsWithin xs ys) ⊎ IsWithin (x ∷ xs) ys

module _ (signature : TemporalEvent → String) (max_span max_gap : Option ℕ) where
  -- No event is too late after the first, nor after the one before it.
  abbrev pub IsPrompt : TemporalEvent → TemporalEvent → List TemporalEvent → Type 0
  IsPrompt first previous [] = Unit
  IsPrompt first previous (e ∷ es) =
      (exceeds max_span (e.timestamp - first.timestamp) ≡ false)
      × (exceeds max_gap (e.timestamp - previous.timestamp) ≡ false)
      × IsPrompt first e es

  -- Events that carry the signatures in order.
  record Match (first previous : TemporalEvent) (gs : List String) (es : List TemporalEvent)
      : Type 0 where
    chosen : List TemporalEvent
    within : IsWithin chosen es
    signed : map signature chosen ≡ gs
    prompt : IsPrompt first previous chosen

  pub record Episode (gs : List String) (es : List TemporalEvent) : Type 0 where
    pub first : TemporalEvent
    pub rest : List TemporalEvent
    pub within : IsWithin (first ∷ rest) es
    pub signed : map signature (first ∷ rest) ≡ gs
    pub prompt : IsPrompt first first rest

  skip :
      (first previous e : TemporalEvent) (gs : List String) (es : List TemporalEvent)
      → Match first previous gs es
      → Match first previous gs (e ∷ es)
  skip first previous e gs es m = record {
    chosen = m.chosen;
    within = later m.chosen m.within;
    signed = m.signed;
    prompt = m.prompt;
  }
    where
      later : (xs : List TemporalEvent) → IsWithin xs es → IsWithin xs (e ∷ es)
      later [] w = tt
      later (x ∷ xs) w = inr w

  match_from-Match :
      (first previous : TemporalEvent) (gs : List String) (es : List TemporalEvent)
      → match_from signature max_span max_gap first previous gs es ≡ true
      → Match first previous gs es
  unfolding match_from
  match_from-Match first previous [] es h = record {
    chosen = [];
    within = tt;
    signed = refl;
    prompt = tt;
  }
  match_from-Match first previous (g ∷ gs) [] h = cc
  match_from-Match first previous (g ∷ gs) (e ∷ es) h =
      elim (Bool-cases (exceeds max_span (e.timestamp - first.timestamp))) [
        | inl a ↦ let bad : false ≡ true = rw a at h in cc
        | inr a ↦ elim (Bool-cases (exceeds max_gap (e.timestamp - previous.timestamp))) [
          | inl b ↦ let bad : false ≡ true = rw (a, b) at h in cc
          | inr b ↦ elim (Bool-cases (signature e == g)) [
            | inl c ↦
                let m = match_from-Match first e gs es (rw (a, b, c) at h) in
                record {
                  chosen = e ∷ m.chosen;
                  within = inl (refl, m.within);
                  signed =
                      ap (λ x. x ∷ map signature m.chosen) ((==_iff (signature e) g).0 c)
                      ∙ ap (λ l. g ∷ l) m.signed;
                  prompt = (a, b, m.prompt);
                }
            | inr c ↦
                skip first previous e (g ∷ gs) es
                  (match_from-Match first previous (g ∷ gs) es (rw (a, b, c) at h))
          ]
        ]
      ]

  later_Episode :
      (e : TemporalEvent) (gs : List String) (es : List TemporalEvent)
      → Episode gs es
      → Episode gs (e ∷ es)
  later_Episode e gs es m = record {
    first = m.first;
    rest = m.rest;
    within = inr m.within;
    signed = m.signed;
    prompt = m.prompt;
  }

  match_any-Episode :
      (g : String) (gs : List String) (es : List TemporalEvent)
      → match_any signature max_span max_gap g gs es ≡ true
      → Episode (g ∷ gs) es
  unfolding match_any
  match_any-Episode g gs [] h = cc
  match_any-Episode g gs (e ∷ es) h = elim (Bool-cases (signature e == g)) [
    | inr c ↦ later_Episode e (g ∷ gs) es (match_any-Episode g gs es (rw c at h))
    | inl c ↦ elim (Bool-cases (match_from signature max_span max_gap e e gs es)) [
      | inl a ↦
          let m = match_from-Match e e gs es a in
          record {
            first = e;
            rest = m.chosen;
            within = inl (refl, m.within);
            signed =
                ap (λ x. x ∷ map signature m.chosen) ((==_iff (signature e) g).0 c)
                ∙ ap (λ l. g ∷ l) m.signed;
            prompt = m.prompt;
          }
      | inr a ↦ later_Episode e (g ∷ gs) es (match_any-Episode g gs es (rw (c, a) at h))
    ]
  ]

  -- An episode that is found is there: some of the open events, in the order in which they are
  -- sorted, carry its signatures one by one, none of them later after the first than the span
  -- allows, nor later after the one before it than the gap allows.
  pub contains_ordered_episode-Episode :
      (sort : List TemporalEvent → List TemporalEvent) (events : List TemporalEvent)
      (gs : List String)
      → contains_ordered_episode signature max_span max_gap sort events gs ≡ true
      → Episode gs (keep is_open (sort events))
  unfolding contains_ordered_episode
  contains_ordered_episode-Episode sort events [] h = cc
  contains_ordered_episode-Episode sort events (g ∷ gs) h = match_any-Episode g gs _ h
