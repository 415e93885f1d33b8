-- ===== src/Episode/Miner/Complete.antt =====
-- Every episode within the limits is mined, if there is room for all.
use thalamus_usecase_ssa.Prelude.{
  ℕ, ◌+◌, ◌-◌, ◌≤◌, ◌<◌, ◌≡◌, ap, sym, subst, ◌∙◌, String, true, false, ◌||◌, Option, none, some,
  List, [], ◌∷◌, ◌++◌, ltb→lt, lt→ltb, leb, string_Eq, append_assoc, append-nil, length,
  length-append, length-map, has, keep, keep-IsAscending, All, Bool-cases, inl, inr, arith,
  IsAscending,
}
use thalamus_usecase_ssa.Episode.{TemporalEvent, exceeds, is_open, contains_ordered_episode}
use thalamus_usecase_ssa.Episode.Sound.{IsWithin, IsPrompt, contains_ordered_episode-Episode}
use thalamus_usecase_ssa.Episode.Miner.{
  Mining, MinedEpisode, keys, key_of, add_episode, is_full, extend_episode, extend_from, mine_from,
}
use thalamus_usecase_ssa.Episode.Miner.Grow.{
  Extends, add_episode-Extends, extend_from-Extends, mine_from-Extends,
}

exceeds_later :
    (limit : Option ℕ) (a b c : ℕ)
    → a ≤ b
    → exceeds limit (a - c) ≡ true
    → exceeds limit (b - c) ≡ true
exceeds_later none a b c le h = h
exceeds_later (some n) a b c le h = lt→ltb n (b - c) (omega (arith, ltb→lt n (a - c) h))

-- Whatever is within ascending events is no earlier than the first of them.
not_before :
    (e x : TemporalEvent) (xs es : List TemporalEvent)
    → All (λ f. e.timestamp ≤ f.timestamp) es
    → IsWithin (x ∷ xs) es
    → e.timestamp ≤ x.timestamp
not_before e x xs [] a w = absurd w
not_before e x xs (f ∷ fs) a (inl w) = subst (λ y. e.timestamp ≤ y.timestamp) (sym w.0) a.0
not_before e x xs (f ∷ fs) a (inr w) = not_before e x xs fs a.1 w

first_not_before :
    (e x : TemporalEvent) (xs es : List TemporalEvent)
    → All (λ f. e.timestamp ≤ f.timestamp) es
    → IsWithin (x ∷ xs) (e ∷ es)
    → e.timestamp ≤ x.timestamp
first_not_before e x xs es a (inl w) =
    subst (λ y. e.timestamp ≤ y.timestamp) (sym w.0) (omega arith)
first_not_before e x xs es a (inr w) = not_before e x xs es a w

module _ (m : Mining) where
  abbrev IsSeen : List MinedEpisode → List TemporalEvent → Type 0
  IsSeen episodes events = has (keys episodes) (key_of m events) ≡ true

  abbrev HasRoom : List MinedEpisode → Type 0
  HasRoom episodes = length episodes < m.max_candidates

  -- What a loop finds behind the current events.
  abbrev Finds :
      TemporalEvent
      → TemporalEvent
      → List TemporalEvent
      → List TemporalEvent
      → (List MinedEpisode → List MinedEpisode)
      → Type 0
  Finds first previous current rest loop =
      (episodes : List MinedEpisode) (x : TemporalEvent) (xs : List TemporalEvent)
      → IsWithin (x ∷ xs) rest
      → IsPrompt m.signature m.max_span m.max_gap first previous (x ∷ xs)
      → length current + length (x ∷ xs) ≤ m.max_steps
      → HasRoom (loop episodes)
      → IsSeen (loop episodes) (current ++ x ∷ xs)

  -- Extending the current events finds them, and what the loop finds.
  extend_episode-Finds :
      (first previous : TemporalEvent) (current rest : List TemporalEvent)
      (loop : List MinedEpisode → List MinedEpisode) (episodes : List MinedEpisode)
      (more : List TemporalEvent)
      → ((added : List MinedEpisode) → Extends added (loop added))
      → Finds first previous current rest loop
      → IsWithin more rest
      → IsPrompt m.signature m.max_span m.max_gap first previous more
      → length current + length more ≤ m.max_steps
      → HasRoom (extend_episode m current loop episodes)
      → IsSeen (extend_episode m current loop episodes) (current ++ more)
  unfolding extend_episode
  extend_episode-Finds first previous current rest loop episodes [] grows finds w p short room =
      let added = add_episode m current episodes in
      let known = (add_episode-Extends m current episodes).1 in
      subst (λ l. IsSeen (extend_episode m current loop episodes) l) (sym (append-nil current))
        (elim (Bool-cases (leb m.max_steps (length current) || is_full m added)) [
          | inl a ↦ rw a known
          | inr a ↦ rw a ((grows added).stays _ known)
        ])
  extend_episode-Finds first previous current rest loop episodes (x ∷ xs) grows finds w p short
        room =
      let added = add_episode m current episodes in
      let tight : leb m.max_steps (length current) ≡ false = ground (arith, short) in
      elim (Bool-cases (is_full m added)) [
        | inl full ↦
            let none_left : HasRoom added = rw (tight, full) at room in
            absurd (ground (arith, none_left, full))
        | inr free ↦ rw (tight, free) (finds added x xs w p short (rw (tight, free) at room))
      ]

  extend_from-Finds :
      (first previous : TemporalEvent) (current rest : List TemporalEvent)
      → IsAscending (λ e. e.timestamp) rest
      → Finds first previous current rest (extend_from m first previous current rest)
  unfolding extend_from
  extend_from-Finds first previous current [] asc episodes x xs w p short room = absurd w
  extend_from-Finds first previous current (e ∷ es) asc episodes x xs w p short room =
      let le = first_not_before e x xs es asc.0 w in
      elim (Bool-cases (is_full m episodes)) [
        | inl a ↦
            let none_left : HasRoom episodes = rw a at room in absurd (ground (arith, none_left, a))
        | inr a ↦ elim (Bool-cases (exceeds m.max_span (e.timestamp - first.timestamp))) [
          | inl b ↦
              let late = exceeds_later m.max_span e.timestamp x.timestamp first.timestamp le b in cc
          | inr b ↦ elim (Bool-cases (exceeds m.max_gap (e.timestamp - previous.timestamp))) [
            | inl c ↦
                let late =
                  exceeds_later m.max_gap e.timestamp x.timestamp previous.timestamp le c in
                cc
            | inr c ↦
                let here = current ++ e ∷ [] in
                let loop = extend_from m first e here es in
                let deeper = extend_episode m here loop episodes in
                let grown = extend_from-Extends m first previous current es deeper in
                let left : HasRoom (extend_from m first previous current es deeper) =
                  rw (a, b, c) at room in
                let found : IsSeen (extend_from m first previous current es deeper)
                    (current ++ x ∷ xs) =
                  elim w [
                    | inl v ↦
                        let seen : IsSeen deeper (here ++ xs) =
                          extend_episode-Finds first e here es loop episodes xs
                            (λ added. extend_from-Extends m first e here es added)
                            (extend_from-Finds first e here es asc.1) v.1
                            (subst (λ y. IsPrompt m.signature m.max_span m.max_gap first y xs) v.0
                              p.2)
                            (omega (arith, length-append current (e ∷ []), short))
                            (omega (arith, grown.longer, left)) in
                        subst (IsSeen (extend_from m first previous current es deeper))
                          (append_assoc current (e ∷ []) xs ∙ ap (λ y. current ++ y ∷ xs) (sym v.0))
                          (grown.stays _ seen)
                    | inr v ↦
                        extend_from-Finds first previous current es asc.1 deeper x xs v p short left
                  ] in
                rw (a, b, c) found
          ]
        ]
      ]

  -- Mining that ends with room left has the key of each episode within the limits.
  mine_from_finds :
      (rest : List TemporalEvent) (episodes : List MinedEpisode) (x : TemporalEvent)
      (xs : List TemporalEvent)
      → IsAscending (λ e. e.timestamp) rest
      → IsWithin (x ∷ xs) rest
      → IsPrompt m.signature m.max_span m.max_gap x x xs
      → length (x ∷ xs) ≤ m.max_steps
      → HasRoom (mine_from m rest episodes)
      → IsSeen (mine_from m rest episodes) (x ∷ xs)
  unfolding mine_from
  mine_from_finds [] episodes x xs asc w p short room = absurd w
  mine_from_finds (e ∷ es) episodes x xs asc w p short room =
      let loop = extend_from m e e (e ∷ []) es in
      let started = extend_episode m (e ∷ []) loop episodes in
      let grown = mine_from-Extends m es started in
      elim (Bool-cases (is_full m started)) [
        | inl a ↦
            let none_left : HasRoom started = rw a at room in absurd (ground (arith, none_left, a))
        | inr a ↦
            let left : HasRoom (mine_from m es started) = rw a at room in
            let found : IsSeen (mine_from m es started) (x ∷ xs) = elim w [
              | inl v ↦
                  let seen : IsSeen started (e ∷ xs) =
                    extend_episode-Finds e e (e ∷ []) es loop episodes xs
                      (extend_from-Extends m e e (e ∷ []) es)
                      (extend_from-Finds e e (e ∷ []) es asc.1) v.1
                      (subst (λ y. IsPrompt m.signature m.max_span m.max_gap y y xs) v.0 p)
                      (omega (arith, short)) (omega (arith, grown.longer, left)) in
                  subst (λ y. IsSeen (mine_from m es started) (y ∷ xs)) (sym v.0)
                    (grown.stays _ seen)
              | inr v ↦ mine_from_finds es started x xs asc.1 v p short left
            ] in
            rw a found
      ]

  pub mine_from_complete :
      (sort : List TemporalEvent → List TemporalEvent) (events : List TemporalEvent)
      (gs : List String)
      → IsAscending (λ e. e.timestamp) (sort events)
      → contains_ordered_episode m.signature m.max_span m.max_gap sort events gs ≡ true
      → length gs ≤ m.max_steps
      → length (mine_from m (keep is_open (sort events)) []) < m.max_candidates
      → has (keys (mine_from m (keep is_open (sort events)) [])) (m.join gs) ≡ true
  mine_from_complete sort events gs asc h short room =
      let found =
        contains_ordered_episode-Episode m.signature m.max_span m.max_gap sort events gs h in
      let size : length (found.first ∷ found.rest) ≡ length gs =
        sym (length-map m.signature (found.first ∷ found.rest)) ∙ ap length found.signed in
      subst (λ k. has (keys (mine_from m (keep is_open (sort events)) [])) k ≡ true)
        (ap m.join found.signed)
        (mine_from_finds (keep is_open (sort events)) [] found.first found.rest
          (keep-IsAscending (λ e. e.timestamp) is_open (sort events) asc) found.within found.prompt
          (omega (arith, size, short)) room)
