-- ===== src/Episode/Miner/Limits.antt =====
-- What each mined episode is, and how many there are.
use thalamus_usecase_ssa.Episode.Miner.Grow.{keys-append}
use thalamus_usecase_ssa.Prelude.{
  ◌-◌, ◌≤◌, ◌<◌, ◌≡◌, refl, ap, sym, subst, ◌∙◌, false, List, [], ◌∷◌, ◌++◌, map, leb, string_Eq,
  append_assoc, length, length-append, has, Distinct, Distinct-snoc, All, All-append, Bool-cases,
  inl, inr, arith,
}
use thalamus_usecase_ssa.Episode.{TemporalEvent, exceeds}
use thalamus_usecase_ssa.Episode.Sound.{IsWithin, IsPrompt}
use thalamus_usecase_ssa.Episode.Miner.{
  Mining, MinedEpisode, keys, key_of, add_episode, is_full, extend_episode, extend_from, mine_from,
}

-- The last of some events, or the first where there are no more.
abbrev pub last_of : TemporalEvent → List TemporalEvent → TemporalEvent
last_of e [] = e
last_of e (f ∷ fs) = last_of f fs

pub last_of-snoc : (p e : TemporalEvent) (es : List TemporalEvent) → last_of p (es ++ e ∷ []) ≡ e
last_of-snoc p e [] = refl
last_of-snoc p e (f ∷ fs) = last_of-snoc f e fs

IsWithin-skip : (xs ys zs : List TemporalEvent) → IsWithin xs ys → IsWithin xs (ys ++ zs)
IsWithin-skip [] ys zs w = tt
IsWithin-skip (x ∷ xs) [] zs w = absurd w
IsWithin-skip (x ∷ xs) (y ∷ ys) zs (inl w) = inl (w.0, IsWithin-skip xs ys zs w.1)
IsWithin-skip (x ∷ xs) (y ∷ ys) zs (inr w) = inr (IsWithin-skip (x ∷ xs) ys zs w)

IsWithin-end : (e : TemporalEvent) (ys : List TemporalEvent) → IsWithin (e ∷ []) (ys ++ e ∷ [])
IsWithin-end e [] = inl (refl, tt)
IsWithin-end e (y ∷ ys) = inr (IsWithin-end e ys)

IsWithin-snoc :
    (e : TemporalEvent) (xs ys : List TemporalEvent)
    → IsWithin xs ys
    → IsWithin (xs ++ e ∷ []) (ys ++ e ∷ [])
IsWithin-snoc e [] ys w = IsWithin-end e ys
IsWithin-snoc e (x ∷ xs) [] w = absurd w
IsWithin-snoc e (x ∷ xs) (y ∷ ys) (inl w) = inl (w.0, IsWithin-snoc e xs ys w.1)
IsWithin-snoc e (x ∷ xs) (y ∷ ys) (inr w) = inr (IsWithin-snoc e (x ∷ xs) ys w)

module _ (m : Mining) (ordered : List TemporalEvent) where
  -- Some of the events, in their order, within the limits of the options, with their signatures.
  pub record IsEpisode (mined : MinedEpisode) : Type 0 where
    pub first : TemporalEvent
    pub rest : List TemporalEvent
    pub shape : mined.events ≡ first ∷ rest
    pub within : IsWithin mined.events ordered
    pub prompt : IsPrompt m.signature m.max_span m.max_gap first first rest
    pub short : length mined.events ≤ m.max_steps
    pub signed : mined.sequence ≡ map m.signature mined.events
    pub keyed : mined.key ≡ m.join mined.sequence

  pub record IsMined (episodes : List MinedEpisode) : Type 0 where
    pub sound : All IsEpisode episodes
    pub few : length episodes ≤ m.max_candidates
    pub distinct : Distinct (keys episodes)

  -- The current events, which end before the rest.
  record IsCurrent (first previous : TemporalEvent) (current before : List TemporalEvent)
      : Type 0 where
    tail : List TemporalEvent
    shape : current ≡ first ∷ tail
    prompt : IsPrompt m.signature m.max_span m.max_gap first first tail
    last : last_of first tail ≡ previous
    within : IsWithin current before
    short : length current ≤ m.max_steps

  IsPrompt-snoc :
      (first p e : TemporalEvent) (es : List TemporalEvent)
      → IsPrompt m.signature m.max_span m.max_gap first p es
      → exceeds m.max_span (e.timestamp - first.timestamp) ≡ false
      → exceeds m.max_gap (e.timestamp - (last_of p es).timestamp) ≡ false
      → IsPrompt m.signature m.max_span m.max_gap first p (es ++ e ∷ [])
  IsPrompt-snoc first p e [] h a b = (a, b, tt)
  IsPrompt-snoc first p e (f ∷ fs) h a b = (h.0, h.1, IsPrompt-snoc first f e fs h.2 a b)

  IsCurrent-snoc :
      (first previous e : TemporalEvent) (current before : List TemporalEvent)
      → IsCurrent first previous current before
      → exceeds m.max_span (e.timestamp - first.timestamp) ≡ false
      → exceeds m.max_gap (e.timestamp - previous.timestamp) ≡ false
      → length current < m.max_steps
      → IsCurrent first e (current ++ e ∷ []) (before ++ e ∷ [])
  IsCurrent-snoc first previous e current before c a b room = record {
    tail = c.tail ++ e ∷ [];
    shape = ap (λ l. l ++ e ∷ []) c.shape;
    prompt =
        IsPrompt-snoc first first e c.tail c.prompt a
          (subst (λ p. exceeds m.max_gap (e.timestamp - p.timestamp) ≡ false) (sym c.last) b);
    last = last_of-snoc first e c.tail;
    within = IsWithin-snoc e current before c.within;
    short = omega (arith, length-append current (e ∷ []), room);
  }

  add_episode-IsMined :
      (first previous : TemporalEvent) (current before after : List TemporalEvent)
      (episodes : List MinedEpisode)
      → IsCurrent first previous current before
      → before ++ after ≡ ordered
      → length episodes < m.max_candidates
      → IsMined episodes
      → IsMined (add_episode m current episodes)
  unfolding add_episode
  add_episode-IsMined first previous current before after episodes c e room h =
      elim (Bool-cases (has (keys episodes) (key_of m current))) [
        | inl old ↦ rw old h
        | inr new ↦ rw new (record {
          sound = All-append IsEpisode episodes _ h.sound (
            record {
              first = first;
              rest = c.tail;
              shape = c.shape;
              within = subst (IsWithin current) e (IsWithin-skip current before after c.within);
              prompt = c.prompt;
              short = c.short;
              signed = refl;
              keyed = refl;
            },
            tt,
          );
          few = omega (arith, length-append {0} episodes, room);
          distinct =
              subst (λ l. Distinct l) (sym (keys-append episodes _))
                (Distinct-snoc (keys episodes) (key_of m current) h.distinct new);
        })
      ]

  extend_episode-IsMined :
      (first previous : TemporalEvent) (current before after : List TemporalEvent)
      (continue : List MinedEpisode → List MinedEpisode) (episodes : List MinedEpisode)
      → IsCurrent first previous current before
      → before ++ after ≡ ordered
      → length episodes < m.max_candidates
      → (length current < m.max_steps
          → (added : List MinedEpisode) → IsMined added
          → IsMined (continue added))
      → IsMined episodes
      → IsMined (extend_episode m current continue episodes)
  unfolding extend_episode
  extend_episode-IsMined first previous current before after continue episodes c e room goes h =
      let added = add_episode-IsMined first previous current before after episodes c e room h in
      elim (Bool-cases (leb m.max_steps (length current))) [
        | inl a ↦ rw a added
        | inr a ↦ elim (Bool-cases (is_full m (add_episode m current episodes))) [
          | inl b ↦ rw (a, b) added
          | inr b ↦ rw (a, b) (goes (ground (arith, a)) _ added)
        ]
      ]

  extend_from-IsMined :
      (first previous : TemporalEvent) (current before rest : List TemporalEvent)
      (episodes : List MinedEpisode)
      → IsCurrent first previous current before
      → before ++ rest ≡ ordered
      → length current < m.max_steps
      → IsMined episodes
      → IsMined (extend_from m first previous current rest episodes)
  unfolding extend_from
  extend_from-IsMined first previous current before [] episodes c e room h = h
  extend_from-IsMined first previous current before (f ∷ fs) episodes c e room h =
      let split = append_assoc before (f ∷ []) fs ∙ e in
      elim (Bool-cases (is_full m episodes)) [
        | inl a ↦ rw a h
        | inr a ↦ elim (Bool-cases (exceeds m.max_span (f.timestamp - first.timestamp))) [
          | inl b ↦ rw (a, b) h
          | inr b ↦ elim (Bool-cases (exceeds m.max_gap (f.timestamp - previous.timestamp))) [
            | inl d ↦ rw (a, b, d) h
            | inr d ↦
                let c' = IsCurrent-snoc first previous f current before c b d room in
                let deeper =
                  extend_episode-IsMined first f (current ++ f ∷ []) (before ++ f ∷ []) fs
                    (extend_from m first f (current ++ f ∷ []) fs) episodes c' split
                    (ground (arith, a))
                    (λ more added.
                      extend_from-IsMined first f (current ++ f ∷ []) (before ++ f ∷ []) fs added c'
                        split more)
                    h in
                rw (a, b, d)
                  (extend_from-IsMined first previous current (before ++ f ∷ []) fs _
                    (record {
                      tail = c.tail;
                      shape = c.shape;
                      prompt = c.prompt;
                      last = c.last;
                      within = IsWithin-skip current before (f ∷ []) c.within;
                      short = c.short;
                    })
                    split room deeper)
          ]
        ]
      ]

  mine_from-IsMined :
      (before rest : List TemporalEvent) (episodes : List MinedEpisode)
      → before ++ rest ≡ ordered
      → 0 < m.max_steps
      → length episodes < m.max_candidates
      → IsMined episodes
      → IsMined (mine_from m rest episodes)
  unfolding mine_from
  mine_from-IsMined before [] episodes e steps room h = h
  mine_from-IsMined before (f ∷ fs) episodes e steps room h =
      let split = append_assoc before (f ∷ []) fs ∙ e in
      let c : IsCurrent f f (f ∷ []) (before ++ f ∷ []) = record {
        tail = [];
        shape = refl;
        prompt = tt;
        last = refl;
        within = IsWithin-end f before;
        short = omega (arith, steps);
      } in
      let started =
        extend_episode-IsMined f f (f ∷ []) (before ++ f ∷ []) fs (extend_from m f f (f ∷ []) fs)
          episodes c split room
          (λ more added. extend_from-IsMined f f (f ∷ []) (before ++ f ∷ []) fs added c split more)
          h in
      elim (Bool-cases
        (is_full m (extend_episode m (f ∷ []) (extend_from m f f (f ∷ []) fs) episodes))) [
          | inl a ↦ rw a started
          | inr a ↦
              rw a
                (mine_from-IsMined (before ++ f ∷ []) fs _ split steps (ground (arith, a)) started)
        ]

  -- Mining from no episodes.
  pub mine_from_sound : 0 < m.max_steps → 0 < m.max_candidates → IsMined (mine_from m ordered [])
  mine_from_sound steps room =
      mine_from-IsMined [] ordered [] refl steps room
        (record { sound = tt; few = omega arith; distinct = tt })
