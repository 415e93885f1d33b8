-- ===== src/Episode/Miner/Grow.antt =====
-- Mining only adds episodes.
use thalamus_usecase_ssa.Prelude.{
  ◌-◌, ◌≤◌, ◌≡◌, refl, ap, ◌∙◌, String, true, ◌||◌, List, [], ◌∷◌, ◌++◌, leb, string_Eq, ==_refl,
  length, length-append, has, has-append, Bool-cases, inl, inr, arith,
}
use thalamus_usecase_ssa.Episode.{TemporalEvent, exceeds}
use thalamus_usecase_ssa.Episode.Miner.{
  Mining, MinedEpisode, keys, key_of, add_episode, is_full, extend_episode, extend_from, mine_from,
}

-- Nothing is lost: no key, and no episode.
pub record Extends (before after : List MinedEpisode) : Type 0 where
  pub stays : (k : String) → has (keys before) k ≡ true → has (keys after) k ≡ true
  pub longer : length before ≤ length after

pub same-Extends : (episodes : List MinedEpisode) → Extends episodes episodes
same-Extends episodes = record { stays = λ k h. h; longer = omega arith }

pub Extends-trans : {a b c : List MinedEpisode} → Extends a b → Extends b c → Extends a c
Extends-trans f g = record {
  stays = λ k h. g.stays k (f.stays k h);
  longer = omega (arith, f.longer, g.longer);
}

pub keys-append : (xs ys : List MinedEpisode) → keys (xs ++ ys) ≡ keys xs ++ keys ys
keys-append [] ys = refl
keys-append (x ∷ xs) ys = ap (λ l. x.key ∷ l) (keys-append xs ys)

append-Extends : (xs ys : List MinedEpisode) → Extends xs (xs ++ ys)
append-Extends xs ys = record {
  stays = λ k h.
      ap (λ l. has l k) (keys-append xs ys)
      ∙ has-append (keys xs) (keys ys) k
      ∙ ap (λ b. b || has (keys ys) k) h;
  longer = omega (arith, length-append xs ys);
}

last_key : (xs : List MinedEpisode) (x : MinedEpisode) → has (keys (xs ++ x ∷ [])) x.key ≡ true
last_key [] x = ground (arith, ==_refl x.key)
last_key (y ∷ ys) x = ground (arith, last_key ys x)

module _ (m : Mining) where
  pub add_episode-Extends :
      (events : List TemporalEvent) (episodes : List MinedEpisode)
      → Extends episodes (add_episode m events episodes)
        × (has (keys (add_episode m events episodes)) (key_of m events) ≡ true)
  unfolding add_episode
  add_episode-Extends events episodes = elim (Bool-cases (has (keys episodes) (key_of m events))) [
    | inl old ↦ rw old (same-Extends episodes, old)
    | inr new ↦ rw new (append-Extends episodes _, last_key episodes _)
  ]

  pub extend_episode-Extends :
      (current : List TemporalEvent) (continue : List MinedEpisode → List MinedEpisode)
      (episodes : List MinedEpisode)
      → ((added : List MinedEpisode) → Extends added (continue added))
      → Extends episodes (extend_episode m current continue episodes)
  unfolding extend_episode
  extend_episode-Extends current continue episodes grows =
      let added = add_episode m current episodes in
      let first = (add_episode-Extends current episodes).0 in
      elim (Bool-cases (leb m.max_steps (length current) || is_full m added)) [
        | inl a ↦ rw a first
        | inr a ↦ rw a (Extends-trans first (grows added))
      ]

  pub extend_from-Extends :
      (first previous : TemporalEvent) (current rest : List TemporalEvent)
      (episodes : List MinedEpisode)
      → Extends episodes (extend_from m first previous current rest episodes)
  unfolding extend_from
  extend_from-Extends first previous current [] episodes = same-Extends episodes
  extend_from-Extends first previous current (e ∷ es) episodes =
      let inner = extend_from m first e (current ++ e ∷ []) es in
      let deeper = extend_episode m (current ++ e ∷ []) inner episodes in
      let grown =
        extend_episode-Extends (current ++ e ∷ []) inner episodes
          (λ added. extend_from-Extends first e (current ++ e ∷ []) es added) in
      let rest = Extends-trans grown (extend_from-Extends first previous current es deeper) in
      elim (Bool-cases (is_full m episodes)) [
        | inl a ↦ rw a (same-Extends episodes)
        | inr a ↦ elim (Bool-cases (exceeds m.max_span (e.timestamp - first.timestamp))) [
          | inl b ↦ rw (a, b) (same-Extends episodes)
          | inr b ↦ elim (Bool-cases (exceeds m.max_gap (e.timestamp - previous.timestamp))) [
            | inl c ↦ rw (a, b, c) (same-Extends episodes)
            | inr c ↦ rw (a, b, c) rest
          ]
        ]
      ]

  pub mine_from-Extends :
      (rest : List TemporalEvent) (episodes : List MinedEpisode)
      → Extends episodes (mine_from m rest episodes)
  unfolding mine_from
  mine_from-Extends [] episodes = same-Extends episodes
  mine_from-Extends (e ∷ es) episodes =
      let inner = extend_from m e e (e ∷ []) es in
      let started = extend_episode m (e ∷ []) inner episodes in
      let grown =
        extend_episode-Extends (e ∷ []) inner episodes (extend_from-Extends e e (e ∷ []) es) in
      elim (Bool-cases (is_full m started)) [
        | inl a ↦ rw a grown
        | inr a ↦ rw a (Extends-trans grown (mine_from-Extends es started))
      ]
