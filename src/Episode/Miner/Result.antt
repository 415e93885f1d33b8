-- ===== src/Episode/Miner/Result.antt =====
-- What the mining of events returns.
use thalamus_usecase_ssa.Prelude.{
  ◌≤◌, ◌<◌, ◌≡◌, ap, sym, subst, String, Bool, true, string_Eq, List, [], nat_eq, length, has, keep,
  Bool-cases, inl, inr, arith,
}
use thalamus_usecase_ssa.Episode.{TemporalEvent, is_open, contains_ordered_episode}
use thalamus_usecase_ssa.Episode.Windows.{sort_temporal_events_stable}
use thalamus_usecase_ssa.Episode.Windows.Exact.{sort_temporal_events_stable-IsAscending}
use thalamus_usecase_ssa.Episode.Miner.{
  MinedEpisode, MiningOptions, MiningResult, mined, refused, no_steps, no_candidates, keys,
  max_candidates_of, mining_of, mine_from, mine_ordered_temporal_episodes,
}
use thalamus_usecase_ssa.Episode.Miner.Limits.{IsMined, mine_from_sound}
use thalamus_usecase_ssa.Episode.Miner.Complete.{mine_from_complete}

abbrev episodes_of : List MinedEpisode → MiningResult → List MinedEpisode
episodes_of other (mined episodes) = episodes
episodes_of other (refused error) = other

abbrev IsRefused : MiningResult → Type 0
IsRefused (mined episodes) = ⊥
IsRefused (refused error) = Unit

module _ (signature : TemporalEvent → String) (join : List String → String)
    (locale_le : String → String → Bool) (events : List TemporalEvent) where
  record Run (options : MiningOptions) (episodes : List MinedEpisode) : Type 0 where
    steps : 0 < options.max_steps
    room : 0 < max_candidates_of options
    same :
        mine_from
          (mining_of signature join locale_le options)
          (keep is_open (sort_temporal_events_stable locale_le events))
          []
        ≡ episodes

  mined_Run :
      (options : MiningOptions) (episodes : List MinedEpisode)
      → mine_ordered_temporal_episodes signature join locale_le events options ≡ mined episodes
      → Run options episodes
  unfolding mine_ordered_temporal_episodes
  mined_Run options episodes h = elim (Bool-cases (nat_eq options.max_steps 0)) [
    | inl a ↦
        let wrong : refused no_steps ≡ mined episodes = rw a at h in
        absurd (subst IsRefused wrong tt)
    | inr a ↦ elim (Bool-cases (nat_eq (max_candidates_of options) 0)) [
      | inl b ↦
          let wrong : refused no_candidates ≡ mined episodes = rw (a, b) at h in
          absurd (subst IsRefused wrong tt)
      | inr b ↦
          let same = rw (a, b) at h in
          record {
            steps = ground (arith, a);
            room = ground (arith, b);
            same = ap (episodes_of episodes) same;
          }
    ]
  ]

  -- What is mined are episodes: each is made of some of the open events in the order of their times,
  -- no more than `max_steps` of them, none later after the first than the span allows nor later
  -- after the one before it than the gap allows, with their signatures and the key of these. No two
  -- have one key, and there are no more than `max_candidates_per_window`.
  pub mine_ordered_temporal_episodes-IsMined :
      (options : MiningOptions) (episodes : List MinedEpisode)
      → mine_ordered_temporal_episodes signature join locale_le events options ≡ mined episodes
      → IsMined
          (mining_of signature join locale_le options)
          (keep is_open (sort_temporal_events_stable locale_le events))
          episodes
  mine_ordered_temporal_episodes-IsMined options episodes h =
      let run = mined_Run options episodes h in
      subst (IsMined (mining_of signature join locale_le options) _) run.same
        (mine_from_sound _ _ run.steps run.room)

  -- Mining that ends with fewer episodes than `max_candidates_per_window` has missed none: each
  -- sequence of signatures that `containsOrderedEpisode` finds in the same events, and that is no
  -- longer than `max_steps`, is the sequence of a key that is mined.
  pub mine_ordered_temporal_episodes_complete :
      (options : MiningOptions) (episodes : List MinedEpisode) (gs : List String)
      → mine_ordered_temporal_episodes signature join locale_le events options ≡ mined episodes
      → length episodes < max_candidates_of options
      → contains_ordered_episode signature options.max_span options.max_gap
          (sort_temporal_events_stable locale_le)
          events
          gs
        ≡ true
      → length gs ≤ options.max_steps
      → has (keys episodes) (join gs) ≡ true
  mine_ordered_temporal_episodes_complete options episodes gs h few found short =
      let run = mined_Run options episodes h in
      subst (λ l. has (keys l) (join gs) ≡ true) run.same
        (mine_from_complete (mining_of signature join locale_le options)
          (sort_temporal_events_stable locale_le) events gs
          (sort_temporal_events_stable-IsAscending locale_le events) found short
          (subst (λ l. length l < max_candidates_of options) (sym run.same) few))
