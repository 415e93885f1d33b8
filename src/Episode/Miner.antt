-- ===== src/Episode/Miner.antt =====
-- packages/temporal/src/temporal-episode-miner.ts: the ordered episodes of a window.
-- The options are natural numbers. `join` puts the signatures of an episode into one text.
use thalamus_usecase_ssa.Prelude.{
  ℕ, ◌+◌, ◌-◌, String, Bool, true, false, ◌||◌, Option, none, some, List, [], ◌∷◌, ◌++◌, map, leb,
  nat_eq, ◌==◌, string_Eq, if◌then◌else◌, length, has, keep,
}
use thalamus_usecase_ssa.Episode.{TemporalEvent, OrderQuality, exceeds, is_open}
use thalamus_usecase_ssa.Episode.Windows.{
  sort_temporal_events_stable, temporal_order_quality_for_events,
}
pub mod Grow
pub mod Limits
pub mod Complete
pub mod Result

pub record MinedEpisode : Type 0 where
  pub key : String
  pub sequence : List String
  pub events : List TemporalEvent
  pub temporal_order_quality : OrderQuality

pub record MiningOptions : Type 0 where
  pub max_steps : ℕ
  pub max_span : Option ℕ
  pub max_gap : Option ℕ
  pub max_candidates_per_window : Option ℕ

pub data MiningError : Type 0 where
  no_steps no_candidates : MiningError

pub data MiningResult : Type 0 where
  mined : List MinedEpisode → MiningResult
  refused : MiningError → MiningResult

abbrev pub keys : List MinedEpisode → List String
keys = map (λ m. m.key)

-- What the functions of the file share: the text functions, and the options once they are read.
pub record Mining : Type 0 where
  pub signature : TemporalEvent → String
  pub join : List String → String
  pub quality : List TemporalEvent → OrderQuality
  pub max_steps : ℕ
  pub max_span : Option ℕ
  pub max_gap : Option ℕ
  pub max_candidates : ℕ

module _ (m : Mining) where
  abbrev pub key_of : List TemporalEvent → String
  key_of events = m.join (map m.signature events)

  -- `addEpisode(events, seen, episodes)`: what was seen are the keys of the episodes.
  pub add_episode : List TemporalEvent → List MinedEpisode → List MinedEpisode
  add_episode events episodes =
      if has (keys episodes) (key_of events)
      then episodes
      else episodes
        ++ record {
          key = key_of events;
          sequence = map m.signature events;
          events = events;
          temporal_order_quality = m.quality events;
        }
          ∷ []

  abbrev pub is_full : List MinedEpisode → Bool
  is_full episodes = leb m.max_candidates (length episodes)

  -- `extendEpisode` up to its loop; `continue` is the loop.
  pub extend_episode :
      List TemporalEvent
      → (List MinedEpisode → List MinedEpisode)
      → List MinedEpisode
      → List MinedEpisode
  unfolding add_episode
  extend_episode current continue episodes =
      let added = add_episode current episodes in
      if leb m.max_steps (length current) || is_full added then added else continue added

  -- The loop of `extendEpisode` over the events behind the current ones, of which `first` and
  -- `previous` are the first and the last.
  pub extend_from :
      TemporalEvent
      → TemporalEvent
      → List TemporalEvent
      → List TemporalEvent
      → List MinedEpisode
      → List MinedEpisode
  unfolding extend_episode
  extend_from first previous current [] episodes = episodes
  extend_from first previous current (e ∷ es) episodes =
      let deeper =
        extend_episode (current ++ e ∷ []) (extend_from first e (current ++ e ∷ []) es) episodes in
      let rest = extend_from first previous current es deeper in
      if is_full episodes
      then episodes
      else if exceeds m.max_span (e.timestamp - first.timestamp)
      then episodes
      else if exceeds m.max_gap (e.timestamp - previous.timestamp)
      then episodes
      else rest

  -- The loop over the events that an episode may start with.
  pub mine_from : List TemporalEvent → List MinedEpisode → List MinedEpisode
  unfolding extend_from extend_episode
  mine_from [] episodes = episodes
  mine_from (e ∷ es) episodes =
      let started = extend_episode (e ∷ []) (extend_from e e (e ∷ []) es) episodes in
      let rest = mine_from es started in if is_full started then started else rest

-- `options.max_candidates_per_window ?? 5_000`
abbrev pub max_candidates_of : MiningOptions → ℕ
max_candidates_of options = elim options.max_candidates_per_window [ none ↦ 5000 | some n ↦ n ]

module _ (signature : TemporalEvent → String) (join : List String → String)
    (locale_le : String → String → Bool) where
  abbrev pub mining_of : MiningOptions → Mining
  mining_of options = record {
    signature = signature;
    join = join;
    quality = temporal_order_quality_for_events locale_le;
    max_steps = options.max_steps;
    max_span = options.max_span;
    max_gap = options.max_gap;
    max_candidates = max_candidates_of options;
  }

  -- `mineOrderedTemporalEpisodes(events, options)`
  unfoldable pub mine_ordered_temporal_episodes : List TemporalEvent → MiningOptions → MiningResult
  unfolding mine_from sort_temporal_events_stable
  mine_ordered_temporal_episodes events options =
      let ordered = keep is_open (sort_temporal_events_stable locale_le events) in
      if nat_eq options.max_steps 0
      then refused no_steps
      else if nat_eq (max_candidates_of options) 0
      then refused no_candidates
      else mined (mine_from (mining_of options) ordered [])
