-- ===== src/Episode/Samples.antt =====
-- An episode of two events within a gap.
use Prim.Native.String.{◌++◌}
use thalamus_usecase_ssa.Prelude.{
  ℕ, ◌≡◌, ◌<◌, Bool, arith, has, length, string_Eq, refl, String, true, false, none, some, List, [],
  ◌∷◌, keep,
}
use thalamus_usecase_ssa.Episode.{TemporalEvent, production, is_open, contains_ordered_episode}
use thalamus_usecase_ssa.Episode.Windows.{sort_temporal_events_stable, build_outcome_windows}
use thalamus_usecase_ssa.Episode.Windows.Exact.{AreWindows, build_outcome_windows_exact}
use thalamus_usecase_ssa.Episode.Miner.{
  MinedEpisode, MiningOptions, mined, refused, keys, mining_of, mine_ordered_temporal_episodes,
}
use thalamus_usecase_ssa.Episode.Miner.Limits.{IsMined}
use thalamus_usecase_ssa.Episode.Miner.Result.{
  mine_ordered_temporal_episodes-IsMined, mine_ordered_temporal_episodes_complete,
}
use thalamus_usecase_ssa.Episode.Sound.{Episode, contains_ordered_episode-Episode}

abbrev event : String → ℕ → TemporalEvent
event id timestamp = record {
  id = id;
  timestamp = timestamp;
  terminal_status = none;
  order_index = none;
  turn_index = none;
  fish_index = none;
  temporal_order_quality = none;
  metadata_quality = none;
  source_domain = production;
  seeded_by_pattern_id = none;
}

abbrev sorted : List TemporalEvent → List TemporalEvent
sorted es = es

abbrev id_of : TemporalEvent → String
id_of e = e.id

abbrev history : List TemporalEvent
history = event "a" 0 ∷ event "b" 1 ∷ event "b" 5 ∷ event "c" 9 ∷ []

finds_two : contains_ordered_episode id_of none (some 5) sorted history ("a" ∷ "b" ∷ []) ≡ true
unfolding contains_ordered_episode
finds_two = refl

-- The first "b" is taken, and "c" is then too late, though "a", the second "b" and "c" would do.
misses_three :
    contains_ordered_episode id_of none (some 5) sorted history ("a" ∷ "b" ∷ "c" ∷ []) ≡ false
unfolding contains_ordered_episode
misses_three = refl

contains_ordered_episode-Episode_example :
    Episode id_of none (some 5) ("a" ∷ "b" ∷ []) (keep is_open (sorted history))
contains_ordered_episode-Episode_example =
    contains_ordered_episode-Episode id_of none (some 5) sorted history ("a" ∷ "b" ∷ []) finds_two

-- The texts of an episode, one behind the other.
abbrev joined : List String → String
joined [] = ""
joined (g ∷ gs) = g ++ joined gs

abbrev by_text : String → String → Bool
by_text a b = true

abbrev unsorted : List TemporalEvent
unsorted = event "c" 9 ∷ event "b" 5 ∷ event "a" 0 ∷ event "b" 1 ∷ []

abbrev pairs : MiningOptions
pairs = record {
  max_steps = 2;
  max_span = none;
  max_gap = some 5;
  max_candidates_per_window = some 7;
}

abbrev mined_pairs : List MinedEpisode
unfolding mine_ordered_temporal_episodes
mined_pairs = elim (mine_ordered_temporal_episodes id_of joined by_text unsorted pairs) [
  | mined episodes ↦ episodes
  | refused error ↦ []
]

pairs_mined : mine_ordered_temporal_episodes id_of joined by_text unsorted pairs ≡ mined mined_pairs
unfolding mine_ordered_temporal_episodes
pairs_mined = refl

keys_of_pairs : keys mined_pairs ≡ "a" ∷ "ab" ∷ "b" ∷ "bb" ∷ "bc" ∷ "c" ∷ []
unfolding mine_ordered_temporal_episodes
keys_of_pairs = refl

pairs_left : length mined_pairs < 7
unfolding mine_ordered_temporal_episodes
pairs_left = omega arith

finds_pair :
    contains_ordered_episode id_of none
      (some 5)
      (sort_temporal_events_stable by_text)
      unsorted
      ("b" ∷ "b" ∷ [])
    ≡ true
unfolding contains_ordered_episode sort_temporal_events_stable
finds_pair = refl

mine_ordered_temporal_episodes-IsMined_example :
    IsMined
      (mining_of id_of joined by_text pairs)
      (keep is_open (sort_temporal_events_stable by_text unsorted))
      mined_pairs
mine_ordered_temporal_episodes-IsMined_example =
    mine_ordered_temporal_episodes-IsMined id_of joined by_text unsorted pairs mined_pairs
      pairs_mined

mine_ordered_temporal_episodes_complete_example : has (keys mined_pairs) "bb" ≡ true
mine_ordered_temporal_episodes_complete_example =
    mine_ordered_temporal_episodes_complete id_of joined by_text unsorted pairs mined_pairs
      ("b" ∷ "b" ∷ []) pairs_mined pairs_left finds_pair (omega arith)

closing : List TemporalEvent
closing = record (event "d" 12) { terminal_status = some "won" } ∷ unsorted

build_outcome_windows_exact_example :
    AreWindows by_text "won" 10 closing (build_outcome_windows by_text closing "won" 10)
build_outcome_windows_exact_example = build_outcome_windows_exact by_text closing "won" 10
