-- ===== src/Episode.antt =====
-- packages/temporal/src/negative-evidence.ts: whether a sequence of signatures occurs in events.
-- Times are counted in milliseconds; a limit that is not given is `none`. The sort by time and
-- `preEventSignature` are parameters.
use thalamus_usecase_ssa.Prelude.{
  ℕ, ◌-◌, String, Bool, true, false, not, ◌||◌, Option, none, some, List, [], ◌∷◌, ltb, ◌==◌,
  string_Eq, if◌then◌else◌, keep,
}
pub mod Sound
pub mod Windows
pub mod Miner
mod Samples

-- How well the order of events is known.
pub data OrderQuality : Type 0 where
  real_time_ordered turn_ordered same_timestamp_ordered synthetic_ordered : OrderQuality

pub data SourceDomain : Type 0 where
  production simulation simulation_seeded mixed : SourceDomain

pub record TemporalEvent : Type 0 where
  pub id : String
  pub timestamp : ℕ
  pub terminal_status : Option String
  pub order_index : Option ℕ
  pub turn_index : Option ℕ
  pub fish_index : Option ℕ
  pub temporal_order_quality : Option OrderQuality
  pub metadata_quality : Option OrderQuality
  pub source_domain : SourceDomain
  pub seeded_by_pattern_id : Option String

-- `time > limit`
abbrev pub exceeds : Option ℕ → ℕ → Bool
exceeds none time = false
exceeds (some limit) time = ltb limit time

-- `event.terminal_status == null`
abbrev pub is_open : TemporalEvent → Bool
is_open e = elim e.terminal_status [ none ↦ true | some status ↦ false ]

module _ (signature : TemporalEvent → String) (max_span max_gap : Option ℕ) where
  -- The inner loop, on the signatures and the events that are left.
  pub match_from : TemporalEvent → TemporalEvent → List String → List TemporalEvent → Bool
  match_from first previous [] events = true
  match_from first previous (g ∷ gs) [] = false
  match_from first previous (g ∷ gs) (e ∷ es) =
      let found = match_from first e gs es in
      let later = match_from first previous (g ∷ gs) es in
      if exceeds max_span (e.timestamp - first.timestamp)
      then false
      else if exceeds max_gap (e.timestamp - previous.timestamp)
      then false
      else if signature e == g
      then found
      else later

  -- The outer loop, over the events that the sequence may start with.
  pub match_any : String → List String → List TemporalEvent → Bool
  unfolding match_from
  match_any g gs [] = false
  match_any g gs (e ∷ es) =
      let later = match_any g gs es in
      if signature e == g then match_from e e gs es || later else later

  -- `containsOrderedEpisode(events, episodeSignatures, options)`
  unfoldable pub contains_ordered_episode :
      (List TemporalEvent → List TemporalEvent) → List TemporalEvent → List String → Bool
  unfolding match_any
  contains_ordered_episode sort events [] = false
  contains_ordered_episode sort events (g ∷ gs) = match_any g gs (keep is_open (sort events))
