-- ===== src/Episode/Windows.antt =====
-- packages/temporal/src/episode-windows.ts: the order of events, what is known of it, and the
-- events that come before an outcome. Timestamps are finite; `locale_le` is `localeCompare`.
use thalamus_usecase_ssa.Prelude.{
  ℕ, zero, suc, ◌+◌, String, Bool, true, false, not, ◌&&◌, ◌||◌, Option, none, some, List, [], ◌∷◌,
  ◌++◌, map, ltb, leb, nat_eq, ◌==◌, string_Eq, if◌then◌else◌, keep, some_of, sort_by,
}
use thalamus_usecase_ssa.Episode.{
  TemporalEvent, OrderQuality, real_time_ordered, turn_ordered, same_timestamp_ordered,
  synthetic_ordered, is_open,
}
pub mod Exact

pub record OutcomeWindow : Type 0 where
  pub outcome : TemporalEvent
  pub pre_events : List TemporalEvent

pub record TemporalEventSet : Type 0 where
  pub timestamp : ℕ
  pub order_index : ℕ
  pub temporal_order_quality : OrderQuality
  pub events : List TemporalEvent

abbrev pub normalized_order_index : TemporalEvent → ℕ
normalized_order_index e = elim e.order_index [ none ↦ 0 | some index ↦ index ]

abbrev pub is_some {ℓ} : {A : Type ℓ} → Option A → Bool
is_some none = false
is_some (some a) = true

-- `event.terminal_status === terminalStatus`
abbrev pub is_outcome : String → TemporalEvent → Bool
is_outcome status e = elim e.terminal_status [ none ↦ false | some s ↦ s == status ]

abbrev pub quality_eq : OrderQuality → OrderQuality → Bool
quality_eq real_time_ordered real_time_ordered = true
quality_eq turn_ordered turn_ordered = true
quality_eq same_timestamp_ordered same_timestamp_ordered = true
quality_eq synthetic_ordered synthetic_ordered = true
quality_eq _ _ = false

-- `event.temporal_order_quality === "synthetic_ordered"`
abbrev pub is_synthetic : TemporalEvent → Bool
is_synthetic e = elim e.temporal_order_quality [
  | none ↦ false
  | some quality ↦ quality_eq synthetic_ordered quality
]

abbrev pub is_indexed : TemporalEvent → Bool
is_indexed e = is_some e.order_index || is_some e.turn_index || is_some e.fish_index

-- `eventTemporalOrderQuality(event)`
pub event_temporal_order_quality : TemporalEvent → OrderQuality
event_temporal_order_quality e = elim e.temporal_order_quality [
  | some quality ↦ quality
  | none ↦ elim e.metadata_quality [
    | some quality ↦ quality
    | none ↦ if is_indexed e then turn_ordered else real_time_ordered
  ]
]

-- Two events that follow one another at one time.
abbrev pub has_tie : List TemporalEvent → Bool
has_tie [] = false
has_tie (e ∷ []) = false
has_tie (e ∷ f ∷ es) = nat_eq f.timestamp e.timestamp || has_tie (f ∷ es)

abbrev pub is_crowded : List TemporalEvent → Bool
is_crowded [] = false
is_crowded (e ∷ []) = false
is_crowded (e ∷ f ∷ es) = true

-- `eventSetOrderQuality(events)`
pub event_set_order_quality : List TemporalEvent → OrderQuality
unfolding event_temporal_order_quality
event_set_order_quality events =
    let explicit = map event_temporal_order_quality events in
    if some_of (quality_eq synthetic_ordered) explicit
    then synthetic_ordered
    else if is_crowded events
    then same_timestamp_ordered
    else if some_of (quality_eq turn_ordered) explicit
    then turn_ordered
    else elim explicit [ [] ↦ real_time_ordered | q ∷ qs ↦ q ]

-- The buckets of `buildTemporalEventSets`, in the order in which their times are first met.
pub put_event : TemporalEvent → List (ℕ × List TemporalEvent) → List (ℕ × List TemporalEvent)
put_event e [] = (e.timestamp, e ∷ []) ∷ []
put_event e ((time, bucket) ∷ groups) =
    if nat_eq time e.timestamp
    then (time, bucket ++ e ∷ []) ∷ groups
    else (time, bucket) ∷ put_event e groups

pub group_events :
    List TemporalEvent → List (ℕ × List TemporalEvent) → List (ℕ × List TemporalEvent)
unfolding put_event
group_events [] groups = groups
group_events (e ∷ es) groups = group_events es (put_event e groups)

pub number_sets : ℕ → List (ℕ × List TemporalEvent) → List TemporalEventSet
unfolding event_set_order_quality
number_sets index [] = []
number_sets index ((time, bucket) ∷ groups) =
    record {
      timestamp = time;
      order_index = index;
      temporal_order_quality = event_set_order_quality bucket;
      events = bucket;
    }
    ∷ number_sets (index + 1) groups

module _ (locale_le : String → String → Bool) where
  -- The comparison of `sortTemporalEventsStable`: not after.
  abbrev pub event_le : TemporalEvent → TemporalEvent → Bool
  event_le left right =
      if nat_eq left.timestamp right.timestamp
      then (if nat_eq (normalized_order_index left) (normalized_order_index right)
          then locale_le left.id right.id
          else ltb (normalized_order_index left) (normalized_order_index right))
      else ltb left.timestamp right.timestamp

  unfoldable pub sort_temporal_events_stable : List TemporalEvent → List TemporalEvent
  unfolding sort_by
  sort_temporal_events_stable events = sort_by event_le events

  -- `temporalOrderQualityForEvents(events)`
  pub temporal_order_quality_for_events : List TemporalEvent → OrderQuality
  unfolding event_temporal_order_quality sort_temporal_events_stable
  temporal_order_quality_for_events [] = real_time_ordered
  temporal_order_quality_for_events (e ∷ es) =
      let explicit = map event_temporal_order_quality (e ∷ es) in
      if some_of (quality_eq synthetic_ordered) explicit
      then synthetic_ordered
      else if some_of (quality_eq same_timestamp_ordered) explicit
      then same_timestamp_ordered
      else if some_of is_synthetic (sort_temporal_events_stable (e ∷ es))
      then synthetic_ordered
      else if has_tie (sort_temporal_events_stable (e ∷ es))
      then same_timestamp_ordered
      else if some_of (quality_eq turn_ordered) explicit
      then turn_ordered
      else if some_of is_indexed (e ∷ es)
      then turn_ordered
      else real_time_ordered

  -- The test of a pre-event: from the start of the window on, and before the outcome.
  abbrev pub is_pre_event : ℕ → TemporalEvent → TemporalEvent → Bool
  is_pre_event window outcome e =
      leb outcome.timestamp (e.timestamp + window)
      && ltb e.timestamp outcome.timestamp
      && not (e.id == outcome.id)

  pub collect_windows : String → ℕ → List TemporalEvent → List TemporalEvent → List OutcomeWindow
  collect_windows status window ordered [] = []
  collect_windows status window ordered (e ∷ es) =
      let rest = collect_windows status window ordered es in
      if is_outcome status e
      then record { outcome = e; pre_events = keep (is_pre_event window e) ordered } ∷ rest
      else rest

  -- `buildOutcomeWindows(events, terminalStatus, patternWindowMs)`
  pub build_outcome_windows : List TemporalEvent → String → ℕ → List OutcomeWindow
  unfolding collect_windows sort_temporal_events_stable
  build_outcome_windows events status window =
      let ordered = sort_temporal_events_stable events in
      collect_windows status window ordered ordered

  -- `buildTemporalEventSets(events)`
  pub build_temporal_event_sets : List TemporalEvent → List TemporalEventSet
  unfolding group_events number_sets sort_temporal_events_stable
  build_temporal_event_sets events = number_sets 0 (
      sort_by (λ left right. leb left.0 right.0)
        (group_events (sort_temporal_events_stable events) []))
