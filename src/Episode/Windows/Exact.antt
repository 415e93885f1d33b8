-- ===== src/Episode/Windows/Exact.antt =====
-- The windows of the outcomes against the events that they were made from.
use mathlib.Core.List.{Perm}
use thalamus_usecase_ssa.Prelude.{
  ℕ, ◌+◌, ◌<◌, ◌≤◌, ◌≡◌, ◌≢◌, ◌↔◌, ◌==◌, string_Eq, ==_iff, refl, ap, subst, sym, String, Bool,
  true, false, Option, none, some, List, [], ◌∷◌, map, keep, keep-sort_by, IsAscending,
  keep-IsAscending, sort_by-IsAscending, All, Bool-cases, inl, inr, arith,
}
use thalamus_usecase_ssa.Episode.{TemporalEvent}
use thalamus_usecase_ssa.Episode.Windows.{
  OutcomeWindow, is_outcome, is_pre_event, event_le, sort_temporal_events_stable, collect_windows,
  build_outcome_windows,
}

module _ (locale_le : String → String → Bool) where
  -- The stable sort is by time.
  pub sort_temporal_events_stable-IsAscending :
      (events : List TemporalEvent)
      → IsAscending (λ e. e.timestamp) (sort_temporal_events_stable locale_le events)
  unfolding sort_temporal_events_stable
  sort_temporal_events_stable-IsAscending events =
      sort_by-IsAscending (λ e. e.timestamp) (event_le locale_le) (λ v w h. ground (arith, h))
        (λ v w h. ground (arith, h)) events

  module _ (status : String) (window : ℕ) (events : List TemporalEvent) where
    -- An event before an outcome, no further back than the window, and not the outcome itself.
    pub IsBefore : TemporalEvent → TemporalEvent → Type 0
    IsBefore outcome e =
        (e.timestamp < outcome.timestamp)
        × (outcome.timestamp ≤ e.timestamp + window)
        × (e.id ≢ outcome.id)

    -- A window has the events that a test selects which decides just this, each as often as there
    -- are, in the order of time.
    pub record IsWindow (w : OutcomeWindow) : Type 0 where
      pub outcome : w.outcome.terminal_status ≡ some status
      pub test : TemporalEvent → Bool
      pub decides : (e : TemporalEvent) → (test e ≡ true) ↔ IsBefore w.outcome e
      pub pre_events : Perm w.pre_events (keep test events)
      pub ascending : IsAscending (λ e. e.timestamp) w.pre_events

    pub record AreWindows (ws : List OutcomeWindow) : Type 0 where
      pub each : All IsWindow ws
      pub picks : TemporalEvent → Bool
      pub picks_outcomes :
          (e : TemporalEvent) → (picks e ≡ true) ↔ (e.terminal_status ≡ some status)
      pub outcomes : Perm (map (λ w. w.outcome) ws) (keep picks events)

    same_status :
        (given : Option String)
        → ((elim given [ none ↦ false | some s ↦ s == status ]) ≡ true) ↔ (given ≡ some status)
    same_status none = ((λ h. cc), (λ h. cc))
    same_status (some s) =
        ((λ h. ap some ((==_iff s status).0 h)), (λ h. (==_iff s status).1 (some-same s h)))
      where
        some-same : (s : String) → some s ≡ some status → s ≡ status
        some-same s h = cc

    is_pre_event-IsBefore :
        (outcome e : TemporalEvent)
        → (is_pre_event locale_le window outcome e ≡ true) ↔ IsBefore outcome e
    unfolding IsBefore
    is_pre_event-IsBefore outcome e = (
      λ h. (
        ground (arith, h),
        ground (arith, h),
        λ same. ground (arith, h, (==_iff e.id outcome.id).1 same),
      ),
      λ b. elim (Bool-cases (e.id == outcome.id)) [
        | inl same ↦ absurd (b.2 ((==_iff e.id outcome.id).0 same))
        | inr other ↦ ground (arith, b.0, b.1, other)
      ],
    )

    here :
        (e : TemporalEvent)
        → is_outcome status e ≡ true
        → IsWindow record {
          outcome = e;
          pre_events =
              keep (is_pre_event locale_le window e) (sort_temporal_events_stable locale_le events);
        }
    unfolding sort_temporal_events_stable
    here e a = record {
      outcome = (same_status e.terminal_status).0 a;
      test = is_pre_event locale_le window e;
      decides = is_pre_event-IsBefore e;
      pre_events = keep-sort_by (event_le locale_le) (is_pre_event locale_le window e) events;
      ascending =
          keep-IsAscending (λ f. f.timestamp) (is_pre_event locale_le window e) _
            (sort_temporal_events_stable-IsAscending events);
    }

    each_IsWindow :
        (es : List TemporalEvent)
        → All IsWindow (
            collect_windows locale_le status window
              (sort_temporal_events_stable locale_le events)
              es)
    unfolding collect_windows
    each_IsWindow [] = tt
    each_IsWindow (e ∷ es) = elim (Bool-cases (is_outcome status e)) [
      | inl a ↦ rw a (here e a, each_IsWindow es)
      | inr a ↦ rw a (each_IsWindow es)
    ]

    outcomes_of :
        (ordered es : List TemporalEvent)
        → map (λ w. w.outcome) (collect_windows locale_le status window ordered es)
          ≡ keep (is_outcome status) es
    unfolding collect_windows
    outcomes_of ordered [] = refl
    outcomes_of ordered (e ∷ es) = elim (Bool-cases (is_outcome status e)) [
      | inl a ↦ rw a (ap (λ l. e ∷ l) (outcomes_of ordered es))
      | inr a ↦ rw a (outcomes_of ordered es)
    ]

  -- `buildOutcomeWindows` makes a window of each event with the terminal status and of no other
  -- event. Its pre-events are, in the order of their times, exactly the events with a time before
  -- that of the outcome, no further back than the window, and with another id than the outcome,
  -- however the events were ordered.
  pub build_outcome_windows_exact :
      (events : List TemporalEvent) (status : String) (window : ℕ)
      → AreWindows status window events (build_outcome_windows locale_le events status window)
  unfolding build_outcome_windows sort_temporal_events_stable
  build_outcome_windows_exact events status window = record {
    each = each_IsWindow status window events (sort_temporal_events_stable locale_le events);
    picks = is_outcome status;
    picks_outcomes = λ e. same_status status window events e.terminal_status;
    outcomes =
        subst (λ l. Perm l (keep (is_outcome status) events))
          (sym (
            outcomes_of status window events (sort_temporal_events_stable locale_le events)
              (sort_temporal_events_stable locale_le events)))
          (keep-sort_by (event_le locale_le) (is_outcome status) events);
  }
