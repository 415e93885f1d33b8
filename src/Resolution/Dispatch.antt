-- ===== src/Resolution/Dispatch.antt =====
-- The loop over the actions: every action is tried, in order, and the totals are sums.
use thalamus_usecase_ssa.Prelude.{
  ℕ, ◌+◌, String, ◌≡◌, refl, ◌∙◌, ap, sym, Bool, true, false, Option, none, some, List, [], ◌∷◌,
  ◌++◌, append_assoc, append-nil, arith, if◌then◌else◌, All, All-append,
}
use thalamus_usecase_ssa.Resolution.{
  Row, Action, HandlerResult, Answer, threw, answered, Call, handle, PendingSelection, Ports,
  Totals, no_totals, listed, act, dispatch,
}

abbrev pub is_handle : Call → Bool
is_handle (handle a) = true
is_handle _ = false

module _ (ports : Ports) (row : Row) (selections : Option String) where
  -- What happens to an action on its own, whatever came before it.
  abbrev pub run_action : Action → Option (Answer HandlerResult)
  run_action a = elim (ports.registry a.kind) [
    | none ↦ none
    | some handler ↦ some (handler a row selections)
  ]

  abbrev affected_of : Option (Answer HandlerResult) → ℕ
  affected_of (some (answered r)) = r.affected_rows
  affected_of _ = 0

  abbrev errors_of : String → Option (Answer HandlerResult) → List String
  errors_of kind none = ports.unknown_action kind ∷ []
  errors_of kind (some (threw message)) = ports.handler_error kind message ∷ []
  errors_of kind (some (answered r)) = if r.is_ok then [] else listed r.errors

  abbrev pending_of : Option (Answer HandlerResult) → List PendingSelection
  pending_of (some (answered r)) = listed r.pending
  pending_of _ = []

  abbrev calls_of : Action → Option (Answer HandlerResult) → List Call
  calls_of a none = []
  calls_of a (some answer) = handle a ∷ []

  -- The sums over all actions.
  unfoldable pub summary : List Action → Totals
  summary [] = no_totals
  summary (a ∷ actions) =
      let rest = summary actions in
      let run = run_action a in
      record {
        affected = affected_of run + rest.affected;
        errors = errors_of a.kind run ++ rest.errors;
        pending = pending_of run ++ rest.pending;
        calls = calls_of a run ++ rest.calls;
      }

  abbrev pub plus : Totals → Totals → Totals
  plus t u = record {
    affected = t.affected + u.affected;
    errors = t.errors ++ u.errors;
    pending = t.pending ++ u.pending;
    calls = t.calls ++ u.calls;
  }

  act_lem :
      (a : Action) (t : Totals)
      → act ports row selections a t
        ≡ plus t (record {
          affected = affected_of (run_action a);
          errors = errors_of a.kind (run_action a);
          pending = pending_of (run_action a);
          calls = calls_of a (run_action a);
        })
  unfolding act
  act_lem a t = ground (arith, append-nil t.errors, append-nil t.pending, append-nil t.calls)

  plus_assoc : (t u v : Totals) → plus (plus t u) v ≡ plus t (plus u v)
  plus_assoc t u v = ground (
    arith,
    append_assoc t.errors u.errors v.errors,
    append_assoc t.pending u.pending v.pending,
    append_assoc t.calls u.calls v.calls,
  )

  plus-no_totals : (t : Totals) → plus t no_totals ≡ t
  plus-no_totals t = ground (arith, append-nil t.errors, append-nil t.pending, append-nil t.calls)

  pub dispatch-plus :
      (actions : List Action) (t : Totals)
      → dispatch ports row selections actions t ≡ plus t (summary actions)
  unfolding dispatch summary
  dispatch-plus [] t = sym (plus-no_totals t)
  dispatch-plus (a ∷ actions) t =
      dispatch-plus actions (act ports row selections a t)
      ∙ ap (λ u. plus u (summary actions)) (act_lem a t)
      ∙ plus_assoc t _ (summary actions)

  no_totals-plus : (t : Totals) → plus no_totals t ≡ t
  no_totals-plus t = ground arith

  -- Every action is tried once and in order, also after one that fails: the rows, the errors and
  -- the open selections are those of the single actions, put together, and each action that has a
  -- handler makes one call.
  pub dispatch-summary :
      (actions : List Action) → dispatch ports row selections actions no_totals ≡ summary actions
  dispatch-summary actions = dispatch-plus actions no_totals ∙ no_totals-plus (summary actions)

  calls_of-handles :
      (a : Action) (r : Option (Answer HandlerResult))
      → All (λ c. is_handle c ≡ true) (calls_of a r)
  calls_of-handles a none = tt
  calls_of-handles a (some x) = (refl, tt)

  -- The loop only calls handlers.
  pub summary-handles :
      (actions : List Action) → All (λ c. is_handle c ≡ true) (summary actions).calls
  unfolding summary
  summary-handles [] = tt
  summary-handles (a ∷ actions) =
      All-append (λ c. is_handle c ≡ true) (calls_of a (run_action a)) (summary actions).calls
        (calls_of-handles a (run_action a)) (summary-handles actions)
