-- ===== src/Resolution.antt =====
-- packages/sweep/src/services/sweep-resolution.service.ts: an accepted suggestion is resolved by
-- the handlers of its actions, under a lock.
-- What other code answers (the store, the handlers, the promotion, JSON) is a parameter, and the
-- calls that the service makes are listed in the order in which it makes them.
pub mod Dispatch
pub mod Outcome
pub mod Locks
pub mod Early
pub mod Again
mod Samples
use thalamus_usecase_ssa.Prelude.{
  ℕ, ◌+◌, String, Bool, true, false, not, ◌&&◌, Option, none, some, List, [], ◌∷◌, ◌++◌, ltb, ◌==◌,
  string_Eq, if◌then◌else◌,
}

pub data Status : Type 0 where
  pending success partial failed pending_selection : Status

pub data SelectionValue : Type 0 where
  text_value : String → SelectionValue
  number_value : ℕ → SelectionValue

pub record SelectionOption : Type 0 where
  pub value : SelectionValue
  pub label : String
  pub detail : Option String

pub record PendingSelection : Type 0 where
  pub key : String
  pub label : String
  pub options : List SelectionOption

pub record Row : Type 0 where
  pub accepted : Option Bool
  pub resolution_status : Status
  pub resolved_at : Option String
  pub resolution_errors : Option String
  pub resolution_payload : Option String
  pub reviewer_note : Option String

pub record ResolutionResult : Type 0 where
  pub status : Status
  pub resolved_at : Option String
  pub affected_rows : ℕ
  pub errors : Option (List String)
  pub pending_selections : Option (List PendingSelection)

pub record Action : Type 0 where
  pub kind : String
  pub args : String

pub data Payload : Type 0 where
  malformed : Payload
  rejected : String → Payload
  parsed : List Action → Payload

pub record HandlerResult : Type 0 where
  pub is_ok : Bool
  pub affected_rows : ℕ
  pub pending : Option (List PendingSelection)
  pub errors : Option (List String)

-- What an awaited call of another component comes to.
pub data Answer (A : Type 0) : Type 0 where
  threw : String → Answer A
  answered : A → Answer A

pub record PromotionResult : Type 0 where
  pub is_ok : Bool
  pub errors : Option (List String)

-- What is written back of a result.
pub record Update : Type 0 where
  pub status : Status
  pub resolved_at : Option String
  pub errors : Option (List String)
  pub pending_selections : Option (List PendingSelection)

pub data Call : Type 0 where
  get_generic claim release promote : Call
  handle : Action → Call
  update : Update → Call

-- A result that changes nothing but to say why.
abbrev pub refused : Status → String → ResolutionResult
refused status reason = record {
  status = status;
  resolved_at = none;
  affected_rows = 0;
  errors = some (reason ∷ []);
  pending_selections = none;
}

-- `!text` for a text that may be missing.
abbrev pub is_blank : Option String → Bool
is_blank none = true
is_blank (some text) = text == ""

abbrev pub is_terminal : Status → Bool
is_terminal success = true
is_terminal partial = true
is_terminal _ = false

abbrev pub is_accepted : Option Bool → Bool
is_accepted (some true) = true
is_accepted _ = false

abbrev pub non_empty {ℓ} : {A : Type ℓ} → List A → Option (List A)
non_empty [] = none
non_empty (x ∷ xs) = some (x ∷ xs)

abbrev pub listed {ℓ} : {A : Type ℓ} → Option (List A) → List A
listed none = []
listed (some xs) = xs

-- The ports and the library functions that the service calls. `parse_list` gives the strings of a
-- JSON array, and nothing for other texts; `registry` finds the handler of a kind.
pub record Ports : Type 0 where
  pub parse_list : String → Option (List String)
  pub parse_payload : String → Payload
  pub registry : String → Option (Action → Row → Option String → Answer HandlerResult)
  pub promotion : Row → Answer PromotionResult
  pub now : String
  pub unknown_action : String → String
  pub handler_error : String → String → String
  pub invalid_payload : String → String

-- The totals of the loop over the actions, and its calls.
pub record Totals : Type 0 where
  pub affected : ℕ
  pub errors : List String
  pub pending : List PendingSelection
  pub calls : List Call

abbrev pub no_totals : Totals
no_totals = record { affected = 0; errors = []; pending = []; calls = [] }

-- What the store says about the lock: it has none, another holder has it, or it is claimed and
-- the row is read again.
pub data Locking : Type 0 where
  no_lock contended : Locking
  claimed : Option Row → Locking

-- `return this.resolveLoaded(...)` in the `try` is not awaited: it runs up to its first call of
-- another component, then the `finally` block releases the lock, then it goes on.
abbrev pub with_release : List Call → List Call
with_release [] = release ∷ []
with_release (first ∷ rest) = first ∷ release ∷ rest

module _ (ports : Ports) where
  pub parse_resolution_errors : Option String → Option (List String)
  parse_resolution_errors none = none
  parse_resolution_errors (some raw) =
      if raw == ""
      then none
      else elim (ports.parse_list raw) [ none ↦ some (raw ∷ []) | some items ↦ non_empty items ]

  pub to_terminal_result : Row → Option ResolutionResult
  unfolding parse_resolution_errors
  to_terminal_result row =
      if not (is_terminal row.resolution_status)
      then none
      else some (record {
        status = row.resolution_status;
        resolved_at = row.resolved_at;
        affected_rows = 0;
        errors = parse_resolution_errors row.resolution_errors;
        pending_selections = none;
      })

  -- `preflightResolutionRow(row)`
  pub preflight : Row → Option ResolutionResult
  unfolding to_terminal_result
  preflight row =
      if not (is_accepted row.accepted)
      then some (refused failed "Suggestion not accepted")
      else elim (to_terminal_result row) [
        | some existing ↦ some existing
        | none ↦
            if is_blank row.resolution_payload
            then some (refused failed "No resolution payload")
            else none
      ]

  module _ (row : Row) (selections : Option String) where
    -- What one action adds: no handler, a handler that throws, or its result.
    pub act : Action → Totals → Totals
    act action t = elim (ports.registry action.kind) [
      | none ↦ record t { errors = t.errors ++ ports.unknown_action action.kind ∷ [] }
      | some handler ↦ elim (handler action row selections) [
        | threw message ↦ record t {
          errors = t.errors ++ ports.handler_error action.kind message ∷ [];
          calls = t.calls ++ handle action ∷ [];
        }
        | answered r ↦ record {
          affected = t.affected + r.affected_rows;
          errors = t.errors ++ (if r.is_ok then [] else listed r.errors);
          pending = t.pending ++ listed r.pending;
          calls = t.calls ++ handle action ∷ [];
        }
      ]
    ]

    pub dispatch : List Action → Totals → Totals
    unfolding act
    dispatch [] t = t
    dispatch (action ∷ actions) t = dispatch actions (act action t)

    abbrev pub final_status : Totals → Status
    final_status t = elim t.errors [
      | [] ↦ success
      | e ∷ es ↦ if ltb 0 t.affected then partial else failed
    ]

    -- What the promotion adds to the errors; a promotion that throws adds none.
    abbrev pub promotion_errors : Answer PromotionResult → List String
    promotion_errors (threw message) = []
    promotion_errors (answered r) = if r.is_ok then [] else listed r.errors

    pub conclude : Totals → Status → List String → ResolutionResult
    conclude t status errors = record {
      status = status;
      resolved_at = some ports.now;
      affected_rows = t.affected;
      errors = non_empty errors;
      pending_selections = none;
    }

    abbrev pub written : ResolutionResult → Update
    written r = record {
      status = r.status;
      resolved_at = r.resolved_at;
      errors = r.errors;
      pending_selections = r.pending_selections;
    }

    -- Once the handlers are done: the promotion, unless all failed, and the final status.
    pub finish : Totals → ResolutionResult × List Call
    unfolding conclude
    finish t = elim (final_status t) [
      | failed ↦ let r = conclude t failed t.errors in (r, t.calls ++ update (written r) ∷ [])
      | status ↦
          let r = conclude t status (t.errors ++ promotion_errors (ports.promotion row)) in
          (r, t.calls ++ promote ∷ update (written r) ∷ [])
    ]

    abbrev pub pending_result : List PendingSelection → ResolutionResult
    pending_result ps = record {
      status = pending_selection;
      resolved_at = none;
      affected_rows = 0;
      errors = none;
      pending_selections = some ps;
    }

    -- A choice that the reviewer has to make first, or the end.
    pub settle : Totals → ResolutionResult × List Call
    unfolding finish
    settle t = elim t.pending [
      | [] ↦ finish t
      | p ∷ ps ↦ elim selections [
        | some chosen ↦ finish t
        | none ↦ let r = pending_result (p ∷ ps) in (r, t.calls ++ update (written r) ∷ [])
      ]
    ]

    -- `resolveLoaded(suggestionId, generic, selections)`, on `generic.resolutionPayload`.
    pub resolve_payload : Option String → ResolutionResult × List Call
    unfolding dispatch settle
    resolve_payload none = (refused failed "No resolution payload", [])
    resolve_payload (some text) =
        if text == ""
        then (refused failed "No resolution payload", [])
        else elim (ports.parse_payload text) [
          | malformed ↦ (refused failed "Malformed payload JSON", [])
          | rejected message ↦ (refused failed (ports.invalid_payload message), [])
          | parsed actions ↦ settle (dispatch actions no_totals)
        ]

    pub resolve_loaded : ResolutionResult × List Call
    unfolding resolve_payload
    resolve_loaded = resolve_payload row.resolution_payload

  -- The body of the `try` block.
  pub resolve_claimed : Option Row → Option String → ResolutionResult × List Call
  unfolding preflight resolve_loaded
  resolve_claimed refreshed selections = elim refreshed [
    | none ↦ (refused failed "Suggestion not found", [])
    | some row ↦ elim (preflight row) [
      | some early ↦ (early, [])
      | none ↦ resolve_loaded row selections
    ]
  ]

  -- `resolve(suggestionId, selections)`, on what the store answers.
  unfoldable pub resolve : Option Row → Locking → Option String → ResolutionResult × List Call
  unfolding resolve_claimed
  resolve found locking selections = elim found [
    | none ↦ (refused failed "Suggestion not found", get_generic ∷ [])
    | some row ↦ elim (preflight row) [
      | some early ↦ (early, get_generic ∷ [])
      | none ↦ elim locking [
        | no_lock ↦
            let (result, calls) = resolve_loaded row selections in (result, get_generic ∷ calls)
        | contended ↦
            (refused pending_selection "Resolution already in progress", get_generic ∷ claim ∷ [])
        | claimed refreshed ↦
            let (result, calls) = resolve_claimed refreshed selections in
            (result, get_generic ∷ claim ∷ get_generic ∷ with_release calls)
      ]
    ]
  ]
