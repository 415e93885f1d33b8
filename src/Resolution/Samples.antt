-- ===== src/Resolution/Samples.antt =====
-- A suggestion with two actions, resolved with small ports.
use thalamus_usecase_ssa.Prelude.{
  String, ◌≡◌, refl, true, Option, none, some, List, [], ◌∷◌, ◌++◌, ◌==◌, string_Eq, if◌then◌else◌,
  count_of,
}
use thalamus_usecase_ssa.Resolution.{
  Row, pending, partial, Action, malformed, parsed, HandlerResult, Answer, threw, answered,
  get_generic, claim, release, handle, update, written, Ports, no_totals, no_lock, claimed,
  is_terminal, dispatch, preflight, resolve_loaded, resolve, listed,
}
use thalamus_usecase_ssa.Resolution.Dispatch.{summary, dispatch-summary}
use thalamus_usecase_ssa.Resolution.Outcome.{
  HasActions, IsSettled, resolve_loaded-IsSettled, calls_before,
}
use thalamus_usecase_ssa.Resolution.Locks.{
  is_release, is_claim, if_claimed, Target, IsOpen, resolve-releases, resolve-IsOpen,
}
use thalamus_usecase_ssa.Resolution.Early.{resolve-release_first}
use thalamus_usecase_ssa.Resolution.Again.{
  update_resolution, repeated, IsJson, resolve-update_resolution,
}

abbrev merge : Action
merge = record { kind = "merge"; args = "7" }

abbrev notify : Action
notify = record { kind = "notify"; args = "" }

abbrev merged : HandlerResult
merged = record { is_ok = true; affected_rows = 2; pending = none; errors = none }

-- `merge` changes two rows and `notify` throws.
abbrev handlers : String → Option (Action → Row → Option String → Answer HandlerResult)
handlers kind =
    if kind == "merge"
    then some (λ a r s. answered merged)
    else (if kind == "notify" then some (λ a r s. threw "late") else none)

abbrev ports : Ports
ports = record {
  parse_list = λ text. if text == "[]" then some [] else some ("notify: late" ∷ []);
  parse_payload = λ text. if text == "plan" then parsed (merge ∷ notify ∷ []) else malformed;
  registry = handlers;
  promotion = λ row. answered (record { is_ok = true; errors = none });
  now = "2026-01-01T00:00:00Z";
  unknown_action = λ kind. kind;
  handler_error = λ kind message. "notify: late";
  invalid_payload = λ message. message;
}

abbrev open_row : Row
open_row = record {
  accepted = some true;
  resolution_status = pending;
  resolved_at = none;
  resolution_errors = none;
  resolution_payload = some "plan";
  reviewer_note = none;
}

abbrev stringify : List String → String
stringify [] = "[]"
stringify (e ∷ es) = "list"

has_plan : HasActions ports open_row none (merge ∷ notify ∷ [])
has_plan = record { text = "plan"; stored_text = refl; filled = refl; parses = refl }

is_partial : (resolve_loaded ports open_row none).0.status ≡ partial
unfolding resolve_loaded
is_partial = refl

passes : preflight ports open_row ≡ none
unfolding preflight
passes = refl

dispatch-summary_example :
    dispatch ports open_row none (merge ∷ notify ∷ []) no_totals
    ≡ summary ports open_row none (merge ∷ notify ∷ [])
dispatch-summary_example = dispatch-summary ports open_row none (merge ∷ notify ∷ [])

resolve_loaded-IsSettled_example :
    IsSettled ports open_row none
      (summary ports open_row none (merge ∷ notify ∷ []))
      (resolve_loaded ports open_row none).0
      (resolve_loaded ports open_row none).1
resolve_loaded-IsSettled_example =
    resolve_loaded-IsSettled ports open_row none (merge ∷ notify ∷ []) has_plan

resolve-releases_example :
    count_of is_release (resolve ports (some open_row) (claimed (some open_row)) none).1
    ≡ if_claimed
        (claimed (some open_row))
        (count_of is_claim (resolve ports (some open_row) (claimed (some open_row)) none).1)
resolve-releases_example = resolve-releases ports (some open_row) (claimed (some open_row)) none

resolve-IsOpen_example :
    (row : Row) × Target (some open_row) (claimed (some open_row)) row × IsOpen row
unfolding resolve
resolve-IsOpen_example = resolve-IsOpen ports (some open_row) (claimed (some open_row)) none refl

resolve-release_first_example :
    (resolve ports (some open_row) (claimed (some open_row)) none).1
    ≡ get_generic
        ∷ claim
        ∷ get_generic
        ∷ handle merge
        ∷ release
        ∷ calls_before
            (summary ports open_row none (notify ∷ [])).calls
            (resolve_loaded ports open_row none).0.status
      ++ update (written ports open_row none (resolve_loaded ports open_row none).0) ∷ []
resolve-release_first_example =
    resolve-release_first ports open_row open_row none merge (notify ∷ [])
      (λ a r s. answered merged) passes passes has_plan refl

reads_back : IsJson ports stringify (listed (resolve_loaded ports open_row none).0.errors)
unfolding resolve_loaded
reads_back = record { filled = refl; reads = refl; dated = refl }

ended : is_terminal (resolve_loaded ports open_row none).0.status ≡ true
unfolding resolve_loaded
ended = refl

resolve-update_resolution_example :
    resolve ports
      (some (
        update_resolution stringify open_row
          (written ports open_row none (resolve_loaded ports open_row none).0)))
      no_lock
      none
    ≡ (repeated (resolve_loaded ports open_row none).0, get_generic ∷ [])
resolve-update_resolution_example =
    resolve-update_resolution ports stringify open_row none (merge ∷ notify ∷ []) has_plan refl
      ended reads_back no_lock none
