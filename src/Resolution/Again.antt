-- ===== src/Resolution/Again.antt =====
-- packages/sweep/src/repositories/sweep.repository.ts: the result is written to the row, and the
-- suggestion is resolved once more.
use thalamus_usecase_ssa.Prelude.{
  ℕ, String, ◌≡◌, refl, ◌∙◌, ap, sym, subst, true, false, Option, none, some, List, [], ◌∷◌, ◌++◌,
  arith, ◌==◌, string_Eq, if◌then◌else◌,
}
use thalamus_usecase_ssa.Resolution.{
  Row, Status, ResolutionResult, Action, get_generic, Update, Ports, Totals, Locking, written,
  is_terminal, is_accepted, non_empty, listed, parse_resolution_errors, to_terminal_result,
  preflight, settle, finish, conclude, promotion_errors, resolve_loaded, resolve,
}
use thalamus_usecase_ssa.Resolution.Dispatch.{summary}
use thalamus_usecase_ssa.Resolution.Outcome.{HasActions, resolve_loaded-settle}

-- `text || null`
abbrev pub or_null : String → Option String
or_null text = if text == "" then none else some text

-- `text ?? ""`
abbrev pub or_empty : Option String → String
or_empty none = ""
or_empty (some text) = text

-- `updateResolution(id, result)` and then `toRow`; `stringify` is `JSON.stringify` of the errors.
unfoldable pub update_resolution : (List String → String) → Row → Update → Row
update_resolution stringify row u = record row {
  resolution_status = u.status;
  resolved_at = or_null (or_empty u.resolved_at);
  resolution_errors = or_null (elim u.errors [ none ↦ "" | some errors ↦ stringify errors ]);
}

-- A result that was already reached.
abbrev pub repeated : ResolutionResult → ResolutionResult
repeated r = record r { affected_rows = 0 }

module _ (ports : Ports) (stringify : List String → String) where
  -- These errors, written as JSON, are not blank and are read back, and the clock gives a text.
  pub record IsJson (errors : List String) : Type 0 where
    pub filled : (stringify errors == "") ≡ false
    pub reads : ports.parse_list (stringify errors) ≡ some errors
    pub dated : (ports.now == "") ≡ false

  read_errors :
      (errors : List String)
      → IsJson errors
      → parse_resolution_errors ports
          (or_null (elim (non_empty errors) [ none ↦ "" | some es ↦ stringify es ]))
        ≡ non_empty errors
  unfolding parse_resolution_errors
  read_errors [] json = refl
  read_errors (e ∷ es) json = rw (json.filled, json.filled, json.reads)

  listed-non_empty : (errors : List String) → listed (non_empty errors) ≡ errors
  listed-non_empty [] = refl
  listed-non_empty (e ∷ es) = refl

  -- A result of this status and these errors, as the service makes it.
  abbrev ended : Status → ℕ → List String → ResolutionResult
  ended status rows errors = record {
    status = status;
    resolved_at = some ports.now;
    affected_rows = rows;
    errors = non_empty errors;
    pending_selections = none;
  }

  settle-ended :
      (row : Row) (selections : Option String) (t : Totals)
      → is_terminal (settle ports row selections t).0.status ≡ true
      → (settle ports row selections t).0
        ≡ ended
            (settle ports row selections t).0.status
            t.affected
            (t.errors ++ promotion_errors ports row selections (ports.promotion row))
  unfolding settle finish conclude
  settle-ended row selections t h = ground arith

  result_ended :
      (row : Row) (selections : Option String) (actions : List Action)
      → HasActions ports row selections actions
      → is_terminal (resolve_loaded ports row selections).0.status ≡ true
      → let t = summary ports row selections actions in
        let result = (resolve_loaded ports row selections).0 in
        result
        ≡ ended result.status t.affected
            (t.errors ++ promotion_errors ports row selections (ports.promotion row))
  result_ended row selections actions has terminal =
      let t = summary ports row selections actions in
      subst
        (λ p.
          is_terminal p.0.status ≡ true
          → p.0
            ≡ ended p.0.status t.affected
                (t.errors ++ promotion_errors ports row selections (ports.promotion row)))
        (sym (resolve_loaded-settle ports row selections actions has))
        (settle-ended row selections t) terminal

  preflight-ended :
      (row : Row) (selections : Option String) (status : Status) (rows : ℕ) (errors : List String)
      → IsJson errors
      → is_accepted row.accepted ≡ true
      → is_terminal status ≡ true
      → preflight ports (
          update_resolution stringify row (written ports row selections (ended status rows errors)))
        ≡ some (repeated (ended status rows errors))
  unfolding preflight to_terminal_result update_resolution
  preflight-ended row selections status rows errors json agreed terminal =
      rw (agreed, terminal, json.dated, read_errors errors json)

  preflight-resolve :
      (row : Row) (early : ResolutionResult) (locking : Locking) (selections : Option String)
      → preflight ports row ≡ some early
      → resolve ports (some row) locking selections ≡ (early, get_generic ∷ [])
  unfolding resolve
  preflight-resolve row early locking selections h = rw (resolve, h)

  -- A suggestion that was resolved with success, or in part, and whose row was updated with the
  -- result is not acted on again: to resolve it once more only reads the row, and gives the same
  -- result, with no rows changed. Conditions: the row is accepted, its payload holds actions, and
  -- the errors of a result are read back from JSON as they were written.
  pub resolve-update_resolution :
      (row : Row) (selections : Option String) (actions : List Action)
      → HasActions ports row selections actions
      → is_accepted row.accepted ≡ true
      → is_terminal (resolve_loaded ports row selections).0.status ≡ true
      → IsJson (listed (resolve_loaded ports row selections).0.errors)
      → (locking : Locking) (later : Option String)
      → let result = (resolve_loaded ports row selections).0 in
        resolve ports
          (some (update_resolution stringify row (written ports row selections result)))
          locking
          later
        ≡ (repeated result, get_generic ∷ [])
  resolve-update_resolution row selections actions has agreed terminal json locking later =
      let t = summary ports row selections actions in
      let errors = t.errors ++ promotion_errors ports row selections (ports.promotion row) in
      let ends = result_ended row selections actions has terminal in
      let read = subst IsJson (ap (λ r. listed r.errors) ends ∙ listed-non_empty errors) json in
      subst
        (λ r.
          resolve ports (some (update_resolution stringify row (written ports row selections r)))
            locking later
          ≡ (repeated r, get_generic ∷ []))
        (sym ends)
        (preflight-resolve _ _ locking later
          (preflight-ended row selections _ t.affected errors read agreed terminal))
