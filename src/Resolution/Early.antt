-- ===== src/Resolution/Early.antt =====
-- When the lock is released, compared with the calls that it should cover.
use thalamus_usecase_ssa.Prelude.{
  String, ◌≡◌, ◌∙◌, ap, Option, none, some, List, [], ◌∷◌, ◌++◌, arith,
}
use thalamus_usecase_ssa.Resolution.{
  Row, Status, Action, HandlerResult, Answer, Call, get_generic, claim, release, handle, update,
  Ports, written, preflight, resolve_loaded, resolve_claimed, claimed, with_release, resolve,
}
use thalamus_usecase_ssa.Resolution.Dispatch.{summary}
use thalamus_usecase_ssa.Resolution.Outcome.{HasActions, resolve_loaded-IsSettled, calls_before}

module _ (ports : Ports) where
  calls_before-first :
      (first : Call) (calls : List Call) (status : Status)
      → calls_before (first ∷ calls) status ≡ first ∷ calls_before calls status
  calls_before-first first calls status = ground arith

  first_call :
      (row : Row) (selections : Option String) (a : Action) (actions : List Action)
      (handler : Action → Row → Option String → Answer HandlerResult)
      → ports.registry a.kind ≡ some handler
      → (summary ports row selections (a ∷ actions)).calls
        ≡ handle a ∷ (summary ports row selections actions).calls
  unfolding summary
  first_call row selections a actions handler h = ground arith

  resolve_claimed_calls :
      (row : Row) (selections : Option String)
      → preflight ports row ≡ none
      → resolve_claimed ports (some row) selections ≡ resolve_loaded ports row selections
  unfolding resolve_claimed
  resolve_claimed_calls row selections passes = rw (resolve_claimed, passes)

  resolve_calls :
      (found row : Row) (selections : Option String)
      → preflight ports found ≡ none
      → (resolve ports (some found) (claimed (some row)) selections).1
        ≡ get_generic
          ∷ claim
          ∷ get_generic
          ∷ with_release (resolve_claimed ports (some row) selections).1
  unfolding resolve
  resolve_calls found row selections passes = rw (resolve, passes)

  -- The lock is given back right after the first handler is called: every further handler, the
  -- promotion and the update of the row come after the release.
  pub resolve-release_first :
      (found row : Row) (selections : Option String) (a : Action) (actions : List Action)
      (handler : Action → Row → Option String → Answer HandlerResult)
      → preflight ports found ≡ none
      → preflight ports row ≡ none
      → HasActions ports row selections (a ∷ actions)
      → ports.registry a.kind ≡ some handler
      → let after = resolve_loaded ports row selections in
        (resolve ports (some found) (claimed (some row)) selections).1
        ≡ get_generic
            ∷ claim
            ∷ get_generic
            ∷ handle a
            ∷ release
            ∷ calls_before (summary ports row selections actions).calls after.0.status
          ++ update (written ports row selections after.0) ∷ []
  resolve-release_first found row selections a actions handler passes again has known =
      let after = resolve_loaded ports row selections in
      let settled = resolve_loaded-IsSettled ports row selections (a ∷ actions) has in
      resolve_calls found row selections passes
      ∙ ap (λ r. get_generic ∷ claim ∷ get_generic ∷ with_release r.1)
          (resolve_claimed_calls row selections again)
      ∙ ap (λ c. get_generic ∷ claim ∷ get_generic ∷ with_release c)
          (settled.stored
            ∙ ap
                (λ c.
                  calls_before c after.0.status
                  ++ update (written ports row selections after.0) ∷ [])
                (first_call row selections a actions handler known)
            ∙ ap (λ c. c ++ update (written ports row selections after.0) ∷ [])
                (calls_before-first (handle a) (summary ports row selections actions).calls
                  after.0.status))
