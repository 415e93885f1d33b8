-- ===== src/Resolution/Outcome.antt =====
-- What the result says of the actions, and what is written back of it.
use thalamus_usecase_ssa.Prelude.{
  ℕ, ◌<◌, String, ◌≡◌, ◌≢◌, ◌↔◌, refl, ◌∙◌, ap, sym, subst, Bool, true, false, Option, none, some,
  List, [], ◌∷◌, ◌++◌, arith, count_of, count_of-append, All, append_assoc, ◌==◌, string_Eq,
}
use thalamus_usecase_ssa.Resolution.{
  Row, Status, pending, success, partial, failed, pending_selection, ResolutionResult, Action, Call,
  update, promote, parsed, Ports, Totals, no_totals, settle, written, resolve_loaded,
  resolve_payload, dispatch,
}
use thalamus_usecase_ssa.Resolution.Dispatch.{summary, summary-handles, dispatch-summary, is_handle}

abbrev pub is_promote : Call → Bool
is_promote promote = true
is_promote _ = false

-- How often a result of this status was promoted.
abbrev pub promotions : Status → ℕ
promotions success = 1
promotions partial = 1
promotions _ = 0

abbrev pub calls_before : List Call → Status → List Call
calls_before calls success = calls ++ promote ∷ []
calls_before calls partial = calls ++ promote ∷ []
calls_before calls _ = calls

module _ (ports : Ports) (row : Row) (selections : Option String) where
  -- A result on the totals of the actions, with the calls that were made.
  pub record IsSettled (t : Totals) (r : ResolutionResult) (calls : List Call) : Type 0 where
    pub decided : r.status ≢ pending
    pub asked : (r.status ≡ pending_selection) ↔ (t.pending ≢ []) × (selections ≡ none)
    pub succeeded : r.status ≡ success → t.errors ≡ []
    pub partly : r.status ≡ partial → (t.errors ≢ []) × (0 < t.affected)
    pub failing : r.status ≡ failed → (t.errors ≢ []) × (t.affected ≡ 0)
    pub rows : r.status ≢ pending_selection → r.affected_rows ≡ t.affected
    pub promoted : count_of is_promote calls ≡ promotions r.status
    pub stored :
        calls ≡ calls_before t.calls r.status ++ update (written ports row selections r) ∷ []

  settle-IsSettled :
      (t : Totals)
      → count_of is_promote t.calls ≡ 0
      → IsSettled t (settle ports row selections t).0 (settle ports row selections t).1
  unfolding settle
  settle-IsSettled t quiet = record {
    decided = ground arith;
    asked = (ground arith, ground arith);
    succeeded = ground arith;
    partly = ground arith;
    failing = ground arith;
    rows = ground arith;
    promoted = grind (arith, count_of-append);
    stored = ground (
      arith,
      append_assoc t.calls (promote ∷ [])
          (update (written ports row selections (settle ports row selections t).0) ∷ []),
    );
  }

  no_promote :
      (calls : List Call) → All (λ c. is_handle c ≡ true) calls → count_of is_promote calls ≡ 0
  no_promote [] h = refl
  no_promote (c ∷ cs) h = ground (arith, no_promote cs)

  resolve_payload_parsed :
      (text : String) (actions : List Action)
      → (text == "") ≡ false
      → ports.parse_payload text ≡ parsed actions
      → resolve_payload ports row selections (some text)
        ≡ settle ports row selections (dispatch ports row selections actions no_totals)
  unfolding resolve_payload
  resolve_payload_parsed text actions filled p = rw (filled, p)

  -- The payload holds these actions.
  pub record HasActions (actions : List Action) : Type 0 where
    pub text : String
    pub stored_text : row.resolution_payload ≡ some text
    pub filled : (text == "") ≡ false
    pub parses : ports.parse_payload text ≡ parsed actions

  pub resolve_loaded-settle :
      (actions : List Action)
      → HasActions actions
      → resolve_loaded ports row selections
        ≡ settle ports row selections (summary ports row selections actions)
  unfolding resolve_loaded
  resolve_loaded-settle actions h =
      ap (resolve_payload ports row selections) h.stored_text
      ∙ resolve_payload_parsed h.text actions h.filled h.parses
      ∙ ap (settle ports row selections) (dispatch-summary ports row selections actions)

  -- Resolving a suggestion whose payload holds actions, after every action was tried: the result
  -- asks for selections exactly if an action left some open and none were given; otherwise it is a
  -- success only without errors, and with errors it is partial if rows were changed and failed if
  -- none were. It counts the rows of all actions, it is promoted once if it is a success or
  -- partial and never otherwise, and the last call writes the result back.
  pub resolve_loaded-IsSettled :
      (actions : List Action)
      → HasActions actions
      → IsSettled
          (summary ports row selections actions)
          (resolve_loaded ports row selections).0
          (resolve_loaded ports row selections).1
  resolve_loaded-IsSettled actions h =
      let t = summary ports row selections actions in
      subst (λ p. IsSettled t p.0 p.1) (sym (resolve_loaded-settle actions h))
        (settle-IsSettled t (no_promote t.calls (summary-handles ports row selections actions)))
