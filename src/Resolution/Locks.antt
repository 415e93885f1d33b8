-- ===== src/Resolution/Locks.antt =====
-- When actions run, and when the lock is held.
use thalamus_usecase_ssa.Prelude.{
  ℕ, String, ◌≡◌, refl, ◌∙◌, sym, Bool, true, false, Option, none, some, List, [], ◌∷◌, arith,
  count_of, some_of, All, All-append, Option-cases, inl, inr, string_Eq,
}
use thalamus_usecase_ssa.Resolution.{
  Row, Action, Call, claim, release, promote, handle, update, Ports, Totals, settle, is_accepted,
  is_terminal, is_blank, resolve_payload, resolve_loaded, resolve_claimed, dispatch, no_totals,
  preflight, Locking, no_lock, contended, claimed, with_release, resolve,
}
use thalamus_usecase_ssa.Resolution.Dispatch.{summary, summary-handles, dispatch-summary, is_handle}

-- A call that changes something: a handler, the promotion, or the update of the row.
abbrev pub is_work : Call → Bool
is_work promote = true
is_work (handle a) = true
is_work (update u) = true
is_work _ = false

abbrev pub is_claim : Call → Bool
is_claim claim = true
is_claim _ = false

abbrev pub is_release : Call → Bool
is_release release = true
is_release _ = false

abbrev pub if_claimed : Locking → ℕ → ℕ
if_claimed (claimed refreshed) n = n
if_claimed _ n = 0

-- The row that a resolver acts on: the one read again under the lock, where there is a lock.
abbrev pub Target : Option Row → Locking → Row → Type 0
Target found no_lock row = found ≡ some row
Target found contended row = ⊥
Target found (claimed refreshed) row = refreshed ≡ some row

-- The row may be acted on.
pub record IsOpen (row : Row) : Type 0 where
  pub accepted : is_accepted row.accepted ≡ true
  pub unresolved : is_terminal row.resolution_status ≡ false
  pub has_payload : is_blank row.resolution_payload ≡ false

module _ (ports : Ports) where
  module _ (row : Row) (selections : Option String) where
    settle-work :
        (t : Totals)
        → All (λ c. is_work c ≡ true) t.calls
        → All (λ c. is_work c ≡ true) (settle ports row selections t).1
    unfolding settle
    settle-work t h = grind (arith, All-append)

    handles-work :
        (calls : List Call)
        → All (λ c. is_handle c ≡ true) calls
        → All (λ c. is_work c ≡ true) calls
    handles-work [] h = tt
    handles-work (c ∷ cs) h = (ground arith, handles-work cs h.1)

    settle-dispatch-work :
        (actions : List Action)
        → All
            (λ c. is_work c ≡ true)
            (settle ports row selections (dispatch ports row selections actions no_totals)).1
    settle-dispatch-work actions = rw (dispatch-summary ports row selections actions) (
        settle-work (summary ports row selections actions)
          (handles-work _ (summary-handles ports row selections actions)))

    resolve_payload-work :
        (payload : Option String)
        → All (λ c. is_work c ≡ true) (resolve_payload ports row selections payload).1
    unfolding resolve_payload
    resolve_payload-work none = tt
    resolve_payload-work (some text) = grind (arith, settle-dispatch-work)

    pub resolve_loaded-work : All (λ c. is_work c ≡ true) (resolve_loaded ports row selections).1
    unfolding resolve_loaded
    resolve_loaded-work = resolve_payload-work row.resolution_payload

  work-releases :
      (calls : List Call) → All (λ c. is_work c ≡ true) calls → count_of is_release calls ≡ 0
  work-releases [] h = refl
  work-releases (c ∷ cs) h = ground (arith, work-releases cs)

  work-claims :
      (calls : List Call) → All (λ c. is_work c ≡ true) calls → count_of is_claim calls ≡ 0
  work-claims [] h = refl
  work-claims (c ∷ cs) h = ground (arith, work-claims cs)

  resolve_claimed-work :
      (refreshed : Option Row) (selections : Option String)
      → All (λ c. is_work c ≡ true) (resolve_claimed ports refreshed selections).1
  unfolding resolve_claimed
  resolve_claimed-work none selections = tt
  resolve_claimed-work (some row) selections = ground (arith, resolve_loaded-work row selections)

  with_release-counts :
      (calls : List Call)
      → All (λ c. is_work c ≡ true) calls
      → (count_of is_release (with_release calls) ≡ 1)
        × (count_of is_claim (with_release calls) ≡ 0)
  with_release-counts [] h = (refl, refl)
  with_release-counts (c ∷ cs) h = ground (arith, work-releases cs h.1, work-claims cs h.1)

  -- A lock that was claimed is released once, on every path, and a lock that another resolver
  -- holds, or that the store does not have, is never released.
  pub resolve-releases :
      (found : Option Row) (locking : Locking) (selections : Option String)
      → count_of is_release (resolve ports found locking selections).1
        ≡ if_claimed locking (count_of is_claim (resolve ports found locking selections).1)
  unfolding resolve
  resolve-releases none no_lock selections = refl
  resolve-releases none contended selections = refl
  resolve-releases none (claimed refreshed) selections = refl
  resolve-releases (some row) no_lock selections =
      ground (arith, work-releases _ (resolve_loaded-work row selections))
  resolve-releases (some row) contended selections = ground arith
  resolve-releases (some row) (claimed refreshed) selections = ground (
    arith,
    with_release-counts (resolve_claimed ports refreshed selections).1
        (resolve_claimed-work refreshed selections),
  )

  preflight-IsOpen : (row : Row) → preflight ports row ≡ none → IsOpen row
  unfolding preflight
  preflight-IsOpen row h = record {
    accepted = ground arith;
    unresolved = ground arith;
    has_payload = ground arith;
  }

  resolve_claimed-IsOpen :
      (refreshed : Option Row) (selections : Option String)
      → some_of is_work (resolve_claimed ports refreshed selections).1 ≡ true
      → (row : Row) × (refreshed ≡ some row) × IsOpen row
  unfolding resolve_claimed
  resolve_claimed-IsOpen none selections h = cc
  resolve_claimed-IsOpen (some row) selections h = elim (Option-cases (preflight ports row)) [
    | inl passes ↦ (row, refl, preflight-IsOpen row passes)
    | inr (early, e) ↦ let bad : false ≡ true = rw (e, resolve_claimed) at h in cc
  ]

  some_of-with_release :
      (calls : List Call) → some_of is_work (with_release calls) ≡ some_of is_work calls
  some_of-with_release [] = refl
  some_of-with_release (c ∷ cs) = refl

  after_preflight :
      (row : Row) (locking : Locking) (selections : Option String)
      → preflight ports row ≡ none
      → some_of is_work (resolve ports (some row) locking selections).1 ≡ true
      → (r : Row) × Target (some row) locking r × IsOpen r
  unfolding resolve
  after_preflight row no_lock selections passes h = (row, refl, preflight-IsOpen row passes)
  after_preflight row contended selections passes h =
      let bad : false ≡ true = rw (passes, resolve) at h in cc
  after_preflight row (claimed refreshed) selections passes h =
      resolve_claimed-IsOpen refreshed selections (
        sym (some_of-with_release (resolve_claimed ports refreshed selections).1)
        ∙ rw (passes, resolve) at h)

  -- A handler, the promotion or the update of the row is called only for a row that, as it was
  -- last read, is accepted, is not yet resolved and has a payload: the row read again under the
  -- lock where there is one. A resolver that does not get the lock calls none of them.
  pub resolve-IsOpen :
      (found : Option Row) (locking : Locking) (selections : Option String)
      → some_of is_work (resolve ports found locking selections).1 ≡ true
      → (row : Row) × Target found locking row × IsOpen row
  unfolding resolve
  resolve-IsOpen none locking selections h = cc
  resolve-IsOpen (some row) locking selections h = elim (Option-cases (preflight ports row)) [
    | inr (early, e) ↦ let bad : false ≡ true = rw (e, resolve) at h in cc
    | inl passes ↦ after_preflight row locking selections passes h
  ]
