-- ===== src/Prelude/Sorts.antt =====
-- The stable sort of an array by a comparison, and what holds of its result.
use Prim.Native.Nat.{ℕ, ◌≤◌}
use mathlib.Core.Path.{◌≡◌}
use mathlib.Core.Logic.{inl, inr}
use mathlib.Core.Bool.{Bool, true, false}
use mathlib.Core.List.{List, [], ◌∷◌, Perm}
use mathlib.Core.List.Perm
use native.Mathlib.Omega.{arith}
use thalamus_usecase_ssa.Prelude.Tests.{Bool-cases, if◌then◌else◌}
use thalamus_usecase_ssa.Prelude.Lists.{keep, All}

module _ {A : Type 0} (le : A → A → Bool) where
  -- Before the first value that it is not after, so that equal values stay in order.
  pub place : A → List A → List A
  place v [] = v ∷ []
  place v (w ∷ ws) = if le v w then v ∷ w ∷ ws else w ∷ place v ws

  unfoldable pub sort_by : List A → List A
  unfolding place
  sort_by [] = []
  sort_by (v ∷ vs) = place v (sort_by vs)

  keep-first :
      (p : A → Bool) (v : A) (vs ws : List A)
      → Perm (keep p vs) (keep p ws)
      → Perm (keep p (v ∷ vs)) (keep p (v ∷ ws))
  keep-first p v vs ws h = elim (Bool-cases (p v)) [ inl a ↦ rw a (Perm.cons v h) | inr a ↦ rw a h ]

  keep_swap :
      (p : A → Bool) (v w : A) (ws : List A) → Perm (keep p (w ∷ v ∷ ws)) (keep p (v ∷ w ∷ ws))
  keep_swap p v w ws = elim (Bool-cases (p v)) [
    | inl a ↦ elim (Bool-cases (p w)) [
      | inl b ↦ rw (a, b) (Perm.swap v w (keep p ws))
      | inr b ↦ rw (a, b) (Perm.refl (v ∷ keep p ws))
    ]
    | inr a ↦ rw a (Perm.refl (keep p (w ∷ ws)))
  ]

  keep-place : (p : A → Bool) (v : A) (ws : List A) → Perm (keep p (place v ws)) (keep p (v ∷ ws))
  unfolding place
  keep-place p v [] = Perm.refl (keep p (v ∷ []))
  keep-place p v (w ∷ ws) = elim (Bool-cases (le v w)) [
    | inl a ↦ rw a (Perm.refl (keep p (v ∷ w ∷ ws)))
    | inr a ↦
        rw a (
          Perm.trans (keep-first p w (place v ws) (v ∷ ws) (keep-place p v ws))
            (keep_swap p v w ws))
  ]

  -- The values that pass a test are the same before and after the sort.
  pub keep-sort_by : (p : A → Bool) (vs : List A) → Perm (keep p (sort_by vs)) (keep p vs)
  unfolding sort_by
  keep-sort_by p [] = Perm.refl []
  keep-sort_by p (v ∷ vs) =
      Perm.trans (keep-place p v (sort_by vs)) (keep-first p v (sort_by vs) vs (keep-sort_by p vs))

module _ {A : Type 0} (rank : A → ℕ) where
  -- Each value ranks no higher than those behind it.
  abbrev pub IsAscending : List A → Type 0
  IsAscending [] = Unit
  IsAscending (v ∷ vs) = All (λ w. rank v ≤ rank w) vs × IsAscending vs

  above :
      (v w : A) (ws : List A)
      → rank v ≤ rank w
      → All (λ x. rank w ≤ rank x) ws
      → All (λ x. rank v ≤ rank x) ws
  above v w [] h a = tt
  above v w (x ∷ ws) h a = (omega (arith, a.0), above v w ws h a.1)

  keep-above :
      (p : A → Bool) (v : A) (ws : List A)
      → All (λ x. rank v ≤ rank x) ws
      → All (λ x. rank v ≤ rank x) (keep p ws)
  keep-above p v [] a = tt
  keep-above p v (w ∷ ws) a = elim (Bool-cases (p w)) [
    | inl b ↦ rw b (a.0, keep-above p v ws a.1)
    | inr b ↦ rw b (keep-above p v ws a.1)
  ]

  pub keep-IsAscending : (p : A → Bool) (vs : List A) → IsAscending vs → IsAscending (keep p vs)
  keep-IsAscending p [] a = tt
  keep-IsAscending p (v ∷ vs) a = elim (Bool-cases (p v)) [
    | inl b ↦ rw b (keep-above p v vs a.0, keep-IsAscending p vs a.1)
    | inr b ↦ rw b (keep-IsAscending p vs a.1)
  ]

  module _ (le : A → A → Bool) (up : (v w : A) → le v w ≡ true → rank v ≤ rank w)
      (down : (v w : A) → le v w ≡ false → rank w ≤ rank v) where
    place-above :
        (u v : A) (ws : List A)
        → rank u ≤ rank v
        → All (λ x. rank u ≤ rank x) ws
        → All (λ x. rank u ≤ rank x) (place le v ws)
    unfolding place
    place-above u v [] h a = (h, tt)
    place-above u v (w ∷ ws) h a = elim (Bool-cases (le v w)) [
      | inl b ↦ rw b (h, a)
      | inr b ↦ rw b (a.0, place-above u v ws h a.1)
    ]

    place-IsAscending : (v : A) (ws : List A) → IsAscending ws → IsAscending (place le v ws)
    unfolding place
    place-IsAscending v [] a = (tt, tt)
    place-IsAscending v (w ∷ ws) a = elim (Bool-cases (le v w)) [
      | inl b ↦ rw b ((up v w b, above v w ws (up v w b) a.0), a)
      | inr b ↦ rw b (place-above w v ws (down v w b) a.0, place-IsAscending v ws a.1)
    ]

    pub sort_by-IsAscending : (vs : List A) → IsAscending (sort_by le vs)
    unfolding sort_by
    sort_by-IsAscending [] = tt
    sort_by-IsAscending (v ∷ vs) = place-IsAscending v (sort_by le vs) (sort_by-IsAscending vs)
