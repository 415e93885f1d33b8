-- ===== src/Prelude/Pages.antt =====
-- Parts of a list by position.
use Prim.Native.Nat.{ℕ, zero, suc, ◌≤◌, ◌<◌}
use mathlib.Core.Path.{◌≡◌, refl, ap, ◌∙◌}
use mathlib.Core.Logic.{inl, inr}
use mathlib.Core.Bool.{Bool, true, false, ◌&&◌}
use mathlib.Core.List.{List, [], ◌∷◌, ◌++◌}
use native.Mathlib.Omega.{arith}
use thalamus_usecase_ssa.Prelude.Tests.{Bool-cases, ltb, leb, if◌then◌else◌}
use thalamus_usecase_ssa.Prelude.Lists.{length, take, drop, keep}

module _ {A : Type 0} where
  abbrev empty : List A
  empty = []

  drop_none : (n : ℕ) → drop n empty ≡ empty
  drop_none zero = refl
  drop_none (suc n) = refl

  take_none : (n : ℕ) → take n empty ≡ empty
  take_none zero = refl
  take_none (suc n) = refl

  pub length-take_le : (n : ℕ) (xs : List A) → length (take n xs) ≤ n
  length-take_le zero xs = omega arith
  length-take_le (suc n) [] = omega arith
  length-take_le (suc n) (x ∷ xs) = omega (arith, length-take_le n xs)

  pub take_all : (n : ℕ) (xs : List A) → length (take n xs) < n → take n xs ≡ xs
  take_all zero xs h = absurd (omega (arith, h))
  take_all (suc n) [] h = refl
  take_all (suc n) (x ∷ xs) h = ap (λ l. x ∷ l) (take_all n xs (omega (arith, h)))

  pub take-drop : (n : ℕ) (xs : List A) → take n xs ++ drop n xs ≡ xs
  take-drop zero xs = refl
  take-drop (suc n) [] = refl
  take-drop (suc n) (x ∷ xs) = ap (λ l. x ∷ l) (take-drop n xs)

  pub drop_append : (xs ys : List A) → drop (length xs) (xs ++ ys) ≡ ys
  drop_append [] ys = refl
  drop_append (x ∷ xs) ys = drop_append xs ys

  pub keep-append : (p : A → Bool) (xs ys : List A) → keep p (xs ++ ys) ≡ keep p xs ++ keep p ys
  keep-append p [] ys = refl
  keep-append p (x ∷ xs) ys = elim (Bool-cases (p x)) [
    | inl a ↦ rw a (ap (λ l. x ∷ l) (keep-append p xs ys))
    | inr a ↦ rw a (keep-append p xs ys)
  ]

  -- The page of a list, and what one value more does to it.
  abbrev pub page_of : ℕ → ℕ → List A → List A
  page_of offset limit xs = take limit (drop offset xs)

  pub page_of_none : (offset limit : ℕ) → page_of offset limit empty ≡ empty
  page_of_none offset limit = ap (take limit) (drop_none offset) ∙ take_none limit

  page_first :
      (limit : ℕ) (xs : List A) (x : A)
      → take limit (xs ++ x ∷ [])
        ≡ (if ltb (length (take limit xs)) limit then take limit xs ++ x ∷ [] else take limit xs)
  page_first zero xs x = refl
  page_first (suc n) [] x =
      let yes : ltb 0 (suc n) ≡ true = ground arith in rw yes (ap (λ l. x ∷ l) (take_none n))
  page_first (suc n) (y ∷ ys) x = elim (Bool-cases (ltb (length (take n ys)) n)) [
    | inl a ↦
        let more : ltb (suc (length (take n ys))) (suc n) ≡ true = ground (arith, a) in
        rw more (ap (λ l. y ∷ l) (page_first n ys x ∙ rw a refl))
    | inr a ↦
        let more : ltb (suc (length (take n ys))) (suc n) ≡ false = ground (arith, a) in
        rw more (ap (λ l. y ∷ l) (page_first n ys x ∙ rw a refl))
  ]

  pub page_snoc :
      (offset limit : ℕ) (xs : List A) (x : A)
      → page_of offset limit (xs ++ x ∷ []) ≡ (
          if leb offset (length xs) && ltb (length (page_of offset limit xs)) limit
          then page_of offset limit xs ++ x ∷ []
          else page_of offset limit xs)
  page_snoc zero limit xs x =
      let yes : leb 0 (length xs) ≡ true = ground arith in rw yes (page_first limit xs x)
  page_snoc (suc o) limit [] x =
      let no : leb (suc o) 0 ≡ false = ground arith in rw no (ap (take limit) (drop_none o))
  page_snoc (suc o) limit (y ∷ ys) x = elim (Bool-cases (leb o (length ys))) [
    | inl a ↦
        let yes : leb (suc o) (suc (length ys)) ≡ true = ground (arith, a) in
        rw yes (page_snoc o limit ys x ∙ rw a refl)
    | inr a ↦
        let no : leb (suc o) (suc (length ys)) ≡ false = ground (arith, a) in
        rw no (page_snoc o limit ys x ∙ rw a refl)
  ]
