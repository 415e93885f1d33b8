-- ===== src/Prelude/Lists.antt =====
-- Lists measured by native numbers, and membership as a Boolean test.
use Prim.Native.Nat.{ℕ, zero, suc, ◌+◌, ◌≤◌}
use mathlib.Core.Path.{◌≡◌, refl, subst}
use mathlib.Core.Logic.{inl, inr}
use mathlib.Core.Bool.{Bool, true, false, ◌&&◌, ◌||◌}
use mathlib.Core.List.{List, [], ◌∷◌, ◌++◌, map}
use mathlib.Core.Option.{Option, none, some}
use native.Mathlib.Omega.{arith}
use thalamus_usecase_ssa.Prelude.Tests.{Eq, ◌==◌, ==_iff, ==_refl, Bool-cases, if◌then◌else◌}

module _ {ℓ} {A : Type ℓ} where
  abbrev pub length : List A → ℕ
  length [] = 0
  length (x ∷ xs) = suc (length xs)

  abbrev pub get_elem? : List A → ℕ → Option A
  get_elem? [] i = none
  get_elem? (x ∷ xs) zero = some x
  get_elem? (x ∷ xs) (suc i) = get_elem? xs i

  abbrev pub take : ℕ → List A → List A
  take zero xs = []
  take (suc n) [] = []
  take (suc n) (x ∷ xs) = x ∷ take n xs

  abbrev pub drop : ℕ → List A → List A
  drop zero xs = xs
  drop (suc n) [] = []
  drop (suc n) (x ∷ xs) = drop n xs

  -- `filter` and `every` of an array, by a Boolean test.
  abbrev pub keep : (A → Bool) → List A → List A
  keep p [] = []
  keep p (x ∷ xs) = if p x then x ∷ keep p xs else keep p xs

  abbrev pub every : (A → Bool) → List A → Bool
  every p [] = true
  every p (x ∷ xs) = p x && every p xs

  abbrev pub some_of : (A → Bool) → List A → Bool
  some_of p [] = false
  some_of p (x ∷ xs) = p x || some_of p xs

  abbrev pub All {κ} : (A → Type κ) → List A → Type κ
  All P [] = Unit
  All P (x ∷ xs) = P x × All P xs

  pub length-append : (xs ys : List A) → length (xs ++ ys) ≡ length xs + length ys
  length-append [] ys = omega arith
  length-append (x ∷ xs) ys = omega (arith, length-append xs ys)

  pub length-keep-le : (p : A → Bool) (xs : List A) → length (keep p xs) ≤ length xs
  length-keep-le p [] = omega arith
  length-keep-le p (x ∷ xs) = ground (arith, length-keep-le p xs)

module _ {ℓ κ} {A : Type ℓ} (P : A → Type κ) where
  pub All-append : (xs ys : List A) → All P xs → All P ys → All P (xs ++ ys)
  All-append [] ys hx hy = hy
  All-append (x ∷ xs) ys hx hy = (hx.0, All-append xs ys hx.1 hy)

  pub All-append_left : (xs ys : List A) → All P (xs ++ ys) → All P xs
  All-append_left [] ys h = tt
  All-append_left (x ∷ xs) ys h = (h.0, All-append_left xs ys h.1)

  pub All-append_right : (xs ys : List A) → All P (xs ++ ys) → All P ys
  All-append_right [] ys h = h
  All-append_right (x ∷ xs) ys h = All-append_right xs ys h.1

pub All-zip {ℓ κ} :
    {A : Type ℓ} (P Q R : A → Type κ) (xs : List A)
    → ((x : A) → P x → Q x → R x)
    → All P xs
    → All Q xs
    → All R xs
All-zip P Q R [] f hp hq = tt
All-zip P Q R (x ∷ xs) f hp hq = (f x hp.0 hq.0, All-zip P Q R xs f hp.1 hq.1)

pub All-map {ℓ κ} :
    {A : Type ℓ} (P Q : A → Type κ) (xs : List A) → ((x : A) → P x → Q x) → All P xs → All Q xs
All-map P Q [] f h = tt
All-map P Q (x ∷ xs) f h = (f x h.0, All-map P Q xs f h.1)

-- A set of values, as the list of its elements.
module _ {ℓ} {A : Type ℓ} ⦃e : Eq A⦄ where
  abbrev pub has : List A → A → Bool
  has [] a = false
  has (x ∷ xs) a = x == a || has xs a

  pub has-append : (xs ys : List A) (a : A) → has (xs ++ ys) a ≡ (has xs a || has ys a)
  has-append [] ys a = refl
  has-append (x ∷ xs) ys a = ground (arith, has-append xs ys a)

  pub All-has : (P : A → Type 0) (xs : List A) (a : A) → All P xs → has xs a ≡ true → P a
  All-has P [] a h m = cc
  All-has P (x ∷ xs) a h m = elim (Bool-cases (x == a)) [
    | inl same ↦ subst P ((==_iff x a).0 same) h.0
    | inr other ↦ All-has P xs a h.1 (ground arith)
  ]

  pub All-of_has : (P : A → Type 0) (xs : List A) → ((a : A) → has xs a ≡ true → P a) → All P xs
  All-of_has P [] f = tt
  All-of_has P (x ∷ xs) f =
      (f x (ground (arith, ==_refl x)), All-of_has P xs (λ a h. f a (ground (arith, h))))

  pub every-has :
      (p : A → Bool) (xs : List A) → ((a : A) → has xs a ≡ true → p a ≡ true) → every p xs ≡ true
  every-has p [] h = refl
  every-has p (x ∷ xs) h = rw (h x (rw (==_refl x))) (every-has p xs (λ a m. h a (ground arith)))

  pub has-every :
      (p : A → Bool) (xs : List A) (a : A) → every p xs ≡ true → has xs a ≡ true → p a ≡ true
  has-every p [] a h m = cc
  has-every p (x ∷ xs) a h m = elim (Bool-cases (x == a)) [
    | inl same ↦ subst (λ b. p b ≡ true) ((==_iff x a).0 same) (ground arith)
    | inr other ↦ has-every p xs a (ground arith) (ground arith)
  ]

module _ {ℓ} {A : Type ℓ} where
  abbrev pub count_of : (A → Bool) → List A → ℕ
  count_of p [] = 0
  count_of p (x ∷ xs) = if p x then suc (count_of p xs) else count_of p xs

  pub count_of-append :
      (p : A → Bool) (xs ys : List A) → count_of p (xs ++ ys) ≡ count_of p xs + count_of p ys
  count_of-append p [] ys = omega arith
  count_of-append p (x ∷ xs) ys = ground (arith, count_of-append p xs ys)

pub length-map : {A B : Type 0} (f : A → B) (xs : List A) → length (map f xs) ≡ length xs
length-map f [] = refl
length-map f (x ∷ xs) = omega (arith, length-map f xs)
