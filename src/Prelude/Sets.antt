-- ===== src/Prelude/Sets.antt =====
-- Lists without repetitions, by the Boolean test of membership.
use mathlib.Core.Bool.{Bool-set}
use mathlib.Core.List.{
  Mem, Nodup, Nodup-cons, Nodup-nil, mem-cons, not-mem-nil, mem-cons_self, mem-cons_of_mem, Perm,
}
use mathlib.Core.List.Perm
use mathlib.Core.Logic.Or
use mathlib.Core.Path.{◌≡◌, sym, subst, ◌∙◌}
use mathlib.Core.Logic.{inl, inr}
use mathlib.Core.Bool.{true, false}
use mathlib.Core.List.{List, [], ◌∷◌, ◌++◌}
use native.Mathlib.Omega.{arith}
use thalamus_usecase_ssa.Prelude.Tests.{Eq, ◌==◌, ==_iff, Bool-cases}
use thalamus_usecase_ssa.Prelude.Lists.{has, has-append}

module _ {A : Type 0} ⦃e : Eq A⦄ where
  -- No value stands twice.
  abbrev pub Distinct : List A → Type 0
  Distinct [] = Unit {0}
  Distinct (x ∷ xs) = (has xs x ≡ false) × Distinct xs

  pub has-of_mem : (xs : List A) (a : A) → Mem a xs → has xs a ≡ true
  has-of_mem [] a m = absurd (not-mem-nil m)
  has-of_mem (x ∷ xs) a m =
      Or.elim (Bool-set _ _) (mem-cons.0 m) (λ same. rw ((==_iff x a).1 (sym same)))
        (λ later. let h : has xs a ≡ true = has-of_mem xs a later in ground arith)

  pub mem-of_has : (xs : List A) (a : A) → has xs a ≡ true → Mem a xs
  mem-of_has [] a h = cc
  mem-of_has (x ∷ xs) a h = elim (Bool-cases (x == a)) [
    | inl same ↦ subst (λ y. Mem y (x ∷ xs)) ((==_iff x a).0 same) mem-cons_self
    | inr other ↦ mem-cons_of_mem x (mem-of_has xs a (ground arith))
  ]

  pub Distinct-Nodup : (xs : List A) → Distinct xs → Nodup xs
  Distinct-Nodup [] d = Nodup-nil
  Distinct-Nodup (x ∷ xs) d =
      Nodup-cons.1 ((λ m. let h : has xs x ≡ true = has-of_mem xs x m in cc), Distinct-Nodup xs d.1)

  pub Nodup-Distinct : (xs : List A) → Nodup xs → Distinct xs
  Nodup-Distinct [] n = tt
  Nodup-Distinct (x ∷ xs) n =
      let (fresh, rest) = Nodup-cons.0 n in
      (
        elim (Bool-cases (has xs x)) [
          | inl old ↦ absurd (fresh (mem-of_has xs x old))
          | inr new ↦ new
        ],
        Nodup-Distinct xs rest,
      )

  pub Distinct-perm : {xs ys : List A} → Perm xs ys → Distinct xs → Distinct ys
  Distinct-perm {xs} {ys} p d = Nodup-Distinct ys (Perm.nodup p (Distinct-Nodup xs d))

  pub Distinct-apart :
      (xs ys : List A) (a : A) → Distinct (xs ++ ys) → has xs a ≡ true → has ys a ≡ false
  Distinct-apart [] ys a d h = cc
  Distinct-apart (x ∷ xs) ys a d h = elim (Bool-cases (x == a)) [
    | inl same ↦
        let e : x ≡ a = (==_iff x a).0 same in
        let f : has (xs ++ ys) a ≡ false = subst (λ y. has (xs ++ ys) y ≡ false) e d.0 in
        ground (arith, has-append xs ys a)
    | inr other ↦ Distinct-apart xs ys a d.1 (ground arith)
  ]

  pub Distinct-append_right : (xs ys : List A) → Distinct (xs ++ ys) → Distinct ys
  Distinct-append_right [] ys d = d
  Distinct-append_right (x ∷ xs) ys d = Distinct-append_right xs ys d.1

  pub Distinct-append_left : (xs ys : List A) → Distinct (xs ++ ys) → Distinct xs
  Distinct-append_left [] ys d = tt
  Distinct-append_left (x ∷ xs) ys d =
      (ground (arith, has-append xs ys x, d.0), Distinct-append_left xs ys d.1)

  pub has-perm : (xs ys : List A) (a : A) → Perm xs ys → has xs a ≡ has ys a
  has-perm xs ys a p = elim (Bool-cases (has xs a)) [
    | inl here ↦ here ∙ sym (has-of_mem ys a ((Perm.mem_iff p).0 (mem-of_has xs a here)))
    | inr absent ↦ absent ∙ elim (Bool-cases (has ys a)) [
      | inr also ↦ sym also
      | inl there ↦ let h = has-of_mem xs a ((Perm.mem_iff p).1 (mem-of_has ys a there)) in cc
    ]
  ]

  -- A new value at the end.
  differs : (x a : A) → (x == a) ≡ false → (a == x) ≡ false
  differs x a h = elim (Bool-cases (a == x)) [
    | inl same ↦
        let e : x ≡ a = sym ((==_iff a x).0 same) in
        let bad : true ≡ false = sym ((==_iff x a).1 e) ∙ h in cc
    | inr other ↦ other
  ]

  pub Distinct-snoc :
      (xs : List A) (a : A) → Distinct xs → has xs a ≡ false → Distinct (xs ++ a ∷ [])
  Distinct-snoc [] a d h = ground arith
  Distinct-snoc (x ∷ xs) a d h = (
    has-append xs (a ∷ []) x ∙ ground (arith, d.0, differs x a (ground (arith, h))),
    Distinct-snoc xs a d.1 (ground (arith, h)),
  )
