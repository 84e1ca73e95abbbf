-- ===== src/Prelude/Sort/Unique.antt =====
-- Sorting forgets the order: two lists sort to the same exactly when they are permutations.
use Prim.Native.Nat.{suc}
use ployz.Prelude.Lists.{length}
use mathlib.Core.Path.{◌≡◌, refl, sym, ap, ap₂, ◌∙◌, subst}
use mathlib.Core.Logic.{◌↔◌, ∥∥₁_elim}
use mathlib.Core.HLevel.{⊥_prop}
use mathlib.Core.Bool.{Bool, true, false}
use mathlib.Core.List.{List, [], ◌∷◌, Perm, Permᴰ}
use mathlib.Core.List.Perm
use native.Mathlib.Omega.{arith}
use ployz.Prelude.Equality.{Eq, ◌==◌, ==_true, ==_refl, list_eq}
use ployz.Prelude.Sort.{insert_sorted, sort_by, sort_by-perm}

module _ {ℓ} {A : Type ℓ} (le : A → A → Bool) where
  length-insert_sorted : (x : A) (xs : List A) → length (insert_sorted le x xs) ≡ suc (length xs)
  unfolding insert_sorted
  length-insert_sorted x [] = refl
  length-insert_sorted x (y ∷ ys) = ground (arith, length-insert_sorted x ys)

  pub length-sort_by : (xs : List A) → length (sort_by le xs) ≡ length xs
  unfolding sort_by
  length-sort_by [] = refl
  length-sort_by (x ∷ xs) = length-insert_sorted x (sort_by le xs) ∙ ap suc (length-sort_by xs)

module _ {ℓ} {A : Type ℓ} (le : A → A → Bool) (total : (a b : A) → le a b ≡ false → le b a ≡ true)
    (trans : (a b c : A) → le a b ≡ true → le b c ≡ true → le a c ≡ true)
    (antisym : (a b : A) → le a b ≡ true → le b a ≡ true → a ≡ b) where
  insert_swap :
      (a b : A) (xs : List A)
      → insert_sorted le a (insert_sorted le b xs) ≡ insert_sorted le b (insert_sorted le a xs)
  unfolding insert_sorted
  insert_swap a b [] = ground (arith, total a b, antisym a b)
  insert_swap a b (x ∷ xs) =
      ground (arith, total a b, antisym a b, trans a b x, trans b a x, insert_swap a b xs)

  sort_by_eqv : {xs ys : List A} → Permᴰ xs ys → sort_by le xs ≡ sort_by le ys
  unfolding sort_by
  sort_by_eqv Permᴰ.nil = refl
  sort_by_eqv (Permᴰ.cons e p) = ap₂ (insert_sorted le) e (sort_by_eqv p)
  sort_by_eqv (Permᴰ.swap {a} {b} {a'} {b'} {l} p q) =
      insert_swap a b (sort_by le l)
      ∙ ap₂ (λ x y. insert_sorted le x (insert_sorted le y (sort_by le l))) q p
  sort_by_eqv (Permᴰ.trans p q) = sort_by_eqv p ∙ sort_by_eqv q

  module _ ⦃e : Eq A⦄ where
    sort_by-Perm : {xs ys : List A} → Perm xs ys → sort_by le xs ≡ sort_by le ys
    sort_by-Perm {xs} {ys} p = elim ((list_eq ⦃e = e⦄).dec (sort_by le xs) (sort_by le ys)) [
      | yes same ↦ same
      | no other ↦ absurd (∥∥₁_elim p ⊥_prop (λ d. other (sort_by_eqv d)))
    ]

    Perm_of_sort_by : (xs ys : List A) → sort_by le xs ≡ sort_by le ys → Perm xs ys
    Perm_of_sort_by xs ys same =
        Perm.trans (Perm.symm (sort_by-perm le xs))
          (subst (λ zs. Perm zs ys) (sym same) (sort_by-perm le ys))

    pub sort_by-eq_iff :
        (xs ys : List A)
        → (◌==◌ ⦃e = list_eq ⦃e = e⦄⦄ (sort_by le xs) (sort_by le ys) ≡ true) ↔ Perm xs ys
    sort_by-eq_iff xs ys = (
      λ h. Perm_of_sort_by xs ys (==_true ⦃e = list_eq ⦃e = e⦄⦄ _ _ h),
      λ p. rw (sort_by-Perm p) (==_refl ⦃e = list_eq ⦃e = e⦄⦄ (sort_by le ys)),
    )
