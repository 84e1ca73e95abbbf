-- ===== src/Runtime/Diff/Environment.antt =====
-- When two environments agree.
use ployz.Prelude.{
  ◌≡◌, ◌≢◌, refl, sym, ap, ◌∙◌, subst, Bool, true, false, List, [], ◌∷◌, ◌++◌, ◌==◌, ==_true, ==_ne,
  ==_refl, text_eq, any, keep, All, All-keep, arith, Bool-cases, not, inl, inr, ◌⊎◌, if◌then◌else◌,
}
use mathlib.Core.Logic.{∥∥₁_map}
use mathlib.Core.List.{Perm, Permᴰ, perm_middle}
use mathlib.Core.List.Perm
use mathlib.Core.List.Permᴰ
use ployz.Prelude.Text.{Text, codes}
use ployz.Runtime.Diff.{names_path, compared_env}

abbrev Variables : Type 0
Variables = List (Text × Text)

-- The environments agree when the one has the variables of the other in some order, and beside them
-- only values for PATH, and those only when the other has none.
abbrev pub EnvAgrees : Variables → Variables → Type 0
EnvAgrees observed desired =
    (paths : Variables) × All (λ (e : Text × Text). e.0 ≡ codes "PATH") paths
    × ((paths ≡ []) ⊎ All (λ (e : Text × Text). e.0 ≢ codes "PATH") desired)
    × Perm observed (paths ++ desired)

pub EnvAgrees-refl : (xs : Variables) → EnvAgrees xs xs
EnvAgrees-refl xs = ([], tt, inl refl, Perm.refl xs)

keep_one {ℓ} :
    {A : Type ℓ} (b : Bool) (x : A) {xs ys : List A}
    → Permᴰ xs ys
    → Permᴰ (if b then x ∷ xs else xs) (if b then x ∷ ys else ys)
keep_one true x p = Permᴰ.cons refl p
keep_one false x p = p

keep_two {ℓ} :
    {A : Type ℓ} (u v : Bool) (x y : A) (xs : List A)
    → Permᴰ
        (if u then x ∷ (if v then y ∷ xs else xs) else (if v then y ∷ xs else xs))
        (if v then y ∷ (if u then x ∷ xs else xs) else (if u then x ∷ xs else xs))
keep_two true true x y xs = Permᴰ.swap refl refl
keep_two true false x y xs = Permᴰ.refl (x ∷ xs)
keep_two false true x y xs = Permᴰ.refl (y ∷ xs)
keep_two false false x y xs = Permᴰ.refl xs

keep_eqv {ℓ} :
    {A : Type ℓ} (q : A → Bool) {xs ys : List A} → Permᴰ xs ys → Permᴰ (keep q xs) (keep q ys)
keep_eqv q Permᴰ.nil = Permᴰ.nil
keep_eqv q (Permᴰ.cons {a} {b} {l₁} {l₂} e p) =
    subst (λ c. Permᴰ (keep q (a ∷ l₁)) (keep q (c ∷ l₂))) e (keep_one (q a) a (keep_eqv q p))
keep_eqv q (Permᴰ.swap {a} {b} {a'} {b'} {l} e f) =
    subst (λ c. Permᴰ (keep q (a ∷ b ∷ l)) (keep q (c ∷ b' ∷ l))) f
      (subst (λ c. Permᴰ (keep q (a ∷ b ∷ l)) (keep q (b ∷ c ∷ l))) e
        (keep_two (q a) (q b) a b (keep q l)))
keep_eqv q (Permᴰ.trans p r) = Permᴰ.trans (keep_eqv q p) (keep_eqv q r)

keep-Perm {ℓ} :
    {A : Type ℓ} (q : A → Bool) {xs ys : List A} → Perm xs ys → Perm (keep q xs) (keep q ys)
keep-Perm q = λ p. ∥∥₁_map p (keep_eqv q)

-- A list is what a test keeps and what it drops.
split-Perm {ℓ} :
    {A : Type ℓ} (q : A → Bool) (xs : List A) → Perm xs (keep q xs ++ keep (λ x. not (q x)) xs)
split-Perm q [] = Perm.refl []
split-Perm q (x ∷ xs) = elim (Bool-cases (q x)) [
  | inl kept ↦ rw kept (Perm.cons x (split-Perm q xs))
  | inr dropped ↦ rw dropped (
      Perm.trans (Perm.cons x (split-Perm q xs))
        (Perm.symm (perm_middle (keep q xs) (keep (λ x. not (q x)) xs))))
]

abbrev is_other : Text × Text → Bool
is_other e = not (names_path e)

keep_all {ℓ} : {A : Type ℓ} (xs : List A) → keep (λ _. true) xs ≡ xs
keep_all [] = refl
keep_all (x ∷ xs) = ap (λ ys. x ∷ ys) (keep_all xs)

keep_without : (xs : Variables) → any names_path xs ≡ false → keep is_other xs ≡ xs
keep_without [] h = refl
keep_without (x ∷ xs) h = ground (arith, keep_without xs)

drop_paths :
    (paths xs : Variables)
    → All (λ (e : Text × Text). e.0 ≡ codes "PATH") paths
    → keep is_other (paths ++ xs) ≡ keep is_other xs
drop_paths [] xs a = refl
drop_paths (e ∷ paths) xs a = rw (a.0, ==_refl (codes "PATH")) (drop_paths paths xs a.1)

other_name : (e : Text × Text) → names_path e ≡ false → e.0 ≢ codes "PATH"
other_name e h same =
    let named : (e.0 == codes "PATH") ≡ true = rw same (==_refl (codes "PATH")) in
    let wrong = sym named ∙ h in cc wrong

without_paths :
    (xs : Variables) → any names_path xs ≡ false → All (λ (e : Text × Text). e.0 ≢ codes "PATH") xs
without_paths [] h = tt
without_paths (x ∷ xs) h = (other_name x (ground arith), without_paths xs (ground arith))

no_path :
    (xs : Variables) → All (λ (e : Text × Text). e.0 ≢ codes "PATH") xs → any names_path xs ≡ false
no_path [] a = refl
no_path (x ∷ xs) a = ground (arith, ==_ne x.0 (codes "PATH") a.0, no_path xs a.1)

compared_env-has : (o d : Variables) → any names_path d ≡ true → compared_env o d ≡ o
compared_env-has o d has = simp has (keep_all o)

compared_env-lacks :
    (o d : Variables) → any names_path d ≡ false → compared_env o d ≡ keep is_other o
compared_env-lacks o d lacks = simp lacks refl

pub compared_env-EnvAgrees : (o d : Variables) → Perm (compared_env o d) d → EnvAgrees o d
compared_env-EnvAgrees o d p = elim (Bool-cases (any names_path d)) [
  | inl has ↦ ([], tt, inl refl, subst (λ xs. Perm xs d) (compared_env-has o d has) p)
  | inr lacks ↦ (
    keep names_path o,
    All-keep (λ (e : Text × Text). e.0 ≡ codes "PATH") names_path o
        (λ e h. ==_true e.0 (codes "PATH") h),
    inr (without_paths d lacks),
    Perm.trans (split-Perm names_path o) (
        Perm.append_left (keep names_path o)
          (subst (λ xs. Perm xs d) (compared_env-lacks o d lacks) p)),
  )
]

pub EnvAgrees-compared_env : (o d : Variables) → EnvAgrees o d → Perm (compared_env o d) d
EnvAgrees-compared_env o d (paths, are, only, p) = elim (Bool-cases (any names_path d)) [
  | inl has ↦
      subst (λ xs. Perm xs d) (sym (compared_env-has o d has))
        (elim only [
          | inl e ↦ subst (λ ps. Perm o (ps ++ d)) e p
          | inr other ↦ absurd (ground (arith, has, no_path d other))
        ])
  | inr lacks ↦
      subst (λ xs. Perm xs d) (sym (compared_env-lacks o d lacks))
        (subst (λ ys. Perm (keep is_other o) ys) (drop_paths paths d are ∙ keep_without d lacks)
          (keep-Perm is_other p))
]
