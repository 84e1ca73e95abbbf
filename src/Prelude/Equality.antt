-- ===== src/Prelude/Equality.antt =====
-- Rust's `==` on types whose equality is derived, as an instance that decides it.
use Prim.Native.Nat.{ℕ}
use mathlib.Core.Path.{◌≡◌, refl, ap}
use mathlib.Core.Logic.{◌≢◌, ite, dite}
use mathlib.Core.Bool.{Bool, true, false, Bool-discrete}
use mathlib.Core.Option.{Option, none, some, none-ne-some, some-ne-none, some-injective}
use mathlib.Core.List.{List, [], ◌∷◌}
use native.Mathlib.Decide.{ℕ_discrete}
use native.Mathlib.Omega.{arith}

pub record Eq {ℓ} (A : Type ℓ) : Type ℓ where
  pub dec : Discrete A

infix 50 ◌==◌
abbrev pub ◌==◌ {ℓ} : {A : Type ℓ} ⦃e : Eq A⦄ → A → A → Bool
◌==◌ ⦃e⦄ a b = ite (e.dec a b) true false

module _ {ℓ} {A : Type ℓ} ⦃e : Eq A⦄ where
  option_dec : Discrete (Option A)
  option_dec none none = yes refl
  option_dec none (some b) = no (none-ne-some b)
  option_dec (some a) none = no (some-ne-none a)
  option_dec (some a) (some b) =
      dite (e.dec a b) (λ p. yes (ap some p)) (λ n. no (λ p. n (some-injective a b p)))

  cons_dec : (a b : A) (xs ys : List A) → Dec (xs ≡ ys) → Dec ((a ∷ xs) ≡ (b ∷ ys))
  cons_dec a b xs ys (yes q) = dite (e.dec a b) (λ p. yes (cc)) (λ n. no (λ p. n (cc)))
  cons_dec a b xs ys (no m) = no (λ p. m (cc))

  list_dec : Discrete (List A)
  list_dec [] [] = yes refl
  list_dec [] (b ∷ ys) = no (λ p. cc)
  list_dec (a ∷ xs) [] = no (λ p. cc)
  list_dec (a ∷ xs) (b ∷ ys) = cons_dec a b xs ys (list_dec xs ys)

  instance unfoldable pub option_eq : Eq (Option A)
  unfolding option_dec
  option_eq = record { dec = option_dec }

  unfoldable pub list_eq : Eq (List A)
  unfolding list_dec cons_dec
  list_eq = record { dec = list_dec }

module _ {ℓ κ} {A : Type ℓ} {B : Type κ} ⦃d : Eq A⦄ ⦃e : Eq B⦄ where
  pair_dec : Discrete (A × B)
  pair_dec (a, b) (c, f) =
      dite (d.dec a c) (λ p. dite (e.dec b f) (λ q. yes (cc)) (λ n. no (λ r. n (cc))))
        (λ n. no (λ r. n (cc)))

  instance unfoldable pub pair_eq : Eq (A × B)
  unfolding pair_dec
  pair_eq = record { dec = pair_dec }

instance unfoldable pub nat_eq : Eq ℕ
unfolding ℕ_discrete
nat_eq = record { dec = ℕ_discrete }

instance abbrev pub bool_eq : Eq Bool
bool_eq = record { dec = Bool-discrete }

pub ==_true {ℓ} : {A : Type ℓ} ⦃e : Eq A⦄ (a b : A) → (a == b) ≡ true → a ≡ b
==_true ⦃e⦄ a b h = ground arith

pub ==_refl {ℓ} : {A : Type ℓ} ⦃e : Eq A⦄ (a : A) → (a == a) ≡ true
==_refl ⦃e⦄ a = ground arith

pub ==_ne {ℓ} : {A : Type ℓ} ⦃e : Eq A⦄ (a b : A) → a ≢ b → (a == b) ≡ false
==_ne ⦃e⦄ a b h = ground arith

-- `==` on texts and on the byte strings, which are lists of numbers.
instance unfoldable pub text_eq : Eq (List ℕ)
unfolding list_eq nat_eq
text_eq = list_eq
