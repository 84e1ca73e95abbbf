-- ===== src/Prelude/Compare.antt =====
-- `Ordering`, `cmp` and `then_with`: comparators that are total preorders, by lexicographic steps.
use Prim.Native.Nat.{ℕ, compare, Ordering}
use mathlib.Core.Path.{◌≡◌, refl}
use mathlib.Core.Bool.{Bool, true, false}
use mathlib.Core.Option.{Option, none, some}
use mathlib.Core.List.{[], ◌∷◌}
use native.Mathlib.Omega.{arith}
use ployz.Prelude.Text.{Text}

abbrev pub flip : Ordering → Ordering
flip Ordering.lt = Ordering.gt
flip Ordering.eq = Ordering.eq
flip Ordering.gt = Ordering.lt

-- `a.then_with(|| b)`, and a `match` that returns unless the first comparison is `Equal`.
abbrev pub then_with : Ordering → Ordering → Ordering
then_with Ordering.eq b = b
then_with Ordering.lt b = Ordering.lt
then_with Ordering.gt b = Ordering.gt

-- `a <= b`
abbrev pub is_le : Ordering → Bool
is_le Ordering.gt = false
is_le _ = true

-- The order of texts, as a comparison.
unfoldable pub compare_text : Text → Text → Ordering
compare_text [] [] = Ordering.eq
compare_text [] (y ∷ ys) = Ordering.lt
compare_text (x ∷ xs) [] = Ordering.gt
compare_text (x ∷ xs) (y ∷ ys) = let rest = compare_text xs ys in then_with (compare x y) rest

pub record IsOrder {ℓ} {A : Type ℓ} (cmp : A → A → Ordering) : Type ℓ where
  pub swap : (a b : A) → cmp b a ≡ flip (cmp a b)
  pub trans : (a b c : A) → is_le (cmp a b) ≡ true → is_le (cmp b c) ≡ true → is_le (cmp a c) ≡ true

module _ {ℓ} {A : Type ℓ} {cmp : A → A → Ordering} (o : IsOrder cmp) where
  pub is_le_total : (a b : A) → is_le (cmp a b) ≡ false → is_le (cmp b a) ≡ true
  is_le_total a b h = ground (arith, o.swap a b)

  -- Strictness passes along.
  lt_trans_left :
      (a b c : A) → cmp a b ≡ Ordering.lt → is_le (cmp b c) ≡ true → cmp a c ≡ Ordering.lt
  lt_trans_left a b c h k =
      ground (arith, o.swap a b, o.swap a c, o.swap b c, o.trans a b c, o.trans b c a)

  lt_trans_right :
      (a b c : A) → is_le (cmp a b) ≡ true → cmp b c ≡ Ordering.lt → cmp a c ≡ Ordering.lt
  lt_trans_right a b c h k =
      ground (arith, o.swap a b, o.swap a c, o.swap b c, o.trans a b c, o.trans c a b)

module _ {ℓ} {A : Type ℓ} {f g : A → A → Ordering} (p : IsOrder f) (q : IsOrder g) where
  then_swap : (a b : A) → then_with (f b a) (g b a) ≡ flip (then_with (f a b) (g a b))
  then_swap a b = ground (arith, p.swap a b, q.swap a b)

  then_trans :
      (a b c : A)
      → is_le (then_with (f a b) (g a b)) ≡ true
      → is_le (then_with (f b c) (g b c)) ≡ true
      → is_le (then_with (f a c) (g a c)) ≡ true
  then_trans a b c h k = ground (
    arith,
    p.trans a b c,
    q.trans a b c,
    lt_trans_left p a b c,
    lt_trans_right p a b c,
    p.trans c a b,
    p.trans b c a,
    p.swap a b,
    p.swap b c,
    p.swap a c,
  )

  -- Lexicographic comparison.
  pub then-IsOrder : IsOrder (λ a b. then_with (f a b) (g a b))
  then-IsOrder = record { swap = then_swap; trans = then_trans }

-- Comparison by a key, and in the other direction.
pub by_key-IsOrder {ℓ κ} :
    {A : Type ℓ} {B : Type κ} {f : B → B → Ordering} (key : A → B)
    → IsOrder f
    → IsOrder (λ a b. f (key a) (key b))
by_key-IsOrder key o = record {
  swap = λ a b. o.swap (key a) (key b);
  trans = λ a b c. o.trans (key a) (key b) (key c);
}

pub reverse-IsOrder {ℓ} : {A : Type ℓ} {f : A → A → Ordering} → IsOrder f → IsOrder (λ a b. f b a)
reverse-IsOrder o = record { swap = λ a b. o.swap b a; trans = λ a b c h k. o.trans c b a k h }

compare_swap : (a b : ℕ) → compare b a ≡ flip (compare a b)
compare_swap a b = ground arith

compare_trans :
    (a b c : ℕ)
    → is_le (compare a b) ≡ true
    → is_le (compare b c) ≡ true
    → is_le (compare a c) ≡ true
compare_trans a b c h k = ground arith

pub compare-IsOrder : IsOrder compare
compare-IsOrder = record { swap = compare_swap; trans = compare_trans }

-- Values before `None`.
abbrev pub compare_some_first {ℓ} :
    {A : Type ℓ} → (A → A → Ordering) → Option A → Option A → Ordering
compare_some_first f (some a) (some b) = f a b
compare_some_first f (some a) none = Ordering.lt
compare_some_first f none (some b) = Ordering.gt
compare_some_first f none none = Ordering.eq

module _ {ℓ} {A : Type ℓ} {f : A → A → Ordering} (o : IsOrder f) where
  some_first_swap : (a b : Option A) → compare_some_first f b a ≡ flip (compare_some_first f a b)
  some_first_swap none none = refl
  some_first_swap none (some b) = refl
  some_first_swap (some a) none = refl
  some_first_swap (some a) (some b) = o.swap a b

  some_first_trans :
      (a b c : Option A)
      → is_le (compare_some_first f a b) ≡ true
      → is_le (compare_some_first f b c) ≡ true
      → is_le (compare_some_first f a c) ≡ true
  some_first_trans (some a) (some b) (some c) h k = o.trans a b c h k
  some_first_trans (some a) b none h k = refl
  some_first_trans none none c h k = k
  some_first_trans none (some b) c h k = cc
  some_first_trans (some a) none (some c) h k = cc

  pub some_first-IsOrder : IsOrder (compare_some_first f)
  some_first-IsOrder = record { swap = some_first_swap; trans = some_first_trans }

compare_text_swap : (a b : Text) → compare_text b a ≡ flip (compare_text a b)
unfolding compare_text
compare_text_swap [] [] = refl
compare_text_swap [] (y ∷ ys) = refl
compare_text_swap (x ∷ xs) [] = refl
compare_text_swap (x ∷ xs) (y ∷ ys) = ground (arith, compare_text_swap xs ys)

compare_text_trans :
    (a b c : Text)
    → is_le (compare_text a b) ≡ true
    → is_le (compare_text b c) ≡ true
    → is_le (compare_text a c) ≡ true
unfolding compare_text
compare_text_trans [] [] c h k = k
compare_text_trans [] (y ∷ ys) [] h k = refl
compare_text_trans [] (y ∷ ys) (z ∷ zs) h k = refl
compare_text_trans (x ∷ xs) [] c h k = cc
compare_text_trans (x ∷ xs) (y ∷ ys) [] h k = cc
compare_text_trans (x ∷ xs) (y ∷ ys) (z ∷ zs) h k = ground (arith, compare_text_trans xs ys zs)

pub compare_text-IsOrder : IsOrder compare_text
compare_text-IsOrder = record { swap = compare_text_swap; trans = compare_text_trans }

pub compare_text-eq : (a b : Text) → compare_text a b ≡ Ordering.eq → a ≡ b
unfolding compare_text
compare_text-eq [] [] h = refl
compare_text-eq [] (y ∷ ys) h = cc
compare_text-eq (x ∷ xs) [] h = cc
compare_text-eq (x ∷ xs) (y ∷ ys) h = ground (arith, compare_text-eq xs ys)
