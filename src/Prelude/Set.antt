-- ===== src/Prelude/Set.antt =====
-- `BTreeSet` over texts: the elements once each, in the order of texts.
use Prim.Native.Nat.{Ordering}
use mathlib.Core.Path.{◌≡◌, refl}
use mathlib.Core.Bool.{◌||◌}
use mathlib.Core.List.{List, [], ◌∷◌}
use native.Mathlib.Omega.{arith}
use ployz.Prelude.Equality.{◌==◌, text_eq}
use ployz.Prelude.Lists.{contains, any}
use ployz.Prelude.Text.{Text}
use ployz.Prelude.Compare.{compare_text, compare_text-eq}

-- `insert`
unfoldable pub insert : Text → List Text → List Text
unfolding compare_text
insert x [] = x ∷ []
insert x (y ∷ ys) =
    let rest = insert x ys in
    elim (compare_text x y) [
      | Ordering.lt ↦ x ∷ y ∷ ys
      | Ordering.eq ↦ y ∷ ys
      | Ordering.gt ↦ y ∷ rest
    ]

-- `insert` of the key of every element, one after another.
unfoldable pub insert_all {ℓ} : {A : Type ℓ} → (A → Text) → List A → List Text → List Text
unfolding insert
insert_all key [] set = set
insert_all key (x ∷ xs) set = insert_all key xs (insert (key x) set)

pub contains-insert :
    (x : Text) (ys : List Text) (a : Text) → contains (insert x ys) a ≡ (x == a || contains ys a)
unfolding insert
contains-insert x [] a = refl
contains-insert x (y ∷ ys) a = ground (arith, contains-insert x ys a, compare_text-eq x y)

pub contains-insert_all {ℓ} :
    {A : Type ℓ} (key : A → Text) (xs : List A) (set : List Text) (a : Text)
    → contains (insert_all key xs set) a ≡ (any (λ x. key x == a) xs || contains set a)
unfolding insert_all
contains-insert_all key [] set a = refl
contains-insert_all key (x ∷ xs) set a =
    ground (arith, contains-insert_all key xs (insert (key x) set) a, contains-insert (key x) set a)
