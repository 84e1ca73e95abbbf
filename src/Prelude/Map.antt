-- ===== src/Prelude/Map.antt =====
-- Hash and tree maps, as association lists in an arbitrary order: an insertion replaces the entry
-- of its key or appends one, a removal drops the entry.
use mathlib.Core.Path.{◌≡◌, refl}
use mathlib.Core.Bool.{Bool, true, false, ◌||◌, ◌&&◌}
use mathlib.Core.Option.{Option, none, some}
use mathlib.Core.List.{List, [], ◌∷◌, map}
use native.Mathlib.Omega.{arith}
use ployz.Prelude.Tests.{if◌then◌else◌, Bool-cases}
use mathlib.Core.Logic.{inl, inr}
use ployz.Prelude.Equality.{Eq, ◌==◌, ==_true, ==_refl, ==_ne, option_eq, nat_eq}
use ployz.Prelude.Lists.{contains, All, Distinct, length}

abbrev pub Map {ℓ κ} : Type ℓ → Type κ → Type (ℓ ⊔ κ)
Map K V = List (K × V)

module _ {ℓ κ} {K : Type ℓ} {V : Type κ} where
  abbrev pub keys : Map K V → List K
  keys = map (λ (e : K × V). e.0)

  abbrev pub values : Map K V → List V
  values = map (λ (e : K × V). e.1)

module _ {ℓ κ} {K : Type ℓ} {V : Type κ} ⦃e : Eq K⦄ where
  unfoldable pub get : K → Map K V → Option V
  get k [] = none
  get k ((j, v) ∷ m) = let rest = get k m in if k == j then some v else rest

  abbrev pub contains_key : K → Map K V → Bool
  contains_key k m = elim (get k m) [ none ↦ false | some v ↦ true ]

  unfoldable pub insert : K → V → Map K V → Map K V
  insert k v [] = (k, v) ∷ []
  insert k v ((j, w) ∷ m) = let rest = insert k v m in if k == j then (k, v) ∷ m else (j, w) ∷ rest

  unfoldable pub remove : K → Map K V → Map K V
  remove k [] = []
  remove k ((j, w) ∷ m) = let rest = remove k m in if k == j then rest else (j, w) ∷ rest

  -- `retain(|key, _| p(key))`
  unfoldable pub retain : (K → Bool) → Map K V → Map K V
  retain p [] = []
  retain p ((j, w) ∷ m) = let rest = retain p m in if p j then (j, w) ∷ rest else rest

  -- `get_mut(k)` followed by an update in place.
  unfoldable pub modify : K → (V → V) → Map K V → Map K V
  modify k f [] = []
  modify k f ((j, w) ∷ m) =
      let rest = modify k f m in if k == j then (j, f w) ∷ m else (j, w) ∷ rest

  -- No key has two entries.
  abbrev pub DistinctKeys : Map K V → Type 0
  DistinctKeys m = Distinct (keys m)

  pub get-insert :
      (j k : K) (v : V) (m : Map K V) → get j (insert k v m) ≡ (if j == k then some v else get j m)
  unfolding get insert
  get-insert j k v [] = refl
  get-insert j k v (_ ∷ m) = ground (arith, get-insert j k v m)

  pub get-remove : (j k : K) (m : Map K V) → get j (remove k m) ≡ (if j == k then none else get j m)
  unfolding get remove
  get-remove j k [] = ground arith
  get-remove j k (_ ∷ m) = ground (arith, get-remove j k m)

  pub get-retain :
      (j : K) (p : K → Bool) (m : Map K V) → get j (retain p m) ≡ (if p j then get j m else none)
  unfolding get retain
  get-retain j p [] = ground arith
  get-retain j p (_ ∷ m) = ground (arith, get-retain j p m)

  pub get-modify :
      (j k : K) (f : V → V) (m : Map K V)
      → get j (modify k f m)
        ≡ (if j == k then elim (get j m) [ none ↦ none | some w ↦ some (f w) ] else get j m)
  unfolding get modify
  get-modify j k f [] = ground arith
  get-modify j k f (_ ∷ m) = ground (arith, get-modify j k f m)

  pub contains-keys : (k : K) (m : Map K V) → contains (keys m) k ≡ contains_key k m
  unfolding get
  contains-keys k [] = refl
  contains-keys k (_ ∷ m) = ground (arith, contains-keys k m)

  pub contains_key-insert :
      (j k : K) (v : V) (m : Map K V) → contains_key j (insert k v m) ≡ (k == j || contains_key j m)
  contains_key-insert j k v m = elim (Bool-cases (k == j)) [
    | inl q ↦
        let same : (j == k) ≡ true = rw (==_true k j q) (==_refl j) in
        rw (contains_key, get-insert j k v m, same, q) refl
    | inr q ↦
        let apart : (j == k) ≡ false = ==_ne j k (λ e. ground (arith, e)) in
        rw (contains_key, get-insert j k v m, apart, q) refl
  ]

  contains-keys-insert :
      (j k : K) (v : V) (m : Map K V)
      → contains (keys m) j ≡ false
      → (j == k) ≡ false
      → contains (keys (insert k v m)) j ≡ false
  unfolding insert
  contains-keys-insert j k v [] h n = ground arith
  contains-keys-insert j k v (_ ∷ m) h n = ground (arith, contains-keys-insert j k v m)

  contains-keys-remove :
      (j k : K) (m : Map K V) → contains (keys m) j ≡ false → contains (keys (remove k m)) j ≡ false
  unfolding remove
  contains-keys-remove j k [] h = refl
  contains-keys-remove j k (_ ∷ m) h = ground (arith, contains-keys-remove j k m)

  pub insert-DistinctKeys :
      (k : K) (v : V) (m : Map K V) → DistinctKeys m → DistinctKeys (insert k v m)
  unfolding insert
  insert-DistinctKeys k v [] u = (refl, tt)
  insert-DistinctKeys k v ((j, w) ∷ m) u =
      ground (arith, insert-DistinctKeys k v m u.1, contains-keys-insert j k v m u.0)

  pub remove-DistinctKeys : (k : K) (m : Map K V) → DistinctKeys m → DistinctKeys (remove k m)
  unfolding remove
  remove-DistinctKeys k [] u = tt
  remove-DistinctKeys k ((j, w) ∷ m) u =
      ground (arith, remove-DistinctKeys k m u.1, contains-keys-remove j k m u.0)

  pub All-insert {μ} :
      (P : K × V → Type μ) (k : K) (v : V) (m : Map K V) → P (k, v) → All P m → All P (insert k v m)
  unfolding insert
  All-insert P k v [] h hs = (h, tt)
  All-insert P k v ((j, w) ∷ m) h hs = ground (arith, All-insert P k v m h hs.1)

  pub All-remove {μ} : (P : K × V → Type μ) (k : K) (m : Map K V) → All P m → All P (remove k m)
  unfolding remove
  All-remove P k [] hs = tt
  All-remove P k ((j, w) ∷ m) hs = ground (arith, All-remove P k m hs.1)

  pub All-get {μ} :
      (P : K × V → Type μ) (k : K) (v : V) (m : Map K V) → All P m → get k m ≡ some v → P (k, v)
  unfolding get
  All-get P k v [] hs h = cc
  All-get P k v ((j, w) ∷ m) hs h = ground (arith, All-get P k v m hs.1)

module _ {ℓ κ} {K : Type ℓ} {V : Type κ} ⦃e : Eq K⦄ ⦃f : Eq V⦄ where
  -- The entries of the first map, each in the second.
  abbrev pub entries_in : Map K V → Map K V → Bool
  entries_in [] n = true
  entries_in ((k, v) ∷ m) n = get k n == some v && entries_in m n

  -- `==` of two maps, in whatever order they have their entries.
  unfoldable pub same_map : Map K V → Map K V → Bool
  unfolding get
  same_map m n = length m == length n && entries_in m n

  entries_in-skip :
      (k : K) (v : V) (m n : Map K V)
      → contains (keys m) k ≡ false
      → entries_in m ((k, v) ∷ n) ≡ entries_in m n
  unfolding get
  entries_in-skip k v [] n h = refl
  entries_in-skip k v ((j, w) ∷ m) n h = ground (arith, entries_in-skip k v m n)

  entries_in_self : (m : Map K V) → DistinctKeys m → entries_in m m ≡ true
  unfolding get
  entries_in_self [] u = refl
  entries_in_self ((k, v) ∷ m) u =
      ground (arith, ==_refl k, ==_refl (some v), entries_in-skip k v m m, entries_in_self m u.1)

  pub same_map_self : (m : Map K V) → DistinctKeys m → same_map m m ≡ true
  unfolding same_map
  same_map_self m u = rw (==_refl (length m), entries_in_self m u) refl
