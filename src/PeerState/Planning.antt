-- ===== src/PeerState/Planning.antt =====
-- The endpoints in the order in which the device is given them: `planned_endpoints`.
use mathlib.Core.List.{Perm, perm_append_comm}
use native.Mathlib.Nat.{mod-eq_of_lt}
use ployz.Prelude.{
  ℕ, zero, suc, ◌%◌, ◌<◌, ◌≡◌, refl, subst, ap, List, [], ◌∷◌, ◌++◌, arith, length, get_elem?,
}
use ployz.Prelude.Text.{Text}
use ployz.Peer.{active}
use ployz.PeerState.{PeerState}

module _ {ℓ} {A : Type ℓ} where
  unfoldable pub take : ℕ → List A → List A
  take (suc n) (x ∷ xs) = x ∷ take n xs
  take _ _ = []

  unfoldable pub drop : ℕ → List A → List A
  drop (suc n) (x ∷ xs) = drop n xs
  drop _ xs = xs

  -- `rotate_left(mid)`
  unfoldable pub rotate_left : ℕ → List A → List A
  unfolding take drop
  rotate_left mid xs = drop mid xs ++ take mid xs

  take-append-drop : (n : ℕ) (xs : List A) → take n xs ++ drop n xs ≡ xs
  unfolding take drop
  take-append-drop (suc n) (x ∷ xs) = ap (◌∷◌ x) (take-append-drop n xs)
  take-append-drop _ _ = refl

  pub rotate_left-perm : (n : ℕ) (xs : List A) → Perm (rotate_left n xs) xs
  unfolding rotate_left
  rotate_left-perm n xs =
      subst (Perm (drop n xs ++ take n xs)) (take-append-drop n xs)
        (perm_append_comm (drop n xs) (take n xs))

  rotate_left-head :
      (n : ℕ) (xs : List A) → n < length xs → get_elem? (rotate_left n xs) 0 ≡ get_elem? xs n
  unfolding rotate_left take drop
  rotate_left-head n [] h = absurd (omega arith)
  rotate_left-head zero (x ∷ xs) h = refl
  rotate_left-head (suc n) (x ∷ xs) h = drop-head n xs (take (suc n) (x ∷ xs)) (omega arith)
    where
      drop-head :
          (n : ℕ) (xs tail : List A)
          → n < length xs
          → get_elem? (drop n xs ++ tail) 0 ≡ get_elem? xs n
      drop-head n [] tail h = absurd (omega arith)
      drop-head zero (x ∷ xs) tail h = refl
      drop-head (suc n) (x ∷ xs) tail h = drop-head n xs tail (omega arith)

-- The endpoints from the active one on, round the list.
abbrev pub planned_from : ℕ → List Text → List Text
planned_from active_endpoint [] = []
planned_from active_endpoint (e ∷ es) = rotate_left (active_endpoint % length (e ∷ es)) (e ∷ es)

unfoldable pub planned_endpoints : {Net : Type 0} → PeerState Net → List Text
unfolding rotate_left
planned_endpoints ps = planned_from ps.runtime.active_endpoint ps.runtime.endpoints

planned_from_lem :
    (i : ℕ) (es : List Text)
    → i < length es
    → Perm (planned_from i es) es × (get_elem? (planned_from i es) 0 ≡ get_elem? es i)
planned_from_lem i [] h = absurd (omega arith)
planned_from_lem i (e ∷ es) h =
    rw (mod-eq_of_lt h) (rotate_left-perm i (e ∷ es), rotate_left-head i (e ∷ es) h)

-- Where the active index is in the list, the device is given the peer's endpoints, each as often as
-- the peer has it, with the active one first.
planned_endpoints-active :
    {Net : Type 0} (ps : PeerState Net)
    → ps.runtime.active_endpoint < length ps.runtime.endpoints
    → Perm (planned_endpoints ps) ps.runtime.endpoints
      × (get_elem? (planned_endpoints ps) 0 ≡ active ps.runtime)
unfolding planned_endpoints
planned_endpoints-active ps h = planned_from_lem ps.runtime.active_endpoint ps.runtime.endpoints h
