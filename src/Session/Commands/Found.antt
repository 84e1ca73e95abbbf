-- ===== src/Session/Commands/Found.antt =====
-- What a session finds in the store.
use ployz.Prelude.{
  ◌≡◌, refl, ap, subst, ◌∙◌, Bool, true, false, Option, none, some, List, [], ◌∷◌, ◌==◌, ==_true,
  text_eq, find, keep, find-holds, All, arith, Bool-cases, inl, inr,
}
use ployz.Model.Error.{Error, Result, ok, err, ok_injective}
use ployz.Model.Service.{InstanceId, InstanceStatusRecord, phase_eq}
use ployz.Model.Spec.{Namespace}
use ployz.Runtime.{PolicyNames}
use ployz.Session.Agent.{
  AgentApi, DeployAgent, M, next, pure, is_local, list_local_instance_status,
  find_local_instance_status,
}

find-keep {ℓ} :
    {A : Type ℓ} (p q : A → Bool) (xs : List A) (y : A)
    → find p xs ≡ some y
    → q y ≡ true
    → find p (keep q xs) ≡ some y
find-keep p q [] y h k = cc
find-keep p q (x ∷ xs) y h k = ground (arith, find-keep p q xs y)

pub find-keep_none {ℓ} :
    {A : Type ℓ} (p q : A → Bool) (xs : List A) → find p xs ≡ none → find p (keep q xs) ≡ none
find-keep_none p q [] h = refl
find-keep_none p q (x ∷ xs) h = ground (arith, find-keep_none p q xs)

-- What is found among the kept ones is kept, and has what all have.
found_kept {ℓ} :
    {A : Type ℓ} (p q : A → Bool) (xs : List A) (y : A) → find p (keep q xs) ≡ some y → q y ≡ true
found_kept p q [] y h = cc
found_kept p q (x ∷ xs) y h = ground (arith, found_kept p q xs y)

abbrev id_is : InstanceId → InstanceStatusRecord → Bool
id_is id r = r.instance_id == id

All-kept {ℓ κ} :
    {A : Type ℓ} (P : A → Type κ) (q : A → Bool) (xs : List A) → All P xs → All P (keep q xs)
All-kept P q [] a = tt
All-kept P q (x ∷ xs) a = ground (arith, All-kept P q xs a.1)

first_is {ℓ} :
    {A : Type ℓ} (p : A → Bool) (x : A) (xs : List A) (y : A)
    → p x ≡ true
    → find p (x ∷ xs) ≡ some y
    → x ≡ y
first_is p x xs y h k = ground arith

first_is_not {ℓ} :
    {A : Type ℓ} (p : A → Bool) (x : A) (xs : List A) (y : A)
    → p x ≡ false
    → find p (x ∷ xs) ≡ some y
    → find p xs ≡ some y
first_is_not p x xs y h k = ground arith

All-find {ℓ κ} :
    {A : Type ℓ} (P : A → Type κ) (p : A → Bool) (xs : List A) (y : A)
    → All P xs
    → find p xs ≡ some y
    → P y
All-find P p [] y a h = cc
All-find P p (x ∷ xs) y a h = elim (Bool-cases (p x)) [
  | inl here ↦ subst P (first_is p x xs y here h) a.0
  | inr later ↦ All-find P p xs y a.1 (first_is_not p x xs y later h)
]

module _ {N : PolicyNames} (S : AgentApi N) where
  -- What the agent relies on of the store: a list has the records of its namespace, and shows the
  -- record that was stored last, and none that was deleted last.
  pub record Stores : Type 0 where
    pub namespaces :
        (s : S.State) (ns : Namespace) (rs : List InstanceStatusRecord)
        → S.list_instance_status s ns ≡ ok rs
        → All (λ (r : InstanceStatusRecord). r.namespace ≡ ns) rs
    pub upserted :
        (s s' : S.State) (r : InstanceStatusRecord)
        → S.upsert_instance_status s r ≡ (s', ok tt)
        → (rs : List InstanceStatusRecord) × (S.list_instance_status s' r.namespace ≡ ok rs)
          × (find (λ (x : InstanceStatusRecord). x.instance_id == r.instance_id) rs ≡ some r)
    pub deleted :
        (s s' : S.State) (id : InstanceId) (ns : Namespace)
        → S.delete_instance_status s id ≡ (s', ok tt)
        → (rs : List InstanceStatusRecord) × (S.list_instance_status s' ns ≡ ok rs)
          × (find (λ (x : InstanceStatusRecord). x.instance_id == id) rs ≡ none)

  pub next-returned :
      {A B : Type 0} (x : S.State × Result Error A) (f : A → M S B) {s' : S.State} {b : B}
      → next S x f ≡ (s', ok b)
      → (a : A) × (s1 : S.State) × (x ≡ (s1, ok a)) × (f a s1 ≡ (s', ok b))
  unfolding next
  next-returned (s1, ok a) f h = (a, s1, refl, h)
  next-returned (s1, err e) f h = cc

  pub next-ok :
      {A B : Type 0} (x : S.State × Result Error A) (f : A → M S B) {s : S.State} {a : A}
      {y : S.State × Result Error B}
      → x ≡ (s, ok a)
      → f a s ≡ y
      → next S x f ≡ y
  unfolding next
  next-ok x f e h = rw e h

  module _ (agent : DeployAgent) where
    abbrev Answer : Type 0
    Answer = S.State × Result Error (Option InstanceStatusRecord)

    abbrev local_with : InstanceId → List InstanceStatusRecord → Option InstanceStatusRecord
    local_with id rs = find (id_is id) (keep (is_local S agent) rs)

    pub finds :
        (ns : Namespace) (id : InstanceId) (s : S.State) (rs : List InstanceStatusRecord)
        → S.list_instance_status s ns ≡ ok rs
        → find_local_instance_status S agent ns id s ≡ (s, ok (local_with id rs))
    unfolding find_local_instance_status list_local_instance_status
    finds ns id s rs e = next-ok _ _ (next-ok _ _ (ap (λ r. (s, r)) e) refl) refl

    found_of :
        (id : InstanceId) (s s' : S.State) (listed : Result Error (List InstanceStatusRecord))
        (o : Option InstanceStatusRecord)
        → next S
            (next S (s, listed) (λ rs. pure S (keep (is_local S agent) rs)))
            (λ rs. pure S (find (id_is id) rs))
          ≡ (s', ok o)
        → (s ≡ s') × (rs : List InstanceStatusRecord) × (listed ≡ ok rs) × (local_with id rs ≡ o)
    unfolding next
    found_of id s s' (ok rs) o h =
        (ap (λ (x : Answer). x.0) h, rs, refl, ok_injective (ap (λ (x : Answer). x.1) h))
    found_of id s s' (err e) o h = cc

    pub found :
        (ns : Namespace) (id : InstanceId) (s s' : S.State) (o : Option InstanceStatusRecord)
        → find_local_instance_status S agent ns id s ≡ (s', ok o)
        → (s ≡ s')
          × (rs : List InstanceStatusRecord) × (S.list_instance_status s ns ≡ ok rs)
          × (local_with id rs ≡ o)
    unfolding find_local_instance_status list_local_instance_status
    found ns id s s' o h = found_of id s s' (S.list_instance_status s ns) o h

    module _ (store : Stores) where
      -- The record that is found is of the session's namespace, of this machine, and of the identifier.
      pub found-Local :
          (ns : Namespace) (id : InstanceId) (s s' : S.State) (r : InstanceStatusRecord)
          → find_local_instance_status S agent ns id s ≡ (s', ok (some r))
          → (r.namespace ≡ ns) × (r.instance_id ≡ id) × (is_local S agent r ≡ true)
      found-Local ns id s s' r h =
          let (_, rs, listed, here) = found ns id s s' (some r) h in
          (
            All-find (λ (r : InstanceStatusRecord). r.namespace ≡ ns) (id_is id)
                (keep (is_local S agent) rs) r
                (All-kept (λ (r : InstanceStatusRecord). r.namespace ≡ ns) (is_local S agent) rs
                  (store.namespaces s ns rs listed))
                here,
            ==_true r.instance_id id (find-holds (id_is id) (keep (is_local S agent) rs) r here),
            found_kept (id_is id) (is_local S agent) rs r here,
          )

      pub stored-found :
          (ns : Namespace) (id : InstanceId) (s s' : S.State) (r : InstanceStatusRecord)
          → S.upsert_instance_status s r ≡ (s', ok tt)
          → r.namespace ≡ ns
          → r.instance_id ≡ id
          → is_local S agent r ≡ true
          → find_local_instance_status S agent ns id s' ≡ (s', ok (some r))
      stored-found ns id s s' r stored same_ns same_id is_here =
          let (rs, listed, first) = store.upserted s s' r stored in
          subst (λ ns. find_local_instance_status S agent ns id s' ≡ (s', ok (some r))) same_ns
            (subst (λ id. find_local_instance_status S agent r.namespace id s' ≡ (s', ok (some r)))
              same_id
              (finds r.namespace r.instance_id s' rs listed
                ∙ ap (λ (o : Option InstanceStatusRecord). (s', ok o))
                    (find-keep (id_is r.instance_id) (is_local S agent) rs r first is_here)))

      pub deleted-found :
          (ns : Namespace) (id : InstanceId) (s s' : S.State)
          → S.delete_instance_status s id ≡ (s', ok tt)
          → find_local_instance_status S agent ns id s' ≡ (s', ok none)
      deleted-found ns id s s' gone =
          let (rs, listed, absent) = store.deleted s s' id ns gone in
          finds ns id s' rs listed
          ∙ ap (λ (o : Option InstanceStatusRecord). (s', ok o))
              (find-keep_none (id_is id) (is_local S agent) rs absent)
