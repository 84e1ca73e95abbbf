-- ===== src/Deploy/Machines.antt =====
-- The machines that a deploy can use.
use ployz.Prelude.{
  ℕ, ◌≡◌, refl, ◌∙◌, Bool, false, List, [], ◌∷◌, arith, ◌==◌, text_eq, keep, any, contains,
  is_empty, if◌then◌else◌, ◌&&◌, not,
}
use ployz.Prelude.Compare.{compare_text-IsOrder, is_le_total}
use ployz.Prelude.Sort.{sort_by, insert_sorted, IsSorted, sort_by-IsSorted, contains-sort_by}
use ployz.Model.Machine.{MachineId, MachineRecord, enabled, participation_eq}
use ployz.Liveness.{machine_is_fresh}
use ployz.Deploy.{deployable_machines, is_deployable, id_le, or_only, ids}

pub ids-IsSorted : (xs : List MachineId) → IsSorted id_le (sort_by id_le xs)
ids-IsSorted = sort_by-IsSorted id_le (is_le_total compare_text-IsOrder) compare_text-IsOrder.trans

-- A machine that takes part and has a fresh heartbeat.
abbrev pub is_eligible : {Net : Type 0} → ℕ → MachineRecord Net → Bool
is_eligible now m = m.participation == enabled && machine_is_fresh m now

contains-ids :
    {Net : Type 0} (now : ℕ) (ms : List (MachineRecord Net)) (id : MachineId)
    → contains (ids (keep (is_deployable now) ms)) id
      ≡ any (λ m. is_eligible now m && m.id == id) ms
contains-ids now [] id = refl
contains-ids now (m ∷ ms) id = ground (arith, contains-ids now ms id)

empty-insert_sorted :
    (x : MachineId) (xs : List MachineId) → is_empty (insert_sorted id_le x xs) ≡ false
unfolding insert_sorted
empty-insert_sorted x [] = refl
empty-insert_sorted x (y ∷ ys) = ground arith

empty-sort_by : (xs : List MachineId) → is_empty (sort_by id_le xs) ≡ is_empty xs
unfolding sort_by
empty-sort_by [] = refl
empty-sort_by (x ∷ xs) = empty-insert_sorted x (sort_by id_le xs)

empty-ids :
    {Net : Type 0} (now : ℕ) (ms : List (MachineRecord Net))
    → is_empty (ids (keep (is_deployable now) ms)) ≡ not (any (is_eligible now) ms)
empty-ids now [] = refl
empty-ids now (m ∷ ms) = ground (arith, empty-ids now ms)

contains-or_only :
    (l : MachineId) (xs : List MachineId) (id : MachineId)
    → contains (or_only l xs) id ≡ (if not (is_empty xs) then contains xs id else l == id)
contains-or_only l [] id = ground arith
contains-or_only l (x ∷ xs) id = refl

or_only-IsSorted :
    (l : MachineId) (xs : List MachineId) → IsSorted id_le xs → IsSorted id_le (or_only l xs)
or_only-IsSorted l [] h = (tt, tt)
or_only-IsSorted l (x ∷ xs) h = h

not_empty-or_only : (l : MachineId) (xs : List MachineId) → is_empty (or_only l xs) ≡ false
not_empty-or_only l [] = refl
not_empty-or_only l (x ∷ xs) = refl

not-not : (b : Bool) → not (not b) ≡ b
not-not b = ground arith

module _ {Net : Type 0} (machines : List (MachineRecord Net)) (local : MachineId) (now : ℕ) where
  -- Whether an eligible machine has that id.
  abbrev pub has_deployable : MachineId → Bool
  has_deployable id = any (λ (m : MachineRecord Net). is_eligible now m && m.id == id) machines

  abbrev pub has_any : Bool
  has_any = any (λ (m : MachineRecord Net). is_eligible now m) machines

  pub record Deployable (out : List MachineId) : Type 0 where
    pub chosen :
        (id : MachineId) → contains out id ≡ (if has_any then has_deployable id else local == id)
    pub sorted : IsSorted id_le out
    pub not_empty : is_empty out ≡ false

  -- `deployable_machines` returns the ids of the machines that are enabled and fresh, or the local
  -- machine when there is none: in ascending order, and never an empty list.
  pub deployable_machines-Deployable : Deployable (deployable_machines machines local now)
  unfolding deployable_machines
  deployable_machines-Deployable =
      let eligible = ids (keep (is_deployable now) machines) in
      record {
        chosen = λ id.
            contains-or_only local (sort_by id_le eligible) id
            ∙ rw
                (
                  empty-sort_by eligible,
                  empty-ids now machines,
                  not-not has_any,
                  contains-sort_by id_le eligible id,
                  contains-ids now machines id,
                )
                refl;
        sorted = or_only-IsSorted local (sort_by id_le eligible) (ids-IsSorted eligible);
        not_empty = not_empty-or_only local (sort_by id_le eligible);
      }
