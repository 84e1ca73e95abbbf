-- ===== src/Deploy.antt =====
-- Which machine runs which slot of a service: crates/ployz-orchestrator/src/deploy/mod.rs, lines 18-22
-- and 439-536. The order of strings is the order of their code points, which is that of their bytes.
pub mod Machines
pub mod Slots
pub mod Effects
pub mod Plan
pub mod Preview
pub mod Apply
pub mod Coordinator
use ployz.Prelude.{
  ℕ, zero, suc, ◌+◌, ◌%◌, Bool, true, false, Option, none, some, List, [], ◌∷◌, ◌++◌, map, ◌==◌,
  text_eq, nat_eq, is_empty, keep, find, get_elem?, length, if◌then◌else◌,
}
use ployz.Prelude.Text.{Text, codes}
use ployz.Prelude.Text.Decimal.{decimal, decimal4}
use ployz.Prelude.Compare.{compare_text, is_le}
use ployz.Prelude.Sort.{sort_by}
use ployz.Prelude.Map
use ployz.Prelude.Map.{Map}
use ployz.Model.Error.{Error, Result, ok, err, ◌>>=◌, ◌>>◌, fail_if}
use ployz.Model.Machine.{MachineId, MachineRecord, enabled, participation_eq}
use ployz.Model.Service.{SlotId, ServiceReleaseSlot, ServiceReleaseRecord}
use ployz.Model.Spec.{Placement, global, replicated, ServiceSpec}
use ployz.Liveness.{machine_is_fresh}

pub record DesiredSlot : Type 0 where
  pub slot_id : SlotId
  pub machine_id : MachineId

abbrev pub id_le : MachineId → MachineId → Bool
id_le a b = is_le (compare_text a b)

-- Whether a machine can be deployed to.
abbrev pub is_deployable : {Net : Type 0} → ℕ → MachineRecord Net → Bool
is_deployable now m = if m.participation == enabled then machine_is_fresh m now else false

abbrev pub ids : {Net : Type 0} → List (MachineRecord Net) → List MachineId
ids = map (λ m. m.id)

-- The list, or the one machine when it is empty.
abbrev pub or_only : MachineId → List MachineId → List MachineId
or_only m [] = m ∷ []
or_only m (x ∷ xs) = x ∷ xs

unfoldable pub deployable_machines :
    {Net : Type 0} → List (MachineRecord Net) → MachineId → ℕ → List MachineId
unfolding machine_is_fresh participation_eq sort_by compare_text
deployable_machines machines local_machine_id now =
    or_only local_machine_id (sort_by id_le (ids (keep (is_deployable now) machines)))

abbrev pub desired_slots_error : Text → Error
desired_slots_error message = record { operation = codes "desired_slots"; message = message }

abbrev pub replica_slot : ℕ → SlotId
replica_slot index = codes "slot-" ++ decimal4 (index + 1)

abbrev pub global_slot : MachineId → SlotId
global_slot machine = codes "slot-" ++ machine

abbrev pub slot_of : SlotId → List ServiceReleaseSlot → Option ServiceReleaseSlot
slot_of id = find (λ (s : ServiceReleaseSlot). s.slot_id == id)

-- The machine that has the slot now.
abbrev pub current_machine : Option (List ServiceReleaseSlot) → SlotId → Option MachineId
current_machine none id = none
current_machine (some slots) id = elim (slot_of id slots) [
  | none ↦ none
  | some s ↦ some s.machine_id
]

-- The machine of a replica: the one it has, else the next in turn.
abbrev pub replica_machine :
    List MachineId → Option (List ServiceReleaseSlot) → ℕ → Result Error MachineId
replica_machine candidates current index = elim (current_machine current (replica_slot index)) [
  | some machine ↦ ok machine
  | none ↦
      let candidate_index = index % length candidates in
      elim (get_elem? candidates candidate_index) [
        | some machine ↦ ok machine
        | none ↦ err (
            desired_slots_error
              (codes "candidate index " ++ decimal candidate_index ++ codes " out of bounds"))
      ]
]

-- `for index in index..index + left`
unfoldable pub replicas :
    List MachineId
    → Option (List ServiceReleaseSlot)
    → (left index : ℕ) → Result Error (List DesiredSlot)
unfolding text_eq decimal decimal4
replicas candidates current zero index = ok []
replicas candidates current (suc left) index =
    replica_machine candidates current index >>= λ machine.
    replicas candidates current left (suc index) >>= λ rest.
    ok (record { slot_id = replica_slot index; machine_id = machine } ∷ rest)

abbrev pub candidates_of : List MachineId → List MachineId
candidates_of = or_only (codes "local")

unfoldable pub slots_for :
    Text
    → Placement
    → List MachineId
    → Option (List ServiceReleaseSlot)
    → Result Error (List DesiredSlot)
unfolding replicas nat_eq
slots_for name (replicated count) candidates current =
    fail_if (count == 0)
      (desired_slots_error (codes "service '" ++ name ++ codes "' requested zero replicas"))
    >> replicas candidates current count 0
slots_for name global candidates current =
    ok (map (λ m. record { slot_id = global_slot m; machine_id = m }) candidates)

unfoldable pub desired_slots :
    ServiceSpec
    → List MachineId
    → Option (List ServiceReleaseSlot)
    → Result Error (List DesiredSlot)
unfolding slots_for
desired_slots spec machines current =
    let candidates = candidates_of machines in
    fail_if (is_empty candidates)
      (desired_slots_error (codes "slot placement requires at least one candidate machine"))
    >> slots_for spec.name spec.placement candidates current

-- `current_slots_by_service`, of a map of releases.
abbrev pub current_slots_by_service :
    Map Text ServiceReleaseRecord → Map Text (List ServiceReleaseSlot)
current_slots_by_service = map (λ (e : Text × ServiceReleaseRecord). (e.0, e.1.release.slots))

-- `current_slots_by_service_from_releases`: of two releases of one service the later stays.
unfoldable pub current_slots_from :
    List ServiceReleaseRecord
    → Map Text (List ServiceReleaseSlot)
    → Map Text (List ServiceReleaseSlot)
unfolding Map.insert text_eq
current_slots_from [] m = m
current_slots_from (r ∷ rs) m = current_slots_from rs (Map.insert r.service r.release.slots m)
