-- ===== src/Deploy/Plan.antt =====
-- The plan of a deploy from what was read: `preview` of crates/ployz-orchestrator/src/deploy/mod.rs
-- but its calls.
pub mod Covered
use ployz.Prelude.{
  ℕ, Bool, true, false, Option, none, some, List, [], ◌∷◌, ◌++◌, map, not, ◌==◌, ◌&&◌, text_eq,
  option_eq, all, any, if◌then◌else◌,
}
use ployz.Prelude.Text.{Text, codes}
use ployz.Prelude.Map
use ployz.Prelude.Map.{Map}
use ployz.Prelude.Set
use mathlib.Core.Option
use ployz.Model.Error.{Error, Result, ok, map_err, ◌>>=◌}
use ployz.Model.Machine.{MachineId, MachineRecord}
use ployz.Model.Service.{
  ServiceReleaseSlot, ServiceReleaseRecord, DeployPreview, ServicePlan, SlotPlan, DeployChangeKind,
  create, replace, remove, unchanged, change_eq,
}
use ployz.Model.Spec.{ServiceSpec, DeployManifest}
use ployz.Manifest.Hash.{Json, stable_hash_hex, as_bytes, revision_hash}
use ployz.Deploy.{
  DesiredSlot, slot_of, deployable_machines, desired_slots, current_slots_by_service,
}

abbrev pub preview_error : Text → Error
preview_error message = record { operation = codes "deploy_preview"; message = message }

-- The map of the releases by their service: of two of one service the later stays.
unfoldable pub releases_by_service :
    List ServiceReleaseRecord → Map Text ServiceReleaseRecord → Map Text ServiceReleaseRecord
unfolding Map.insert text_eq
releases_by_service [] m = m
releases_by_service (r ∷ rs) m = releases_by_service rs (Map.insert r.service r m)

-- `unwrap_or_default`
abbrev pub or_none : Option (List ServiceReleaseSlot) → List ServiceReleaseSlot
or_none none = []
or_none (some slots) = slots

abbrev pub is_current : ServiceReleaseSlot → DesiredSlot → Text → Bool
is_current slot desired revision =
    slot.machine_id == desired.machine_id && slot.revision_hash == revision

abbrev pub slot_action : Option ServiceReleaseSlot → DesiredSlot → Text → DeployChangeKind
slot_action none desired revision = create
slot_action (some slot) desired revision =
    if is_current slot desired revision then unchanged else replace

abbrev pub plan_slot : List ServiceReleaseSlot → Text → DesiredSlot → SlotPlan
plan_slot current revision desired =
    let slot = slot_of desired.slot_id current in
    record {
      slot_id = desired.slot_id;
      machine_id = desired.machine_id;
      current_instance_id = Option.map (λ (s : ServiceReleaseSlot). s.active_instance_id) slot;
      next_instance_id = none;
      current_revision_hash = Option.map (λ (s : ServiceReleaseSlot). s.revision_hash) slot;
      next_revision_hash = some revision;
      action = slot_action slot desired revision;
    }

abbrev pub primary_revision : Option ServiceReleaseRecord → Option Text
primary_revision = Option.map (λ (r : ServiceReleaseRecord). r.release.primary_revision_hash)

abbrev pub new_or_replaced : Option ServiceReleaseRecord → DeployChangeKind
new_or_replaced none = create
new_or_replaced (some r) = replace

abbrev pub service_action : List SlotPlan → Option ServiceReleaseRecord → Text → DeployChangeKind
service_action plans release revision =
    if all (λ (p : SlotPlan). p.action == unchanged) plans
      && primary_revision release == some revision
    then unchanged
    else new_or_replaced release

abbrev pub plan_service :
    ServiceSpec
    → Text
    → List DesiredSlot
    → List ServiceReleaseSlot
    → Option ServiceReleaseRecord
    → ServicePlan
plan_service spec revision desired current release =
    let plans = map (plan_slot current revision) desired in
    record {
      service = spec.name;
      current_revision_hash = primary_revision release;
      next_revision_hash = some revision;
      slots = plans;
      action = service_action plans release revision;
    }

abbrev pub plan_removed_slot : ServiceReleaseSlot → SlotPlan
plan_removed_slot slot = record {
  slot_id = slot.slot_id;
  machine_id = slot.machine_id;
  current_instance_id = some slot.active_instance_id;
  next_instance_id = none;
  current_revision_hash = some slot.revision_hash;
  next_revision_hash = none;
  action = remove;
}

abbrev pub plan_removed :
    Map Text ServiceReleaseRecord → Text → List ServiceReleaseSlot → ServicePlan
plan_removed releases service slots = record {
  service = service;
  current_revision_hash = primary_revision (Map.get service releases);
  next_revision_hash = none;
  slots = map plan_removed_slot slots;
  action = remove;
}

abbrev pub desired_machine : DesiredSlot → MachineId
desired_machine d = d.machine_id

abbrev pub slot_machine : ServiceReleaseSlot → MachineId
slot_machine s = s.machine_id

-- The participants so far, and the plans.
abbrev pub Plans : Type 0
Plans = List MachineId × List ServicePlan

abbrev pub with_plan : ServicePlan → Plans → Plans
with_plan plan (participants, plans) = (participants, plan ∷ plans)

module _ (json : Json) (machines : List MachineId) (releases : Map Text ServiceReleaseRecord) where
  -- The loop over the services of the manifest.
  unfoldable pub plan_services : List ServiceSpec → List MachineId → Result Error Plans
  unfolding Map.get Set.insert_all text_eq option_eq change_eq revision_hash desired_slots
  plan_services [] participants = ok (participants, [])
  plan_services (spec ∷ specs) participants =
      map_err preview_error (revision_hash json spec) >>= λ revision.
      desired_slots spec machines (Map.get spec.name (current_slots_by_service releases))
      >>= λ desired.
          let current = or_none (Map.get spec.name (current_slots_by_service releases)) in
          plan_services specs (
            Set.insert_all slot_machine current
              (Set.insert_all desired_machine desired participants))
          >>= λ rest. ok (
              with_plan (plan_service spec revision desired current (Map.get spec.name releases))
                rest)

abbrev pub names_service : Text → ServiceSpec → Bool
names_service service spec = spec.name == service

-- The loop over the services that there are, for those that the manifest no longer names.
unfoldable pub plan_removals :
    List ServiceSpec
    → Map Text ServiceReleaseRecord
    → Map Text (List ServiceReleaseSlot)
    → List MachineId
    → Plans
unfolding Map.get Set.insert_all text_eq
plan_removals specs releases [] participants = (participants, [])
plan_removals specs releases ((service, slots) ∷ m) participants =
    let skipped = plan_removals specs releases m participants in
    let planned =
      with_plan (plan_removed releases service slots)
        (plan_removals specs releases m (Set.insert_all slot_machine slots participants)) in
    if any (names_service service) specs then skipped else planned

abbrev pub preview_from : DeployManifest → Text → List ServicePlan → Plans → DeployPreview
preview_from manifest hash plans (participants, removals) = record {
  namespace = manifest.namespace;
  manifest_hash = hash;
  participants = participants;
  services = plans ++ removals;
  warnings = [];
}

abbrev pub manifest_hash : Json → DeployManifest → Result Error Text
manifest_hash json manifest =
    map_err (λ e. preview_error (codes "serialize manifest: " ++ e)) (json.manifest manifest)
    >>= λ text. ok (stable_hash_hex (as_bytes text))

-- What follows the calls: the preview from what was read.
unfoldable pub preview_of :
    {Net : Type 0}
    → Json
    → MachineId
    → DeployManifest
    → List ServiceReleaseRecord
    → List (MachineRecord Net)
    → (now : ℕ) → Result Error DeployPreview
unfolding releases_by_service deployable_machines plan_services plan_removals stable_hash_hex
    as_bytes
preview_of json local_machine_id manifest current_releases machines now =
    let desired_machines = deployable_machines machines local_machine_id now in
    let releases = releases_by_service current_releases [] in
    manifest_hash json manifest >>= λ hash.
    plan_services json desired_machines releases manifest.services
      (Set.insert_all (λ m. m) desired_machines [])
    >>= λ planned. ok (
        preview_from manifest hash planned.1
          (plan_removals manifest.services releases (current_slots_by_service releases) planned.0))
