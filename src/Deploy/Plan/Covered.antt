-- ===== src/Deploy/Plan/Covered.antt =====
-- The participants of a plan.
use ployz.Prelude.{
  ℕ, ◌≡◌, refl, ap, Bool, Option, List, [], ◌∷◌, ◌++◌, map, ◌||◌, ◌==◌, text_eq, any, contains,
  arith, subst,
}
use ployz.Prelude.Text.{Text}
use ployz.Prelude.Map
use ployz.Prelude.Map.{Map}
use ployz.Prelude.Set
use ployz.Prelude.Set.{contains-insert_all}
use ployz.Model.Error.{ok, map_err, bind-returned, ok_injective}
use ployz.Model.Machine.{MachineId, MachineRecord}
use ployz.Model.Service.{
  ServiceReleaseSlot, ServiceReleaseRecord, DeployPreview, ServicePlan, SlotPlan,
}
use ployz.Model.Spec.{ServiceSpec, DeployManifest}
use ployz.Manifest.Hash.{Json, revision_hash}
use ployz.Deploy.{DesiredSlot, deployable_machines, desired_slots, current_slots_by_service}
use ployz.Deploy.Plan.{
  preview_error, releases_by_service, or_none, plan_slot, plan_service, desired_machine,
  slot_machine, plan_services, plan_removals, Plans, with_plan, plan_removed_slot, manifest_hash,
  preview_of,
}

-- A plan puts a slot on the machine, or takes one from it.
abbrev pub uses : MachineId → ServicePlan → Bool
uses m plan = any (λ (p : SlotPlan). p.machine_id == m) plan.slots

-- A slot is on the machine now.
abbrev pub on_machine : MachineId → List ServiceReleaseSlot → Bool
on_machine m = any (λ (s : ServiceReleaseSlot). s.machine_id == m)

abbrev pub holds : Map Text (List ServiceReleaseSlot) → MachineId → ServiceSpec → Bool
holds current m spec = on_machine m (or_none (Map.get spec.name current))

any-append {ℓ} :
    {A : Type ℓ} (p : A → Bool) (xs ys : List A) → any p (xs ++ ys) ≡ (any p xs || any p ys)
any-append p [] ys = refl
any-append p (x ∷ xs) ys = ground (arith, any-append p xs ys)

uses-plan_slot :
    (m : MachineId) (current : List ServiceReleaseSlot) (revision : Text)
    (desired : List DesiredSlot)
    → any (λ (p : SlotPlan). p.machine_id == m) (map (plan_slot current revision) desired)
      ≡ any (λ (d : DesiredSlot). d.machine_id == m) desired
uses-plan_slot m current revision [] = refl
uses-plan_slot m current revision (d ∷ ds) =
    ap (λ b. d.machine_id == m || b) (uses-plan_slot m current revision ds)

uses-plan_removed_slot :
    (m : MachineId) (slots : List ServiceReleaseSlot)
    → any (λ (p : SlotPlan). p.machine_id == m) (map plan_removed_slot slots) ≡ on_machine m slots
uses-plan_removed_slot m [] = refl
uses-plan_removed_slot m (s ∷ ss) = ap (λ b. s.machine_id == m || b) (uses-plan_removed_slot m ss)

module _ (json : Json) (machines : List MachineId) (releases : Map Text ServiceReleaseRecord)
    (m : MachineId) where
  -- The participants of a result are those before, and those that its plans and the slots ask for.
  abbrev Covers : List ServiceSpec → List MachineId → Plans → Type 0
  Covers specs before out = contains out.0 m ≡ (
      contains before m
      || (any (uses m) out.1 || any (holds (current_slots_by_service releases) m) specs))

  with_plan-Covers :
      (spec : ServiceSpec) (specs : List ServiceSpec) (revision : Text) (desired : List DesiredSlot)
      (release : Option ServiceReleaseRecord) (before : List MachineId) (rest : Plans)
      (current : List ServiceReleaseSlot)
      → or_none (Map.get spec.name (current_slots_by_service releases)) ≡ current
      → Covers specs
          (Set.insert_all slot_machine current (Set.insert_all desired_machine desired before))
          rest
      → Covers
          (spec ∷ specs)
          before
          (with_plan (plan_service spec revision desired current release) rest)
  with_plan-Covers spec specs revision desired release before rest current e h = rw (e) (
      ground (
        arith,
        h,
        uses-plan_slot m current revision desired,
        contains-insert_all slot_machine current (Set.insert_all desired_machine desired before) m,
        contains-insert_all desired_machine desired before m,
      ))

  plan_services-Covers :
      (specs : List ServiceSpec) (before : List MachineId) (out : Plans)
      → plan_services json machines releases specs before ≡ ok out
      → Covers specs before out
  unfolding plan_services
  plan_services-Covers [] before out h = ground arith
  plan_services-Covers (spec ∷ specs) before out h =
      let (revision, e, h') = bind-returned (map_err preview_error (revision_hash json spec)) _ h in
      let (desired, e', h'') =
        bind-returned
          (desired_slots spec machines (Map.get spec.name (current_slots_by_service releases))) _
          h' in
      let (rest, planned, same) =
        bind-returned (plan_services json machines releases specs _) _ h'' in
      subst (Covers (spec ∷ specs) before) (ok_injective same) (
        with_plan-Covers spec specs revision desired (Map.get spec.name releases) before rest _ refl
          (plan_services-Covers specs _ rest planned))

plan_removals-covers :
    (specs : List ServiceSpec) (releases : Map Text ServiceReleaseRecord)
    (slots : Map Text (List ServiceReleaseSlot)) (before : List MachineId) (m : MachineId)
    → contains (plan_removals specs releases slots before).0 m
      ≡ (contains before m || any (uses m) (plan_removals specs releases slots before).1)
unfolding plan_removals
plan_removals-covers specs releases [] before m = ground arith
plan_removals-covers specs releases ((service, slots) ∷ rest) before m = ground (
  arith,
  plan_removals-covers specs releases rest before m,
  plan_removals-covers specs releases rest (Set.insert_all slot_machine slots before) m,
  contains-insert_all slot_machine slots before m,
  uses-plan_removed_slot m slots,
)

abbrev pub current_slots : List ServiceReleaseRecord → Map Text (List ServiceReleaseSlot)
current_slots records = current_slots_by_service (releases_by_service records [])

any-same : (m : MachineId) (xs : List MachineId) → any (λ x. x == m) xs ≡ contains xs m
any-same m [] = refl
any-same m (x ∷ xs) = ap (λ b. x == m || b) (any-same m xs)

-- When a plan is made, its participants are exactly the machines that can be deployed to, those that
-- a slot of one of its service plans (created, kept, replaced or removed) names, and those that have
-- a slot of a service of the manifest now.
pub preview_of-participants :
    {Net : Type 0} (json : Json) (local_machine_id : MachineId) (manifest : DeployManifest)
    (records : List ServiceReleaseRecord) (machines : List (MachineRecord Net)) (now : ℕ)
    (p : DeployPreview) (m : MachineId)
    → preview_of json local_machine_id manifest records machines now ≡ ok p
    → contains p.participants m ≡ (
        contains (deployable_machines machines local_machine_id now) m
        || (any (uses m) p.services || any (holds (current_slots records) m) manifest.services))
unfolding preview_of
preview_of-participants json local_machine_id manifest records machines now p m h =
    let deployable = deployable_machines machines local_machine_id now in
    let releases = releases_by_service records [] in
    let start = Set.insert_all (λ (x : MachineId). x) deployable [] in
    let (hash, e, h') = bind-returned (manifest_hash json manifest) _ h in
    let (planned, e', same) =
      bind-returned (plan_services json deployable releases manifest.services start) _ h' in
    let removals =
      plan_removals manifest.services releases (current_slots_by_service releases) planned.0 in
    subst
      (λ (q : DeployPreview). contains q.participants m ≡ (
        contains deployable m
        || (any (uses m) q.services || any (holds (current_slots records) m) manifest.services)))
      (ok_injective same)
      (ground (
        arith,
        plan_services-Covers json deployable releases m manifest.services start planned e',
        plan_removals-covers manifest.services releases (current_slots_by_service releases)
            planned.0 m,
        any-append (uses m) planned.1 removals.1,
        contains-insert_all (λ (x : MachineId). x) deployable [] m,
        any-same m deployable,
      ))
