-- ===== src/Deploy/Apply.antt =====
-- `apply` of crates/ployz-orchestrator/src/deploy/mod.rs: the sessions, the candidates, the commit and
-- the removal of what is no longer in use.
use ployz.Prelude.{
  ℕ, Bool, false, Option, none, some, List, [], ◌∷◌, ◌++◌, text_eq, contains, length, if◌then◌else◌,
}
use mathlib.Core.Option
use ployz.Prelude.Text.{Text, codes}
use ployz.Prelude.Text.Decimal.{decimal}
use ployz.Prelude.Map
use ployz.Prelude.Map.{Map}
use ployz.Prelude.Set
use ployz.Model.Error.{Error, Result, ok, err, map_err}
use ployz.Model.Machine.{MachineId, MachineRecord}
use ployz.Model.Service.{
  InstanceId, DeployId, ServiceReleaseSlot, ServiceReleaseRecord, InstanceStatusRecord, DeployEvent,
  change_eq, direct,
}
use ployz.Model.Spec.{Namespace, ServiceSpec}
use ployz.Manifest.Hash.{Json, canonical_revision_json, revision_hash}
use ployz.Deploy.{DesiredSlot, slot_of, desired_slots}
use ployz.Deploy.Effects.{
  World, M, ◌>>=◌, ◌>>◌, pure, of_result, of_option, call, ask, attempt, record_event, Call,
}
use ployz.Deploy.Plan.{is_current}

abbrev pub apply_error : Text → Error
apply_error message = record { operation = codes "deploy_apply"; message = message }

-- `Display` of an error.
abbrev pub to_string : Error → Text
to_string e = e.operation ++ (codes ": " ++ e.message)

abbrev pub event : Text → Text → DeployEvent
event step message = record { step = step; message = message }

-- The machines by their identifiers.
unfoldable pub machines_by_id :
    {Net : Type 0}
    → List (MachineRecord Net)
    → Map MachineId (MachineRecord Net)
    → Map MachineId (MachineRecord Net)
unfolding Map.insert text_eq
machines_by_id [] m = m
machines_by_id (r ∷ rs) m = machines_by_id rs (Map.insert r.id r m)

-- `sessions.insert`
abbrev pub add_session : MachineId → M (Unit {0})
add_session machine run = (record run { sessions = Set.insert machine run.sessions }, ok tt)

-- `sessions.get_mut`, of which what matters is whether there is one.
abbrev pub has_session : MachineId → M Bool
has_session machine run = (run, ok (contains run.sessions machine))

-- What a deploy keeps from its start.
pub record Deploy : Type 0 where
  pub namespace : Namespace
  pub deploy_id : DeployId
  pub local_machine_id : MachineId
  pub started_at : ℕ

abbrev pub missing_machine : MachineId → Error
missing_machine m =
    apply_error (codes "participant '" ++ (m ++ codes "' is missing from machine inventory"))

abbrev pub no_session : MachineId → Error
no_session m = apply_error (codes "no session was available for machine '" ++ (m ++ codes "'"))

abbrev pub lock_event : MachineId → ℕ → DeployEvent
lock_event m n =
    event (codes "lock")
      (codes "acquired lock on '" ++ (m ++ (codes "' (" ++ (decimal n ++ codes " instances)"))))

abbrev pub start_event : ServiceSpec → DesiredSlot → InstanceId → DeployEvent
start_event spec slot id = event (codes "start_candidate") (
    codes "starting "
    ++ (spec.name
        ++ (codes " slot "
            ++ (slot.slot_id
                ++ (codes " as instance " ++ (id ++ (codes " on " ++ slot.machine_id)))))))

abbrev pub cleanup_event : InstanceStatusRecord → DeployEvent
cleanup_event s =
    event (codes "cleanup")
      (codes "removed old instance " ++ (s.instance_id ++ (codes " from " ++ s.machine_id)))

abbrev pub commit_event : Deploy → DeployEvent
commit_event d =
    event (codes "commit")
      (codes "committed deploy " ++ (d.deploy_id ++ (codes " for '" ++ (d.namespace ++ codes "'"))))

-- The slots of releases, one release after another.
abbrev pub slots_of : List ServiceReleaseRecord → List ServiceReleaseSlot
slots_of [] = []
slots_of (r ∷ rs) = r.release.slots ++ slots_of rs

abbrev pub keeps : Option ServiceReleaseSlot → DesiredSlot → Text → Bool
keeps none desired revision = false
keeps (some slot) desired revision = is_current slot desired revision

abbrev pub current_slot : Option (List ServiceReleaseSlot) → DesiredSlot → Option ServiceReleaseSlot
current_slot none desired = none
current_slot (some slots) desired = slot_of desired.slot_id slots

abbrev pub release_slot : DesiredSlot → Text → InstanceId → ServiceReleaseSlot
release_slot desired revision instance_id = record {
  slot_id = desired.slot_id;
  machine_id = desired.machine_id;
  active_instance_id = instance_id;
  revision_hash = revision;
}

abbrev pub release_record :
    Deploy → ServiceSpec → Text → List ServiceReleaseSlot → ℕ → ServiceReleaseRecord
release_record d spec revision slots now = record {
  namespace = d.namespace;
  service = spec.name;
  release = record {
    primary_revision_hash = revision;
    referenced_revision_hashes = revision ∷ [];
    routing = direct revision;
    slots = slots;
    updated_by_deploy_id = d.deploy_id;
    updated_at = now;
  };
}

-- Whether an instance is to be removed, as far as the first two tests say.
abbrev pub is_stale : (active participants : List Text) → InstanceStatusRecord → Bool
is_stale active participants s =
    if contains active s.instance_id then false else contains participants s.machine_id

module _ {Net : Type 0} (w : World Net) (json : Json) (d : Deploy) where
  -- The loop that opens a session on every participant.
  unfoldable pub open_sessions : Map MachineId (MachineRecord Net) → List MachineId → M (Unit {0})
  unfolding Map.get Set.insert text_eq decimal
  open_sessions machine_map [] = pure tt
  open_sessions machine_map (participant ∷ rest) =
      of_option (missing_machine participant) (Map.get participant machine_map) >>= λ machine.
      call w.opened (Call.open_session machine.id d.namespace d.deploy_id d.local_machine_id)
      >>= λ instances.
          record_event (lock_event participant (length instances))
          >> add_session participant
          >> open_sessions machine_map rest

  -- A candidate for a slot, and the instance that it became.
  unfoldable pub start_slot : ServiceSpec → Text → DesiredSlot → M InstanceId
  unfolding text_eq
  start_slot spec spec_json desired = ask w.uuid Call.new_uuid >>= λ instance_id.
      record_event (start_event spec desired instance_id)
      >> has_session desired.machine_id
      >>= λ present.
          of_result (if present then ok tt else err (no_session desired.machine_id))
          >> call w.started (
              Call.start_candidate desired.machine_id (record {
                service = spec.name;
                slot_id = desired.slot_id;
                instance_id = instance_id;
                spec_json = spec_json;
              }))
          >>= λ status. call w.done (Call.upsert_instance_status status) >> pure status.instance_id

  -- The instance of a slot: the one it has when it stays, else a new one.
  unfoldable pub instance_for :
      ServiceSpec → Text → Text → Option ServiceReleaseSlot → DesiredSlot → M InstanceId
  unfolding start_slot text_eq
  instance_for spec revision spec_json current desired =
      if keeps current desired revision
      then of_option (apply_error (codes "missing current slot"))
          (Option.map (λ (s : ServiceReleaseSlot). s.active_instance_id) current)
      else start_slot spec spec_json desired

  -- The loop over the slots of a service.
  unfoldable pub deploy_slots :
      ServiceSpec
      → Text
      → Text
      → Option (List ServiceReleaseSlot)
      → List DesiredSlot
      → M (List ServiceReleaseSlot)
  unfolding instance_for text_eq
  deploy_slots spec revision spec_json current [] = pure []
  deploy_slots spec revision spec_json current (desired ∷ rest) =
      instance_for spec revision spec_json (current_slot current desired) desired >>= λ instance_id.
      deploy_slots spec revision spec_json current rest >>= λ slots.
      pure (release_slot desired revision instance_id ∷ slots)

  -- The loop over the services of the manifest.
  unfoldable pub deploy_services :
      List MachineId
      → Map Text (List ServiceReleaseSlot)
      → List ServiceSpec
      → M (List ServiceReleaseRecord)
  unfolding deploy_slots desired_slots revision_hash Map.get text_eq
  deploy_services machines current [] = pure []
  deploy_services machines current (spec ∷ specs) =
      of_result (map_err apply_error (revision_hash json spec)) >>= λ revision.
      of_result (map_err apply_error (canonical_revision_json json spec)) >>= λ spec_json.
      call w.done (
        Call.upsert_service_revision (record {
          namespace = d.namespace;
          service = spec.name;
          revision_hash = revision;
          spec_json = spec_json;
          created_by = d.local_machine_id;
          created_at = d.started_at;
        }))
      >> of_result (desired_slots spec machines (Map.get spec.name current))
      >>= λ desired.
          deploy_slots spec revision spec_json (Map.get spec.name current) desired >>= λ slots.
          ask w.clock Call.now_unix_secs >>= λ now.
          deploy_services machines current specs >>= λ releases.
          pure (release_record d spec revision slots now ∷ releases)

  -- One instance that is no longer in use: the errors of its removal.
  abbrev pub after_remove : InstanceStatusRecord → Result Error (Unit {0}) → M (List Text)
  after_remove s (ok _) = record_event (cleanup_event s) >> pure []
  after_remove s (err e) = pure (to_string e ∷ [])

  abbrev pub after_drain : InstanceStatusRecord → Result Error (Unit {0}) → M (List Text)
  after_drain s (err e) = pure (to_string e ∷ [])
  after_drain s (ok _) =
      attempt (call w.done (Call.remove_instance s.machine_id s.instance_id)) >>= after_remove s

  unfoldable pub clean_up_instance : InstanceStatusRecord → M (List Text)
  clean_up_instance s =
      attempt (call w.done (Call.drain_instance s.machine_id s.instance_id)) >>= after_drain s

  -- The loop over the instances of the namespace.
  unfoldable pub clean_up :
      (active participants : List Text) → List InstanceStatusRecord → M (List Text)
  unfolding clean_up_instance text_eq
  clean_up active participants [] = pure []
  clean_up active participants (s ∷ rest) = has_session s.machine_id >>= λ present.
      let cleaned = clean_up_instance s in
      (if is_stale active participants s then (if present then cleaned else pure []) else pure [])
      >>= λ errors. clean_up active participants rest >>= λ more. pure (errors ++ more)

  unfoldable pub close_sessions : List MachineId → M (Unit {0})
  close_sessions [] = pure tt
  close_sessions (m ∷ rest) =
      attempt (call w.done (Call.close_session m)) >>= λ _. close_sessions rest
