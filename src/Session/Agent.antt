-- ===== src/Session/Agent.antt =====
-- The sessions of a machine: DeployAgent of crates/ployzd/src/daemon/deploy_control/remote.rs, with
-- the frames of crates/ployz-runtime-api/src/deploy.rs. The store, the containers and the clock are an
-- interface.

use ployz.Prelude.{
  ℕ, Bool, true, Option, none, some, List, [], ◌∷◌, ◌++◌, map, contains, ◌==◌, text_eq, find, keep,
  if◌then◌else◌,
}
use ployz.Prelude.Text.{Text, codes}
use ployz.Model.Error.{Error, Result, ok, err}
use ployz.Model.Machine.{MachineId}
use ployz.Model.Service.{
  InstanceId, DeployId, InstanceStatusRecord, InstancePhase, phase_eq, DrainState,
}
use ployz.Model.Spec.{Namespace, ServiceSpec}
use ployz.Manifest.Hash.{Json}
use ployz.Runtime.{PolicyNames, RuntimeContainerSpec}
use ployz.Runtime.Workload.{ManagedInstance, to_status_record, LocalDeployRuntime}
use ployz.Runtime.Labels.{WorkloadLabels, label_managed, label_namespace, extract_workload_labels}
use ployz.Prelude.Map.{Map}
use ployz.Session.Locks.{NamespaceLock}

pub data DeployFrame : Type 0 where
  open_frame : (namespace deploy_id coordinator_id : Text) → DeployFrame
  inspect_frame : DeployFrame
  start_frame : (service slot_id instance_id spec_json : Text) → DeployFrame
  drain_frame : (instance_id : Text) → DeployFrame
  remove_frame : (instance_id : Text) → DeployFrame
  close_frame : DeployFrame
  opened_frame : (instances : List InstanceStatusRecord) → DeployFrame
  namespace_snapshot : (instances : List InstanceStatusRecord) → DeployFrame
  candidate_started : (status : InstanceStatusRecord) → DeployFrame
  ack : (message : Text) → DeployFrame
  error_frame : (code message : Text) → DeployFrame

pub record SessionState : Type 0 where
  pub namespace : Namespace
  pub deploy_id : DeployId
  pub lock : NamespaceLock

-- What is used of a container that is listed: its identifier, its address when it is one of IPv4, and
-- its labels.
pub record Listed : Type 0 where
  pub container_id : Text
  pub ipv4_address : Option ℕ
  pub labels : Map Text Text

-- What the agent calls: the store, `LocalDeployRuntime::new`, `list_by_labels`,
-- `ensure` (with the identifier and the address of the container) and `remove` of the engine, the
-- probes, the clock, and serde.
pub record AgentApi (N : PolicyNames) : Type 1 where
  pub State : Type 0
  pub list_instance_status : State → Namespace → Result Error (List InstanceStatusRecord)
  pub upsert_instance_status : State → InstanceStatusRecord → State × Result Error (Unit {0})
  pub delete_instance_status : State → InstanceId → State × Result Error (Unit {0})
  pub connect : State → Result Error (Unit {0})
  pub list_by_labels : State → List (Text × Text) → Result Error (List Listed)
  pub ensure : State → RuntimeContainerSpec N → State × Result Error (Text × Option ℕ)
  pub remove : State → Text → State × Result Error (Unit {0})
  pub wait_ready : State → ServiceSpec → ManagedInstance → State × Result Error (Unit {0})
  pub now_unix_secs : State → ℕ
  pub json : Json
  pub decode_spec : Text → Result Text ServiceSpec
  pub debug : DeployFrame → Text

pub record DeployAgent : Type 0 where
  pub local_machine_id : MachineId
  pub runtime : LocalDeployRuntime

abbrev pub instance_of : Listed → WorkloadLabels → ManagedInstance
instance_of obs wl = record {
  instance_id = wl.instance_id;
  service = wl.service;
  slot_id = wl.slot_id;
  machine_id = wl.machine_id;
  revision_hash = wl.revision_hash;
  deploy_id = wl.deploy_id;
  docker_container_id = obs.container_id;
  ipv4_address = obs.ipv4_address;
  backend_ports = [];
}

-- The containers that have the labels of a workload.
unfoldable pub instances_of : List Listed → List ManagedInstance
unfolding extract_workload_labels
instances_of [] = []
instances_of (obs ∷ rest) =
    let instances = instances_of rest in
    elim (extract_workload_labels obs.labels) [
      | some wl ↦ instance_of obs wl ∷ instances
      | none ↦ instances
    ]

abbrev pub agent_error : Text → Text → Error
agent_error operation message = record { operation = operation; message = message }

-- `to_string`
abbrev pub display : Error → Text
display e = e.operation ++ (codes ": " ++ e.message)

module _ {N : PolicyNames} (S : AgentApi N) where
  abbrev pub M : Type 0 → Type 0
  M A = S.State → S.State × Result Error A

  unfoldable pub next :
      {A B : Type 0} → S.State × Result Error A → (A → M B) → S.State × Result Error B
  next (s, ok a) f = f a s
  next (s, err e) f = (s, err e)

  abbrev pub pure : {A : Type 0} → A → M A
  pure a s = (s, ok a)

  abbrev pub given : {A : Type 0} → Result Error A → M A
  given r s = (s, r)

  abbrev pub known : List InstanceStatusRecord → List InstanceId
  known = map (λ (r : InstanceStatusRecord). r.instance_id)

  -- The clock, which the source reads twice for one record, is read once.
  abbrev pub status_of : Namespace → ManagedInstance → ℕ → InstanceStatusRecord
  status_of ns i now = to_status_record i ns InstancePhase.ready true DrainState.none none now now

  unfoldable pub adopt_listed : Namespace → List InstanceId → List ManagedInstance → M (Unit {0})
  unfolding text_eq
  adopt_listed ns ids [] = pure tt
  adopt_listed ns ids (i ∷ is) =
      let rest = adopt_listed ns ids is in
      if contains ids i.instance_id
      then rest
      else (λ s. next (S.upsert_instance_status s (status_of ns i (S.now_unix_secs s))) (λ _. rest))

  abbrev pub list_instances : Namespace → M (List ManagedInstance)
  list_instances ns s =
      next (s, S.list_by_labels s ((label_managed, codes "true") ∷ (label_namespace, ns) ∷ []))
        (λ observed. pure (instances_of observed))

  unfoldable pub adopt_instances : Namespace → M (Unit {0})
  unfolding adopt_listed instances_of
  adopt_instances ns s =
      next (s, S.list_instance_status s ns)
        (λ existing s'. next (list_instances ns s') (adopt_listed ns (known existing)))

  -- `if let Ok(runtime) = self.new_runtime()`
  abbrev pub adopted_if : Result Error (Unit {0}) → Namespace → M (Unit {0})
  adopted_if (ok _) ns = adopt_instances ns
  adopted_if (err e) ns = pure tt

  module _ (agent : DeployAgent) where
    abbrev pub is_local : InstanceStatusRecord → Bool
    is_local r = r.machine_id == agent.local_machine_id

    unfoldable pub list_local_instance_status : Namespace → M (List InstanceStatusRecord)
    unfolding text_eq
    list_local_instance_status ns s =
        next (s, S.list_instance_status s ns) (λ rs. pure (keep is_local rs))

    unfoldable pub find_local_instance_status :
        Namespace → InstanceId → M (Option InstanceStatusRecord)
    unfolding list_local_instance_status text_eq
    find_local_instance_status ns id s =
        next (list_local_instance_status ns s)
          (λ rs. pure (find (λ (r : InstanceStatusRecord). r.instance_id == id) rs))

    unfoldable pub inspect_namespace : SessionState → M (List InstanceStatusRecord)
    unfolding adopt_instances list_local_instance_status
    inspect_namespace session s =
        next (adopted_if (S.connect s) session.namespace s)
          (λ _. list_local_instance_status session.namespace)
