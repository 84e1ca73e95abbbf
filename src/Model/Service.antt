-- ===== src/Model/Service.antt =====
-- Services, their revisions, releases and instances, and the plans of a deploy:
-- crates/ployz-types/src/model.rs.
use ployz.Prelude.{ℕ, Option, Bool, List, Eq}
use ployz.Prelude.Map.{Map}
use ployz.Prelude.Text.{Text}
use ployz.Model.Machine.{MachineId}
use ployz.Model.Spec.{Namespace}

abbrev pub InstanceId : Type 0
InstanceId = Text

abbrev pub DeployId : Type 0
DeployId = Text

abbrev pub SlotId : Type 0
SlotId = Text

pub record InviteRecord : Type 0 where
  pub id : Text
  pub expires_at : ℕ

pub record ServiceRevisionRecord : Type 0 where
  pub namespace : Namespace
  pub service : Text
  pub revision_hash : Text
  pub spec_json : Text
  pub created_by : MachineId
  pub created_at : ℕ

pub record ServiceTrafficAllocation : Type 0 where
  pub revision_hash : Text
  pub percent : ℕ
  pub label : Option Text

pub data ServiceRoutingPolicy : Type 0 where
  direct : (revision_hash : Text) → ServiceRoutingPolicy
  traffic_split : (allocations : List ServiceTrafficAllocation) → ServiceRoutingPolicy

pub record ServiceReleaseSlot : Type 0 where
  pub slot_id : SlotId
  pub machine_id : MachineId
  pub active_instance_id : InstanceId
  pub revision_hash : Text

pub record ServiceRelease : Type 0 where
  pub primary_revision_hash : Text
  pub referenced_revision_hashes : List Text
  pub routing : ServiceRoutingPolicy
  pub slots : List ServiceReleaseSlot
  pub updated_by_deploy_id : DeployId
  pub updated_at : ℕ

pub record ServiceReleaseRecord : Type 0 where
  pub namespace : Namespace
  pub service : Text
  pub release : ServiceRelease

pub data InstancePhase : Type 0 where
  pending starting ready failed draining removed : InstancePhase

pub data DrainState : Type 0 where
  none requested complete : DrainState

pub data DeployState : Type 0 where
  planning applying committed cleanup_pending failed : DeployState

pub data DeployChangeKind : Type 0 where
  create replace remove unchanged : DeployChangeKind

InstancePhase-discrete : Discrete InstancePhase
InstancePhase-discrete = hlevel

DrainState-discrete : Discrete DrainState
DrainState-discrete = hlevel

DeployChangeKind-discrete : Discrete DeployChangeKind
DeployChangeKind-discrete = hlevel

instance unfoldable pub phase_eq : Eq InstancePhase
unfolding InstancePhase-discrete
phase_eq = record { dec = InstancePhase-discrete }

instance unfoldable pub drain_eq : Eq DrainState
unfolding DrainState-discrete
drain_eq = record { dec = DrainState-discrete }

instance unfoldable pub change_eq : Eq DeployChangeKind
unfolding DeployChangeKind-discrete
change_eq = record { dec = DeployChangeKind-discrete }

-- `overlay_ip` is an IPv4 address, a number of 32 bits; a port has 16 bits.
pub record InstanceStatusRecord : Type 0 where
  pub instance_id : InstanceId
  pub namespace : Namespace
  pub service : Text
  pub slot_id : SlotId
  pub machine_id : MachineId
  pub revision_hash : Text
  pub deploy_id : DeployId
  pub docker_container_id : Text
  pub overlay_ip : Option ℕ
  pub backend_ports : Map Text ℕ
  pub phase : InstancePhase
  pub ready : Bool
  pub drain_state : DrainState
  pub error : Option Text
  pub started_at : ℕ
  pub updated_at : ℕ

pub record RoutingState : Type 0 where
  pub revisions : List ServiceRevisionRecord
  pub releases : List ServiceReleaseRecord
  pub instances : List InstanceStatusRecord

pub record DeployRecord : Type 0 where
  pub deploy_id : DeployId
  pub namespace : Namespace
  pub coordinator_machine_id : MachineId
  pub manifest_hash : Text
  pub state : DeployState
  pub started_at : ℕ
  pub committed_at : Option ℕ
  pub finished_at : Option ℕ
  pub summary_json : Text

pub record SlotPlan : Type 0 where
  pub slot_id : SlotId
  pub machine_id : MachineId
  pub current_instance_id : Option InstanceId
  pub next_instance_id : Option InstanceId
  pub current_revision_hash : Option Text
  pub next_revision_hash : Option Text
  pub action : DeployChangeKind

pub record ServicePlan : Type 0 where
  pub service : Text
  pub current_revision_hash : Option Text
  pub next_revision_hash : Option Text
  pub slots : List SlotPlan
  pub action : DeployChangeKind

pub record DeployPreview : Type 0 where
  pub namespace : Namespace
  pub manifest_hash : Text
  pub participants : List MachineId
  pub services : List ServicePlan
  pub warnings : List Text

pub record DeployEvent : Type 0 where
  pub step : Text
  pub message : Text

pub record DeployApplyResult : Type 0 where
  pub deploy_id : DeployId
  pub preview : DeployPreview
  pub state : DeployState
  pub events : List DeployEvent

-- crates/ployz-store-api/src/traits.rs
pub record DeployCommit : Type 0 where
  pub namespace : Namespace
  pub removed_services : List Text
  pub releases : List ServiceReleaseRecord
  pub deploy : DeployRecord
