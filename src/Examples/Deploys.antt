-- ===== src/Examples/Deploys.antt =====
-- A manifest and a deploy at concrete inputs. The subnets are numbers.
use ployz.Prelude.{
  ℕ, ◌≡◌, refl, false, none, some, List, [], ◌∷◌, map, arith, text_eq, nat_eq, Distinct,
}
use ployz.Prelude.Text.{codes, trim, trim_end, trim_start, is_whitespace}
use ployz.Model.Error.{ok}
use ployz.Model.Machine.{MachineId, MachineRecord, seed, enabled}
use ployz.Model.Service.{ServiceReleaseSlot}
use ployz.Model.Spec.{
  Placement, global, replicated, NetworkMode, PullPolicy, recreate, unless_stopped, ServiceSpec,
  DeployManifest, PortProtocol,
}
use ployz.Manifest.{
  validate, validate_services, validate_service, is_blank, check_placement, check_ports,
  check_publish, check_routes, check_readiness, check_rollout,
}
use ployz.Manifest.Valid.{IsValid}
use ployz.Manifest.Accepted.{validate-IsValid}
use ployz.Deploy.{DesiredSlot, deployable_machines, desired_slots, candidates_of}
use ployz.Deploy.Machines.{Deployable, deployable_machines-Deployable}
use ployz.Deploy.Slots.{Replicated, slot_ids, desired_slots-Replicated, desired_slots-global}

abbrev pub service : Placement → ServiceSpec
service placement = record {
  name = codes "api";
  placement = placement;
  template = record {
    image = codes "nginx";
    command = none;
    entrypoint = none;
    env = [];
    volumes = [];
    cap_add = [];
    cap_drop = [];
    privileged = false;
    user = none;
    pull_policy = PullPolicy.if_not_present;
    resources = record { cpu_millicores = none; memory_bytes = none };
    sysctls = [];
  };
  network = NetworkMode.overlay;
  service_ports =
      record { name = codes "http"; container_port = 80; protocol = PortProtocol.tcp } ∷ [];
  publish = record { service_port = codes "http"; host_port = 8080; host_ip = none } ∷ [];
  routes = [];
  readiness = none;
  rollout = recreate;
  labels = [];
  stop_grace_period = none;
  restart = unless_stopped;
}

abbrev pub manifest : DeployManifest
manifest = record { namespace = codes "prod"; services = service (replicated 3) ∷ [] }

accepted : validate manifest ≡ ok tt
unfolding validate validate_services validate_service is_blank check_placement check_ports
    check_publish check_routes check_readiness check_rollout trim trim_end trim_start is_whitespace
    text_eq nat_eq
accepted = refl

validate-IsValid_example : IsValid manifest
validate-IsValid_example = validate-IsValid manifest accepted

abbrev current : List ServiceReleaseSlot
current =
    record {
      slot_id = codes "slot-0002";
      machine_id = codes "m9";
      active_instance_id = codes "i";
      revision_hash = codes "r";
    }
    ∷ []

abbrev machines : List MachineId
machines = codes "m1" ∷ codes "m2" ∷ []

desired_slots-Replicated_example :
    (ds : List DesiredSlot) × Replicated (service (replicated 3)) machines (some current) 3 ds
desired_slots-Replicated_example =
    desired_slots-Replicated (service (replicated 3)) machines (some current) 3 refl (omega arith)
      (omega arith)

desired_slots-global_example :
    (ds : List DesiredSlot) × (desired_slots (service global) machines (some current) ≡ ok ds)
    × (map (λ (d : DesiredSlot). d.machine_id) ds ≡ candidates_of machines)
    × (Distinct (candidates_of machines) → Distinct (slot_ids ds))
desired_slots-global_example = desired_slots-global (service global) machines (some current) refl

abbrev pub inventory : List (MachineRecord ℕ)
inventory =
    record (seed (codes "m2") [] 2 none []) { participation = enabled; last_heartbeat = 90 }
    ∷ record (seed (codes "m1") [] 1 none []) { participation = enabled; last_heartbeat = 95 }
    ∷ []

deployable_machines-Deployable_example :
    Deployable inventory (codes "m3") 100 (deployable_machines inventory (codes "m3") 100)
deployable_machines-Deployable_example = deployable_machines-Deployable inventory (codes "m3") 100
