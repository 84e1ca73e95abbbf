-- ===== src/Runtime/Workload.antt =====
-- The container of an instance: LocalDeployRuntime of
-- crates/ployz-runtime-backends/src/deploy/local.rs, with `cpu_nano` of
-- crates/ployz-types/src/spec.rs. An address in text is printed by the standard library, a parameter.
pub mod Ports
pub mod Seconds
pub mod Adopted
use ployz.Prelude.{
  ℕ, ◌-◌, ◌*◌, ◌^◌, Bool, true, false, Option, none, some, List, [], ◌∷◌, ◌++◌, ◌==◌, text_eq,
  nat_eq, find, is_empty, all, ltb, leb, if◌then◌else◌,
}
use mathlib.Core.Option
use ployz.Prelude.Int.{ℤ, pos, negated, scaled, as_i64}
use ployz.Prelude.Map
use ployz.Prelude.Map.{Map}
use ployz.Prelude.Text.{Text, codes, trim, is_ascii_digit}
use ployz.Prelude.Text.Decimal.{decimal}
use ployz.Manifest.Duration.{strip_suffix, digits_value, without_plus}
use ployz.Model.Error.{Error, Result, ok, err, ◌>>=◌}
use ployz.Model.Machine.{MachineId}
use ployz.Model.Service.{
  InstanceId, SlotId, DeployId, InstanceStatusRecord, InstancePhase, DrainState,
}
use ployz.Model.Spec.{
  Namespace, NetworkMode, PortProtocol, tcp, udp, ServicePort, PublishedPort, VolumeMount, bind,
  managed, tmpfs, Resources, ServiceSpec, VolumeSource,
}
use ployz.Model.Spec
use ployz.Runtime.Workload.Ports.{build_port_bindings}
use ployz.Runtime.Workload.Seconds.{parse_duration_secs}
use ployz.Runtime.{PolicyNames, RestartPolicy, PortBinding, PortMap, RuntimeContainerSpec, and_then}
use ployz.Runtime.Labels.{WorkloadMeta, build_workload_labels}

pub record ManagedInstance : Type 0 where
  pub instance_id : InstanceId
  pub service : Text
  pub slot_id : SlotId
  pub machine_id : MachineId
  pub revision_hash : Text
  pub deploy_id : DeployId
  pub docker_container_id : Text
  -- The address when it is one of IPv4.
  pub ipv4_address : Option ℕ
  pub backend_ports : Map Text ℕ

-- `now` is read twice by the source, for two fields of one record.
abbrev pub to_status_record :
    ManagedInstance
    → Namespace
    → InstancePhase
    → Bool
    → DrainState
    → Option Text
    → (started now : ℕ) → InstanceStatusRecord
to_status_record i ns phase is_ready drain_state error started now = record {
  instance_id = i.instance_id;
  namespace = ns;
  service = i.service;
  slot_id = i.slot_id;
  machine_id = i.machine_id;
  revision_hash = i.revision_hash;
  deploy_id = i.deploy_id;
  docker_container_id = i.docker_container_id;
  overlay_ip = i.ipv4_address;
  backend_ports = i.backend_ports;
  phase = phase;
  ready = is_ready;
  drain_state = drain_state;
  error = error;
  started_at = started;
  updated_at = now;
}

pub record StartCandidate : Type 0 where
  pub namespace : Namespace
  pub spec : ServiceSpec
  pub deploy_id : DeployId
  pub instance_id : InstanceId
  pub slot_id : SlotId
  pub machine_id : MachineId
  pub revision_hash : Text

abbrev pub read_only : Bool → Text
read_only true = codes ":ro"
read_only false = []

abbrev pub bind_of : VolumeMount → VolumeSource → List Text
bind_of mount (bind source) =
    (source ++ (codes ":" ++ (mount.target ++ read_only mount.readonly))) ∷ []
bind_of mount (managed volume) =
    (volume.name ++ (codes ":" ++ (mount.target ++ read_only mount.readonly))) ∷ []
bind_of mount tmpfs = []

unfoldable pub build_binds : List VolumeMount → List Text
build_binds [] = []
build_binds (mount ∷ mounts) = bind_of mount mount.source ++ build_binds mounts

abbrev pub with_tmpfs : VolumeMount → VolumeSource → Map Text Text → Map Text Text
with_tmpfs mount tmpfs m = Map.insert mount.target [] m
with_tmpfs mount (bind source) m = m
with_tmpfs mount (managed volume) m = m

unfoldable pub build_tmpfs : List VolumeMount → Map Text Text → Map Text Text
unfolding Map.insert text_eq
build_tmpfs [] m = m
build_tmpfs (mount ∷ mounts) m = build_tmpfs mounts (with_tmpfs mount mount.source m)

abbrev pub workload_dns_servers : NetworkMode → Option Text → List Text
workload_dns_servers NetworkMode.overlay none = []
workload_dns_servers NetworkMode.overlay (some ip) = ip ∷ []
workload_dns_servers _ ip = []

-- `i64::from(m) * 1_000_000` of a number of 32 bits, which fits.
abbrev pub cpu_nano : Resources → Option ℤ
cpu_nano r = Option.map (λ m. pos (m * 1000000)) r.cpu_millicores

-- The texts that the runtime is given for the whole machine; the address of the name server is printed
-- by the standard library.
pub record LocalDeployRuntime : Type 0 where
  pub overlay_network : Option Text
  pub overlay_dns_server : Option Text

abbrev pub container_name_for : Namespace → Text → InstanceId → Text
container_name_for ns service instance_id =
    codes "ployz-" ++ (ns ++ (codes "-" ++ (service ++ (codes "-" ++ instance_id))))

abbrev pub key_for : StartCandidate → Text
key_for r =
    r.namespace
    ++ (codes "/" ++ (r.spec.name ++ (codes "/" ++ (r.slot_id ++ (codes "/" ++ r.instance_id)))))

abbrev pub meta_of : StartCandidate → WorkloadMeta
meta_of r = record {
  namespace = r.namespace;
  service = r.spec.name;
  revision = r.revision_hash;
  deploy_id = r.deploy_id;
  instance_id = r.instance_id;
  slot_id = r.slot_id;
  machine_id = r.machine_id;
}

abbrev pub network_mode_of : LocalDeployRuntime → Namespace → NetworkMode → Option Text
network_mode_of l ns NetworkMode.host = some (codes "host")
network_mode_of l ns NetworkMode.none = some (codes "none")
network_mode_of l ns (NetworkMode.service service) =
    some (codes "container:ployz-" ++ (ns ++ (codes "-" ++ service)))
network_mode_of l ns NetworkMode.overlay = l.overlay_network

module _ (N : PolicyNames) where
  abbrev pub policy_name : Spec.RestartPolicy → N.Name
  policy_name Spec.no_restart = N.no
  policy_name Spec.always = N.always
  policy_name Spec.on_failure = N.on_failure
  policy_name Spec.unless_stopped = N.unless_stopped

  abbrev pub build_restart_policy : Spec.RestartPolicy → RestartPolicy N
  build_restart_policy p = record {
    name = some (policy_name p);
    maximum_retry_count = some (pos 0);
  }

  abbrev pub spec_with :
      LocalDeployRuntime → StartCandidate → Option PortMap → RuntimeContainerSpec N
  spec_with l r ports = record {
    key = key_for r;
    container_name = container_name_for r.namespace r.spec.name r.instance_id;
    image = r.spec.template.image;
    pull_policy = r.spec.template.pull_policy;
    cmd = r.spec.template.command;
    entrypoint = r.spec.template.entrypoint;
    env = r.spec.template.env;
    labels = build_workload_labels (key_for r) (meta_of r) r.spec.labels;
    binds = build_binds r.spec.template.volumes;
    tmpfs = build_tmpfs r.spec.template.volumes [];
    dns_servers = workload_dns_servers r.spec.network l.overlay_dns_server;
    network_mode = network_mode_of l r.namespace r.spec.network;
    port_bindings = ports;
    exposed_ports = none;
    cap_add = r.spec.template.cap_add;
    cap_drop = r.spec.template.cap_drop;
    privileged = r.spec.template.privileged;
    user = r.spec.template.user;
    restart_policy = some (build_restart_policy r.spec.restart);
    memory_bytes = Option.map as_i64 r.spec.template.resources.memory_bytes;
    nano_cpus = cpu_nano r.spec.template.resources;
    sysctls = r.spec.template.sysctls;
    stop_timeout = and_then r.spec.stop_grace_period parse_duration_secs;
    pid_mode = none;
  }

  -- What `start_candidate` asks of the engine.
  unfoldable pub runtime_spec :
      LocalDeployRuntime → StartCandidate → Result Error (RuntimeContainerSpec N)
  unfolding build_port_bindings build_workload_labels build_binds build_tmpfs parse_duration_secs
      as_i64
  runtime_spec l r = build_port_bindings r.spec >>= λ ports. ok (spec_with l r ports)
