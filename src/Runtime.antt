-- ===== src/Runtime.antt =====
-- Containers: their specifications and what Docker reports of them, of
-- crates/ployz-runtime-backends/src/runtime/spec.rs. The names of Docker's restart policies are those
-- of the bollard library, a parameter; of its records the fields that the source sets or reads.
pub mod Labels
pub mod Diff
pub mod Engine
pub mod Workload
use ployz.Prelude.{
  ℕ, Bool, true, false, Option, none, some, List, [], ◌∷◌, ◌++◌, map, Eq, ◌==◌, not, is_empty,
  if◌then◌else◌, nat_eq,
}
use mathlib.Core.Option
use ployz.Prelude.Int.{ℤ, is_positive}
use ployz.Prelude.Map.{Map}
use ployz.Prelude.Text.{Text, codes, split_once, trim_start}
use ployz.Model.Spec.{PullPolicy}

-- `bollard::models::RestartPolicyNameEnum`
pub record PolicyNames : Type 1 where
  pub Name : Type 0
  pub name_eq : Eq Name
  pub no : Name
  pub always : Name
  pub on_failure : Name
  pub unless_stopped : Name

-- `bollard::models::RestartPolicy`
pub record RestartPolicy (N : PolicyNames) : Type 0 where
  pub name : Option N.Name
  pub maximum_retry_count : Option ℤ

-- `bollard::models::PortBinding` and `PortMap`
abbrev pub PortBinding : Type 0
PortBinding = Option Text × Option Text

abbrev pub PortMap : Type 0
PortMap = Map Text (Option (List PortBinding))

module _ (N : PolicyNames) where
  pub record RuntimeContainerSpec : Type 0 where
    pub key : Text
    pub container_name : Text
    pub image : Text
    pub pull_policy : PullPolicy
    pub cmd : Option (List Text)
    pub entrypoint : Option (List Text)
    pub env : List (Text × Text)
    pub labels : Map Text Text
    pub binds : List Text
    pub tmpfs : Map Text Text
    pub dns_servers : List Text
    pub network_mode : Option Text
    pub port_bindings : Option PortMap
    pub exposed_ports : Option (List Text)
    pub cap_add : List Text
    pub cap_drop : List Text
    pub privileged : Bool
    pub user : Option Text
    pub restart_policy : Option (RestartPolicy N)
    pub memory_bytes : Option ℤ
    pub nano_cpus : Option ℤ
    pub sysctls : Map Text Text
    pub stop_timeout : Option ℤ
    pub pid_mode : Option Text

  -- `ip_address` and `networks`, which Docker assigns, are left out.
  pub record ObservedContainer : Type 0 where
    pub container_id : Text
    pub container_name : Text
    pub running : Bool
    pub image : Text
    pub cmd : Option (List Text)
    pub entrypoint : Option (List Text)
    pub env : List (Text × Text)
    pub labels : Map Text Text
    pub binds : List Text
    pub tmpfs : Map Text Text
    pub dns_servers : List Text
    pub network_mode : Option Text
    pub port_bindings : Option PortMap
    pub cap_add : List Text
    pub cap_drop : List Text
    pub privileged : Bool
    pub user : Option Text
    pub restart_policy : Option (RestartPolicy N)
    pub memory_bytes : Option ℤ
    pub nano_cpus : Option ℤ
    pub sysctls : Map Text Text
    pub stop_timeout : Option ℤ
    pub pid_mode : Option Text

  -- The fields of `bollard::models::HostConfig`.
  pub record HostConfig : Type 0 where
    pub binds : Option (List Text)
    pub dns : Option (List Text)
    pub network_mode : Option Text
    pub port_bindings : Option PortMap
    pub cap_add : Option (List Text)
    pub cap_drop : Option (List Text)
    pub privileged : Option Bool
    pub restart_policy : Option (RestartPolicy N)
    pub memory : Option ℤ
    pub nano_cpus : Option ℤ
    pub sysctls : Option (Map Text Text)
    pub tmpfs : Option (Map Text Text)
    pub pid_mode : Option Text

  -- The fields of `bollard::models::ContainerConfig`, and of `ContainerCreateBody` beside its host
  -- configuration.
  pub record ContainerConfig : Type 0 where
    pub image : Option Text
    pub cmd : Option (List Text)
    pub entrypoint : Option (List Text)
    pub env : Option (List Text)
    pub labels : Option (Map Text Text)
    pub user : Option Text
    pub exposed_ports : Option (List Text)
    pub stop_timeout : Option ℤ

  -- The fields of `bollard::models::ContainerInspectResponse`; `running` is that of its state.
  pub record ContainerInspectResponse : Type 0 where
    pub id : Option Text
    pub name : Option Text
    pub running : Option Bool
    pub config : Option ContainerConfig
    pub host_config : Option HostConfig

abbrev pub or_value {ℓ} : {A : Type ℓ} → A → Option A → A
or_value d none = d
or_value d (some a) = a

-- `and_then(|c| c.field)`
abbrev pub and_then {ℓ κ} : {A : Type ℓ} {B : Type κ} → Option A → (A → Option B) → Option B
and_then none f = none
and_then (some a) f = f a

-- `filter(p)` on an option.
abbrev pub filtered {ℓ} : {A : Type ℓ} → (A → Bool) → Option A → Option A
filtered p none = none
filtered p (some a) = if p a then some a else none

-- A variable "KEY=VALUE" of the environment.
unfoldable pub parse_env_pair : Text → Text × Text
unfolding split_once
parse_env_pair s = elim (split_once b'=' s) [ some (k, v) ↦ (k, v) | none ↦ (s, []) ]

abbrev pub container_name_of : Text → Text
container_name_of = trim_start (λ c. c == b'/')

module _ {N : PolicyNames} where
  abbrev pub observe_parts :
      Option Text
      → Option Text
      → Option Bool
      → Option (ContainerConfig N)
      → Option (HostConfig N)
      → ObservedContainer N
  observe_parts id name running config host = record {
    container_id = or_value [] id;
    container_name = or_value [] (Option.map container_name_of name);
    running = or_value false running;
    image = or_value [] (and_then config (λ c. c.image));
    cmd = and_then config (λ c. c.cmd);
    entrypoint = and_then config (λ c. c.entrypoint);
    env = or_value [] (Option.map (map parse_env_pair) (and_then config (λ c. c.env)));
    labels = or_value [] (and_then config (λ c. c.labels));
    binds = or_value [] (and_then host (λ h. h.binds));
    tmpfs = or_value [] (and_then host (λ h. h.tmpfs));
    dns_servers = or_value [] (and_then host (λ h. h.dns));
    network_mode = and_then host (λ h. h.network_mode);
    port_bindings = and_then host (λ h. h.port_bindings);
    cap_add = or_value [] (and_then host (λ h. h.cap_add));
    cap_drop = or_value [] (and_then host (λ h. h.cap_drop));
    privileged = or_value false (and_then host (λ h. h.privileged));
    user = filtered (λ u. not (is_empty u)) (and_then config (λ c. c.user));
    restart_policy = and_then host (λ h. h.restart_policy);
    memory_bytes = filtered is_positive (and_then host (λ h. h.memory));
    nano_cpus = filtered is_positive (and_then host (λ h. h.nano_cpus));
    sysctls = or_value [] (and_then host (λ h. h.sysctls));
    stop_timeout = and_then config (λ c. c.stop_timeout);
    pid_mode = and_then host (λ h. h.pid_mode);
  }

  unfoldable pub observe : ContainerInspectResponse N → ObservedContainer N
  unfolding parse_env_pair trim_start
  observe info = observe_parts info.id info.name info.running info.config info.host_config
