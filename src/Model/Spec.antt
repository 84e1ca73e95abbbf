-- ===== src/Model/Spec.antt =====
-- The manifest and the service specification: crates/ployz-types/src/spec.rs.
use ployz.Prelude.{ℕ, Option, Bool, List}
use ployz.Prelude.Map.{Map}
use ployz.Prelude.Text.{Text}

abbrev pub Namespace : Type 0
Namespace = Text

pub data Placement : Type 0 where
  global : Placement
  replicated : (count : ℕ) → Placement

pub data NetworkMode : Type 0 where
  overlay : NetworkMode
  service : Text → NetworkMode
  host : NetworkMode
  none : NetworkMode

pub data PortProtocol : Type 0 where
  tcp udp : PortProtocol

pub data PullPolicy : Type 0 where
  if_not_present always never : PullPolicy

pub data RolloutStrategy : Type 0 where
  recreate blue_green : RolloutStrategy

pub data RestartPolicy : Type 0 where
  unless_stopped always on_failure no_restart : RestartPolicy

pub record Resources : Type 0 where
  pub cpu_millicores : Option ℕ
  pub memory_bytes : Option ℕ

pub record ManagedVolumeSpec : Type 0 where
  pub name : Text
  pub driver : Option Text
  pub options : Map Text Text

pub data VolumeSource : Type 0 where
  bind : Text → VolumeSource
  managed : ManagedVolumeSpec → VolumeSource
  tmpfs : VolumeSource

pub record VolumeMount : Type 0 where
  pub source : VolumeSource
  pub target : Text
  pub readonly : Bool

pub record ContainerSpec : Type 0 where
  pub image : Text
  pub command : Option (List Text)
  pub entrypoint : Option (List Text)
  pub env : Map Text Text
  pub volumes : List VolumeMount
  pub cap_add : List Text
  pub cap_drop : List Text
  pub privileged : Bool
  pub user : Option Text
  pub pull_policy : PullPolicy
  pub resources : Resources
  pub sysctls : Map Text Text

pub record ServicePort : Type 0 where
  pub name : Text
  pub container_port : ℕ
  pub protocol : PortProtocol

pub record PublishedPort : Type 0 where
  pub service_port : Text
  pub host_port : ℕ
  pub host_ip : Option Text

pub record HttpRoute : Type 0 where
  pub service_port : Text
  pub hostnames : List Text
  pub path_prefix : Text

pub record TcpRoute : Type 0 where
  pub service_port : Text
  pub listen_port : ℕ

pub data RouteSpec : Type 0 where
  http : HttpRoute → RouteSpec
  tcp : TcpRoute → RouteSpec

pub data ReadinessCheck : Type 0 where
  http : (service_port path : Text) → ReadinessCheck
  tcp : (service_port : Text) → ReadinessCheck
  exec : (command : List Text) → ReadinessCheck

pub record ReadinessProbe : Type 0 where
  pub check : ReadinessCheck
  pub interval : Option Text
  pub timeout : Option Text
  pub retries : Option ℕ
  pub start_period : Option Text

pub record ServiceSpec : Type 0 where
  pub name : Text
  pub placement : Placement
  pub template : ContainerSpec
  pub network : NetworkMode
  pub service_ports : List ServicePort
  pub publish : List PublishedPort
  pub routes : List RouteSpec
  pub readiness : Option ReadinessProbe
  pub rollout : RolloutStrategy
  pub labels : Map Text Text
  pub stop_grace_period : Option Text
  pub restart : RestartPolicy

pub record DeployManifest : Type 0 where
  pub namespace : Namespace
  pub services : List ServiceSpec
