-- ===== src/Manifest.antt =====
-- The validation of a deploy manifest: `validate` of `DeployManifest`, `ServiceSpec` and
-- `ReadinessProbe` in crates/ployz-types/src/spec.rs. A set of names is a list of them.
pub mod Duration
pub mod Valid
pub mod Accepted
pub mod Hash
use ployz.Prelude.{
  ℕ, Bool, true, false, Option, none, some, List, [], ◌∷◌, ◌++◌, not, ◌==◌, nat_eq, text_eq,
  is_empty, any, contains,
}
use ployz.Prelude.Text.{Text, codes, trim}
use ployz.Model.Error.{Result, ok, err, ◌>>=◌, ◌>>◌, fail_if, map_err}
use ployz.Model.Spec.{
  Namespace, Placement, global, replicated, NetworkMode, VolumeSource, VolumeMount, ServicePort,
  PublishedPort, bind, managed, tmpfs, RouteSpec, ReadinessCheck, ReadinessProbe, RolloutStrategy,
  recreate, blue_green, ServiceSpec, DeployManifest,
}
use ployz.Model.Spec
use ployz.Manifest.Duration.{parse_duration}

-- `fqn`
abbrev pub fqn : ServiceSpec → Namespace → Text
fqn s ns = ns ++ codes "/" ++ s.name

-- "service '{name}'" and what follows.
abbrev pub of_service : Text → Text → Text
of_service name rest = codes "service '" ++ name ++ codes "'" ++ rest

abbrev pub quoted : Text → Text
quoted name = codes "'" ++ name ++ codes "'"

unfoldable pub is_blank : Text → Bool
unfolding trim
is_blank s = is_empty (trim s)

unfoldable pub check_placement : Text → Placement → Result Text (Unit {0})
unfolding nat_eq
check_placement name global = ok tt
check_placement name (replicated count) =
    fail_if (count == 0) (of_service name (codes " must request at least one replica"))

-- The names of the ports, when none is blank and none occurs twice.
unfoldable pub check_ports : Text → List Text → List ServicePort → Result Text (List Text)
unfolding is_blank text_eq
check_ports name seen [] = ok seen
check_ports name seen (p ∷ ps) =
    fail_if (is_blank p.name) (of_service name (codes " has a service port with an empty name"))
    >> fail_if (contains seen p.name)
        (of_service name (codes " defines duplicate service port " ++ quoted p.name))
    >> check_ports name (p.name ∷ seen) ps

unfoldable pub check_publish : Text → List Text → List PublishedPort → Result Text (Unit {0})
unfolding text_eq
check_publish name ports [] = ok tt
check_publish name ports (p ∷ ps) =
    fail_if (not (contains ports p.service_port))
      (of_service name (codes " publishes unknown service port " ++ quoted p.service_port))
    >> check_publish name ports ps

abbrev pub route_kind : RouteSpec → Text
route_kind (RouteSpec.http r) = codes "HTTP"
route_kind (RouteSpec.tcp r) = codes "TCP"

abbrev pub route_port : RouteSpec → Text
route_port (RouteSpec.http r) = r.service_port
route_port (RouteSpec.tcp r) = r.service_port

unfoldable pub check_routes : Text → List Text → List RouteSpec → Result Text (Unit {0})
unfolding text_eq
check_routes name ports [] = ok tt
check_routes name ports (r ∷ rs) =
    fail_if (not (contains ports (route_port r))) (
      of_service name (
        codes " "
        ++ route_kind r
        ++ codes " route references unknown service port "
        ++ quoted (route_port r)))
    >> check_routes name ports rs

unfoldable pub check_probed_port : Text → List Text → Text → Result Text (Unit {0})
unfolding text_eq
check_probed_port name ports port =
    fail_if (not (contains ports port))
      (of_service name (codes " readiness probe references unknown service port " ++ quoted port))

unfoldable pub check_target : Text → List Text → ReadinessCheck → Result Text (Unit {0})
unfolding check_probed_port
check_target name ports (ReadinessCheck.http port path) = check_probed_port name ports port
check_target name ports (ReadinessCheck.tcp port) = check_probed_port name ports port
check_target name ports (ReadinessCheck.exec command) =
    fail_if (is_empty command)
      (of_service name (codes " exec readiness probe must define at least one argument"))

-- A duration that may be left out, in milliseconds.
unfoldable pub duration_or : Option Text → ℕ → Result Text ℕ
unfolding parse_duration
duration_or none default = ok default
duration_or (some value) default = parse_duration value

abbrev pub interval_duration : ReadinessProbe → Result Text ℕ
interval_duration p = duration_or p.interval 30000

abbrev pub timeout_duration : ReadinessProbe → Result Text ℕ
timeout_duration p = duration_or p.timeout 30000

abbrev pub start_period_duration : ReadinessProbe → Result Text ℕ
start_period_duration p = duration_or p.start_period 0

abbrev pub retries : ReadinessProbe → ℕ
retries p = elim p.retries [ none ↦ 3 | some n ↦ n ]

-- `ReadinessProbe::validate`
unfoldable pub check_probe : Text → ReadinessProbe → Result Text (Unit {0})
unfolding duration_or nat_eq
check_probe name p =
    map_err (λ e. of_service name (codes " readiness interval " ++ e)) (interval_duration p)
    >>= λ interval.
        fail_if (interval == 0)
          (of_service name (codes " readiness interval must be greater than zero"))
        >> map_err (λ e. of_service name (codes " readiness timeout " ++ e)) (timeout_duration p)
        >>= λ timeout.
            fail_if (timeout == 0)
              (of_service name (codes " readiness timeout must be greater than zero"))
            >> map_err (λ e. of_service name (codes " readiness start_period " ++ e))
                (start_period_duration p)
            >>= λ start_period.
                fail_if (retries p == 0)
                  (of_service name (codes " readiness retries must be greater than zero"))

unfoldable pub check_readiness : Text → List Text → Option ReadinessProbe → Result Text (Unit {0})
unfolding check_target check_probe
check_readiness name ports none = ok tt
check_readiness name ports (some p) = check_target name ports p.check >> check_probe name p

abbrev pub has_no_probe : ServiceSpec → Bool
has_no_probe s = elim s.readiness [ none ↦ true | some p ↦ false ]

abbrev pub is_host : NetworkMode → Bool
is_host NetworkMode.host = true
is_host NetworkMode.overlay = false
is_host (NetworkMode.service name) = false
is_host NetworkMode.none = false

abbrev pub is_bind : VolumeMount → Bool
is_bind m = elim m.source [ bind path ↦ true | managed v ↦ false | tmpfs ↦ false ]

unfoldable pub check_rollout : ServiceSpec → RolloutStrategy → Result Text (Unit {0})
check_rollout s recreate = ok tt
check_rollout s blue_green =
    fail_if (has_no_probe s)
      (of_service s.name (codes " uses blue_green rollout but does not define readiness"))
    >> fail_if (not (is_empty s.publish))
        (of_service s.name (codes " cannot use blue_green rollout with published host ports"))
    >> fail_if (is_host s.network)
        (of_service s.name (codes " cannot use blue_green rollout with host networking"))
    >> fail_if (any is_bind s.template.volumes)
        (of_service s.name (codes " cannot use blue_green rollout with bind mounts"))

-- `ServiceSpec::validate`
unfoldable pub validate_service : ServiceSpec → Result Text (Unit {0})
unfolding is_blank check_placement check_ports check_publish check_routes check_readiness
    check_rollout
validate_service s =
    fail_if (is_blank s.name) (codes "service name cannot be empty")
    >> check_placement s.name s.placement
    >> check_ports s.name [] s.service_ports
    >>= λ ports.
        check_publish s.name ports s.publish
        >> check_routes s.name ports s.routes
        >> check_readiness s.name ports s.readiness
        >> check_rollout s s.rollout

unfoldable pub validate_services : List Text → List ServiceSpec → Result Text (Unit {0})
unfolding validate_service text_eq
validate_services seen [] = ok tt
validate_services seen (s ∷ ss) =
    fail_if (contains seen s.name) (codes "manifest contains duplicate service " ++ quoted s.name)
    >> validate_service s
    >> validate_services (s.name ∷ seen) ss

-- `DeployManifest::validate`
unfoldable pub validate : DeployManifest → Result Text (Unit {0})
unfolding is_blank validate_services
validate m =
    fail_if (is_blank m.namespace) (codes "manifest namespace cannot be empty")
    >> fail_if (is_empty m.services) (codes "manifest must contain at least one service")
    >> validate_services [] m.services
