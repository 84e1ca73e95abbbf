-- ===== src/Manifest/Accepted.antt =====
-- A manifest that passes the validation is valid.
use ployz.Prelude.{
  ◌≡◌, refl, sym, ◌∙◌, Bool, false, Option, none, some, List, [], ◌∷◌, not, ◌||◌, arith, text_eq,
  is_empty, any, contains, All, All-mono, Distinct,
}
use mathlib.Core.Option.{some-injective}
use ployz.Prelude.{subst}
use ployz.Prelude.Text.{Text}
use ployz.Model.Error.{ok, fail_if, bind-returned}
use ployz.Model.Spec.{
  ReadinessCheck, ReadinessProbe, RolloutStrategy, recreate, blue_green, ServiceSpec,
  DeployManifest,
}
use ployz.Manifest.{
  is_blank, check_placement, check_ports, check_publish, check_routes, check_probed_port,
  check_target, check_probe, check_readiness, check_rollout, validate_service, validate_services,
  validate, route_port, has_no_probe, is_host, is_bind,
}
use ployz.Manifest.Valid.{
  passed, not_failed, check_ports_lem, check_publish_lem, check_routes_lem, check_placement_lem,
  check_probe_lem, IsValid, IsValidService, IsBlueGreen, IsTarget, IsProbe, port_names,
  service_names,
}

module _ (s : ServiceSpec) (ports : List Text)
    (same : (x : Text) → contains ports x ≡ contains (port_names s.service_ports) x) where
  check_target_lem :
      (name : Text) (c : ReadinessCheck) → check_target name ports c ≡ ok tt → IsTarget s c
  unfolding check_target check_probed_port
  check_target_lem name (ReadinessCheck.http port path) h =
      let known = not_failed (not (contains ports port)) _ h in ground (arith, known, same port)
  check_target_lem name (ReadinessCheck.tcp port) h =
      let known = not_failed (not (contains ports port)) _ h in ground (arith, known, same port)
  check_target_lem name (ReadinessCheck.exec command) h = not_failed (is_empty command) _ h

  check_readiness_lem :
      (name : Text) (r : Option ReadinessProbe)
      → check_readiness name ports r ≡ ok tt
      → (p : ReadinessProbe) → r ≡ some p
      → IsTarget s p.check × IsProbe p
  unfolding check_readiness
  check_readiness_lem name none h p e = cc
  check_readiness_lem name (some q) h p e =
      let (a, b) = passed (check_target name ports q.check) (check_probe name q) h in
      subst (λ x. IsTarget s x.check × IsProbe x) (some-injective q p e)
        (check_target_lem name q.check a, check_probe_lem name q b)

check_rollout_lem :
    (s : ServiceSpec) (r : RolloutStrategy)
    → check_rollout s r ≡ ok tt
    → r ≡ blue_green
    → IsBlueGreen s
unfolding check_rollout
check_rollout_lem s recreate h e = cc
check_rollout_lem s blue_green h e =
    let (h1, binds) = passed _ (fail_if (any is_bind s.template.volumes) _) h in
    let (h2, host) = passed _ (fail_if (is_host s.network) _) h1 in
    let (probe, publish) =
      passed (fail_if (has_no_probe s) _) (fail_if (not (is_empty s.publish)) _) h2 in
    let published = not_failed (not (is_empty s.publish)) _ publish in
    record {
      probed = not_failed (has_no_probe s) _ probe;
      unpublished = ground (arith, published);
      not_host = not_failed (is_host s.network) _ host;
      no_binds = not_failed (any is_bind s.template.volumes) _ binds;
    }

or_false : (a b : Bool) → (a || false) ≡ a
or_false a b = ground arith

validate_service-IsValid : (s : ServiceSpec) → validate_service s ≡ ok tt → IsValidService s
unfolding validate_service
validate_service-IsValid s h =
    let (ports, h1, h2) = bind-returned _ _ h in
    let (h3, listed) = passed _ (check_ports s.name [] s.service_ports) h1 in
    let (named, placed) =
      passed (fail_if (is_blank s.name) _) (check_placement s.name s.placement) h3 in
    let (h4, rollout) = passed _ (check_rollout s s.rollout) h2 in
    let (h5, readiness) = passed _ (check_readiness s.name ports s.readiness) h4 in
    let (publish, routes) =
      passed (check_publish s.name ports s.publish) (check_routes s.name ports s.routes) h5 in
    let are = check_ports_lem s.name [] s.service_ports ports listed in
    let same =
      λ (x : Text). are.collected x ∙ or_false (contains (port_names s.service_ports) x) false in
    record {
      named = not_failed (is_blank s.name) _ named;
      replicas = check_placement_lem s.name s.placement placed;
      ports_named = are.named;
      ports_distinct = are.distinct;
      published =
          All-mono _ _ s.publish (λ p k. sym (same p.service_port) ∙ k)
            (check_publish_lem s.name ports s.publish publish);
      routed =
          All-mono _ _ s.routes (λ r k. sym (same (route_port r)) ∙ k)
            (check_routes_lem s.name ports s.routes routes);
      probe = check_readiness_lem s ports same s.name s.readiness readiness;
      rollout = check_rollout_lem s s.rollout rollout;
    }

record ServicesAre (seen : List Text) (ss : List ServiceSpec) : Type 0 where
  new : All (λ (s : ServiceSpec). contains seen s.name ≡ false) ss
  distinct : Distinct (service_names ss)
  valid : All IsValidService ss

names_new :
    (x : Text) (seen : List Text) (ss : List ServiceSpec)
    → All (λ (s : ServiceSpec). contains (x ∷ seen) s.name ≡ false) ss
    → contains (service_names ss) x ≡ false
names_new x seen [] h = refl
names_new x seen (s ∷ ss) h = ground (arith, h.0, names_new x seen ss h.1)

validate_services_lem :
    (seen : List Text) (ss : List ServiceSpec)
    → validate_services seen ss ≡ ok tt
    → ServicesAre seen ss
unfolding validate_services
validate_services_lem seen [] h = record { new = tt; distinct = tt; valid = tt }
validate_services_lem seen (s ∷ ss) h =
    let (a, c) = passed _ (validate_services (s.name ∷ seen) ss) h in
    let (b, d) = passed (fail_if (contains seen s.name) _) (validate_service s) a in
    let rest = validate_services_lem (s.name ∷ seen) ss c in
    record {
      new = (not_failed (contains seen s.name) _ b, All-mono _ _ ss (λ q m. ground arith) rest.new);
      distinct = (names_new s.name seen ss rest.new, rest.distinct);
      valid = (validate_service-IsValid s d, rest.valid);
    }

-- A manifest that `validate` accepts has a namespace and a service, its services have distinct
-- names, and each is valid: it has a name and not zero replicas, ports with distinct names that are
-- not blank, publishes, routes and probes only ports that it has, has a probe with readable
-- durations and a positive interval, timeout and number of retries if it has one, and with a
-- blue-green rollout has a probe, no published port, no host network and no bind mount.
pub validate-IsValid : (m : DeployManifest) → validate m ≡ ok tt → IsValid m
unfolding validate
validate-IsValid m h =
    let (a, c) = passed _ (validate_services [] m.services) h in
    let (b, d) = passed (fail_if (is_blank m.namespace) _) (fail_if (is_empty m.services) _) a in
    let all = validate_services_lem [] m.services c in
    record {
      namespace = not_failed (is_blank m.namespace) _ b;
      some_service = not_failed (is_empty m.services) _ d;
      services_distinct = all.distinct;
      services = all.valid;
    }
