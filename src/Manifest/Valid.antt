-- ===== src/Manifest/Valid.antt =====
-- What a manifest that passes the validation is like.
use ployz.Prelude.{
  ℕ, ◌≡◌, ◌≢◌, refl, sym, ap, Bool, true, false, some, List, [], ◌∷◌, map, not, ◌||◌, arith, ◌==◌,
  nat_eq, text_eq, is_empty, any, contains, All, All-mono, Distinct,
}
use ployz.Prelude.Text.{Text}
use ployz.Model.Error.{Result, ok, err, ◌>>◌, fail_if, map_err, bind-returned}
use ployz.Model.Spec.{
  Placement, global, replicated, ServicePort, PublishedPort, RouteSpec, ReadinessCheck,
  ReadinessProbe, blue_green, ServiceSpec, DeployManifest,
}
use ployz.Manifest.{
  is_blank, check_placement, check_ports, check_publish, check_routes, check_probe, route_port,
  interval_duration, timeout_duration, start_period_duration, retries, has_no_probe, is_host,
  is_bind,
}

abbrev pub port_names : List ServicePort → List Text
port_names = map (λ (p : ServicePort). p.name)

abbrev pub service_names : List ServiceSpec → List Text
service_names = map (λ (s : ServiceSpec). s.name)

-- Both parts of a sequence of checks pass.
pub passed :
    {B : Type 0} (a : Result Text (Unit {0})) (b : Result Text B) {x : B}
    → (a >> b) ≡ ok x
    → (a ≡ ok tt) × (b ≡ ok x)
passed (ok tt) b h = (refl, h)
passed (err e) b h = cc

pub not_failed : (b : Bool) (e : Text) → fail_if b e ≡ ok tt → b ≡ false
not_failed true e h = cc
not_failed false e h = refl

ok_injective : {A : Type 0} (a b : A) → Path (Result Text A) (ok a) (ok b) → a ≡ b
ok_injective a b h = cc

pub record PortsAre (seen : List Text) (ps : List ServicePort) (out : List Text) : Type 0 where
  pub named : All (λ (p : ServicePort). is_blank p.name ≡ false) ps
  pub new : All (λ (p : ServicePort). contains seen p.name ≡ false) ps
  pub distinct : Distinct (port_names ps)
  pub collected : (x : Text) → contains out x ≡ (contains (port_names ps) x || contains seen x)

names_new :
    (x : Text) (seen : List Text) (ps : List ServicePort)
    → All (λ (p : ServicePort). contains (x ∷ seen) p.name ≡ false) ps
    → contains (port_names ps) x ≡ false
names_new x seen [] h = refl
names_new x seen (p ∷ ps) h = ground (arith, h.0, names_new x seen ps h.1)

pub check_ports_lem :
    (name : Text) (seen : List Text) (ps : List ServicePort) (out : List Text)
    → check_ports name seen ps ≡ ok out
    → PortsAre seen ps out
unfolding check_ports
check_ports_lem name seen [] out h = record {
  named = tt;
  new = tt;
  distinct = tt;
  collected = λ x. ap (λ l. contains l x) (sym (ok_injective seen out h));
}
check_ports_lem name seen (p ∷ ps) out h =
    let (a, c) = passed _ (check_ports name (p.name ∷ seen) ps) h in
    let (b, d) = passed (fail_if (is_blank p.name) _) (fail_if (contains seen p.name) _) a in
    let rest = check_ports_lem name (p.name ∷ seen) ps out c in
    record {
      named = (not_failed (is_blank p.name) _ b, rest.named);
      new = (not_failed (contains seen p.name) _ d, All-mono _ _ ps (λ q m. ground arith) rest.new);
      distinct = (names_new p.name seen ps rest.new, rest.distinct);
      collected = λ x. ground (arith, rest.collected x);
    }

-- The names that a service can refer to.
abbrev pub HasPort : ServiceSpec → Text → Type 0
HasPort s name = contains (port_names s.service_ports) name ≡ true

abbrev pub IsTarget : ServiceSpec → ReadinessCheck → Type 0
IsTarget s (ReadinessCheck.http port path) = HasPort s port
IsTarget s (ReadinessCheck.tcp port) = HasPort s port
IsTarget s (ReadinessCheck.exec command) = is_empty command ≡ false

-- A readiness probe whose durations can be read, with positive interval, timeout and retries.
pub record IsProbe (p : ReadinessProbe) : Type 0 where
  pub interval : (n : ℕ) × (interval_duration p ≡ ok n) × (n ≢ 0)
  pub timeout : (n : ℕ) × (timeout_duration p ≡ ok n) × (n ≢ 0)
  pub start_period : (n : ℕ) × (start_period_duration p ≡ ok n)
  pub positive : retries p ≢ 0

pub record IsBlueGreen (s : ServiceSpec) : Type 0 where
  pub probed : has_no_probe s ≡ false
  pub unpublished : is_empty s.publish ≡ true
  pub not_host : is_host s.network ≡ false
  pub no_binds : any is_bind s.template.volumes ≡ false

pub record IsValidService (s : ServiceSpec) : Type 0 where
  pub named : is_blank s.name ≡ false
  pub replicas : s.placement ≢ replicated 0
  pub ports_named : All (λ (p : ServicePort). is_blank p.name ≡ false) s.service_ports
  pub ports_distinct : Distinct (port_names s.service_ports)
  pub published : All (λ (p : PublishedPort). HasPort s p.service_port) s.publish
  pub routed : All (λ (r : RouteSpec). HasPort s (route_port r)) s.routes
  pub probe : (p : ReadinessProbe) → s.readiness ≡ some p → IsTarget s p.check × IsProbe p
  pub rollout : s.rollout ≡ blue_green → IsBlueGreen s

pub record IsValid (m : DeployManifest) : Type 0 where
  pub namespace : is_blank m.namespace ≡ false
  pub some_service : is_empty m.services ≡ false
  pub services_distinct : Distinct (service_names m.services)
  pub services : All IsValidService m.services

pub check_publish_lem :
    (name : Text) (ports : List Text) (ps : List PublishedPort)
    → check_publish name ports ps ≡ ok tt
    → All (λ (p : PublishedPort). contains ports p.service_port ≡ true) ps
unfolding check_publish
check_publish_lem name ports [] h = tt
check_publish_lem name ports (p ∷ ps) h =
    let (a, b) = passed _ (check_publish name ports ps) h in
    let known = not_failed (not (contains ports p.service_port)) _ a in
    (ground (arith, known), check_publish_lem name ports ps b)

pub check_routes_lem :
    (name : Text) (ports : List Text) (rs : List RouteSpec)
    → check_routes name ports rs ≡ ok tt
    → All (λ (r : RouteSpec). contains ports (route_port r) ≡ true) rs
unfolding check_routes
check_routes_lem name ports [] h = tt
check_routes_lem name ports (r ∷ rs) h =
    let (a, b) = passed _ (check_routes name ports rs) h in
    let known = not_failed (not (contains ports (route_port r))) _ a in
    (ground (arith, known), check_routes_lem name ports rs b)

pub check_placement_lem :
    (name : Text) (p : Placement) → check_placement name p ≡ ok tt → p ≢ replicated 0
unfolding check_placement
check_placement_lem name global h e = cc
check_placement_lem name (replicated count) h e =
    let positive = not_failed (count == 0) _ h in ground (arith, positive)

nonzero : (n : ℕ) (e : Text) → fail_if (n == 0) e ≡ ok tt → n ≢ 0
nonzero n e h z = let positive = not_failed (n == 0) e h in ground (arith, positive)

unmapped : (f : Text → Text) (r : Result Text ℕ) (n : ℕ) → map_err f r ≡ ok n → r ≡ ok n
unmapped f (ok m) n h = h
unmapped f (err e) n h = cc

pub check_probe_lem : (name : Text) (p : ReadinessProbe) → check_probe name p ≡ ok tt → IsProbe p
unfolding check_probe
check_probe_lem name p h =
    let (interval, ei, h1) = bind-returned (map_err _ (interval_duration p)) _ h in
    let (timeout, et, h2) = bind-returned _ _ h1 in
    let (pi, et1) = passed (fail_if (interval == 0) _) (map_err _ (timeout_duration p)) et in
    let (start, es, h3) = bind-returned _ _ h2 in
    let (pt, es1) = passed (fail_if (timeout == 0) _) (map_err _ (start_period_duration p)) es in
    record {
      interval = (interval, unmapped _ (interval_duration p) interval ei, nonzero interval _ pi);
      timeout = (timeout, unmapped _ (timeout_duration p) timeout et1, nonzero timeout _ pt);
      start_period = (start, unmapped _ (start_period_duration p) start es1);
      positive = nonzero (retries p) _ h3;
    }
