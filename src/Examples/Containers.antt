-- ===== src/Examples/Containers.antt =====
-- A container that a machine is asked for twice, the labels of an instance, and two deploys of a
-- namespace. Restart policies are numbers.
use ployz.Prelude.{
  ℕ, ◌≡◌, ◌≢◌, refl, sym, ap, arith, ◌∙◌, option_eq, true, false, Option, none, some, [], ◌∷◌,
  contains, Distinct, nat_eq, text_eq, ◌↔◌,
}
use mathlib.Core.Option
use ployz.Prelude.Map
use ployz.Prelude.Text.{Text, codes}
use ployz.Manifest.Duration.{strip_text}
use ployz.Model.Error.{Result, ok, err, is_ok}
use ployz.Model.Spec.{PullPolicy, Namespace, global}
use ployz.Model.Service.{DeployId}
use ployz.Runtime.{
  PolicyNames, RestartPolicy, or_value, PortMap, RuntimeContainerSpec, HostConfig, ContainerConfig,
  ContainerInspectResponse, observe,
}
use ployz.Runtime.Diff.{network_mode_equal, in_sync, eval_spec_change}
use ployz.Runtime.Diff.Agreement.{Agrees, eval_spec_change-in_sync_iff}
use ployz.Runtime.Engine.{
  next, Docker, EnsureResult, adopted, created, ensure, host_config, container_config,
}
use ployz.Runtime.Engine.Converges.{IsCanonical, Reports, ensure-adopts}
use ployz.Runtime.Labels.{
  WorkloadMeta, build_workload_labels, extract_workload_labels, label_instance,
}
use ployz.Runtime.Labels.Extracted.{extract-build_workload_labels}
use ployz.Runtime.Workload.{LocalDeployRuntime, StartCandidate, runtime_spec, spec_with}
use ployz.Runtime.Workload.Adopted.{AreNamed, IsPlain, runtime_spec-adopted}
use ployz.Examples.Deploys.{service}
use ployz.Session.Locks.{already_locked, try_acquire}
use ployz.Session.Locks.Exclusion.{Sessions, Step, Reach, namespaces, Reach-exclusive}

abbrev pub policies : PolicyNames
policies = record {
  Name = ℕ;
  name_eq = nat_eq;
  no = 0;
  always = 1;
  on_failure = 2;
  unless_stopped = 3;
}

abbrev spec : RuntimeContainerSpec policies
spec = record {
  key = codes "prod/api/slot-0001/i1";
  container_name = codes "ployz-prod-api-i1";
  image = codes "api:1";
  pull_policy = PullPolicy.if_not_present;
  cmd = none;
  entrypoint = none;
  env = (codes "A", codes "1=2") ∷ (codes "B", codes "") ∷ [];
  labels = [];
  binds = codes "/a:/b" ∷ [];
  tmpfs = [];
  dns_servers = [];
  network_mode = some (codes "host");
  port_bindings = none;
  exposed_ports = none;
  cap_add = [];
  cap_drop = [];
  privileged = false;
  user = none;
  restart_policy = some (record { name = some 1; maximum_retry_count = none });
  memory_bytes = none;
  nano_cpus = none;
  sysctls = [];
  stop_timeout = none;
  pid_mode = none;
}

abbrev running : ContainerInspectResponse policies
running = record {
  id = some (codes "c1");
  name = some (codes "/ployz-prod-api-i1");
  running = some true;
  config = some (record (container_config spec none) {
    env = some (codes "PATH=/bin" ∷ codes "B=" ∷ codes "A=1=2" ∷ []);
  });
  host_config = some (host_config spec);
}

eval_spec_change-in_sync_iff_example :
    (eval_spec_change (some (observe running)) spec ≡ in_sync)
    ↔ (((observe running).running ≡ true) × Agrees (observe running) spec)
eval_spec_change-in_sync_iff_example = eval_spec_change-in_sync_iff (observe running) spec

in_sync_test : eval_spec_change (some (observe running)) spec ≡ in_sync
unfolding eval_spec_change observe container_config host_config
in_sync_test = refl

-- Two modes that name a container are the same, other modes are not.
container_modes :
    network_mode_equal (some (codes "container:abc")) (some (codes "container:xyz")) ≡ true
unfolding network_mode_equal
container_modes = refl

other_modes : network_mode_equal (some (codes "con")) (some (codes "c")) ≡ false
unfolding network_mode_equal
other_modes = refl

-- A machine with one container at most, which runs once it is created.
abbrev Machine : Type 0
Machine = Option (ContainerConfig policies × HostConfig policies)

abbrev report : ContainerConfig policies × HostConfig policies → ContainerInspectResponse policies
report (c, h) = record {
  id = some (codes "c1");
  name = none;
  running = some true;
  config = some c;
  host_config = some h;
}

abbrev docker : Docker policies
docker = record {
  State = Machine;
  not_found = codes "404";
  inspect_container = λ s name. ok (Option.map report s);
  has_image = λ s image. true;
  pull = λ s image. s;
  force_remove = λ s name. none;
  create_container = λ s name c h. (some (c, h), ok tt);
  start_container = λ s name. (s, ok tt);
}

docker-Reports : Reports docker
docker-Reports = record {
  started = λ s s1 s2 name c h made began.
      let kept =
        ap (λ (x : Machine × Result Text (Unit {0})). x.0) made
        ∙ ap (λ (x : Machine × Result Text (Unit {0})). x.0) began in
      (report (c, h), ap (λ m. ok (Option.map report m)) (sym kept), refl, refl, refl);
}

restarts_always : ◌≢◌ {A = Option ℕ} (some 1) (some 0)
restarts_always e = omega (arith, ap (or_value 0) e)

spec-IsCanonical : IsCanonical spec
unfolding option_eq nat_eq
spec-IsCanonical = record {
  names = (refl, (refl, tt));
  tmpfs = tt;
  sysctls = tt;
  ports = tt;
  user = refl;
  memory = refl;
  cpus = refl;
  restarts = λ p e h.
      restarts_always (ap (λ (q : RestartPolicy policies). q.name) (ap (or_value p) e) ∙ h.0);
}

abbrev made : EnsureResult
made = record { container_id = codes "c1"; container_name = spec.container_name; action = created }

ensure-created :
    ensure docker spec none ≡ (some (container_config spec none, host_config spec), ok made)
unfolding ensure next
ensure-created = refl

ensure-adopts_example :
    (r : EnsureResult) × (ensure docker spec (some (container_config spec none, host_config spec))
      ≡ (some (container_config spec none, host_config spec), ok r))
    × (r.action ≡ adopted)
unfolding strip_text
ensure-adopts_example =
    ensure-adopts docker spec none (some (container_config spec none, host_config spec)) made
      docker-Reports spec-IsCanonical refl ensure-created

abbrev meta : WorkloadMeta
meta = record {
  namespace = codes "prod";
  service = codes "api";
  revision = codes "r1";
  deploy_id = codes "d1";
  instance_id = codes "i1";
  slot_id = codes "slot-0001";
  machine_id = codes "m1";
}

abbrev pub local : LocalDeployRuntime
local = record { overlay_network = none; overlay_dns_server = none }

extract-build_workload_labels_example :
    extract_workload_labels (
      build_workload_labels
        (codes "k")
        meta
        ((label_instance, codes "i2") ∷ (codes "team", codes "a") ∷ []))
    ≡ some (record {
      instance_id = codes "i2";
      service = codes "api";
      slot_id = codes "slot-0001";
      machine_id = codes "m1";
      revision_hash = codes "r1";
      deploy_id = codes "d1";
    })
unfolding text_eq Map.get
extract-build_workload_labels_example =
    extract-build_workload_labels (codes "k") meta
      ((label_instance, codes "i2") ∷ (codes "team", codes "a") ∷ []) (refl, (refl, tt))

abbrev prod : Namespace
prod = codes "prod"

abbrev idle : Sessions
idle = record { held = []; opens = [] }

-- One deploy has opened its session, and a second has been refused.
abbrev busy : Sessions
busy = record {
  held = (prod, codes "d1") ∷ [];
  opens = record { lock = record { namespace = prod }; deploy_id = codes "d1" } ∷ [];
}

first_acquires : try_acquire [] prod (codes "d1") ≡ (busy.held, ok (record { namespace = prod }))
unfolding try_acquire
first_acquires = refl

second_is_refused :
    try_acquire busy.held prod (codes "d2") ≡ (busy.held, err (already_locked prod (codes "d1")))
unfolding try_acquire
second_is_refused = refl

abbrev first : Step idle busy
first = Step.opened prod (codes "d1") busy.held (record { namespace = prod }) first_acquires

abbrev second : Step busy busy
second =
    Step.refused prod (codes "d2") busy.held (already_locked prod (codes "d1")) second_is_refused

Reach-exclusive_example :
    Distinct (namespaces busy.opens)
    × ((ns : Namespace) (d : DeployId)
        → (is_ok (try_acquire busy.held ns d).1 ≡ true)
          ↔ (contains (namespaces busy.opens) ns ≡ false))
Reach-exclusive_example = Reach-exclusive (Reach.later (Reach.later Reach.start first) second)

abbrev candidate : StartCandidate
candidate = record {
  namespace = prod;
  spec = service global;
  deploy_id = codes "d1";
  instance_id = codes "i1";
  slot_id = codes "slot-0001";
  machine_id = codes "m1";
  revision_hash = codes "r1";
}

abbrev ports : PortMap
ports = (codes "80/tcp", some ((none, some (codes "8080")) ∷ [])) ∷ []

abbrev asked : RuntimeContainerSpec policies
asked = spec_with policies local candidate (some ports)

candidate-asked : runtime_spec policies local candidate ≡ ok asked
unfolding runtime_spec
candidate-asked = refl

abbrev started : Machine
started = some (container_config asked none, host_config asked)

abbrev first_result : EnsureResult
first_result = record {
  container_id = codes "c1";
  container_name = asked.container_name;
  action = created;
}

candidate-created : ensure docker asked none ≡ (started, ok first_result)
unfolding ensure next
candidate-created = refl

service-IsPlain : IsPlain (service global)
service-IsPlain = record {
  names = tt;
  sysctls = tt;
  user = λ e. cc e;
  memory = (omega arith, omega arith);
  cpus = omega arith;
  restart = λ e. cc e;
}

policies-AreNamed : AreNamed policies
policies-AreNamed = record {
  always = λ e. omega arith;
  on_failure = λ e. omega arith;
  unless_stopped = λ e. omega arith;
}

runtime_spec-adopted_example :
    (r : EnsureResult) × (ensure docker asked started ≡ (started, ok r)) × (r.action ≡ adopted)
runtime_spec-adopted_example =
    runtime_spec-adopted docker local candidate asked none started first_result docker-Reports
      policies-AreNamed service-IsPlain refl candidate-asked candidate-created
