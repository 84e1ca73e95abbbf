-- ===== src/Runtime/Workload/Adopted.antt =====
-- A candidate that is started again.
use ployz.Prelude.{
  ◌≡◌, ◌≢◌, refl, ap, subst, ℕ, ◌<◌, ◌^◌, ◌*◌, Bool, true, false, Option, none, some, List, [], ◌∷◌,
  text_eq, nat_eq, option_eq, not, is_empty, arith, if◌then◌else◌,
}
use mathlib.Core.Option
use ployz.Prelude.Int.{pos, is_positive, as_i64, int_eq}
use ployz.Prelude.Map
use ployz.Prelude.Map.{Map, DistinctKeys, insert-DistinctKeys}
use ployz.Prelude.Text.{Text}
use ployz.Prelude.Text.Decimal.{decimal}
use ployz.Model.Error.{Error, Result, ok, err, bind-returned, ok_injective, ◌>>=◌}
use ployz.Model.Spec.{
  VolumeMount, VolumeSource, bind, managed, tmpfs, ServiceSpec, PublishedPort, ServicePort,
}
use ployz.Model.Spec
use ployz.Runtime.{PolicyNames, PortBinding, PortMap, RuntimeContainerSpec, filtered, or_value}
use ployz.Runtime.Diff.Parts.{NeverRestarts}
use ployz.Runtime.Engine.{Docker, EnsureResult, ensure, adopted, parent_name}
use ployz.Runtime.Engine.Converges.{IsCanonical, Reports, AreNames, DistinctPorts, ensure-adopts}
use ployz.Runtime.Workload.Ports.{
  build_port_bindings, bind_ports, add_binding, port_key, push_binding, known_port, port_named,
  unknown_port,
}
use ployz.Runtime.Workload.{
  LocalDeployRuntime, StartCandidate, build_tmpfs, with_tmpfs, network_mode_of, runtime_spec,
  spec_with, build_restart_policy,
}

with_tmpfs-DistinctKeys :
    (mount : VolumeMount) (source : VolumeSource) (m : Map Text Text)
    → DistinctKeys m
    → DistinctKeys (with_tmpfs mount source m)
with_tmpfs-DistinctKeys mount (bind source) m u = u
with_tmpfs-DistinctKeys mount (managed volume) m u = u
with_tmpfs-DistinctKeys mount tmpfs m u = insert-DistinctKeys mount.target [] m u

build_tmpfs-DistinctKeys :
    (mounts : List VolumeMount) (m : Map Text Text)
    → DistinctKeys m
    → DistinctKeys (build_tmpfs mounts m)
unfolding build_tmpfs
build_tmpfs-DistinctKeys [] m u = u
build_tmpfs-DistinctKeys (mount ∷ mounts) m u =
    build_tmpfs-DistinctKeys mounts (with_tmpfs mount mount.source m)
      (with_tmpfs-DistinctKeys mount mount.source m u)

push_binding-DistinctKeys :
    (key : Text) (b : PortBinding) (m m' : PortMap) (o : Option (Option (List PortBinding)))
    → DistinctKeys m
    → push_binding key b m o ≡ ok m'
    → DistinctKeys m'
push_binding-DistinctKeys key b m m' none u h =
    subst (λ (x : PortMap). DistinctKeys x) (ok_injective h) (insert-DistinctKeys key _ m u)
push_binding-DistinctKeys key b m m' (some (some items)) u h =
    subst (λ (x : PortMap). DistinctKeys x) (ok_injective h) (insert-DistinctKeys key _ m u)
push_binding-DistinctKeys key b m m' (some none) u h = cc

add_binding-DistinctKeys :
    (published : PublishedPort) (m m' : PortMap) (port : ServicePort)
    → DistinctKeys m
    → add_binding published m port ≡ ok m'
    → DistinctKeys m'
unfolding add_binding
add_binding-DistinctKeys published m m' port u h =
    push_binding-DistinctKeys (port_key port)
      (published.host_ip, some (decimal published.host_port)) m m' (Map.get (port_key port) m) u h

bind_ports-DistinctKeys :
    (spec : ServiceSpec) (ports : List PublishedPort) (m m' : PortMap)
    → DistinctKeys m
    → bind_ports spec ports m ≡ ok m'
    → DistinctKeys m'
unfolding bind_ports
bind_ports-DistinctKeys spec [] m m' u h =
    subst (λ (x : PortMap). DistinctKeys x) (ok_injective h) u
bind_ports-DistinctKeys spec (p ∷ ports) m m' u h =
    let (port, known, h1) =
      bind-returned
        (known_port (unknown_port spec p) (port_named p.service_port spec.service_ports))
        (λ port. add_binding p m port >>= bind_ports spec ports) h in
    let (m1, added, h2) = bind-returned (add_binding p m port) (bind_ports spec ports) h1 in
    bind_ports-DistinctKeys spec ports m1 m' (add_binding-DistinctKeys p m m1 port u added) h2

optional-DistinctPorts :
    (nothing : Bool) (bindings : Result Error PortMap) (ports : Option PortMap)
    → ((m : PortMap) → bindings ≡ ok m → DistinctKeys m)
    → (if nothing then ok none else (bindings >>= λ m. ok (some m))) ≡ ok ports
    → DistinctPorts ports
optional-DistinctPorts true bindings ports f h = subst DistinctPorts (ok_injective h) tt
optional-DistinctPorts false (ok m) ports f h = subst DistinctPorts (ok_injective h) (f m refl)
optional-DistinctPorts false (err e) ports f h = cc

build_port_bindings-DistinctPorts :
    (spec : ServiceSpec) (ports : Option PortMap)
    → build_port_bindings spec ≡ ok ports
    → DistinctPorts ports
unfolding build_port_bindings
build_port_bindings-DistinctPorts spec ports h =
    optional-DistinctPorts (is_empty spec.publish) (bind_ports spec spec.publish []) ports
      (λ m e. bind_ports-DistinctKeys spec spec.publish [] m tt e) h

-- Docker's policy that never restarts is not one of the others.
pub record AreNamed (N : PolicyNames) : Type 0 where
  pub always : N.always ≢ N.no
  pub on_failure : N.on_failure ≢ N.no
  pub unless_stopped : N.unless_stopped ≢ N.no

-- A service that Docker can report as it is: the names of its variables have no equals sign, its maps
-- have one entry for a key, its user is not the empty text, what it limits is limited to a positive
-- number of 63 bits, and it restarts.
pub record IsPlain (spec : ServiceSpec) : Type 0 where
  pub names : AreNames spec.template.env
  pub sysctls : DistinctKeys spec.template.sysctls
  pub user : spec.template.user ≢ some []
  pub memory :
      (0 < or_value 1 spec.template.resources.memory_bytes)
      × (or_value 1 spec.template.resources.memory_bytes < 2 ^ 63)
  pub cpus : 0 < or_value 1 spec.template.resources.cpu_millicores
  pub restart : spec.restart ≢ Spec.no_restart

plain_user : (u : Option Text) → u ≢ some [] → filtered (λ u. not (is_empty u)) u ≡ u
plain_user none n = refl
plain_user (some []) n = absurd (n refl)
plain_user (some (c ∷ cs)) n = refl

plain_memory :
    (m : Option ℕ)
    → 0 < or_value 1 m
    → or_value 1 m < 2 ^ 63
    → filtered is_positive (Option.map as_i64 m) ≡ Option.map as_i64 m
unfolding as_i64
plain_memory none low high = refl
plain_memory (some m) low high = ground arith

plain_cpus :
    (m : Option ℕ)
    → 0 < or_value 1 m
    → filtered is_positive (Option.map (λ m. pos (m * 1000000)) m)
      ≡ Option.map (λ m. pos (m * 1000000)) m
plain_cpus none low = refl
plain_cpus (some m) low = ground arith

module _ {N : PolicyNames} where
  plain_restart :
      (p : Spec.RestartPolicy)
      → AreNamed N
      → p ≢ Spec.no_restart
      → ¬ NeverRestarts (build_restart_policy N p)
  plain_restart Spec.no_restart named n h = n refl
  plain_restart Spec.always named n h = named.always (ap (or_value N.always) h.0)
  plain_restart Spec.on_failure named n h = named.on_failure (ap (or_value N.on_failure) h.0)
  plain_restart Spec.unless_stopped named n h =
      named.unless_stopped (ap (or_value N.unless_stopped) h.0)

  runtime_spec-IsCanonical :
      (l : LocalDeployRuntime) (r : StartCandidate) (d : RuntimeContainerSpec N)
      → AreNamed N
      → IsPlain r.spec
      → runtime_spec N l r ≡ ok d
      → IsCanonical d
  unfolding runtime_spec
  runtime_spec-IsCanonical l r d named plain h =
      let (ports, bindings, made) =
        bind-returned (build_port_bindings r.spec) (λ ports. ok (spec_with N l r ports)) h in
      subst IsCanonical (ok_injective made) (record {
        names = plain.names;
        tmpfs = build_tmpfs-DistinctKeys r.spec.template.volumes [] tt;
        sysctls = plain.sysctls;
        ports = build_port_bindings-DistinctPorts r.spec ports bindings;
        user = plain_user r.spec.template.user plain.user;
        memory =
            plain_memory r.spec.template.resources.memory_bytes (plain.memory.0) (plain.memory.1);
        cpus = plain_cpus r.spec.template.resources.cpu_millicores plain.cpus;
        restarts = λ p e.
            subst (λ q. ¬ NeverRestarts q) (ap (or_value (build_restart_policy N r.spec.restart)) e)
              (plain_restart r.spec.restart named plain.restart);
      })

  runtime_spec-network :
      (l : LocalDeployRuntime) (r : StartCandidate) (d : RuntimeContainerSpec N)
      → runtime_spec N l r ≡ ok d
      → network_mode_of l r.namespace r.spec.network ≡ d.network_mode
  unfolding runtime_spec
  runtime_spec-network l r d h =
      let (ports, bindings, made) =
        bind-returned (build_port_bindings r.spec) (λ ports. ok (spec_with N l r ports)) h in
      ap (λ (d : RuntimeContainerSpec N). d.network_mode) (ok_injective made)

pub runtime_spec-adopted :
    {N : PolicyNames} (K : Docker N) (l : LocalDeployRuntime) (request : StartCandidate)
    (d : RuntimeContainerSpec N) (s s' : K.State) (r : EnsureResult)
    → Reports K
    → AreNamed N
    → IsPlain request.spec
    → parent_name K (network_mode_of l request.namespace request.spec.network) ≡ none
    → runtime_spec N l request ≡ ok d
    → ensure K d s ≡ (s', ok r)
    → (r' : EnsureResult) × (ensure K d s' ≡ (s', ok r')) × (r'.action ≡ adopted)
runtime_spec-adopted K l request d s s' r docker named plain alone asked h =
    ensure-adopts K d s s' r docker (runtime_spec-IsCanonical l request d named plain asked)
      (subst (λ mode. parent_name K mode ≡ none) (runtime_spec-network l request d asked) alone) h
