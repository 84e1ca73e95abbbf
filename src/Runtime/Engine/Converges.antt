-- ===== src/Runtime/Engine/Converges.antt =====
-- What `ensure` has made, it adopts the next time.
use ployz.Prelude.{
  ◌≡◌, refl, sym, ap, ◌∙◌, subst, Bool, true, false, Option, none, some, List, [], ◌∷◌, map, not,
  text_eq, option_eq, contains, All, arith, inl, inr, is_empty, nat_eq,
}
use mathlib.Core.Option.{some-injective}
use mathlib.Core.List.{Perm}
use mathlib.Core.List.Perm
use mathlib.Core.Option
use ployz.Prelude.Int.{is_positive}
use ployz.Prelude.Map.{DistinctKeys, same_map, same_map_self}
use ployz.Prelude.Text.{Text, split_once}
use ployz.Model.Error.{Error, Result, ok, err, ok_injective}
use ployz.Runtime.{
  PolicyNames, RestartPolicy, PortMap, RuntimeContainerSpec, ObservedContainer, HostConfig,
  ContainerConfig, ContainerInspectResponse, observe, observe_parts, or_value, filtered,
  parse_env_pair,
}
use ployz.Runtime.Diff.{
  parent_id_matches, SpecChange, in_sync, missing, drifted, eval_spec_change, bindings_eq,
}
use ployz.Runtime.Diff.Environment.{EnvAgrees, EnvAgrees-refl}
use ployz.Runtime.Diff.Parts.{PortsAgree, NeverRestarts, RestartAgrees-refl}
use ployz.Runtime.Diff.Agreement.{Agrees, eval_spec_change-in_sync_iff}
use ployz.Runtime.Engine.{
  Docker, EnsureResult, adopted, none_if_empty, env_text, host_config, container_config, inspected,
  described, next, create_and_start, apply_change, ensure, change_from, inspect, resolve_parent_id,
  resolve_named, result_of, parent_name,
}

none_if_empty-value {ℓ} : {A : Type ℓ} (xs : List A) → or_value [] (none_if_empty xs) ≡ xs
none_if_empty-value [] = refl
none_if_empty-value (x ∷ xs) = refl

-- A variable is read back as it was printed, when its name has no equals sign.
parse-env_text : (k v : Text) → contains k b'=' ≡ false → parse_env_pair (env_text (k, v)) ≡ (k, v)
unfolding parse_env_pair split_once nat_eq
parse-env_text [] v h = refl
parse-env_text (c ∷ k) v h = ground (arith, parse-env_text k v)

abbrev read_env : List (Text × Text) → List (Text × Text)
read_env env = or_value [] (Option.map (map parse_env_pair) (none_if_empty (map env_text env)))

abbrev pub AreNames : List (Text × Text) → Type 0
AreNames = All (λ (e : Text × Text). contains e.0 b'=' ≡ false)

parse-all : (env : List (Text × Text)) → AreNames env → map parse_env_pair (map env_text env) ≡ env
parse-all [] h = refl
parse-all ((k, v) ∷ env) h = ground (arith, parse-env_text k v h.0, parse-all env h.1)

read_env-same : (env : List (Text × Text)) → AreNames env → read_env env ≡ env
read_env-same [] h = refl
read_env-same (e ∷ env) h = parse-all (e ∷ env) h

abbrev pub DistinctPorts : Option PortMap → Type 0
DistinctPorts none = Unit
DistinctPorts (some ports) = DistinctKeys ports

PortsAgree-refl : (ports : Option PortMap) → DistinctPorts ports → PortsAgree ports ports
PortsAgree-refl none h = inl (refl, refl)
PortsAgree-refl (some ports) h = inr (ports, ports, refl, refl, same_map_self ports h)

perm_of {ℓ} : {A : Type ℓ} {xs ys : List A} → xs ≡ ys → Perm xs ys
perm_of {xs} e = subst (λ zs. Perm xs zs) e (Perm.refl xs)

module _ {N : PolicyNames} where
  -- A specification that Docker can report as it is: names of variables have no equals sign, maps have
  -- one entry for a key, and what `observe` or the comparison takes for nothing is not asked for.
  pub record IsCanonical (d : RuntimeContainerSpec N) : Type 0 where
    pub names : AreNames d.env
    pub tmpfs : DistinctKeys d.tmpfs
    pub sysctls : DistinctKeys d.sysctls
    pub ports : DistinctPorts d.port_bindings
    pub user : filtered (λ u. not (is_empty u)) d.user ≡ d.user
    pub memory : filtered is_positive d.memory_bytes ≡ d.memory_bytes
    pub cpus : filtered is_positive d.nano_cpus ≡ d.nano_cpus
    pub restarts : (p : RestartPolicy N) → d.restart_policy ≡ some p → ¬ NeverRestarts p

  created-Agrees :
      (d : RuntimeContainerSpec N) (id name : Option Text) (running : Option Bool)
      → IsCanonical d
      → Agrees
          (observe_parts id name running (some (container_config d none)) (some (host_config d)))
          d
  unfolding container_config host_config
  created-Agrees d id name running c = record {
    image = refl;
    cmd = refl;
    entrypoint = inr refl;
    env =
        subst (λ xs. EnvAgrees xs d.env) (sym (read_env-same d.env c.names)) (EnvAgrees-refl d.env);
    binds = perm_of (none_if_empty-value d.binds);
    tmpfs =
        subst (λ m. same_map m d.tmpfs ≡ true) (sym (none_if_empty-value d.tmpfs))
          (same_map_self d.tmpfs c.tmpfs);
    dns_servers = perm_of (none_if_empty-value d.dns_servers);
    network_mode = inl refl;
    port_bindings = PortsAgree-refl d.port_bindings c.ports;
    cap_add = perm_of (none_if_empty-value d.cap_add);
    cap_drop = perm_of (none_if_empty-value d.cap_drop);
    privileged = refl;
    user = c.user;
    restart_policy = RestartAgrees-refl d.restart_policy c.restarts;
    memory_bytes = c.memory;
    nano_cpus = c.cpus;
    sysctls =
        subst (λ m. same_map m d.sysctls ≡ true) (sym (none_if_empty-value d.sysctls))
          (same_map_self d.sysctls c.sysctls);
    stop_timeout = refl;
    pid_mode = inl refl;
  }

  -- What the engine relies on of Docker: a container that was created and started is reported as
  -- running, with the configuration that it was given.
  pub record Reports (K : Docker N) : Type 0 where
    pub started :
        (s s1 s2 : K.State) (name : Text) (c : ContainerConfig N) (h : HostConfig N)
        → K.create_container s name c h ≡ (s1, ok tt)
        → K.start_container s1 name ≡ (s2, ok tt)
        → (info : ContainerInspectResponse N) × (K.inspect_container s2 name ≡ ok (some info))
          × (info.config ≡ some c)
          × (info.host_config ≡ some h)
          × (info.running ≡ some true)

  module _ (K : Docker N) (d : RuntimeContainerSpec N) where
    -- The container is there and in sync.
    abbrev Settled : K.State → Type 0
    Settled s =
        (o : ObservedContainer N) × (inspected K (K.inspect_container s d.container_name)
          ≡ ok (some o))
        × (eval_spec_change (some o) d ≡ in_sync)

    next-returned :
        {A B : Type 0} (out : K.State × Result Error A) (f : A → K.State → K.State × Result Error B)
        {s : K.State} {b : B}
        → next K out f ≡ (s, ok b)
        → (a : A) × (s1 : K.State) × (out ≡ (s1, ok a)) × (f a s1 ≡ (s, ok b))
    unfolding next
    next-returned (s, ok a) f h = (a, s, refl, h)
    next-returned (s, err e) f h = cc

    described-ok :
        (operation : Text) (out : K.State × Result Text (Unit {0})) {s : K.State} {a : Unit {0}}
        → described K operation out ≡ (s, ok a)
        → out ≡ (s, ok tt)
    described-ok operation (s, ok _) h = cc
    described-ok operation (s, err e) h = cc

    in_sync-created :
        (info : ContainerInspectResponse N)
        → IsCanonical d
        → info.config ≡ some (container_config d none)
        → info.host_config ≡ some (host_config d)
        → info.running ≡ some true
        → eval_spec_change (some (observe info)) d ≡ in_sync
    unfolding observe
    in_sync-created info c config host running =
        let agrees =
          subst (λ x. Agrees (observe_parts info.id info.name info.running x info.host_config) d)
            (sym config)
            (subst
              (λ x.
                Agrees
                  (observe_parts info.id info.name info.running (some (container_config d none)) x)
                  d)
              (sym host) (created-Agrees d info.id info.name info.running c)) in
        (eval_spec_change-in_sync_iff (observe info) d).1 (ap (or_value false) running, agrees)

    module _ (docker : Reports K) (canonical : IsCanonical d) where
      create-Settled :
          (s s' : K.State) (id : Text) → create_and_start K d none s ≡ (s', ok id) → Settled s'
      unfolding create_and_start
      create-Settled s s' id h =
          let (_, s1, made, h1) = next-returned _ _ h in
          let (_, s2, began, h2) = next-returned _ _ h1 in
          let (info, seen, config, host, running) =
            docker.started _ s1 s2 d.container_name (container_config d none) (host_config d)
              (described-ok _ _ made) (described-ok _ _ began) in
          subst Settled (ap (λ (x : K.State × Result Error Text). x.0) h2) (
            observe info,
            ap (inspected K) seen,
            in_sync-created info canonical config host running,
          )

      apply_change-Settled :
          (o : Option (ObservedContainer N)) (change : SpecChange) (s s' : K.State)
          (r : EnsureResult)
          → change_from K o none d ≡ change
          → inspected K (K.inspect_container s d.container_name) ≡ ok o
          → apply_change K d o none change s ≡ (s', ok r)
          → Settled s'
      unfolding apply_change parent_id_matches
      apply_change-Settled none in_sync s s' r e seen h = cc
      apply_change-Settled (some o) in_sync s s' r e seen h =
          subst Settled (ap (λ (x : K.State × Result Error EnsureResult). x.0) h) (o, seen, e)
      apply_change-Settled o missing s s' r e seen h =
          let (id, s1, made, h1) = next-returned _ _ h in
          subst Settled (ap (λ (x : K.State × Result Error EnsureResult). x.0) h1)
            (create-Settled _ s1 id made)
      apply_change-Settled o (drifted fields) s s' r e seen h =
          let (id, s1, made, h1) = next-returned _ _ h in
          subst Settled (ap (λ (x : K.State × Result Error EnsureResult). x.0) h1)
            (create-Settled _ s1 id made)

      module _ (alone : parent_name K d.network_mode ≡ none) where
        resolve_parent_id-none : (s : K.State) → resolve_parent_id K d s ≡ (s, ok none)
        unfolding resolve_parent_id
        resolve_parent_id-none s = ap (λ o. resolve_named K o s) alone

        ensure-Settled :
            (s s' : K.State) (r : EnsureResult) → ensure K d s ≡ (s', ok r) → Settled s'
        unfolding ensure inspect
        ensure-Settled s s' r h =
            let (o, s1, seen, h1) = next-returned _ _ h in
            let (p, s2, found, h2) = next-returned _ _ h1 in
            let both = sym (resolve_parent_id-none s1) ∙ found in
            let no_parent : none ≡ p =
              ok_injective (ap (λ (x : K.State × Result Error (Option Text)). x.1) both) in
            let from_first : s ≡ s2 =
              ap (λ (x : K.State × Result Error (Option (ObservedContainer N))). x.0) seen
              ∙ ap (λ (x : K.State × Result Error (Option Text)). x.0) both in
            let seen_there =
              subst (λ x. inspected K (K.inspect_container x d.container_name) ≡ ok o) from_first
                (ap (λ (x : K.State × Result Error (Option (ObservedContainer N))). x.1) seen) in
            apply_change-Settled o (change_from K o none d) s2 s' r refl seen_there (
              subst (λ x. apply_change K d o x (change_from K o x d) s2 ≡ (s', ok r))
                (sym no_parent) h2)

        Settled-adopts :
            (s : K.State)
            → Settled s
            → (r : EnsureResult) × (ensure K d s ≡ (s, ok r)) × (r.action ≡ adopted)
        unfolding ensure inspect next apply_change parent_id_matches
        Settled-adopts s (o, seen, same) = (
          result_of K d adopted o.container_id,
          rw (seen, resolve_parent_id-none s, same) refl,
          refl,
        )

pub ensure-adopts :
    {N : PolicyNames} (K : Docker N) (d : RuntimeContainerSpec N) (s s' : K.State)
    (r : EnsureResult)
    → Reports K
    → IsCanonical d
    → parent_name K d.network_mode ≡ none
    → ensure K d s ≡ (s', ok r)
    → (r' : EnsureResult) × (ensure K d s' ≡ (s', ok r')) × (r'.action ≡ adopted)
ensure-adopts K d s s' r docker canonical alone h =
    Settled-adopts K d docker canonical alone s'
      (ensure-Settled K d docker canonical alone s s' r h)
