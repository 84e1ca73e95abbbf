-- ===== src/Runtime/Engine.antt =====
-- `ensure` of ContainerEngine: crates/ployz-runtime-backends/src/runtime/engine.rs. Docker is an
-- interface; its errors are texts, and 404 is `none`.
pub mod Converges
use ployz.Prelude.{
  ℕ, Bool, true, false, Option, none, some, List, [], ◌∷◌, ◌++◌, map, not, is_empty, if◌then◌else◌,
  text_eq,
}
use ployz.Prelude.Map
use ployz.Prelude.Map.{Map}
use ployz.Prelude.Text.{Text, codes}
use ployz.Manifest.Duration.{strip_text}
use ployz.Model.Error.{Error, Result, ok, err}
use ployz.Model.Spec.{PullPolicy}
use ployz.Runtime.{
  PolicyNames, RuntimeContainerSpec, ObservedContainer, HostConfig, ContainerConfig,
  ContainerInspectResponse, observe,
}
use ployz.Runtime.Diff.{
  ChangedField, SpecChange, in_sync, missing, drifted, eval_spec_change, parent_id_matches,
}
use ployz.Runtime.Labels.{label_parent_id}

-- What the engine calls of bollard's `Docker`.
pub record Docker (N : PolicyNames) : Type 1 where
  pub State : Type 0
  -- The text of the answer 404.
  pub not_found : Text
  pub inspect_container : State → Text → Result Text (Option (ContainerInspectResponse N))
  pub has_image : State → Text → Bool
  pub pull : State → Text → State
  pub force_remove : State → Text → State
  pub create_container :
      State → Text → ContainerConfig N → HostConfig N → State × Result Text (Unit {0})
  pub start_container : State → Text → State × Result Text (Unit {0})

pub data EnsureAction : Type 0 where
  adopted : EnsureAction
  created : EnsureAction
  recreated : (changed : List ChangedField) → EnsureAction

-- `ip_address` and `networks`, which Docker assigns, are left out.
pub record EnsureResult : Type 0 where
  pub container_id : Text
  pub container_name : Text
  pub action : EnsureAction

abbrev pub none_if_empty {ℓ} : {A : Type ℓ} → List A → Option (List A)
none_if_empty [] = none
none_if_empty (x ∷ xs) = some (x ∷ xs)

-- `format!("{k}={v}")`
abbrev pub env_text : Text × Text → Text
env_text (k, v) = k ++ (b'=' ∷ v)

abbrev pub with_parent_label : Option Text → Map Text Text → Map Text Text
with_parent_label none labels = labels
with_parent_label (some id) labels = Map.insert label_parent_id id labels

module _ {N : PolicyNames} where
  unfoldable pub host_config : RuntimeContainerSpec N → HostConfig N
  host_config spec = record {
    binds = none_if_empty spec.binds;
    dns = none_if_empty spec.dns_servers;
    network_mode = spec.network_mode;
    port_bindings = spec.port_bindings;
    cap_add = none_if_empty spec.cap_add;
    cap_drop = none_if_empty spec.cap_drop;
    privileged = some spec.privileged;
    restart_policy = spec.restart_policy;
    memory = spec.memory_bytes;
    nano_cpus = spec.nano_cpus;
    sysctls = none_if_empty spec.sysctls;
    tmpfs = none_if_empty spec.tmpfs;
    pid_mode = spec.pid_mode;
  }

  unfoldable pub container_config : RuntimeContainerSpec N → Option Text → ContainerConfig N
  container_config spec parent_id = record {
    image = some spec.image;
    cmd = spec.cmd;
    entrypoint = spec.entrypoint;
    env = none_if_empty (map env_text spec.env);
    labels = some (with_parent_label parent_id spec.labels);
    user = spec.user;
    exposed_ports = spec.exposed_ports;
    stop_timeout = spec.stop_timeout;
  }

abbrev pub docker_error : Text → Text → Error
docker_error operation message = record { operation = operation; message = message }

module _ {N : PolicyNames} (K : Docker N) where
  abbrev pub M : Type 0 → Type 0
  M A = K.State → K.State × Result Error A

  unfoldable pub next :
      {A B : Type 0} → K.State × Result Error A → (A → M B) → K.State × Result Error B
  next (s, ok a) f = f a s
  next (s, err e) f = (s, err e)

  abbrev pub pure : {A : Type 0} → A → M A
  pure a s = (s, ok a)

  abbrev pub inspected :
      Result Text (Option (ContainerInspectResponse N))
      → Result Error (Option (ObservedContainer N))
  inspected (ok none) = ok none
  inspected (ok (some info)) = ok (some (observe info))
  inspected (err e) = err (docker_error (codes "docker inspect") e)

  unfoldable pub inspect : Text → M (Option (ObservedContainer N))
  unfolding observe
  inspect name s = (s, inspected (K.inspect_container s name))

  abbrev pub parent_of :
      Text → Result Text (Option (ContainerInspectResponse N)) → Result Error (Option Text)
  parent_of parent (ok none) = ok none
  parent_of parent (ok (some info)) = ok info.id
  parent_of parent (err e) = err (
      docker_error (codes "resolve_parent_id")
        (codes "inspect parent " ++ (parent ++ (codes ": " ++ e))))

  abbrev pub parent_name : Option Text → Option Text
  parent_name none = none
  parent_name (some mode) = strip_text (codes "container:") mode

  abbrev pub resolve_named : Option Text → M (Option Text)
  resolve_named none s = (s, ok none)
  resolve_named (some parent) s = (s, parent_of parent (K.inspect_container s parent))

  unfoldable pub resolve_parent_id : RuntimeContainerSpec N → M (Option Text)
  unfolding strip_text
  resolve_parent_id spec = resolve_named (parent_name spec.network_mode)

  abbrev pub pull_image : Text → PullPolicy → K.State → K.State
  pull_image image PullPolicy.never s = s
  pull_image image PullPolicy.if_not_present s = if K.has_image s image then s else K.pull s image
  pull_image image PullPolicy.always s = K.pull s image

  abbrev pub described : Text → K.State × Result Text (Unit {0}) → K.State × Result Error (Unit {0})
  described operation (s, ok _) = (s, ok tt)
  described operation (s, err e) = (s, err (docker_error operation e))

  -- The identifier of the container that was started; without one Docker's answer is an error.
  abbrev pub container_id_of : Result Text (Option (ContainerInspectResponse N)) → Result Error Text
  container_id_of (ok none) = err (docker_error (codes "docker inspect") K.not_found)
  container_id_of (ok (some info)) = ok (observe info).container_id
  container_id_of (err e) = err (docker_error (codes "docker inspect") e)

  unfoldable pub create_and_start : RuntimeContainerSpec N → Option Text → M Text
  unfolding observe host_config container_config
  create_and_start spec parent_id s =
      next
        (described (codes "docker create") (
          K.create_container (K.force_remove s spec.container_name) spec.container_name
            (container_config spec parent_id) (host_config spec)))
        (λ _ s'.
          next (described (codes "docker start") (K.start_container s' spec.container_name))
            (λ _ s''. (s'', container_id_of (K.inspect_container s'' spec.container_name))))

  abbrev pub change_from :
      Option (ObservedContainer N) → Option Text → RuntimeContainerSpec N → SpecChange
  change_from none parent_id spec = missing
  change_from (some o) parent_id spec =
      if not (parent_id_matches o parent_id)
      then drifted (ChangedField.network_mode ∷ [])
      else eval_spec_change (some o) spec

  abbrev pub result_of : RuntimeContainerSpec N → EnsureAction → Text → EnsureResult
  result_of spec action id = record {
    container_id = id;
    container_name = spec.container_name;
    action = action;
  }

  abbrev pub adopt : RuntimeContainerSpec N → Option (ObservedContainer N) → M EnsureResult
  adopt spec none s =
      (s, err (docker_error (codes "ensure") (codes "InSync but no observed container")))
  adopt spec (some o) s = (s, ok (result_of spec adopted o.container_id))

  -- What the change asks for.
  unfoldable pub apply_change :
      RuntimeContainerSpec N
      → Option (ObservedContainer N)
      → Option Text
      → SpecChange
      → M EnsureResult
  unfolding create_and_start
  apply_change spec o parent_id in_sync s = adopt spec o s
  apply_change spec o parent_id missing s =
      next (create_and_start spec parent_id (pull_image spec.image spec.pull_policy s))
        (λ id. pure (result_of spec created id))
  apply_change spec o parent_id (drifted fields) s =
      next
        (create_and_start spec parent_id
          (K.force_remove (pull_image spec.image spec.pull_policy s) spec.container_name))
        (λ id. pure (result_of spec (recreated fields) id))

  unfoldable pub ensure : RuntimeContainerSpec N → M EnsureResult
  unfolding inspect resolve_parent_id apply_change eval_spec_change parent_id_matches
  ensure spec s = next (inspect spec.container_name s) (λ o s'.
      next (resolve_parent_id spec s')
        (λ parent_id. apply_change spec o parent_id (change_from o parent_id spec)))
