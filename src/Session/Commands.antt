-- ===== src/Session/Commands.antt =====
-- The commands of a session: `open_session`, `start_candidate`, `drain_instance` and `remove_instance`
-- of DeployAgent, and `handle_session_frame`, of crates/ployzd/src/daemon/deploy_control/remote.rs;
-- with `start_candidate` and `remove_instance` of
-- crates/ployz-runtime-backends/src/deploy/local.rs.
pub mod Found
pub mod Again
use ployz.Prelude.{
  ℕ, Bool, true, false, Option, none, some, List, [], ◌∷◌, ◌++◌, ◌==◌, not, text_eq, if◌then◌else◌,
}
use ployz.Prelude.Text.{Text, codes}
use ployz.Model.Error.{Error, Result, ok, err, map_err}
use ployz.Model.Service.{
  InstanceId, SlotId, DeployId, InstanceStatusRecord, InstancePhase, phase_eq, DrainState,
}
use ployz.Model.Spec.{Namespace, ServiceSpec}
use ployz.Manifest.Hash.{revision_hash}
use ployz.Runtime.{PolicyNames}
use ployz.Runtime.Workload.{ManagedInstance, StartCandidate, runtime_spec, container_name_for}
use ployz.Runtime.Workload.Ports.{service_port_map}
use ployz.Session.Locks.{Held, NamespaceLock, try_acquire, drop}
use ployz.Session.Agent.{
  DeployFrame, open_frame, inspect_frame, start_frame, drain_frame, remove_frame, close_frame,
  opened_frame, namespace_snapshot, candidate_started, ack, error_frame, SessionState, AgentApi,
  DeployAgent, agent_error, display, M, next, pure, given, status_of, adopted_if,
  list_local_instance_status, find_local_instance_status, inspect_namespace, adopt_instances,
}

-- The instance that `start_candidate` of local.rs makes of the container's identifier and address.
abbrev pub managed_instance : StartCandidate → Text × Option ℕ → ManagedInstance
managed_instance r (container_id, address) = record {
  instance_id = r.instance_id;
  service = r.spec.name;
  slot_id = r.slot_id;
  machine_id = r.machine_id;
  revision_hash = r.revision_hash;
  deploy_id = r.deploy_id;
  docker_container_id = container_id;
  ipv4_address = address;
  backend_ports = service_port_map r.spec.service_ports [];
}

abbrev pub decode_error : Text → Error
decode_error e = agent_error (codes "start_candidate") (codes "decode spec: " ++ e)

abbrev pub other_service : Text → Text → Error
other_service name service = agent_error (codes "start_candidate") (
    codes "spec service '"
    ++ (name ++ (codes "' did not match request service '" ++ (service ++ codes "'"))))

abbrev pub drained : InstanceStatusRecord → ℕ → InstanceStatusRecord
drained status now = record status {
  phase = InstancePhase.draining;
  ready = false;
  drain_state = DrainState.requested;
  updated_at = now;
}

module _ {N : PolicyNames} (S : AgentApi N) (agent : DeployAgent) where
  -- `start_candidate` of local.rs
  unfoldable pub start_container : StartCandidate → M S ManagedInstance
  unfolding runtime_spec service_port_map
  start_container r s =
      next S (s, runtime_spec N agent.runtime r)
        (λ spec s'. next S (S.ensure s' spec) (λ made. pure S (managed_instance r made)))

  abbrev pub candidate_of : SessionState → SlotId → InstanceId → ServiceSpec → Text → StartCandidate
  candidate_of session slot_id instance_id spec hash = record {
    namespace = session.namespace;
    spec = spec;
    deploy_id = session.deploy_id;
    instance_id = instance_id;
    slot_id = slot_id;
    machine_id = agent.local_machine_id;
    revision_hash = hash;
  }

  -- The status of an instance that is ready, when it is stored.
  unfoldable pub store_ready : SessionState → ManagedInstance → M S InstanceStatusRecord
  store_ready session instance_ s =
      let status = status_of S session.namespace instance_ (S.now_unix_secs s) in
      next S (S.upsert_instance_status s status) (λ _. pure S status)

  -- The part of `start_candidate` for a specification that has been decoded.
  unfoldable pub start_spec :
      SessionState → Text → SlotId → InstanceId → ServiceSpec → M S InstanceStatusRecord
  unfolding start_container store_ready text_eq revision_hash
  start_spec session service slot_id instance_id spec s =
      if not (spec.name == service)
      then (s, err (other_service spec.name service))
      else next S (s, map_err (agent_error (codes "start_candidate")) (revision_hash S.json spec))
          (λ hash s1.
            next S (s1, S.connect s1)
              (λ _ s2.
                next S (start_container (candidate_of session slot_id instance_id spec hash) s2)
                  (λ instance_ s3.
                    next S (S.wait_ready s3 spec instance_) (λ _. store_ready session instance_))))

  abbrev pub start_found :
      SessionState
      → Text
      → SlotId
      → InstanceId
      → Text
      → Option InstanceStatusRecord
      → M S InstanceStatusRecord
  start_found session service slot_id instance_id spec_json (some existing) s = (s, ok existing)
  start_found session service slot_id instance_id spec_json none s =
      next S (s, map_err decode_error (S.decode_spec spec_json))
        (start_spec session service slot_id instance_id)

  unfoldable pub start_candidate :
      SessionState → Text → SlotId → InstanceId → Text → M S InstanceStatusRecord
  unfolding find_local_instance_status start_spec
  start_candidate session service slot_id instance_id spec_json s =
      next S (find_local_instance_status S agent session.namespace instance_id s)
        (start_found session service slot_id instance_id spec_json)

  abbrev pub drain_found : Option InstanceStatusRecord → M S (Unit {0})
  drain_found none s = (s, ok tt)
  drain_found (some status) s =
      if status.phase == InstancePhase.draining
      then (s, ok tt)
      else S.upsert_instance_status s (drained status (S.now_unix_secs s))

  unfoldable pub drain_instance : SessionState → InstanceId → M S (Unit {0})
  unfolding find_local_instance_status phase_eq
  drain_instance session instance_id s =
      next S (find_local_instance_status S agent session.namespace instance_id s) drain_found

  abbrev pub remove_found : SessionState → Option InstanceStatusRecord → M S (Unit {0})
  remove_found session none s = (s, ok tt)
  remove_found session (some status) s =
      next S (s, S.connect s)
        (λ _ s1.
          next S
            (S.remove s1 (container_name_for session.namespace status.service status.instance_id))
            (λ _ s2. S.delete_instance_status s2 status.instance_id))

  unfoldable pub remove_instance : SessionState → InstanceId → M S (Unit {0})
  unfolding find_local_instance_status
  remove_instance session instance_id s =
      next S (find_local_instance_status S agent session.namespace instance_id s)
        (remove_found session)

  abbrev pub session_of : Namespace → DeployId → NamespaceLock → SessionState
  session_of ns deploy_id lock = record { namespace = ns; deploy_id = deploy_id; lock = lock }

  -- A lock that no session has taken is dropped, and so given back.
  abbrev pub settled :
      Held
      → NamespaceLock
      → S.State × Result Error (SessionState × List InstanceStatusRecord)
      → Held × (S.State × Result Error (SessionState × List InstanceStatusRecord))
  settled held lock (s, ok opened) = (held, (s, ok opened))
  settled held lock (s, err e) = (drop held lock, (s, err e))

  abbrev pub locked :
      Namespace
      → DeployId
      → S.State
      → Held × Result Error NamespaceLock
      → Held × (S.State × Result Error (SessionState × List InstanceStatusRecord))
  locked ns deploy_id s (held, err e) = (held, (s, err e))
  locked ns deploy_id s (held, ok lock) = settled held lock (
      next S (adopted_if S (S.connect s) ns s) (λ _ s'.
        next S (list_local_instance_status S agent ns s')
          (λ instances. pure S (session_of ns deploy_id lock, instances))))

  unfoldable pub open_session :
      Held
      → Namespace
      → DeployId
      → S.State
      → Held × (S.State × Result Error (SessionState × List InstanceStatusRecord))
  unfolding try_acquire drop adopt_instances list_local_instance_status
  open_session held ns deploy_id s = locked ns deploy_id s (try_acquire held ns deploy_id)

  -- `close` of a session in the process of the agent
  abbrev pub close_local : M S (Unit {0})
  close_local s = (s, ok tt)

  abbrev pub session_error : Text → Error
  session_error = agent_error (codes "deploy_session")

  -- What a frame of the client asks for; a frame of the machine is an error.
  abbrev pub asked : SessionState → DeployFrame → M S DeployFrame
  asked session (open_frame ns deploy_id coordinator_id) s =
      (s, err (session_error (codes "duplicate Open frame on an already-open session")))
  asked session inspect_frame s =
      next S (inspect_namespace S agent session s)
        (λ instances. pure S (namespace_snapshot instances))
  asked session (start_frame service slot_id instance_id spec_json) s =
      next S (start_candidate session service slot_id instance_id spec_json s)
        (λ status. pure S (candidate_started status))
  asked session (drain_frame instance_id) s =
      next S (drain_instance session instance_id s) (λ _. pure S (ack (codes "drained")))
  asked session (remove_frame instance_id) s =
      next S (remove_instance session instance_id s) (λ _. pure S (ack (codes "removed")))
  asked session close_frame s = (s, ok (ack (codes "session closed")))
  asked session frame s =
      (s, err (session_error (codes "unexpected frame from client: " ++ S.debug frame)))

  abbrev pub answered : S.State × Result Error DeployFrame → S.State × DeployFrame
  answered (s, ok response) = (s, response)
  answered (s, err e) = (s, error_frame (codes "DEPLOY_FAILED") (display e))

  unfoldable pub handle_session_frame : SessionState → DeployFrame → S.State → S.State × DeployFrame
  unfolding inspect_namespace start_candidate drain_instance remove_instance
  handle_session_frame session frame s = answered (asked session frame s)
