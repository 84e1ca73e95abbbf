-- ===== src/Session/Client.antt =====
-- The client's side of a session: TcpDeploySession of
-- crates/ployzd/src/daemon/deploy_control/remote.rs. A connection is an interface.
pub mod Remote
use ployz.Prelude.{Option, none, some, List, [], ◌∷◌, ◌++◌}
use ployz.Prelude.Text.{Text, codes}
use ployz.Model.Error.{Error, Result, ok, err}
use ployz.Model.Service.{InstanceId, InstanceStatusRecord}
use ployz.Deploy.Effects.{StartCandidateRequest}
use ployz.Session.Agent.{
  DeployFrame, open_frame, inspect_frame, start_frame, drain_frame, remove_frame, close_frame,
  opened_frame, namespace_snapshot, candidate_started, ack, error_frame, agent_error,
}

-- `write_frame` and `read_frame` of a connection, and the format `{:?}` of a frame.
pub record Connection : Type 1 where
  pub State : Type 0
  pub write_frame : State → DeployFrame → State × Result Error (Unit {0})
  pub read_frame : State → State × Result Error (Option DeployFrame)
  pub debug : DeployFrame → Text

abbrev pub closed_early : Error
closed_early =
    agent_error (codes "deploy_session") (codes "connection closed while waiting for response")

-- An answer that is an error is the client's error.
abbrev pub reply : DeployFrame → Result Error DeployFrame
reply (error_frame code message) =
    err (agent_error (codes "deploy_session") (code ++ (codes ": " ++ message)))
reply response = ok response

module _ (C : Connection) where
  abbrev pub M : Type 0 → Type 0
  M A = C.State → C.State × Result Error A

  unfoldable pub next :
      {A B : Type 0} → C.State × Result Error A → (A → M B) → C.State × Result Error B
  next (s, ok a) f = f a s
  next (s, err e) f = (s, err e)

  abbrev pub received : Option DeployFrame → M DeployFrame
  received none s = (s, err closed_early)
  received (some response) s = (s, reply response)

  unfoldable pub send_and_recv : DeployFrame → M DeployFrame
  send_and_recv frame s = next (C.write_frame s frame) (λ _ s'. next (C.read_frame s') received)

  abbrev pub unexpected_response : Text → DeployFrame → Error
  unexpected_response operation response =
      agent_error operation (codes "unexpected response: " ++ C.debug response)

  abbrev pub snapshot_in : DeployFrame → Result Error (List InstanceStatusRecord)
  snapshot_in (namespace_snapshot instances) = ok instances
  snapshot_in response = err (unexpected_response (codes "inspect_namespace") response)

  unfoldable pub inspect_namespace : M (List InstanceStatusRecord)
  unfolding send_and_recv
  inspect_namespace s =
      next (send_and_recv inspect_frame s) (λ response s'. (s', snapshot_in response))

  abbrev pub status_in : DeployFrame → Result Error InstanceStatusRecord
  status_in (candidate_started status) = ok status
  status_in response = err (unexpected_response (codes "start_candidate") response)

  unfoldable pub start_candidate : StartCandidateRequest → M InstanceStatusRecord
  unfolding send_and_recv
  start_candidate req s =
      next (send_and_recv (start_frame req.service req.slot_id req.instance_id req.spec_json) s)
        (λ response s'. (s', status_in response))

  abbrev pub expect_ack : Text → DeployFrame → Result Error (Unit {0})
  expect_ack operation (ack message) = ok tt
  expect_ack operation response = err (unexpected_response operation response)

  unfoldable pub drain_instance : InstanceId → M (Unit {0})
  unfolding send_and_recv
  drain_instance id s =
      next (send_and_recv (drain_frame id) s)
        (λ response s'. (s', expect_ack (codes "drain_instance") response))

  unfoldable pub remove_instance : InstanceId → M (Unit {0})
  unfolding send_and_recv
  remove_instance id s =
      next (send_and_recv (remove_frame id) s)
        (λ response s'. (s', expect_ack (codes "remove_instance") response))

  -- `let _ = …`
  abbrev pub ignored : C.State × Result Error DeployFrame → C.State × Result Error (Unit {0})
  ignored (s, _) = (s, ok tt)

  unfoldable pub close : M (Unit {0})
  unfolding send_and_recv
  close s = ignored (send_and_recv close_frame s)
