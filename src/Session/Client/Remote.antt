-- ===== src/Session/Client/Remote.antt =====
-- A session over a connection, and one in the process of the agent (`InProcessDeploySession` of
-- crates/ployzd/src/daemon/deploy_control/session.rs), which calls the agent.
use ployz.Prelude.{◌≡◌, refl, Bool, true, false, Option, none, some, ◌++◌}
use ployz.Prelude.Text.{codes}
use ployz.Model.Error.{Error, Result, ok, err}
use ployz.Model.Service.{InstanceId}
use ployz.Deploy.Effects.{StartCandidateRequest}
use ployz.Runtime.{PolicyNames}
use ployz.Session.Agent.{
  DeployFrame, error_frame, namespace_snapshot, candidate_started, ack, SessionState, AgentApi,
  DeployAgent, agent_error, display, pure,
}
use ployz.Session.Agent
use ployz.Session.Commands
use ployz.Session.Commands.{handle_session_frame, answered}
use ployz.Session.Client.{
  Connection, received, ignored, close, reply, next, send_and_recv, snapshot_in, status_in,
  expect_ack, inspect_namespace, start_candidate, drain_instance, remove_instance,
}

-- What a client makes of an error of the agent.
abbrev pub remote_error : Error → Error
remote_error e =
    agent_error (codes "deploy_session") (codes "DEPLOY_FAILED" ++ (codes ": " ++ display e))

-- What a client reads of an answer, when it is not lost.
abbrev pub answer_read : Bool → DeployFrame → Option DeployFrame
answer_read true response = none
answer_read false response = some response

module _ {N : PolicyNames} (S : AgentApi N) (agent : DeployAgent) (session : SessionState)
    (lost : S.State → Bool) where
  -- The client's end of a connection that the agent answers on: a frame that is written is handled at
  -- once, and the connection may close before its answer is read (`lost`, by what the frame has left
  -- behind).
  abbrev pub served : Connection
  served = record {
    State = S.State × Option DeployFrame;
    write_frame = λ s frame.
        let answer = handle_session_frame S agent session frame s.0 in
        ((answer.0, answer_read (lost answer.0) answer.1), ok tt);
    read_frame = λ s. ((s.0, none), ok s.1);
    debug = S.debug;
  }

  -- What a client has of a result of the agent.
  abbrev pub result_over : {A : Type 0} → Bool → Result Error A → Result Error A
  result_over true r =
      err (
        agent_error (codes "deploy_session") (codes "connection closed while waiting for response"))
  result_over false (ok a) = ok a
  result_over false (err e) = err (remote_error e)

  abbrev pub over :
      {A : Type 0} → S.State × Result Error A → (S.State × Option DeployFrame) × Result Error A
  over (s, r) = ((s, none), result_over (lost s) r)

  read_value :
      {A : Type 0} (b : Bool) (s : S.State) (a : A) (response : DeployFrame)
      (extract : DeployFrame → Result Error A)
      → reply response ≡ ok response
      → extract response ≡ ok a
      → next served
          (received served (answer_read b response) (s, none))
          (λ response s. (s, extract response))
        ≡ ((s, none), result_over b (ok a))
  unfolding next
  read_value true s a response extract good same = refl
  read_value false s a response extract good same = rw (good, same) refl

  read_error :
      {A : Type 0} (b : Bool) (s : S.State) (e : Error) (extract : DeployFrame → Result Error A)
      → next served
          (received served
            (answer_read b (error_frame (codes "DEPLOY_FAILED") (display e)))
            (s, none))
          (λ response s. (s, extract response))
        ≡ ((s, none), result_over b (err e))
  unfolding next
  read_error true s e extract = refl
  read_error false s e extract = refl

  read_back :
      {A : Type 0} (x : S.State × Result Error A) (wrap : A → DeployFrame)
      (extract : DeployFrame → Result Error A)
      → ((a : A) → reply (wrap a) ≡ ok (wrap a))
      → ((a : A) → extract (wrap a) ≡ ok a)
      → (let answer = answered S agent (Agent.next S x (λ a. pure S (wrap a))) in
          next served
            (received served (answer_read (lost answer.0) answer.1) (answer.0, none))
            (λ response s. (s, extract response)))
        ≡ over x
  unfolding Agent.next
  read_back (s, ok a) wrap extract good same =
      read_value (lost s) s a (wrap a) extract (good a) (same a)
  read_back (s, err e) wrap extract good same = read_error (lost s) s e extract

  close_back :
      (b : Bool) (s : S.State) (response : DeployFrame)
      → ignored served (received served (answer_read b response) (s, none)) ≡ ((s, none), ok tt)
  close_back true s response = refl
  close_back false s response = refl

  -- On a connection that hands every frame that is written to the agent, and on which at most the
  -- answer is lost, each of the five calls of a session does what it does in a session in the process
  -- of the agent: it leaves the same store and containers behind; and it returns the same value, or
  -- for an error of the agent the remote error that names it, or, when the answer is lost, the error
  -- that the connection was closed. A close ends well even then.
  pub served-over :
      (s : S.State) (p : Option DeployFrame)
      → (inspect_namespace served (s, p) ≡ over (Agent.inspect_namespace S agent session s))
        × ((req : StartCandidateRequest)
            → start_candidate served req (s, p)
              ≡ over (
                  Commands.start_candidate S agent session req.service req.slot_id req.instance_id
                    req.spec_json s))
        × ((id : InstanceId)
            → drain_instance served id (s, p) ≡ over (Commands.drain_instance S agent session id s))
        × ((id : InstanceId)
            → remove_instance served id (s, p)
              ≡ over (Commands.remove_instance S agent session id s))
        × (close served (s, p)
            ≡ (((Commands.close_local S agent s).0, none), (Commands.close_local S agent s).1))
  unfolding inspect_namespace start_candidate drain_instance remove_instance close send_and_recv
      next handle_session_frame
  served-over s p = (
    read_back (Agent.inspect_namespace S agent session s) namespace_snapshot (snapshot_in served)
        (λ a. refl) (λ a. refl),
    λ req.
        read_back
          (Commands.start_candidate S agent session req.service req.slot_id req.instance_id
            req.spec_json s)
          candidate_started (status_in served) (λ a. refl) (λ a. refl),
    λ id.
        read_back (Commands.drain_instance S agent session id s) (λ _. ack (codes "drained"))
          (expect_ack served (codes "drain_instance")) (λ a. refl) (λ a. refl),
    λ id.
        read_back (Commands.remove_instance S agent session id s) (λ _. ack (codes "removed"))
          (expect_ack served (codes "remove_instance")) (λ a. refl) (λ a. refl),
    close_back (lost s) s (ack (codes "session closed")),
  )
