-- ===== src/Session/Commands/Again.antt =====
-- A command of a session that is sent again.
use ployz.Prelude.{
  ◌≡◌, refl, sym, ap, subst, ◌∙◌, Bool, true, false, Option, none, some, ◌==◌, ==_refl, not,
  text_eq, ◌⊎◌, inl, inr, if◌then◌else◌,
}
use ployz.Prelude.Text.{Text}
use ployz.Model.Error.{Error, Result, ok, err, ok_injective}
use ployz.Model.Service.{InstanceId, SlotId, InstanceStatusRecord, InstancePhase, phase_eq}
use ployz.Model.Spec.{Namespace, ServiceSpec}
use ployz.Runtime.{PolicyNames}
use ployz.Runtime.Workload.{ManagedInstance, StartCandidate}
use ployz.Session.Agent.{
  DeployFrame, open_frame, inspect_frame, start_frame, drain_frame, remove_frame, close_frame,
  opened_frame, namespace_snapshot, candidate_started, ack, error_frame, SessionState, AgentApi,
  DeployAgent, status_of, find_local_instance_status,
}
use ployz.Session.Commands.Found.{
  Stores, next-returned, next-ok, found, found-Local, stored-found, deleted-found,
}
use ployz.Session.Commands.{
  drained, start_container, candidate_of, store_ready, start_spec, start_found, start_candidate,
  drain_found, drain_instance, remove_found, remove_instance, asked, answered, handle_session_frame,
}

if-cases {ℓ} :
    {A : Type ℓ} (b : Bool) (x y : A) {z : A} → (if b then x else y) ≡ z → (x ≡ z) ⊎ (y ≡ z)
if-cases true x y h = inl h
if-cases false x y h = inr h

-- What is sent again.
abbrev is_inspect : DeployFrame → Bool
is_inspect inspect_frame = true
is_inspect _ = false

abbrev is_error : DeployFrame → Bool
is_error (error_frame code message) = true
is_error _ = false

module _ {N : PolicyNames} (S : AgentApi N) (agent : DeployAgent) (store : Stores S) where
  abbrev finding :
      Namespace → InstanceId → S.State → S.State × Result Error (Option InstanceStatusRecord)
  finding ns id s = find_local_instance_status S agent ns id s

  found_again :
      (ns : Namespace) (id : InstanceId) (s s' : S.State) (o : Option InstanceStatusRecord)
      → finding ns id s ≡ (s', ok o)
      → finding ns id s' ≡ (s', ok o)
  found_again ns id s s' o h =
      subst (λ x. finding ns id x ≡ (s', ok o)) (found S agent ns id s s' o h).0 h

  module _ (session : SessionState) (id : InstanceId) where
    unchanged :
        {A : Type 0} (s s' : S.State) (a : A) (x : S.State × Result Error A)
        → x ≡ (s, ok a)
        → x ≡ (s', ok a)
        → s ≡ s'
    unchanged {A} s s' a x p q = ap (λ (x : S.State × Result Error A). x.0) (sym p ∙ q)

    drain_found-again :
        (s s' : S.State) (o : Option InstanceStatusRecord)
        → finding session.namespace id s ≡ (s, ok o)
        → drain_found S agent o s ≡ (s', ok tt)
        → drain_instance S agent session id s' ≡ (s', ok tt)
    unfolding drain_instance phase_eq
    drain_found-again s s' none here h =
        subst (λ x. drain_instance S agent session id x ≡ (s', ok tt)) (unchanged s s' tt _ refl h)
          (next-ok S _ _ here h)
    drain_found-again s s' (some r) here h =
        elim (if-cases (r.phase == InstancePhase.draining) _ _ h) [
          | inl kept ↦
              subst (λ x. drain_instance S agent session id x ≡ (s', ok tt))
                (unchanged s s' tt _ refl kept) (next-ok S _ _ here h)
          | inr stored ↦
              let (ns, same, is_here) = found-Local S agent store session.namespace id s s r here in
              next-ok S _ _
                (stored-found S agent store session.namespace id s s'
                  (drained r (S.now_unix_secs s)) stored ns same is_here)
                refl
        ]

    drain_instance-again :
        (s s' : S.State)
        → drain_instance S agent session id s ≡ (s', ok tt)
        → drain_instance S agent session id s' ≡ (s', ok tt)
    unfolding drain_instance
    drain_instance-again s s' h =
        let (o, s1, here, h1) = next-returned S _ _ h in
        drain_found-again s1 s' o (found_again session.namespace id s s1 o here) h1

    remove_found-again :
        (s s' : S.State) (o : Option InstanceStatusRecord)
        → finding session.namespace id s ≡ (s, ok o)
        → remove_found S agent session o s ≡ (s', ok tt)
        → remove_instance S agent session id s' ≡ (s', ok tt)
    unfolding remove_instance
    remove_found-again s s' none here h =
        subst (λ x. remove_instance S agent session id x ≡ (s', ok tt)) (unchanged s s' tt _ refl h)
          (next-ok S _ _ here h)
    remove_found-again s s' (some r) here h =
        let (_, same, _) = found-Local S agent store session.namespace id s s r here in
        let (_, s1, _, h1) = next-returned S _ _ h in
        let (_, s2, _, gone) = next-returned S _ _ h1 in
        next-ok S _ _
          (deleted-found S agent store session.namespace id s2 s'
            (subst (λ x. S.delete_instance_status s2 x ≡ (s', ok tt)) same gone))
          refl

    remove_instance-again :
        (s s' : S.State)
        → remove_instance S agent session id s ≡ (s', ok tt)
        → remove_instance S agent session id s' ≡ (s', ok tt)
    unfolding remove_instance
    remove_instance-again s s' h =
        let (o, s1, here, h1) = next-returned S _ _ h in
        remove_found-again s1 s' o (found_again session.namespace id s s1 o here) h1

    -- The specification of a started candidate, its instance and its status carry the identifier.
    start_container-made :
        (r : StartCandidate) (s s' : S.State) (i : ManagedInstance)
        → start_container S agent r s ≡ (s', ok i)
        → (i.instance_id ≡ r.instance_id) × (i.machine_id ≡ r.machine_id)
    unfolding start_container
    start_container-made r s s' i h =
        let (spec, s1, _, h1) = next-returned S _ _ h in
        let (made, s2, _, h2) = next-returned S _ _ h1 in
        let same = ok_injective (ap (λ (x : S.State × Result Error ManagedInstance). x.1) h2) in
        (
          ap (λ (i : ManagedInstance). i.instance_id) (sym same),
          ap (λ (i : ManagedInstance). i.machine_id) (sym same),
        )

    store_ready-found :
        (i : ManagedInstance) (s s' : S.State) (st : InstanceStatusRecord)
        → i.instance_id ≡ id
        → i.machine_id ≡ agent.local_machine_id
        → store_ready S agent session i s ≡ (s', ok st)
        → finding session.namespace id s' ≡ (s', ok (some st))
    unfolding store_ready
    store_ready-found i s s' st same here h =
        let status = status_of S session.namespace i (S.now_unix_secs s) in
        let (_, s1, stored, h1) = next-returned S (S.upsert_instance_status s status) _ h in
        let kept =
          stored-found S agent store session.namespace id s s1 status stored refl same
            (rw here (==_refl agent.local_machine_id)) in
        subst
          (λ (x : S.State × InstanceStatusRecord).
            finding session.namespace id x.0 ≡ (x.0, ok (some x.1)))
          (λ k. (
            ap (λ (x : S.State × Result Error InstanceStatusRecord). x.0) h1 k,
            ok_injective (ap (λ (x : S.State × Result Error InstanceStatusRecord). x.1) h1) k,
          ))
          kept

    start_spec-found :
        (service : Text) (slot_id : SlotId) (spec : ServiceSpec) (s s' : S.State)
        (st : InstanceStatusRecord)
        → start_spec S agent session service slot_id id spec s ≡ (s', ok st)
        → finding session.namespace id s' ≡ (s', ok (some st))
    unfolding start_spec
    start_spec-found service slot_id spec s s' st h =
        elim (if-cases (not (spec.name == service)) _ _ h) [
          | inl other ↦ cc other
          | inr begun ↦
              let (hash, s1, _, h1) = next-returned S _ _ begun in
              let (_, s2, _, h2) = next-returned S _ _ h1 in
              let (i, s3, made, h3) = next-returned S _ _ h2 in
              let (_, s4, _, h4) = next-returned S _ _ h3 in
              let (same, here) =
                start_container-made (candidate_of S agent session slot_id id spec hash) s2 s3 i
                  made in
              store_ready-found i s4 s' st same here h4
        ]

    start_found-again :
        (service : Text) (slot_id : SlotId) (spec_json : Text) (s s' : S.State)
        (o : Option InstanceStatusRecord) (st : InstanceStatusRecord)
        → finding session.namespace id s ≡ (s, ok o)
        → start_found S agent session service slot_id id spec_json o s ≡ (s', ok st)
        → start_candidate S agent session service slot_id id spec_json s' ≡ (s', ok st)
    unfolding start_candidate
    start_found-again service slot_id spec_json s s' none st here h =
        let (spec, s1, _, h1) = next-returned S _ _ h in
        next-ok S _ _ (start_spec-found service slot_id spec s1 s' st h1) refl
    start_found-again service slot_id spec_json s s' (some r) st here h =
        subst (λ x. start_candidate S agent session service slot_id id spec_json x ≡ (s', ok st))
          (ap (λ (x : S.State × Result Error InstanceStatusRecord). x.0) h) (next-ok S _ _ here h)

    start_candidate-again :
        (service : Text) (slot_id : SlotId) (spec_json : Text) (s s' : S.State)
        (st : InstanceStatusRecord)
        → start_candidate S agent session service slot_id id spec_json s ≡ (s', ok st)
        → start_candidate S agent session service slot_id id spec_json s' ≡ (s', ok st)
    unfolding start_candidate
    start_candidate-again service slot_id spec_json s s' st h =
        let (o, s1, here, h1) = next-returned S _ _ h in
        start_found-again service slot_id spec_json s1 s' o st
          (found_again session.namespace id s s1 o here) h1

  answered-ok :
      (x : S.State × Result Error DeployFrame) (s' : S.State) (response : DeployFrame)
      → answered S agent x ≡ (s', response)
      → is_error response ≡ false
      → x ≡ (s', ok response)
  answered-ok (s, ok r) s' response h n = ap (λ (x : S.State × DeployFrame). (x.0, ok x.1)) h
  answered-ok (s, err e) s' response h n =
      let wrong =
        subst (λ r. is_error r ≡ false) (sym (ap (λ (x : S.State × DeployFrame). x.1) h)) n in
      cc wrong

  -- A command that has been answered, and not by an error, is answered alike from the state it leaves.
  asked-again :
      (session : SessionState) (frame : DeployFrame) (s s' : S.State) (response : DeployFrame)
      → is_inspect frame ≡ false
      → asked S agent session frame s ≡ (s', ok response)
      → asked S agent session frame s' ≡ (s', ok response)
  asked-again session (open_frame ns deploy_id coordinator_id) s s' response n h = cc h
  asked-again session inspect_frame s s' response n h = cc n
  asked-again session (start_frame service slot_id id spec_json) s s' response n h =
      let (st, s1, started, h1) = next-returned S _ _ h in
      let same = ap (λ (x : S.State × Result Error DeployFrame). x.0) h1 in
      subst
        (λ x.
          asked S agent session (start_frame service slot_id id spec_json) x ≡ (s', ok response))
        same
        (next-ok S _ _ (start_candidate-again session id service slot_id spec_json s s1 st started)
          h1)
  asked-again session (drain_frame id) s s' response n h =
      let (_, s1, drained, h1) = next-returned S _ _ h in
      let same = ap (λ (x : S.State × Result Error DeployFrame). x.0) h1 in
      subst (λ x. asked S agent session (drain_frame id) x ≡ (s', ok response)) same
        (next-ok S _ _ (drain_instance-again session id s s1 drained) h1)
  asked-again session (remove_frame id) s s' response n h =
      let (_, s1, gone, h1) = next-returned S _ _ h in
      let same = ap (λ (x : S.State × Result Error DeployFrame). x.0) h1 in
      subst (λ x. asked S agent session (remove_frame id) x ≡ (s', ok response)) same
        (next-ok S _ _ (remove_instance-again session id s s1 gone) h1)
  asked-again session close_frame s s' response n h =
      subst (λ x. asked S agent session close_frame x ≡ (s', ok response))
        (ap (λ (x : S.State × Result Error DeployFrame). x.0) h) h
  asked-again session (opened_frame instances) s s' response n h = cc h
  asked-again session (namespace_snapshot instances) s s' response n h = cc h
  asked-again session (candidate_started status) s s' response n h = cc h
  asked-again session (ack message) s s' response n h = cc h
  asked-again session (error_frame code message) s s' response n h = cc h

-- A command of a session can be sent again: where the store shows what was last stored, a frame other
-- than an inspection that was answered, and not by an error, is answered alike when it comes once
-- more, and changes nothing: no second container is started or removed, and nothing is stored.
pub handle_session_frame-again :
    {N : PolicyNames} (S : AgentApi N) (agent : DeployAgent) (session : SessionState)
    (frame : DeployFrame) (s s' : S.State) (response : DeployFrame)
    → Stores S
    → is_inspect frame ≡ false
    → handle_session_frame S agent session frame s ≡ (s', response)
    → is_error response ≡ false
    → handle_session_frame S agent session frame s' ≡ (s', response)
unfolding handle_session_frame
handle_session_frame-again S agent session frame s s' response store n h good =
    ap (answered S agent) (
      asked-again S agent store session frame s s' response n
        (answered-ok S agent store _ s' response h good))
