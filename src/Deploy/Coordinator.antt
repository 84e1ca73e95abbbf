-- ===== src/Deploy/Coordinator.antt =====
-- The whole of `apply` of crates/ployz-orchestrator/src/deploy/mod.rs, from the steps of Apply.
pub mod Rules
pub mod Safe
pub mod Candidates
pub mod Removals
pub mod Opening
pub mod Whole
use ployz.Prelude.{
  ℕ, Bool, true, false, none, some, List, [], ◌∷◌, ◌++◌, map, not, ◌==◌, text_eq, is_empty, keep,
  if◌then◌else◌, list_eq,
}
use ployz.Prelude.Text.{Text, codes}
use ployz.Prelude.Set
use ployz.Prelude.Sort.{sort_by}
use ployz.Model.Error.{Result, ok, map_err}
use ployz.Model.Machine.{MachineId, MachineRecord}
use ployz.Model.Service.{
  ServiceReleaseSlot, ServiceReleaseRecord, DeployRecord, DeployState, DeployCommit, DeployEvent,
  DeployPreview, DeployApplyResult, ServicePlan, remove, change_eq,
}
use ployz.Model.Spec.{DeployManifest}
use ployz.Manifest.Hash.{Json}
use ployz.Deploy.{id_le, deployable_machines, current_slots_from}
use ployz.Deploy.Effects.{
  World, Run, M, ◌>>=◌, ◌>>◌, pure, of_result, call, ask, attempt, record_event, Call,
}
use ployz.Deploy.Preview.{preview}
use ployz.Deploy.Apply.{
  Deploy, apply_error, event, commit_event, slots_of, machines_by_id, open_sessions,
  deploy_services, clean_up, close_sessions,
}

abbrev pub removed_services : List ServicePlan → List Text
removed_services plans =
    map (λ (p : ServicePlan). p.service) (keep (λ (p : ServicePlan). p.action == remove) plans)

abbrev pub slot_instance : ServiceReleaseSlot → Text
slot_instance s = s.active_instance_id

-- The instances that releases use, as a set.
abbrev pub active_instances : List ServiceReleaseRecord → List Text
active_instances releases = Set.insert_all slot_instance (slots_of releases) []

abbrev pub participant_set : List MachineId → List Text
participant_set participants = Set.insert_all (λ (m : MachineId). m) participants []

-- `events.push` for every error.
unfoldable pub record_errors : List Text → M (Unit {0})
record_errors [] = pure tt
record_errors (e ∷ es) = record_event (event (codes "cleanup_pending") e) >> record_errors es

abbrev pub changed_participants : Text
changed_participants = codes "participant set changed after lock acquisition; retry deploy"

module _ {Net : Type 0} (w : World Net) (json : Json) (d : Deploy) where
  abbrev pub summary : DeployPreview → M Text
  summary p =
      of_result (map_err (λ e. apply_error (codes "serialize preview: " ++ e)) (json.preview p))

  abbrev pub result_with : DeployPreview → DeployState → M DeployApplyResult
  result_with p state run = (
    run,
    ok (record { deploy_id = d.deploy_id; preview = p; state = state; events = run.events }),
  )

  abbrev pub applying : DeployPreview → Text → DeployRecord
  applying p summary_json = record {
    deploy_id = d.deploy_id;
    namespace = d.namespace;
    coordinator_machine_id = d.local_machine_id;
    manifest_hash = p.manifest_hash;
    state = DeployState.applying;
    started_at = d.started_at;
    committed_at = none;
    finished_at = none;
    summary_json = summary_json;
  }

  abbrev pub committed : DeployPreview → ℕ → Text → DeployRecord
  committed p now summary_json = record (applying p summary_json) {
    state = DeployState.committed;
    committed_at = some now;
    finished_at = some now;
  }

  -- After the removals: the deploy is complete, or is left with some to do.
  unfoldable pub finish : DeployPreview → DeployRecord → List Text → M DeployApplyResult
  unfolding record_errors
  finish p r errors =
      let pending = ask w.clock Call.now_unix_secs >>= λ now.
      call w.done (
        Call.upsert_deploy
          (record r { state = DeployState.cleanup_pending; finished_at = some now }))
      >> record_errors errors
      >> result_with p DeployState.cleanup_pending in
      if is_empty errors then result_with p DeployState.committed else pending

  -- From the new releases on.
  unfoldable pub commit : DeployPreview → List ServiceReleaseRecord → M DeployApplyResult
  unfolding clean_up finish Set.insert_all text_eq change_eq
  commit p releases = ask w.clock Call.now_unix_secs >>= λ now. summary p >>= λ summary_json.
      call w.done (
        Call.apply_deploy_commit (record {
          namespace = d.namespace;
          removed_services = removed_services p.services;
          releases = releases;
          deploy = committed p now summary_json;
        }))
      >> record_event (commit_event d)
      >> call w.statuses (Call.list_instance_status d.namespace)
      >>= λ statuses.
          clean_up w json d (active_instances releases) (participant_set p.participants) statuses
          >>= λ errors. finish p (committed p now summary_json) errors

  -- What runs while the sessions are open.
  unfoldable pub run_deploy :
      DeployManifest → List (MachineRecord Net) → DeployPreview → M DeployApplyResult
  unfolding preview current_slots_from deployable_machines deploy_services commit list_eq text_eq
  run_deploy manifest machines initial = preview w json d.local_machine_id manifest >>= λ final.
      of_result (
        if ◌==◌ ⦃e = list_eq⦄ final.participants initial.participants
        then ok tt
        else Result.err (apply_error changed_participants))
      >> summary final
      >>= λ summary_json.
          call w.done (Call.upsert_deploy (applying final summary_json))
          >> call w.releases (Call.list_service_releases d.namespace)
          >>= λ current. ask w.clock Call.now_unix_secs >>= λ now.
              deploy_services w json d (deployable_machines machines d.local_machine_id now)
                (current_slots_from current []) manifest.services
              >>= λ releases. commit final releases

  -- `for (_, session) in sessions`
  abbrev pub close_all : M (Unit {0})
  close_all run = close_sessions w json d run.sessions run

  -- The sessions are closed whatever came of the deploy.
  unfoldable pub with_sessions :
      DeployManifest → List (MachineRecord Net) → DeployPreview → M DeployApplyResult
  unfolding run_deploy close_sessions
  with_sessions manifest machines initial =
      attempt (run_deploy manifest machines initial) >>= λ result. close_all >> of_result result

unfoldable pub apply :
    {Net : Type 0} → World Net → Json → MachineId → DeployManifest → M DeployApplyResult
unfolding preview machines_by_id open_sessions with_sessions sort_by
apply w json local_machine_id manifest = ask w.uuid Call.new_uuid >>= λ deploy_id.
    ask w.clock Call.now_unix_secs >>= λ started_at.
    preview w json local_machine_id manifest >>= λ initial.
    call w.machines Call.list_machines >>= λ machines.
    let d : Deploy = record {
      namespace = manifest.namespace;
      deploy_id = deploy_id;
      local_machine_id = local_machine_id;
      started_at = started_at;
    } in
    open_sessions w json d (machines_by_id machines []) (sort_by id_le initial.participants)
    >> with_sessions w json d manifest machines initial
