-- ===== src/Deploy/Preview.antt =====
-- `preview` of crates/ployz-orchestrator/src/deploy/mod.rs: its calls, and the plan from the answers.
use ployz.Model.Error.{map_err}
use ployz.Model.Machine.{MachineId}
use ployz.Model.Service.{DeployPreview}
use ployz.Model.Spec.{DeployManifest}
use ployz.Manifest.{validate}
use ployz.Manifest.Hash.{Json}
use ployz.Deploy.Effects.{World, M, ◌>>=◌, ◌>>◌, of_result, call, ask, Call}
use ployz.Deploy.Plan.{preview_error, preview_of}

unfoldable pub preview :
    {Net : Type 0} → World Net → Json → MachineId → DeployManifest → M DeployPreview
unfolding validate preview_of
preview w json local_machine_id manifest =
    of_result (map_err preview_error (validate manifest))
    >> call w.releases (Call.list_service_releases manifest.namespace)
    >>= λ current_releases. call w.machines Call.list_machines >>= λ machines.
        ask w.clock Call.now_unix_secs >>= λ now.
        of_result (preview_of json local_machine_id manifest current_releases machines now)
