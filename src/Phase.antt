-- ===== src/Phase.antt =====
-- The mesh's phases: crates/ployz-orchestrator/src/mesh/phase.rs.
pub mod Graph
pub mod Trace
use ployz.Prelude.{List, [], ◌∷◌}
use ployz.Prelude.Text.{Text}
use ployz.Model.Error.{Result, ok, err}

pub data Phase : Type 0 where
  stopped starting provisioning bootstrapping running stopping : Phase

pub data PhaseEvent : Type 0 where
  up_requested network_ready components_started component_failed sync_complete detach_requested
        destroy_requested teardown_complete :
      PhaseEvent

pub data TransitionError : Type 0 where
  invalid : (from : Phase) (event : PhaseEvent) → TransitionError
  bootstrap_timeout : (reason : Text) → TransitionError

-- The rows of the source that succeed; every other pair of the table is an `Invalid` error.
unfoldable pub transition : Phase → PhaseEvent → Result TransitionError Phase
transition stopped up_requested = ok starting
transition starting network_ready = ok provisioning
transition provisioning components_started = ok bootstrapping
transition starting component_failed = ok stopped
transition provisioning component_failed = ok stopped
transition bootstrapping component_failed = ok stopped
transition bootstrapping sync_complete = ok running
transition running detach_requested = ok stopped
transition stopped destroy_requested = ok stopping
transition starting destroy_requested = ok stopping
transition running destroy_requested = ok stopping
transition provisioning destroy_requested = ok stopping
transition bootstrapping destroy_requested = ok stopping
transition stopping teardown_complete = ok stopped
transition current event = err (invalid current event)
