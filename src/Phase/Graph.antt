-- ===== src/Phase/Graph.antt =====
-- The diagram of the phases as a relation, and that `transition` decides it.
use ployz.Prelude.{◌≡◌, ◌≢◌, ◌↔◌, refl, arith}
use ployz.Model.Error.{ok, err}
use ployz.Phase.{
  Phase, stopped, starting, provisioning, bootstrapping, running, stopping, PhaseEvent,
  up_requested, network_ready, components_started, component_failed, sync_complete,
  detach_requested, destroy_requested, teardown_complete, transition, TransitionError, invalid,
}

-- The phases of a start that is under way.
pub data IsComingUp : Phase → Type 0 where
  at_starting : IsComingUp starting
  at_provisioning : IsComingUp provisioning
  at_bootstrapping : IsComingUp bootstrapping

-- The life of a mesh: three steps up, a fall back on failure, a detach, and a teardown that any
-- phase but itself can begin.
pub data Step : Phase → PhaseEvent → Phase → Type 0 where
  request : Step stopped up_requested starting
  network : Step starting network_ready provisioning
  components : Step provisioning components_started bootstrapping
  synced : Step bootstrapping sync_complete running
  fail : {p : Phase} → IsComingUp p → Step p component_failed stopped
  detach : Step running detach_requested stopped
  destroy : {p : Phase} → p ≢ stopping → Step p destroy_requested stopping
  teardown : Step stopping teardown_complete stopped

ruleset edges = (
  request, network, components, synced, fail, detach, destroy, teardown, at_starting,
  at_provisioning, at_bootstrapping,
)

-- An accepted event follows the diagram.
pub Step-of_transition :
    (p : Phase) (e : PhaseEvent) (q : Phase) → transition p e ≡ ok q → Step p e q
unfolding transition
Step-of_transition p e q h = grind (arith, edges)

pub transition-of_Step :
    {p : Phase} {e : PhaseEvent} {q : Phase} → Step p e q → transition p e ≡ ok q
unfolding transition
transition-of_Step request = refl
transition-of_Step network = refl
transition-of_Step components = refl
transition-of_Step synced = refl
transition-of_Step (fail at_starting) = refl
transition-of_Step (fail at_provisioning) = refl
transition-of_Step (fail at_bootstrapping) = refl
transition-of_Step detach = refl
transition-of_Step (destroy {p} h) = ground arith
transition-of_Step teardown = refl

-- An event is accepted, with the phase that follows, exactly when the diagram has that edge.
pub transition_iff : (p : Phase) (e : PhaseEvent) (q : Phase) → (transition p e ≡ ok q) ↔ Step p e q
transition_iff p e q = (Step-of_transition p e q, transition-of_Step)

-- An event that is not accepted is reported with the phase and the event, and nothing else is.
pub transition-err :
    (p : Phase) (e : PhaseEvent) (x : TransitionError) → transition p e ≡ err x → x ≡ invalid p e
unfolding transition
transition-err p e x h = ground arith
