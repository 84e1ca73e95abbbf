-- ===== src/Phase/Trace.antt =====
-- The phases that a row of events leads through.
use ployz.Prelude.{◌≡◌, refl, sym, ap, ◌∙◌, ◌⊎◌, inl, inr, List, [], ◌∷◌, ◌++◌}
use ployz.Model.Error.{Result, ok, ◌>>=◌}
use ployz.Phase.{
  Phase, stopped, starting, provisioning, bootstrapping, running, stopping, PhaseEvent,
  up_requested, network_ready, components_started, component_failed, sync_complete,
  detach_requested, destroy_requested, teardown_complete, transition, TransitionError,
}

-- All events in turn; the first that is refused ends the row.
unfoldable pub run : Phase → List PhaseEvent → Result TransitionError Phase
run p [] = ok p
run p (e ∷ es) = transition p e >>= λ q. run q es

-- The events that are left on the way up.
abbrev pub ascent : Phase → List PhaseEvent
ascent stopped = up_requested ∷ network_ready ∷ components_started ∷ sync_complete ∷ []
ascent starting = network_ready ∷ components_started ∷ sync_complete ∷ []
ascent provisioning = components_started ∷ sync_complete ∷ []
ascent bootstrapping = sync_complete ∷ []
ascent running = []
ascent stopping =
    teardown_complete ∷ up_requested ∷ network_ready ∷ components_started ∷ sync_complete ∷ []

-- A row of events from `p` to `running` is the rest of the way up from `p`, or has come by
-- `stopped` and gone all the way up from there.
abbrev pub ReachedRunning : Phase → List PhaseEvent → Type 0
ReachedRunning p es =
    (es ≡ ascent p)
    ⊎ ((before : List PhaseEvent) × (es ≡ before ++ ascent stopped) × (run p before ≡ ok stopped))

later :
    (p q : Phase) (e : PhaseEvent) (es : List PhaseEvent)
    → transition p e ≡ ok q
    → (before : List PhaseEvent) × (es ≡ before ++ ascent stopped) × (run q before ≡ ok stopped)
    → ReachedRunning p (e ∷ es)
unfolding run
later p q e es t (before, split, ends) = inr (e ∷ before, ap (◌∷◌ e) split, rw t ends)

-- A step on the way up.
onward :
    (p q : Phase) (e : PhaseEvent) (es : List PhaseEvent)
    → transition p e ≡ ok q
    → ascent p ≡ e ∷ ascent q
    → ReachedRunning q es
    → ReachedRunning p (e ∷ es)
onward p q e es t up (inl x) = inl (ap (◌∷◌ e) x ∙ sym up)
onward p q e es t up (inr x) = later p q e es t x

-- A step back to `stopped`.
setback :
    (p : Phase) (e : PhaseEvent) (es : List PhaseEvent)
    → transition p e ≡ ok stopped
    → ReachedRunning stopped es
    → ReachedRunning p (e ∷ es)
unfolding run
setback p e es t (inl x) = inr (e ∷ [], ap (◌∷◌ e) x, rw t)
setback p e es t (inr x) = later p stopped e es t x

destroyed :
    (p : Phase) (es : List PhaseEvent)
    → transition p destroy_requested ≡ ok stopping
    → ReachedRunning stopping es
    → ReachedRunning p (destroy_requested ∷ es)
unfolding run transition
destroyed p es t (inl x) =
    inr (destroy_requested ∷ teardown_complete ∷ [], ap (◌∷◌ destroy_requested) x, rw t)
destroyed p es t (inr x) = later p stopping destroy_requested es t x

reached : (p : Phase) (es : List PhaseEvent) → run p es ≡ ok running → ReachedRunning p es
unfolding run transition
reached running [] h = inl refl
reached stopped (up_requested ∷ es) h =
    onward stopped starting _ es refl refl (reached starting es h)
reached starting (network_ready ∷ es) h =
    onward starting provisioning _ es refl refl (reached provisioning es h)
reached provisioning (components_started ∷ es) h =
    onward provisioning bootstrapping _ es refl refl (reached bootstrapping es h)
reached bootstrapping (sync_complete ∷ es) h =
    onward bootstrapping running _ es refl refl (reached running es h)
reached stopping (teardown_complete ∷ es) h =
    onward stopping stopped _ es refl refl (reached stopped es h)
reached running (detach_requested ∷ es) h = setback running _ es refl (reached stopped es h)
reached starting (component_failed ∷ es) h = setback starting _ es refl (reached stopped es h)
reached provisioning (component_failed ∷ es) h =
    setback provisioning _ es refl (reached stopped es h)
reached bootstrapping (component_failed ∷ es) h =
    setback bootstrapping _ es refl (reached stopped es h)
reached stopped (destroy_requested ∷ es) h = destroyed stopped es refl (reached stopping es h)
reached starting (destroy_requested ∷ es) h = destroyed starting es refl (reached stopping es h)
reached provisioning (destroy_requested ∷ es) h =
    destroyed provisioning es refl (reached stopping es h)
reached bootstrapping (destroy_requested ∷ es) h =
    destroyed bootstrapping es refl (reached stopping es h)
reached running (destroy_requested ∷ es) h = destroyed running es refl (reached stopping es h)
reached _ _ h = cc

-- However a stopped mesh came to run, its last four events were the request, the network, the
-- components and the synchronisation, in this order, and it was stopped before them.
pub run-running :
    (es : List PhaseEvent)
    → run stopped es ≡ ok running
    → (before : List PhaseEvent) × (es
        ≡ before ++ up_requested ∷ network_ready ∷ components_started ∷ sync_complete ∷ [])
      × (run stopped before ≡ ok stopped)
unfolding run
run-running es h = elim (reached stopped es h) [ inl x ↦ ([], x, refl) | inr x ↦ x ]
