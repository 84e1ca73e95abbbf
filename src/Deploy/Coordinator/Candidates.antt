-- ===== src/Deploy/Coordinator/Candidates.antt =====
-- The candidates of a deploy: every slot of the releases that it makes has its instance from
-- somewhere.
use ployz.Prelude.{
  ◌≡◌, refl, subst, Bool, true, Option, none, some, List, [], ◌∷◌, contains, text_eq, ◌==◌, ==_true,
  arith, Bool-cases, inl, inr, find-holds, if◌then◌else◌,
}
use ployz.Prelude.Text.{Text}
use ployz.Prelude.Map
use ployz.Prelude.Map.{Map}
use ployz.Model.Error.{Error, ok, err, returns}
use ployz.Model.Machine.{MachineId}
use ployz.Model.Service.{InstanceId, ServiceReleaseSlot}
use ployz.Model.Spec.{ServiceSpec}
use ployz.Manifest.Hash.{Json}
use ployz.Deploy.{DesiredSlot}
use ployz.Deploy.Effects.{World, Run, Call}
use ployz.Deploy.Plan.{is_current}
use ployz.Deploy.Apply.{
  Deploy, start_slot, instance_for, current_slot, release_slot, deploy_slots, deploy_services,
}
use ployz.Deploy.Coordinator.Rules.{
  Makes-trans, more, nothing, Ends, returned, open_in, call-IsGood, Good, Ends-next, next-Ends,
  ok-Ends, Since, since, Since-trans,
}
use ployz.Deploy.Coordinator.Safe.{
  SameSlot, HasRead, IsBacked, AreBacked, ReleasesBacked, IsSafe, HasRead-Makes, IsBacked-Makes,
  AreBacked-Makes,
}

present_of :
    (b : Bool) (e : Error)
    → (if b then ok tt else err e) ≡ returns {0} {E = Error} {A = Unit {0}} tt
    → b ≡ true
present_of b e h = ground arith

module _ {Net : Type 0} (w : World Net) (json : Json) (d : Deploy) where
  start_slot-Ends :
      (spec : ServiceSpec) (revision spec_json : Text) (desired : DesiredSlot) (run : Run)
      → Good w (IsSafe w) run
      → Ends
          (λ i r.
            Since w (IsSafe w) run.history r
            × IsBacked w spec.name (release_slot desired revision i) r.history)
          (Good w (IsSafe w))
          (start_slot w json d spec spec_json desired run)
  unfolding start_slot open_in
  start_slot-Ends spec revision spec_json desired run g =
      let named = call-IsGood w (IsSafe w) Call.new_uuid refl tt g in
      ok-Ends _ _ _ (
        ok-Ends _ _ _ (
          ok-Ends _ _ _ (
            next-Ends _ _ _ named λ _ present.
              let safe =
                subst (λ (xs : List MachineId). contains xs desired.machine_id ≡ true) g.in_step
                  (present_of _ _ present) in
              let asked =
                call-IsGood w (IsSafe w) (Call.start_candidate desired.machine_id _) refl safe
                  named in
              next-Ends _ _ _ asked λ status started.
                let stored =
                  call-IsGood w (IsSafe w) (Call.upsert_instance_status status) refl tt asked in
                next-Ends _ _ _ stored λ _ _. returned (
                  record { good = stored; longer = more (more (more nothing tt) tt) tt },
                  IsBacked.later (IsBacked.started started refl refl refl),
                ))))

  -- What a step for one slot comes to.
  abbrev Backs : Run → Text → DesiredSlot → Text → InstanceId → Run → Type 0
  Backs run service desired revision i r =
      Since w (IsSafe w) run.history r
      × IsBacked w service (release_slot desired revision i) r.history

  instance_of-Ends :
      (spec : ServiceSpec) (revision spec_json : Text) (desired : DesiredSlot)
      (old : Option ServiceReleaseSlot) (run : Run)
      → Good w (IsSafe w) run
      → ((s : ServiceReleaseSlot)
          → old ≡ some s
          → is_current s desired revision ≡ true
          → IsBacked w spec.name (release_slot desired revision s.active_instance_id) run.history)
      → Ends
          (Backs run spec.name desired revision)
          (Good w (IsSafe w))
          (instance_for w json d spec revision spec_json old desired run)
  unfolding instance_for
  instance_of-Ends spec revision spec_json desired none run g backed =
      start_slot-Ends spec revision spec_json desired run g
  instance_of-Ends spec revision spec_json desired (some s) run g backed =
      elim (Bool-cases (is_current s desired revision)) [
        | inl same ↦ rw same (returned (since w (IsSafe w) g, backed s refl same))
        | inr other ↦ rw other (start_slot-Ends spec revision spec_json desired run g)
      ]

  is_current-SameSlot :
      (s : ServiceReleaseSlot) (desired : DesiredSlot) (revision : Text)
      → s.slot_id ≡ desired.slot_id
      → is_current s desired revision ≡ true
      → SameSlot s (release_slot desired revision s.active_instance_id)
  is_current-SameSlot s desired revision id same = record {
    slot_id = id;
    machine_id = ==_true s.machine_id desired.machine_id (ground arith);
    instance = refl;
    revision = ==_true s.revision_hash revision (ground arith);
  }

  kept-IsBacked :
      (service : Text) (current : Map Text (List ServiceReleaseSlot))
      (slots : Option (List ServiceReleaseSlot)) (desired : DesiredSlot) (revision : Text)
      (s : ServiceReleaseSlot) (run : Run)
      → HasRead w current run.history
      → Map.get service current ≡ slots
      → current_slot slots desired ≡ some s
      → is_current s desired revision ≡ true
      → IsBacked w service (release_slot desired revision s.active_instance_id) run.history
  kept-IsBacked service current none desired revision s run r got e same = cc
  kept-IsBacked service current (some slots) desired revision s run r got e same =
      let named : s.slot_id ≡ desired.slot_id =
        ==_true s.slot_id desired.slot_id
          (find-holds (λ (x : ServiceReleaseSlot). x.slot_id == desired.slot_id) slots s e) in
      IsBacked.kept r got e (is_current-SameSlot s desired revision named same)

  module _ (current : Map Text (List ServiceReleaseSlot)) (spec : ServiceSpec)
      (revision spec_json : Text) where
    deploy_slots-Ends :
        (desired : List DesiredSlot) (run : Run)
        → Good w (IsSafe w) run
        → HasRead w current run.history
        → Ends
            (λ slots r. Since w (IsSafe w) run.history r × AreBacked w spec.name r.history slots)
            (Good w (IsSafe w))
            (deploy_slots w json d spec revision spec_json (Map.get spec.name current) desired run)
    unfolding deploy_slots
    deploy_slots-Ends [] run g r = returned (since w (IsSafe w) g, tt)
    deploy_slots-Ends (x ∷ xs) run g r =
        let here =
          instance_of-Ends spec revision spec_json x (current_slot (Map.get spec.name current) x)
            run g λ s e same. kept-IsBacked spec.name current _ x revision s run r refl e same in
        Ends-next _ here λ i run' (first, backed).
          let there = deploy_slots-Ends xs run' first.good (HasRead-Makes w first.longer r) in
          Ends-next _ there λ slots run'' (second, others).
            returned (
              Since-trans w (IsSafe w) first second,
              (IsBacked-Makes w second.longer backed, others),
            )

  pub deploy_services-Ends :
      (machines : List MachineId) (current : Map Text (List ServiceReleaseSlot))
      (specs : List ServiceSpec) (run : Run)
      → Good w (IsSafe w) run
      → HasRead w current run.history
      → Ends
          (λ releases r. Since w (IsSafe w) run.history r × ReleasesBacked w r.history releases)
          (Good w (IsSafe w))
          (deploy_services w json d machines current specs run)
  unfolding deploy_services open_in
  deploy_services-Ends machines current [] run g r = returned (since w (IsSafe w) g, tt)
  deploy_services-Ends machines current (spec ∷ specs) run g r = next-Ends _ _ _ g λ revision _.
      next-Ends _ _ _ g λ spec_json _.
        let stored = call-IsGood w (IsSafe w) (Call.upsert_service_revision _) refl tt g in
        next-Ends _ _ _ stored λ _ _. next-Ends _ _ _ stored λ desired _.
          Ends-next _
            (deploy_slots-Ends current spec revision spec_json desired _ stored (HasRead.later r))
            λ slots run' (first, backed).
              let timed = call-IsGood w (IsSafe w) Call.now_unix_secs refl tt first.good in
              let so_far = Makes-trans (more nothing tt) (more first.longer tt) in
              ok-Ends _ _ _ (
                Ends-next _
                  (deploy_services-Ends machines current specs _ timed (HasRead-Makes w so_far r))
                  λ releases run'' (second, others). returned (
                    record { good = second.good; longer = Makes-trans so_far second.longer },
                    (
                      AreBacked-Makes w spec.name slots
                          (Makes-trans (more nothing tt) second.longer) backed,
                      others,
                    ),
                  ))
