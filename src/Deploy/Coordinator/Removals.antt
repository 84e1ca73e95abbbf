-- ===== src/Deploy/Coordinator/Removals.antt =====
-- The commit of a deploy and the removals after it.
use ployz.Prelude.{
  ◌≡◌, refl, subst, true, false, List, [], ◌∷◌, contains, text_eq, arith, Bool-cases, inl, inr,
  if◌then◌else◌,
}
use ployz.Prelude.Text.{Text}
use ployz.Model.Error.{Error, Result, ok, err}
use ployz.Model.Machine.{MachineId}
use ployz.Model.Service.{ServiceReleaseRecord, InstanceStatusRecord, DeployRecord, DeployPreview}
use ployz.Manifest.Hash.{Json}
use ployz.Deploy.Effects.{World, Run, Call, pure}
use ployz.Deploy.Apply.{Deploy, clean_up_instance, after_drain, after_remove, is_stale, clean_up}
use ployz.Deploy.Coordinator.{active_instances, record_errors, finish, commit, committed}
use ployz.Deploy.Coordinator.Rules.{
  more, nothing, Ends, returned, open_in, call-IsGood, Good, Ends-mono, after_call, Ends-next,
  next-Ends, ok-Ends, Since, since, Since-trans,
}
use ployz.Deploy.Coordinator.Safe.{
  ReleasesBacked, HasCommitted, HasSession, IsUnused, IsSafe, HasCommitted-Makes,
  ReleasesBacked-Makes,
}

stale_unused :
    (active participants : List Text) (s : InstanceStatusRecord)
    → is_stale active participants s ≡ true
    → contains active s.instance_id ≡ false
stale_unused active participants s h = ground arith

module _ {Net : Type 0} (w : World Net) (json : Json) (d : Deploy) where
  -- A step that keeps the calls safe, from a run on.
  abbrev pub Keeps : {A : Type 0} → Run → Run × Result Error A → Type 0
  Keeps run = Ends (λ _ r. Since w (IsSafe w) run.history r) (Good w (IsSafe w))

  after_remove-Ends :
      (s : InstanceStatusRecord) (result : Result Error (Unit {0})) (run : Run)
      → Good w (IsSafe w) run
      → Keeps run (after_remove w json d s result run)
  after_remove-Ends s (ok _) run g = ok-Ends _ _ _ (returned (since w (IsSafe w) g))
  after_remove-Ends s (err e) run g = returned (since w (IsSafe w) g)

  after_drain-Ends :
      (s : InstanceStatusRecord) (result : Result Error (Unit {0})) (run : Run)
      → Good w (IsSafe w) run
      → HasSession w s.machine_id run.history
      → IsUnused w s.instance_id run.history
      → Keeps run (after_drain w json d s result run)
  unfolding open_in
  after_drain-Ends s (err e) run g h u = returned (since w (IsSafe w) g)
  after_drain-Ends s (ok _) run g h u =
      let removed = call-IsGood w (IsSafe w) (Call.remove_instance _ _) refl (h, u) g in
      ok-Ends _ _ _ (Ends-mono (after_remove-Ends s _ _ removed) λ _ r. after_call w (IsSafe w))

  clean_up_instance-Ends :
      (s : InstanceStatusRecord) (run : Run)
      → Good w (IsSafe w) run
      → HasSession w s.machine_id run.history
      → IsUnused w s.instance_id run.history
      → Keeps run (clean_up_instance w json d s run)
  unfolding clean_up_instance open_in
  clean_up_instance-Ends s run g h (releases, c, unused) =
      let u : IsUnused w s.instance_id run.history = (releases, c, unused) in
      let drained = call-IsGood w (IsSafe w) (Call.drain_instance _ _) refl (h, u) g in
      ok-Ends _ _ _ (
        Ends-mono (after_drain-Ends s _ _ drained h (releases, HasCommitted.later c, unused))
          λ _ r. after_call w (IsSafe w))

  module _ (releases : List ServiceReleaseRecord) (participants : List Text) where
    -- The step for one instance, after the look for its session.
    one-Ends :
        (s : InstanceStatusRecord) (run : Run)
        → Good w (IsSafe w) run
        → HasCommitted w releases run.history
        → Keeps run (
            (if is_stale (active_instances releases) participants s
                then (if contains run.sessions s.machine_id
                    then clean_up_instance w json d s
                    else pure [])
                else pure [])
              run)
    one-Ends s run g c = elim (Bool-cases (contains run.sessions s.machine_id)) [
      | inr absent ↦ elim (Bool-cases (is_stale (active_instances releases) participants s)) [
        | inr used ↦ rw used (returned (since w (IsSafe w) g))
        | inl stale ↦ rw (stale, absent) (returned (since w (IsSafe w) g))
      ]
      | inl present ↦ elim (Bool-cases (is_stale (active_instances releases) participants s)) [
        | inr used ↦ rw used (returned (since w (IsSafe w) g))
        | inl stale ↦
            let open_here =
              subst (λ (xs : List MachineId). contains xs s.machine_id ≡ true) g.in_step present in
            rw (stale, present)
              (clean_up_instance-Ends s run g open_here
                (releases, c, stale_unused (active_instances releases) participants s stale))
      ]
    ]

    clean_up-Ends :
        (statuses : List InstanceStatusRecord) (run : Run)
        → Good w (IsSafe w) run
        → HasCommitted w releases run.history
        → Keeps run (clean_up w json d (active_instances releases) participants statuses run)
    unfolding clean_up
    clean_up-Ends [] run g c = returned (since w (IsSafe w) g)
    clean_up-Ends (s ∷ rest) run g c = ok-Ends _ _ _ (
        Ends-next _ (one-Ends s run g c) λ errors run' first.
          Ends-next _ (clean_up-Ends rest run' first.good (HasCommitted-Makes w first.longer c))
            λ more run'' second. returned (Since-trans w (IsSafe w) first second))

  record_errors-Ends :
      (errors : List Text) (run : Run)
      → Good w (IsSafe w) run
      → Keeps run (record_errors errors run)
  unfolding record_errors
  record_errors-Ends [] run g = returned (since w (IsSafe w) g)
  record_errors-Ends (e ∷ es) run g = ok-Ends _ _ _ (record_errors-Ends es _ g)

  finish-Ends :
      (p : DeployPreview) (r : DeployRecord) (errors : List Text) (run : Run)
      → Good w (IsSafe w) run
      → Keeps run (finish w json d p r errors run)
  unfolding finish open_in
  finish-Ends p r [] run g = returned (since w (IsSafe w) g)
  finish-Ends p r (e ∷ es) run g =
      let timed = call-IsGood w (IsSafe w) Call.now_unix_secs refl tt g in
      let stored = call-IsGood w (IsSafe w) (Call.upsert_deploy _) refl tt timed in
      ok-Ends _ _ _ (
        next-Ends _ _ _ stored λ _ _.
          Ends-next _ (record_errors-Ends (e ∷ es) _ stored)
            λ _ run' after. returned (after_call w (IsSafe w) (after_call w (IsSafe w) after)))

  pub commit-Ends :
      (p : DeployPreview) (releases : List ServiceReleaseRecord) (run : Run)
      → Good w (IsSafe w) run
      → ReleasesBacked w run.history releases
      → Keeps run (commit w json d p releases run)
  unfolding commit open_in
  commit-Ends p releases run g backed =
      let timed = call-IsGood w (IsSafe w) Call.now_unix_secs refl tt g in
      let lifted = ReleasesBacked-Makes w {P = IsSafe w} releases (more nothing tt) backed in
      ok-Ends _ _ _ (
        next-Ends _ _ _ timed λ summary _.
          let written = call-IsGood w (IsSafe w) (Call.apply_deploy_commit _) refl lifted timed in
          next-Ends _ _ _ written λ _ accepted. ok-Ends _ _ _ (
            let listed = call-IsGood w (IsSafe w) (Call.list_instance_status _) refl tt written in
            next-Ends _ _ _ listed λ statuses _.
              let done = HasCommitted.later (HasCommitted.committed accepted refl) in
              Ends-next _ (clean_up-Ends releases _ statuses _ listed done) λ errors run' cleaned.
                Ends-mono
                  (finish-Ends p
                    (committed w json d p (w.clock (Call.now_unix_secs ∷ run.history)) summary)
                    errors run' cleaned.good)
                  λ _ run'' finished. after_call w (IsSafe w) (
                    after_call w (IsSafe w)
                      (after_call w (IsSafe w) (Since-trans w (IsSafe w) cleaned finished)))))
