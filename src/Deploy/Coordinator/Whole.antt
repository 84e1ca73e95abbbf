-- ===== src/Deploy/Coordinator/Whole.antt =====
-- A deploy from its start to its end.
use ployz.Prelude.{
  ◌≡◌, refl, sym, subst, true, false, List, [], ◌∷◌, All, contains, text_eq, arith, ◌⊎◌, inl, inr,
  Bool-cases, ◌==◌, ==_refl,
}
use ployz.Prelude.Sort.{sort_by}
use ployz.Model.Error.{Error, Result, ok, err}
use ployz.Model.Machine.{MachineId, MachineRecord}
use ployz.Model.Service.{DeployPreview}
use ployz.Model.Spec.{DeployManifest}
use ployz.Manifest.Hash.{Json}
use ployz.Deploy.{id_le}
use ployz.Deploy.Effects.{World, Run, History, Call}
use ployz.Deploy.Apply.{Deploy, machines_by_id, close_sessions}
use ployz.Deploy.Coordinator.{run_deploy, with_sessions, apply}
use ployz.Deploy.Coordinator.Rules.{
  Makes, Makes-mono, more, nothing, Ends, returned, failed, open_in, without, call-IsGood, IsGood,
  Good, Ends-next, Ends-run, Ends-map, next-Ends, ok-Ends, Since-trans, Ends-mono, after_call,
}
use ployz.Deploy.Coordinator.Safe.{IsSafe, HasRead}
use ployz.Deploy.Coordinator.Candidates.{deploy_services-Ends}
use ployz.Deploy.Coordinator.Removals.{Keeps, commit-Ends}
use ployz.Deploy.Coordinator.Opening.{
  is_opening, preview-Ends, open_sessions-Ends, machines_by_id-HasItsId,
}

-- Every one of the second list is in the first.
abbrev Within : List MachineId → List MachineId → Type 0
Within ms = All (λ x. contains ms x ≡ true)

Within-cons : (m : MachineId) (ms xs : List MachineId) → Within ms xs → Within (m ∷ ms) xs
Within-cons m ms [] h = tt
Within-cons m ms (x ∷ xs) h = (ground (arith, h.0), Within-cons m ms xs h.1)

Within-refl : (xs : List MachineId) → Within xs xs
Within-refl [] = tt
Within-refl (x ∷ xs) = (rw (==_refl x) refl, Within-cons x xs xs (Within-refl xs))

other_in :
    (m : MachineId) (ms : List MachineId) (x : MachineId)
    → (x == m) ≡ false
    → contains (m ∷ ms) x ≡ true
    → contains ms x ≡ true
other_in m ms x other h = ground arith

without-Within :
    (m : MachineId) (ms xs : List MachineId) → Within (m ∷ ms) xs → Within ms (without m xs)
without-Within m ms [] h = tt
without-Within m ms (x ∷ xs) h = elim (Bool-cases (x == m)) [
  | inl same ↦ rw same (without-Within m ms xs h.1)
  | inr other ↦ rw other (other_in m ms x other h.0, without-Within m ms xs h.1)
]

Within-none : (xs : List MachineId) → Within [] xs → xs ≡ []
Within-none [] h = refl
Within-none (x ∷ xs) h = cc (h.0)

opening-IsSafe :
    {Net : Type 0} (w : World Net) (c : Call) (h : History) → is_opening c ≡ true → IsSafe w c h
opening-IsSafe w (Call.list_service_releases _) h e = tt
opening-IsSafe w Call.list_machines h e = tt
opening-IsSafe w Call.now_unix_secs h e = tt
opening-IsSafe w Call.new_uuid h e = tt
opening-IsSafe w (Call.open_session _ _ _ _) h e = tt
opening-IsSafe w (Call.upsert_deploy _) h e = cc
opening-IsSafe w (Call.upsert_service_revision _) h e = cc
opening-IsSafe w (Call.start_candidate _ _) h e = cc
opening-IsSafe w (Call.upsert_instance_status _) h e = cc
opening-IsSafe w (Call.apply_deploy_commit _) h e = cc
opening-IsSafe w (Call.list_instance_status _) h e = cc
opening-IsSafe w (Call.drain_instance _ _) h e = cc
opening-IsSafe w (Call.remove_instance _ _) h e = cc
opening-IsSafe w (Call.close_session _) h e = cc

module _ {Net : Type 0} (w : World Net) where
  -- The calls of the first part: they are safe too.
  abbrev Opens : Call → History → Type 0
  Opens c h = IsSafe w c h × (is_opening c ≡ true)

  -- How a deploy leaves its sessions.
  abbrev Closed : History → Type 0
  Closed h = Makes (IsSafe w) [] h × (open_in w h ≡ [])

  abbrev Complete : History → Type 0
  Complete h =
      Makes (IsSafe w) [] h × ((open_in w h ≡ []) ⊎ Makes (λ c _. is_opening c ≡ true) [] h)

  module _ (json : Json) (d : Deploy) where
    close_sessions-Closed :
        (ms : List MachineId) (run : Run)
        → Makes (IsSafe w) [] run.history
        → Within ms (open_in w run.history)
        → Ends (λ _ r. Closed r.history) (λ r. Closed r.history) (close_sessions w json d ms run)
    unfolding close_sessions open_in
    close_sessions-Closed [] run made all = returned (made, Within-none _ all)
    close_sessions-Closed (m ∷ ms) run made all = ok-Ends _ _ _ (
        close_sessions-Closed ms _ (more made tt) (without-Within m ms (open_in w run.history) all))

    run_deploy-Ends :
        (manifest : DeployManifest) (machines : List (MachineRecord Net)) (initial : DeployPreview)
        (run : Run)
        → Good w (IsSafe w) run
        → Keeps w json d run (run_deploy w json d manifest machines initial run)
    unfolding run_deploy open_in
    run_deploy-Ends manifest machines initial run g =
        Ends-next _
          (preview-Ends w (IsSafe w) (opening-IsSafe w) json d.local_machine_id manifest run g)
          λ final run1 first. next-Ends _ _ _ first.good λ _ _.
            next-Ends _ _ _ first.good λ summary _.
              let stored = call-IsGood w (IsSafe w) (Call.upsert_deploy _) refl tt first.good in
              next-Ends _ _ _ stored λ _ _.
                let listed =
                  call-IsGood w (IsSafe w) (Call.list_service_releases _) refl tt stored in
                next-Ends _ _ _ listed λ current found.
                  let timed = call-IsGood w (IsSafe w) Call.now_unix_secs refl tt listed in
                  ok-Ends _ _ _ (
                    Ends-next _
                      (deploy_services-Ends w json d _ _ manifest.services _ timed
                        (HasRead.later (HasRead.read found refl)))
                      λ releases run2 (second, backed).
                        let committed =
                          commit-Ends w json d final releases run2 second.good backed in
                        Ends-mono committed λ _ run3 third.
                          let through = Since-trans w (IsSafe w) second third in
                          Since-trans w (IsSafe w) first (
                            after_call w (IsSafe w)
                              (after_call w (IsSafe w) (after_call w (IsSafe w) through))))

    result-Closed :
        {A : Type 0} (result : Result Error A) (run : Run)
        → Closed run.history
        → Ends (λ _ r. Closed r.history) (λ r. Closed r.history) (run, result)
    result-Closed (ok a) run c = returned c
    result-Closed (err e) run c = failed c

    with_sessions-Closed :
        (manifest : DeployManifest) (machines : List (MachineRecord Net)) (initial : DeployPreview)
        (run : Run)
        → Good w (IsSafe w) run
        → Ends
            (λ _ r. Closed r.history)
            (λ r. Closed r.history)
            (with_sessions w json d manifest machines initial run)
    unfolding with_sessions
    with_sessions-Closed manifest machines initial run g =
        let good =
          Ends-run (Good w (IsSafe w)) (run_deploy-Ends manifest machines initial run g)
            (λ _ r s. s.good) (λ r g'. g') in
        ok-Ends _ _ _ (
          Ends-next _
            (close_sessions-Closed _ _ good.made (
              subst
                (λ xs.
                  Within xs
                    (open_in w (run_deploy w json d manifest machines initial run).0.history))
                (sym good.in_step) (Within-refl _)))
            λ _ r closed. result-Closed _ r closed)

  opening-Opens : (c : Call) (h : History) → is_opening c ≡ true → Opens c h
  opening-Opens c h e = (opening-IsSafe w c h e, e)

  Opens-IsSafe :
      {h : History} {sessions : List MachineId}
      → IsGood w Opens h sessions
      → IsGood w (IsSafe w) h sessions
  Opens-IsSafe g = record { made = Makes-mono (λ c h p. p.0) g.made; in_step = g.in_step }

  Opens-Complete :
      {h : History} {sessions : List MachineId} → IsGood w Opens h sessions → Complete h
  Opens-Complete g = (Makes-mono (λ c h p. p.0) g.made, inr (Makes-mono (λ c h p. p.1) g.made))

  apply-Complete :
      (json : Json) (local_machine_id : MachineId) (manifest : DeployManifest) (run : Run)
      → Good w Opens run
      → Ends
          (λ _ r. Complete r.history)
          (λ r. Complete r.history)
          (apply w json local_machine_id manifest run)
  unfolding apply open_in
  apply-Complete json local_machine_id manifest run g =
      let named = call-IsGood w Opens Call.new_uuid refl (tt, refl) g in
      let timed = call-IsGood w Opens Call.now_unix_secs refl (tt, refl) named in
      let previewed = preview-Ends w Opens opening-Opens json local_machine_id manifest _ timed in
      ok-Ends _ _ _ (
        ok-Ends _ _ _ (
          Ends-next _ (Ends-map previewed (λ _ _ s. s) (λ _ g'. Opens-Complete g'))
            λ initial run1 first.
              let listed = call-IsGood w Opens Call.list_machines refl (tt, refl) first.good in
              next-Ends _ _ _ (Opens-Complete listed) λ machines _.
                let d : Deploy = record {
                  namespace = manifest.namespace;
                  deploy_id = w.uuid (Call.new_uuid ∷ run.history);
                  local_machine_id = local_machine_id;
                  started_at = w.clock (Call.now_unix_secs ∷ Call.new_uuid ∷ run.history);
                } in
                let opened =
                  open_sessions-Ends w Opens opening-Opens json d (machines_by_id machines [])
                    (machines_by_id-HasItsId machines [] tt) (sort_by id_le initial.participants) _
                    listed in
                Ends-next _ (Ends-map opened (λ _ _ s. s) (λ _ g'. Opens-Complete g'))
                  λ _ run2 second.
                    let closed =
                      with_sessions-Closed json d manifest machines initial run2
                        (Opens-IsSafe second.good) in
                    Ends-map closed (λ _ _ c. (c.0, inl c.1)) (λ _ c. (c.0, inl c.1))))

-- A deploy that starts with nothing done.
abbrev pub start : Run
start = record { history = []; sessions = []; events = [] }

module _ {Net : Type 0} (w : World Net) (json : Json) (local_machine_id : MachineId)
    (manifest : DeployManifest) where
  -- The calls of a whole deploy.
  abbrev pub calls : History
  calls = (apply w json local_machine_id manifest start).0.history

  complete : Complete w calls
  unfolding open_in
  complete =
      Ends-run (λ r. Complete w r.history)
        (apply-Complete w json local_machine_id manifest start
          (record { made = nothing; in_step = refl }))
        (λ _ r c. c) (λ r c. c)

  -- Whatever the store, the machines and the clock answer, and whether the deploy succeeds or fails,
  -- each call that it makes is safe where it is made: a commit has for every slot of its releases an
  -- instance that was started for that service and slot on that machine before, or that a release read
  -- before has there with the same revision; a candidate is started, and an instance is drained or
  -- removed, only on a machine whose session is open; and an instance is drained or removed only after
  -- the store has accepted a commit whose releases do not use it.
  pub apply-IsSafe : Makes (IsSafe w) [] calls
  apply-IsSafe = complete.0

  -- When a deploy ends, in success or failure, no session is open, or all that it called was reads and
  -- the opening of sessions (the deploy failed there).
  pub apply-closes : (open_in w calls ≡ []) ⊎ Makes (λ c _. is_opening c ≡ true) [] calls
  apply-closes = complete.1
