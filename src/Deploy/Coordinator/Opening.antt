-- ===== src/Deploy/Coordinator/Opening.antt =====
-- The first part of a deploy: what it reads, and the sessions that it opens.
use ployz.Prelude.{
  ◌≡◌, refl, ap, Bool, true, false, List, [], ◌∷◌, All, text_eq, Option-cases, inl, inr,
}
use ployz.Prelude.Map
use ployz.Prelude.Map.{Map, All-insert, All-get}
use ployz.Prelude.Set
use ployz.Model.Error.{Error, Result, ok, err}
use ployz.Model.Machine.{MachineId, MachineRecord}
use ployz.Model.Service.{InstanceStatusRecord}
use ployz.Model.Spec.{DeployManifest}
use ployz.Manifest.Hash.{Json}
use ployz.Deploy.Effects.{World, Run, History, Call}
use ployz.Deploy.Preview.{preview}
use ployz.Deploy.Apply.{Deploy, machines_by_id, open_sessions}
use ployz.Deploy.Coordinator.Rules.{
  more, Ends, returned, open_in, call-IsGood, IsGood, Good, next-Ends, next-Ends_err, ok-Ends,
  Since, since, Ends-mono, after_call, result-Ends,
}

-- Calls that read, and the opening of sessions.
abbrev pub is_opening : Call → Bool
is_opening (Call.list_service_releases _) = true
is_opening Call.list_machines = true
is_opening Call.now_unix_secs = true
is_opening Call.new_uuid = true
is_opening (Call.open_session _ _ _ _) = true
is_opening _ = false

module _ {Net : Type 0} where
  abbrev pub HasItsId : MachineId × MachineRecord Net → Type 0
  HasItsId e = e.1.id ≡ e.0

  pub machines_by_id-HasItsId :
      (machines : List (MachineRecord Net)) (m : Map MachineId (MachineRecord Net))
      → All HasItsId m
      → All HasItsId (machines_by_id machines m)
  unfolding machines_by_id
  machines_by_id-HasItsId [] m h = h
  machines_by_id-HasItsId (r ∷ rs) m h =
      machines_by_id-HasItsId rs (Map.insert r.id r m) (All-insert HasItsId r.id r m refl h)

module _ {Net : Type 0} (w : World Net) (P : Call → History → Type 0)
    (opening : (c : Call) (h : History) → is_opening c ≡ true → P c h) where
  -- A step that keeps the calls so, from a run on.
  abbrev pub Stays : {A : Type 0} → Run → Run × Result Error A → Type 0
  Stays run = Ends (λ _ r. Since w P run.history r) (Good w P)

  pub preview-Ends :
      (json : Json) (local_machine_id : MachineId) (manifest : DeployManifest) (run : Run)
      → Good w P run
      → Stays run (preview w json local_machine_id manifest run)
  unfolding preview open_in
  preview-Ends json local_machine_id manifest run g = next-Ends _ _ _ g λ _ _.
      let listed = call-IsGood w P (Call.list_service_releases _) refl (opening _ _ refl) g in
      next-Ends _ _ _ listed λ records _.
        let found = call-IsGood w P Call.list_machines refl (opening _ _ refl) listed in
        next-Ends _ _ _ found λ machines _.
          let timed = call-IsGood w P Call.now_unix_secs refl (opening _ _ refl) found in
          ok-Ends _ _ _ (
            result-Ends w P _ _
              (after_call w P (after_call w P (after_call w P (since w P timed)))))

  module _ (json : Json) (d : Deploy) (machine_map : Map MachineId (MachineRecord Net))
      (ids : All HasItsId machine_map) where
    abbrev open_call : MachineId → Call
    open_call m = Call.open_session m d.namespace d.deploy_id d.local_machine_id

    -- A session that could not be opened is none.
    refused-IsGood :
        (m : MachineId) (e : Error) (run : Run)
        → Good w P run
        → w.opened (open_call m ∷ run.history) ≡ err e
        → IsGood w P (open_call m ∷ run.history) run.sessions
    unfolding open_in
    refused-IsGood m e run g q = call-IsGood w P (open_call m) (rw q refl) (opening _ _ refl) g

    opened-IsGood :
        (m participant : MachineId) (instances : List InstanceStatusRecord) (run : Run)
        → Good w P run
        → m ≡ participant
        → w.opened (open_call m ∷ run.history) ≡ ok instances
        → IsGood w P (open_call m ∷ run.history) (Set.insert participant run.sessions)
    unfolding open_in
    opened-IsGood m participant instances run g same q = record {
      made = more g.made (opening _ _ refl);
      in_step = rw q (rw (← same) (ap (Set.insert m) g.in_step));
    }

    pub open_sessions-Ends :
        (participants : List MachineId) (run : Run)
        → Good w P run
        → Stays run (open_sessions w json d machine_map participants run)
    unfolding open_sessions
    open_sessions-Ends [] run g = returned (since w P g)
    open_sessions-Ends (p ∷ ps) run g = elim (Option-cases (Map.get p machine_map)) [
      | inl absent ↦ rw absent (next-Ends _ _ _ g λ machine impossible. cc)
      | inr (machine, found) ↦
          let named : machine.id ≡ p = All-get HasItsId p machine machine_map ids found in
          rw found (
            ok-Ends _ _ _ (
              next-Ends_err _ _ _ (λ e q. refused-IsGood machine.id e run g q)
                λ instances q.
                  let good = opened-IsGood machine.id p instances run g named q in
                  ok-Ends _ _ _ (
                    ok-Ends _ _ _
                      (Ends-mono (open_sessions-Ends ps _ good) λ _ r. after_call w P))))
    ]
