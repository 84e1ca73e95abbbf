-- ===== src/Deploy/Coordinator/Safe.antt =====
-- When a call of a deploy is safe.
use ployz.Prelude.{◌≡◌, true, false, some, List, [], ◌∷◌, All, contains, text_eq}
use ployz.Prelude.Text.{Text}
use ployz.Prelude.Map
use ployz.Prelude.Map.{Map}
use ployz.Model.Error.{ok}
use ployz.Model.Machine.{MachineId}
use ployz.Model.Service.{
  InstanceId, ServiceReleaseSlot, ServiceReleaseRecord, InstanceStatusRecord, DeployCommit,
}
use ployz.Model.Spec.{Namespace}
use ployz.Deploy.{slot_of, current_slots_from}
use ployz.Deploy.Effects.{World, History, Call, StartCandidateRequest}
use ployz.Deploy.Coordinator.{active_instances}
use ployz.Deploy.Coordinator.Rules.{open_in, Makes}

-- A slot that stays: on the machine, with the instance and of the revision that it had.
pub record SameSlot (old new : ServiceReleaseSlot) : Type 0 where
  pub slot_id : old.slot_id ≡ new.slot_id
  pub machine_id : old.machine_id ≡ new.machine_id
  pub instance : old.active_instance_id ≡ new.active_instance_id
  pub revision : old.revision_hash ≡ new.revision_hash

module _ {Net : Type 0} (w : World Net) where
  -- The history reads the releases, and their slots by service are these.
  pub data HasRead (current : Map Text (List ServiceReleaseSlot)) : History → Type 0 where
    read :
        {h : History} {ns : Namespace} {records : List ServiceReleaseRecord}
        → w.releases (Call.list_service_releases ns ∷ h) ≡ ok records
        → current_slots_from records [] ≡ current
        → HasRead current (Call.list_service_releases ns ∷ h)
    later : {h : History} {c : Call} → HasRead current h → HasRead current (c ∷ h)

  -- Where the instance of a slot comes from: it was started for that slot on that machine, or a
  -- release that was read has the slot so.
  pub data IsBacked (service : Text) (s : ServiceReleaseSlot) : History → Type 0 where
    started :
        {h : History} {r : StartCandidateRequest} {status : InstanceStatusRecord}
        → w.started (Call.start_candidate s.machine_id r ∷ h) ≡ ok status
        → status.instance_id ≡ s.active_instance_id
        → r.service ≡ service
        → r.slot_id ≡ s.slot_id
        → IsBacked service s (Call.start_candidate s.machine_id r ∷ h)
    kept :
        {h : History} {current : Map Text (List ServiceReleaseSlot)}
        {slots : List ServiceReleaseSlot} {old : ServiceReleaseSlot}
        → HasRead current h
        → Map.get service current ≡ some slots
        → slot_of s.slot_id slots ≡ some old
        → SameSlot old s
        → IsBacked service s h
    later : {h : History} {c : Call} → IsBacked service s h → IsBacked service s (c ∷ h)

  abbrev pub AreBacked : Text → History → List ServiceReleaseSlot → Type 0
  AreBacked service h = All (λ s. IsBacked service s h)

  abbrev pub ReleasesBacked : History → List ServiceReleaseRecord → Type 0
  ReleasesBacked h = All (λ (r : ServiceReleaseRecord). AreBacked r.service h r.release.slots)

  -- The history commits these releases, and the store accepts it.
  pub data HasCommitted (releases : List ServiceReleaseRecord) : History → Type 0 where
    committed :
        {h : History} {c : DeployCommit}
        → w.done (Call.apply_deploy_commit c ∷ h) ≡ ok tt
        → c.releases ≡ releases
        → HasCommitted releases (Call.apply_deploy_commit c ∷ h)
    later : {h : History} {c : Call} → HasCommitted releases h → HasCommitted releases (c ∷ h)

  -- Releases that the instance is not in have been committed.
  abbrev pub IsUnused : InstanceId → History → Type 0
  IsUnused i h =
      (releases : List ServiceReleaseRecord) × HasCommitted releases h
      × (contains (active_instances releases) i ≡ false)

  abbrev pub HasSession : MachineId → History → Type 0
  HasSession m h = contains (open_in w h) m ≡ true

  -- A commit releases only instances that have been started or were there; a session is used only
  -- while it is open; an instance is removed only after a commit of releases without it.
  abbrev pub IsSafe : Call → History → Type 0
  IsSafe (Call.apply_deploy_commit c) h = ReleasesBacked h c.releases
  IsSafe (Call.start_candidate m r) h = HasSession m h
  IsSafe (Call.drain_instance m i) h = HasSession m h × IsUnused i h
  IsSafe (Call.remove_instance m i) h = HasSession m h × IsUnused i h
  IsSafe c h = Unit

  pub HasRead-Makes :
      {P : Call → History → Type 0} {current : Map Text (List ServiceReleaseSlot)} {h h' : History}
      → Makes P h h'
      → HasRead current h
      → HasRead current h'
  HasRead-Makes Makes.nothing r = r
  HasRead-Makes (Makes.more made p) r = HasRead.later (HasRead-Makes made r)

  pub IsBacked-Makes :
      {P : Call → History → Type 0} {service : Text} {s : ServiceReleaseSlot} {h h' : History}
      → Makes P h h'
      → IsBacked service s h
      → IsBacked service s h'
  IsBacked-Makes Makes.nothing b = b
  IsBacked-Makes (Makes.more made p) b = IsBacked.later (IsBacked-Makes made b)

  pub AreBacked-Makes :
      {P : Call → History → Type 0} {h h' : History} (service : Text) (ss : List ServiceReleaseSlot)
      → Makes P h h'
      → AreBacked service h ss
      → AreBacked service h' ss
  AreBacked-Makes service [] made b = tt
  AreBacked-Makes service (s ∷ ss) made b =
      (IsBacked-Makes made b.0, AreBacked-Makes service ss made b.1)

  pub HasCommitted-Makes :
      {P : Call → History → Type 0} {releases : List ServiceReleaseRecord} {h h' : History}
      → Makes P h h'
      → HasCommitted releases h
      → HasCommitted releases h'
  HasCommitted-Makes Makes.nothing c = c
  HasCommitted-Makes (Makes.more made p) c = HasCommitted.later (HasCommitted-Makes made c)

  pub ReleasesBacked-Makes :
      {P : Call → History → Type 0} {h h' : History} (rs : List ServiceReleaseRecord)
      → Makes P h h'
      → ReleasesBacked h rs
      → ReleasesBacked h' rs
  ReleasesBacked-Makes [] made b = tt
  ReleasesBacked-Makes (r ∷ rs) made b =
      (AreBacked-Makes r.service r.release.slots made b.0, ReleasesBacked-Makes rs made b.1)
