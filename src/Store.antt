-- ===== src/Store.antt =====
-- The in-memory store: crates/ployz-store-api/src/memory.rs, with `SyncStatus` and `DeployCommit` of
-- traits.rs beside it. Every operation holds the lock of the store from its start to its end, so
-- that an operation is one function of the state. A channel of tokio is a parameter.
pub mod Deploys
pub mod Invites
pub mod Events
pub mod Commit
use ployz.Prelude.{
  ℕ, Bool, true, false, Option, none, some, List, [], ◌∷◌, ◌++◌, map, not, ltb, if◌then◌else◌, ◌==◌,
  text_eq, keep,
}
use ployz.Prelude.Text.{Text, codes}
use ployz.Prelude.Map
use ployz.Prelude.Map.{Map}
use ployz.Model.Error.{Error, Result, ok, err}
use ployz.Model.Machine.{MachineId, MachineRecord, MachineEvent, added, updated, removed, OverlayIp}
use ployz.Model.Service.{
  InviteRecord, ServiceRevisionRecord, ServiceReleaseRecord, InstanceStatusRecord, DeployRecord,
  InstanceId, DeployId,
}
use ployz.Model.Spec.{Namespace}

pub data SyncStatus : Type 0 where
  disconnected synced : SyncStatus
  syncing : ℕ → SyncStatus

-- What `try_send` of a bounded channel answers.
pub data TrySend : Type 0 where
  sent full closed : TrySend

-- The sending side of channels: `channel` makes one of a capacity.
pub record ChannelApi (E : Type 0) : Type 1 where
  pub Sender : Type 0
  pub channel : ℕ → Sender
  pub try_send : Sender → E → Sender × TrySend

module _ {E : Type 0} (C : ChannelApi E) where
  -- One channel of a subscriber list, after a message: a closed one is dropped.
  abbrev pub retained : C.Sender × TrySend → List C.Sender → List C.Sender
  retained (s, closed) rest = rest
  retained (s, sent) rest = s ∷ rest
  retained (s, full) rest = s ∷ rest

  -- `broadcast_machine` and `broadcast_routing_refresh`
  unfoldable pub broadcast : List C.Sender → E → List C.Sender
  broadcast [] e = []
  broadcast (s ∷ ss) e = retained (C.try_send s e) (broadcast ss e)

-- The channels of the two subscriptions.
pub record Channels (Net : Type 0) : Type 1 where
  pub machine_events : ChannelApi (MachineEvent Net)
  pub invalidations : ChannelApi (Unit {0})

pub record StoreInner {Net : Type 0} (C : Channels Net) : Type 0 where
  pub machines : Map MachineId (MachineRecord Net)
  pub machine_subscribers : List C.machine_events.Sender
  pub routing_subscribers : List C.invalidations.Sender
  pub invites : Map Text InviteRecord
  pub service_revisions : Map (Namespace × (Text × Text)) ServiceRevisionRecord
  pub service_releases : Map (Namespace × Text) ServiceReleaseRecord
  pub instance_status : Map InstanceId InstanceStatusRecord
  pub deploys : Map DeployId DeployRecord
  pub sync_status : SyncStatus

abbrev pub new : {Net : Type 0} (C : Channels Net) → StoreInner C
new C = record {
  machines = [];
  machine_subscribers = [];
  routing_subscribers = [];
  invites = [];
  service_revisions = [];
  service_releases = [];
  instance_status = [];
  deploys = [];
  sync_status = synced;
}

abbrev pub invite_exists : Text → Error
invite_exists id = record {
  operation = codes "invite_exists";
  message = codes "invite '" ++ id ++ codes "' already exists";
}

abbrev pub invite_not_found : Text → Error
invite_not_found id = record {
  operation = codes "invite_not_found";
  message = codes "invite '" ++ id ++ codes "' not found";
}

abbrev pub invite_expired : Text → Error
invite_expired id = record {
  operation = codes "invite_expired";
  message = codes "invite '" ++ id ++ codes "' is expired";
}

-- The event of an upsert.
abbrev pub upsert_event : {Net : Type 0} → Bool → MachineRecord Net → MachineEvent Net
upsert_event is_update r = if is_update then updated r else added r

module _ {Net : Type 0} {C : Channels Net} where
  abbrev pub set_sync_status : StoreInner C → SyncStatus → StoreInner C
  set_sync_status s status = record s { sync_status = status }

  abbrev pub list_machines : StoreInner C → List (MachineRecord Net)
  list_machines s = Map.values s.machines

  abbrev pub broadcast_machine : StoreInner C → MachineEvent Net → StoreInner C
  broadcast_machine s e = record s {
    machine_subscribers = broadcast C.machine_events s.machine_subscribers e;
  }

  abbrev pub broadcast_routing_refresh : StoreInner C → StoreInner C
  broadcast_routing_refresh s = record s {
    routing_subscribers = broadcast C.invalidations s.routing_subscribers tt;
  }

  unfoldable pub upsert_self_machine : StoreInner C → MachineRecord Net → StoreInner C
  unfolding Map.get Map.insert text_eq broadcast
  upsert_self_machine s r =
      let is_update = Map.contains_key r.id s.machines in
      broadcast_machine (record s { machines = Map.insert r.id r s.machines })
        (upsert_event is_update r)

  unfoldable pub delete_machine : StoreInner C → MachineId → StoreInner C
  unfolding Map.get Map.remove text_eq broadcast
  delete_machine s id = elim (Map.get id s.machines) [
    | none ↦ s
    | some r ↦ broadcast_machine (record s { machines = Map.remove id s.machines }) (removed r)
  ]

  -- The snapshot, and a new channel for the events after it.
  abbrev pub subscribe_machines : StoreInner C → StoreInner C × List (MachineRecord Net)
  subscribe_machines s = (
    record s { machine_subscribers = s.machine_subscribers ++ C.machine_events.channel 64 ∷ [] },
    list_machines s,
  )

  abbrev pub subscribe_routing_invalidations : StoreInner C → StoreInner C
  subscribe_routing_invalidations s = record s {
    routing_subscribers = s.routing_subscribers ++ C.invalidations.channel 64 ∷ [];
  }

  unfoldable pub create_invite :
      StoreInner C → InviteRecord → StoreInner C × Result Error (Unit {0})
  unfolding Map.get Map.insert text_eq
  create_invite s invite =
      if Map.contains_key invite.id s.invites
      then (s, err (invite_exists invite.id))
      else (record s { invites = Map.insert invite.id invite s.invites }, ok tt)

  unfoldable pub consume_invite : StoreInner C → Text → ℕ → StoreInner C × Result Error (Unit {0})
  unfolding Map.get Map.remove text_eq
  consume_invite s id now = elim (Map.get id s.invites) [
    | none ↦ (s, err (invite_not_found id))
    | some invite ↦
        if ltb invite.expires_at now
        then (s, err (invite_expired id))
        else (record s { invites = Map.remove id s.invites }, ok tt)
  ]

  -- `list_machines`, under the name that a starting daemon calls it by.
  abbrev pub seed_machine_records : StoreInner C → List (MachineRecord Net)
  seed_machine_records = list_machines

  -- The addresses are printed by the standard library; here they are the addresses.
  unfoldable pub bootstrap_addrs : StoreInner C → MachineId → List OverlayIp
  unfolding text_eq
  bootstrap_addrs s local =
      map (λ (m : MachineRecord Net). m.overlay_ip)
        (keep (λ (m : MachineRecord Net). not (m.id == local)) (list_machines s))
