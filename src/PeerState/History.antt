-- ===== src/PeerState/History.antt =====
-- The peers of a mesh after any history of events, and what is planned from them.
use ployz.Prelude.{◌≡◌, List, [], text_eq, Distinct, contains}
use ployz.Prelude.Text.{Text}
use ployz.Prelude.Map.{Map}
use ployz.Model.Machine.{MachineId, MachineRecord, MachineEvent}
use ployz.Peer.{Instant}
use ployz.PeerState.{TcpProbeResult}
use ployz.PeerState.Device.{DevicePeer}
use ployz.PeerState.Peers.{
  PeerStateMap, init_from_snapshot, upsert_transient, remove_transient, apply_event,
  seed_from_device_peers, refresh_from_device_peers, probe_peers, plan_mesh_peers,
}
use ployz.PeerState.Shadowing.{planned_ids, is_planned, plan_mesh_peers-ids}
use ployz.PeerState.Keyed.{
  AreKeyed, init_from_snapshot-AreKeyed, upsert_transient-AreKeyed, remove_transient-AreKeyed,
  apply_event-AreKeyed, seed-AreKeyed, refresh-AreKeyed, probe-AreKeyed,
}

module _ {Net : Type 0} where
  -- What happens to the peers of a mesh, in any order, from none at all.
  pub data Reach : PeerStateMap Net → Type 0 where
    empty : Reach (record { stored_peers = []; transient_peers = [] })
    loaded :
        {s : PeerStateMap Net} (rs : List (MachineRecord Net)) (now : Instant)
        → Reach s
        → Reach (init_from_snapshot s rs now)
    heard :
        {s : PeerStateMap Net} (e : MachineEvent Net) (now : Instant)
        → Reach s
        → Reach (apply_event s e now)
    joined :
        {s : PeerStateMap Net} (r : MachineRecord Net) (now : Instant)
        → Reach s
        → Reach (upsert_transient s r now)
    left : {s : PeerStateMap Net} (id : MachineId) → Reach s → Reach (remove_transient s id)
    seeded :
        {s : PeerStateMap Net} (ds : List DevicePeer) (now : Instant)
        → Reach s
        → Reach (seed_from_device_peers s ds now)
    refreshed :
        {s : PeerStateMap Net} (ds : List DevicePeer) (now : Instant)
        → Reach s
        → Reach (refresh_from_device_peers s ds now).0
    probed :
        {s : PeerStateMap Net} (id : MachineId) (results : Map Text TcpProbeResult) (now : Instant)
        → Reach s
        → Reach (probe_peers s id results now).0

  pub Reach-AreKeyed : {s : PeerStateMap Net} → Reach s → AreKeyed s
  Reach-AreKeyed empty = record {
    stored = record { named = tt; unique = tt };
    transient = record { named = tt; unique = tt };
  }
  Reach-AreKeyed (loaded {s} rs now h) = init_from_snapshot-AreKeyed s rs now (Reach-AreKeyed h)
  Reach-AreKeyed (heard {s} e now h) = apply_event-AreKeyed s e now (Reach-AreKeyed h)
  Reach-AreKeyed (joined {s} r now h) = upsert_transient-AreKeyed s r now (Reach-AreKeyed h)
  Reach-AreKeyed (left {s} id h) = remove_transient-AreKeyed s id (Reach-AreKeyed h)
  Reach-AreKeyed (seeded {s} ds now h) = seed-AreKeyed s ds now (Reach-AreKeyed h)
  Reach-AreKeyed (refreshed {s} ds now h) = refresh-AreKeyed s ds now (Reach-AreKeyed h)
  Reach-AreKeyed (probed {s} id results now h) = probe-AreKeyed s id results now (Reach-AreKeyed h)

  -- Whatever the store, the device and the probes have done to the peers of a mesh, `plan_mesh_peers`
  -- plans a machine just when it is not the local one and its stored peer, or with no stored peer
  -- its transient one, has an endpoint; and it plans no machine twice.
  pub plan_mesh_peers-Reach :
      {s : PeerStateMap Net} (local : MachineId)
      → Reach s
      → ((id : MachineId)
          → contains (planned_ids (plan_mesh_peers s local)) id ≡ is_planned s local id)
        × Distinct (planned_ids (plan_mesh_peers s local))
  plan_mesh_peers-Reach {s} local h =
      let keyed = Reach-AreKeyed h in plan_mesh_peers-ids s local keyed.stored keyed.transient
