-- ===== src/PeerState/Peers.antt =====
-- All peers of the mesh: `PeerStateMap` and the peers that are planned for the device.
use ployz.Prelude.{
  Bool, false, none, some, List, [], ◌∷◌, ◌++◌, map, not, ◌&&◌, ◌||◌, ltb, if◌then◌else◌, ◌==◌,
  text_eq, length, is_empty, keep,
}
use ployz.Prelude.Text.{Text}
use ployz.Prelude.Map
use ployz.Prelude.Map.{Map}
use ployz.Model.Machine.{
  MachineId, PublicKey, MachineRecord, MachineEvent, added, updated, removed, unknown, disabled,
}
use ployz.Peer.{Instant}
use ployz.PeerState.{PeerState, TcpProbeResult, from_record, update_from_record}
use ployz.PeerState.Device.{DevicePeer, seed_from_device, refresh_from_device, apply_probe_results}
use ployz.PeerState.Planning.{planned_endpoints}

abbrev pub Peers : Type 0 → Type 0
Peers Net = Map MachineId (PeerState Net)

pub record PeerStateMap (Net : Type 0) : Type 0 where
  pub stored_peers : Peers Net
  pub transient_peers : Peers Net

-- Devices by their key; of two with one key the later stays.
unfoldable pub peers_by_key : List DevicePeer → Map PublicKey DevicePeer → Map PublicKey DevicePeer
unfolding Map.insert text_eq
peers_by_key [] m = m
peers_by_key (d ∷ ds) m = peers_by_key ds (Map.insert d.public_key d m)

module _ {Net : Type 0} where
  -- `entry(id).and_modify(update).or_insert_with(from_record)`
  unfoldable pub upsert : MachineRecord Net → Instant → Peers Net → Peers Net
  unfolding Map.get Map.insert text_eq update_from_record from_record
  upsert r now m = elim (Map.get r.id m) [
    | none ↦ Map.insert r.id (from_record r now) m
    | some ps ↦ Map.insert r.id (update_from_record ps r) m
  ]

  unfoldable pub insert_new : MachineRecord Net → Instant → Peers Net → Peers Net
  unfolding Map.get Map.insert text_eq from_record
  insert_new r now m = elim (Map.get r.id m) [
    | none ↦ Map.insert r.id (from_record r now) m
    | some ps ↦ m
  ]

  unfoldable pub init_from_snapshot :
      PeerStateMap Net → List (MachineRecord Net) → Instant → PeerStateMap Net
  unfolding insert_new
  init_from_snapshot s [] now = s
  init_from_snapshot s (r ∷ rs) now =
      init_from_snapshot (record s { stored_peers = insert_new r now s.stored_peers }) rs now

  unfoldable pub upsert_stored : PeerStateMap Net → MachineRecord Net → Instant → PeerStateMap Net
  unfolding upsert Map.remove
  upsert_stored s r now = record {
    stored_peers = upsert r now s.stored_peers;
    transient_peers = Map.remove r.id s.transient_peers;
  }

  unfoldable pub upsert_transient :
      PeerStateMap Net → MachineRecord Net → Instant → PeerStateMap Net
  unfolding upsert
  upsert_transient s r now =
      if Map.contains_key r.id s.stored_peers
      then s
      else record s { transient_peers = upsert r now s.transient_peers }

  unfoldable pub remove_stored : PeerStateMap Net → MachineId → PeerStateMap Net
  unfolding Map.remove text_eq
  remove_stored s id = record s { stored_peers = Map.remove id s.stored_peers }

  unfoldable pub remove_transient : PeerStateMap Net → MachineId → PeerStateMap Net
  unfolding Map.remove text_eq
  remove_transient s id = record s { transient_peers = Map.remove id s.transient_peers }

  unfoldable pub apply_event : PeerStateMap Net → MachineEvent Net → Instant → PeerStateMap Net
  unfolding upsert_stored remove_stored
  apply_event s (added r) now = upsert_stored s r now
  apply_event s (updated r) now = upsert_stored s r now
  apply_event s (removed r) now = remove_stored s r.id

  -- `for peer_state in map.values_mut()`
  abbrev pub for_values : (PeerState Net → PeerState Net) → Peers Net → Peers Net
  for_values f = map (λ (e : MachineId × PeerState Net). (e.0, f e.1))

  abbrev pub seed_with : Map PublicKey DevicePeer → Instant → PeerState Net → PeerState Net
  seed_with by_key now ps = elim (Map.get ps.public_key by_key) [
    | none ↦ ps
    | some d ↦ seed_from_device ps d now
  ]

  unfoldable pub seed_from_device_peers :
      PeerStateMap Net → List DevicePeer → Instant → PeerStateMap Net
  unfolding peers_by_key seed_from_device Map.get
  seed_from_device_peers s ds now =
      let by_key = peers_by_key ds [] in
      record {
        stored_peers = for_values (seed_with by_key now) s.stored_peers;
        transient_peers = for_values (seed_with by_key now) s.transient_peers;
      }

  abbrev pub refresh_with :
      Map PublicKey DevicePeer → Instant → PeerState Net → PeerState Net × Bool
  refresh_with by_key now ps = refresh_from_device ps (Map.get ps.public_key by_key) now

  -- `changed |= refresh` over the values.
  abbrev pub any_changed : Map PublicKey DevicePeer → Instant → Peers Net → Bool
  any_changed by_key now [] = false
  any_changed by_key now ((id, ps) ∷ m) = (refresh_with by_key now ps).1 || any_changed by_key now m

  unfoldable pub refresh_from_device_peers :
      PeerStateMap Net → List DevicePeer → Instant → PeerStateMap Net × Bool
  unfolding peers_by_key refresh_from_device Map.get
  refresh_from_device_peers s ds now =
      let by_key = peers_by_key ds [] in
      (
        record {
          stored_peers = for_values (λ ps. (refresh_with by_key now ps).0) s.stored_peers;
          transient_peers = for_values (λ ps. (refresh_with by_key now ps).0) s.transient_peers;
        },
        any_changed by_key now s.stored_peers || any_changed by_key now s.transient_peers,
      )

  abbrev pub wants_ranking : PeerState Net → Bool
  wants_ranking ps = ps.needs_ranking && ltb 1 (length ps.runtime.endpoints)

  abbrev pub ranking_of : PeerState Net → MachineId × List Text
  ranking_of ps = (ps.id, ps.runtime.endpoints)

  unfoldable pub pending_rankings : PeerStateMap Net → List (MachineId × List Text)
  unfolding Map.get text_eq
  pending_rankings s =
      map ranking_of (keep wants_ranking (Map.values s.stored_peers))
      ++ map ranking_of (
          keep (λ ps. wants_ranking ps && not (Map.contains_key ps.id s.stored_peers))
            (Map.values s.transient_peers))

  unfoldable pub probe_peers :
      PeerStateMap Net → MachineId → Map Text TcpProbeResult → Instant → PeerStateMap Net × Bool
  unfolding Map.get Map.insert text_eq apply_probe_results
  probe_peers s id results now = elim (Map.get id s.stored_peers) [
    | some ps ↦
        let (next, changed) = apply_probe_results ps results now in
        (record s { stored_peers = Map.insert id next s.stored_peers }, changed)
    | none ↦ elim (Map.get id s.transient_peers) [
      | some ps ↦
          let (next, changed) = apply_probe_results ps results now in
          (record s { transient_peers = Map.insert id next s.transient_peers }, changed)
      | none ↦ (s, false)
    ]
  ]

  unfoldable pub peer_state_to_planned_record : PeerState Net → MachineRecord Net
  unfolding planned_endpoints
  peer_state_to_planned_record ps = record {
    id = ps.id;
    public_key = ps.public_key;
    overlay_ip = ps.overlay_ip;
    subnet = ps.subnet;
    bridge_ip = ps.bridge_ip;
    endpoints = planned_endpoints ps;
    status = unknown;
    participation = disabled;
    last_heartbeat = 0;
    created_at = 0;
    updated_at = 0;
    labels = [];
  }

  abbrev pub is_candidate_peer : MachineId → PeerState Net → Bool
  is_candidate_peer local ps = not (ps.id == local) && not (is_empty ps.runtime.endpoints)

  abbrev pub is_shadowed : PeerStateMap Net → PeerState Net → Bool
  is_shadowed s ps = Map.contains_key ps.id s.stored_peers

  unfoldable pub plan_mesh_peers : PeerStateMap Net → MachineId → List (MachineRecord Net)
  unfolding peer_state_to_planned_record Map.get text_eq
  plan_mesh_peers s local =
      map peer_state_to_planned_record (keep (is_candidate_peer local) (Map.values s.stored_peers))
      ++ map peer_state_to_planned_record (
          keep (λ ps. not (is_shadowed s ps) && is_candidate_peer local ps)
            (Map.values s.transient_peers))
