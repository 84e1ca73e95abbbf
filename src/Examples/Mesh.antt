-- ===== src/Examples/Mesh.antt =====
-- Phases, peers and the mesh at concrete inputs. The subnets are numbers.
use mathlib.Core.List.{Perm}
use ployz.Prelude.{
  ℕ, ◌+◌, ◌-◌, ◌%◌, ◌≤◌, ◌<◌, ◌≡◌, ◌↔◌, refl, Bool, true, false, Option, none, some, List, [], ◌∷◌,
  ◌++◌, arith, if◌then◌else◌, nat_eq, text_eq, contains, any, get_elem?, length, Distinct,
}
use ployz.Prelude.Text.{Text, codes}
use ployz.Prelude.Map.{Map}
use ployz.Model.Error.{ok}
use ployz.Model.Machine.{MachineRecord, seed, added}
use ployz.Phase.{
  PhaseEvent, stopped, starting, running, up_requested, network_ready, components_started,
  component_failed, sync_complete, transition,
}
use ployz.Phase.Graph.{Step, transition_iff}
use ployz.Phase.Trace.{run, run-running}
use ployz.Peer.{WireGuardPeer, active, unknown, down, up, calculate_status, update_endpoints, secs}
use ployz.Peer.Status.{IsAlive, calculate_status-table}
use ployz.Peer.Endpoints.{InRange, rotations, rotations-active, renewed, active-update_endpoints}
use ployz.PeerState.{
  PeerState, EndpointCandidateState, TcpProbeResult, reachable, unreachable, from_record,
}
use ployz.PeerState.Device.{DevicePeer, apply_probe_results, is_reachable, seed_from_device}
use ployz.PeerState.Consistent.{IsConsistent, Reach-IsConsistent}
use ployz.PeerState.Consistent
use ployz.PeerState.Ranking.{probed_candidates, Leads, apply_probe_results-best}
use ployz.PeerState.Peers.{plan_mesh_peers, PeerStateMap, apply_event, upsert_transient}
use ployz.PeerState.Shadowing.{planned_ids, is_planned}
use ployz.PeerState.History.{plan_mesh_peers-Reach, empty, heard, joined}

abbrev cold_start : List PhaseEvent
cold_start =
    up_requested ∷ component_failed ∷ up_requested ∷ network_ready ∷ components_started
    ∷ sync_complete ∷ []

ran : run stopped cold_start ≡ ok running
unfolding run transition
ran = refl

run-running_example :
    (before : List PhaseEvent) × (cold_start
      ≡ before ++ up_requested ∷ network_ready ∷ components_started ∷ sync_complete ∷ [])
    × (run stopped before ≡ ok stopped)
run-running_example = run-running cold_start ran

transition_iff_example :
    (transition stopped up_requested ≡ ok starting) ↔ Step stopped up_requested starting
transition_iff_example = transition_iff stopped up_requested starting

abbrev first_address : Text
first_address = codes "192.0.2.1:51820"

abbrev second_address : Text
second_address = codes "198.51.100.7:51820"

-- A peer with two endpoints, whose last handshake was 100 seconds before second 1000.
abbrev peer : WireGuardPeer
peer = record {
  endpoints = first_address ∷ second_address ∷ [];
  active_endpoint = 1;
  last_endpoint_change = secs 500;
  last_handshake = some (secs 900);
  status = unknown;
}

calculate_status-table_example :
    (((calculate_status peer (secs 1000)).status ≡ up) ↔ IsAlive peer (secs 1000))
    × (((calculate_status peer (secs 1000)).status ≡ unknown)
        ↔ ((¬ IsAlive peer (secs 1000)) × (secs 1000 - secs 500 < secs 15)))
    × (((calculate_status peer (secs 1000)).status ≡ down)
        ↔ ((¬ IsAlive peer (secs 1000)) × (secs 15 ≤ secs 1000 - secs 500)))
calculate_status-table_example = calculate_status-table peer (secs 1000)

rotations-active_example :
    ((rotations (secs 1 ∷ secs 2 ∷ secs 3 ∷ []) peer).endpoints ≡ peer.endpoints)
    × ((rotations (secs 1 ∷ secs 2 ∷ secs 3 ∷ []) peer).active_endpoint ≡ (1 + 3) % 2)
rotations-active_example = rotations-active (secs 1 ∷ secs 2 ∷ secs 3 ∷ []) peer (omega arith)

active-update_endpoints_example :
    ((update_endpoints peer (second_address ∷ first_address ∷ [])).endpoints
      ≡ second_address ∷ first_address ∷ [])
    × (active (update_endpoints peer (second_address ∷ first_address ∷ []))
        ≡ renewed (active peer) (second_address ∷ first_address ∷ []))
    × InRange (update_endpoints peer (second_address ∷ first_address ∷ []))
    × ((update_endpoints peer (second_address ∷ first_address ∷ [])).last_handshake
        ≡ peer.last_handshake)
    × ((update_endpoints peer (second_address ∷ first_address ∷ [])).last_endpoint_change
        ≡ peer.last_endpoint_change)
    × ((update_endpoints peer (second_address ∷ first_address ∷ [])).status ≡ peer.status)
active-update_endpoints_example = active-update_endpoints peer (second_address ∷ first_address ∷ [])

abbrev machine : MachineRecord ℕ
machine = seed (codes "m1") (7 ∷ []) 1 (some 5) (first_address ∷ second_address ∷ [])

abbrev state : PeerState ℕ
state = from_record machine (secs 10)

abbrev device : DevicePeer
device = record {
  public_key = 7 ∷ [];
  endpoint = some second_address;
  last_handshake = some (secs 15);
}

Reach-IsConsistent_example : IsConsistent (seed_from_device state device (secs 20))
Reach-IsConsistent_example =
    let made : Consistent.Reach machine (secs 10) state = Consistent.start in
    Reach-IsConsistent (Consistent.onward made (Consistent.seeded device (secs 20)))

abbrev good_probes : Map Text TcpProbeResult
good_probes = (second_address, record { status = reachable; rtt = some 20 }) ∷ []

abbrev bad_probes : Map Text TcpProbeResult
bad_probes = (second_address, record { status = unreachable; rtt = none }) ∷ []

some_reached : any is_reachable (probed_candidates state good_probes) ≡ true
unfolding from_record ployz.PeerState.probe_status_eq ployz.Prelude.Map.get
some_reached = refl

none_reached : any is_reachable (probed_candidates state bad_probes) ≡ false
unfolding from_record ployz.PeerState.probe_status_eq ployz.Prelude.Map.get
none_reached = refl

apply_probe_results-best_example :
    Perm
      (apply_probe_results state good_probes (secs 30)).0.candidates
      (probed_candidates state good_probes)
    × ((best : EndpointCandidateState) × Leads best
          (apply_probe_results state good_probes (secs 30)).0.candidates
        × (active (apply_probe_results state good_probes (secs 30)).0.runtime ≡ some best.endpoint))
apply_probe_results-best_example = apply_probe_results-best state good_probes (secs 30) some_reached

-- The mesh hears of one machine, and another one joins.
abbrev mesh : PeerStateMap ℕ
mesh =
    upsert_transient
      (apply_event (record { stored_peers = []; transient_peers = [] }) (added machine) (secs 1))
      (record machine { id = codes "m2" }) (secs 2)

plan_mesh_peers-Reach_example :
    ((id : Text)
      → contains (planned_ids (plan_mesh_peers mesh (codes "m1"))) id
        ≡ is_planned mesh (codes "m1") id)
    × Distinct (planned_ids (plan_mesh_peers mesh (codes "m1")))
plan_mesh_peers-Reach_example =
    plan_mesh_peers-Reach (codes "m1")
      (joined (record machine { id = codes "m2" }) (secs 2) (heard (added machine) (secs 1) empty))
