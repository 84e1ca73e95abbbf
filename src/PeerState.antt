-- ===== src/PeerState.antt =====
-- What the mesh knows of its peers: crates/ployz-orchestrator/src/mesh/peer_state.rs, with the
-- results of crates/ployz-orchestrator/src/mesh/probe.rs and the device's peers of
-- crates/ployz-runtime-api/src/network.rs. A method that changes the state returns the new one.
pub mod Device
pub mod Peers
pub mod Consistent
pub mod Ranking
pub mod Planning
pub mod Shadowing
pub mod Keyed
pub mod History
pub mod Mirror
use Prim.Native.Nat.{compare, Ordering}
use ployz.Prelude.{
  ℕ, zero, suc, ◌+◌, ◌-◌, ◌%◌, Bool, true, false, Option, none, some, List, [], ◌∷◌, ◌++◌, map, not,
  ◌||◌, ltb, leb, if◌then◌else◌, Eq, ◌==◌, text_eq, option_eq, length, is_empty, contains, position,
  any,
}
use ployz.Prelude.Text.{Text}
use ployz.Prelude.Compare.{then_with, compare_some_first, is_le}
use ployz.Prelude.Sort.{sort_by}
use ployz.Prelude.Map
use ployz.Prelude.Map.{Map}
use ployz.Model.Machine.{MachineId, PublicKey, OverlayIp, MachineRecord}
use ployz.Peer.{
  Instant, WireGuardPeer, up, down, unknown, active, calculate_status, rotate_endpoint,
  update_endpoints, peer_status_eq,
}
use ployz.Peer

pub data TcpProbeStatus : Type 0 where
  reachable unreachable : TcpProbeStatus

TcpProbeStatus-discrete : Discrete TcpProbeStatus
TcpProbeStatus-discrete = hlevel

instance unfoldable pub probe_status_eq : Eq TcpProbeStatus
unfolding TcpProbeStatus-discrete
probe_status_eq = record { dec = TcpProbeStatus-discrete }

pub record TcpProbeResult : Type 0 where
  pub status : TcpProbeStatus
  pub rtt : Option ℕ

pub data SelectionReason : Type 0 where
  advertised_order preserved_live_endpoint tcp_probe_ranking wireguard_fallback : SelectionReason

pub record EndpointCandidateState : Type 0 where
  pub endpoint : Text
  pub advertised_index : ℕ
  pub last_tcp_probe_rtt : Option ℕ
  pub tcp_probe_status : TcpProbeStatus
  pub last_wg_success : Option Instant
  pub last_wg_failure : Option Instant

abbrev pub new_candidate : Text → ℕ → EndpointCandidateState
new_candidate endpoint index = record {
  endpoint = endpoint;
  advertised_index = index;
  last_tcp_probe_rtt = none;
  tcp_probe_status = unreachable;
  last_wg_success = none;
  last_wg_failure = none;
}

abbrev pub merge_preserving_history :
    EndpointCandidateState → EndpointCandidateState → EndpointCandidateState
merge_preserving_history candidate other = record candidate {
  last_tcp_probe_rtt = other.last_tcp_probe_rtt;
  tcp_probe_status = other.tcp_probe_status;
  last_wg_success = other.last_wg_success;
  last_wg_failure = other.last_wg_failure;
}

-- The candidate for an endpoint, with the history of the first one that had it.
unfoldable pub candidate_for : Text → ℕ → List EndpointCandidateState → EndpointCandidateState
unfolding text_eq
candidate_for endpoint index [] = new_candidate endpoint index
candidate_for endpoint index (previous ∷ existing) =
    let rest = candidate_for endpoint index existing in
    if previous.endpoint == endpoint
    then merge_preserving_history (new_candidate endpoint index) previous
    else rest

build_from : ℕ → List Text → List EndpointCandidateState → List EndpointCandidateState
unfolding candidate_for
build_from index [] existing = []
build_from index (e ∷ es) existing =
    candidate_for e index existing ∷ build_from (suc index) es existing

unfoldable pub build_candidates :
    List Text → List EndpointCandidateState → List EndpointCandidateState
unfolding build_from
build_candidates endpoints existing = build_from 0 endpoints existing

-- Changes the first candidate that has the endpoint.
unfoldable pub update_candidate :
    (EndpointCandidateState → EndpointCandidateState)
    → Text
    → List EndpointCandidateState
    → List EndpointCandidateState
unfolding text_eq
update_candidate f endpoint [] = []
update_candidate f endpoint (c ∷ cs) =
    let rest = update_candidate f endpoint cs in
    if c.endpoint == endpoint then f c ∷ cs else c ∷ rest

abbrev pub compare_probe_status : TcpProbeStatus → TcpProbeStatus → Ordering
compare_probe_status reachable unreachable = Ordering.lt
compare_probe_status unreachable reachable = Ordering.gt
compare_probe_status reachable reachable = Ordering.eq
compare_probe_status unreachable unreachable = Ordering.eq

unfoldable pub compare_candidates : EndpointCandidateState → EndpointCandidateState → Ordering
compare_candidates a b = then_with (compare_probe_status a.tcp_probe_status b.tcp_probe_status) (
    then_with (compare_some_first compare a.last_tcp_probe_rtt b.last_tcp_probe_rtt) (
      then_with (compare_some_first (λ x y. compare y x) a.last_wg_success b.last_wg_success)
        (compare a.advertised_index b.advertised_index)))

pub record PeerState (Net : Type 0) : Type 0 where
  pub id : MachineId
  pub public_key : PublicKey
  pub overlay_ip : OverlayIp
  pub subnet : Option Net
  pub bridge_ip : Option OverlayIp
  pub runtime : WireGuardPeer
  pub candidates : List EndpointCandidateState
  pub selection_reason : SelectionReason
  pub needs_ranking : Bool

-- Whether the endpoint that was active is no longer listed.
abbrev pub active_removed : Option Text → List Text → Bool
active_removed none endpoints = false
active_removed (some e) endpoints = not (contains endpoints e)

module _ {Net : Type 0} where
  unfoldable pub from_record : MachineRecord Net → Instant → PeerState Net
  unfolding build_candidates Peer.new
  from_record r now = record {
    id = r.id;
    public_key = r.public_key;
    overlay_ip = r.overlay_ip;
    subnet = r.subnet;
    bridge_ip = r.bridge_ip;
    runtime = Peer.new r.endpoints now;
    candidates = build_candidates r.endpoints [];
    selection_reason = advertised_order;
    needs_ranking = not (is_empty r.endpoints);
  }

  -- The fields that the record gives.
  abbrev pub renew : PeerState Net → MachineRecord Net → PeerState Net
  renew ps r = record ps {
    public_key = r.public_key;
    overlay_ip = r.overlay_ip;
    subnet = r.subnet;
    bridge_ip = r.bridge_ip;
    candidates = build_candidates r.endpoints ps.candidates;
    runtime = update_endpoints ps.runtime r.endpoints;
  }

  unfoldable pub update_from_record : PeerState Net → MachineRecord Net → PeerState Net
  unfolding build_candidates update_endpoints text_eq peer_status_eq
  update_from_record ps r =
      let next = renew ps r in
      record next {
        needs_ranking =
            if is_empty next.runtime.endpoints
            then false
            else if next.runtime.status == up
            then active_removed (active ps.runtime) next.runtime.endpoints
            else true;
      }
