-- ===== src/PeerState/Device.antt =====
-- What the WireGuard device and the TCP probes tell of one peer: the second half of
-- crates/ployz-orchestrator/src/mesh/peer_state.rs's `impl PeerState`.
use ployz.Prelude.{
  ℕ, ◌-◌, Bool, false, Option, none, some, List, map, not, ltb, leb, if◌then◌else◌, ◌==◌, text_eq,
  option_eq, length, contains, position, any, ◌&&◌,
}
use ployz.Prelude.Text.{Text}
use ployz.Prelude.Compare.{is_le}
use ployz.Prelude.Sort.{sort_by}
use ployz.Prelude.Map
use ployz.Prelude.Map.{Map}
use ployz.Model.Machine.{PublicKey}
use ployz.Peer.{
  Instant, WireGuardPeer, up, down, unknown, active, calculate_status, rotate_endpoint,
  peer_status_eq, peer_down_interval,
}
use ployz.PeerState.{
  TcpProbeResult, reachable, probe_status_eq, EndpointCandidateState, update_candidate, PeerState,
  compare_candidates, preserved_live_endpoint, wireguard_fallback, tcp_probe_ranking,
}

pub record DevicePeer : Type 0 where
  pub public_key : PublicKey
  pub endpoint : Option Text
  pub last_handshake : Option Instant

abbrev pub set_success : Instant → EndpointCandidateState → EndpointCandidateState
set_success t c = record c { last_wg_success = some t }

abbrev pub set_failure : Instant → EndpointCandidateState → EndpointCandidateState
set_failure t c = record c { last_wg_failure = some t }

abbrev pub note_handshake :
    Option Text → Option Instant → List EndpointCandidateState → List EndpointCandidateState
note_handshake (some endpoint) (some t) cs = update_candidate (set_success t) endpoint cs
note_handshake _ _ cs = cs

abbrev pub note_failure :
    Option Text → Instant → List EndpointCandidateState → List EndpointCandidateState
note_failure none now cs = cs
note_failure (some endpoint) now cs = update_candidate (set_failure now) endpoint cs

abbrev pub probed : Map Text TcpProbeResult → EndpointCandidateState → EndpointCandidateState
probed results c = elim (Map.get c.endpoint results) [
  | none ↦ c
  | some result ↦ record c { tcp_probe_status = result.status; last_tcp_probe_rtt = result.rtt }
]

abbrev pub candidate_le : EndpointCandidateState → EndpointCandidateState → Bool
candidate_le a b = is_le (compare_candidates a b)

abbrev pub is_reachable : EndpointCandidateState → Bool
is_reachable c = c.tcp_probe_status == reachable

-- The runtime on a new order of the endpoints: the first is active, its health is not yet known.
abbrev pub ranked_runtime : WireGuardPeer → List Text → Instant → WireGuardPeer
ranked_runtime runtime endpoints now = record runtime {
  endpoints = endpoints;
  active_endpoint = 0;
  last_endpoint_change = now;
  last_handshake = none;
  status = unknown;
}

module _ {Net : Type 0} where
  -- The end of `seed_from_device`: the device's endpoint is the `pos`-th.
  unfoldable pub adopt : PeerState Net → Text → Instant → Instant → ℕ → PeerState Net
  unfolding calculate_status update_candidate
  adopt ps endpoint handshake now pos = record ps {
    runtime =
        calculate_status
          (record ps.runtime {
            active_endpoint = pos;
            last_endpoint_change = handshake;
            last_handshake = some handshake;
          })
          now;
    candidates = update_candidate (set_success handshake) endpoint ps.candidates;
    selection_reason = preserved_live_endpoint;
    needs_ranking = false;
  }

  -- A handshake in the future, or one of 275 seconds ago, says nothing.
  unfoldable pub seed_endpoint :
      PeerState Net → Option Text → Option Instant → Instant → PeerState Net
  unfolding adopt text_eq
  seed_endpoint ps none handshake now = ps
  seed_endpoint ps (some endpoint) none now = ps
  seed_endpoint ps (some endpoint) (some handshake) now =
      if ltb now handshake
      then ps
      else if leb peer_down_interval (now - handshake)
      then ps
      else elim (position ps.runtime.endpoints endpoint) [
        | none ↦ ps
        | some pos ↦ adopt ps endpoint handshake now pos
      ]

  unfoldable pub seed_from_device : PeerState Net → DevicePeer → Instant → PeerState Net
  unfolding seed_endpoint
  seed_from_device ps d now = seed_endpoint ps d.endpoint d.last_handshake now

  abbrev pub knows_endpoint : PeerState Net → Option Text → Bool
  knows_endpoint ps none = false
  knows_endpoint ps (some endpoint) = contains ps.runtime.endpoints endpoint

  -- The first part of `refresh_from_device`: what the device reports, if it has the peer.
  unfoldable pub observe : PeerState Net → Option DevicePeer → Instant → PeerState Net
  unfolding seed_from_device update_candidate text_eq
  observe ps none now = record ps { runtime = record ps.runtime { last_handshake = none } }
  observe ps (some d) now =
      let seeded = seed_from_device ps d now in
      record seeded {
        runtime = record seeded.runtime {
          last_handshake = if knows_endpoint seeded d.endpoint then d.last_handshake else none;
        };
        candidates = note_handshake d.endpoint d.last_handshake seeded.candidates;
      }

  -- The change to the next endpoint of a peer that is down.
  unfoldable pub fall_back : PeerState Net → Instant → PeerState Net × Bool
  unfolding update_candidate rotate_endpoint option_eq text_eq
  fall_back ps now =
      let previous_active = active ps.runtime in
      let runtime = rotate_endpoint ps.runtime now in
      (
        record ps {
          runtime = runtime;
          candidates = note_failure previous_active now ps.candidates;
          selection_reason = wireguard_fallback;
          needs_ranking = false;
        },
        not (previous_active == active runtime),
      )

  -- The second part, once the status is calculated: whether the active endpoint has changed.
  unfoldable pub settle : PeerState Net → Instant → PeerState Net × Bool
  unfolding fall_back peer_status_eq
  settle ps now =
      if ps.runtime.status == up
      then (record ps { needs_ranking = false }, false)
      else if ps.runtime.status == down && ltb 1 (length ps.runtime.endpoints)
      then fall_back ps now
      else (record ps { needs_ranking = false }, false)

  abbrev pub recalculate : PeerState Net → Instant → PeerState Net
  recalculate ps now = record ps { runtime = calculate_status ps.runtime now }

  unfoldable pub refresh_from_device :
      PeerState Net → Option DevicePeer → Instant → PeerState Net × Bool
  unfolding observe settle calculate_status
  refresh_from_device ps d now = settle (recalculate (observe ps d now) now) now

  -- The candidates are sorted, and the endpoints follow them.
  unfoldable pub rerank :
      PeerState Net → List EndpointCandidateState → Instant → PeerState Net × Bool
  unfolding sort_by compare_candidates option_eq text_eq
  rerank ps candidates now =
      let ranked = sort_by candidate_le candidates in
      let runtime = ranked_runtime ps.runtime (map (λ c. c.endpoint) ranked) now in
      (
        record ps {
          candidates = ranked;
          runtime = runtime;
          selection_reason = tcp_probe_ranking;
          needs_ranking = false;
        },
        not (active ps.runtime == active runtime),
      )

  unfoldable pub apply_probe_results :
      PeerState Net → Map Text TcpProbeResult → Instant → PeerState Net × Bool
  unfolding rerank Map.get text_eq probe_status_eq
  apply_probe_results ps results now =
      let candidates = map (probed results) ps.candidates in
      if any is_reachable candidates
      then rerank ps candidates now
      else (record ps { candidates = candidates; needs_ranking = false }, false)
