-- ===== src/Peer.antt =====
-- The endpoints of one WireGuard peer and its health: crates/ployz-orchestrator/src/mesh/peer.rs.
-- Instants are nanoseconds on a clock; `duration_since` stops at zero.
pub mod Status
pub mod Endpoints
use ployz.Prelude.{
  ℕ, ◌+◌, ◌-◌, ◌*◌, ◌%◌, Bool, true, false, Option, none, some, List, [], ◌∷◌, ◌&&◌, ltb, leb,
  if◌then◌else◌, Eq, ◌==◌, text_eq, length, get_elem?, is_empty, position,
}
use ployz.Prelude.Text.{Text}

abbrev pub Instant : Type 0
Instant = ℕ

abbrev pub secs : ℕ → ℕ
secs n = n * 1000000000

abbrev pub endpoint_connection_timeout : ℕ
endpoint_connection_timeout = secs 15

abbrev pub peer_down_interval : ℕ
peer_down_interval = secs 275

pub data PeerStatus : Type 0 where
  up down unknown : PeerStatus

PeerStatus-discrete : Discrete PeerStatus
PeerStatus-discrete = hlevel

instance unfoldable pub peer_status_eq : Eq PeerStatus
unfolding PeerStatus-discrete
peer_status_eq = record { dec = PeerStatus-discrete }

pub record WireGuardPeer : Type 0 where
  pub endpoints : List Text
  pub active_endpoint : ℕ
  pub last_endpoint_change : Instant
  pub last_handshake : Option Instant
  pub status : PeerStatus

unfoldable pub new : List Text → Instant → WireGuardPeer
new endpoints now = record {
  endpoints = endpoints;
  active_endpoint = 0;
  last_endpoint_change = now;
  last_handshake = none;
  status = unknown;
}

-- `active_endpoint()`
abbrev pub active : WireGuardPeer → Option Text
active p = get_elem? p.endpoints p.active_endpoint

-- A handshake at or after the last change counts, else the status is `other`.
abbrev pub since_change_status : Option Instant → Instant → PeerStatus → PeerStatus
since_change_status none change other = other
since_change_status (some hs) change other = if leb change hs then up else other

abbrev pub recent_status : Option Instant → Instant → PeerStatus
recent_status none now = down
recent_status (some hs) now = if ltb (now - hs) peer_down_interval then up else down

unfoldable pub calculate_status : WireGuardPeer → Instant → WireGuardPeer
calculate_status p now =
    let since_change = now - p.last_endpoint_change in
    record p {
      status =
          if ltb since_change endpoint_connection_timeout
          then since_change_status p.last_handshake p.last_endpoint_change unknown
          else if ltb since_change peer_down_interval
          then since_change_status p.last_handshake p.last_endpoint_change down
          else recent_status p.last_handshake now;
    }

unfoldable pub should_change_endpoint : WireGuardPeer → Bool
unfolding peer_status_eq
should_change_endpoint p = p.status == down && ltb 1 (length p.endpoints)

unfoldable pub rotate_endpoint : WireGuardPeer → Instant → WireGuardPeer
rotate_endpoint p now = if is_empty p.endpoints then p else record p {
  active_endpoint = (p.active_endpoint + 1) % length p.endpoints;
  last_endpoint_change = now;
  status = unknown;
}

-- The index in the new list of the endpoint that was active, or the first.
unfoldable pub kept_position : Option Text → List Text → ℕ
unfolding text_eq
kept_position none endpoints = 0
kept_position (some current) endpoints = elim (position endpoints current) [
  | none ↦ 0
  | some pos ↦ pos
]

unfoldable pub update_endpoints : WireGuardPeer → List Text → WireGuardPeer
unfolding kept_position
update_endpoints p [] = record p { endpoints = []; active_endpoint = 0 }
update_endpoints p (e ∷ es) = record p {
  endpoints = e ∷ es;
  active_endpoint = kept_position (active p) (e ∷ es);
}
