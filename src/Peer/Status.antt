-- ===== src/Peer/Status.antt =====
-- The health of a peer in terms of its handshakes.
use ployz.Prelude.{
  ◌-◌, ◌≤◌, ◌<◌, ◌≡◌, ◌≢◌, ◌↔◌, ◌⊎◌, inl, inr, Option-cases, some, arith, ltb, if◌then◌else◌,
}
use ployz.Peer.{Instant, secs, WireGuardPeer, up, down, unknown, calculate_status}

-- A handshake that shows the peer to be alive: within 275 seconds of the last change of endpoint
-- any since that change, afterwards any of the last 275 seconds.
abbrev pub ShowsLife : WireGuardPeer → Instant → Instant → Type 0
ShowsLife p now hs =
    ((now - p.last_endpoint_change < secs 275) × (p.last_endpoint_change ≤ hs))
    ⊎ ((secs 275 ≤ now - p.last_endpoint_change) × (now - hs < secs 275))

abbrev pub IsAlive : WireGuardPeer → Instant → Type 0
IsAlive p now = (hs : Instant) × (p.last_handshake ≡ some hs) × ShowsLife p now hs

IsAlive-of_up :
    (p : WireGuardPeer) (now : Instant) → (calculate_status p now).status ≡ up → IsAlive p now
unfolding calculate_status
IsAlive-of_up p now h = elim (Option-cases p.last_handshake) [
  | inl e ↦ ground arith
  | inr (hs, e) ↦ (hs, e, ground arith)
]

up_of_IsAlive :
    (p : WireGuardPeer) (now : Instant) → IsAlive p now → (calculate_status p now).status ≡ up
unfolding calculate_status
up_of_IsAlive p now (hs, e, a) = ground arith

not_up :
    (p : WireGuardPeer) (now : Instant)
    → (calculate_status p now).status ≢ up
    → (calculate_status p now).status
      ≡ (if ltb (now - p.last_endpoint_change) (secs 15) then unknown else down)
unfolding calculate_status
not_up p now h = ground arith

-- After the calculation a peer is up exactly when a handshake shows it to be alive. Otherwise it is
-- unknown in the fifteen seconds after a change of endpoint, and down later.
pub calculate_status-table :
    (p : WireGuardPeer) (now : Instant)
    → (((calculate_status p now).status ≡ up) ↔ IsAlive p now)
      × (((calculate_status p now).status ≡ unknown)
          ↔ ((¬ IsAlive p now) × (now - p.last_endpoint_change < secs 15)))
      × (((calculate_status p now).status ≡ down)
          ↔ ((¬ IsAlive p now) × (secs 15 ≤ now - p.last_endpoint_change)))
calculate_status-table p now = (
  (IsAlive-of_up p now, up_of_IsAlive p now),
  (
    λ h. (λ a. cc (up_of_IsAlive p now a), ground (arith, not_up p now)),
    λ h. ground (
      arith,
      not_up p now,
      λ (u : (calculate_status p now).status ≡ up). h.0 (IsAlive-of_up p now u),
    ),
  ),
  (
    λ h. (λ a. cc (up_of_IsAlive p now a), ground (arith, not_up p now)),
    λ h. ground (
      arith,
      not_up p now,
      λ (u : (calculate_status p now).status ≡ up). h.0 (IsAlive-of_up p now u),
    ),
  ),
)
