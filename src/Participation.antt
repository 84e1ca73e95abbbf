-- ===== src/Participation.antt =====
-- Whether the local machine takes part in the cluster:
-- crates/ployz-orchestrator/src/mesh/tasks/participation.rs. The module is named for the task; the
-- type of the same name is in Model/Machine.
pub mod Hysteresis
pub mod Health
use ployz.Prelude.{
  ℕ, ◌+◌, Bool, true, false, Option, none, some, List, [], ◌∷◌, map, not, ◌&&◌, ltb, leb,
  if◌then◌else◌, ◌==◌, nat_eq, text_eq, is_empty, keep,
}
use ployz.Prelude.Text.{Text}
use ployz.Prelude.Map
use ployz.Prelude.Map.{Map}
use ployz.Model.Error.{Error, Result, ok, err}
use ployz.Model.Machine.{
  MachineId, MachineRecord, OverlayIp, Participation, disabled, enabled, draining, participation_eq,
}
use ployz.Liveness.{machine_is_fresh}
use ployz.PeerState.{TcpProbeResult, reachable, probe_status_eq}

abbrev pub hysteresis_samples : ℕ
hysteresis_samples = 3

pub record ParticipationState : Type 0 where
  pub consecutive_good_samples : ℕ
  pub consecutive_bad_samples : ℕ
  pub forced_participation : Option Participation

-- `ParticipationState::default`
abbrev pub default : ParticipationState
default = record {
  consecutive_good_samples = 0;
  consecutive_bad_samples = 0;
  forced_participation = none;
}

pub record RequiredPeerHealth : Type 0 where
  pub required_peer_ids : List Text
  pub unhealthy_required_peer_ids : List Text

pub data PeerHealthSample : Type 0 where
  healthy unhealthy : PeerHealthSample

abbrev pub is_healthy : RequiredPeerHealth → Bool
is_healthy h = is_empty h.unhealthy_required_peer_ids

abbrev pub sample : RequiredPeerHealth → PeerHealthSample
sample h = if is_healthy h then healthy else unhealthy

-- `saturating_add` and `min` on `u8`.
abbrev pub saturating_add : ℕ → ℕ → ℕ
saturating_add a b = if ltb 255 (a + b) then 255 else a + b

abbrev pub min : ℕ → ℕ → ℕ
min a b = if leb a b then a else b

unfoldable pub update_hysteresis : ParticipationState → PeerHealthSample → ParticipationState
update_hysteresis s healthy = record s {
  consecutive_bad_samples = 0;
  consecutive_good_samples = min (saturating_add s.consecutive_good_samples 1) hysteresis_samples;
}
update_hysteresis s unhealthy = record s {
  consecutive_good_samples = 0;
  consecutive_bad_samples = min (saturating_add s.consecutive_bad_samples 1) hysteresis_samples;
}

abbrev pub by_samples : ParticipationState → Participation → Participation
by_samples s disabled =
    if leb hysteresis_samples s.consecutive_good_samples then enabled else disabled
by_samples s enabled =
    if leb hysteresis_samples s.consecutive_bad_samples then disabled else enabled
by_samples s draining = draining

-- The participation that `participation_once` decides on, after the sample is counted.
unfoldable pub next_participation : ParticipationState → Participation → Participation
next_participation s current = elim s.forced_participation [
  | some p ↦ p
  | none ↦ by_samples s current
]

-- What one round reads: the machines in the store, the clock, the record of the local machine,
-- whether the device can be read, and the probes of the peers.
pub record Round (Net : Type 0) : Type 0 where
  pub machines : Result Error (List (MachineRecord Net))
  pub now : ℕ
  pub current : MachineRecord Net
  pub readable : Bool
  pub results : Map OverlayIp TcpProbeResult

module _ {Net : Type 0} where
  abbrev pub takes_part : MachineRecord Net → Bool
  takes_part machine = not (machine.participation == disabled)

  unfoldable pub required_peers_for_participation :
      List (MachineRecord Net) → MachineId → ℕ → List (MachineRecord Net)
  unfolding machine_is_fresh text_eq participation_eq
  required_peers_for_participation machines machine_id now =
      keep (λ (m : MachineRecord Net). machine_is_fresh m now)
        (keep takes_part (keep (λ (m : MachineRecord Net). not (m.id == machine_id)) machines))

  unfoldable pub required_peer_is_healthy : MachineRecord Net → Map OverlayIp TcpProbeResult → Bool
  unfolding Map.get nat_eq probe_status_eq
  required_peer_is_healthy peer results = elim (Map.get peer.overlay_ip results) [
    | none ↦ false
    | some r ↦ r.status == reachable
  ]

  abbrev pub machine_ids : List (MachineRecord Net) → List Text
  machine_ids = map (λ (m : MachineRecord Net). m.id)

  -- The device was read, or not, and the probes answered with these results.
  unfoldable pub required_peers_health :
      Bool → Map OverlayIp TcpProbeResult → List (MachineRecord Net) → RequiredPeerHealth
  unfolding required_peer_is_healthy
  required_peers_health readable results peers =
      let ids = machine_ids peers in
      if is_empty peers
      then record { required_peer_ids = ids; unhealthy_required_peer_ids = [] }
      else if not readable
      then record { required_peer_ids = ids; unhealthy_required_peer_ids = ids }
      else record {
        required_peer_ids = ids;
        unhealthy_required_peer_ids =
            machine_ids (keep (λ m. not (required_peer_is_healthy m results)) peers);
      }

  abbrev pub round_health : MachineId → Round Net → List (MachineRecord Net) → RequiredPeerHealth
  round_health machine_id round machines =
      required_peers_health round.readable round.results
        (required_peers_for_participation machines machine_id round.now)

  -- The next state, and the participation that the writer of the local record is asked to set.
  unfoldable pub participation_once :
      MachineId → Round Net → ParticipationState → ParticipationState × Option Participation
  unfolding update_hysteresis next_participation required_peers_health
      required_peers_for_participation participation_eq
  participation_once machine_id round state = elim round.machines [
    | err e ↦ (state, none)
    | ok machines ↦
        let counted = update_hysteresis state (sample (round_health machine_id round machines)) in
        let next = next_participation counted round.current.participation in
        (counted, if next == round.current.participation then none else some next)
  ]

  -- `SetForced` replaces the forced participation before it has a round run.
  unfoldable pub set_forced :
      MachineId
      → Round Net
      → Option Participation
      → ParticipationState
      → ParticipationState × Option Participation
  unfolding participation_once
  set_forced machine_id round participation state =
      participation_once machine_id round (record state { forced_participation = participation })
