-- ===== src/Liveness.antt =====
-- Freshness of a machine's heartbeat: crates/ployz-orchestrator/src/machine_liveness.rs.
pub mod Fresh
use ployz.Prelude.{
  ℕ, ◌+◌, ◌-◌, ◌≤◌, ◌≡◌, ◌≢◌, ◌↔◌, Bool, ◌||◌, arith, ltb, if◌then◌else◌, Eq, ◌==◌, nat_eq,
}
use ployz.Model.Machine.{MachineRecord, MachineStatus, status_eq}

pub data MachineLiveness : Type 0 where
  fresh stale down : MachineLiveness

MachineLiveness-discrete : Discrete MachineLiveness
MachineLiveness-discrete = hlevel

instance unfoldable pub liveness_eq : Eq MachineLiveness
unfolding MachineLiveness-discrete
liveness_eq = record { dec = MachineLiveness-discrete }

abbrev pub stale_heartbeat_secs : ℕ
stale_heartbeat_secs = 30

-- `saturating_sub` is the subtraction of the natural numbers.
unfoldable pub machine_liveness : {Net : Type 0} → MachineRecord Net → ℕ → MachineLiveness
unfolding nat_eq status_eq
machine_liveness machine now =
    if machine.status == MachineStatus.down
    then down
    else if machine.last_heartbeat == 0 || ltb stale_heartbeat_secs (now - machine.last_heartbeat)
    then stale
    else fresh

unfoldable pub machine_is_fresh : {Net : Type 0} → MachineRecord Net → ℕ → Bool
unfolding machine_liveness liveness_eq
machine_is_fresh machine now = machine_liveness machine now == fresh
