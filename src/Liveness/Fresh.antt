-- ===== src/Liveness/Fresh.antt =====
-- What the freshness test of crates/ployz-orchestrator/src/machine_liveness.rs decides.
use ployz.Prelude.{ℕ, ◌+◌, ◌≤◌, ◌≡◌, ◌≢◌, ◌↔◌, true, arith, ==_ne, nat_eq}
use ployz.Model.Machine.{MachineRecord, MachineStatus, status_eq}
use ployz.Liveness.{machine_is_fresh, machine_liveness, liveness_eq}

-- What freshness means: the machine is not down, has sent a heartbeat, and at most thirty seconds
-- ago.
pub record IsFresh {Net : Type 0} (machine : MachineRecord Net) (now : ℕ) : Type 0 where
  pub not_down : machine.status ≢ MachineStatus.down
  pub has_heartbeat : machine.last_heartbeat ≢ 0
  pub recent : now ≤ machine.last_heartbeat + 30

fresh_of :
    {Net : Type 0} (machine : MachineRecord Net) (now : ℕ)
    → IsFresh machine now
    → machine_is_fresh machine now ≡ true
unfolding machine_is_fresh machine_liveness liveness_eq
fresh_of machine now h = ground (
  arith,
  ==_ne machine.status MachineStatus.down h.not_down,
  ==_ne machine.last_heartbeat 0 h.has_heartbeat,
  h.recent,
)

of_IsFresh :
    {Net : Type 0} (machine : MachineRecord Net) (now : ℕ)
    → machine_is_fresh machine now ≡ true
    → IsFresh machine now
unfolding machine_is_fresh machine_liveness liveness_eq status_eq nat_eq
of_IsFresh machine now h = record {
  not_down = λ e. ground arith;
  has_heartbeat = λ e. ground arith;
  recent = ground arith;
}

-- A machine is fresh just when it is not down, has sent a heartbeat, and sent the last one at most
-- thirty seconds ago (or in the future).
pub machine_is_fresh_iff :
    {Net : Type 0} (machine : MachineRecord Net) (now : ℕ)
    → (machine_is_fresh machine now ≡ true) ↔ IsFresh machine now
machine_is_fresh_iff machine now = (of_IsFresh machine now, fresh_of machine now)
