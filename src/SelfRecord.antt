-- ===== src/SelfRecord.antt =====
-- The task that alone writes the record of the local machine:
-- crates/ployz-orchestrator/src/mesh/tasks/self_record.rs.
pub mod Acknowledged
use ployz.Prelude.{ℕ, Option, none, some, List, [], ◌∷◌, if◌then◌else◌, Eq, ◌==◌, nat_eq}
use ployz.Prelude.Text.{Text}
use ployz.Model.Error.{Error, Result, ok, err}
use ployz.Model.Machine.{MachineId, MachineRecord, OverlayIp, Participation, up, same_record}

pub data SelfRecordMutation (Net : Type 0) : Type 0 where
  refresh_liveness : ℕ → Option OverlayIp → SelfRecordMutation Net
  set_endpoints : List Text → SelfRecordMutation Net
  set_participation : Participation → SelfRecordMutation Net
  replace : MachineRecord Net → SelfRecordMutation Net

-- What the task uses of a `MachineStore`, which is any of several back ends.
pub record MachineStoreApi (Net : Type 0) : Type 1 where
  pub State : Type 0
  pub upsert_self_machine : State → MachineRecord Net → State × Result Error (Unit {0})
  pub machine : State → MachineId → Option (MachineRecord Net)

abbrev pub or_kept : Option OverlayIp → Option OverlayIp → Option OverlayIp
or_kept none old = old
or_kept (some ip) old = some ip

module _ {Net : Type 0} where
  unfoldable pub apply_mutation : MachineRecord Net → SelfRecordMutation Net → MachineRecord Net
  unfolding nat_eq
  apply_mutation r (refresh_liveness now bridge_ip) = record r {
    status = up;
    created_at = if r.created_at == 0 then now else r.created_at;
    last_heartbeat = now;
    updated_at = now;
    bridge_ip = or_kept bridge_ip r.bridge_ip;
  }
  apply_mutation r (set_endpoints endpoints) = record r { endpoints = endpoints }
  apply_mutation r (set_participation participation) = record r { participation = participation }
  apply_mutation r (replace next) = next

module _ {Net : Type 0} ⦃e : Eq Net⦄ (S : MachineStoreApi Net) where
  -- The task's own record, the one it shares with the other tasks, and the store.
  pub record Writer : Type 0 where
    pub current : MachineRecord Net
    pub authoritative_self : MachineRecord Net
    pub store : S.State

  -- What becomes of a write: the answer of the store decides.
  abbrev pub settle :
      Writer
      → MachineRecord Net
      → S.State × Result Error (Unit {0})
      → Writer × Option (MachineRecord Net)
  settle w next (store, ok _) =
      (record { current = next; authoritative_self = next; store = store }, some next)
  settle w next (store, err x) = (record w { store = store }, none)

  -- One command: the next state, and the answer that `done` carries.
  unfoldable pub write : Writer → SelfRecordMutation Net → Writer × Option (MachineRecord Net)
  unfolding apply_mutation same_record
  write w m =
      let next = apply_mutation w.current m in
      if same_record next w.current
      then (w, some next)
      else settle w next (S.upsert_self_machine w.store next)
