-- ===== src/Session/Locks.antt =====
-- The locks of namespaces: locks.rs of crates/ployzd/src/daemon/deploy_control. The table is behind a
-- mutex, so that an operation is one step. A lock is given back when the session that has it is
-- dropped.
pub mod Exclusion
use ployz.Prelude.{Option, none, some, List, [], ◌∷◌, ◌++◌, text_eq}
use ployz.Prelude.Map
use ployz.Prelude.Map.{Map}
use ployz.Prelude.Text.{Text, codes}
use ployz.Model.Error.{Error, Result, ok, err}
use ployz.Model.Service.{DeployId}
use ployz.Model.Spec.{Namespace}

-- `held` of `NamespaceLockManager`.
abbrev pub Held : Type 0
Held = Map Namespace DeployId

-- `NamespaceLock`, by the namespace that it stands for.
pub record NamespaceLock : Type 0 where
  pub namespace : Namespace

abbrev pub already_locked : Namespace → DeployId → Error
already_locked ns current = record {
  operation = codes "namespace_lock";
  message =
      codes "namespace '"
      ++ (ns ++ (codes "' is already locked by deploy '" ++ (current ++ codes "'")));
}

unfoldable pub try_acquire : Held → Namespace → DeployId → Held × Result Error NamespaceLock
unfolding Map.get Map.insert text_eq
try_acquire held ns deploy_id = elim (Map.get ns held) [
  | some current ↦ (held, err (already_locked ns current))
  | none ↦ (Map.insert ns deploy_id held, ok (record { namespace = ns }))
]

-- `drop` of a `NamespaceLock`
unfoldable pub drop : Held → NamespaceLock → Held
unfolding Map.remove text_eq
drop held lock = Map.remove lock.namespace held
