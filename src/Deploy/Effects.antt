-- ===== src/Deploy/Effects.antt =====
-- What `preview` and `apply` of crates/ployz-orchestrator/src/deploy/mod.rs call: the traits of the
-- store, the sessions (`DeploySessionFactory` and `DeploySession` of
-- crates/ployz-runtime-api/src/deploy.rs), the clock and the generator of identifiers. A history is
-- the list of the calls made so far, the last first, and the world answers a call by the history
-- that ends with it, so that a world can be any store and any machines, with others at work too.
use ployz.Prelude.{ℕ, Option, none, some, List, [], ◌∷◌, ◌++◌}
use ployz.Prelude.Text.{Text}
use ployz.Model.Error.{Error, Result, ok, err}
use ployz.Model.Machine.{MachineId, MachineRecord}
use ployz.Model.Service.{
  InstanceId, DeployId, SlotId, ServiceRevisionRecord, ServiceReleaseRecord, InstanceStatusRecord,
  DeployRecord, DeployCommit, DeployEvent,
}
use ployz.Model.Spec.{Namespace}

pub record StartCandidateRequest : Type 0 where
  pub service : Text
  pub slot_id : SlotId
  pub instance_id : InstanceId
  pub spec_json : Text

-- A call of a session names the machine that the session was opened for.
pub data Call : Type 0 where
  list_service_releases : Namespace → Call
  list_machines : Call
  now_unix_secs : Call
  new_uuid : Call
  open_session : MachineId → Namespace → DeployId → (coordinator : MachineId) → Call
  upsert_deploy : DeployRecord → Call
  upsert_service_revision : ServiceRevisionRecord → Call
  start_candidate : MachineId → StartCandidateRequest → Call
  upsert_instance_status : InstanceStatusRecord → Call
  apply_deploy_commit : DeployCommit → Call
  list_instance_status : Namespace → Call
  drain_instance : MachineId → InstanceId → Call
  remove_instance : MachineId → InstanceId → Call
  close_session : MachineId → Call

abbrev pub History : Type 0
History = List Call

pub record World (Net : Type 0) : Type 0 where
  pub releases : History → Result Error (List ServiceReleaseRecord)
  pub machines : History → Result Error (List (MachineRecord Net))
  pub clock : History → ℕ
  pub uuid : History → Text
  pub opened : History → Result Error (List InstanceStatusRecord)
  pub started : History → Result Error InstanceStatusRecord
  pub statuses : History → Result Error (List InstanceStatusRecord)
  -- The answer to a call that returns nothing.
  pub done : History → Result Error (Unit {0})

-- What a deploy has at hand while it runs: `sessions` are the keys of the map of sessions.
pub record Run : Type 0 where
  pub history : History
  pub sessions : List MachineId
  pub events : List DeployEvent

abbrev pub M : Type 0 → Type 0
M A = Run → Run × Result Error A

-- `?` after a call: what has been done stays done.
unfoldable pub next : {A B : Type 0} → Run × Result Error A → (A → M B) → Run × Result Error B
next (run, ok a) f = f a run
next (run, err e) f = (run, err e)

infixr 5 ◌>>=◌ ◌>>◌
abbrev pub ◌>>=◌ : {A B : Type 0} → M A → (A → M B) → M B
◌>>=◌ m f run = next (m run) f

abbrev pub ◌>>◌ : {B : Type 0} → M (Unit {0}) → M B → M B
m >> k = m >>= λ _. k

abbrev pub pure : {A : Type 0} → A → M A
pure a run = (run, ok a)

abbrev pub fail : {A : Type 0} → Error → M A
fail e run = (run, err e)

-- A value or an error that no call is needed for.
abbrev pub of_result : {A : Type 0} → Result Error A → M A
of_result r run = (run, r)

abbrev pub of_option : {A : Type 0} → Error → Option A → M A
of_option e none = fail e
of_option e (some a) = pure a

-- A call that can fail, and one that cannot.
abbrev pub call : {A : Type 0} → (History → Result Error A) → Call → M A
call answer c run = (record run { history = c ∷ run.history }, answer (c ∷ run.history))

abbrev pub ask : {A : Type 0} → (History → A) → Call → M A
ask answer c run = (record run { history = c ∷ run.history }, ok (answer (c ∷ run.history)))

-- A call whose result is kept as a value: `if let Err(error) = …`, `let _ = …`.
abbrev pub attempt : {A : Type 0} → M A → M (Result Error A)
attempt m run = let (run', result) = m run in (run', ok result)

-- `events.push`
abbrev pub record_event : DeployEvent → M (Unit {0})
record_event e run = (record run { events = run.events ++ e ∷ [] }, ok tt)
