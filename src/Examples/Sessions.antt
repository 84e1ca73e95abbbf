-- ===== src/Examples/Sessions.antt =====
-- A session that is told twice to start a candidate. The store is the list of the records, the newest
-- first; a text is a specification of the service with its own name.
use ployz.Prelude.{
  Bool, is_empty, ◌≡◌, refl, ap, subst, Bool, none, some, List, [], ◌∷◌, ◌==◌, ==_true, ==_refl,
  not, text_eq, find, keep, All, All-keep, arith, nat_eq,
}
use ployz.Prelude.Text.{codes}
use ployz.Model.Error.{Result, Error, ok}
use ployz.Model.Service.{InstanceStatusRecord, InstanceId}
use ployz.Model.Spec.{Namespace, global}
use ployz.Manifest.Hash.{stable_hash_hex}
use ployz.Session.Agent.{
  AgentApi, DeployAgent, SessionState, DeployFrame, start_frame, candidate_started, next, status_of,
}
use ployz.Session.Commands.{managed_instance, candidate_of, handle_session_frame}
use ployz.Session.Commands.Found.{Stores, find-keep_none}
use ployz.Session.Commands.Again.{handle_session_frame-again}
use ployz.Session.Agent
use ployz.Session.Commands
use ployz.Session.Client.{
  inspect_namespace, start_candidate, drain_instance, remove_instance, close,
}
use ployz.Session.Client.Remote.{served, over, served-over}
use ployz.Deploy.Effects.{StartCandidateRequest}
use ployz.Examples.Deploys.{service}
use ployz.Examples.Coordination.{json}
use ployz.Examples.Containers.{policies, local}

abbrev in_namespace : Namespace → InstanceStatusRecord → Bool
in_namespace ns r = r.namespace == ns

abbrev has_id : InstanceId → InstanceStatusRecord → Bool
has_id id r = r.instance_id == id

abbrev api : AgentApi policies
api = record {
  State = List InstanceStatusRecord;
  list_instance_status = λ s ns. ok (keep (in_namespace ns) s);
  upsert_instance_status = λ s r. (r ∷ s, ok tt);
  delete_instance_status = λ s id. (keep (λ r. not (has_id id r)) s, ok tt);
  connect = λ s. ok tt;
  list_by_labels = λ s labels. ok [];
  ensure = λ s spec. (s, ok (codes "c1", some 7));
  remove = λ s name. (s, ok tt);
  wait_ready = λ s spec i. (s, ok tt);
  now_unix_secs = λ s. 100;
  json = json;
  decode_spec = λ text. ok (record (service global) { name = text });
  debug = λ frame. codes "frame";
}

found_first :
    (s : List InstanceStatusRecord) (r : InstanceStatusRecord)
    → find (has_id r.instance_id) (keep (in_namespace r.namespace) (r ∷ s)) ≡ some r
found_first s r = simp (==_refl r.namespace, ==_refl r.instance_id) refl

none_left :
    (s : List InstanceStatusRecord) (id : InstanceId)
    → find (has_id id) (keep (λ r. not (has_id id r)) s) ≡ none
none_left [] id = refl
none_left (r ∷ s) id = ground (arith, none_left s id)

abbrev Stored : Type 0
Stored = List InstanceStatusRecord × Result Error (Unit {0})

api-Stores : Stores api
api-Stores = record {
  namespaces = λ s ns rs e. subst (All (λ (r : InstanceStatusRecord). r.namespace ≡ ns)) (cc e) (
      All-keep (λ (r : InstanceStatusRecord). r.namespace ≡ ns) (in_namespace ns) s
        (λ r h. ==_true r.namespace ns h));
  upserted = λ s s' r e. (
    keep (in_namespace r.namespace) s',
    refl,
    subst (λ x. find (has_id r.instance_id) (keep (in_namespace r.namespace) x) ≡ some r)
        (ap (λ (x : Stored). x.0) e) (found_first s r),
  );
  deleted = λ s s' id ns e. (
    keep (in_namespace ns) s',
    refl,
    subst (λ x. find (has_id id) (keep (in_namespace ns) x) ≡ none) (ap (λ (x : Stored). x.0) e)
        (find-keep_none (has_id id) (in_namespace ns) _ (none_left s id)),
  );
}

abbrev agent : DeployAgent
agent = record { local_machine_id = codes "m1"; runtime = local }

abbrev session : SessionState
session = record {
  namespace = codes "prod";
  deploy_id = codes "d1";
  lock = record { namespace = codes "prod" };
}

abbrev frame : DeployFrame
frame = start_frame (codes "api") (codes "slot-0001") (codes "i1") (codes "api")

abbrev status : InstanceStatusRecord
status =
    status_of api (codes "prod")
      (managed_instance
        (candidate_of api agent session (codes "slot-0001") (codes "i1") (service global)
          (stable_hash_hex (codes "api")))
        (codes "c1", some 7))
      100

frame-answered :
    handle_session_frame api agent session frame [] ≡ (status ∷ [], candidate_started status)
unfolding handle_session_frame next
frame-answered = refl

handle_session_frame-again_example :
    handle_session_frame api agent session frame (status ∷ [])
    ≡ (status ∷ [], candidate_started status)
handle_session_frame-again_example =
    handle_session_frame-again api agent session frame [] (status ∷ []) (candidate_started status)
      api-Stores refl frame-answered refl

-- The connection closes when the store is left empty.
abbrev lossy : List InstanceStatusRecord → Bool
lossy = is_empty

served-over_example :
    (inspect_namespace (served api agent session lossy) ([], none)
      ≡ over api agent session lossy (Agent.inspect_namespace api agent session []))
    × ((req : StartCandidateRequest)
        → start_candidate (served api agent session lossy) req ([], none)
          ≡ over api agent session lossy (
              Commands.start_candidate api agent session req.service req.slot_id req.instance_id
                req.spec_json []))
    × ((id : InstanceId)
        → drain_instance (served api agent session lossy) id ([], none)
          ≡ over api agent session lossy (Commands.drain_instance api agent session id []))
    × ((id : InstanceId)
        → remove_instance (served api agent session lossy) id ([], none)
          ≡ over api agent session lossy (Commands.remove_instance api agent session id []))
    × (close (served api agent session lossy) ([], none)
        ≡ (((Commands.close_local api agent []).0, none), (Commands.close_local api agent []).1))
served-over_example = served-over api agent session lossy [] none
