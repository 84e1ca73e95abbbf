-- ===== src/Store/Deploys.antt =====
-- The part of the in-memory store that deploys read and write: lines 138-152 and 190-324 of
-- crates/ployz-store-api/src/memory.rs.
use ployz.Prelude.{
  Bool, Option, List, [], ◌∷◌, ◌++◌, map, not, ◌&&◌, ◌==◌, text_eq, pair_eq, Eq, keep, contains,
}
use ployz.Prelude.Text.{Text}
use ployz.Prelude.Map
use ployz.Prelude.Map.{Map}
use ployz.Model.Service.{
  ServiceRevisionRecord, ServiceReleaseRecord, InstanceStatusRecord, DeployRecord, InstanceId,
  DeployId, RoutingState, DeployCommit,
}
use ployz.Model.Spec.{Namespace}
use ployz.Store.{Channels, StoreInner, broadcast, broadcast_routing_refresh}

abbrev pub release_key : ServiceReleaseRecord → Namespace × Text
release_key r = (r.namespace, r.service)

abbrev pub revision_key : ServiceRevisionRecord → Namespace × (Text × Text)
revision_key r = (r.namespace, (r.service, r.revision_hash))

instance unfoldable pub revision_key_eq : Eq (Namespace × (Text × Text))
unfolding pair_eq text_eq
revision_key_eq = pair_eq ⦃d = text_eq⦄ ⦃e = pair_eq ⦃d = text_eq⦄ ⦃e = text_eq⦄⦄

abbrev pub services_of : List ServiceReleaseRecord → List Text
services_of = map (λ (r : ServiceReleaseRecord). r.service)

-- The services whose release a commit replaces or takes away.
abbrev pub touched_services : DeployCommit → List Text
touched_services commit = commit.removed_services ++ services_of commit.releases

-- Whether the release under a key stays through a commit's first part.
abbrev pub is_kept : DeployCommit → Namespace × Text → Bool
is_kept commit key = not (key.0 == commit.namespace && contains (touched_services commit) key.1)

unfoldable pub insert_releases :
    List ServiceReleaseRecord
    → Map (Namespace × Text) ServiceReleaseRecord
    → Map (Namespace × Text) ServiceReleaseRecord
unfolding Map.insert pair_eq text_eq
insert_releases [] m = m
insert_releases (r ∷ rs) m = insert_releases rs (Map.insert (release_key r) r m)

module _ {Net : Type 0} {C : Channels Net} where
  abbrev pub load_routing_state : StoreInner C → RoutingState
  load_routing_state s = record {
    revisions = Map.values s.service_revisions;
    releases = Map.values s.service_releases;
    instances = Map.values s.instance_status;
  }

  abbrev pub list_service_revisions : StoreInner C → Namespace → List ServiceRevisionRecord
  list_service_revisions s ns =
      keep (λ (r : ServiceRevisionRecord). r.namespace == ns) (Map.values s.service_revisions)

  abbrev pub list_service_releases : StoreInner C → Namespace → List ServiceReleaseRecord
  list_service_releases s ns =
      keep (λ (r : ServiceReleaseRecord). r.namespace == ns) (Map.values s.service_releases)

  abbrev pub list_instance_status : StoreInner C → Namespace → List InstanceStatusRecord
  list_instance_status s ns =
      keep (λ (r : InstanceStatusRecord). r.namespace == ns) (Map.values s.instance_status)

  abbrev pub get_deploy : StoreInner C → DeployId → Option DeployRecord
  get_deploy s id = Map.get id s.deploys

  unfoldable pub upsert_service_revision : StoreInner C → ServiceRevisionRecord → StoreInner C
  unfolding Map.insert revision_key_eq broadcast
  upsert_service_revision s r =
      broadcast_routing_refresh
        (record s { service_revisions = Map.insert (revision_key r) r s.service_revisions })

  unfoldable pub upsert_service_release : StoreInner C → ServiceReleaseRecord → StoreInner C
  unfolding Map.insert pair_eq text_eq broadcast
  upsert_service_release s r =
      broadcast_routing_refresh
        (record s { service_releases = Map.insert (release_key r) r s.service_releases })

  unfoldable pub delete_service_release : StoreInner C → Namespace → Text → StoreInner C
  unfolding Map.remove pair_eq text_eq broadcast
  delete_service_release s ns service =
      broadcast_routing_refresh
        (record s { service_releases = Map.remove (ns, service) s.service_releases })

  unfoldable pub upsert_instance_status : StoreInner C → InstanceStatusRecord → StoreInner C
  unfolding Map.insert text_eq broadcast
  upsert_instance_status s r =
      broadcast_routing_refresh
        (record s { instance_status = Map.insert r.instance_id r s.instance_status })

  unfoldable pub delete_instance_status : StoreInner C → InstanceId → StoreInner C
  unfolding Map.remove text_eq broadcast
  delete_instance_status s id =
      broadcast_routing_refresh (record s { instance_status = Map.remove id s.instance_status })

  unfoldable pub upsert_deploy : StoreInner C → DeployRecord → StoreInner C
  unfolding Map.insert text_eq
  upsert_deploy s r = record s { deploys = Map.insert r.deploy_id r s.deploys }

  unfoldable pub apply_deploy_commit : StoreInner C → DeployCommit → StoreInner C
  unfolding Map.retain Map.insert insert_releases pair_eq text_eq broadcast
  apply_deploy_commit s commit = broadcast_routing_refresh (record s {
    service_releases =
        insert_releases commit.releases (Map.retain (is_kept commit) s.service_releases);
    deploys = Map.insert commit.deploy.deploy_id commit.deploy s.deploys;
  })
