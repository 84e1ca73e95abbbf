-- ===== src/Gateway/Project.antt =====
-- The projection of the routing state to routes: `project` of crates/ployz-gateway/src/routes.rs.
use Prim.Native.Nat.{compare, Ordering}
use ployz.Prelude.{
  ℕ, ◌+◌, Bool, true, false, Option, none, some, List, [], ◌∷◌, ◌++◌, map, not, ◌&&◌, if◌then◌else◌,
  ◌==◌, nat_eq, text_eq, is_empty, keep, contains,
}
use ployz.Prelude.Text.{Text, codes, byte_len}
use ployz.Prelude.Text.Decimal.{decimal}
use ployz.Prelude.Compare.{then_with, is_le, compare_text}
use ployz.Prelude.Sort.{sort_by}
use ployz.Prelude.Map
use ployz.Prelude.Map.{Map}
use ployz.Model.Error.{Result, ok, err, ◌>>=◌, ◌>>◌}
use ployz.Model.Service.{
  InstanceId, InstanceStatusRecord, ServiceRelease, ServiceReleaseRecord, ServiceReleaseSlot,
  ServiceRevisionRecord, ServiceTrafficAllocation, direct, traffic_split, RoutingState, ready,
  phase_eq, drain_eq, DrainState,
}
use ployz.Model.Spec.{Namespace, ServiceSpec, ServicePort, RouteSpec, HttpRoute, TcpRoute}
use ployz.Store.Deploys.{revision_key, revision_key_eq}
use ployz.Gateway.{
  BackendView, HttpRouteView, TcpRouteView, GatewaySnapshot, ProjectionError, missing_revision,
  invalid_revision_spec, normalize_request_host, normalize_path_prefix, validate_http_conflicts,
  validate_tcp_conflicts, check_http, check_tcp,
}

unfoldable pub routing_revision_hash : ServiceRelease → Text
routing_revision_hash release = elim release.routing [
  | direct revision_hash ↦ revision_hash
  | traffic_split allocations ↦ release.primary_revision_hash
]

abbrev or_referenced : List Text → List Text → List Text
or_referenced [] referenced = referenced
or_referenced (h ∷ hs) referenced = h ∷ hs

unfoldable pub allowed_revision_hashes : ServiceRelease → List Text
allowed_revision_hashes release = elim release.routing [
  | direct revision_hash ↦ revision_hash ∷ []
  | traffic_split allocations ↦
      or_referenced (map (λ (a : ServiceTrafficAllocation). a.revision_hash) allocations)
        release.referenced_revision_hashes
]

abbrev has_no_error : Option Text → Bool
has_no_error none = true
has_no_error (some e) = false

unfoldable pub is_routable_instance :
    InstanceStatusRecord → ServiceReleaseSlot → Namespace → Text → List Text → Bool
unfolding text_eq phase_eq drain_eq
is_routable_instance i slot ns service allowed =
    i.namespace == ns
    && i.service == service
    && i.slot_id == slot.slot_id
    && i.machine_id == slot.machine_id
    && i.revision_hash == slot.revision_hash
    && contains allowed i.revision_hash
    && i.ready
    && i.phase == ready
    && i.drain_state == DrainState.none
    && has_no_error i.error

abbrev pub Backends : Type 0
Backends = Map Text (List BackendView)

abbrev or_empty {ℓ} : {A : Type ℓ} → Option (List A) → List A
or_empty none = []
or_empty (some xs) = xs

-- One backend for each of the ports that the instance has a number for.
unfoldable pub add_ports : InstanceStatusRecord → (overlay_ip : ℕ) → List Text → Backends → Backends
unfolding Map.get Map.insert text_eq
add_ports i ip [] backends = backends
add_ports i ip (name ∷ names) backends = elim (Map.get name i.backend_ports) [
  | none ↦ add_ports i ip names backends
  | some number ↦
      let view : BackendView = record {
        instance_id = i.instance_id;
        machine_id = i.machine_id;
        service_port = name;
        address = (ip, number);
      } in
      add_ports i ip names
        (Map.insert name (or_empty (Map.get name backends) ++ view ∷ []) backends)
]

-- The address that a slot's instance is reached at.
abbrev pub routable_ip : InstanceStatusRecord → Bool → Option ℕ
routable_ip i true = i.overlay_ip
routable_ip i false = none

abbrev add_instance :
    List Text
    → Namespace
    → Text
    → List Text
    → ServiceReleaseSlot
    → Option InstanceStatusRecord
    → Backends
    → Backends
add_instance ports ns service allowed slot none backends = backends
add_instance ports ns service allowed slot (some i) backends =
    elim (routable_ip i (is_routable_instance i slot ns service allowed)) [
      | none ↦ backends
      | some ip ↦ add_ports i ip ports backends
    ]

unfoldable pub add_slots :
    List Text
    → Namespace
    → Text
    → List Text
    → List ServiceReleaseSlot
    → Map InstanceId InstanceStatusRecord
    → Backends
    → Backends
unfolding is_routable_instance add_ports Map.get text_eq
add_slots ports ns service allowed [] instances backends = backends
add_slots ports ns service allowed (slot ∷ slots) instances backends =
    add_slots ports ns service allowed slots instances (
      add_instance ports ns service allowed slot (Map.get slot.active_instance_id instances)
        backends)

abbrev compare_backends : BackendView → BackendView → Ordering
compare_backends a b = then_with (compare_text a.machine_id b.machine_id) (
    then_with (compare_text a.instance_id b.instance_id)
      (then_with (compare a.address.0 b.address.0) (compare a.address.1 b.address.1)))

abbrev backend_le : BackendView → BackendView → Bool
backend_le a b = is_le (compare_backends a b)

-- The names of the ports, each once.
unfoldable pub port_set : List ServicePort → List Text
unfolding text_eq
port_set [] = []
port_set (p ∷ ps) = let rest = port_set ps in if contains rest p.name then rest else p.name ∷ rest

unfoldable pub routable_backends_by_port :
    ServiceSpec
    → Namespace
    → Text
    → List Text
    → List ServiceReleaseSlot
    → Map InstanceId InstanceStatusRecord
    → Backends
unfolding add_slots port_set sort_by compare_text
routable_backends_by_port spec ns service allowed slots instances =
    map (λ (e : Text × List BackendView). (e.0, sort_by backend_le e.1))
      (add_slots (port_set spec.service_ports) ns service allowed slots instances [])

abbrev text_le : Text → Text → Bool
text_le a b = is_le (compare_text a b)

-- A sorted set of texts.
unfoldable pub sorted_set : List Text → List Text
unfolding text_eq sort_by compare_text
sorted_set [] = []
sorted_set (x ∷ xs) =
    let rest = sorted_set xs in if contains rest x then rest else sort_by text_le (x ∷ rest)

unfoldable pub route_hostnames : List Text → List Text
unfolding normalize_request_host sorted_set
route_hostnames names = sorted_set (keep (λ h. not (is_empty h)) (map normalize_request_host names))

abbrev route_id : Text → Namespace → Text → ℕ → Text
route_id kind ns name index =
    kind ++ codes ":" ++ ns ++ codes ":" ++ name ++ codes ":" ++ decimal index

abbrev pub Routes : Type 0
Routes = List HttpRouteView × List TcpRouteView

abbrev http_view : ServiceRevisionRecord → ServiceSpec → Backends → ℕ → HttpRoute → HttpRouteView
http_view revision spec backends index r = record {
  route_id = route_id (codes "http") revision.namespace spec.name index;
  namespace = revision.namespace;
  service = spec.name;
  revision_hash = revision.revision_hash;
  hostnames = route_hostnames r.hostnames;
  path_prefix = normalize_path_prefix r.path_prefix;
  backends = or_empty (Map.get r.service_port backends);
}

abbrev tcp_view : ServiceRevisionRecord → ServiceSpec → Backends → ℕ → TcpRoute → TcpRouteView
tcp_view revision spec backends index r = record {
  route_id = route_id (codes "tcp") revision.namespace spec.name index;
  namespace = revision.namespace;
  service = spec.name;
  revision_hash = revision.revision_hash;
  listen_port = r.listen_port;
  backends = or_empty (Map.get r.service_port backends);
}

-- The routes of a service from an index on, after those before.
unfoldable pub add_routes :
    ServiceRevisionRecord → ServiceSpec → Backends → ℕ → List RouteSpec → Routes → Routes
unfolding Map.get text_eq route_hostnames normalize_path_prefix decimal
add_routes revision spec backends index [] routes = routes
add_routes revision spec backends index (RouteSpec.http r ∷ rs) (https, tcps) =
    add_routes revision spec backends (index + 1) rs
      (https ++ http_view revision spec backends index r ∷ [], tcps)
add_routes revision spec backends index (RouteSpec.tcp r ∷ rs) (https, tcps) =
    add_routes revision spec backends (index + 1) rs
      (https, tcps ++ tcp_view revision spec backends index r ∷ [])

abbrev pub Revisions : Type 0
Revisions = Map (Namespace × (Text × Text)) ServiceRevisionRecord

unfoldable pub revisions_by_key : List ServiceRevisionRecord → Revisions → Revisions
unfolding Map.insert revision_key_eq
revisions_by_key [] m = m
revisions_by_key (r ∷ rs) m = revisions_by_key rs (Map.insert (revision_key r) r m)

unfoldable pub instances_by_id :
    List InstanceStatusRecord
    → Map InstanceId InstanceStatusRecord
    → Map InstanceId InstanceStatusRecord
unfolding Map.insert text_eq
instances_by_id [] m = m
instances_by_id (i ∷ is) m = instances_by_id is (Map.insert i.instance_id i m)

-- The order of the HTTP routes: those with hosts first, then the longer paths.
abbrev pub compare_empty : Bool → Bool → Ordering
compare_empty false true = Ordering.lt
compare_empty true false = Ordering.gt
compare_empty _ _ = Ordering.eq

abbrev pub compare_http : HttpRouteView → HttpRouteView → Ordering
compare_http a b = then_with (compare_empty (is_empty a.hostnames) (is_empty b.hostnames)) (
    then_with (compare (byte_len b.path_prefix) (byte_len a.path_prefix)) (
      then_with (compare_text a.namespace b.namespace)
        (then_with (compare_text a.service b.service) (compare_text a.route_id b.route_id))))

abbrev pub compare_tcp : TcpRouteView → TcpRouteView → Ordering
compare_tcp a b =
    then_with (compare a.listen_port b.listen_port) (compare_text a.route_id b.route_id)

abbrev pub http_le : HttpRouteView → HttpRouteView → Bool
http_le a b = is_le (compare_http a b)

abbrev pub tcp_le : TcpRouteView → TcpRouteView → Bool
tcp_le a b = is_le (compare_tcp a b)

unfoldable pub sorted_routes : Routes → GatewaySnapshot
unfolding sort_by compare_text byte_len
sorted_routes (https, tcps) = record {
  http_routes = sort_by http_le https;
  tcp_routes = sort_by tcp_le tcps;
}

-- The end of `project`: the conflicts, then the sorts.
abbrev pub checked_routes : Routes → Result ProjectionError GatewaySnapshot
checked_routes routes =
    validate_http_conflicts routes.0 >> validate_tcp_conflicts routes.1 >> ok (sorted_routes routes)

-- `serde_json::from_str`, with the text of its error.
module _ (from_json : Text → Result Text ServiceSpec) where
  abbrev read_spec : ServiceRevisionRecord → Result ProjectionError ServiceSpec
  read_spec r = elim (from_json r.spec_json) [
    | ok spec ↦ ok spec
    | err message ↦ err (invalid_revision_spec r.namespace r.service message)
  ]

  abbrev find_revision :
      Revisions → ServiceReleaseRecord → Result ProjectionError ServiceRevisionRecord
  find_revision revisions r =
      let hash = routing_revision_hash r.release in
      elim (Map.get (r.namespace, (r.service, hash)) revisions) [
        | some revision ↦ ok revision
        | none ↦ err (missing_revision r.namespace r.service hash)
      ]

  abbrev release_routes :
      ServiceReleaseRecord
      → Map InstanceId InstanceStatusRecord
      → ServiceRevisionRecord
      → ServiceSpec
      → Routes
      → Routes
  release_routes r instances revision spec routes =
      add_routes revision spec
        (routable_backends_by_port spec r.namespace r.service (allowed_revision_hashes r.release)
          r.release.slots instances)
        0 spec.routes routes

  unfoldable pub project_releases :
      Revisions
      → Map InstanceId InstanceStatusRecord
      → List ServiceReleaseRecord
      → Routes
      → Result ProjectionError Routes
  unfolding Map.get revision_key_eq routing_revision_hash allowed_revision_hashes
      routable_backends_by_port add_routes
  project_releases revisions instances [] routes = ok routes
  project_releases revisions instances (r ∷ rs) routes = find_revision revisions r >>= λ revision.
      read_spec revision >>= λ spec.
      project_releases revisions instances rs (release_routes r instances revision spec routes)

  unfoldable pub project : RoutingState → Result ProjectionError GatewaySnapshot
  unfolding project_releases revisions_by_key instances_by_id check_http check_tcp sorted_routes
  project state =
      project_releases (revisions_by_key state.revisions []) (instances_by_id state.instances [])
        state.releases ([], [])
      >>= λ routes. checked_routes routes
