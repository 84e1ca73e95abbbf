-- ===== src/Examples/Routing.antt =====
-- DNS and the gateway at concrete inputs.
use ployz.Prelude.{
  ℕ, ◌≡◌, refl, true, none, some, List, [], ◌∷◌, leb, All, Distinct, nat_eq, text_eq, pair_eq,
}
use ployz.Prelude.Text.{Text, codes, to_ascii_lowercase}
use ployz.Prelude.Sort.{sort_by}
use ployz.Prelude.Map
use ployz.Model.Error.{Result, ok}
use ployz.Model.Service.{InstanceStatusRecord, RoutingState, direct, ready, DrainState}
use ployz.Model.Spec.{ServiceSpec, RouteSpec, replicated}
use ployz.Examples.Deploys.{service}
use ployz.Dns.{parse_query, project_dns, resolve, service_explicit, service_implicit}
use ployz.Dns.Answers.{answer, serving, resolve-project_dns}
use ployz.Dns.Names.{full_name, parse_query-full_name}
use ployz.Gateway.{
  HttpRouteView, TcpRouteView, GatewaySnapshot, match_http_route, route_matches, request_host,
  normalize_path_prefix, check_http, check_hosts, check_tcp,
}
use ployz.Gateway.Project.{project}
use ployz.Gateway.Conflicts.{http_keys, ports_of, validate_conflicts-Distinct}
use ployz.Gateway.Matching.{Beats, match_http_route-Beats}

abbrev pub instance_at : ℕ → InstanceStatusRecord
instance_at ip = record {
  instance_id = codes "i";
  namespace = codes "prod";
  service = codes "db";
  slot_id = codes "slot-0001";
  machine_id = codes "m1";
  revision_hash = codes "r1";
  deploy_id = codes "d1";
  docker_container_id = [];
  overlay_ip = some ip;
  backend_ports = [];
  phase = ready;
  ready = true;
  drain_state = DrainState.none;
  error = none;
  started_at = 1;
  updated_at = 1;
}

abbrev state : RoutingState
state = record { revisions = []; releases = []; instances = instance_at 9 ∷ instance_at 4 ∷ [] }

resolve-project_dns_example :
    (resolve (project_dns state) (service_explicit (codes "db") (codes "prod")) none
      ≡ answer (sort_by leb (serving (codes "prod") (codes "db") state.instances)))
    × (resolve (project_dns state) (service_implicit (codes "db")) (some (codes "prod"))
        ≡ answer (sort_by leb (serving (codes "prod") (codes "db") state.instances)))
resolve-project_dns_example = resolve-project_dns state (codes "prod") (codes "db") none

abbrev http_route : Text → Text → HttpRouteView
http_route id path = record {
  route_id = id;
  namespace = codes "prod";
  service = codes "web";
  revision_hash = codes "r1";
  hostnames = codes "example.com" ∷ [];
  path_prefix = path;
  backends = [];
}

abbrev tcp_route : TcpRouteView
tcp_route = record {
  route_id = codes "tcp:0";
  namespace = codes "prod";
  service = codes "db";
  revision_hash = codes "r1";
  listen_port = 5432;
  backends = [];
}

abbrev https : List HttpRouteView
https = http_route (codes "a") (codes "/") ∷ http_route (codes "b") (codes "/api") ∷ []

no_http_conflict : check_http https [] ≡ ok tt
unfolding check_http check_hosts Map.get Map.insert pair_eq text_eq
no_http_conflict = refl

no_tcp_conflict : check_tcp (tcp_route ∷ []) [] ≡ ok tt
unfolding check_tcp Map.get Map.insert nat_eq
no_tcp_conflict = refl

validate_conflicts-Distinct_example :
    Distinct (http_keys https) × Distinct (ports_of (tcp_route ∷ []))
validate_conflicts-Distinct_example =
    validate_conflicts-Distinct https (tcp_route ∷ []) no_http_conflict no_tcp_conflict

-- A service with two routes, whatever its JSON is.
abbrev web : ServiceSpec
web = record (service (replicated 1)) {
  routes =
      RouteSpec.http (record {
        service_port = codes "http";
        hostnames = codes "Example.com" ∷ [];
        path_prefix = [];
      })
      ∷ RouteSpec.http (record {
        service_port = codes "http";
        hostnames = codes "example.com" ∷ [];
        path_prefix = codes "api";
      })
      ∷ [];
}

abbrev read_web : Text → Result Text ServiceSpec
read_web json = ok web

abbrev routing : RoutingState
routing = record {
  revisions =
      record {
        namespace = codes "prod";
        service = codes "api";
        revision_hash = codes "r1";
        spec_json = [];
        created_by = codes "m1";
        created_at = 1;
      }
      ∷ [];
  releases =
      record {
        namespace = codes "prod";
        service = codes "api";
        release = record {
          primary_revision_hash = codes "r1";
          referenced_revision_hashes = codes "r1" ∷ [];
          routing = direct (codes "r1");
          slots = [];
          updated_by_deploy_id = codes "d1";
          updated_at = 1;
        };
      }
      ∷ [];
  instances = [];
}

abbrev view : Text → Text → HttpRouteView
view id path = record {
  route_id = id;
  namespace = codes "prod";
  service = codes "api";
  revision_hash = codes "r1";
  hostnames = codes "example.com" ∷ [];
  path_prefix = path;
  backends = [];
}

abbrev snapshot : GatewaySnapshot
snapshot = record {
  http_routes =
      view (codes "http:prod:api:1") (codes "/api")
      ∷ view (codes "http:prod:api:0") (codes "/")
      ∷ [];
  tcp_routes = [];
}

projected : project read_web routing ≡ ok snapshot
unfolding project
projected = refl

matched :
    match_http_route snapshot (some (codes "EXAMPLE.com:443")) (codes "/api/users")
    ≡ some (view (codes "http:prod:api:1") (codes "/api"))
unfolding match_http_route
matched = refl

match_http_route-Beats_example :
    (route_matches
        (request_host (some (codes "EXAMPLE.com:443")))
        (normalize_path_prefix (codes "/api/users"))
        (view (codes "http:prod:api:1") (codes "/api"))
      ≡ true)
    × All
        (λ x.
          route_matches
              (request_host (some (codes "EXAMPLE.com:443")))
              (normalize_path_prefix (codes "/api/users"))
              x
            ≡ true
          → Beats (view (codes "http:prod:api:1") (codes "/api")) x)
        snapshot.http_routes
match_http_route-Beats_example =
    match_http_route-Beats read_web routing snapshot (some (codes "EXAMPLE.com:443"))
      (codes "/api/users") (view (codes "http:prod:api:1") (codes "/api")) projected matched

parse_query-full_name_example :
    parse_query (full_name (codes "db") (codes "prod"))
    ≡ service_explicit (codes "db") (codes "prod")
unfolding to_ascii_lowercase nat_eq text_eq
parse_query-full_name_example =
    parse_query-full_name (codes "db") (codes "prod")
      (record { present = refl; lower = refl; no_dot = refl })
      (record { present = refl; lower = refl; no_dot = refl })
