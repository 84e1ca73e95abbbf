-- ===== src/Gateway.antt =====
-- The gateway's routes: crates/ployz-gateway/src/routes.rs. The reading of a revision's JSON is a
-- parameter. A set of hashes is a list.
pub mod Project
pub mod Conflicts
pub mod Matching
use Prim.Native.Nat.{compare, Ordering}
use ployz.Prelude.{
  ℕ, zero, suc, Bool, true, false, Option, none, some, List, [], ◌∷◌, ◌++◌, map, not, ◌&&◌,
  if◌then◌else◌, ◌==◌, nat_eq, text_eq, pair_eq, is_empty, any, all, keep, find, contains,
}
use ployz.Prelude.Text.{
  Text, codes, trim, trim_end, strip_prefix, split_once, rsplit_once, to_ascii_lowercase,
  is_ascii_digit, starts_with,
}
use ployz.Prelude.Map
use ployz.Prelude.Map.{Map}
use ployz.Model.Error.{Result, ok, err, ◌>>=◌, ◌>>◌}
use ployz.Model.Machine.{MachineId}
use ployz.Model.Service.{InstanceId}
use ployz.Model.Spec.{Namespace}

-- `address` is the number of an IPv4 address and a port.
pub record BackendView : Type 0 where
  pub instance_id : InstanceId
  pub machine_id : MachineId
  pub service_port : Text
  pub address : ℕ × ℕ

pub record HttpRouteView : Type 0 where
  pub route_id : Text
  pub namespace : Namespace
  pub service : Text
  pub revision_hash : Text
  pub hostnames : List Text
  pub path_prefix : Text
  pub backends : List BackendView

pub record TcpRouteView : Type 0 where
  pub route_id : Text
  pub namespace : Namespace
  pub service : Text
  pub revision_hash : Text
  pub listen_port : ℕ
  pub backends : List BackendView

pub record GatewaySnapshot : Type 0 where
  pub http_routes : List HttpRouteView
  pub tcp_routes : List TcpRouteView

pub data ProjectionError : Type 0 where
  missing_revision : (namespace : Namespace) (service revision_hash : Text) → ProjectionError
  invalid_revision_spec : (namespace : Namespace) (service message : Text) → ProjectionError
  http_route_conflict : (left right host path_prefix : Text) → ProjectionError
  tcp_route_conflict : (left right : Text) (listen_port : ℕ) → ProjectionError

-- The host between the brackets of an IPv6 address.
abbrev bare_ipv6 : Text → Text
bare_ipv6 ipv6 = elim (split_once b']' ipv6) [ none ↦ ipv6 | some (addr, rest) ↦ addr ]

-- Without a port, when what follows the last colon are digits.
abbrev without_port : Text → Text
without_port s = elim (rsplit_once b':' s) [
  | none ↦ s
  | some (left, right) ↦ if all is_ascii_digit right then left else s
]

abbrev normalize_trimmed : Text → Text
normalize_trimmed trimmed = if is_empty trimmed then [] else elim (strip_prefix b'[' trimmed) [
  | some ipv6 ↦ to_ascii_lowercase (bare_ipv6 ipv6)
  | none ↦ to_ascii_lowercase (without_port trimmed)
]

unfoldable pub normalize_request_host : Text → Text
unfolding trim trim_end split_once rsplit_once strip_prefix to_ascii_lowercase is_ascii_digit nat_eq
normalize_request_host host = normalize_trimmed (trim_end (λ c. c == b'.') (trim host))

abbrev rooted : Text → Text
rooted trimmed =
    if is_empty trimmed
    then codes "/"
    else if starts_with trimmed (codes "/")
    then trimmed
    else codes "/" ++ trimmed

unfoldable pub normalize_path_prefix : Text → Text
unfolding trim starts_with
normalize_path_prefix path_prefix = rooted (trim path_prefix)

unfoldable pub route_matches_host : HttpRouteView → Option Text → Bool
unfolding text_eq
route_matches_host route none = is_empty route.hostnames
route_matches_host route (some host) =
    if is_empty route.hostnames then true else contains route.hostnames host

-- `host.map(normalize_request_host).filter(not empty)`
abbrev pub request_host : Option Text → Option Text
request_host none = none
request_host (some host) =
    if is_empty (normalize_request_host host) then none else some (normalize_request_host host)

abbrev pub route_matches : Option Text → Text → HttpRouteView → Bool
route_matches host path route = route_matches_host route host && starts_with path route.path_prefix

unfoldable pub match_http_route : GatewaySnapshot → Option Text → Text → Option HttpRouteView
unfolding normalize_request_host normalize_path_prefix route_matches_host starts_with
match_http_route snapshot host path =
    find (route_matches (request_host host) (normalize_path_prefix path)) snapshot.http_routes

-- The hosts of a route, or the wildcard.
abbrev pub hosts_of : HttpRouteView → List Text
hosts_of route = elim route.hostnames [ [] ↦ codes "*" ∷ [] | h ∷ hs ↦ h ∷ hs ]

abbrev pub HttpSeen : Type 0
HttpSeen = Map (Text × Text) Text

unfoldable pub check_hosts : HttpRouteView → List Text → HttpSeen → Result ProjectionError HttpSeen
unfolding Map.get Map.insert pair_eq text_eq
check_hosts route [] seen = ok seen
check_hosts route (host ∷ hosts) seen = elim (Map.get (host, route.path_prefix) seen) [
  | some existing ↦ err (http_route_conflict existing route.route_id host route.path_prefix)
  | none ↦ check_hosts route hosts (Map.insert (host, route.path_prefix) route.route_id seen)
]

unfoldable pub check_http : List HttpRouteView → HttpSeen → Result ProjectionError (Unit {0})
unfolding check_hosts
check_http [] seen = ok tt
check_http (route ∷ routes) seen =
    check_hosts route (hosts_of route) seen >>= λ next. check_http routes next

abbrev pub validate_http_conflicts : List HttpRouteView → Result ProjectionError (Unit {0})
validate_http_conflicts routes = check_http routes []

unfoldable pub check_tcp : List TcpRouteView → Map ℕ Text → Result ProjectionError (Unit {0})
unfolding Map.get Map.insert nat_eq
check_tcp [] seen = ok tt
check_tcp (route ∷ routes) seen = elim (Map.get route.listen_port seen) [
  | some existing ↦ err (tcp_route_conflict existing route.route_id route.listen_port)
  | none ↦ check_tcp routes (Map.insert route.listen_port route.route_id seen)
]

abbrev pub validate_tcp_conflicts : List TcpRouteView → Result ProjectionError (Unit {0})
validate_tcp_conflicts routes = check_tcp routes []
