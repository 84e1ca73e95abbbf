-- ===== src/Dns.antt =====
-- The DNS server's snapshot of the ready instances, and the resolution of a query:
-- crates/ployz-dns/src/snapshot.rs and resolve.rs. An address is the number of an IPv4 address.
pub mod Answers
pub mod Names
use ployz.Prelude.{
  ℕ, Bool, true, false, Option, none, some, List, [], ◌∷◌, ◌++◌, map, not, ◌&&◌, leb, if◌then◌else◌,
  ◌==◌, nat_eq, text_eq, is_empty,
}
use ployz.Prelude.Text.{Text, codes, trim_end, to_ascii_lowercase, split}
use ployz.Prelude.Compare.{compare_text, is_le}
use ployz.Prelude.Sort.{sort_by}
use ployz.Prelude.Map
use ployz.Prelude.Map.{Map}
use ployz.Model.Service.{InstanceStatusRecord, RoutingState, ready, phase_eq, drain_eq, DrainState}
use ployz.Model.Spec.{Namespace}

abbrev pub Ipv4Addr : Type 0
Ipv4Addr = ℕ

abbrev pub Services : Type 0
Services = Map Namespace (Map Text (List Ipv4Addr))

pub record DnsSnapshot : Type 0 where
  pub services : Services
  pub ip_to_namespace : Map Ipv4Addr Namespace
  pub service_names : Map Namespace (List Text)

abbrev pub addresses_in : Option (Map Text (List Ipv4Addr)) → Text → Option (List Ipv4Addr)
addresses_in none service = none
addresses_in (some by_service) service = Map.get service by_service

-- `DnsSnapshot::lookup_service`
unfoldable pub lookup_service : DnsSnapshot → Namespace → Text → Option (List Ipv4Addr)
unfolding Map.get text_eq
lookup_service snapshot ns service = addresses_in (Map.get ns snapshot.services) service

-- The address of an instance that is ready and not drained.
abbrev pub ready_address : InstanceStatusRecord → Option Ipv4Addr
ready_address i =
    if i.phase == ready && i.ready
    then (if i.drain_state == DrainState.none then i.overlay_ip else none)
    else none

-- `or_default`
abbrev pub or_empty {ℓ} : {A : Type ℓ} → Option (List A) → List A
or_empty none = []
or_empty (some xs) = xs

-- `entry(namespace).or_default().entry(service).or_default().push(ip)`
unfoldable pub push_address : Namespace → Text → Ipv4Addr → Services → Services
unfolding Map.get Map.insert text_eq
push_address ns service ip services =
    let by_service = or_empty (Map.get ns services) in
    let ips = or_empty (Map.get service by_service) in
    Map.insert ns (Map.insert service (ips ++ ip ∷ []) by_service) services

abbrev pub add_instance : InstanceStatusRecord → Services → Services
add_instance i services = elim (ready_address i) [
  | none ↦ services
  | some ip ↦ push_address i.namespace i.service ip services
]

unfoldable pub collect : List InstanceStatusRecord → Services → Services
unfolding push_address phase_eq drain_eq
collect [] services = services
collect (i ∷ is) services = collect is (add_instance i services)

unfoldable pub namespaces_by_ip :
    List InstanceStatusRecord → Map Ipv4Addr Namespace → Map Ipv4Addr Namespace
unfolding Map.insert nat_eq phase_eq drain_eq
namespaces_by_ip [] m = m
namespaces_by_ip (i ∷ is) m = elim (ready_address i) [
  | none ↦ namespaces_by_ip is m
  | some ip ↦ namespaces_by_ip is (Map.insert ip i.namespace m)
]

-- `for ips in by_service.values_mut() { ips.sort() }`
abbrev pub sort_addresses : Map Text (List Ipv4Addr) → Map Text (List Ipv4Addr)
sort_addresses = map (λ (e : Text × List Ipv4Addr). (e.0, sort_by leb e.1))

abbrev pub sort_services : Services → Services
sort_services = map (λ (e : Namespace × Map Text (List Ipv4Addr)). (e.0, sort_addresses e.1))

abbrev pub text_le : Text → Text → Bool
text_le a b = is_le (compare_text a b)

abbrev pub names_in : Services → Map Namespace (List Text)
names_in = map (λ (e : Namespace × Map Text (List Ipv4Addr)). (e.0, sort_by text_le (Map.keys e.1)))

unfoldable pub project_dns : RoutingState → DnsSnapshot
unfolding collect namespaces_by_ip sort_by compare_text
project_dns state =
    let services = sort_services (collect state.instances []) in
    record {
      services = services;
      ip_to_namespace = namespaces_by_ip state.instances [];
      service_names = names_in services;
    }

pub data DnsQuery : Type 0 where
  service_implicit : (service : Text) → DnsQuery
  service_explicit : (service : Text) (namespace : Namespace) → DnsQuery
  list_services_implicit : DnsQuery
  list_services_explicit : (namespace : Namespace) → DnsQuery
  unknown : DnsQuery

pub data ResolveResult : Type 0 where
  addresses : List Ipv4Addr → ResolveResult
  service_list : List Text → ResolveResult
  nx_domain : ResolveResult

abbrev services_label : Text
services_label = codes "_services"

-- The arm of three labels, and that of four.
abbrev three_labels : Text → DnsQuery
three_labels service =
    if is_empty service
    then unknown
    else if service == services_label
    then list_services_implicit
    else service_implicit service

abbrev four_labels : Text → Namespace → DnsQuery
four_labels service ns =
    if is_empty service
    then unknown
    else if is_empty ns
    then unknown
    else if service == services_label
    then list_services_explicit ns
    else service_explicit service ns

abbrev pub by_labels : List Text → DnsQuery
by_labels (service ∷ []) = if is_empty service then unknown else service_implicit service
by_labels (service ∷ a ∷ b ∷ []) =
    if a == codes "ployz" && b == codes "internal" then three_labels service else unknown
by_labels (service ∷ ns ∷ a ∷ b ∷ []) =
    if a == codes "ployz" && b == codes "internal" then four_labels service ns else unknown
by_labels labels = unknown

unfoldable pub parse_query : Text → DnsQuery
unfolding trim_end to_ascii_lowercase split text_eq nat_eq
parse_query name = by_labels (split b'.' (to_ascii_lowercase (trim_end (λ c. c == b'.') name)))

abbrev pub address_result : Option (List Ipv4Addr) → ResolveResult
address_result none = nx_domain
address_result (some []) = nx_domain
address_result (some (ip ∷ ips)) = addresses (ip ∷ ips)

abbrev pub list_result : Option (List Text) → ResolveResult
list_result none = nx_domain
list_result (some []) = nx_domain
list_result (some (name ∷ names)) = service_list (name ∷ names)

unfoldable pub resolve : DnsSnapshot → DnsQuery → Option Namespace → ResolveResult
unfolding lookup_service Map.get text_eq
resolve s (service_implicit service) none = nx_domain
resolve s (service_implicit service) (some ns) = address_result (lookup_service s ns service)
resolve s (service_explicit service ns) caller = address_result (lookup_service s ns service)
resolve s list_services_implicit none = nx_domain
resolve s list_services_implicit (some ns) = list_result (Map.get ns s.service_names)
resolve s (list_services_explicit ns) caller = list_result (Map.get ns s.service_names)
resolve s unknown caller = nx_domain
