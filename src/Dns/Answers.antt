-- ===== src/Dns/Answers.antt =====
-- What a query is answered with, straight from the instances.
use ployz.Prelude.{
  ◌≡◌, refl, sym, ap, ◌∙◌, Bool, true, false, Option, none, some, List, [], ◌∷◌, ◌++◌, ◌&&◌, leb,
  arith, if◌then◌else◌, ◌==◌, text_eq, ==_true, ==_ne, Bool-cases, Option-cases, inl, inr,
}
use mathlib.Core.List.{append_assoc, append-nil}
use ployz.Prelude.Text.{Text}
use ployz.Prelude.Sort.{sort_by}
use ployz.Prelude.Map
use ployz.Prelude.Map.{Map}
use ployz.Model.Service.{InstanceStatusRecord, RoutingState, ready, phase_eq, drain_eq, DrainState}
use ployz.Model.Spec.{Namespace}
use ployz.Dns.{
  Ipv4Addr, Services, addresses_in, lookup_service, ready_address, or_empty, push_address,
  add_instance, collect, sort_addresses, sort_services, project_dns, service_implicit,
  service_explicit, ResolveResult, addresses, nx_domain, address_result, resolve,
}

-- The addresses of the instances of a service that are in phase `ready`, marked ready, not being
-- drained, and have an address.
abbrev pub serves : Namespace → Text → InstanceStatusRecord → Bool
serves ns service i =
    i.namespace == ns
    && i.service == service
    && i.ready
    && i.phase == ready
    && i.drain_state == DrainState.none

abbrev pub with_address : Option Ipv4Addr → List Ipv4Addr → List Ipv4Addr
with_address none rest = rest
with_address (some ip) rest = ip ∷ rest

abbrev pub serving : Namespace → Text → List InstanceStatusRecord → List Ipv4Addr
serving ns service [] = []
serving ns service (i ∷ is) =
    let rest = serving ns service is in
    if serves ns service i then with_address i.overlay_ip rest else rest

-- Addresses, unless there are none.
abbrev pub answer : List Ipv4Addr → ResolveResult
answer [] = nx_domain
answer (ip ∷ ips) = addresses (ip ∷ ips)

abbrev found : Services → Namespace → Text → List Ipv4Addr
found s ns service = or_empty (addresses_in (Map.get ns s) service)

in_namespace :
    (o : Option (Map Text (List Ipv4Addr))) (service : Text)
    → or_empty (Map.get service (or_empty o)) ≡ or_empty (addresses_in o service)
unfolding Map.get
in_namespace none service = refl
in_namespace (some m) service = refl

==_sym : (a b : Text) → (a == b) ≡ (b == a)
==_sym a b = elim (Bool-cases (a == b)) [
  | inl q ↦ rw (==_true a b q) refl
  | inr q ↦ q ∙ sym (==_ne b a (λ e. ground (arith, e)))
]

found-push_address :
    (s : Services) (ns n : Namespace) (service t : Text) (ip : Ipv4Addr)
    → found (push_address ns service ip s) n t
      ≡ (if n == ns && t == service then found s ns service ++ ip ∷ [] else found s n t)
unfolding push_address
found-push_address s ns n service t ip =
    let by_service = or_empty (Map.get ns s) in
    let ips = or_empty (Map.get service by_service) ++ ip ∷ [] in
    elim (Bool-cases (n == ns)) [
      | inr q ↦ rw (push_address, Map.get-insert n ns (Map.insert service ips by_service) s, q) refl
      | inl q ↦
          rw
            (
              push_address,
              Map.get-insert n ns (Map.insert service ips by_service) s,
              q,
              Map.get-insert t service ips by_service,
            )
            (elim (Bool-cases (t == service)) [
              | inl r ↦ rw (r, in_namespace (Map.get ns s) service) refl
              | inr r ↦ rw (r, ==_true n ns q) (in_namespace (Map.get ns s) t)
            ])
    ]

-- Found by a name, sorted or not, in a namespace that has it or not.
found-sort_addresses :
    (m : Map Text (List Ipv4Addr)) (service : Text)
    → or_empty (Map.get service (sort_addresses m)) ≡ sort_by leb (or_empty (Map.get service m))
unfolding Map.get sort_by
found-sort_addresses [] service = refl
found-sort_addresses ((k, ips) ∷ m) service = elim (Bool-cases (service == k)) [
  | inl q ↦ rw q refl
  | inr q ↦ rw q (found-sort_addresses m service)
]

found-sort_services :
    (s : Services) (ns : Namespace) (service : Text)
    → found (sort_services s) ns service ≡ sort_by leb (found s ns service)
unfolding Map.get sort_by
found-sort_services [] ns service = refl
found-sort_services ((k, m) ∷ s) ns service = elim (Bool-cases (ns == k)) [
  | inl q ↦ rw q (found-sort_addresses m service)
  | inr q ↦ rw q (found-sort_services s ns service)
]

address-serves :
    (ns : Namespace) (service : Text) (i : InstanceStatusRecord) (rest : List Ipv4Addr)
    → (if serves ns service i then with_address i.overlay_ip rest else rest) ≡ (
        if ns == i.namespace && service == i.service
        then with_address (ready_address i) rest
        else rest)
address-serves ns service i rest = ground (arith, ==_sym ns i.namespace, ==_sym service i.service)

found-add_instance :
    (i : InstanceStatusRecord) (s : Services) (ns : Namespace) (service : Text)
    → found (add_instance i s) ns service ≡ (
        if ns == i.namespace && service == i.service
        then found s ns service ++ with_address (ready_address i) []
        else found s ns service)
found-add_instance i s ns service = elim (Option-cases (ready_address i)) [
  | inl e ↦
      rw (e, add_instance)
        (elim (Bool-cases (ns == i.namespace && service == i.service)) [
          | inl q ↦ rw q (sym (append-nil (found s ns service)))
          | inr q ↦ rw q refl
        ])
  | inr (ip, e) ↦
      rw (e, add_instance, found-push_address s i.namespace ns i.service service ip)
        (elim (Bool-cases (ns == i.namespace && service == i.service)) [
          | inl q ↦
              rw
                (
                  q,
                  ==_true ns i.namespace (ground (arith, q)),
                  ==_true service i.service (ground (arith, q)),
                )
                refl
          | inr q ↦ rw q refl
        ])
]

with_address-append :
    (o : Option Ipv4Addr) (rest : List Ipv4Addr) → with_address o [] ++ rest ≡ with_address o rest
with_address-append none rest = refl
with_address-append (some ip) rest = refl

append-if :
    (b : Bool) (o : Option Ipv4Addr) (front rest : List Ipv4Addr)
    → (if b then front ++ with_address o [] else front) ++ rest
      ≡ front ++ (if b then with_address o rest else rest)
append-if true o front rest =
    append_assoc front (with_address o []) rest ∙ ap (λ x. front ++ x) (with_address-append o rest)
append-if false o front rest = refl

found-collect :
    (is : List InstanceStatusRecord) (s : Services) (ns : Namespace) (service : Text)
    → found (collect is s) ns service ≡ found s ns service ++ serving ns service is
unfolding collect
found-collect [] s ns service = sym (append-nil (found s ns service))
found-collect (i ∷ is) s ns service =
    found-collect is (add_instance i s) ns service
    ∙ ap (λ x. x ++ serving ns service is) (found-add_instance i s ns service)
    ∙ append-if (ns == i.namespace && service == i.service) (ready_address i) (found s ns service)
        (serving ns service is)
    ∙ ap (λ x. found s ns service ++ x) (sym (address-serves ns service i (serving ns service is)))

answer_lem : (o : Option (List Ipv4Addr)) → address_result o ≡ answer (or_empty o)
answer_lem none = refl
answer_lem (some []) = refl
answer_lem (some (ip ∷ ips)) = refl

module _ (state : RoutingState) (ns : Namespace) (service : Text) (caller : Option Namespace) where
  -- A query for a service in a namespace, or for one in the caller's own, is answered with the
  -- addresses of its serving instances in ascending order, and with no such domain when there is
  -- none.
  pub resolve-project_dns :
      (resolve (project_dns state) (service_explicit service ns) caller
        ≡ answer (sort_by leb (serving ns service state.instances)))
      × (resolve (project_dns state) (service_implicit service) (some ns)
          ≡ answer (sort_by leb (serving ns service state.instances)))
  unfolding resolve lookup_service project_dns Map.get
  resolve-project_dns =
      let same =
        answer_lem (lookup_service (project_dns state) ns service)
        ∙ ap answer (
            found-sort_services (collect state.instances []) ns service
            ∙ ap (sort_by leb) (found-collect state.instances [] ns service)) in
      (same, same)
