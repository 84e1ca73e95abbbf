-- ===== src/Gateway/Conflicts.antt =====
-- The routes of a snapshot do not compete for a request.
use ployz.Prelude.{
  ℕ, ◌≡◌, refl, sym, ap, ◌∙◌, Bool, true, false, List, [], ◌∷◌, ◌++◌, map, ◌||◌, arith, ◌==◌,
  ==_true, ==_refl, nat_eq, text_eq, pair_eq, contains, contains-append, Distinct, subst,
  Option-cases, Bool-cases, inl, inr, Eq,
}
use ployz.Prelude.Text.{Text}
use ployz.Prelude.Map
use ployz.Prelude.Map.{Map}
use ployz.Model.Error.{ok, bind-returned}
use ployz.Gateway.{
  HttpRouteView, TcpRouteView, HttpSeen, hosts_of, check_hosts, check_http, check_tcp,
  validate_http_conflicts, validate_tcp_conflicts,
}

-- The requests that a route is for: its hosts, or any, under its path.
abbrev pub keys_under : Text → List Text → List (Text × Text)
keys_under path [] = []
keys_under path (h ∷ hs) = (h, path) ∷ keys_under path hs

abbrev pub http_keys : List HttpRouteView → List (Text × Text)
http_keys [] = []
http_keys (r ∷ rs) = keys_under r.path_prefix (hosts_of r) ++ http_keys rs

abbrev pub ports_of : List TcpRouteView → List ℕ
ports_of = map (λ (r : TcpRouteView). r.listen_port)

==_sym_true : {A : Type 0} ⦃e : Eq A⦄ (a b : A) → (a == b) ≡ true → a ≡ b
==_sym_true a b h = ==_true a b h

record TcpFree (rs : List TcpRouteView) (seen : Map ℕ Text) : Type 0 where
  distinct : Distinct (ports_of rs)
  new : (p : ℕ) → contains (ports_of rs) p ≡ true → Map.contains_key p seen ≡ false

check_tcp_lem :
    (rs : List TcpRouteView) (seen : Map ℕ Text) → check_tcp rs seen ≡ ok tt → TcpFree rs seen
unfolding check_tcp
check_tcp_lem [] seen h = record { distinct = tt; new = λ p m. cc }
check_tcp_lem (r ∷ rs) seen h = elim (Option-cases (Map.get r.listen_port seen)) [
  | inr (x, e) ↦ ground arith
  | inl e ↦
      let next = Map.insert r.listen_port r.route_id seen in
      let passed : check_tcp rs next ≡ ok tt = ground arith in
      let rest = check_tcp_lem rs next passed in
      record {
        distinct = (
          ground (
            arith,
            rest.new r.listen_port,
            Map.get-insert r.listen_port r.listen_port r.route_id seen,
          ),
          rest.distinct,
        );
        new = λ p m. ground (
          arith,
          rest.new p,
          Map.get-insert p r.listen_port r.route_id seen,
          ==_sym_true r.listen_port p,
        );
      }
]

or_none : (a b : Bool) → (a || b) ≡ false → b ≡ false
or_none a b h = ground arith

or_swap : (a b c : Bool) → (a || (b || c)) ≡ ((b || a) || c)
or_swap a b c = ground arith

other_key : (a b : Bool) → a ≡ false → (a || b) ≡ true → b ≡ true
other_key a b h k = ground arith

not_inserted :
    (key k : Text × Text) (v : Text) (m : HttpSeen)
    → Map.contains_key k (Map.insert key v m) ≡ false
    → Map.contains_key k m ≡ false
not_inserted key k v m h =
    or_none (key == k) (Map.contains_key k m) (sym (Map.contains_key-insert k key v m) ∙ h)

record HostsFree (route : HttpRouteView) (hs : List Text) (seen next : HttpSeen) : Type 0 where
  distinct : Distinct (keys_under route.path_prefix hs)
  new :
      (k : Text × Text)
      → contains (keys_under route.path_prefix hs) k ≡ true
      → Map.contains_key k seen ≡ false
  after :
      (k : Text × Text)
      → Map.contains_key k next
        ≡ (contains (keys_under route.path_prefix hs) k || Map.contains_key k seen)

check_hosts_lem :
    (route : HttpRouteView) (hs : List Text) (seen next : HttpSeen)
    → check_hosts route hs seen ≡ ok next
    → HostsFree route hs seen next
unfolding check_hosts
check_hosts_lem route [] seen next h =
    let same : seen ≡ next = cc in
    record { distinct = tt; new = λ k m. cc; after = λ k. ap (Map.contains_key k) (sym same) }
check_hosts_lem route (host ∷ hs) seen next h =
    let key : Text × Text = (host, route.path_prefix) in
    elim (Option-cases (Map.get key seen)) [
      | inr (x, e) ↦ ground arith
      | inl e ↦
          let then_seen = Map.insert key route.route_id seen in
          let passed : check_hosts route hs then_seen ≡ ok next = ground arith in
          let rest = check_hosts_lem route hs then_seen next passed in
          record {
            distinct = (
              ground (arith, rest.new key, Map.get-insert key key route.route_id seen),
              rest.distinct,
            );
            new = λ k m. elim (Bool-cases (key == k)) [
              | inl q ↦
                  subst (λ z. Map.contains_key z seen ≡ false) (==_true key k q)
                    (rw (e, Map.contains_key) refl)
              | inr q ↦
                  not_inserted key k route.route_id seen (rest.new k (other_key (key == k) _ q m))
            ];
            after = λ k.
                rest.after k
                ∙ ap (λ b. contains (keys_under route.path_prefix hs) k || b)
                    (Map.contains_key-insert k key route.route_id seen)
                ∙ or_swap (contains (keys_under route.path_prefix hs) k) (key == k)
                    (Map.contains_key k seen);
          }
    ]

or_true : (a : Bool) → (a || true) ≡ true
or_true a = ground arith

absurd_of_both : true ≡ false → ⊥
absurd_of_both e = cc

record HttpFree (rs : List HttpRouteView) (seen : HttpSeen) : Type 0 where
  distinct : Distinct (http_keys rs)
  new : (k : Text × Text) → contains (http_keys rs) k ≡ true → Map.contains_key k seen ≡ false

Distinct-append :
    (xs ys : List (Text × Text))
    → Distinct xs
    → Distinct ys
    → ((k : Text × Text) → contains xs k ≡ true → contains ys k ≡ false)
    → Distinct (xs ++ ys)
Distinct-append [] ys dx dy h = dy
Distinct-append (x ∷ xs) ys dx dy h = (
  contains-append xs ys x ∙ rw (dx.0, h x (rw (==_refl x) refl)) refl,
  Distinct-append xs ys dx.1 dy (λ k m. h k (rw m (or_true (x == k)))),
)

check_http_lem :
    (rs : List HttpRouteView) (seen : HttpSeen) → check_http rs seen ≡ ok tt → HttpFree rs seen
unfolding check_http
check_http_lem [] seen h = record { distinct = tt; new = λ k m. cc }
check_http_lem (r ∷ rs) seen h =
    let (next, e, passed) = bind-returned (check_hosts r (hosts_of r) seen) _ h in
    let here = check_hosts_lem r (hosts_of r) seen next e in
    let rest = check_http_lem rs next passed in
    let own = keys_under r.path_prefix (hosts_of r) in
    record {
      distinct = Distinct-append own (http_keys rs) here.distinct rest.distinct (λ k m.
          elim (Bool-cases (contains (http_keys rs) k)) [
            | inr q ↦ q
            | inl q ↦ absurd (absurd_of_both (sym (here.after k ∙ rw m refl) ∙ rest.new k q))
          ]);
      new = λ k m. elim (Bool-cases (contains own k)) [
        | inl q ↦ here.new k q
        | inr q ↦ or_none (contains own k) (Map.contains_key k seen) (
            sym (here.after k)
            ∙ rest.new k
                (other_key (contains own k) _ q (sym (contains-append own (http_keys rs) k) ∙ m)))
      ];
    }

-- When the two checks pass, no two HTTP routes are for one host under one path prefix, where a
-- route without hosts is for the host `*`, and no route names a host twice; and no two TCP routes
-- are for one port.
pub validate_conflicts-Distinct :
    (https : List HttpRouteView) (tcps : List TcpRouteView)
    → validate_http_conflicts https ≡ ok tt
    → validate_tcp_conflicts tcps ≡ ok tt
    → Distinct (http_keys https) × Distinct (ports_of tcps)
validate_conflicts-Distinct https tcps h t =
    let free = check_http_lem https [] h in
    let open_ports = check_tcp_lem tcps [] t in (free.distinct, open_ports.distinct)
