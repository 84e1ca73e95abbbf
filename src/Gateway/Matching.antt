-- ===== src/Gateway/Matching.antt =====
-- The route that a request gets, of a projected snapshot.
use ployz.Prelude.{
  ◌≤◌, ◌≡◌, Bool, true, Option, some, List, [], ◌∷◌, arith, All, All-mono, Bool-cases, inl, inr,
  find, find-holds, is_empty,
}
use ployz.Prelude.{subst}
use ployz.Prelude.Text.{Text, byte_len}
use ployz.Prelude.Compare.{
  IsOrder, is_le_total, then-IsOrder, by_key-IsOrder, reverse-IsOrder, compare-IsOrder,
  compare_text-IsOrder,
}
use ployz.Prelude.Sort.{IsSorted, sort_by-IsSorted}
use ployz.Model.Error.{Result, ok, ◌>>◌, bind-returned}
use ployz.Model.Service.{RoutingState}
use ployz.Model.Spec.{ServiceSpec}
use ployz.Gateway.{
  validate_http_conflicts, validate_tcp_conflicts, HttpRouteView, GatewaySnapshot, match_http_route,
  route_matches, request_host, normalize_path_prefix,
}
use ployz.Gateway.Project.{
  compare_empty, compare_http, http_le, sorted_routes, project, project_releases, revisions_by_key,
  instances_by_id, checked_routes,
}

compare_empty-IsOrder : IsOrder compare_empty
compare_empty-IsOrder = record { swap = λ a b. ground arith; trans = λ a b c h k. ground arith }

compare_http-IsOrder : IsOrder compare_http
compare_http-IsOrder =
    then-IsOrder
      (by_key-IsOrder (λ (r : HttpRouteView). is_empty r.hostnames) compare_empty-IsOrder)
      (then-IsOrder
        (by_key-IsOrder (λ (r : HttpRouteView). byte_len r.path_prefix)
          (reverse-IsOrder compare-IsOrder))
        (then-IsOrder (by_key-IsOrder (λ (r : HttpRouteView). r.namespace) compare_text-IsOrder) (
          then-IsOrder (by_key-IsOrder (λ (r : HttpRouteView). r.service) compare_text-IsOrder)
            (by_key-IsOrder (λ (r : HttpRouteView). r.route_id) compare_text-IsOrder))))

project-IsSorted :
    (from_json : Text → Result Text ServiceSpec) (state : RoutingState) (s : GatewaySnapshot)
    → project from_json state ≡ ok s
    → IsSorted http_le s.http_routes
unfolding project sorted_routes
project-IsSorted from_json state s h =
    let (routes, e, h1) =
      bind-returned
        (project_releases from_json (revisions_by_key state.revisions [])
          (instances_by_id state.instances []) state.releases ([], []))
        checked_routes h in
    let (u, e1, h2) =
      bind-returned (validate_http_conflicts routes.0 >> validate_tcp_conflicts routes.1)
        (λ _. ok (sorted_routes routes)) h1 in
    let made : sorted_routes routes ≡ s = cc in
    subst (λ x. IsSorted http_le x.http_routes) made
      (sort_by-IsSorted http_le (is_le_total compare_http-IsOrder) compare_http-IsOrder.trans
        routes.0)

-- `r` serves a request better than `x`, or as well: it has hosts if `x` has, and if both have or
-- neither has, its path prefix is not shorter.
pub record Beats (r x : HttpRouteView) : Type 0 where
  pub hosts : is_empty r.hostnames ≡ true → is_empty x.hostnames ≡ true
  pub path :
      is_empty r.hostnames ≡ is_empty x.hostnames → byte_len x.path_prefix ≤ byte_len r.path_prefix

Beats-of_le : (r x : HttpRouteView) → http_le r x ≡ true → Beats r x
Beats-of_le r x h = record { hosts = λ e. ground arith; path = λ e. ground arith }

find-first :
    (p : HttpRouteView → Bool) (rs : List HttpRouteView) (r : HttpRouteView)
    → IsSorted http_le rs
    → find p rs ≡ some r
    → All (λ x. p x ≡ true → Beats r x) rs
find-first p [] r s h = cc
find-first p (x ∷ rs) r s h = elim (Bool-cases (p x)) [
  | inl q ↦
      let same : x ≡ r = ground arith in
      (
        λ k. subst (λ y. Beats y x) same (record { hosts = λ e. e; path = λ e. omega arith }),
        All-mono _ _ rs (λ y l k. subst (λ z. Beats z y) same (Beats-of_le x y l)) s.0,
      )
  | inr q ↦ (λ k. ground arith, find-first p rs r s.1 (ground arith))
]

-- In the snapshot of a successful projection, the route that `match_http_route` gives for a request
-- matches its host and path; and of all the routes that match them, one with hosts is taken before
-- one without, and of those one with a path prefix that is not shorter.
pub match_http_route-Beats :
    (from_json : Text → Result Text ServiceSpec) (state : RoutingState) (s : GatewaySnapshot)
    (host : Option Text) (path : Text) (r : HttpRouteView)
    → project from_json state ≡ ok s
    → match_http_route s host path ≡ some r
    → (route_matches (request_host host) (normalize_path_prefix path) r ≡ true)
      × All
          (λ x. route_matches (request_host host) (normalize_path_prefix path) x ≡ true → Beats r x)
          s.http_routes
unfolding match_http_route
match_http_route-Beats from_json state s host path r h m =
    let p = route_matches (request_host host) (normalize_path_prefix path) in
    (
      find-holds p s.http_routes r m,
      find-first p s.http_routes r (project-IsSorted from_json state s h) m,
    )
