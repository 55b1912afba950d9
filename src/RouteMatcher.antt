-- ===== src/RouteMatcher.antt =====
-- MyGateway/service/route_matcher_generic.go. `sort.Slice` is the insertion sort that Go runs on up
-- to twelve elements. On more it may order prefixes of one length otherwise; which of two routes
-- with the same prefix then wins is not fixed by Go.
pub mod Sorting
pub mod Longest
pub mod Mapping
use Prim.Native.String.{len}
use grpc_api_gateway_session.Prelude.{
  ℕ, suc, String, Bool, true, false, not, ◌&&◌, ◌||◌, Option, none, some, List, [], ◌∷◌, ◌==◌, ltb,
  if◌then◌else◌, Result, ok, err,
}
use text.Mathlib.Text.{starts_with}
use grpc_api_gateway_session.Domain.{
  Route, BalancerConfig, DefaultRoute, RouteConfig, RouteConfigError, authorization_none,
  balancer_round_robin, balancer_sticky_session, default_route_use_cluster, sticky_session_header,
  validate_route_config,
}

-- Longer texts come first, and an element goes behind those of its own length.
module _ {A : Type 0} (text : A → String) where
  pub insert_by_len : A → List A → List A
  insert_by_len x [] = x ∷ []
  insert_by_len x (y ∷ ys) =
      let later = insert_by_len x ys in
      if ltb (len (text y)) (len (text x)) then x ∷ y ∷ ys else y ∷ later

  pub sort_from : List A → List A → List A
  sort_from sorted [] = sorted
  sort_from sorted (x ∷ xs) = sort_from (insert_by_len x sorted) xs

  -- `sort.Slice(xs, func(i, j int) bool { return len(text(xs[i])) > len(text(xs[j])) })`
  unfoldable pub sort_by_len : List A → List A
  unfolding sort_from insert_by_len
  sort_by_len xs = sort_from [] xs

  -- The first element whose text is a prefix of the method.
  unfoldable pub first_prefix : String → List A → Option A
  first_prefix method [] = none
  first_prefix method (x ∷ xs) =
      if starts_with method (text x) then some x else first_prefix method xs

pub record RouteMatcher : Type 0 where
  pub routes : List Route
  pub def : DefaultRoute

-- The prefix of a route, the key of the order.
abbrev pub prefix_of : Route → String
prefix_of r = r.prefix

unfoldable pub new_route_matcher : RouteConfig → Result RouteConfigError RouteMatcher
new_route_matcher cfg = elim (validate_route_config cfg) [
  | some e ↦ err e
  | none ↦ ok (record { routes = sort_by_len prefix_of cfg.routes; def = cfg.default_route })
]

default_auth : String → String
default_auth a = if a == "" then authorization_none else a

default_balancer : BalancerConfig → BalancerConfig
default_balancer b =
    let kind = if b.kind == "" then balancer_round_robin else b.kind in
    record {
      kind = kind;
      header =
          if kind == balancer_sticky_session && b.header == ""
          then sticky_session_header
          else b.header;
    }

unfoldable pub with_route_defaults : Route → Route
unfolding default_auth default_balancer
with_route_defaults r = record r {
  authorization = default_auth r.authorization;
  balancer = default_balancer r.balancer;
}

-- A route of which only the cluster is given.
abbrev pub cluster_route : String → Route
cluster_route cluster = record {
  prefix = "";
  cluster = cluster;
  authorization = "";
  balancer = record { kind = ""; header = "" };
}

unfoldable pub use_default : DefaultRoute → Option Route
use_default d =
    if d.action == default_route_use_cluster
    then some (with_route_defaults (cluster_route d.cluster))
    else none

-- `Match`: `none` stands for `(Route{}, false)`.
unfoldable pub match : RouteMatcher → String → Option Route
match m method = elim (first_prefix prefix_of method m.routes) [
  | some r ↦ some (with_route_defaults r)
  | none ↦ use_default m.def
]
