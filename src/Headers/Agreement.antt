-- ===== src/Headers/Agreement.antt =====
-- The auth processor and the route matcher agree on the authorization of every method.

use mathlib.Core.Option
use mathlib.Core.Option.{some-injective}
use grpc_api_gateway_session.RouteMatcher.Mapping.{sort_by_len-map, first_prefix-map}
use grpc_api_gateway_session.Prelude.{
  ◌≡◌, refl, sym, ap, subst, inl, inr, String, some, List, ok, ◌∙◌, arith, Option-cases,
}
use grpc_api_gateway_session.Domain.{Route, DefaultRoute, RouteConfig, authorization_none}
use grpc_api_gateway_session.RouteMatcher.{
  sort_by_len, first_prefix, RouteMatcher, prefix_of, new_route_matcher, with_route_defaults,
  use_default, match,
}
use grpc_api_gateway_session.RouteMatcher.Longest.{built, new_route_matcher-eq-ok}
use grpc_api_gateway_session.Headers.{rule_of, rule_prefix, auth_rules, mode_for}

-- The auth processor picks the rule of the route that the matcher picks.
rule_picked :
    (routes : List Route) (method : String)
    → first_prefix rule_prefix method (auth_rules routes)
      ≡ Option.map rule_of (first_prefix prefix_of method (sort_by_len prefix_of routes))
unfolding auth_rules rule_of
rule_picked routes method =
    ap (first_prefix rule_prefix method)
      (sort_by_len-map prefix_of rule_prefix rule_of (λ _. refl) routes)
    ∙ first_prefix-map prefix_of rule_prefix rule_of (λ _. refl) method
        (sort_by_len prefix_of routes)

default_mode :
    (d : DefaultRoute) (r : Route) → use_default d ≡ some r → r.authorization ≡ authorization_none
unfolding use_default with_route_defaults
default_mode d r h = ground arith

mode_for-match :
    (cfg : RouteConfig) (method : String) (r : Route)
    → match (built cfg) method ≡ some r
    → mode_for (auth_rules cfg.routes) method ≡ r.authorization
unfolding mode_for match rule_of with_route_defaults
mode_for-match cfg method r h =
    elim (Option-cases (first_prefix prefix_of method (sort_by_len prefix_of cfg.routes))) [
      | inl e ↦
          rw (rule_picked cfg.routes method, mode_for, e)
            (sym (default_mode cfg.default_route r (rw (e, match) at h)))
      | inr (x, e) ↦
          rw (rule_picked cfg.routes method, mode_for, e)
            (ap (λ (q : Route). q.authorization) (some-injective _ r (rw (e, match) at h)))
    ]

-- For every method that is routed, by a prefix or by default, the mode that the auth processor
-- enforces is the authorization of the route that the matcher returns.
pub mode_for-match_lem :
    (cfg : RouteConfig) (m : RouteMatcher) (method : String) (r : Route)
    → new_route_matcher cfg ≡ ok m
    → match m method ≡ some r
    → mode_for (auth_rules cfg.routes) method ≡ r.authorization
mode_for-match_lem cfg m method r h e =
    mode_for-match cfg method r
      (subst (λ x. match x method ≡ some r) (new_route_matcher-eq-ok cfg m h).1 e)
