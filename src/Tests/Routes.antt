-- ===== src/Tests/Routes.antt =====
-- The route config, the matcher, and the modes of the auth processor.
use grpc_api_gateway_session.Prelude.{◌≡◌, refl, ◌↔◌, String, none, some, [], ◌∷◌, ok}
use grpc_api_gateway_session.Text.{begins_with, trim_space}
use grpc_api_gateway_session.Domain.{Route, RouteConfig, validate_route_config}
use grpc_api_gateway_session.Domain.Validation.{IsValidConfig, validate_route_config_iff}
use grpc_api_gateway_session.RouteMatcher.{
  RouteMatcher, new_route_matcher, match, with_route_defaults, sort_by_len, first_prefix,
  use_default,
}
use grpc_api_gateway_session.RouteMatcher.Longest.{Selects, match-Selects}
use grpc_api_gateway_session.Headers.{auth_rules, mode_for}
use grpc_api_gateway_session.Headers.Agreement.{mode_for-match_lem}

abbrev route_to : String → String → String → String → Route
route_to prefix cluster authorization kind = record {
  prefix = prefix;
  cluster = cluster;
  authorization = authorization;
  balancer = record { kind = kind; header = "session-id" };
}

abbrev everything : Route
everything = route_to "/api" "other" "" ""

abbrev shop : Route
shop = route_to "/api.Shop/" "shop" "required" "sticky_sessions"

abbrev cfg : RouteConfig
cfg = record {
  routes = everything ∷ shop ∷ [];
  default_route = record { action = "error"; cluster = "" };
}

-- The longer prefix has gone to the front.
abbrev matcher : RouteMatcher
matcher = record { routes = shop ∷ everything ∷ []; def = cfg.default_route }

new_route_matcher_test : new_route_matcher cfg ≡ ok matcher
unfolding new_route_matcher validate_route_config sort_by_len begins_with trim_space
new_route_matcher_test = refl

match_test : match matcher "/api.Shop/Buy" ≡ some shop
unfolding match first_prefix with_route_defaults
match_test = refl

no_match_test : match matcher "/web/Index" ≡ none
unfolding match first_prefix use_default
no_match_test = refl

validate_route_config_iff_example : (validate_route_config cfg ≡ none) ↔ IsValidConfig cfg
validate_route_config_iff_example = validate_route_config_iff cfg

match-Selects_example : Selects cfg "/api.Shop/Buy" (match matcher "/api.Shop/Buy")
match-Selects_example = match-Selects cfg matcher "/api.Shop/Buy" new_route_matcher_test

mode_for-match_lem_example : mode_for (auth_rules cfg.routes) "/api.Shop/Buy" ≡ shop.authorization
mode_for-match_lem_example =
    mode_for-match_lem cfg matcher "/api.Shop/Buy" shop new_route_matcher_test match_test
