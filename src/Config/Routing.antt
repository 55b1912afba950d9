-- ===== src/Config/Routing.antt =====
-- The routes of a configuration that is ready.

use grpc_api_gateway_session.Prelude.{◌≡◌, refl, true, String, Option, none, some, Result, ok}
use grpc_api_gateway_session.Domain.{Route}
use grpc_api_gateway_session.Domain.Validation.{validate_route_config_iff}
use grpc_api_gateway_session.RouteMatcher.{
  RouteMatcher, new_route_matcher, match, with_route_defaults,
}
use grpc_api_gateway_session.RouteMatcher.Longest.{
  Selects, by_prefix, by_default, unrouted, match-Selects, built, Memᴰ-All,
}
use grpc_api_gateway_session.Config.{Config, YamlConfig, is_defined, load_config}
use grpc_api_gateway_session.Config.Loading.{IsReady, load_config-IsReady}

-- Every route that the matcher finds leads to a cluster of the configuration.
abbrev pub LeadsToCluster : Config → Option Route → Type 0
LeadsToCluster cfg none = Unit
LeadsToCluster cfg (some r) = is_defined cfg.clusters r.cluster ≡ true

pub Selects-LeadsToCluster :
    (cfg : Config) (method : String) (found : Option Route)
    → IsReady cfg
    → Selects cfg.routes method found
    → LeadsToCluster cfg found
unfolding with_route_defaults
Selects-LeadsToCluster cfg method _ ready (by_prefix r listed fit) =
    Memᴰ-All (λ r. is_defined cfg.clusters r.cluster ≡ true) listed ready.routed
Selects-LeadsToCluster cfg method _ ready (by_default none_fits uses) = ready.default_known uses
Selects-LeadsToCluster cfg method _ ready (unrouted none_fits unused) = tt

pub new_route_matcher-IsReady :
    (cfg : Config) → IsReady cfg → new_route_matcher cfg.routes ≡ ok (built cfg.routes)
unfolding new_route_matcher
new_route_matcher-IsReady cfg ready =
    rw ((validate_route_config_iff cfg.routes).1 ready.valid, new_route_matcher) refl

module _ (getenv : String → String) (absolute : String → Option String)
    (load_yaml : String → Result String YamlConfig) where
  -- From a configuration that was loaded the matcher of the routes is built without an error, and
  -- every route that it finds, the default one included, leads to a defined cluster.
  pub load_config-LeadsToCluster :
      (cfg : Config) (method : String)
      → load_config getenv absolute load_yaml ≡ ok cfg
      → (m : RouteMatcher) × (new_route_matcher cfg.routes ≡ ok m)
        × LeadsToCluster cfg (match m method)
  load_config-LeadsToCluster cfg method h =
      let ready = load_config-IsReady getenv absolute load_yaml cfg h in
      let made = new_route_matcher-IsReady cfg ready in
      (
        built cfg.routes,
        made,
        Selects-LeadsToCluster cfg method _ ready
            (match-Selects cfg.routes (built cfg.routes) method made),
      )
