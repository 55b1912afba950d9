-- ===== src/Config/Loading.antt =====
-- What a configuration that was loaded satisfies.

use grpc_api_gateway_session.Prelude.{
  ◌≡◌, refl, ◌≢◌, inl, inr, String, Bool, true, false, not, ◌||◌, Option, none, List, [], ◌∷◌, ◌==◌,
  eq_iff, Result, ok, ℤ, is_positive, any, map, HasUniqueKeys, Holds, bind-Holds, Holds-ok,
  Holds-weaken, arith, All, Option-cases,
}
use grpc_api_gateway_session.Text.{trim_space}
use grpc_api_gateway_session.Domain.{
  ClusterId, Route, RouteConfig, ClusterConfig, default_route_use_cluster, validate_route_config,
}
use grpc_api_gateway_session.Domain.Validation.{IsValidConfig, validate_route_config_iff}
use grpc_api_gateway_session.Config.Numbers.{atoi}
use grpc_api_gateway_session.Config.Clusters.{
  AreUsable, none-AreUsable, add_clusters-AreUsable, add_clusters-HasUniqueKeys,
}
use grpc_api_gateway_session.Config.{
  Config, YamlConfig, ConfigError, route_to_unknown, invalid_port, port_out_of_range, or_else,
  missing_secret, default_to_unknown, missing_retry_count, bad_retry_count, missing_retry_timeout,
  bad_retry_timeout, require, requires_token, is_defined, add_clusters, check_routes, check_valid,
  load_port, load_positive, load_file, build, load_config, in_port_range, to_default, to_route,
}

pub record IsReady (cfg : Config) : Type 0 where
  pub port : in_port_range cfg.grpc_port ≡ true
  pub valid : IsValidConfig cfg.routes
  pub usable : AreUsable cfg.clusters
  pub unique : HasUniqueKeys cfg.clusters
  pub routed : All (λ r. is_defined cfg.clusters r.cluster ≡ true) cfg.routes.routes
  pub default_known :
      cfg.routes.default_route.action ≡ default_route_use_cluster
      → is_defined cfg.clusters cfg.routes.default_route.cluster ≡ true
  pub secret : any requires_token cfg.routes.routes ≡ true → cfg.jwt_secret ≢ ""
  pub retries : is_positive cfg.retry_count ≡ true

require-eq-ok : (b : Bool) (e : ConfigError) {u : Unit {0}} → require b e ≡ ok u → b ≡ true
require-eq-ok true e h = refl
require-eq-ok false e h = cc

abbrev AreDefined : List (ClusterId × ClusterConfig) → List Route → Type 0
AreDefined clusters rs = All (λ r. is_defined clusters r.cluster ≡ true) rs

check_routes-AreDefined :
    (clusters : List (ClusterId × ClusterConfig)) (rs : List Route)
    → Holds (λ u. AreDefined clusters rs) (check_routes clusters rs)
unfolding check_routes
check_routes-AreDefined clusters [] = tt
check_routes-AreDefined clusters (r ∷ rs) =
    bind-Holds _ (require (is_defined clusters r.cluster) (route_to_unknown r.prefix r.cluster)) _
      λ u e.
        Holds-weaken (λ v h. (require-eq-ok _ _ e, h)) (check_routes clusters rs)
          (check_routes-AreDefined clusters rs)

abbrev IsPositive : ℤ → Type 0
IsPositive n = is_positive n ≡ true

load_positive-IsPositive :
    (getenv : String → String) (name : String) (missing : ConfigError) (bad : String → ConfigError)
    → Holds IsPositive (load_positive getenv name missing bad)
unfolding load_positive
load_positive-IsPositive getenv name missing bad =
    let text = trim_space (getenv name) in
    bind-Holds IsPositive (require (not (text == "")) missing) _ λ u e.
      bind-Holds IsPositive (or_else (bad text) (atoi text)) _ λ n d.
        bind-Holds IsPositive (require (is_positive n) (bad text)) _ λ v f. require-eq-ok _ _ f

abbrev IsPort : ℤ → Type 0
IsPort n = in_port_range n ≡ true

load_port-IsPort : (getenv : String → String) → Holds IsPort (load_port getenv)
unfolding load_port
load_port-IsPort getenv =
    bind-Holds IsPort (or_else invalid_port (atoi (getenv "SERVICE_PORT_GRPC"))) _ λ p e.
      bind-Holds IsPort (require (in_port_range p) (port_out_of_range p)) _
        λ v f. require-eq-ok _ _ f

after_not : (a b : Bool) → a ≡ true → (not a || b) ≡ true → b ≡ true
after_not a b h k = ground arith

not_empty : (s : String) → not (s == "") ≡ true → s ≢ ""
not_empty s h = ground (arith, eq_iff s "")

check_valid-eq-ok :
    (cfg : RouteConfig) {u : Unit {0}} → check_valid cfg ≡ ok u → validate_route_config cfg ≡ none
check_valid-eq-ok cfg h = elim (Option-cases (validate_route_config cfg)) [
  | inl n ↦ n
  | inr (x, n) ↦ absurd (cc (rw (n, check_valid) at h))
]

module _ (getenv : String → String) (absolute : String → Option String)
    (load_yaml : String → Result String YamlConfig) where
  -- What is known of a configuration that was built, with where its secret comes from.
  abbrev IsBuilt : Config → Type 0
  IsBuilt cfg = IsReady cfg × (cfg.jwt_secret ≡ trim_space (getenv "JWT_SECRET"))

  build-IsBuilt :
      (port : ℤ) (yaml : YamlConfig)
      → IsPort port
      → Holds IsBuilt (build getenv absolute load_yaml port yaml)
  unfolding build
  build-IsBuilt port yaml fits =
      let routes = map to_route yaml.routes in
      let secret = trim_space (getenv "JWT_SECRET") in
      bind-Holds IsBuilt (to_default yaml.default_section) _ λ d e.
        bind-Holds IsBuilt (check_valid (record { routes = routes; default_route = d })) _
          λ u1 valid. bind-Holds IsBuilt (add_clusters [] yaml.clusters) _ λ clusters added.
            bind-Holds IsBuilt (check_routes clusters routes) _ λ u2 known.
              bind-Holds IsBuilt
                (require
                  (not (d.action == default_route_use_cluster) || is_defined clusters d.cluster)
                  (default_to_unknown d.cluster))
                _
                λ u3 has_default.
                  bind-Holds IsBuilt
                    (require (not (any requires_token routes) || not (secret == "")) missing_secret)
                    _
                    λ u4 has_secret.
                      bind-Holds IsBuilt
                        (load_positive getenv "RETRY_COUNT" missing_retry_count bad_retry_count) _
                        λ n counted.
                          bind-Holds IsBuilt
                            (load_positive getenv "RETRY_TIMEOUT_MS" missing_retry_timeout
                              bad_retry_timeout)
                            _
                            λ t timed. (
                              record {
                                port = fits;
                                valid = (validate_route_config_iff _).0 (check_valid-eq-ok _ valid);
                                usable =
                                    Holds-ok AreUsable added
                                      (add_clusters-AreUsable [] yaml.clusters none-AreUsable);
                                unique =
                                    Holds-ok HasUniqueKeys added
                                      (add_clusters-HasUniqueKeys [] yaml.clusters tt);
                                routed = Holds-ok _ known (check_routes-AreDefined clusters routes);
                                default_known = λ uses.
                                    after_not (d.action == default_route_use_cluster) _
                                      ((eq_iff d.action default_route_use_cluster).1 uses)
                                      (require-eq-ok _ _ has_default);
                                secret = λ needs. not_empty secret (
                                    after_not (any requires_token routes) _ needs
                                      (require-eq-ok _ _ has_secret));
                                retries =
                                    Holds-ok IsPositive counted
                                      (load_positive-IsPositive getenv _ _ bad_retry_count);
                              },
                              refl,
                            )

  load_config-IsBuilt :
      (cfg : Config) → load_config getenv absolute load_yaml ≡ ok cfg → IsBuilt cfg
  unfolding load_config
  load_config-IsBuilt cfg h = Holds-ok IsBuilt h (
      bind-Holds IsBuilt (load_port getenv) _ λ port e.
        bind-Holds IsBuilt (load_file getenv absolute load_yaml) _
          λ yaml d. build-IsBuilt port yaml (Holds-ok IsPort e (load_port-IsPort getenv)))

  -- A configuration that was loaded has a port between 1 and 65535, valid routes, clusters each of
  -- which is static with an address or dynamic with an URL and a positive interval, a defined cluster
  -- for every route and for the default section where it names one, a secret if a route requires a
  -- token, and a positive retry count.
  pub load_config-IsReady :
      (cfg : Config) → load_config getenv absolute load_yaml ≡ ok cfg → IsReady cfg
  load_config-IsReady cfg h = (load_config-IsBuilt cfg h).0

  -- The secret of the gateway is the text in the environment without the white space around it.
  pub load_config-jwt_secret :
      (cfg : Config)
      → load_config getenv absolute load_yaml ≡ ok cfg
      → cfg.jwt_secret ≡ trim_space (getenv "JWT_SECRET")
  load_config-jwt_secret cfg h = (load_config-IsBuilt cfg h).1
