-- ===== src/Config.antt =====
-- MyGateway/cmd/config.go. The environment is a function; making a path absolute and reading the YAML
-- file, whose clusters stand in the order of Go's iteration over the map, are parameters. The secret
-- is kept as the text whose bytes it is. Durations are 64-bit numbers of nanoseconds.
pub mod Numbers
pub mod Clusters
pub mod Loading
pub mod Routing
use Prim.Native.String
use grpc_api_gateway_session.Prelude.{
  ℕ, String, Bool, true, false, not, ◌&&◌, ◌||◌, Option, none, some, List, [], ◌∷◌, ◌==◌, Result,
  ok, err, ◌>>=◌, ℤ, pos, negsuc, is_positive, any, map, lookup, insert, ltb, leb, if◌then◌else◌,
}
use grpc_api_gateway_session.Text.{trim_space, trim_suffix, begins_with}
use grpc_api_gateway_session.Domain.{
  ClusterId, Route, DefaultRoute, RouteConfig, RouteConfigError, ClusterConfig, authorization_none,
  authorization_required, balancer_round_robin, default_route_error, default_route_use_cluster,
  cluster_type_static, cluster_type_dynamic, validate_route_config,
}
use grpc_api_gateway_session.Config.Numbers.{atoi, milliseconds}

pub record Config : Type 0 where
  pub grpc_port : ℤ
  pub jwt_secret : String
  pub routes : RouteConfig
  pub clusters : List (ClusterId × ClusterConfig)
  pub retry_count : ℤ
  pub retry_timeout : ℤ

pub record YamlDefault : Type 0 where
  pub action : String
  pub use_cluster : String

pub record YamlBalancer : Type 0 where
  pub kind : String
  pub header : String

pub record YamlRoute : Type 0 where
  pub prefix : String
  pub cluster : String
  pub authorization : String
  pub balancer : YamlBalancer

pub record YamlCluster : Type 0 where
  pub kind : String
  pub address : String
  pub discoverer_url : String
  pub discoverer_interval : ℤ

pub record YamlConfig : Type 0 where
  pub default_section : YamlDefault
  pub routes : List YamlRoute
  pub clusters : List (String × YamlCluster)

-- The errors, by what they say.
pub data ConfigError : Type 0 where
  invalid_port missing_path no_absolute_path bad_action : ConfigError
  port_out_of_range : ℤ → ConfigError
  load_failed : String → ConfigError
  invalid_routes : RouteConfigError → ConfigError
  bad_cluster : (name reason : String) → ConfigError
  route_to_unknown : (prefix cluster : String) → ConfigError
  default_to_unknown : String → ConfigError
  missing_secret missing_retry_count missing_retry_timeout : ConfigError
  bad_retry_count bad_retry_timeout : String → ConfigError

abbrev pub require : Bool → ConfigError → Result ConfigError (Unit {0})
require true e = ok tt
require false e = err e

abbrev pub or_else {ℓ} : {A : Type ℓ} → ConfigError → Option A → Result ConfigError A
or_else e none = err e
or_else e (some a) = ok a

unfoldable pub normalize_prefix : String → String
normalize_prefix prefix =
    let p = trim_suffix b'*' (trim_space prefix) in
    if not (p == "") && not (begins_with b'/' p) then String.◌∷◌ "/" p else p

abbrev pub or_default : String → String → String
or_default d s = if s == "" then d else s

-- The body of the loop over the routes.
pub to_route : YamlRoute → Route
unfolding normalize_prefix
to_route r = record {
  prefix = normalize_prefix r.prefix;
  cluster = trim_space r.cluster;
  authorization = or_default authorization_none (trim_space r.authorization);
  balancer = record {
    kind = or_default balancer_round_robin (trim_space r.balancer.kind);
    header = trim_space r.balancer.header;
  };
}

abbrev pub requires_token : Route → Bool
requires_token r = r.authorization == authorization_required

-- The `switch` over the action.
pub to_default : YamlDefault → Result ConfigError DefaultRoute
to_default d =
    let action = trim_space d.action in
    if action == "" || action == "error"
    then ok (record { action = default_route_error; cluster = "" })
    else if action == "use_cluster"
    then ok (record { action = default_route_use_cluster; cluster = trim_space d.use_cluster })
    else err bad_action

pub to_cluster : YamlCluster → ClusterConfig
to_cluster c = record {
  kind = trim_space c.kind;
  address = trim_space c.address;
  discoverer_url = trim_space c.discoverer_url;
  discoverer_interval = milliseconds c.discoverer_interval;
}

pub check_cluster : String → ClusterConfig → Result ConfigError ClusterConfig
check_cluster name c =
    if c.kind == cluster_type_static && c.address == ""
    then err (bad_cluster name "address is required for static cluster")
    else if c.kind == cluster_type_dynamic && c.discoverer_url == ""
    then err (bad_cluster name "discoverer_url is required for dynamic cluster")
    else if c.kind == cluster_type_dynamic && not (is_positive c.discoverer_interval)
    then err (bad_cluster name "discoverer_interval_ms must be positive")
    else if not (c.kind == cluster_type_static) && not (c.kind == cluster_type_dynamic)
    then err (bad_cluster name "type must be static|dynamic")
    else ok c

-- The loop over the clusters, with the map that it fills.
pub add_clusters :
    List (ClusterId × ClusterConfig)
    → List (String × YamlCluster)
    → Result ConfigError (List (ClusterId × ClusterConfig))
unfolding to_cluster check_cluster
add_clusters clusters [] = ok clusters
add_clusters clusters ((name, c) ∷ rest) = do
  checked ← check_cluster name (to_cluster c)
  add_clusters (insert name checked clusters) rest

abbrev pub is_defined : List (ClusterId × ClusterConfig) → ClusterId → Bool
is_defined clusters cluster = elim (lookup cluster clusters) [ none ↦ false | some c ↦ true ]

pub check_routes : List (ClusterId × ClusterConfig) → List Route → Result ConfigError (Unit {0})
check_routes clusters [] = ok tt
check_routes clusters (r ∷ rs) = do
  known ← require (is_defined clusters r.cluster) (route_to_unknown r.prefix r.cluster)
  check_routes clusters rs

abbrev pub in_port_range : ℤ → Bool
in_port_range (pos n) = ltb 0 n && leb n 65535
in_port_range (negsuc n) = false

abbrev pub check_valid : RouteConfig → Result ConfigError (Unit {0})
check_valid cfg = elim (validate_route_config cfg) [
  | none ↦ ok tt
  | some e ↦ err (invalid_routes e)
]

module _ (getenv : String → String) where
  pub load_port : Result ConfigError ℤ
  load_port = do
    port ← or_else invalid_port (atoi (getenv "SERVICE_PORT_GRPC"))
    fits ← require (in_port_range port) (port_out_of_range port)
    ok port

  -- A number that the environment must hold, and that must be positive.
  pub load_positive : String → ConfigError → (String → ConfigError) → Result ConfigError ℤ
  load_positive name missing bad =
      let text = trim_space (getenv name) in
      do
        given ← require (not (text == "")) missing
        n ← or_else (bad text) (atoi text)
        fits ← require (is_positive n) (bad text)
        ok n

  module _ (absolute : String → Option String) (load_yaml : String → Result String YamlConfig) where
    abbrev to_absolute : String → Result ConfigError String
    to_absolute path =
        if begins_with b'/' path then ok path else or_else no_absolute_path (absolute path)

    abbrev read_yaml : String → Result ConfigError YamlConfig
    read_yaml path = elim (load_yaml path) [ err text ↦ err (load_failed text) | ok yaml ↦ ok yaml ]

    pub load_file : Result ConfigError YamlConfig
    load_file =
        let path = trim_space (getenv "CONFIG_PATH") in
        do given ← require (not (path == "")) missing_path; full ← to_absolute path; read_yaml full

    -- The part behind the file: routes, clusters, secret and retries.
    pub build : ℤ → YamlConfig → Result ConfigError Config
    unfolding to_route to_default add_clusters check_routes load_positive
    build port yaml =
        let routes = map to_route yaml.routes in
        let secret = trim_space (getenv "JWT_SECRET") in
        do
          default_route ← to_default yaml.default_section
          valid ← check_valid (record { routes = routes; default_route = default_route })
          clusters ← add_clusters [] yaml.clusters
          known ← check_routes clusters routes
          default_known ←
              require
                (not (default_route.action == default_route_use_cluster)
                  || is_defined clusters default_route.cluster)
                (default_to_unknown default_route.cluster)
          has_secret ←
              require (not (any requires_token routes) || not (secret == "")) missing_secret
          retry_count ← load_positive "RETRY_COUNT" missing_retry_count bad_retry_count
          timeout ← load_positive "RETRY_TIMEOUT_MS" missing_retry_timeout bad_retry_timeout
          ok (record {
            grpc_port = port;
            jwt_secret = secret;
            routes = record { routes = routes; default_route = default_route };
            clusters = clusters;
            retry_count = retry_count;
            retry_timeout = milliseconds timeout;
          })

    -- `LoadConfig`
    unfoldable pub load_config : Result ConfigError Config
    unfolding load_port load_file build
    load_config = do port ← load_port; yaml ← load_file; build port yaml
