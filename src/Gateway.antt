-- ===== src/Gateway.antt =====
-- MyGateway/cmd/main.go up to the listening server, with the constructors that it calls and the check
-- of their texts in MyGateway/helpers/pointer.go. No dependency in the model is nil, so `NilPanic`
-- hands each one on. What the network answers while the program starts is an argument: the gRPC
-- clients of the static clusters, the first answer of each discoverer, and the listener.
pub mod Access
pub mod Starting
pub mod Traffic
use grpc_api_gateway_session.Prelude.{
  ℕ, String, Bool, true, false, Option, none, some, List, [], ◌∷◌, ◌==◌, Result, ok, err, ℤ, pos,
  negsuc, is_positive, insert, if◌then◌else◌,
}
use grpc_api_gateway_session.Domain.{
  ServiceInstance, ClusterId, ClusterConfig, RouteConfigError, cluster_type_static,
  cluster_type_dynamic,
}
use grpc_api_gateway_session.RouteMatcher.{RouteMatcher, new_route_matcher}
use grpc_api_gateway_session.Text.Utf8.{bytes_of}
use grpc_api_gateway_session.Token.{Codecs, validate_token}
use grpc_api_gateway_session.Pool.{Conn, Pool, new_connection_pool}
use grpc_api_gateway_session.Resolver.{Resolver}
use grpc_api_gateway_session.Proxy.{Proxy}
use grpc_api_gateway_session.Proxy.Authorized.{wired}
use grpc_api_gateway_session.Config.{Config, ConfigError}

-- Why `main` calls `os.Exit(1)`.
pub data ExitReason : Type 0 where
  bad_configuration : ConfigError → ExitReason
  bad_routes : RouteConfigError → ExitReason
  no_client : ClusterId → ExitReason
  unknown_type : (cluster kind : String) → ExitReason
  no_listener : ExitReason

-- How a part of `main` ends.
pub data Startup {ℓ} (A : Type ℓ) : Type ℓ where
  running : A → Startup A
  exits : ExitReason → Startup A
  panics : String → Startup A

infixl 5 ◌>>=◌
abbrev pub ◌>>=◌ {ℓ κ} : {A : Type ℓ} {B : Type κ} → Startup A → (A → Startup B) → Startup B
running a >>= f = f a
exits why >>= f = exits why
panics message >>= f = panics message

abbrev pub or_exit {ℓ} : {E : Type 0} {A : Type ℓ} → (E → ExitReason) → Result E A → Startup A
or_exit reason (ok a) = running a
or_exit reason (err e) = exits (reason e)

-- `StrPanic`
pub str_panic : String → String → Startup String
str_panic p message = if p == "" then panics message else running p

-- `DiscovererHTTP`, of which the base URL is left.
pub discoverer_http : String → Startup String
unfolding str_panic
discoverer_http base_url = str_panic base_url "adapters.discoverer.go: baseURL is required"

-- `refreshLoop` up to its loop: `time.NewTicker` panics, which ends the program from any goroutine.
pub refresh_loop : ℤ → Startup (Unit {0})
refresh_loop interval =
    if is_positive interval then running tt else panics "non-positive interval for NewTicker"

-- The retry count as the bound of a loop that counts up from 0.
pub rounds : ℤ → ℕ
rounds (pos n) = n
rounds (negsuc n) = 0

-- `staticConns` and `dynamicPools`
pub record Connections : Type 0 where
  pub static_conns : List (ClusterId × Conn)
  pub dynamic_pools : List (ClusterId × Pool)

-- `grpc.NewClient`, the first answer of the discoverer at an URL, and whether a port is free.
pub record Network : Type 0 where
  pub new_client : String → Option Conn
  pub discover : String → Option (List ServiceInstance)
  pub listen : ℤ → Bool

module _ (net : Network) where
  static_cluster : ClusterId → Option Conn → Connections → Startup Connections
  static_cluster id none cs = exits (no_client id)
  static_cluster id (some c) cs = running (record cs { static_conns = insert id c cs.static_conns })

  -- The loop's factory dials only when a pool needs a connection.
  dynamic_cluster : ClusterId → ClusterConfig → Connections → Startup Connections
  unfolding discoverer_http refresh_loop
  dynamic_cluster id c cs = do
    base_url ← discoverer_http c.discoverer_url
    let pool = new_connection_pool (net.discover base_url)
    ticking ← refresh_loop c.discoverer_interval
    running (record cs { dynamic_pools = insert id pool cs.dynamic_pools })

  -- The body of the loop over the clusters.
  pub connect_cluster : ClusterId → ClusterConfig → Connections → Startup Connections
  unfolding static_cluster dynamic_cluster
  connect_cluster id c cs =
      if c.kind == cluster_type_static
      then static_cluster id (net.new_client c.address) cs
      else if c.kind == cluster_type_dynamic
      then dynamic_cluster id c cs
      else exits (unknown_type id c.kind)

  pub connect_clusters : List (ClusterId × ClusterConfig) → Connections → Startup Connections
  unfolding connect_cluster
  connect_clusters [] cs = running cs
  connect_clusters ((id, c) ∷ rest) cs = do cs' ← connect_cluster id c cs; connect_clusters rest cs'

-- The loop that fills `dynamicClusterIDs`.
pub dynamic_cluster_ids : List (ClusterId × ClusterConfig) → List ClusterId
dynamic_cluster_ids [] = []
dynamic_cluster_ids ((id, c) ∷ rest) =
    let ids = dynamic_cluster_ids rest in if c.kind == cluster_type_dynamic then id ∷ ids else ids

-- What a gateway runs on; the proxy reads the time through its validator.
pub record Gateway (Time : Type 0) : Type 0 where
  pub proxy : Time → Proxy
  pub resolver : Resolver
  pub port : ℤ

module _ (lib : Codecs) where
  -- `NewJWTValidator` with the secret of the configuration.
  abbrev pub jwt_validator : Config → lib.Time → String → String → Result String Bool
  jwt_validator cfg now session_id token =
      ok (validate_token lib (bytes_of cfg.jwt_secret) now session_id token)

  abbrev pub gateway_of : Config → RouteMatcher → Connections → Gateway lib.Time
  gateway_of cfg router cs = record {
    proxy = λ now.
        wired (jwt_validator cfg now) cfg.routes router (rounds cfg.retry_count)
          (dynamic_cluster_ids cfg.clusters);
    resolver = record {
      static_conns = cs.static_conns;
      pools = cs.dynamic_pools;
      static_closed = [];
    };
    port = cfg.grpc_port;
  }

module _ (lib : Codecs) (net : Network) where
  -- `main`, from what `LoadConfig` returns to the server that listens.
  unfoldable pub start : Result ConfigError Config → Startup (Gateway lib.Time)
  unfolding connect_clusters
  start loaded = do
    cfg ← or_exit bad_configuration loaded
    router ← or_exit bad_routes (new_route_matcher cfg.routes)
    cs ← connect_clusters net cfg.clusters (record { static_conns = []; dynamic_pools = [] })
    if net.listen cfg.grpc_port then running (gateway_of lib cfg router cs) else exits no_listener
