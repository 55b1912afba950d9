-- ===== src/Discoverer/Settings.antt =====
-- MyDiscoverer/cmd/config.go, and the Redis client of MyDiscoverer/adapters/myredis/config.go.
-- `redis.ParseURL` is a parameter, and a duration is its number of nanoseconds.
pub mod Reading
use grpc_api_gateway_session.Prelude.{
  ℕ, String, Bool, false, Option, none, some, List, [], ◌∷◌, ◌==◌, Result, ok, err, ℤ,
  if◌then◌else◌,
}
use grpc_api_gateway_session.Config.Numbers.{atoi}

pub record RedisConfig : Type 0 where
  pub addr : String

pub record MyDiscovererConfig : Type 0 where
  pub redis : RedisConfig
  pub http_port : ℤ

pub data SettingsError : Type 0 where
  redis_addr_required port_required invalid_port : SettingsError

with_port : String → Option ℤ → Result SettingsError MyDiscovererConfig
with_port addr none = err invalid_port
with_port addr (some port) = ok (record { redis = record { addr = addr }; http_port = port })

-- `LoadConfig`
unfoldable pub load_config : (String → String) → Result SettingsError MyDiscovererConfig
unfolding with_port
load_config getenv =
    if getenv "REDIS_ADDR" == ""
    then err redis_addr_required
    else if getenv "SERVICE_PORT_HTTP" == ""
    then err port_required
    else with_port (getenv "REDIS_ADDR") (atoi (getenv "SERVICE_PORT_HTTP"))

-- What the code reads of `redis.Options`.
pub record Options : Type 0 where
  pub addr : String
  pub db : ℤ
  pub username : String
  pub password : String
  pub write_timeout : ℤ
  pub read_timeout : ℤ
  pub dial_timeout : ℤ
  pub max_retries : ℤ
  pub pool_size : ℤ
  pub pool_timeout : ℤ
  pub min_idle_conns : ℤ
  pub idle_timeout : ℤ
  pub idle_check_frequency : ℤ

-- What the code writes of `redis.UniversalOptions`.
pub record UniversalOptions : Type 0 where
  pub addrs : List String
  pub db : ℤ
  pub username : String
  pub password : String
  pub read_only : Bool
  pub master_name : String
  pub write_timeout : ℤ
  pub read_timeout : ℤ
  pub dial_timeout : ℤ
  pub max_retries : ℤ
  pub pool_size : ℤ
  pub pool_timeout : ℤ
  pub min_idle_conns : ℤ
  pub idle_timeout : ℤ
  pub idle_check_frequency : ℤ

pub universal_options : Options → UniversalOptions
universal_options o = record {
  addrs = o.addr ∷ [];
  db = o.db;
  username = o.username;
  password = o.password;
  read_only = false;
  master_name = "";
  write_timeout = o.write_timeout;
  read_timeout = o.read_timeout;
  dial_timeout = o.dial_timeout;
  max_retries = o.max_retries;
  pool_size = o.pool_size;
  pool_timeout = o.pool_timeout;
  min_idle_conns = o.min_idle_conns;
  idle_timeout = o.idle_timeout;
  idle_check_frequency = o.idle_check_frequency;
}

-- `for _, opt := range options { opt(redisOptions) }`
pub configure : List (Options → Options) → Options → Options
configure [] o = o
configure (opt ∷ opts) o = configure opts (opt o)

-- The options that `NewRedisUniversalClient` makes its client of; `none` is an URL that is refused.
unfoldable pub new_redis_universal_client :
    (String → Option Options) → String → List (Options → Options) → Option UniversalOptions
unfolding universal_options configure
new_redis_universal_client parse_url redis_addr options = elim (parse_url redis_addr) [
  | none ↦ none
  | some o ↦ some (universal_options (configure options o))
]
