-- ===== src/Tests/Configs.antt =====
-- Loading a small configuration.
use grpc_api_gateway_session.Prelude.{
  ◌≡◌, refl, String, Option, none, [], ◌∷◌, Result, ok, err, pos, ◌==◌, if◌then◌else◌, insert,
  lookup, is_positive,
}
use grpc_api_gateway_session.Text.{trim_space, trim_suffix, begins_with}
use grpc_api_gateway_session.Domain.{validate_route_config}
use grpc_api_gateway_session.RouteMatcher.{RouteMatcher, new_route_matcher, match}
use grpc_api_gateway_session.Config.Numbers.{atoi, milliseconds}
use grpc_api_gateway_session.Config.{
  Config, YamlConfig, load_config, normalize_prefix, port_out_of_range,
}
use grpc_api_gateway_session.Config.Loading.{IsReady, load_config-IsReady}
use grpc_api_gateway_session.Config.Routing.{LeadsToCluster, load_config-LeadsToCluster}

abbrev pub getenv_with : (port : String) → String → String
getenv_with port name =
    if name == "SERVICE_PORT_GRPC"
    then port
    else if name == "CONFIG_PATH"
    then " /etc/gateway.yaml"
    else if name == "JWT_SECRET"
    then "key"
    else if name == "RETRY_COUNT"
    then "3"
    else if name == "RETRY_TIMEOUT_MS"
    then "250"
    else ""

abbrev pub absolute : String → Option String
absolute path = none

abbrev yaml : YamlConfig
yaml = record {
  default_section = record { action = ""; use_cluster = "" };
  routes =
      record {
        prefix = "api.Shop/*";
        cluster = "shop";
        authorization = "required";
        balancer = record { kind = ""; header = "" };
      }
      ∷ [];
  clusters =
      (
        "shop",
        record {
          kind = "dynamic";
          address = "";
          discoverer_url = "http://d:8080";
          discoverer_interval = pos 1000;
        },
      )
      ∷ [];
}

abbrev pub load_yaml : String → Result String YamlConfig
load_yaml path = if path == "/etc/gateway.yaml" then ok yaml else err "no such file"

abbrev pub loaded : Config
loaded = record {
  grpc_port = pos 8080;
  jwt_secret = "key";
  routes = record {
    routes =
        record {
          prefix = "/api.Shop/";
          cluster = "shop";
          authorization = "required";
          balancer = record { kind = "round_robin"; header = "" };
        }
        ∷ [];
    default_route = record { action = "error"; cluster = "" };
  };
  clusters =
      (
        "shop",
        record {
          kind = "dynamic";
          address = "";
          discoverer_url = "http://d:8080";
          discoverer_interval = pos 1000000000;
        },
      )
      ∷ [];
  retry_count = pos 3;
  retry_timeout = pos 250000000;
}

pub load_config_test : load_config (getenv_with "8080") absolute load_yaml ≡ ok loaded
unfolding load_config trim_space trim_suffix begins_with validate_route_config atoi milliseconds
    is_positive insert lookup normalize_prefix
load_config_test = refl

bad_port_test :
    load_config (getenv_with "70000") absolute load_yaml ≡ err (port_out_of_range (pos 70000))
unfolding load_config atoi
bad_port_test = refl

load_config-IsReady_example : IsReady loaded
load_config-IsReady_example =
    load_config-IsReady (getenv_with "8080") absolute load_yaml loaded load_config_test

load_config-LeadsToCluster_example :
    (m : RouteMatcher) × (new_route_matcher loaded.routes ≡ ok m)
    × LeadsToCluster loaded (match m "/api.Shop/Buy")
load_config-LeadsToCluster_example =
    load_config-LeadsToCluster (getenv_with "8080") absolute load_yaml loaded "/api.Shop/Buy"
      load_config_test
