-- ===== src/Tests/Streams.antt =====
-- Runs of the handler.
use grpc_api_gateway_session.Prelude.{
  ◌≡◌, ◌≤◌, ◌+◌, Bool, Result, refl, arith, nat_eq, String, true, false, none, some, [], ◌∷◌, ok,
  pos, if◌then◌else◌,
}
use grpc_api_gateway_session.GrpcError.{Error, status, unavailable}
use grpc_api_gateway_session.Domain.{ServiceInstance, Route}
use grpc_api_gateway_session.Headers.{Metadata}
use grpc_api_gateway_session.Pool.{new_connection_pool}
use grpc_api_gateway_session.Proxy.{
  eof, failed, server_to_client, client_to_server, Env, Proxy, World, handler,
}
use grpc_api_gateway_session.Text.{begins_with}
use grpc_api_gateway_session.Domain.{RouteConfig, validate_route_config}
use grpc_api_gateway_session.RouteMatcher.{
  RouteMatcher, new_route_matcher, match, sort_by_len, first_prefix, with_route_defaults,
}
use grpc_api_gateway_session.Headers.Gate.{IsAuthorized}
use grpc_api_gateway_session.Proxy.{returned}
use grpc_api_gateway_session.Proxy.Authorized.{wired, handler-refuses}
use grpc_api_gateway_session.Proxy.Bounds.{attempts_allowed, handler-attempts}
use grpc_api_gateway_session.Proxy.Opening.{IsIdle}
use grpc_api_gateway_session.Proxy.Streams.{Ended, handler-Ended}

abbrev pub instance_at : String → ServiceInstance
instance_at id = record {
  instance_id = id;
  ipv4 = "10.0.0.1";
  port = pos 9000;
  assigned_client_session_id = "";
}

abbrev pub shop : Route
shop = record {
  prefix = "/api.Shop/";
  cluster = "shop";
  authorization = "none";
  balancer = record { kind = "round_robin"; header = "" };
}

abbrev pub proxy : Proxy
proxy = record {
  router = record { routes = shop ∷ []; def = record { action = "error"; cluster = "" } };
  headers = λ headers method. ok headers;
  retry_count = 3;
  dynamic_clusters = "shop" ∷ [];
}

abbrev broke : Error
broke = status unavailable "broke"

-- The first stream breaks after the client's message, the second does not open, the third answers.
abbrev pub env : Env
env = record {
  dial = λ cluster n inst. true;
  new_stream = λ n backend. if nat_eq n 1 then some broke else none;
  events = server_to_client eof ∷ client_to_server (failed broke) ∷ [];
  has_first_msg = true;
  replay_send = λ n. none;
  replay_end = λ n. eof;
  client_gone = λ n. false;
}

abbrev pub no_headers : Metadata
no_headers key = []

abbrev pub start_world : World
start_world = record {
  resolver = record {
    static_conns = [];
    pools =
        (
          "shop",
          new_connection_pool (some (instance_at "i1" ∷ instance_at "i2" ∷ instance_at "i3" ∷ [])),
        )
        ∷ [];
    static_closed = [];
  };
  attempts = 0;
  opened = 0;
  cancelled = [];
  failures = [];
}

start_world-IsIdle : IsIdle start_world
start_world-IsIdle = record { all_cancelled = λ i lt. absurd (omega arith); all_reported = refl }

handler-Ended_example : Ended (handler env proxy (some "/api.Shop/Buy") no_headers start_world)
handler-Ended_example =
    handler-Ended env proxy (some "/api.Shop/Buy") no_headers start_world tt start_world-IsIdle

abbrev private_shop : Route
private_shop = record shop { authorization = "required" }

abbrev cfg : RouteConfig
cfg = record {
  routes = private_shop ∷ [];
  default_route = record { action = "error"; cluster = "" };
}

abbrev matcher : RouteMatcher
matcher = record { routes = private_shop ∷ []; def = cfg.default_route }

matcher_test : new_route_matcher cfg ≡ ok matcher
unfolding new_route_matcher validate_route_config sort_by_len begins_with
matcher_test = refl

routed_test : match matcher "/api.Shop/Buy" ≡ some private_shop
unfolding match first_prefix with_route_defaults
routed_test = refl

abbrev reject : String → String → Result String Bool
reject session_id token = ok false

nobody : IsAuthorized reject no_headers → ⊥
nobody a = absurd (cc a.valid)

handler-refuses_example :
    (e : Error) × (handler env
        (wired reject cfg matcher 3 ("shop" ∷ []))
        (some "/api.Shop/Buy")
        no_headers
        start_world
      ≡ (returned (some e), start_world))
handler-refuses_example =
    handler-refuses reject env cfg matcher 3 ("shop" ∷ []) "/api.Shop/Buy" no_headers private_shop
      start_world matcher_test routed_test refl nobody

shop_routed_test : match proxy.router "/api.Shop/Buy" ≡ some shop
unfolding match first_prefix with_route_defaults
shop_routed_test = refl

handler-attempts_example :
    (handler env proxy (some "/api.Shop/Buy") no_headers start_world).1.attempts
    ≤ 0 + attempts_allowed env proxy shop no_headers
handler-attempts_example =
    handler-attempts env proxy "/api.Shop/Buy" no_headers shop start_world shop_routed_test
