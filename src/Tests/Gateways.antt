-- ===== src/Tests/Gateways.antt =====
-- Starting a small gateway, and some traffic on it.
use mathlib.Core.Option.{some-injective}
use grpc_api_gateway_session.Prelude.{
  ℕ, ◌≡◌, refl, sym, inl, inr, some, List, [], ◌∷◌, ◌==◌, true, lookup, insert, is_positive,
  Bool-cases, Bool, ok,
}
use grpc_api_gateway_session.Domain.{ServiceInstance, Route, ClusterId, validate_route_config}
use grpc_api_gateway_session.Text.{begins_with}
use grpc_api_gateway_session.RouteMatcher.{
  match, first_prefix, with_route_defaults, sort_by_len, new_route_matcher,
}
use grpc_api_gateway_session.RouteMatcher.Longest.{built}
use grpc_api_gateway_session.Pool.{Pool, new_connection_pool}
use grpc_api_gateway_session.Pool.Invariant.{IsValid}
use grpc_api_gateway_session.Resolver.{get_connection}
use grpc_api_gateway_session.Resolver.Known.{IsNotUnknown}
use grpc_api_gateway_session.Resolver.Runs.{ticks}
use grpc_api_gateway_session.Proxy.{World}
use grpc_api_gateway_session.Config.{load_config}
use grpc_api_gateway_session.Gateway.{running, Network, Gateway, gateway_of, start}
use grpc_api_gateway_session.Gateway.Starting.{IsStarted, AreFresh, start-IsStarted}
use grpc_api_gateway_session.Gateway.Traffic.{
  Event, request, single, serve_all, serve_all-IsValid, serve_all-IsNotUnknown,
}
use grpc_api_gateway_session.Tests.Configs.{
  getenv_with, absolute, load_yaml, loaded, load_config_test,
}
use grpc_api_gateway_session.Tests.Streams.{instance_at, env, no_headers}
use grpc_api_gateway_session.Tests.Codes.{small}

abbrev net : Network
net = record {
  new_client = λ address. some 0;
  discover = λ url. some (instance_at "i1" ∷ []);
  listen = λ port. true;
}

start-IsStarted_example :
    (g : Gateway ℕ) × (start small net (load_config (getenv_with "8080") absolute load_yaml)
      ≡ running g)
    × IsStarted loaded g
start-IsStarted_example =
    start-IsStarted small net (getenv_with "8080") absolute load_yaml loaded load_config_test
      (λ id c h static. cc) refl

abbrev first_pool : Pool
first_pool = new_connection_pool (some (instance_at "i1" ∷ []))

abbrev gateway : Gateway ℕ
gateway =
    gateway_of small loaded (built loaded.routes)
      (record { static_conns = []; dynamic_pools = ("shop", first_pool) ∷ [] })

gateway-AreFresh : AreFresh gateway.resolver.pools
unfolding lookup
gateway-AreFresh id p h = elim (Bool-cases ("shop" == id)) [
  | inl e ↦ (some (instance_at "i1" ∷ []), sym (some-injective first_pool p (rw e at h)))
  | inr e ↦ absurd (cc (rw e at h))
]

gateway-IsStarted : IsStarted loaded gateway
unfolding lookup
gateway-IsStarted = record {
  router = λ now. refl;
  known = (inr (first_pool, refl), tt);
  fresh = gateway-AreFresh;
}

abbrev idle : World
idle = record {
  resolver = gateway.resolver;
  attempts = 0;
  opened = 0;
  cancelled = [];
  failures = [];
}

abbrev traffic : List (Event ℕ)
traffic =
    request env 5 (some "/api.Shop/Buy") no_headers
    ∷ single (ticks "shop" (some (instance_at "i2" ∷ [])))
    ∷ []

abbrev always : ClusterId → ℕ → ServiceInstance → Bool
always cluster n inst = true

serve_all-IsValid_example :
    (q : Pool) × (lookup "shop" (serve_all always gateway traffic idle).resolver.pools ≡ some q)
    × IsValid q
unfolding lookup
serve_all-IsValid_example =
    serve_all-IsValid small net (getenv_with "8080") absolute load_yaml always loaded gateway
      gateway-IsStarted traffic idle refl "shop" first_pool refl

abbrev shop_route : Route
shop_route = record {
  prefix = "/api.Shop/";
  cluster = "shop";
  authorization = "required";
  balancer = record { kind = "round_robin"; header = "" };
}

routed_test : match (gateway.proxy 5).router "/api.Shop/Buy" ≡ some shop_route
unfolding match first_prefix with_route_defaults sort_by_len
routed_test = refl

serve_all-IsNotUnknown_example :
    IsNotUnknown
      (get_connection always shop_route no_headers
        (serve_all always gateway traffic idle).resolver).0
serve_all-IsNotUnknown_example =
    serve_all-IsNotUnknown small net (getenv_with "8080") absolute load_yaml always loaded gateway
      load_config_test gateway-IsStarted traffic idle refl 5 "/api.Shop/Buy" no_headers shop_route
      routed_test

start_test : start small net (ok loaded) ≡ running gateway
unfolding start new_route_matcher validate_route_config sort_by_len begins_with is_positive insert
start_test = refl
