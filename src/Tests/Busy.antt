-- ===== src/Tests/Busy.antt =====
-- The scenario of busy instances against a resolver with three.
use grpc_api_gateway_session.Prelude.{
  ℕ, ◌≡◌, refl, ne_text, String, Bool, true, false, none, some, List, [], ◌∷◌, ok, err, pos, lookup,
}
use grpc_api_gateway_session.GrpcError.{other}
use grpc_api_gateway_session.Domain.{Route, ClusterId, ServiceInstance}
use grpc_api_gateway_session.Auth.{LoginRequest}
use grpc_api_gateway_session.Pool.{new_connection_pool, refresh}
use grpc_api_gateway_session.Pool.Capacity.{is_held, IsFree}
use grpc_api_gateway_session.Pool.Capacity.Spread.{IsApart, IsSpread}
use grpc_api_gateway_session.Resolver.{Resolver, get_connection}
use grpc_api_gateway_session.Scenarios.{LoginReply, EchoReply, Client, echo_faults}
use grpc_api_gateway_session.Scenarios.Busy.{session_of, run_no_instances_available}
use grpc_api_gateway_session.Scenarios.Busy.Passing.{
  echoed, turns, three_seats, run_no_instances_available-passes,
}
use grpc_api_gateway_session.Tests.Errors.{from_error, from_error-StatusLibrary}
use grpc_api_gateway_session.Tests.Scenarios.{reply, cfg}

abbrev instance_at : String → ServiceInstance
instance_at id = record {
  instance_id = id;
  ipv4 = "10.0.0.1";
  port = pos 9000;
  assigned_client_session_id = "";
}

abbrev three_instances : List ServiceInstance
three_instances = instance_at "i1" ∷ instance_at "i2" ∷ instance_at "i3" ∷ []

abbrev sticky_route : Route
sticky_route = record {
  prefix = "/api.Shop/";
  cluster = "shop";
  authorization = "required";
  balancer = record { kind = "sticky_sessions"; header = "session-id" };
}

abbrev dial : ClusterId → ℕ → ServiceInstance → Bool
dial cluster n inst = true

abbrev pod_reply : String → String → EchoReply
pod_reply key id = reply 0 "pod-1"

abbrev granted_reply : LoginRequest → LoginReply
granted_reply req = record { token = "t"; has_expiry = true; role = "user" }

abbrev resolved : String → Client Resolver
resolved number = record {
  login = λ req r. (ok (granted_reply req), r);
  echo = λ md value r.
      echoed from_error from_error-StatusLibrary dial sticky_route pod_reply
        (get_connection dial sticky_route md r);
  shutdown = λ md r. (err (other "no backend"), r);
}

abbrev shop : Resolver
shop = record {
  static_conns = [];
  pools = ("shop", new_connection_pool (some three_instances)) ∷ [];
  static_closed = [];
}

abbrev stamp : String → String
stamp number = "20260101000000"

pod_reply_test : echo_faults "" (pod_reply "" "") ≡ none
unfolding echo_faults
pod_reply_test = refl

shop_test :
    (lookup "shop" shop.static_conns ≡ none)
    × (lookup "shop" shop.pools ≡ some (new_connection_pool (some three_instances)))
    × ((new_connection_pool (some three_instances)).instances ≡ three_instances)
    × ((new_connection_pool (some three_instances)).closed ≡ false)
unfolding lookup new_connection_pool refresh
shop_test = (refl, refl, refl, refl)

abbrev session : String → String
session number = session_of stamp number

spread : IsSpread (new_connection_pool (some three_instances)).key_to_id (
    turns stamp (
      three_seats granted_reply cfg stamp (instance_at "i1") (instance_at "i2") (instance_at "i3")))
unfolding IsSpread IsApart IsFree is_held lookup new_connection_pool refresh
spread = (
  ne_text (session "1") "" refl,
  refl,
  refl,
  (
    (ne_text (session "1") (session "2") refl, ne_text "i1" "i2" refl),
    ((ne_text (session "1") (session "3") refl, ne_text "i1" "i3" refl), tt),
  ),
  (
    ne_text (session "2") "" refl,
    refl,
    refl,
    ((ne_text (session "2") (session "3") refl, ne_text "i2" "i3" refl), tt),
    (ne_text (session "3") "" refl, refl, refl, tt, tt),
  ),
)

new_test : lookup (session "4") (new_connection_pool (some three_instances)).key_to_id ≡ none
unfolding lookup new_connection_pool refresh
new_test = refl

run_no_instances_available-passes_example :
    (run_no_instances_available from_error resolved stamp cfg shop).0 ≡ ok tt
run_no_instances_available-passes_example =
    run_no_instances_available-passes from_error from_error-StatusLibrary dial sticky_route
      pod_reply resolved stamp (λ number md value r. refl) refl refl (λ key id. pod_reply_test)
      granted_reply cfg (λ number req r. (refl, ne_text "t" "" refl, refl, ne_text "user" "" refl))
      (instance_at "i1") (instance_at "i2") (instance_at "i3")
      (new_connection_pool (some three_instances)) shop shop_test.0 shop_test.1 shop_test.2 spread
      shop_test.3 (λ n i. refl) new_test
      (
        ne_text (session "1") (session "4") refl,
        (ne_text (session "2") (session "4") refl, (ne_text (session "3") (session "4") refl, tt)),
      )
