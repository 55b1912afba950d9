-- ===== src/Tests/Errors.antt =====
-- The errors that leave the gateway, and the resolver's.
use mathlib.Core.Option
use grpc_api_gateway_session.Prelude.{
  ℕ, ◌≡◌, refl, ◌≢◌, ne_text, String, Bool, true, Option, none, some, [], ◌∷◌, err, lookup,
}
use grpc_api_gateway_session.GrpcError.{
  Code, resource_exhausted, Sentinel, Error, status, sentinel, wrap, other, msg_all_instances_busy,
  gateway_error_to_grpc, err_sticky_key_required, err_no_available_conn_instance,
}
use grpc_api_gateway_session.GrpcError.Table.{
  StatusLibrary, Carries, bare, wrapped, reported, gateway_error_to_grpc-sentinel,
}
use grpc_api_gateway_session.Domain.{Route, ClusterId, ServiceInstance}
use grpc_api_gateway_session.Text.{to_lower}
use grpc_api_gateway_session.Headers.{Metadata, get_header_value}
use grpc_api_gateway_session.Pool.{new_connection_pool}
use grpc_api_gateway_session.Resolver.{Resolver, get_connection}
use grpc_api_gateway_session.Resolver.Errors.{get_connection-reported}

-- `status.FromError` as gRPC documents it, with the texts joined.
abbrev pub from_error : Error → Option (Code × String)
from_error (status c m) = some (c, m)
from_error (sentinel s) = none
from_error (wrap t e) = Option.map (λ (p : Code × String). (p.0, t)) (from_error e)
from_error (other t) = none

pub from_error-StatusLibrary : StatusLibrary from_error
from_error-StatusLibrary = record {
  of_status = λ c m. refl;
  of_sentinel = λ s. refl;
  of_wrap_none = λ t e h. rw h refl;
  of_wrap_some = λ t e c m h. (t, rw h refl);
}

abbrev busy : Error
busy = wrap "pool" (sentinel err_no_available_conn_instance)

gateway_error_to_grpc-sentinel_example :
    gateway_error_to_grpc from_error (some busy)
    ≡ some (status resource_exhausted msg_all_instances_busy)
gateway_error_to_grpc-sentinel_example =
    gateway_error_to_grpc-sentinel from_error from_error-StatusLibrary
      err_no_available_conn_instance busy (wrapped "pool" bare)

abbrev dial : ClusterId → ℕ → ServiceInstance → Bool
dial cluster n inst = true

abbrev shop : Route
shop = record {
  prefix = "/api.Shop/";
  cluster = "shop";
  authorization = "none";
  balancer = record { kind = "sticky_sessions"; header = "session-id" };
}

abbrev two_clusters : Resolver
two_clusters = record {
  static_conns = [];
  pools = ("shop", new_connection_pool none) ∷ ("mail", new_connection_pool none) ∷ [];
  static_closed = [];
}

abbrev no_headers : Metadata
no_headers key = []

-- A sticky route without the header.
no_key_test :
    get_connection dial shop no_headers two_clusters
    ≡ (err (wrap "session-id" (sentinel err_sticky_key_required)), two_clusters)
unfolding get_connection get_header_value to_lower lookup
no_key_test = refl

get_connection-reported_example :
    (s : Sentinel) × Carries s (wrap "session-id" (sentinel err_sticky_key_required))
    × (gateway_error_to_grpc from_error
          (some (wrap "session-id" (sentinel err_sticky_key_required)))
        ≡ some (reported s))
get_connection-reported_example =
    get_connection-reported dial from_error shop no_headers two_clusters two_clusters
      (wrap "session-id" (sentinel err_sticky_key_required)) from_error-StatusLibrary no_key_test

mail : ◌≢◌ {A = String} "mail" "shop"
mail = ne_text "mail" "shop" refl
