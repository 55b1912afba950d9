-- ===== src/Resolver.antt =====
-- MyGateway/service/connection_resolver_generic.go. A static cluster has one connection, a dynamic
-- one a pool, each with a factory of its own.
pub mod Errors
pub mod Known
pub mod Runs
pub mod Sticky
use grpc_api_gateway_session.Prelude.{
  ℕ, String, Bool, true, false, Option, none, some, List, [], ◌∷◌, ◌++◌, ◌==◌, Result, ok, err,
  lookup, insert, if◌then◌else◌,
}
use grpc_api_gateway_session.GrpcError.{
  Error, sentinel, wrap, err_conn_pool_closed, err_no_available_conn_instance,
  err_generic_unknown_cluster, err_sticky_key_required,
}
use grpc_api_gateway_session.Domain.{
  ServiceInstance, Route, ClusterId, balancer_sticky_session, sticky_session_header,
}
use grpc_api_gateway_session.Headers.{Metadata, get_header_value}
use grpc_api_gateway_session.Pool
use grpc_api_gateway_session.Pool.{
  Conn, Pool, PoolError, conn_pool_closed, no_available_conn_instance, Answer,
  get_connection_round_robin, get_connection_for_key,
}

-- Connections of different clusters are different.
pub data Backend : Type 0 where
  static_conn : ClusterId → Conn → Backend
  pooled_conn : ClusterId → Conn → Backend

pub record Resolver : Type 0 where
  pub static_conns : List (ClusterId × Conn)
  pub pools : List (ClusterId × Pool)
  -- The static connections that were closed.
  pub static_closed : List (ClusterId × Conn)

-- The connection, the sticky key and the instance ID.
abbrev pub Resolved : Type 0
Resolved = Backend × String × String

abbrev pub pool_error : PoolError → Error
pool_error conn_pool_closed = sentinel err_conn_pool_closed
pool_error no_available_conn_instance = sentinel err_no_available_conn_instance

abbrev pub sticky_header : Route → String
sticky_header route =
    if route.balancer.header == "" then sticky_session_header else route.balancer.header

-- The pool's answer, with the pool put back.
abbrev pub from_pool :
    ClusterId → String → Resolver → Answer × Pool → Result Error Resolved × Resolver
from_pool cluster key r (ok (c, id), p) =
    (ok (pooled_conn cluster c, key, id), record r { pools = insert cluster p r.pools })
from_pool cluster key r (err e, p) =
    (err (pool_error e), record r { pools = insert cluster p r.pools })

module _ (dial : ClusterId → ℕ → ServiceInstance → Bool) where
  get_sticky : Route → Option String → Pool → Resolver → Result Error Resolved × Resolver
  get_sticky route none p r =
      (err (wrap (sticky_header route) (sentinel err_sticky_key_required)), r)
  get_sticky route (some key) p r =
      from_pool route.cluster key r (get_connection_for_key (dial route.cluster) key p)

  get_pooled : Route → Metadata → Pool → Resolver → Result Error Resolved × Resolver
  get_pooled route headers p r =
      if route.balancer.kind == balancer_sticky_session
      then get_sticky route (get_header_value headers (sticky_header route)) p r
      else from_pool route.cluster "" r (get_connection_round_robin (dial route.cluster) p)

  unfoldable pub get_connection : Route → Metadata → Resolver → Result Error Resolved × Resolver
  unfolding get_pooled get_sticky
  get_connection route headers r = elim (lookup route.cluster r.static_conns) [
    | some c ↦ (ok (static_conn route.cluster c, "", route.cluster), r)
    | none ↦ elim (lookup route.cluster r.pools) [
      | none ↦ (err (wrap route.cluster (sentinel err_generic_unknown_cluster)), r)
      | some p ↦ get_pooled route headers p r
    ]
  ]

pub on_backend_failure : Route → String → String → Resolver → Resolver
on_backend_failure route key id r = elim (lookup route.cluster r.pools) [
  | none ↦ r
  | some p ↦ record r { pools = insert route.cluster (Pool.on_backend_failure key id p) r.pools }
]

close_pools : List (ClusterId × Pool) → List (ClusterId × Pool)
close_pools [] = []
close_pools ((cluster, p) ∷ pools) = (cluster, Pool.close p) ∷ close_pools pools

-- `Close` returns nil.
pub close : Resolver → Resolver
unfolding close_pools
close r = record r {
  static_closed = r.static_conns ++ r.static_closed;
  pools = close_pools r.pools;
}
