-- ===== src/Resolver/Sticky.antt =====
-- A sticky route to a dynamic cluster.
use grpc_api_gateway_session.Prelude.{
  ℕ, ◌≡◌, refl, String, Bool, true, none, some, ◌==◌, eq_iff, arith, lookup, insert,
  lookup-insert_self,
}
use grpc_api_gateway_session.Domain.{ServiceInstance, Route, ClusterId, balancer_sticky_session}
use grpc_api_gateway_session.Headers.{Metadata, get_header_value}
use grpc_api_gateway_session.Pool.{Pool, get_connection_for_key}
use grpc_api_gateway_session.Resolver.{Resolver, get_connection, sticky_header, from_pool}

module _ (dial : ClusterId → ℕ → ServiceInstance → Bool) (route : Route) where
  -- The resolver has the pool for the cluster of the route.
  pub record HasPool (p : Pool) (r : Resolver) : Type 0 where
    pub no_static : lookup route.cluster r.static_conns ≡ none
    pub has_pool : lookup route.cluster r.pools ≡ some p

  unfoldable pub put_pool : Pool → Resolver → Resolver
  put_pool p r = record r { pools = insert route.cluster p r.pools }

  pub put_pool-HasPool : (p q : Pool) (r : Resolver) → HasPool p r → HasPool q (put_pool q r)
  unfolding put_pool
  put_pool-HasPool p q r h = record {
    no_static = h.no_static;
    has_pool = lookup-insert_self route.cluster q r.pools;
  }

  -- What a sticky route gets for the key of its header.
  pub get_connection-sticky :
      (key : String) (md : Metadata) (p : Pool) (r : Resolver)
      → HasPool p r
      → route.balancer.kind ≡ balancer_sticky_session
      → get_header_value md (sticky_header route) ≡ some key
      → get_connection dial route md r
        ≡ from_pool route.cluster key r (get_connection_for_key (dial route.cluster) key p)
  unfolding get_connection
  get_connection-sticky key md p r h sticky found =
      let e : (route.balancer.kind == balancer_sticky_session) ≡ true =
        ground (arith, eq_iff route.balancer.kind balancer_sticky_session) in
      rw (h.no_static, h.has_pool, e, found, get_connection) refl
