-- ===== src/Resolver/Known.antt =====
-- The clusters that a resolver knows.
use grpc_api_gateway_session.Prelude.{
  ℕ, ◌≡◌, refl, ◌∙◌, ap, ◌⊎◌, inl, inr, String, Bool, false, Option, some, List, [], ◌∷◌, ◌==◌,
  Result, ok, err, lookup, Bool-cases, Option-cases,
}
use grpc_api_gateway_session.GrpcError.{Error, errors_is, err_generic_unknown_cluster}
use grpc_api_gateway_session.Domain.{ServiceInstance, Route, ClusterId, balancer_sticky_session}
use grpc_api_gateway_session.Headers.{Metadata}
use grpc_api_gateway_session.Pool.{
  Conn, Pool, Answer, conn_pool_closed, no_available_conn_instance, run,
}
use grpc_api_gateway_session.Resolver.{
  Resolver, Resolved, from_pool, get_sticky, get_pooled, get_connection, on_backend_failure, close,
}
use grpc_api_gateway_session.Resolver.Errors.{get_connection_cases}
use grpc_api_gateway_session.Resolver.Runs.{
  Call, gets, fails, ticks, shuts, tick, call, calls, calls-Reaches,
}

-- A cluster that has a connection or a pool.
abbrev pub IsKnown : List (ClusterId × Conn) → List (ClusterId × Pool) → ClusterId → Type 0
IsKnown statics pools id =
    ((c : Conn) × (lookup id statics ≡ some c)) ⊎ ((p : Pool) × (lookup id pools ≡ some p))

-- An answer that is not the error of an unknown cluster, however wrapped.
abbrev pub IsNotUnknown : Result Error Resolved → Type 0
IsNotUnknown (ok b) = Unit
IsNotUnknown (err e) = errors_is e err_generic_unknown_cluster ≡ false

from_pool-IsNotUnknown :
    (cluster key : String) (r : Resolver) (a : Answer × Pool)
    → IsNotUnknown (from_pool cluster key r a).0
unfolding errors_is
from_pool-IsNotUnknown cluster key r (ok (c, id), p) = tt
from_pool-IsNotUnknown cluster key r (err conn_pool_closed, p) = refl
from_pool-IsNotUnknown cluster key r (err no_available_conn_instance, p) = refl

from_pool-static_conns :
    (cluster key : String) (r : Resolver) (a : Answer × Pool)
    → (from_pool cluster key r a).1.static_conns ≡ r.static_conns
from_pool-static_conns cluster key r (ok (c, id), p) = refl
from_pool-static_conns cluster key r (err e, p) = refl

module _ (dial : ClusterId → ℕ → ServiceInstance → Bool) where
  get_sticky-IsNotUnknown :
      (route : Route) (key : Option String) (p : Pool) (r : Resolver)
      → IsNotUnknown (get_sticky dial route key p r).0
  unfolding get_sticky errors_is
  get_sticky-IsNotUnknown route Option.none p r = refl
  get_sticky-IsNotUnknown route (some key) p r = from_pool-IsNotUnknown route.cluster key r _

  get_pooled-IsNotUnknown :
      (route : Route) (md : Metadata) (p : Pool) (r : Resolver)
      → IsNotUnknown (get_pooled dial route md p r).0
  unfolding get_pooled
  get_pooled-IsNotUnknown route md p r =
      elim (Bool-cases (route.balancer.kind == balancer_sticky_session)) [
        | inl e ↦ rw (e, get_pooled) (get_sticky-IsNotUnknown route _ p r)
        | inr e ↦ rw (e, get_pooled) (from_pool-IsNotUnknown route.cluster "" r _)
      ]

  -- A known cluster is never reported as unknown.
  pub get_connection-IsNotUnknown :
      (route : Route) (md : Metadata) (r : Resolver)
      → IsKnown r.static_conns r.pools route.cluster
      → IsNotUnknown (get_connection dial route md r).0
  unfolding get_connection
  get_connection-IsNotUnknown route md r (inl (c, h)) = rw (h, get_connection) tt
  get_connection-IsNotUnknown route md r (inr (p, h)) =
      elim (Option-cases (lookup route.cluster r.static_conns)) [
        | inr (c, e) ↦ rw (e, get_connection) tt
        | inl e ↦ rw (e, get_connection, h) (get_pooled-IsNotUnknown route md p r)
      ]

  call-static_conns : (c : Call) (r : Resolver) → (call dial c r).static_conns ≡ r.static_conns
  unfolding call close on_backend_failure tick
  call-static_conns (gets route md) r =
      get_connection_cases dial (λ a. a.1.static_conns ≡ r.static_conns) route md r (λ b. refl) refl
        refl (λ key a. from_pool-static_conns route.cluster key r a)
  call-static_conns (fails route key id) r = elim (Option-cases (lookup route.cluster r.pools)) [
    | inl e ↦ rw (e, on_backend_failure) refl
    | inr (p, e) ↦ rw (e, on_backend_failure) refl
  ]
  call-static_conns (ticks cluster answer) r = elim (Option-cases (lookup cluster r.pools)) [
    | inl e ↦ rw (e, tick) refl
    | inr (p, e) ↦ rw (e, tick) refl
  ]
  call-static_conns shuts r = refl

  calls-static_conns :
      (cs : List Call) (r : Resolver) → (calls dial cs r).static_conns ≡ r.static_conns
  unfolding calls
  calls-static_conns [] r = refl
  calls-static_conns (c ∷ cs) r = calls-static_conns cs (call dial c r) ∙ call-static_conns c r

  -- The calls forget no cluster.
  pub calls-IsKnown :
      (cs : List Call) (r : Resolver) (id : ClusterId)
      → IsKnown r.static_conns r.pools id
      → IsKnown (calls dial cs r).static_conns (calls dial cs r).pools id
  calls-IsKnown cs r id (inl (c, h)) = inl (c, ap (lookup id) (calls-static_conns cs r) ∙ h)
  calls-IsKnown cs r id (inr (p, h)) =
      let (ops, e) = calls-Reaches dial cs r id p h in inr (run (dial id) ops p, e)
