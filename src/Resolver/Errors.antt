-- ===== src/Resolver/Errors.antt =====
-- What the resolver promises of its errors, and how a request affects the clusters.
use grpc_api_gateway_session.Prelude.{
  ℕ, ◌≡◌, refl, ◌≢◌, inl, inr, String, Bool, Option, some, ◌==◌, eq_iff, Result, ok, err, lookup,
  lookup-insert, arith, Bool-cases, Option-cases, subst,
}
use grpc_api_gateway_session.GrpcError.{
  Error, Sentinel, sentinel, wrap, err_conn_pool_closed, err_no_available_conn_instance,
  err_generic_unknown_cluster, err_sticky_key_required, gateway_error_to_grpc, Code,
}
use grpc_api_gateway_session.GrpcError.Table.{
  Carries, bare, wrapped, reported, StatusLibrary, gateway_error_to_grpc-sentinel,
}
use grpc_api_gateway_session.Domain.{ServiceInstance, Route, ClusterId, balancer_sticky_session}
use grpc_api_gateway_session.Headers.{Metadata, get_header_value}
use grpc_api_gateway_session.Pool.{Pool, conn_pool_closed, no_available_conn_instance, Answer}
use grpc_api_gateway_session.Resolver.{
  Resolver, Resolved, sticky_header, from_pool, get_sticky, get_pooled, get_connection,
}

-- An error is one of the gateway's own; a success says nothing here.
abbrev HasOwnError : Result Error Resolved × Resolver → Type 0
HasOwnError (ok b, r) = Unit
HasOwnError (err e, r) = (s : Sentinel) × Carries s e

-- The pools of the other clusters are as they were.
abbrev LeavesOthers : ClusterId → Resolver → Result Error Resolved × Resolver → Type 0
LeavesOthers cluster r a =
    (other : ClusterId) → other ≢ cluster → lookup other a.1.pools ≡ lookup other r.pools

from_pool-HasOwnError :
    (cluster key : String) (r : Resolver) (a : Answer × Pool)
    → HasOwnError (from_pool cluster key r a)
from_pool-HasOwnError cluster key r (ok (c, id), p) = tt
from_pool-HasOwnError cluster key r (err conn_pool_closed, p) = (err_conn_pool_closed, bare)
from_pool-HasOwnError cluster key r (err no_available_conn_instance, p) =
    (err_no_available_conn_instance, bare)

from_pool-LeavesOthers :
    (cluster key : String) (r : Resolver) (a : Answer × Pool)
    → LeavesOthers cluster r (from_pool cluster key r a)
from_pool-LeavesOthers cluster key r (ok (c, id), p) other ne =
    ground (arith, lookup-insert cluster other p r.pools, eq_iff cluster other)
from_pool-LeavesOthers cluster key r (err e, p) other ne =
    ground (arith, lookup-insert cluster other p r.pools, eq_iff cluster other)

module _ (dial : ClusterId → ℕ → ServiceInstance → Bool) where
  -- A case rule: what holds of the four kinds of answer holds of every answer.
  pub get_connection_cases {ℓ} :
      (P : Result Error Resolved × Resolver → Type ℓ) (route : Route) (headers : Metadata)
      (r : Resolver)
      → ((b : Resolved) → P (ok b, r))
      → P (err (wrap route.cluster (sentinel err_generic_unknown_cluster)), r)
      → P (err (wrap (sticky_header route) (sentinel err_sticky_key_required)), r)
      → ((key : String) (a : Answer × Pool) → P (from_pool route.cluster key r a))
      → P (get_connection dial route headers r)
  unfolding get_connection get_pooled get_sticky
  get_connection_cases P route headers r static unknown missing pooled =
      elim (Option-cases (lookup route.cluster r.static_conns)) [
        | inr (c, e) ↦ rw (e, get_connection) (static _)
        | inl e ↦ elim (Option-cases (lookup route.cluster r.pools)) [
          | inl f ↦ rw (e, f, get_connection) unknown
          | inr (p, f) ↦ elim (Bool-cases (route.balancer.kind == balancer_sticky_session)) [
            | inr k ↦ rw (e, f, get_connection, k) (pooled "" _)
            | inl k ↦ elim (Option-cases (get_header_value headers (sticky_header route))) [
              | inl h ↦ rw (e, f, get_connection, k, h, get_sticky) missing
              | inr (key, h) ↦ rw (e, f, get_connection, k, h, get_sticky) (pooled key _)
            ]
          ]
        ]
      ]

  -- Every error of the resolver is one of the gateway's own under a wrapper at most, so the client
  -- is sent the status that the error table has for it.
  pub get_connection-reported :
      (from_error : Error → Option (Code × String)) (route : Route) (headers : Metadata)
      (r r' : Resolver) (e : Error)
      → StatusLibrary from_error
      → get_connection dial route headers r ≡ (err e, r')
      → (s : Sentinel) × Carries s e
        × (gateway_error_to_grpc from_error (some e) ≡ some (reported s))
  get_connection-reported from_error route headers r r' e lib h =
      let (s, c) = subst HasOwnError h own in
      (s, c, gateway_error_to_grpc-sentinel from_error lib s e c)
    where
      own : HasOwnError (get_connection dial route headers r)
      own =
          get_connection_cases HasOwnError route headers r (λ b. tt)
            (err_generic_unknown_cluster, wrapped route.cluster bare)
            (err_sticky_key_required, wrapped (sticky_header route) bare)
            (λ key a. from_pool-HasOwnError route.cluster key r a)

  -- A request for one cluster changes nothing in the pool of another.
  pub get_connection-lookup_other :
      (route : Route) (headers : Metadata) (r : Resolver) (other : ClusterId)
      → other ≢ route.cluster
      → lookup other (get_connection dial route headers r).1.pools ≡ lookup other r.pools
  get_connection-lookup_other route headers r =
      get_connection_cases (LeavesOthers route.cluster r) route headers r (λ b other ne. refl)
        (λ other ne. refl) (λ other ne. refl)
        (λ key a. from_pool-LeavesOthers route.cluster key r a)
