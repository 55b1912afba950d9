-- ===== src/Resolver/Runs.antt =====
-- Interleavings of the calls of a resolver. The handlers of all requests and the refresh timers of
-- all pools share it; a call touches at most one pool, under the mutex of that pool.
use mathlib.Core.Option.{some-injective}
use grpc_api_gateway_session.Prelude.{
  ℕ, ◌≡◌, refl, sym, ◌∙◌, ap, inl, inr, String, Bool, Option, none, some, List, [], ◌∷◌, ◌++◌, ◌==◌,
  eq_iff, ok, err, lookup, insert, lookup-insert, Bool-cases, Option-cases,
}
use grpc_api_gateway_session.Domain.{ServiceInstance, Route, ClusterId, balancer_sticky_session}
use grpc_api_gateway_session.Headers.{Metadata}
use grpc_api_gateway_session.Pool
use grpc_api_gateway_session.Pool.{
  Pool, PoolError, Answer, Op, round_robin, closes, for_key, failure, refreshes, step, run,
  get_connection_for_key, get_connection_round_robin,
}
use grpc_api_gateway_session.Resolver.{
  Resolver, from_pool, get_sticky, get_pooled, get_connection, on_backend_failure, close_pools,
  close,
}

-- One call: of a handler, of the refresh timer of a pool, or of the end of the program.
pub data Call : Type 0 where
  gets : Route → Metadata → Call
  fails : Route → String → String → Call
  ticks : ClusterId → Option (List ServiceInstance) → Call
  shuts : Call

-- A refresh of the pool of a cluster.
unfoldable pub tick : ClusterId → Option (List ServiceInstance) → Resolver → Resolver
tick cluster answer r = elim (lookup cluster r.pools) [
  | none ↦ r
  | some p ↦ record r { pools = insert cluster (Pool.refresh answer p) r.pools }
]

-- The pool operation on the pool of one cluster, or nothing.
abbrev Has : List (ClusterId × Pool) → ClusterId → Pool → Type 0
Has pools cluster p = lookup cluster pools ≡ some p

-- The pool of every cluster is one that some pool operations make of the pool before.
module _ (dial : ClusterId → ℕ → ServiceInstance → Bool) where
  abbrev pub Reaches : List (ClusterId × Pool) → List (ClusterId × Pool) → Type 0
  Reaches pools pools' =
      (cluster : ClusterId) (p : Pool)
      → Has pools cluster p
      → (ops : List Op) × Has pools' cluster (run (dial cluster) ops p)

  Reaches-refl : (pools : List (ClusterId × Pool)) → Reaches pools pools
  unfolding run
  Reaches-refl pools cluster p h = ([], h)

  run-append :
      (cluster : ClusterId) (ops more : List Op) (p : Pool)
      → run (dial cluster) (ops ++ more) p ≡ run (dial cluster) more (run (dial cluster) ops p)
  unfolding run
  run-append cluster [] more p = refl
  run-append cluster (op ∷ ops) more p = run-append cluster ops more (step (dial cluster) op p)

  pub Reaches-trans : (a b c : List (ClusterId × Pool)) → Reaches a b → Reaches b c → Reaches a c
  Reaches-trans a b c f g cluster p h =
      let (ops, e) = f cluster p h in
      let (more, d) = g cluster (run (dial cluster) ops p) e in
      (ops ++ more, d ∙ ap some (sym (run-append cluster ops more p)))

  insert-Reaches :
      (pools : List (ClusterId × Pool)) (cluster : ClusterId) (p : Pool) (op : Op)
      → Has pools cluster p
      → Reaches pools (insert cluster (step (dial cluster) op p) pools)
  unfolding run
  insert-Reaches pools cluster p op held other q h = elim (Bool-cases (cluster == other)) [
    | inr e ↦ ([], rw (lookup-insert cluster other (step (dial cluster) op p) pools, e) h)
    | inl e ↦
        let same : cluster ≡ other = (eq_iff cluster other).0 e in
        (
          op ∷ [],
          lookup-insert cluster other _ pools
              ∙ rw
                  (e, some-injective q p (sym h ∙ ap (λ c. lookup c pools) (sym same) ∙ held), same)
                  refl,
        )
  ]

  close_pools-Reaches : (pools : List (ClusterId × Pool)) → Reaches pools (close_pools pools)
  unfolding close_pools lookup run step
  close_pools-Reaches [] other q h = absurd (cc)
  close_pools-Reaches ((cluster, p) ∷ pools) other q h = elim (Bool-cases (cluster == other)) [
    | inl e ↦ (closes ∷ [], rw e (ap (λ c. some (Pool.close c)) (some-injective p q (rw e at h))))
    | inr e ↦ rw e (close_pools-Reaches pools other q (rw e at h))
  ]

  from_pool-pools :
      (cluster : ClusterId) (key : String) (r : Resolver) (a : Answer × Pool)
      → (from_pool cluster key r a).1.pools ≡ insert cluster a.1 r.pools
  from_pool-pools cluster key r (ok c, p) = refl
  from_pool-pools cluster key r (err e, p) = refl

  from_pool-Reaches :
      (cluster : ClusterId) (key : String) (r : Resolver) (p : Pool) (op : Op) (a : Answer × Pool)
      → Has r.pools cluster p
      → a.1 ≡ step (dial cluster) op p
      → Reaches r.pools (from_pool cluster key r a).1.pools
  from_pool-Reaches cluster key r p op a held e =
      rw (from_pool-pools cluster key r a, e) (insert-Reaches r.pools cluster p op held)

  get_sticky-Reaches :
      (route : Route) (key : Option String) (p : Pool) (r : Resolver)
      → Has r.pools route.cluster p
      → Reaches r.pools (get_sticky dial route key p r).1.pools
  unfolding get_sticky step
  get_sticky-Reaches route none p r held = Reaches-refl r.pools
  get_sticky-Reaches route (some key) p r held =
      from_pool-Reaches route.cluster key r p (for_key key) _ held refl

  get_pooled-Reaches :
      (route : Route) (md : Metadata) (p : Pool) (r : Resolver)
      → Has r.pools route.cluster p
      → Reaches r.pools (get_pooled dial route md p r).1.pools
  unfolding get_pooled step
  get_pooled-Reaches route md p r held =
      elim (Bool-cases (route.balancer.kind == balancer_sticky_session)) [
        | inl e ↦ rw (e, get_pooled) (get_sticky-Reaches route _ p r held)
        | inr e ↦
            rw (e, get_pooled) (from_pool-Reaches route.cluster "" r p round_robin _ held refl)
      ]

  -- What a call does to the resolver.
  unfoldable pub call : Call → Resolver → Resolver
  unfolding tick
  call (gets route md) r = (get_connection dial route md r).1
  call (fails route key id) r = on_backend_failure route key id r
  call (ticks cluster answer) r = tick cluster answer r
  call shuts r = close r

  unfoldable pub calls : List Call → Resolver → Resolver
  calls [] r = r
  calls (c ∷ cs) r = calls cs (call c r)

  get_connection-Reaches :
      (route : Route) (md : Metadata) (r : Resolver)
      → Reaches r.pools (get_connection dial route md r).1.pools
  unfolding get_connection
  get_connection-Reaches route md r = elim (Option-cases (lookup route.cluster r.static_conns)) [
    | inr (c, e) ↦ rw (e, get_connection) (Reaches-refl r.pools)
    | inl e ↦ elim (Option-cases (lookup route.cluster r.pools)) [
      | inl n ↦ rw (e, get_connection, n) (Reaches-refl r.pools)
      | inr (p, h) ↦ rw (e, get_connection, h) (get_pooled-Reaches route md p r h)
    ]
  ]

  on_backend_failure-Reaches :
      (route : Route) (key id : String) (r : Resolver)
      → Reaches r.pools (on_backend_failure route key id r).pools
  unfolding on_backend_failure step
  on_backend_failure-Reaches route key id r = elim (Option-cases (lookup route.cluster r.pools)) [
    | inl n ↦ rw (n, on_backend_failure) (Reaches-refl r.pools)
    | inr (p, h) ↦
        rw (h, on_backend_failure) (insert-Reaches r.pools route.cluster p (failure key id) h)
  ]

  tick-Reaches :
      (cluster : ClusterId) (answer : Option (List ServiceInstance)) (r : Resolver)
      → Reaches r.pools (tick cluster answer r).pools
  unfolding tick step
  tick-Reaches cluster answer r = elim (Option-cases (lookup cluster r.pools)) [
    | inl n ↦ rw (n, tick) (Reaches-refl r.pools)
    | inr (p, h) ↦ rw (h, tick) (insert-Reaches r.pools cluster p (refreshes answer) h)
  ]

  call-Reaches : (c : Call) (r : Resolver) → Reaches r.pools (call c r).pools
  unfolding call close
  call-Reaches (gets route md) r = get_connection-Reaches route md r
  call-Reaches (fails route key id) r = on_backend_failure-Reaches route key id r
  call-Reaches (ticks cluster answer) r = tick-Reaches cluster answer r
  call-Reaches shuts r = close_pools-Reaches r.pools

  -- However the calls of handlers, refresh timers and the end of the program interleave, the pool of
  -- each cluster is what a list of pool operations makes of the pool that it was.
  pub calls-Reaches : (cs : List Call) (r : Resolver) → Reaches r.pools (calls cs r).pools
  unfolding calls
  calls-Reaches [] r = Reaches-refl r.pools
  calls-Reaches (c ∷ cs) r =
      Reaches-trans r.pools _ _ (call-Reaches c r) (calls-Reaches cs (call c r))

  pub calls-append :
      (cs more : List Call) (r : Resolver) → calls (cs ++ more) r ≡ calls more (calls cs r)
  unfolding calls
  calls-append [] more r = refl
  calls-append (c ∷ cs) more r = calls-append cs more (call c r)
