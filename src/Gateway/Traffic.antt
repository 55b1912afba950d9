-- ===== src/Gateway/Traffic.antt =====
-- The traffic of a gateway that was started: whole requests, the single calls of requests that run
-- at the same time, the refresh timers, and the end of the program.
use grpc_api_gateway_session.Prelude.{
  ℕ, ◌≡◌, refl, sym, ◌∙◌, ap, subst, inl, inr, String, Bool, true, Option, some, List, [], ◌∷◌,
  ◌++◌, Result, ok, lookup, lookup-All, All, Option-cases,
}
use grpc_api_gateway_session.Domain.{ServiceInstance, Route, ClusterId, ClusterConfig}
use grpc_api_gateway_session.Headers.{Metadata}
use grpc_api_gateway_session.RouteMatcher.{match}
use grpc_api_gateway_session.RouteMatcher.Longest.{Selects, built, match-Selects}
use grpc_api_gateway_session.Token.{Codecs}
use grpc_api_gateway_session.Pool.{Pool, run}
use grpc_api_gateway_session.Pool.Invariant.{IsValid, run-IsValid, new_connection_pool-IsValid}
use grpc_api_gateway_session.Resolver.{Resolver, get_connection}
use grpc_api_gateway_session.Resolver.Runs.{Call, calls, calls-append, calls-Reaches, call}
use grpc_api_gateway_session.Resolver.Known.{
  IsKnown, IsNotUnknown, get_connection-IsNotUnknown, calls-IsKnown,
}
use grpc_api_gateway_session.Proxy.{Env, World, handler}
use grpc_api_gateway_session.Proxy.Calls.{handler-Follows}
use grpc_api_gateway_session.Config.{Config, YamlConfig, load_config, is_defined}
use grpc_api_gateway_session.Config.Loading.{load_config-IsReady}
use grpc_api_gateway_session.Config.Routing.{
  LeadsToCluster, Selects-LeadsToCluster, new_route_matcher-IsReady,
}
use grpc_api_gateway_session.Gateway.{Network, Gateway}
use grpc_api_gateway_session.Gateway.Starting.{IsStarted}

-- What reaches the gateway. A request comes with what the network does to it and with the time.
pub data Event (Time : Type 0) : Type 0 where
  request : Env → Time → Option String → Metadata → Event Time
  single : Call → Event Time

module _ {Time : Type 0} (dial : ClusterId → ℕ → ServiceInstance → Bool) (g : Gateway Time) where
  unfoldable pub serve : Event Time → World → World
  serve (request env now method md) w =
      (handler (record env { dial = dial }) (g.proxy now) method md w).1
  serve (single c) w = record w { resolver = call dial c w.resolver }

  unfoldable pub serve_all : List (Event Time) → World → World
  unfolding serve
  serve_all [] w = w
  serve_all (e ∷ es) w = serve_all es (serve e w)

  serve-calls :
      (e : Event Time) (w : World)
      → (cs : List Call) × ((serve e w).resolver ≡ calls dial cs w.resolver)
  unfolding serve calls
  serve-calls (request env now method md) w =
      handler-Follows (record env { dial = dial }) (g.proxy now) method md w
  serve-calls (single c) w = (c ∷ [], refl)

  -- All that the traffic does to the resolver is calls of its methods.
  serve_all-calls :
      (es : List (Event Time)) (w : World)
      → (cs : List Call) × ((serve_all es w).resolver ≡ calls dial cs w.resolver)
  unfolding serve_all calls
  serve_all-calls [] w = ([], refl)
  serve_all-calls (e ∷ es) w =
      let (cs, h) = serve-calls e w in
      let (ds, k) = serve_all-calls es (serve e w) in
      (cs ++ ds, k ∙ ap (calls dial ds) h ∙ sym (calls-append dial cs ds w.resolver))

module _ (lib : Codecs) (net : Network) (getenv : String → String)
    (absolute : String → Option String) (load_yaml : String → Result String YamlConfig)
    (dial : ClusterId → ℕ → ServiceInstance → Bool) (cfg : Config) (g : Gateway lib.Time) where
  -- After any traffic the pool of every cluster is one that pool operations make of a new pool, and so
  -- it meets the invariant of the pool: no two sticky keys share an instance, no connection leaks or
  -- is closed twice.
  pub serve_all-IsValid :
      IsStarted cfg g
      → (es : List (Event lib.Time)) (w : World) → w.resolver ≡ g.resolver
      → (cluster : ClusterId) (p : Pool) → lookup cluster g.resolver.pools ≡ some p
      → (q : Pool) × (lookup cluster (serve_all dial g es w).resolver.pools ≡ some q) × IsValid q
  serve_all-IsValid started es w begins cluster p h =
      let (first, made) = started.fresh cluster p h in
      let (cs, e) = serve_all-calls dial g es w in
      let (ops, found) = calls-Reaches dial cs g.resolver cluster p h in
      (
        run (dial cluster) ops p,
        ap (λ r. lookup cluster r.pools) (e ∙ ap (calls dial cs) begins) ∙ found,
        run-IsValid (dial cluster) ops p
            (subst IsValid (sym made) (new_connection_pool-IsValid first)),
      )

  -- What is known, by way of a route that leads to a cluster of the configuration.
  leads-IsKnown :
      (route : Route) (r : Resolver)
      → All (λ (e : ClusterId × ClusterConfig). IsKnown r.static_conns r.pools e.0) cfg.clusters
      → is_defined cfg.clusters route.cluster ≡ true
      → IsKnown r.static_conns r.pools route.cluster
  leads-IsKnown route r known defined = elim (Option-cases (lookup route.cluster cfg.clusters)) [
    | inl e ↦ absurd (cc (rw (e, is_defined) at defined))
    | inr (c, e) ↦
        lookup-All (λ id. IsKnown r.static_conns r.pools id) route.cluster cfg.clusters e known
  ]

  -- After any traffic a request on a method that the started gateway routes is never refused with the
  -- error of an unknown cluster.
  pub serve_all-IsNotUnknown :
      load_config getenv absolute load_yaml ≡ ok cfg
      → IsStarted cfg g
      → (es : List (Event lib.Time)) (w : World) → w.resolver ≡ g.resolver
      → (now : lib.Time) (method : String) (md : Metadata) (route : Route)
      → match (g.proxy now).router method ≡ some route
      → IsNotUnknown (get_connection dial route md (serve_all dial g es w).resolver).0
  serve_all-IsNotUnknown loaded started es w begins now method md route found =
      let (cs, e) = serve_all-calls dial g es w in
      let ready = load_config-IsReady getenv absolute load_yaml cfg loaded in
      let leads : LeadsToCluster cfg (some route) =
        Selects-LeadsToCluster cfg method (some route) ready (
          subst (Selects cfg.routes method)
            (ap (λ m. match m method) (sym (started.router now)) ∙ found)
            (match-Selects cfg.routes (built cfg.routes) method
              (new_route_matcher-IsReady cfg ready))) in
      let known : IsKnown w.resolver.static_conns w.resolver.pools route.cluster =
        subst (λ r. IsKnown r.static_conns r.pools route.cluster) (sym begins)
          (leads-IsKnown route g.resolver started.known leads) in
      get_connection-IsNotUnknown dial route md (serve_all dial g es w).resolver (
        subst (λ r. IsKnown r.static_conns r.pools route.cluster) (sym e)
          (calls-IsKnown dial cs w.resolver route.cluster known))
