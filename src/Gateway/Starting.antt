-- ===== src/Gateway/Starting.antt =====
-- How the gateway starts.
use mathlib.Core.Option.{some-injective}
use grpc_api_gateway_session.Prelude.{
  ◌≡◌, refl, sym, ◌≢◌, inl, inr, String, true, false, Option, none, some, List, [], ◌∷◌, ◌==◌,
  eq_iff, Result, ok, lookup, insert, lookup-insert, lookup-insert_self, insert-found, All-lookup,
  All, arith, Bool-cases, is_positive,
}
use grpc_api_gateway_session.Domain.{
  ServiceInstance, ClusterId, ClusterConfig, cluster_type_static, cluster_type_dynamic,
}
use grpc_api_gateway_session.RouteMatcher.Longest.{built}
use grpc_api_gateway_session.Token.{Codecs}
use grpc_api_gateway_session.Pool.{Conn, Pool, new_connection_pool}
use grpc_api_gateway_session.Resolver.Known.{IsKnown}
use grpc_api_gateway_session.Config.{Config, YamlConfig, load_config}
use grpc_api_gateway_session.Config.Clusters.{IsUsable}
use grpc_api_gateway_session.Config.Loading.{load_config-IsReady}
use grpc_api_gateway_session.Config.Routing.{new_route_matcher-IsReady}
use grpc_api_gateway_session.Gateway.{
  Startup, running, ◌>>=◌, str_panic, discoverer_http, refresh_loop, Connections, Network,
  static_cluster, dynamic_cluster, connect_cluster, connect_clusters, Gateway, gateway_of, start,
}

abbrev Knows : Connections → ClusterId → Type 0
Knows cs id = IsKnown cs.static_conns cs.dynamic_pools id

-- Every pool is as it was made.
abbrev pub AreFresh : List (ClusterId × Pool) → Type 0
AreFresh pools =
    (id : ClusterId) (p : Pool)
    → lookup id pools ≡ some p
    → (first : Option (List ServiceInstance)) × (p ≡ new_connection_pool first)

-- A step of the loop over the clusters.
record Joins (cs cs' : Connections) : Type 0 where
  grows : (id : ClusterId) → Knows cs id → Knows cs' id
  stays_fresh : AreFresh cs.dynamic_pools → AreFresh cs'.dynamic_pools

Joins-refl : (cs : Connections) → Joins cs cs
Joins-refl cs = record { grows = λ id h. h; stays_fresh = λ h. h }

Joins-trans : (a b c : Connections) → Joins a b → Joins b c → Joins a c
Joins-trans a b c f g = record {
  grows = λ id h. g.grows id (f.grows id h);
  stays_fresh = λ h. g.stays_fresh (f.stays_fresh h);
}

add_static-Joins :
    (id : ClusterId) (c : Conn) (cs : Connections)
    → Joins cs (record cs { static_conns = insert id c cs.static_conns })
add_static-Joins id c cs = record { grows = keeps; stays_fresh = λ h. h }
  where
    keeps : (j : ClusterId) → Knows cs j → IsKnown (insert id c cs.static_conns) cs.dynamic_pools j
    keeps j (inl (d, h)) = inl (insert-found id j c cs.static_conns h)
    keeps j (inr h) = inr h

insert-AreFresh :
    (id : ClusterId) (first : Option (List ServiceInstance)) (pools : List (ClusterId × Pool))
    → AreFresh pools
    → AreFresh (insert id (new_connection_pool first) pools)
insert-AreFresh id first pools fresh j p h = elim (Bool-cases (id == j)) [
  | inl e ↦ (
    first,
    sym (
        some-injective (new_connection_pool first) p
          (rw (lookup-insert id j (new_connection_pool first) pools, e) at h)),
  )
  | inr e ↦ fresh j p (rw (lookup-insert id j (new_connection_pool first) pools, e) at h)
]

add_pool-Joins :
    (id : ClusterId) (first : Option (List ServiceInstance)) (cs : Connections)
    → Joins cs
        (record cs { dynamic_pools = insert id (new_connection_pool first) cs.dynamic_pools })
add_pool-Joins id first cs = record {
  grows = keeps;
  stays_fresh = insert-AreFresh id first cs.dynamic_pools;
}
  where
    keeps :
        (j : ClusterId)
        → Knows cs j
        → IsKnown cs.static_conns (insert id (new_connection_pool first) cs.dynamic_pools) j
    keeps j (inl h) = inl h
    keeps j (inr (p, h)) = inr (insert-found id j (new_connection_pool first) cs.dynamic_pools h)

module _ (net : Network) where
  -- A gRPC client is made for the address of a static cluster.
  abbrev pub IsReachable : ClusterConfig → Type 0
  IsReachable c = c.kind ≡ cluster_type_static → net.new_client c.address ≢ none

  abbrev Connects : (Connections → Type 0) → Connections → Startup Connections → Type 0
  Connects P cs result = (cs' : Connections) × (result ≡ running cs') × Joins cs cs' × P cs'

  static_cluster-Connects :
      (id : ClusterId) (found : Option Conn) (cs : Connections)
      → found ≢ none
      → Connects (λ cs'. Knows cs' id) cs (static_cluster net id found cs)
  unfolding static_cluster
  static_cluster-Connects id none cs ne = absurd (ne refl)
  static_cluster-Connects id (some c) cs ne = (
    record cs { static_conns = insert id c cs.static_conns },
    refl,
    add_static-Joins id c cs,
    inl (c, lookup-insert_self id c cs.static_conns),
  )

  dynamic_cluster-Connects :
      (id : ClusterId) (c : ClusterConfig) (cs : Connections)
      → c.discoverer_url ≢ ""
      → is_positive c.discoverer_interval ≡ true
      → Connects (λ cs'. Knows cs' id) cs (dynamic_cluster net id c cs)
  unfolding dynamic_cluster discoverer_http str_panic refresh_loop
  dynamic_cluster-Connects id c cs url ticks =
      let first : Option (List ServiceInstance) = net.discover c.discoverer_url in
      (
        record cs { dynamic_pools = insert id (new_connection_pool first) cs.dynamic_pools },
        ground (arith, eq_iff c.discoverer_url ""),
        add_pool-Joins id first cs,
        inr (new_connection_pool first, lookup-insert_self id _ cs.dynamic_pools),
      )

  connect_cluster-Connects :
      (id : ClusterId) (c : ClusterConfig) (cs : Connections)
      → IsUsable c
      → IsReachable c
      → Connects (λ cs'. Knows cs' id) cs (connect_cluster net id c cs)
  unfolding connect_cluster
  connect_cluster-Connects id c cs (inl (static, address)) reach =
      rw ((eq_iff c.kind cluster_type_static).1 static, connect_cluster)
        (static_cluster-Connects id (net.new_client c.address) cs (reach static))
  connect_cluster-Connects id c cs (inr (dynamic, url, ticks)) reach =
      let other : (c.kind == cluster_type_static) ≡ false = rw dynamic refl in
      rw (other, connect_cluster, (eq_iff c.kind cluster_type_dynamic).1 dynamic)
        (dynamic_cluster-Connects id c cs url ticks)

  connect_clusters-Connects :
      (clusters : List (ClusterId × ClusterConfig)) (cs : Connections)
      → All (λ (e : ClusterId × ClusterConfig). IsUsable e.1 × IsReachable e.1) clusters
      → Connects
          (λ cs'. All (λ (e : ClusterId × ClusterConfig). Knows cs' e.0) clusters)
          cs
          (connect_clusters net clusters cs)
  unfolding connect_clusters
  connect_clusters-Connects [] cs h = (cs, refl, Joins-refl cs, tt)
  connect_clusters-Connects ((id, c) ∷ rest) cs ((usable, reach), h) =
      let (cs', e, joins, known) = connect_cluster-Connects id c cs usable reach in
      let (cs'', d, joins', all_known) = connect_clusters-Connects rest cs' h in
      (
        cs'',
        rw (e, ◌>>=◌) d,
        Joins-trans cs cs' cs'' joins joins',
        (joins'.grows id known, all_known),
      )

-- What holds of the gateway that a configuration starts.
pub record IsStarted {Time : Type 0} (cfg : Config) (g : Gateway Time) : Type 0 where
  pub router : (now : Time) → (g.proxy now).router ≡ built cfg.routes
  pub known :
      All
        (λ (e : ClusterId × ClusterConfig). IsKnown g.resolver.static_conns g.resolver.pools e.0)
        cfg.clusters
  pub fresh : AreFresh g.resolver.pools

none-AreFresh : AreFresh []
unfolding lookup
none-AreFresh id p h = absurd (cc)

module _ (lib : Codecs) (net : Network) (getenv : String → String)
    (absolute : String → Option String) (load_yaml : String → Result String YamlConfig) where
  -- With a configuration that LoadConfig returns the gateway starts, if a client can be made for each
  -- static address and its port is free: no check exits and nothing panics. Then it routes by the
  -- routes of the configuration, every cluster of the configuration has its connection or pool, and
  -- every pool is new.
  pub start-IsStarted :
      (cfg : Config)
      → load_config getenv absolute load_yaml ≡ ok cfg
      → ((id : ClusterId) (c : ClusterConfig) → lookup id cfg.clusters ≡ some c → IsReachable net c)
      → net.listen cfg.grpc_port ≡ true
      → (g : Gateway lib.Time) × (start lib net (load_config getenv absolute load_yaml) ≡ running g)
        × IsStarted cfg g
  unfolding start
  start-IsStarted cfg loaded reach free =
      let ready = load_config-IsReady getenv absolute load_yaml cfg loaded in
      let (cs, e, joins, known) =
        connect_clusters-Connects net cfg.clusters
          (record { static_conns = []; dynamic_pools = [] })
          (All-lookup (λ id c. IsUsable c × IsReachable net c) cfg.clusters ready.unique
            (λ id c h. (ready.usable id c h, reach id c h))) in
      (
        gateway_of lib cfg (built cfg.routes) cs,
        rw (loaded, ◌>>=◌, new_route_matcher-IsReady cfg ready, e, free) refl,
        record { router = λ now. refl; known = known; fresh = joins.stays_fresh none-AreFresh },
      )
