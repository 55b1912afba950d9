-- ===== src/Config/Clusters.antt =====
-- The clusters of a configuration that was loaded.
use mathlib.Core.Option.{some-injective}
use grpc_api_gateway_session.Prelude.{
  ◌≡◌, if_rule, ◌≢◌, ◌⊎◌, inl, inr, subst, String, true, not, ◌&&◌, some, List, [], ◌∷◌, ◌==◌,
  eq_iff, ok, is_positive, lookup, insert, lookup-insert, HasUniqueKeys, insert-HasUniqueKeys,
  Holds, bind-Holds, Holds-ok, arith, Bool-cases,
}
use grpc_api_gateway_session.Domain.{
  ClusterId, ClusterConfig, cluster_type_static, cluster_type_dynamic,
}
use grpc_api_gateway_session.Config.{YamlCluster, check_cluster, to_cluster, add_clusters}

-- A cluster that can be connected to.
abbrev pub IsUsable : ClusterConfig → Type 0
IsUsable c =
    ((c.kind ≡ cluster_type_static) × (c.address ≢ ""))
    ⊎ ((c.kind ≡ cluster_type_dynamic)
        × (c.discoverer_url ≢ "")
        × (is_positive c.discoverer_interval ≡ true))

abbrev pub AreUsable : List (ClusterId × ClusterConfig) → Type 0
AreUsable clusters =
    (name : ClusterId) (c : ClusterConfig) → lookup name clusters ≡ some c → IsUsable c

check_cluster-IsUsable : (name : String) (c : ClusterConfig) → Holds IsUsable (check_cluster name c)
unfolding check_cluster
check_cluster-IsUsable name c =
    if_rule (Holds IsUsable) (c.kind == cluster_type_static && c.address == "") _ _ (λ _. tt)
      λ p.
        if_rule (Holds IsUsable) (c.kind == cluster_type_dynamic && c.discoverer_url == "") _ _
          (λ _. tt)
          λ q.
            if_rule (Holds IsUsable)
              (c.kind == cluster_type_dynamic && not (is_positive c.discoverer_interval)) _ _
              (λ _. tt)
              λ r.
                if_rule (Holds IsUsable)
                  (not (c.kind == cluster_type_static) && not (c.kind == cluster_type_dynamic)) _
                  (ok c) (λ _. tt)
                  λ s. ground (
                    arith,
                    eq_iff c.kind cluster_type_static,
                    eq_iff c.kind cluster_type_dynamic,
                    eq_iff c.address "",
                    eq_iff c.discoverer_url "",
                  )

insert-AreUsable :
    (name : String) (c : ClusterConfig) (clusters : List (ClusterId × ClusterConfig))
    → IsUsable c
    → AreUsable clusters
    → AreUsable (insert name c clusters)
insert-AreUsable name c clusters h k other d e = elim (Bool-cases (name == other)) [
  | inl p ↦ subst IsUsable (some-injective c d (rw (lookup-insert name other c clusters, p) at e)) h
  | inr p ↦ k other d (rw (lookup-insert name other c clusters, p) at e)
]

pub none-AreUsable : AreUsable []
unfolding lookup
none-AreUsable name c f = absurd (cc f)

pub add_clusters-AreUsable :
    (clusters : List (ClusterId × ClusterConfig)) (yaml : List (String × YamlCluster))
    → AreUsable clusters
    → Holds AreUsable (add_clusters clusters yaml)
unfolding add_clusters
add_clusters-AreUsable clusters [] k = k
add_clusters-AreUsable clusters ((name, c) ∷ yaml) k =
    bind-Holds AreUsable (check_cluster name (to_cluster c)) _ λ checked e.
      add_clusters-AreUsable (insert name checked clusters) yaml (
        insert-AreUsable name checked clusters
          (Holds-ok IsUsable e (check_cluster-IsUsable name (to_cluster c))) k)

pub add_clusters-HasUniqueKeys :
    (clusters : List (ClusterId × ClusterConfig)) (yaml : List (String × YamlCluster))
    → HasUniqueKeys clusters
    → Holds HasUniqueKeys (add_clusters clusters yaml)
unfolding add_clusters
add_clusters-HasUniqueKeys clusters [] u = u
add_clusters-HasUniqueKeys clusters ((name, c) ∷ yaml) u =
    bind-Holds HasUniqueKeys (check_cluster name (to_cluster c)) _ λ checked e.
      add_clusters-HasUniqueKeys (insert name checked clusters) yaml
        (insert-HasUniqueKeys name checked clusters u)
