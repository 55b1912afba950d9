-- ===== src/RouteMatcher/Longest.antt =====
-- What `Match` selects: the route with the longest prefix, or the default.
use mathlib.Core.List.{Memᴰ}
use mathlib.Core.Option.{some-injective}
use text.Mathlib.Text.{starts_with}
use grpc_api_gateway_session.Prelude.{
  text-cases, if◌then◌else◌, ◌&&◌, ◌≡◌, refl, sym, subst, ◌≢◌, ◌⊎◌, inl, inr, String, true, false,
  Option, none, some, List, [], ◌∷◌, ◌==◌, eq_iff, All, All-weaken, arith, Bool-cases, Option-cases,
  ok,
}
use grpc_api_gateway_session.Domain.{
  Route, BalancerConfig, RouteConfig, authorization_none, authorization_required,
  balancer_round_robin, balancer_sticky_session, default_route_use_cluster, sticky_session_header,
  validate_route_config,
}
use grpc_api_gateway_session.Domain.Validation.{
  IsValidConfig, IsValidRoute, IsValidBalancer, validate_route_config_iff,
}
use grpc_api_gateway_session.RouteMatcher.{
  sort_by_len, first_prefix, RouteMatcher, prefix_of, new_route_matcher, default_auth,
  default_balancer, with_route_defaults, cluster_route, use_default, match,
}
use grpc_api_gateway_session.RouteMatcher.Sorting.{
  IsLongestFit, first_prefix-IsLongestFit, first_prefix-All, first_prefix-none,
  sort_by_len-IsSorted, sort_by_len-All, All-sort_by_len,
}

-- The matcher that a config is built into.
abbrev pub built : RouteConfig → RouteMatcher
built cfg = record { routes = sort_by_len prefix_of cfg.routes; def = cfg.default_route }

pub new_route_matcher-eq-ok :
    (cfg : RouteConfig) (m : RouteMatcher)
    → new_route_matcher cfg ≡ ok m
    → (validate_route_config cfg ≡ none) × (m ≡ built cfg)
unfolding new_route_matcher
new_route_matcher-eq-ok cfg m h = elim (Option-cases (validate_route_config cfg)) [
  | inl e ↦ (e, ground arith)
  | inr (x, e) ↦ absurd (ground arith)
]

abbrev pub HasNoFit : String → List Route → Type 0
HasNoFit method = All (λ r. starts_with method r.prefix ≡ false)

-- The routing rule, by the config alone.
pub data Selects (cfg : RouteConfig) (method : String) : Option Route → Type 0 where
  by_prefix :
      (r : Route)
      → Memᴰ r cfg.routes
      → IsLongestFit prefix_of method r cfg.routes
      → Selects cfg method (some (with_route_defaults r))
  by_default :
      HasNoFit method cfg.routes
      → cfg.default_route.action ≡ default_route_use_cluster
      → Selects cfg method (some (with_route_defaults (cluster_route cfg.default_route.cluster)))
  unrouted :
      HasNoFit method cfg.routes
      → cfg.default_route.action ≢ default_route_use_cluster
      → Selects cfg method none

All-members {ℓ} : {A : Type ℓ} (xs : List A) → All (λ x. Memᴰ x xs) xs
All-members [] = tt
All-members (x ∷ xs) = (Memᴰ.head refl, All-weaken (λ y m. Memᴰ.tail m) xs (All-members xs))

pub Memᴰ-All : (P : Route → Type 0) {x : Route} {xs : List Route} → Memᴰ x xs → All P xs → P x
Memᴰ-All P (Memᴰ.head e) h = subst P (sym e) h.0
Memᴰ-All P (Memᴰ.tail m) h = Memᴰ-All P m h.1

default-Selects :
    (cfg : RouteConfig) (method : String)
    → HasNoFit method cfg.routes
    → Selects cfg method (use_default cfg.default_route)
unfolding use_default
default-Selects cfg method misses =
    elim (Bool-cases (cfg.default_route.action == default_route_use_cluster)) [
      | inl e ↦ rw (e, use_default) (by_default misses ((eq_iff _ _).0 e))
      | inr e ↦
          rw (e, use_default)
            (unrouted misses
              (ground (arith, eq_iff cfg.default_route.action default_route_use_cluster)))
    ]

match-built : (cfg : RouteConfig) (method : String) → Selects cfg method (match (built cfg) method)
unfolding match
match-built cfg method =
    elim (Option-cases (first_prefix prefix_of method (sort_by_len prefix_of cfg.routes))) [
      | inl e ↦
          rw (e, match)
            (default-Selects cfg method (
              All-sort_by_len prefix_of _ cfg.routes
                (first_prefix-none prefix_of method (sort_by_len prefix_of cfg.routes) e)))
      | inr (r, e) ↦
          let (fits, longest) =
            first_prefix-IsLongestFit prefix_of method r (sort_by_len prefix_of cfg.routes)
              (sort_by_len-IsSorted prefix_of cfg.routes) e in
          rw (e, match)
            (by_prefix r
              (first_prefix-All prefix_of (λ x. Memᴰ x cfg.routes) method r _
                (sort_by_len-All prefix_of _ cfg.routes (All-members cfg.routes)) e)
              (fits, All-sort_by_len prefix_of _ cfg.routes longest))
    ]

-- A matcher that was built from a config answers by the routing rule: if a prefix in the config
-- fits the method, with a route of the config whose prefix fits and is as long as any that fits,
-- and otherwise with the default cluster or not at all, as the default section says.
pub match-Selects :
    (cfg : RouteConfig) (m : RouteMatcher) (method : String)
    → new_route_matcher cfg ≡ ok m
    → Selects cfg method (match m method)
match-Selects cfg m method h =
    subst (λ x. Selects cfg method (match x method)) (sym (new_route_matcher-eq-ok cfg m h).1)
      (match-built cfg method)

-- A route that has every field that the proxy reads.
pub record IsComplete (r : Route) : Type 0 where
  pub auth : (r.authorization ≡ authorization_none) ⊎ (r.authorization ≡ authorization_required)
  pub balancing :
      (r.balancer.kind ≡ balancer_round_robin)
      ⊎ ((r.balancer.kind ≡ balancer_sticky_session) × (r.balancer.header ≢ ""))

default_auth_known :
    (a : String)
    → (a ≡ "") ⊎ (a ≡ authorization_none) ⊎ (a ≡ authorization_required)
    → (default_auth a ≡ authorization_none) ⊎ (default_auth a ≡ authorization_required)
unfolding default_auth
default_auth_known a (inl e) = inl (rw e refl)
default_auth_known a (inr (inl e)) = inl (rw e refl)
default_auth_known a (inr (inr e)) = inr (rw e refl)

default_balancer_known :
    (b : BalancerConfig)
    → IsValidBalancer b
    → ((default_balancer b).kind ≡ balancer_round_robin)
      ⊎ (((default_balancer b).kind ≡ balancer_sticky_session) × ((default_balancer b).header ≢ ""))
unfolding default_balancer
default_balancer_known b (inl e) = inl (rw e refl)
default_balancer_known b (inr (inl e)) = inl (rw e refl)
default_balancer_known b (inr (inr (e, h))) = inr (rw e refl, rw e (header_given b.header))
  where
    header_given : (h : String) → (if true && h == "" then sticky_session_header else h) ≢ ""
    header_given h = elim (text-cases h "") [
      | inl (t, _) ↦ rw t (ground (arith, eq_iff sticky_session_header ""))
      | inr (t, ne) ↦ rw t ne
    ]

with_route_defaults-IsComplete : (r : Route) → IsValidRoute r → IsComplete (with_route_defaults r)
unfolding with_route_defaults
with_route_defaults-IsComplete r v = record {
  auth = default_auth_known r.authorization v.auth;
  balancing = default_balancer_known r.balancer v.balancing;
}

Selects-IsComplete :
    (cfg : RouteConfig) (method : String) {found : Option Route} (r : Route)
    → IsValidConfig cfg
    → Selects cfg method found
    → found ≡ some r
    → IsComplete r
unfolding with_route_defaults default_auth default_balancer
Selects-IsComplete cfg method r v (by_prefix x listed fits) e =
    subst IsComplete (some-injective _ r e)
      (with_route_defaults-IsComplete x (Memᴰ-All IsValidRoute listed v.routes))
Selects-IsComplete cfg method r v (by_default misses act) e =
    subst IsComplete (some-injective _ r e) (record { auth = inl refl; balancing = inl refl })
Selects-IsComplete cfg method r v (unrouted misses act) e = cc

-- Every route that a matcher built from a config returns says none or required for authorization,
-- and round robin, or sticky sessions with a header, for balancing: no field is left for the proxy
-- to guess.
pub match-IsComplete :
    (cfg : RouteConfig) (m : RouteMatcher) (method : String) (r : Route)
    → new_route_matcher cfg ≡ ok m
    → match m method ≡ some r
    → IsComplete r
match-IsComplete cfg m method r h e =
    Selects-IsComplete cfg method r
      ((validate_route_config_iff cfg).0 (new_route_matcher-eq-ok cfg m h).0)
      (match-Selects cfg m method h) e
