-- ===== src/Domain/Validation.antt =====
-- What a route config must be like for `ValidateRouteConfig` to pass it.
use grpc_api_gateway_session.Prelude.{
  ℕ, suc, ◌≡◌, refl, ◌≢◌, ◌↔◌, ◌⊎◌, inl, inr, String, true, false, none, List, [], ◌∷◌, eq_iff, All,
  arith,
}
use grpc_api_gateway_session.Text.{trim_space, begins_with}
use grpc_api_gateway_session.Domain.{
  Route, BalancerConfig, DefaultRoute, RouteConfig, authorization_none, authorization_required,
  balancer_round_robin, balancer_sticky_session, default_route_error, default_route_use_cluster,
  is_authorization, is_balancer_type, lacks_header, validate_route, validate_routes,
  validate_default, validate_route_config,
}

abbrev pub IsValidBalancer : BalancerConfig → Type 0
IsValidBalancer b =
    (b.kind ≡ "")
    ⊎ (b.kind ≡ balancer_round_robin)
    ⊎ ((b.kind ≡ balancer_sticky_session) × (trim_space b.header ≢ ""))

pub record IsValidRoute (r : Route) : Type 0 where
  pub slash : begins_with b'/' r.prefix ≡ true
  pub auth :
      (r.authorization ≡ "")
      ⊎ (r.authorization ≡ authorization_none)
      ⊎ (r.authorization ≡ authorization_required)
  pub balancing : IsValidBalancer r.balancer

abbrev pub IsValidDefault : DefaultRoute → Type 0
IsValidDefault d =
    (d.action ≡ "")
    ⊎ (d.action ≡ default_route_error)
    ⊎ ((d.action ≡ default_route_use_cluster) × (d.cluster ≢ ""))

pub record IsValidConfig (cfg : RouteConfig) : Type 0 where
  pub routes : All IsValidRoute cfg.routes
  pub default_route : IsValidDefault cfg.default_route

slash-ne-empty : (s : String) → begins_with b'/' s ≡ true → s ≢ ""
unfolding begins_with
slash-ne-empty s h e = cc (rw e at h)

is_authorization_iff :
    (a : String)
    → (is_authorization a ≡ true)
      ↔ ((a ≡ "") ⊎ (a ≡ authorization_none) ⊎ (a ≡ authorization_required))
unfolding is_authorization
is_authorization_iff a = (
  λ h. ground (arith, eq_iff a "", eq_iff a authorization_none, eq_iff a authorization_required),
  elim [ inl e ↦ rw e | inr h ↦ elim h [ inl e ↦ rw e | inr e ↦ rw e ] ],
)

balancer_ok :
    (b : BalancerConfig)
    → is_balancer_type b.kind ≡ true
    → lacks_header b ≡ false
    → IsValidBalancer b
unfolding is_balancer_type lacks_header
balancer_ok b h k = ground (
  arith,
  eq_iff b.kind "",
  eq_iff b.kind balancer_round_robin,
  eq_iff b.kind balancer_sticky_session,
  eq_iff (trim_space b.header) "",
)

ok_balancer :
    (b : BalancerConfig)
    → IsValidBalancer b
    → (is_balancer_type b.kind ≡ true) × (lacks_header b ≡ false)
unfolding is_balancer_type lacks_header
ok_balancer b (inl e) = (rw e refl, rw e refl)
ok_balancer b (inr (inl e)) = (rw e refl, rw e refl)
ok_balancer b (inr (inr (e, h))) = (rw e refl, ground (arith, eq_iff (trim_space b.header) ""))

validate_route-IsValidRoute : (i : ℕ) (r : Route) → validate_route i r ≡ none → IsValidRoute r
unfolding validate_route
validate_route-IsValidRoute i r h = record {
  slash = ground arith;
  auth = (is_authorization_iff r.authorization).0 (ground arith);
  balancing = balancer_ok r.balancer (ground arith) (ground arith);
}

IsValidRoute-validate_route : (i : ℕ) (r : Route) → IsValidRoute r → validate_route i r ≡ none
unfolding validate_route
IsValidRoute-validate_route i r v =
    let auth = (is_authorization_iff r.authorization).1 v.auth in
    let (kind, header) = ok_balancer r.balancer v.balancing in
    ground (arith, eq_iff r.prefix "", slash-ne-empty r.prefix v.slash, v.slash, auth, kind, header)

validate_routes_iff :
    (i : ℕ) (rs : List Route) → (validate_routes i rs ≡ none) ↔ All IsValidRoute rs
unfolding validate_routes
validate_routes_iff i [] = (λ _. tt, λ _. refl)
validate_routes_iff i (r ∷ rs) = (
  λ h. (
    validate_route-IsValidRoute i r (ground arith),
    (validate_routes_iff (suc i) rs).0 (ground arith),
  ),
  λ v. ground (arith, IsValidRoute-validate_route i r v.0, (validate_routes_iff (suc i) rs).1 v.1),
)

validate_default_iff : (d : DefaultRoute) → (validate_default d ≡ none) ↔ IsValidDefault d
unfolding validate_default
validate_default_iff d = (
  λ h. ground (
    arith,
    eq_iff d.action "",
    eq_iff d.action default_route_error,
    eq_iff d.action default_route_use_cluster,
    eq_iff d.cluster "",
  ),
  elim [
    | inl e ↦ rw e
    | inr h ↦ elim h [ inl e ↦ rw e | inr (e, k) ↦ rw e (ground (arith, eq_iff d.cluster "")) ]
  ],
)

-- The validation passes exactly the configs all of whose routes have a prefix that starts with a
-- slash, a known authorization mode and a known balancer with a header where it needs one, and
-- whose default section is an error or names a cluster.
pub validate_route_config_iff :
    (cfg : RouteConfig) → (validate_route_config cfg ≡ none) ↔ IsValidConfig cfg
unfolding validate_route_config
validate_route_config_iff cfg = (
  λ h. record {
    routes = (validate_routes_iff 0 cfg.routes).0 (ground arith);
    default_route = (validate_default_iff cfg.default_route).0 (ground arith);
  },
  λ v. ground (
    arith,
    (validate_routes_iff 0 cfg.routes).1 v.routes,
    (validate_default_iff cfg.default_route).1 v.default_route,
  ),
)
