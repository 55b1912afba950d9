-- ===== src/Domain.antt =====
-- MyGateway/domain: routes, clusters and instances, and the validation of the route config. The
-- string types of the source stay texts, since a value outside the named constants can occur.
pub mod Validation
use grpc_api_gateway_session.Prelude.{
  ℕ, suc, String, Bool, true, false, not, ◌&&◌, ◌||◌, Option, none, some, List, [], ◌∷◌, ◌==◌, ℤ,
  pos, negsuc, if◌then◌else◌,
}
use grpc_api_gateway_session.Text.{trim_space, begins_with}

pub record ServiceInstance : Type 0 where
  pub instance_id : String
  pub ipv4 : String
  pub port : ℤ
  pub assigned_client_session_id : String

abbrev pub ClusterId : Type 0
ClusterId = String

abbrev pub authorization_none : String
authorization_none = "none"

abbrev pub authorization_required : String
authorization_required = "required"

abbrev pub balancer_round_robin : String
balancer_round_robin = "round_robin"

abbrev pub balancer_sticky_session : String
balancer_sticky_session = "sticky_sessions"

-- domain.go
abbrev pub sticky_session_header : String
sticky_session_header = "session-id"

pub record BalancerConfig : Type 0 where
  pub kind : String
  pub header : String

pub record Route : Type 0 where
  pub prefix : String
  pub cluster : ClusterId
  pub authorization : String
  pub balancer : BalancerConfig

abbrev pub default_route_error : String
default_route_error = "error"

abbrev pub default_route_use_cluster : String
default_route_use_cluster = "use_cluster"

pub record DefaultRoute : Type 0 where
  pub action : String
  pub cluster : ClusterId

pub record RouteConfig : Type 0 where
  pub routes : List Route
  pub default_route : DefaultRoute

abbrev pub cluster_type_static : String
cluster_type_static = "static"

abbrev pub cluster_type_dynamic : String
cluster_type_dynamic = "dynamic"

-- The interval is in nanoseconds.
pub record ClusterConfig : Type 0 where
  pub kind : String
  pub address : String
  pub discoverer_url : String
  pub discoverer_interval : ℤ

pub record RouteConfigError : Type 0 where
  pub index : ℤ
  pub reason : String

abbrev fail_at : ℤ → String → Option RouteConfigError
fail_at i reason = some (record { index = i; reason = reason })

-- The two `switch` statements of the loop.
is_authorization : String → Bool
is_authorization a = a == "" || a == authorization_none || a == authorization_required

is_balancer_type : String → Bool
is_balancer_type b = b == "" || b == balancer_round_robin || b == balancer_sticky_session

lacks_header : BalancerConfig → Bool
lacks_header b = b.kind == balancer_sticky_session && trim_space b.header == ""

-- The body of the loop over the routes, at the route's index; `none` is to go on.
validate_route : ℕ → Route → Option RouteConfigError
validate_route i r =
    if r.prefix == ""
    then fail_at (pos i) "prefix must be non-empty"
    else if not (begins_with b'/' r.prefix)
    then fail_at (pos i) "prefix must start with /"
    else if not (is_authorization r.authorization)
    then fail_at (pos i) "authorization must be none|required"
    else if not (is_balancer_type r.balancer.kind)
    then fail_at (pos i) "balancer.type must be round_robin|sticky_sessions"
    else if lacks_header r.balancer
    then fail_at (pos i) "balancer.header is required for sticky_sessions"
    else none

-- -1 is the index of the default section.
validate_default : DefaultRoute → Option RouteConfigError
validate_default d =
    if d.action == "" || d.action == default_route_error
    then none
    else if d.action == default_route_use_cluster
    then (if d.cluster == ""
        then fail_at (negsuc 0) "default.cluster is required when default.action=use_cluster"
        else none)
    else fail_at (negsuc 0) "default.action must be error|use_cluster"

abbrev or_else {ℓ} : {A : Type ℓ} → Option A → Option A → Option A
or_else none y = y
or_else (some x) y = some x

validate_routes : ℕ → List Route → Option RouteConfigError
validate_routes i [] = none
validate_routes i (r ∷ rs) = or_else (validate_route i r) (validate_routes (suc i) rs)

-- `ValidateRouteConfig`: `none` is a nil error.
unfoldable pub validate_route_config : RouteConfig → Option RouteConfigError
unfolding is_authorization is_balancer_type lacks_header validate_route validate_default
    validate_routes
validate_route_config cfg =
    or_else (validate_routes 0 cfg.routes) (validate_default cfg.default_route)
