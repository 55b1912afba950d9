-- ===== src/Discoverer/Server.antt =====
-- MyDiscoverer/handlers: http.go, converters_from.go and converters_to.go, with the types of
-- MyDiscoverer/domain. A request that echo could not bind is an error in its place. A handler that
-- ends well answers 200.
use grpc_api_gateway_session.Prelude.{
  String, Bool, false, Option, none, some, List, ◌==◌, Result, ok, err, ℤ, pos, negsuc, map, nat_eq,
  is_positive, if◌then◌else◌,
}
use grpc_api_gateway_session.Token.{Bytes}
use grpc_api_gateway_session.Discoverer.{Fault, wrapped, err_bad_parameter, new_error}
use grpc_api_gateway_session.Discoverer.Cache.{Redis, write_value, delete_value, list_all_values}

-- The request has the same fields as the instance. A time is a text, as it is stored.
pub record Instance : Type 0 where
  pub instance_id : String
  pub service_type : String
  pub ipv4 : String
  pub port : ℤ
  pub timestamp : String
  pub ttl_ms : ℤ

pub record InstanceInfo : Type 0 where
  pub instance_id : String
  pub ipv4 : String
  pub port : ℤ

unfoldable pub is_zero : ℤ → Bool
is_zero (pos n) = nat_eq n 0
is_zero (negsuc n) = false

to_info : Instance → InstanceInfo
to_info i = record { instance_id = i.instance_id; ipv4 = i.ipv4; port = i.port }

-- `toInstancesResponse`
unfoldable pub to_instances_response : List Instance → List InstanceInfo
unfolding to_info
to_instances_response instances = map to_info instances

module _ (unwraps : Bool) where
  unfoldable pub bad_parameter : String → Result Fault Instance
  bad_parameter message = err (new_error unwraps err_bad_parameter message none)

  unfoldable pub from_register_request : Instance → Result Fault Instance
  unfolding bad_parameter is_zero is_positive
  from_register_request req =
      if req.instance_id == ""
      then bad_parameter "instance_id is required"
      else if req.service_type == ""
      then bad_parameter "service_type is required"
      else if req.ipv4 == ""
      then bad_parameter "ipv4 is required"
      else if is_zero req.port
      then bad_parameter "port is required"
      else if is_positive req.ttl_ms
      then ok req
      else bad_parameter "ttl_ms is required"

module _ (unwraps : Bool) (redis : Redis) (prefix : String) (marshal : Instance → Option Bytes)
    (unmarshal : Bytes → Option Instance) where
  -- `fmt.Errorf("...: %w", err)` round the error of the cache.
  abbrev pub wrapping : String → Option Fault × redis.State → Option Fault × redis.State
  wrapping text (none, s) = (none, s)
  wrapping text (some e, s) = (some (wrapped text e), s)

  abbrev pub wrapping_list :
      String → Result Fault (List Instance) → Result Fault (List InstanceInfo)
  wrapping_list text (err e) = err (wrapped text e)
  wrapping_list text (ok instances) = ok (to_instances_response instances)

  unfoldable pub register_instance :
      Result Fault Instance → redis.State → Option Fault × redis.State
  unfolding from_register_request
  register_instance (err e) s =
      (some (new_error unwraps err_bad_parameter "invalid request body" (some e)), s)
  register_instance (ok req) s = elim (from_register_request unwraps req) [
    | err e ↦ (some (wrapped "registerInstance failed to convert request to instance" e), s)
    | ok instance_ ↦
        wrapping "registerInstance failed to write instance to cache" (
          write_value unwraps redis prefix marshal unmarshal req.instance_id instance_ req.ttl_ms s)
  ]

  unfoldable pub unregister_instance : String → redis.State → Option Fault × redis.State
  unregister_instance id s =
      wrapping "unregisterInstance failed to delete instance from cache"
        (delete_value unwraps redis prefix marshal unmarshal id s)

  unfoldable pub get_instances : redis.State → Result Fault (List InstanceInfo)
  get_instances s =
      wrapping_list "getInstances failed to list all instances from cache"
        (list_all_values unwraps redis prefix marshal unmarshal s)
