-- ===== src/GrpcError.antt =====
-- MyGateway/service/grpc_error.go, and the errors that the gateway's parts return. `status` is an
-- error of the gRPC library with its code and message, `sentinel` one of the gateway's `errors.New`
-- values, `wrap` is `fmt.Errorf("%w: ...")` round an error, and `other` stands for all the rest.
-- The library's `status.FromError` is a parameter, `none` for its `ok == false`.
pub mod Table
use grpc_api_gateway_session.Prelude.{String, Bool, true, false, Option, none, some, if◌then◌else◌}

-- The codes of gRPC.
pub data Code : Type 0 where
  ok_code canceled unknown invalid_argument deadline_exceeded not_found already_exists : Code
  permission_denied resource_exhausted failed_precondition aborted out_of_range : Code
  unimplemented internal unavailable data_loss unauthenticated : Code

pub data Sentinel : Type 0 where
  err_conn_pool_closed err_no_available_conn_instance : Sentinel
  err_generic_unknown_cluster err_sticky_key_required : Sentinel

pub data Error : Type 0 where
  status : Code → String → Error
  sentinel : Sentinel → Error
  wrap : String → Error → Error
  other : String → Error

abbrev pub msg_all_instances_busy : String
msg_all_instances_busy = "all instances are busy"

abbrev pub msg_backend_unavailable : String
msg_backend_unavailable = "backend service unavailable"

abbrev pub msg_missing_or_invalid_token : String
msg_missing_or_invalid_token = "missing or invalid token"

abbrev pub same_sentinel : Sentinel → Sentinel → Bool
same_sentinel err_conn_pool_closed err_conn_pool_closed = true
same_sentinel err_no_available_conn_instance err_no_available_conn_instance = true
same_sentinel err_generic_unknown_cluster err_generic_unknown_cluster = true
same_sentinel err_sticky_key_required err_sticky_key_required = true
same_sentinel _ _ = false

-- `errors.Is`
unfoldable pub errors_is : Error → Sentinel → Bool
errors_is (status c m) s = false
errors_is (sentinel t) s = same_sentinel t s
errors_is (wrap text e) s = errors_is e s
errors_is (other text) s = false

-- `s.Err()`: a status with code OK is no error.
abbrev pub status_err : Code → String → Option Error
status_err ok_code m = none
status_err c m = some (status c m)

abbrev pub is_unavailable : Code → Bool
is_unavailable unavailable = true
is_unavailable _ = false

abbrev pub is_unknown : Code → Bool
is_unknown unknown = true
is_unknown _ = false

-- The `switch` at the end of `gatewayErrorToGRPC`.
unfoldable pub from_sentinel : Error → Error
unfolding errors_is
from_sentinel e =
    if errors_is e err_no_available_conn_instance
    then status resource_exhausted msg_all_instances_busy
    else if errors_is e err_sticky_key_required
    then status unauthenticated msg_missing_or_invalid_token
    else status unavailable msg_backend_unavailable

module _ (from_error : Error → Option (Code × String)) where
  -- `status.Code(err)` of a non-nil error
  unfoldable pub code_of : Error → Code
  code_of e = elim (from_error e) [ none ↦ unknown | some (c, m) ↦ c ]

  -- `none` is the nil error
  unfoldable pub gateway_error_to_grpc : Option Error → Option Error
  unfolding from_sentinel code_of
  gateway_error_to_grpc none = none
  gateway_error_to_grpc (some e) =
      if is_unavailable (code_of e)
      then some (status unavailable msg_backend_unavailable)
      else elim (from_error e) [
        | none ↦ some (from_sentinel e)
        | some (c, m) ↦ if is_unknown c then some (from_sentinel e) else status_err c m
      ]

  -- The interceptor runs the handler and maps its error; what it logs is left out.
  unfoldable pub stream_interceptor {ℓ} :
      {S : Type ℓ} → (S → Option Error × S) → S → Option Error × S
  unfolding gateway_error_to_grpc
  stream_interceptor handler s = let (e, s') = handler s in (gateway_error_to_grpc e, s')
