-- ===== src/Auth.antt =====
-- MyAuth: service/errors.go, service/grpc_error.go, adapters/redis/user_store.go and the Login of
-- handlers/grpc.go. Redis and its JSON are parameters: a `get` answers with the bytes, with
-- `redis.Nil`, or with an error. The time that `time.Now()` reads is an argument, and adding the
-- expiry to it a function. What the interceptor logs is left out.
pub mod Jwt
pub mod Login
pub mod Settings
use grpc_api_gateway_session.Prelude.{
  ℕ, String, Bool, true, false, not, Option, none, some, ◌==◌, Result, ok, err, if◌then◌else◌,
}
use Prim.Native.String
use grpc_api_gateway_session.GrpcError.{
  Code, unknown, invalid_argument, permission_denied, not_found, internal, Error, status,
}
use grpc_api_gateway_session.Token.{Bytes, Codecs}
use grpc_api_gateway_session.Auth.Jwt.{service_create_token}

abbrev pub err_internal_server_error : String
err_internal_server_error = "internal_server_error"

abbrev pub err_bad_parameter : String
err_bad_parameter = "bad_parameter"

abbrev pub err_entity_not_found : String
err_entity_not_found = "entity_not_found"

abbrev pub err_invalid_user_or_password : String
err_invalid_user_or_password = "invalid_user_or_password"

-- An `AuthError` with its code and message, without and with an inner error; an error that
-- `fmt.Errorf` wraps; and any other.
pub data Fault : Type 0 where
  auth_error : String → String → Fault
  auth_error_of : String → String → Fault → Fault
  wrapped : String → Fault → Fault
  other : String → Fault

-- `errors.As(err, &authErr)`: the first `AuthError` of the chain.
pub as_auth_error : Fault → Option (String × String)
as_auth_error (auth_error code message) = some (code, message)
as_auth_error (auth_error_of code message inner) = some (code, message)
as_auth_error (wrapped text inner) = as_auth_error inner
as_auth_error (other text) = none

abbrev has_code : String → Option (String × String) → Bool
has_code code none = false
has_code code (some (c, message)) = c == code

-- `IsEntityNotFound`
unfoldable pub is_entity_not_found : Fault → Bool
unfolding as_auth_error
is_entity_not_found e = has_code err_entity_not_found (as_auth_error e)

-- `authErrorCodeToGRPCCode`
pub auth_error_code_to_grpc_code : String → Code
auth_error_code_to_grpc_code code =
    if code == err_bad_parameter
    then invalid_argument
    else if code == err_invalid_user_or_password
    then permission_denied
    else if code == err_internal_server_error
    then internal
    else if code == err_entity_not_found
    then not_found
    else unknown

abbrev to_status : Option (String × String) → Error
to_status none = status unknown "internal error"
to_status (some (code, message)) = status (auth_error_code_to_grpc_code code) message

-- `AuthErrorToGRPC`, for an error and for nil.
pub auth_error_to_grpc : Option Fault → Option Error
unfolding as_auth_error auth_error_code_to_grpc_code
auth_error_to_grpc none = none
auth_error_to_grpc (some e) = some (to_status (as_auth_error e))

-- `AuthErrorToGRPCInterceptor` round a handler; a response of nil stands with an error.
unfoldable pub unary_interceptor : {A : Type 0} → Result Fault A → Result Error A
unfolding as_auth_error auth_error_code_to_grpc_code
unary_interceptor (ok a) = ok a
unary_interceptor (err e) = err (to_status (as_auth_error e))

pub record User : Type 0 where
  pub login : String
  pub password : String
  pub role : String

pub data RedisReply : Type 0 where
  found : Bytes → RedisReply
  missing : RedisReply
  failed : String → RedisReply

pub record LoginRequest : Type 0 where
  pub username : String
  pub password : String
  pub session_id : String

module _ (redis_get : String → RedisReply) (unmarshal : Bytes → Option User) where
  -- `GetByLogin`, the built-in user first.
  pub get_by_login : String → Result Fault User
  get_by_login login =
      if login == "TestUser"
      then ok (record { login = login; password = "TestPassword"; role = "admin" })
      else elim (redis_get (String.◌++◌ "external_user:" login)) [
        | missing ↦ err (auth_error_of err_entity_not_found "user not found" (other "redis: nil"))
        | failed text ↦ err (wrapped "failed to get user from redis" (other text))
        | found bytes ↦ elim (unmarshal bytes) [
          | none ↦ err (wrapped "failed to unmarshal user from redis" (other "json"))
          | some user ↦ ok user
        ]
      ]

pub record LoginResponse (Time : Type 0) : Type 0 where
  pub token : String
  pub expires_at : Time
  pub role : String

module _ (lib : Codecs) (secret : Bytes) (add_expiry : lib.Time → lib.Time) where
  -- The end of `Login`, for the user that was found.
  unfoldable pub issue : LoginRequest → lib.Time → User → Result Fault (LoginResponse lib.Time)
  issue req now user =
      if not (user.password == req.password)
      then err (auth_error err_invalid_user_or_password "invalid username or password")
      else elim (service_create_token lib secret user.login user.role req.session_id
          (add_expiry now) now) [
            | none ↦ err (
                auth_error_of err_internal_server_error "failed to create token"
                  (wrapped "marshal claims" (other "json")))
            | some token ↦
                ok (record { token = token; expires_at = add_expiry now; role = user.role })
          ]

  unfoldable pub with_user :
      LoginRequest → lib.Time → Result Fault User → Result Fault (LoginResponse lib.Time)
  unfolding issue is_entity_not_found
  with_user req now (ok user) = issue req now user
  with_user req now (err e) =
      if is_entity_not_found e
      then err (auth_error_of err_invalid_user_or_password "invalid username or password" e)
      else err (auth_error_of err_internal_server_error "failed to get user" e)

  -- `Login`, over the store's `GetByLogin`; `none` is a nil request.
  unfoldable pub login :
      (String → Result Fault User)
      → lib.Time
      → Option LoginRequest
      → Result Fault (LoginResponse lib.Time)
  unfolding with_user
  login store now none = err (auth_error err_bad_parameter "request is nil")
  login store now (some req) =
      if req.username == ""
      then err (auth_error err_bad_parameter "username is required")
      else if req.session_id == ""
      then err (auth_error err_bad_parameter "session_id is required")
      else with_user req now (store req.username)
