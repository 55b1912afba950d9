-- ===== src/Tests/Access.antt =====
-- A login at MyAuth and a request at the gateway, each program with its own environment.
use grpc_api_gateway_session.Prelude.{
  ℕ, suc, ◌+◌, ◌-◌, ◌≡◌, ◌↔◌, refl, String, Option, none, some, [], ◌∷◌, ◌==◌, ok, ℤ, pos, negsuc,
  if◌then◌else◌,
}
use grpc_api_gateway_session.Text.{trim_space}
use grpc_api_gateway_session.Text.Utf8.{bytes_of}
use grpc_api_gateway_session.Config.Numbers.{atoi}
use grpc_api_gateway_session.Headers.{Metadata, get_session_id, get_auth_token}
use grpc_api_gateway_session.Token
use grpc_api_gateway_session.Token.{sign}
use grpc_api_gateway_session.Proxy.Authorized.{auth_chain}
use grpc_api_gateway_session.Auth.{LoginResponse, login}
use grpc_api_gateway_session.Auth.Jwt.{service_create_token, parse_and_verify}
use grpc_api_gateway_session.Auth.Jwt.Agreement.{jwt_agrees}
use grpc_api_gateway_session.Auth.Settings.{AuthConfig, load_config, served_login}
use grpc_api_gateway_session.Auth.Settings.Reading.{IsConfigured, load_config_iff}
use grpc_api_gateway_session.Gateway.{jwt_validator}
use grpc_api_gateway_session.Gateway.Access.{login-auth_chain}
use grpc_api_gateway_session.Tests.Codes.{small, small-RoundTrips}
use grpc_api_gateway_session.Tests.Tokens.{users, request, token}
use grpc_api_gateway_session.Tests.Configs.{
  getenv_with, absolute, load_yaml, loaded, load_config_test,
}

abbrev auth_env : String → String
auth_env name =
    if name == "JWT_SECRET" then "key" else if name == "TOKEN_EXPIRATION" then "8ns" else ""

abbrev parse_duration : String → Option ℤ
parse_duration text = if text == "8ns" then some (pos 8) else none

abbrev auth : AuthConfig
auth = record {
  port = pos 5001;
  redis_addr = "redis://localhost:6379";
  jwt_secret = "key";
  token_expiration = pos 8;
}

auth_test : load_config auth_env parse_duration ≡ ok auth
unfolding load_config atoi
auth_test = refl

load_config_iff_example :
    (load_config auth_env parse_duration ≡ ok auth) ↔ IsConfigured auth_env parse_duration auth
load_config_iff_example = load_config_iff auth_env parse_duration auth

abbrev add : ℤ → ℕ → ℕ
add (pos n) t = t + n
add (negsuc n) t = t - suc n

abbrev key_token : String
key_token = sign small (bytes_of "key") (7 ∷ [])

abbrev answer : LoginResponse ℕ
answer = record { token = key_token; expires_at = 10; role = "user" }

login_test : served_login small add auth users 2 (some (request "pw")) ≡ ok answer
unfolding login service_create_token bytes_of
login_test = refl

abbrev md : Metadata
md key =
    if key == "session-id" then "s1" ∷ [] else if key == "authorization" then key_token ∷ [] else []

has_session : get_session_id md ≡ some "s1"
unfolding get_session_id
has_session = refl

has_token : get_auth_token md ≡ some key_token
unfolding get_auth_token trim_space bytes_of
has_token = refl

secret_trimmed : trim_space (getenv_with "8080" "JWT_SECRET") ≡ getenv_with "8080" "JWT_SECRET"
unfolding trim_space
secret_trimmed = refl

login-auth_chain_example :
    auth_chain (jwt_validator small loaded 5) loaded.routes md "/api.Shop/Buy" ≡ ok md
login-auth_chain_example =
    login-auth_chain small add auth_env parse_duration (getenv_with "8080") absolute load_yaml auth
      loaded users 2 5 10 (request "pw") answer md "/api.Shop/Buy" auth_test load_config_test refl
      secret_trimmed small-RoundTrips login_test refl refl has_session has_token

jwt_agrees_example :
    (service_create_token small (3 ∷ []) "ann" "user" "s1" 10 2
      ≡ Token.create_token small "ann" "user" "s1" 10 2 (3 ∷ []))
    × (parse_and_verify small token (3 ∷ []) ≡ Token.parse_and_verify small token (3 ∷ []))
jwt_agrees_example = jwt_agrees small (3 ∷ []) "ann" "user" "s1" token 10 2
