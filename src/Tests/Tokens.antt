-- ===== src/Tests/Tokens.antt =====
-- Tokens, logins and the auth processor.
use grpc_api_gateway_session.Prelude.{
  ℕ, ◌+◌, ◌≡◌, refl, ◌≢◌, String, Bool, true, false, some, List, [], ◌∷◌, ◌==◌, Result, ok, err,
  if◌then◌else◌, ◌↔◌, ◌⊎◌, ◌&&◌, ne_text,
}
use grpc_api_gateway_session.Domain.{authorization_required}
use grpc_api_gateway_session.RouteMatcher.{first_prefix}
use grpc_api_gateway_session.Text.{trim_space, split_n}
use grpc_api_gateway_session.Token.{
  Bytes, create_token, parse_and_verify, validate_token, err_invalid_token_format,
  err_invalid_signature,
}
use grpc_api_gateway_session.Token.Verify.{
  IsSigned, parse_and_verify_iff, parse_and_verify-create_token,
}
use grpc_api_gateway_session.Token.Validate.{IsLive, validate_token_iff}
use grpc_api_gateway_session.Headers.{
  Metadata, mode_for, get_session_id, get_auth_token, AuthRule, process_auth,
}
use grpc_api_gateway_session.Headers.Gate.{IsAuthorized, process_auth_iff}
use grpc_api_gateway_session.Auth.{
  is_entity_not_found, Fault, auth_error, User, LoginRequest, LoginResponse, login,
  unary_interceptor,
}
use grpc_api_gateway_session.Auth.Jwt.{service_create_token}
use grpc_api_gateway_session.Auth.Login.{
  IsGranted, login_iff, login-validate_token, login-unary_interceptor,
}
use grpc_api_gateway_session.Tests.Codes.{small, small-RoundTrips, ann}

abbrev secret : Bytes
secret = 3 ∷ []

-- 7 and then 3, 7 in unary.
abbrev pub token : String
token = "aaaaaaab.aaabaaaaaaab"

create_token_test : create_token small "ann" "user" "s1" 10 2 secret ≡ some token
unfolding create_token
create_token_test = refl

parse_test : parse_and_verify small "aaaaaaab.aaab.aaab" secret ≡ err err_invalid_token_format
unfolding parse_and_verify split_n
parse_test = refl

forged_test : parse_and_verify small "aaaaaaab.aaaab" secret ≡ err err_invalid_signature
unfolding parse_and_verify split_n
forged_test = refl

parse_and_verify-create_token_example : parse_and_verify small token secret ≡ ok ann
parse_and_verify-create_token_example =
    parse_and_verify-create_token small "ann" "user" "s1" 10 2 secret token small-RoundTrips
      create_token_test

parse_and_verify_iff_example :
    (parse_and_verify small token secret ≡ ok ann) ↔ IsSigned small secret token ann
parse_and_verify_iff_example = parse_and_verify_iff small token secret ann

validate_token_iff_example :
    (validate_token small secret 5 "s1" token ≡ true) ↔ IsLive small secret 5 "s1" token
validate_token_iff_example = validate_token_iff small secret 5 "s1" token

abbrev by_token : String → String → Result String Bool
by_token session_id t = ok (session_id == "s1" && t == token)

abbrev signed_in : Metadata
signed_in key =
    if key == "session-id" then "s1" ∷ [] else if key == "authorization" then token ∷ [] else []

abbrev rules : List AuthRule
rules = record { prefix = "/api.Shop/"; authorization = "required" } ∷ []

process_auth_test : process_auth by_token rules signed_in "/api.Shop/Buy" ≡ ok signed_in
unfolding process_auth mode_for first_prefix get_session_id get_auth_token trim_space
process_auth_test = refl

process_auth_iff_example :
    (process_auth by_token rules signed_in "/api.Shop/Buy" ≡ ok signed_in) ↔ (
      (signed_in ≡ signed_in)
      × ((mode_for rules "/api.Shop/Buy" ≢ authorization_required)
          ⊎ IsAuthorized by_token signed_in))
process_auth_iff_example = process_auth_iff by_token rules signed_in signed_in "/api.Shop/Buy"

abbrev in_an_hour : ℕ → ℕ
in_an_hour now = now + 8

abbrev pub no_user : Fault
no_user = auth_error "entity_not_found" "user not found"

abbrev pub users : String → Result Fault User
users name =
    if name == "ann"
    then ok (record { login = "ann"; password = "pw"; role = "user" })
    else err no_user

abbrev nobody : String → Result Fault User
nobody name = err no_user

no_user_test : is_entity_not_found no_user ≡ true
unfolding is_entity_not_found
no_user_test = refl

wrong : ◌≢◌ {A = String} "pw" "no"
wrong = ne_text "pw" "no" refl

abbrev pub request : String → LoginRequest
request password = record { username = "ann"; password = password; session_id = "s1" }

abbrev answer : LoginResponse ℕ
answer = record { token = token; expires_at = 10; role = "user" }

login_test : login small secret in_an_hour users 2 (some (request "pw")) ≡ ok answer
unfolding login service_create_token
login_test = refl

login_iff_example :
    (login small secret in_an_hour users 2 (some (request "pw")) ≡ ok answer)
    ↔ IsGranted small secret in_an_hour users 2 (request "pw") answer
login_iff_example = login_iff small secret in_an_hour users 2 (request "pw") answer

login-validate_token_example :
    validate_token small secret 5 "s1" token ≡ (if small.after 5 10 then false else "s1" == "s1")
login-validate_token_example =
    login-validate_token small secret in_an_hour users 2 5 10 (request "pw") answer "s1"
      small-RoundTrips refl login_test

login-unary_interceptor_example :
    unary_interceptor (login small secret in_an_hour nobody 2 (some (request "no")))
    ≡ unary_interceptor (login small secret in_an_hour users 2 (some (request "no")))
login-unary_interceptor_example =
    login-unary_interceptor small secret in_an_hour nobody users 2 (request "no") no_user
      (record { login = "ann"; password = "pw"; role = "user" }) refl no_user_test refl wrong
