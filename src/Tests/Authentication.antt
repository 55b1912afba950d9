-- ===== src/Tests/Authentication.antt =====
-- The scenario of authentication errors against MyAuth and the gateway. The third time is such that
-- both logins are for one session, the only one that the codes have claims for.
use grpc_api_gateway_session.Prelude.{
  ℕ, ◌+◌, ◌≡◌, refl, ◌≢◌, ne_text, String, some, [], ◌∷◌, Result, ok, err,
}
use grpc_api_gateway_session.Text.{trim_space}
use grpc_api_gateway_session.Text.Utf8.{bytes_of}
use grpc_api_gateway_session.GrpcError.{Error, other, gateway_error_to_grpc}
use grpc_api_gateway_session.Headers.{Metadata}
use grpc_api_gateway_session.Token.{Codecs, sign}
use grpc_api_gateway_session.Auth
use grpc_api_gateway_session.Auth.{LoginResponse}
use grpc_api_gateway_session.Auth.Jwt.{service_create_token}
use grpc_api_gateway_session.Proxy.Authorized.{auth_chain}
use grpc_api_gateway_session.Gateway.{jwt_validator}
use grpc_api_gateway_session.Scenarios.{Client}
use grpc_api_gateway_session.Scenarios.LoginErrors.Passing.{answer}
use grpc_api_gateway_session.Scenarios.Authentication.{run_my_service_authentication_errors}
use grpc_api_gateway_session.Scenarios.Authentication.Passing.{
  GrantsReadable, run_my_service_authentication_errors-passes,
}
use grpc_api_gateway_session.Tests.Codes.{codes_in, codes_in-RoundTrips}
use grpc_api_gateway_session.Tests.Tokens.{users}
use grpc_api_gateway_session.Tests.Errors.{from_error, from_error-StatusLibrary}
use grpc_api_gateway_session.Tests.Configs.{loaded}
use grpc_api_gateway_session.Tests.Scenarios.{cfg, sent, echo_required}

abbrev session : String
session = "integration-test-session-session1-20260101000000"

abbrev codes : Codecs
codes = codes_in session

abbrev in_an_hour : ℕ → ℕ
in_an_hour now = now + 8

abbrev token : String
token = sign codes (bytes_of "key") (7 ∷ [])

abbrev granted : LoginResponse ℕ
granted = record { token = token; expires_at = 10; role = "user" }

login_test :
    Auth.login codes
      (bytes_of "key")
      in_an_hour
      users
      2
      (some (record { username = "ann"; password = "pw"; session_id = session }))
    ≡ ok granted
unfolding Auth.login service_create_token bytes_of
login_test = refl

token_test : (trim_space token ≡ token) × (token ≢ "")
unfolding trim_space bytes_of
token_test = (refl, ne_text token "" refl)

abbrev behind_chain : Result Error Metadata → Error
behind_chain (ok md) = other "no backend"
behind_chain (err e) = sent (gateway_error_to_grpc from_error (some e))

abbrev guarded : Client (Unit {0})
guarded = record {
  login = λ req s. (answer codes (bytes_of "key") in_an_hour users 2 req, s);
  echo = λ md value s. (
    err (behind_chain (auth_chain (jwt_validator codes loaded 5) loaded.routes md "/api.Shop/Buy")),
    s,
  );
  shutdown = λ md s. (err (other "no backend"), s);
}

readable :
    GrantsReadable codes
      (bytes_of "key")
      in_an_hour
      users
      2
      loaded
      5
      "/api.Shop/Buy"
      from_error
      from_error-StatusLibrary
      cfg
      session
readable = (granted, 10, login_test, token_test.1, ne_text "user" "" refl, token_test.0, refl)

run_my_service_authentication_errors-passes_example :
    run_my_service_authentication_errors from_error guarded cfg "20260101000000" "20260101000001"
      "session1-20260101000000" tt
    ≡ (ok tt, tt)
run_my_service_authentication_errors-passes_example =
    run_my_service_authentication_errors-passes codes (bytes_of "key") in_an_hour users 2 loaded 5
      "/api.Shop/Buy" from_error from_error-StatusLibrary guarded cfg tt (λ req s. refl)
      (λ md value s e out h g. rw (h, g) refl) echo_required (codes_in-RoundTrips session) refl
      "20260101000000" "20260101000001" "session1-20260101000000" readable readable
