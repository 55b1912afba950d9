-- ===== src/Tests/Scenarios.antt =====
-- The scenarios against small services.
use grpc_api_gateway_session.Prelude.{
  pos, ℕ, zero, suc, ◌+◌, ◌<◌, ◌≤◌, ◌≡◌, refl, ◌≢◌, ne_text, String, true, false, Option, none,
  some, [], ◌∷◌, ◌==◌, eq_iff, Result, ok, err, nat_eq, arith, if◌then◌else◌,
}
use grpc_api_gateway_session.GrpcError.{unavailable, Error, status, other, gateway_error_to_grpc}
use grpc_api_gateway_session.Domain.{authorization_required}
use grpc_api_gateway_session.RouteMatcher
use grpc_api_gateway_session.RouteMatcher.{first_prefix}
use grpc_api_gateway_session.Headers.{Metadata, auth_rules, mode_for}
use grpc_api_gateway_session.Token.{Bytes, Codecs}
use grpc_api_gateway_session.Auth
use grpc_api_gateway_session.Auth.{LoginRequest, Fault, User, LoginResponse, is_entity_not_found}
use grpc_api_gateway_session.Auth.Jwt.{service_create_token}
use grpc_api_gateway_session.Proxy.Authorized.{auth_chain}
use grpc_api_gateway_session.Gateway.{jwt_validator}
use grpc_api_gateway_session.Scenarios
use grpc_api_gateway_session.Scenarios.{
  echo_faults, ScenarioConfig, LoginReply, EchoReply, ShutdownReply, Run, Client, echo_value,
  signed_in, login,
}
use grpc_api_gateway_session.Scenarios.LoginErrors.{run_login_errors}
use grpc_api_gateway_session.Scenarios.LoginErrors.Passing.{answer, run_login_errors-passes}
use grpc_api_gateway_session.Scenarios.Unauthenticated.{run_gateway_error_unauthenticated}
use grpc_api_gateway_session.Scenarios.Unauthenticated.Passing.{
  Grants, run_gateway_error_unauthenticated-passes,
}
use grpc_api_gateway_session.Scenarios.Streams.{Received, message, ended, subscribe_stream}
use grpc_api_gateway_session.Scenarios.Streams.Reading.{GivesFrom, subscribe_stream-GivesFrom}
use grpc_api_gateway_session.Scenarios.Sticky.{numbered_session_id}
use grpc_api_gateway_session.Scenarios.Transfer.{run_session_transfer}
use grpc_api_gateway_session.Scenarios.Transfer.Passing.{
  IsTransferred, run_session_transfer-IsTransferred,
}
use grpc_api_gateway_session.Tests.Codes.{small}
use grpc_api_gateway_session.Tests.Tokens.{users, no_user}
use grpc_api_gateway_session.Tests.Errors.{from_error, from_error-StatusLibrary}
use grpc_api_gateway_session.Tests.Configs.{loaded}

-- Codes that encode every set of claims alike.
abbrev codes : Codecs
codes = record {
  Time = ℕ;
  after = small.after;
  format = small.format;
  parse = small.parse;
  marshal = λ c. some (7 ∷ []);
  unmarshal = small.unmarshal;
  base64_encode = small.base64_encode;
  base64_decode = small.base64_decode;
  hmac_sha256 = small.hmac_sha256;
}

abbrev secret : Bytes
secret = 3 ∷ []

abbrev in_an_hour : ℕ → ℕ
in_an_hour now = now + 8

abbrev pub sent : Option Error → Error
sent none = other "no error"
sent (some e) = e

-- No backend stands behind the header chain.
abbrev behind_chain : Result Error Metadata → Error
behind_chain (ok md) = other "no backend"
behind_chain (err e) = sent (gateway_error_to_grpc from_error (some e))

abbrev gated : Client (Unit {0})
gated = record {
  login = λ req s. (answer codes secret in_an_hour users 2 req, s);
  echo = λ md value s. (
    err (behind_chain (auth_chain (jwt_validator codes loaded 5) loaded.routes md "/api.Shop/Buy")),
    s,
  );
  shutdown = λ md s. (err (other "no backend"), s);
}

abbrev pub cfg : ScenarioConfig
cfg = record { username = "ann"; password = "pw" }

no_user_found : is_entity_not_found no_user ≡ true
unfolding is_entity_not_found
no_user_found = refl

run_login_errors-passes_example :
    run_login_errors from_error gated "20260101000000" cfg tt ≡ (ok tt, tt)
run_login_errors-passes_example =
    run_login_errors-passes codes secret in_an_hour users 2 from_error from_error-StatusLibrary
      gated "20260101000000" cfg (record { login = "ann"; password = "pw"; role = "user" }) no_user
      tt (λ req s. refl) (ne_text "ann" "" refl) refl (ne_text "pw" "wrong_password_12345" refl)
      refl no_user_found

granted :
    (session_id : String)
    → session_id ≢ ""
    → Grants codes secret in_an_hour users 2 loaded 5 "/api.Shop/Buy" from_error
        from_error-StatusLibrary cfg session_id
unfolding Auth.login service_create_token
granted session_id ne =
    let e : (session_id == "") ≡ false = ground (arith, eq_iff session_id "", ne) in
    (
      record { token = "aaaaaaab.aaabaaaaaaab"; expires_at = 10; role = "user" },
      rw (e, Auth.login, service_create_token) refl,
      ne_text "aaaaaaab.aaabaaaaaaab" "" refl,
      ne_text "user" "" refl,
    )

pub echo_required :
    mode_for (auth_rules loaded.routes.routes) "/api.Shop/Buy" ≡ authorization_required
unfolding mode_for first_prefix auth_rules RouteMatcher.sort_by_len
echo_required = refl

run_gateway_error_unauthenticated-passes_example :
    run_gateway_error_unauthenticated from_error gated "20260101000000" cfg tt ≡ (ok tt, tt)
run_gateway_error_unauthenticated-passes_example =
    run_gateway_error_unauthenticated-passes codes secret in_an_hour users 2 loaded 5
      "/api.Shop/Buy" from_error from_error-StatusLibrary gated "20260101000000" cfg tt
      (λ req s. refl) (λ md value s e out h g. rw (h, g) refl) echo_required (ne_text "ann" "" refl)
      granted

abbrev pub reply : ℕ → String → EchoReply
reply index pod = record {
  client_value = echo_value;
  server_value = "my_service";
  client_session_id = "s1";
  server_session_id = "s1";
  index = pos index;
  server_method = "MyServiceSubscribe";
  pod_name = pod;
}

abbrev recv : ℕ → Received
recv n = if nat_eq n 2 then ended else message (reply n "pod-1")

subscribe_test :
    subscribe_stream recv echo_value "MyServiceSubscribe" none 3
    ≡ ok (record { pod_name = "pod-1"; message_count = 2 })
unfolding subscribe_stream
subscribe_test = refl

subscribe_stream-GivesFrom_example :
    (1 ≤ 2) × (2 ≤ 3) × ((i : ℕ) → i < 2 → GivesFrom recv echo_value "MyServiceSubscribe" "pod-1" i)
subscribe_stream-GivesFrom_example =
    subscribe_stream-GivesFrom recv echo_value "MyServiceSubscribe" none 3
      (record { pod_name = "pod-1"; message_count = 2 }) subscribe_test

-- Three pods, of which the state counts those that were shut down.
abbrev pod_of : ℕ → String
pod_of zero = "pod-1"
pod_of (suc zero) = "pod-2"
pod_of (suc (suc n)) = "pod-3"

abbrev three : Client ℕ
three = record {
  login = λ req s. (ok (record { token = "t"; has_expiry = true; role = "user" }), s);
  echo = λ md value s. (
    if nat_eq s 3
        then err (status unavailable "backend service unavailable")
        else ok (reply 0 (pod_of s)),
    s,
  );
  shutdown = λ md s. (
    ok (record {
      client_session_id = "s1";
      server_session_id = "s1";
      server_method = "MyServiceShutdown";
      pod_name = pod_of s;
    }),
    suc s,
  );
}

transfer_test : run_session_transfer from_error three "now" cfg 0 ≡ (ok tt, 3)
unfolding run_session_transfer Scenarios.login Scenarios.echo Scenarios.shutdown
transfer_test = refl

run_session_transfer-IsTransferred_example :
    (token : String) × (u : ℕ) × (login three cfg (numbered_session_id "-transfer-" "now") 0
      ≡ (ok token, u))
    × IsTransferred from_error three (signed_in token (numbered_session_id "-transfer-" "now")) u
run_session_transfer-IsTransferred_example =
    run_session_transfer-IsTransferred from_error three "now" cfg tt 0 3 transfer_test
