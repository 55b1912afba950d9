-- ===== src/Scenarios/LoginErrors.antt =====
-- IntegrationTests/scenario/login_errors.go. `now` is the time that ends the session ID.
pub mod Passing
use Prim.Native.String
use grpc_api_gateway_session.Prelude.{String, Bool, not, ◌&&◌, Option, some, ◌==◌, Result, ok, err}
use grpc_api_gateway_session.GrpcError.{Code, invalid_argument, permission_denied, Error}
use grpc_api_gateway_session.Auth.{LoginRequest}
use grpc_api_gateway_session.Scenarios.{
  ScenarioConfig, Run, ◌>>=◌, ◌>>◌, within, Client, session_id_prefix, same_code, refuses,
}

abbrev pub session_id_at : String → String
session_id_at now = String.◌++◌ session_id_prefix (String.◌++◌ "-" now)

-- A status with the code and some message.
abbrev pub says : Code → Code → String → Bool
says code c m = same_code c code && not (m == "")

module _ (from_error : Error → Option (Code × String)) {S : Type 0} (client : Client S)
    (now : String) where
  pub test_empty_username : Run S (Unit {0})
  test_empty_username = refuses from_error (says invalid_argument) "empty username" (
      client.login
        (record { username = ""; password = "password"; session_id = session_id_at now }))

  pub test_empty_session_id : ScenarioConfig → Run S (Unit {0})
  test_empty_session_id cfg =
      refuses from_error (says invalid_argument) "empty session_id" (
        client.login (record { username = cfg.username; password = cfg.password; session_id = "" }))

  pub test_invalid_username : Run S (Unit {0})
  test_invalid_username = refuses from_error (says permission_denied) "invalid username" (
      client.login (record {
        username = "nonexistent_user_12345";
        password = "password";
        session_id = session_id_at now;
      }))

  pub test_invalid_password : ScenarioConfig → Run S (Unit {0})
  test_invalid_password cfg = refuses from_error (says permission_denied) "invalid password" (
      client.login (record {
        username = cfg.username;
        password = "wrong_password_12345";
        session_id = session_id_at now;
      }))

  -- `runLoginErrors`, from the client on.
  pub run_login_errors : ScenarioConfig → Run S (Unit {0})
  unfolding test_empty_username test_empty_session_id test_invalid_username test_invalid_password
  run_login_errors cfg = do
    within "test empty username" test_empty_username
    within "test empty session_id" (test_empty_session_id cfg)
    within "test invalid username" test_invalid_username
    within "test invalid password" (test_invalid_password cfg)
