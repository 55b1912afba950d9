-- ===== src/Scenarios/Unauthenticated.antt =====
-- IntegrationTests/scenario/gateway_error_unauthenticated.go. `now` is the time that ends the session
-- IDs.
pub mod Refusals
pub mod Passing
use Prim.Native.String
use grpc_api_gateway_session.Prelude.{
  String, Bool, ◌&&◌, Option, List, [], ◌∷◌, ◌==◌, Result, ok, err,
}
use grpc_api_gateway_session.GrpcError.{Code, invalid_argument, unauthenticated, Error}
use grpc_api_gateway_session.Scenarios.{
  ScenarioConfig, LoginReply, Run, ◌>>=◌, ◌>>◌, within, Client, session_id_prefix, same_code,
  refuses, pairs, echo_value, login,
}

abbrev pub expected_msg_missing_session_id : String
expected_msg_missing_session_id = "missing session-id"

abbrev pub expected_msg_missing_or_invalid_token : String
expected_msg_missing_or_invalid_token = "missing or invalid token"

-- The status with this code and message.
abbrev pub says_exactly : Code → String → Code → String → Bool
says_exactly code message c m = same_code c code && m == message

abbrev pub says_code : Code → Code → String → Bool
says_code code c m = same_code c code

abbrev pub case_session_id : (suffix now : String) → String
case_session_id suffix now = String.◌++◌ session_id_prefix (String.◌++◌ suffix now)

abbrev pub forget : {S A : Type 0} → Run S A → Run S (Unit {0})
forget m = m >>= λ a s. (ok tt, s)

module _ (from_error : Error → Option (Code × String)) {S : Type 0} (client : Client S)
    (now : String) where
  -- A login with the configured user.
  abbrev pub login_as : ScenarioConfig → String → Run S LoginReply
  login_as cfg session_id =
      client.login
        (record { username = cfg.username; password = cfg.password; session_id = session_id })

  pub case1_both_not_set : ScenarioConfig → Run S (Unit {0})
  unfolding pairs
  case1_both_not_set cfg = do
    refuses from_error (says_exactly invalid_argument "session_id is required")
        "login with empty session_id" (login_as cfg "")
    refuses from_error (says_exactly unauthenticated expected_msg_missing_session_id)
        "echo without metadata" (client.echo (pairs []) echo_value)

  pub case2_session_id_set_auth_missing : ScenarioConfig → Run S (Unit {0})
  unfolding pairs
  case2_session_id_set_auth_missing cfg =
      let session_id = case_session_id "-case2-" now in
      do
        forget (within "login" (login_as cfg session_id))
        refuses from_error (says_exactly unauthenticated expected_msg_missing_or_invalid_token)
            "echo with session-id only"
            (client.echo (pairs (("session-id", session_id) ∷ [])) echo_value)

  pub case3_session_id_missing_auth_set : ScenarioConfig → Run S (Unit {0})
  unfolding pairs login
  case3_session_id_missing_auth_set cfg = do
    refuses from_error (says_code invalid_argument) "login with empty session_id" (login_as cfg "")
    token ← within "login for token" (login client cfg (case_session_id "-case3-" now))
    refuses from_error (says_exactly unauthenticated expected_msg_missing_session_id)
        "echo with auth only" (client.echo (pairs (("authorization", token) ∷ [])) echo_value)

  pub case4_invalid_token : Run S (Unit {0})
  unfolding pairs
  case4_invalid_token =
      refuses from_error (says_exactly unauthenticated expected_msg_missing_or_invalid_token)
        "echo with invalid token"
        (client.echo
          (pairs (
            ("authorization", "invalid_token_format")
            ∷ ("session-id", case_session_id "-case4-" now)
            ∷ []))
          echo_value)

  -- `runGatewayErrorUnauthenticated`, from the client on.
  pub run_gateway_error_unauthenticated : ScenarioConfig → Run S (Unit {0})
  unfolding case1_both_not_set case2_session_id_set_auth_missing case3_session_id_missing_auth_set
      case4_invalid_token
  run_gateway_error_unauthenticated cfg = do
    within "case 1 (both not set)" (case1_both_not_set cfg)
    within "case 2 (session-id set, auth missing)" (case2_session_id_set_auth_missing cfg)
    within "case 3 (session-id not set, auth set)" (case3_session_id_missing_auth_set cfg)
    within "case 4 (invalid token)" case4_invalid_token
