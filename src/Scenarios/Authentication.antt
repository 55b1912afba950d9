-- ===== src/Scenarios/Authentication.antt =====
-- IntegrationTests/scenario/myservice_authentication_errors.go, from the client on. The times that end
-- the session IDs are arguments. The test of expired tokens does nothing.
pub mod Passing
use Prim.Native.String
use grpc_api_gateway_session.Prelude.{String, Bool, ◌||◌, Option, [], ◌∷◌}
use grpc_api_gateway_session.GrpcError.{Code, invalid_argument, unauthenticated, Error}
use grpc_api_gateway_session.Scenarios.{
  ScenarioConfig, Run, ◌>>=◌, ◌>>◌, within, Client, session_id_prefix, same_code, refuses, pairs,
  signed_in, echo_value, login,
}
use grpc_api_gateway_session.Scenarios.Unauthenticated.{says_code}

abbrev pub one_of : Code → String → Bool
one_of c m = same_code c invalid_argument || same_code c unauthenticated

abbrev pub named_session : (infix_text now : String) → String
named_session infix_text now = String.◌++◌ session_id_prefix (String.◌++◌ infix_text now)

module _ (from_error : Error → Option (Code × String)) {S : Type 0} (client : Client S) where
  pub test_missing_token : Run S (Unit {0})
  unfolding pairs
  test_missing_token =
      refuses from_error (says_code unauthenticated) "missing token"
        (client.echo (pairs []) echo_value)

  pub test_invalid_token_format : Run S (Unit {0})
  unfolding signed_in
  test_invalid_token_format =
      refuses from_error (says_code unauthenticated) "invalid token format"
        (client.echo (signed_in "invalid_token_format_12345" "session-123") echo_value)

  module _ (cfg : ScenarioConfig) where
    pub test_session_id_mismatch : (now1 now2 : String) → Run S (Unit {0})
    unfolding login signed_in
    test_session_id_mismatch now1 now2 = do
      token ← within "login failed" (login client cfg (named_session "-session1-" now1))
      refuses from_error (says_code unauthenticated) "session-id mismatch"
          (client.echo (signed_in token (named_session "-session2-" now2)) echo_value)

    pub test_missing_session_id_header : (now : String) → Run S (Unit {0})
    unfolding login pairs
    test_missing_session_id_header now = do
      token ← within "login failed" (login client cfg (named_session "-" now))
      refuses from_error one_of "missing session-id header"
          (client.echo (pairs (("authorization", token) ∷ [])) echo_value)

    -- `runMyServiceAuthenticationErrors`
    pub run_my_service_authentication_errors : (now1 now2 now3 : String) → Run S (Unit {0})
    unfolding test_missing_token test_invalid_token_format test_session_id_mismatch
        test_missing_session_id_header
    run_my_service_authentication_errors now1 now2 now3 = do
      within "test missing token" test_missing_token
      within "test invalid token format" test_invalid_token_format
      within "test session-id mismatch" (test_session_id_mismatch now1 now2)
      within "test missing session-id header" (test_missing_session_id_header now3)
