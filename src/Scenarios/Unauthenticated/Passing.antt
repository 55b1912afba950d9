-- ===== src/Scenarios/Unauthenticated/Passing.antt =====
-- The scenario of unauthenticated requests against MyAuth and the header chain of the gateway.
use grpc_api_gateway_session.Prelude.{
  ◌≡◌, refl, ap, ◌∙◌, ◌≢◌, String, true, Option, some, ok, [], ◌∷◌, Result, Bool,
}
use grpc_api_gateway_session.GrpcError.{Code, invalid_argument, unauthenticated, Error}
use grpc_api_gateway_session.GrpcError.Table.{StatusLibrary}
use grpc_api_gateway_session.Domain.{authorization_required}
use grpc_api_gateway_session.Headers.{auth_rules, mode_for}
use grpc_api_gateway_session.Token.{Bytes, Codecs}
use grpc_api_gateway_session.Auth
use grpc_api_gateway_session.Auth.{Fault, LoginRequest, LoginResponse, unary_interceptor}
use grpc_api_gateway_session.Config.{Config}
use grpc_api_gateway_session.Scenarios.{
  ScenarioConfig, LoginReply, Client, pairs, echo_value, refuses,
}
use grpc_api_gateway_session.Scenarios.Answers.{login-passes}
use grpc_api_gateway_session.Scenarios.LoginErrors.Passing.{
  LogsInAtAuth, answer-no_session, refuses-meets,
}
use grpc_api_gateway_session.Scenarios.Unauthenticated.{
  case_session_id, login_as, says_exactly, says_code, case1_both_not_set,
  case2_session_id_set_auth_missing, case3_session_id_missing_auth_set, case4_invalid_token,
  run_gateway_error_unauthenticated,
}
use grpc_api_gateway_session.Scenarios.Unauthenticated.Refusals.{
  GuardsEcho, echo-no_session, echo-no_token, echo-bad_token, case_session_id-ne, no_metadata,
  session_only, token_only, bad_token,
}

module _ (lib : Codecs) (secret : Bytes) (add_expiry : lib.Time → lib.Time)
    (store : String → Result Fault Auth.User) (time : lib.Time) (gateway : Config)
    (later : lib.Time) (method : String) (from_error : Error → Option (Code × String))
    (grpc : StatusLibrary from_error) where
  -- MyAuth grants the configured user a login with a session, with a token and a role.
  abbrev pub Grants : ScenarioConfig → String → Type 0
  Grants cfg session_id =
      (resp : LoginResponse lib.Time) × (Auth.login lib secret add_expiry store time (
          some
            (record { username = cfg.username; password = cfg.password; session_id = session_id }))
        ≡ ok resp)
      × (resp.token ≢ "")
      × (resp.role ≢ "")

  module _ {S : Type 0} (client : Client S) (now : String) (cfg : ScenarioConfig) (s : S)
      (at_auth : LogsInAtAuth lib secret add_expiry store time client)
      (guarded : GuardsEcho lib gateway later method from_error grpc client)
      (required : mode_for (auth_rules gateway.routes.routes) method ≡ authorization_required)
      (named : cfg.username ≢ "")
      (granted : (session_id : String) → session_id ≢ "" → Grants cfg session_id) where
    logs_in :
        (session_id : String)
        → session_id ≢ ""
        → (r : LoginReply) × (client.login
              (record { username = cfg.username; password = cfg.password; session_id = session_id })
              s
            ≡ (ok r, s))
          × (r.token ≢ "")
          × (r.has_expiry ≡ true)
          × (r.role ≢ "")
    unfolding unary_interceptor
    logs_in session_id ne =
        let (resp, h, token, role) = granted session_id ne in
        (
          record { token = resp.token; has_expiry = true; role = resp.role },
          at_auth _ s ∙ rw (h, unary_interceptor) refl,
          token,
          refl,
          role,
        )

    empty_session_refused :
        (holds : Code → String → Bool) (text : String)
        → holds invalid_argument "session_id is required" ≡ true
        → refuses from_error holds text
            (client.login
              (record { username = cfg.username; password = cfg.password; session_id = "" }))
            s
          ≡ (ok tt, s)
    empty_session_refused holds text meets =
        refuses-meets from_error grpc holds text (login_as from_error client now cfg "") s
          invalid_argument "session_id is required"
          (at_auth _ s
            ∙ ap (λ (a : Result Error LoginReply). (a, s))
                (answer-no_session lib secret add_expiry store time cfg.username cfg.password
                  named))
          meets

    case1-passes : case1_both_not_set from_error client now cfg s ≡ (ok tt, s)
    unfolding case1_both_not_set
    case1-passes =
        rw
          (
            empty_session_refused (says_exactly invalid_argument "session_id is required")
                "login with empty session_id" refl,
            refuses-meets from_error grpc (says_exactly unauthenticated "missing session-id")
                "echo without metadata" (client.echo (pairs []) echo_value) s unauthenticated
                "missing session-id"
                (echo-no_session lib gateway later method from_error grpc client guarded required
                  (pairs []) s no_metadata)
                refl,
          )
          refl

    case2-passes : case2_session_id_set_auth_missing from_error client now cfg s ≡ (ok tt, s)
    unfolding case2_session_id_set_auth_missing
    case2-passes =
        let id = case_session_id "-case2-" now in
        let ne = case_session_id-ne "-case2-" now in
        let (r, h, token, expiry, role) = logs_in id ne in
        let (session, none) = session_only id ne in
        rw
          (
            h,
            refuses-meets from_error grpc (says_exactly unauthenticated "missing or invalid token")
                "echo with session-id only"
                (client.echo (pairs (("session-id", id) ∷ [])) echo_value) s unauthenticated
                "missing or invalid token"
                (echo-no_token lib gateway later method from_error grpc client guarded required _ s
                  id session none)
                refl,
          )
          refl

    case3-passes : case3_session_id_missing_auth_set from_error client now cfg s ≡ (ok tt, s)
    unfolding case3_session_id_missing_auth_set
    case3-passes =
        let id = case_session_id "-case3-" now in
        let (r, h, token, expiry, role) = logs_in id (case_session_id-ne "-case3-" now) in
        rw
          (
            empty_session_refused (says_code invalid_argument) "login with empty session_id" refl,
            login-passes client cfg id r s h token expiry role,
            refuses-meets from_error grpc (says_exactly unauthenticated "missing session-id")
                "echo with auth only"
                (client.echo (pairs (("authorization", r.token) ∷ [])) echo_value) s unauthenticated
                "missing session-id"
                (echo-no_session lib gateway later method from_error grpc client guarded required _
                  s (token_only r.token))
                refl,
          )
          refl

    case4-passes : case4_invalid_token from_error client now s ≡ (ok tt, s)
    unfolding case4_invalid_token
    case4-passes =
        let id = case_session_id "-case4-" now in
        let (session, token) = bad_token id (case_session_id-ne "-case4-" now) in
        refuses-meets from_error grpc (says_exactly unauthenticated "missing or invalid token")
          "echo with invalid token"
          (client.echo (pairs (("authorization", "invalid_token_format") ∷ ("session-id", id) ∷ []))
            echo_value)
          s unauthenticated "missing or invalid token"
          (echo-bad_token lib gateway later method from_error grpc client guarded required _ s id
            session token)
          refl

    -- The scenario passes against MyAuth and the header chain of the gateway, whatever stands behind
    -- the chain, if the echo method requires authorization and MyAuth grants the configured user every
    -- login with a session; it changes nothing.
    pub run_gateway_error_unauthenticated-passes :
        run_gateway_error_unauthenticated from_error client now cfg s ≡ (ok tt, s)
    unfolding run_gateway_error_unauthenticated
    run_gateway_error_unauthenticated-passes =
        rw (case1-passes, case2-passes, case3-passes, case4-passes) refl
