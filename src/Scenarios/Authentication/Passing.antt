-- ===== src/Scenarios/Authentication/Passing.antt =====
-- The scenario of authentication errors against MyAuth and the header chain of the gateway.
use Prim.Native.String
use Prim.Native.Char.{Char, code}
use text.Mathlib.TextLemmas.{cons-append, append_assoc, append_cancel_left, head-eq_of_cons-eq}
use grpc_api_gateway_session.Prelude.{
  ◌≡◌, refl, sym, ap, ◌∙◌, ◌≢◌, String, Bool, true, false, Option, some, ok, [], ◌∷◌, Result, ◌==◌,
  eq_iff, arith, if◌then◌else◌,
}
use grpc_api_gateway_session.Text.{trim_space, split_n}
use grpc_api_gateway_session.Text.Utf8.{bytes_of}
use grpc_api_gateway_session.GrpcError.{Code, unauthenticated, Error}
use grpc_api_gateway_session.GrpcError.Table.{StatusLibrary}
use grpc_api_gateway_session.Domain.{authorization_required}
use grpc_api_gateway_session.Headers.{auth_rules, mode_for, get_session_id, get_auth_token}
use grpc_api_gateway_session.Headers.Gate.{get_auth_token_lem}
use grpc_api_gateway_session.Token.{Bytes, Codecs, validate_token, parse_and_verify}
use grpc_api_gateway_session.Token.Verify.{RoundTrips}
use grpc_api_gateway_session.Auth
use grpc_api_gateway_session.Auth.{Fault, LoginRequest, LoginResponse, unary_interceptor}
use grpc_api_gateway_session.Auth.Login.{login-validate_token}
use grpc_api_gateway_session.Config.{Config}
use grpc_api_gateway_session.Gateway.{jwt_validator}
use grpc_api_gateway_session.Scenarios.{ScenarioConfig, Client, pairs, signed_in, login, echo_value}
use grpc_api_gateway_session.Scenarios.Answers.{login-passes}
use grpc_api_gateway_session.Scenarios.LoginErrors.Passing.{LogsInAtAuth, refuses-meets}
use grpc_api_gateway_session.Scenarios.Unauthenticated.{says_code}
use grpc_api_gateway_session.Scenarios.Unauthenticated.Refusals.{
  GuardsEcho, echo-no_session, echo-invalid_token, no_metadata, token_only,
}
use grpc_api_gateway_session.Scenarios.Authentication.{
  one_of, named_session, test_missing_token, test_invalid_token_format, test_session_id_mismatch,
  test_missing_session_id_header, run_my_service_authentication_errors,
}

sessions_differ :
    (now1 now2 : String)
    → String.◌++◌ "integration-test-session" (String.◌++◌ "-session1-" now1)
      ≢ String.◌++◌ "integration-test-session" (String.◌++◌ "-session2-" now2)
sessions_differ now1 now2 e =
    let a =
      append_cancel_left "integration-test-session-session" (String.◌++◌ "1-" now1)
        (String.◌++◌ "2-" now2) (split "1-" now1 ∙ e ∙ sym (split "2-" now2)) in
    let c : ◌≡◌ {A = Char} "1" "2" =
      head-eq_of_cons-eq (sym (cons-append "1" "-" now1) ∙ a ∙ cons-append "2" "-" now2) in
    absurd (omega (arith, ap code c))
  where
    split :
        (t now : String)
        → String.◌++◌ "integration-test-session-session" (String.◌++◌ t now)
          ≡ String.◌++◌ "integration-test-session" (String.◌++◌ (String.◌++◌ "-session" t) now)
    split t now =
        append_assoc "integration-test-session" "-session" (String.◌++◌ t now)
        ∙ ap (λ (x : String). String.◌++◌ "integration-test-session" x)
            (sym (append_assoc "-session" t now))

named_session-ne : (infix_text now : String) → named_session infix_text now ≢ ""
named_session-ne infix_text now e =
    cc (sym (cons-append "i" "ntegration-test-session" (String.◌++◌ infix_text now)) ∙ e)

-- What the gateway reads of the metadata of a client that logged in.
session_and_token :
    (token session_id : String)
    → token ≢ ""
    → session_id ≢ ""
    → trim_space token ≡ token
    → (get_session_id (signed_in token session_id) ≡ some session_id)
      × (get_auth_token (signed_in token session_id) ≡ some token)
unfolding get_session_id signed_in pairs
session_and_token token session_id made named trims =
    let e : (session_id == "") ≡ false = ground (arith, eq_iff session_id "") in
    (rw e refl, get_auth_token_lem (signed_in token session_id) token [] refl trims made)

not_valid_12345 :
    (lib : Codecs) (secret : Bytes) (now : lib.Time) (session_id : String)
    → validate_token lib secret now session_id "invalid_token_format_12345" ≡ false
unfolding validate_token parse_and_verify split_n
not_valid_12345 lib secret now session_id = refl

invalid_format :
    (get_session_id (signed_in "invalid_token_format_12345" "session-123") ≡ some "session-123")
    × (get_auth_token (signed_in "invalid_token_format_12345" "session-123")
        ≡ some "invalid_token_format_12345")
unfolding get_session_id get_auth_token signed_in pairs trim_space
invalid_format = (refl, refl)

other_session :
    (over : Bool) (session_id other_id : String)
    → session_id ≢ other_id
    → (if over then false else session_id == other_id) ≡ false
other_session true session_id other_id apart = refl
other_session false session_id other_id apart = ground (arith, eq_iff session_id other_id)

module _ (lib : Codecs) (secret : Bytes) (add_expiry : lib.Time → lib.Time)
    (store : String → Result Fault Auth.User) (time : lib.Time) (gateway : Config)
    (later : lib.Time) (method : String) (from_error : Error → Option (Code × String))
    (grpc : StatusLibrary from_error) where
  -- MyAuth grants the user a login with a session, with a token that has no space around it, a role
  -- and an expiry that can be read back.
  abbrev pub GrantsReadable : ScenarioConfig → String → Type 0
  GrantsReadable cfg session_id =
      (resp : LoginResponse lib.Time) × (read : lib.Time) × (Auth.login lib secret add_expiry store
          time
          (some
            (record { username = cfg.username; password = cfg.password; session_id = session_id }))
        ≡ ok resp)
      × (resp.token ≢ "")
      × (resp.role ≢ "")
      × (trim_space resp.token ≡ resp.token)
      × (lib.parse (lib.format resp.expires_at) ≡ some read)

  module _ {S : Type 0} (client : Client S) (cfg : ScenarioConfig) (s : S)
      (at_auth : LogsInAtAuth lib secret add_expiry store time client)
      (guarded : GuardsEcho lib gateway later method from_error grpc client)
      (required : mode_for (auth_rules gateway.routes.routes) method ≡ authorization_required)
      (law : RoundTrips lib) (one_secret : bytes_of gateway.jwt_secret ≡ secret) where
    test_missing_token-passes : test_missing_token from_error client s ≡ (ok tt, s)
    unfolding test_missing_token
    test_missing_token-passes =
        refuses-meets from_error grpc (says_code unauthenticated) "missing token"
          (client.echo (pairs []) echo_value) s unauthenticated "missing session-id"
          (echo-no_session lib gateway later method from_error grpc client guarded required
            (pairs []) s no_metadata)
          refl

    test_invalid_token_format-passes : test_invalid_token_format from_error client s ≡ (ok tt, s)
    unfolding test_invalid_token_format
    test_invalid_token_format-passes =
        refuses-meets from_error grpc (says_code unauthenticated) "invalid token format"
          (client.echo (signed_in "invalid_token_format_12345" "session-123") echo_value) s
          unauthenticated "missing or invalid token"
          (echo-invalid_token lib gateway later method from_error grpc client guarded required _ s
            "session-123" "invalid_token_format_12345" invalid_format.0 invalid_format.1
            (ap ok (not_valid_12345 lib (bytes_of gateway.jwt_secret) later "session-123")))
          refl

    -- A login with a session, as the scenario sees it.
    logs_in :
        (session_id : String)
        → GrantsReadable cfg session_id
        → (token : String) × (login client cfg session_id s ≡ (ok token, s))
          × (token ≢ "")
          × (trim_space token ≡ token)
          × ((other_id : String)
              → session_id ≢ other_id
              → jwt_validator lib gateway later other_id token ≡ ok false)
    unfolding unary_interceptor
    logs_in session_id (resp, read, h, token, role, trims, times) = (
      resp.token,
      login-passes client cfg session_id
          (record { token = resp.token; has_expiry = true; role = resp.role }) s
          (at_auth _ s ∙ rw (h, unary_interceptor) refl) token refl role,
      token,
      trims,
      λ other_id apart. ap ok (
          ap (λ (k : Bytes). validate_token lib k later other_id resp.token) one_secret
          ∙ login-validate_token lib secret add_expiry store time later read _ resp other_id law
              times h
          ∙ other_session (lib.after later read) session_id other_id apart),
    )

    test_session_id_mismatch-passes :
        (now1 now2 : String)
        → GrantsReadable cfg (named_session "-session1-" now1)
        → test_session_id_mismatch from_error client cfg now1 now2 s ≡ (ok tt, s)
    unfolding test_session_id_mismatch
    test_session_id_mismatch-passes now1 now2 granted =
        let (token, h, made, trims, others) = logs_in (named_session "-session1-" now1) granted in
        let (session, auth) =
          session_and_token token (named_session "-session2-" now2) made
            (named_session-ne "-session2-" now2) trims in
        rw
          (
            h,
            refuses-meets from_error grpc (says_code unauthenticated) "session-id mismatch"
                (client.echo (signed_in token (named_session "-session2-" now2)) echo_value) s
                unauthenticated "missing or invalid token"
                (echo-invalid_token lib gateway later method from_error grpc client guarded required
                  _ s (named_session "-session2-" now2) token session auth
                  (others (named_session "-session2-" now2) (sessions_differ now1 now2)))
                refl,
          )
          refl

    test_missing_session_id_header-passes :
        (now : String)
        → GrantsReadable cfg (named_session "-" now)
        → test_missing_session_id_header from_error client cfg now s ≡ (ok tt, s)
    unfolding test_missing_session_id_header
    test_missing_session_id_header-passes now granted =
        let (token, h, made, trims, others) = logs_in (named_session "-" now) granted in
        rw
          (
            h,
            refuses-meets from_error grpc one_of "missing session-id header"
                (client.echo (pairs (("authorization", token) ∷ [])) echo_value) s unauthenticated
                "missing session-id"
                (echo-no_session lib gateway later method from_error grpc client guarded required _
                  s (token_only token))
                refl,
          )
          refl

    -- The scenario passes against MyAuth and the header chain of the gateway, whatever stands behind
    -- the chain, if the two share their secret, the encodings round-trip, the echo method requires
    -- authorization and MyAuth grants the user both logins of the scenario, with a token without space
    -- around it, a role and an expiry that can be read back; it changes nothing. So a token that was
    -- granted for one session is refused for another.
    pub run_my_service_authentication_errors-passes :
        (now1 now2 now3 : String)
        → GrantsReadable cfg (named_session "-session1-" now1)
        → GrantsReadable cfg (named_session "-" now3)
        → run_my_service_authentication_errors from_error client cfg now1 now2 now3 s ≡ (ok tt, s)
    unfolding run_my_service_authentication_errors
    run_my_service_authentication_errors-passes now1 now2 now3 granted1 granted3 =
        rw
          (
            test_missing_token-passes,
            test_invalid_token_format-passes,
            test_session_id_mismatch-passes now1 now2 granted1,
            test_missing_session_id_header-passes now3 granted3,
          )
          refl
