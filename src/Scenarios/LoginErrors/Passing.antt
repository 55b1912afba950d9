-- ===== src/Scenarios/LoginErrors/Passing.antt =====
-- The scenario of refused logins against MyAuth.
use Prim.Native.String
use text.Mathlib.TextLemmas.{cons-append}
use grpc_api_gateway_session.Prelude.{
  ◌≡◌, refl, sym, ap, ◌∙◌, ◌≢◌, String, Bool, true, false, Option, some, ◌==◌, eq_iff, Result, ok,
  err, arith, ne_text,
}
use grpc_api_gateway_session.GrpcError.{Code, invalid_argument, permission_denied, Error, status}
use grpc_api_gateway_session.GrpcError.Table.{StatusLibrary}
use grpc_api_gateway_session.Token.{Bytes, Codecs}
use grpc_api_gateway_session.Auth
use grpc_api_gateway_session.Auth.{
  Fault, User, LoginRequest, LoginResponse, unary_interceptor, is_entity_not_found,
}
use grpc_api_gateway_session.Scenarios.{
  ScenarioConfig, LoginReply, Run, within, Client, refuses, with_status, unless_fault,
}
use grpc_api_gateway_session.Scenarios.LoginErrors.{
  says, session_id_at, test_empty_username, test_empty_session_id, test_invalid_username,
  test_invalid_password, run_login_errors,
}

module _ (lib : Codecs) (secret : Bytes) (add_expiry : lib.Time → lib.Time)
    (store : String → Result Fault User) (time : lib.Time) where
  -- What the client of MyAuth reads of its answer.
  abbrev pub reply : Result Error (LoginResponse lib.Time) → Result Error LoginReply
  reply (ok resp) = ok (record { token = resp.token; has_expiry = true; role = resp.role })
  reply (err e) = err e

  abbrev pub answer : LoginRequest → Result Error LoginReply
  answer req = reply (unary_interceptor (Auth.login lib secret add_expiry store time (some req)))

  -- A client whose logins MyAuth answers.
  abbrev pub LogsInAtAuth : {S : Type 0} → Client S → Type 0
  LogsInAtAuth {S} client = (req : LoginRequest) (s : S) → client.login req s ≡ (answer req, s)

  answer-no_username :
      (password session_id : String)
      → answer (record { username = ""; password = password; session_id = session_id })
        ≡ err (status invalid_argument "username is required")
  unfolding Auth.login unary_interceptor
  answer-no_username password session_id = refl

  pub answer-no_session :
      (username password : String)
      → username ≢ ""
      → answer (record { username = username; password = password; session_id = "" })
        ≡ err (status invalid_argument "session_id is required")
  unfolding Auth.login unary_interceptor
  answer-no_session username password named =
      let e : (username == "") ≡ false = ground (arith, eq_iff username "", named) in
      rw (e, Auth.login, unary_interceptor) refl

  answer-unknown_user :
      (username password session_id : String) (e : Fault)
      → username ≢ ""
      → session_id ≢ ""
      → store username ≡ err e
      → is_entity_not_found e ≡ true
      → answer (record { username = username; password = password; session_id = session_id })
        ≡ err (status permission_denied "invalid username or password")
  unfolding Auth.login Auth.with_user unary_interceptor
  answer-unknown_user username password session_id e named bound absent code =
      let p : (username == "") ≡ false = ground (arith, eq_iff username "", named) in
      let q : (session_id == "") ≡ false = ground (arith, eq_iff session_id "", bound) in
      rw (p, q, absent, Auth.login, Auth.with_user, code, unary_interceptor) refl

  answer-wrong_password :
      (username password session_id : String) (user : User)
      → username ≢ ""
      → session_id ≢ ""
      → store username ≡ ok user
      → user.password ≢ password
      → answer (record { username = username; password = password; session_id = session_id })
        ≡ err (status permission_denied "invalid username or password")
  unfolding Auth.login Auth.with_user Auth.issue unary_interceptor
  answer-wrong_password username password session_id user named bound there wrong =
      let p : (username == "") ≡ false = ground (arith, eq_iff username "", named) in
      let q : (session_id == "") ≡ false = ground (arith, eq_iff session_id "", bound) in
      let r : (user.password == password) ≡ false =
        ground (arith, eq_iff user.password password, wrong) in
      rw (p, q, there, Auth.login, Auth.with_user, r, Auth.issue, unary_interceptor) refl

pub session_id_at-ne : (now : String) → session_id_at now ≢ ""
session_id_at-ne now e =
    cc (sym (cons-append "i" "ntegration-test-session" (String.◌++◌ "-" now)) ∙ e)

nonexistent : ◌≢◌ {A = String} "nonexistent_user_12345" ""
nonexistent = ne_text "nonexistent_user_12345" "" refl

-- A call that is answered with a status meets a demand that the status meets.
module _ (from_error : Error → Option (Code × String)) (grpc : StatusLibrary from_error) where
  pub refuses-answered :
      {S A : Type 0} (holds : Code → String → Bool) (text : String) (m : Run S A) (s t : S)
      (c : Code) (message : String)
      → m s ≡ (err (status c message), t)
      → holds c message ≡ true
      → refuses from_error holds text m s ≡ (ok tt, t)
  unfolding unless_fault
  refuses-answered holds text m s t c message answers meets =
      rw (answers, with_status, grpc.of_status c message, meets) refl

  pub refuses-meets :
      {S A : Type 0} (holds : Code → String → Bool) (text : String) (m : Run S A) (s : S) (c : Code)
      (message : String)
      → m s ≡ (err (status c message), s)
      → holds c message ≡ true
      → refuses from_error holds text m s ≡ (ok tt, s)
  refuses-meets holds text m s c message = refuses-answered holds text m s s c message

  refuses-passes :
      {S A : Type 0} (holds : Code → String → Bool) (text title : String) (m : Run S A) (s : S)
      (c : Code) (message : String)
      → m s ≡ (err (status c message), s)
      → holds c message ≡ true
      → within title (refuses from_error holds text m) s ≡ (ok tt, s)
  refuses-passes holds text title m s c message answers meets =
      rw (refuses-meets holds text m s c message answers meets) refl

module _ (lib : Codecs) (secret : Bytes) (add_expiry : lib.Time → lib.Time)
    (store : String → Result Fault User) (time : lib.Time)
    (from_error : Error → Option (Code × String)) (grpc : StatusLibrary from_error) where
  -- The scenario passes against MyAuth at every time, if its user exists with another password than
  -- the wrong one and the user that should not exist does not; it changes nothing.
  pub run_login_errors-passes :
      {S : Type 0} (client : Client S) (now : String) (cfg : ScenarioConfig) (user : User)
      (e : Fault) (s : S)
      → LogsInAtAuth lib secret add_expiry store time client
      → cfg.username ≢ ""
      → store cfg.username ≡ ok user
      → user.password ≢ "wrong_password_12345"
      → store "nonexistent_user_12345" ≡ err e
      → is_entity_not_found e ≡ true
      → run_login_errors from_error client now cfg s ≡ (ok tt, s)
  unfolding run_login_errors test_empty_username test_empty_session_id test_invalid_username
      test_invalid_password
  run_login_errors-passes client now cfg user e s at_auth named there wrong absent code =
      let answered =
        λ (req : LoginRequest) (message : String) (c : Code)
            (h : answer lib secret add_expiry store time req ≡ err (status c message)).
          at_auth req s ∙ ap (λ (a : Result Error LoginReply). (a, s)) h in
      rw
        (
          refuses-passes from_error grpc (says invalid_argument) "empty username"
              "test empty username" (client.login _) s invalid_argument "username is required"
              (answered _ _ _ (
                answer-no_username lib secret add_expiry store time "password" (session_id_at now)))
              refl,
          refuses-passes from_error grpc (says invalid_argument) "empty session_id"
              "test empty session_id" (client.login _) s invalid_argument "session_id is required"
              (answered _ _ _ (
                answer-no_session lib secret add_expiry store time cfg.username cfg.password named))
              refl,
          refuses-passes from_error grpc (says permission_denied) "invalid username"
              "test invalid username" (client.login _) s permission_denied
              "invalid username or password"
              (answered _ _ _ (
                answer-unknown_user lib secret add_expiry store time "nonexistent_user_12345"
                  "password" (session_id_at now) e nonexistent (session_id_at-ne now) absent code))
              refl,
          refuses-passes from_error grpc (says permission_denied) "invalid password"
              "test invalid password" (client.login _) s permission_denied
              "invalid username or password"
              (answered _ _ _ (
                answer-wrong_password lib secret add_expiry store time cfg.username
                  "wrong_password_12345" (session_id_at now) user named (session_id_at-ne now) there
                  wrong))
              refl,
        )
        refl
