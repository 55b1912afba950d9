-- ===== src/Gateway/Access.antt =====
-- MyAuth and MyGateway together: two programs, each with an environment of its own.
use grpc_api_gateway_session.Prelude.{
  ◌≡◌, refl, sym, ◌∙◌, ap, inr, String, true, false, Option, some, Result, ok, ℤ, eq_refl,
}
use grpc_api_gateway_session.Text.{trim_space}
use grpc_api_gateway_session.Text.Utf8.{bytes_of}
use grpc_api_gateway_session.Headers.{
  Metadata, get_session_id, get_auth_token, process_chain, process_auth, auth_rules,
}
use grpc_api_gateway_session.Headers.Gate.{IsAuthorized, process_auth_iff}
use grpc_api_gateway_session.Token.{Codecs, validate_token}
use grpc_api_gateway_session.Token.Verify.{RoundTrips}
use grpc_api_gateway_session.Proxy.Authorized.{auth_chain}
use grpc_api_gateway_session.Auth.{Fault, User, LoginRequest, LoginResponse}
use grpc_api_gateway_session.Auth.Login.{login-validate_token}
use grpc_api_gateway_session.Auth.Settings
use grpc_api_gateway_session.Auth.Settings.{AuthConfig, served_login}
use grpc_api_gateway_session.Auth.Settings.Reading.{IsConfigured, load_config_iff}
use grpc_api_gateway_session.Config.{Config, YamlConfig, load_config}
use grpc_api_gateway_session.Config.Loading.{load_config-jwt_secret}
use grpc_api_gateway_session.Gateway.{jwt_validator}

secret_of :
    {getenv : String → String} {parse_duration : String → Option ℤ} {auth : AuthConfig}
    → IsConfigured getenv parse_duration auth
    → auth.jwt_secret ≡ getenv "JWT_SECRET"
secret_of c = c.secret

module _ (lib : Codecs) (add : ℤ → lib.Time → lib.Time) (auth_env : String → String)
    (parse_duration : String → Option ℤ) (getenv : String → String)
    (absolute : String → Option String) (load_yaml : String → Result String YamlConfig) where
  same_secret :
      (auth : AuthConfig) (cfg : Config)
      → Settings.load_config auth_env parse_duration ≡ ok auth
      → load_config getenv absolute load_yaml ≡ ok cfg
      → auth_env "JWT_SECRET" ≡ getenv "JWT_SECRET"
      → trim_space (getenv "JWT_SECRET") ≡ getenv "JWT_SECRET"
      → cfg.jwt_secret ≡ auth.jwt_secret
  same_secret auth cfg auth_loaded loaded same trimmed =
      load_config-jwt_secret getenv absolute load_yaml cfg loaded
      ∙ trimmed
      ∙ sym same
      ∙ sym (secret_of ((load_config_iff auth_env parse_duration auth).0 auth_loaded))

  -- A user who logs in at MyAuth gets past the header chain of the gateway on every method, with
  -- the token and the session of the login and until the token expires, if both programs were given
  -- one JWT_SECRET without white space around it, the encodings round-trip, and the expiry that was
  -- written can be read.
  pub login-auth_chain :
      (auth : AuthConfig) (cfg : Config) (store : String → Result Fault User)
      (now later read : lib.Time) (req : LoginRequest) (resp : LoginResponse lib.Time)
      (md : Metadata) (method : String)
      → Settings.load_config auth_env parse_duration ≡ ok auth
      → load_config getenv absolute load_yaml ≡ ok cfg
      → auth_env "JWT_SECRET" ≡ getenv "JWT_SECRET"
      → trim_space (getenv "JWT_SECRET") ≡ getenv "JWT_SECRET"
      → RoundTrips lib
      → served_login lib add auth store now (some req) ≡ ok resp
      → lib.parse (lib.format resp.expires_at) ≡ some read
      → lib.after later read ≡ false
      → get_session_id md ≡ some req.session_id
      → get_auth_token md ≡ some resp.token
      → auth_chain (jwt_validator lib cfg later) cfg.routes md method ≡ ok md
  unfolding process_chain
  login-auth_chain auth cfg store now later read req resp md method auth_loaded loaded same trimmed
        law granted times live has_session has_token =
      let valid : validate_token lib (bytes_of cfg.jwt_secret) later req.session_id resp.token
          ≡ true =
        ap (λ s. validate_token lib (bytes_of s) later req.session_id resp.token)
          (same_secret auth cfg auth_loaded loaded same trimmed)
        ∙ login-validate_token lib (bytes_of auth.jwt_secret) (add auth.token_expiration) store now
            later read req resp req.session_id law times granted
        ∙ rw (live, eq_refl req.session_id) refl in
      let authorized : IsAuthorized (jwt_validator lib cfg later) md = record {
        session_id = req.session_id;
        token = resp.token;
        has_session = has_session;
        has_token = has_token;
        valid = ap ok valid;
      } in
      let passes : process_auth (jwt_validator lib cfg later) (auth_rules cfg.routes.routes) md
            method
          ≡ ok md =
        let rule =
          process_auth_iff (jwt_validator lib cfg later) (auth_rules cfg.routes.routes) md md
            method in
        rule.1 (refl, inr authorized) in
      rw (passes, process_chain) refl
