-- ===== src/Auth/Settings.antt =====
-- MyAuth/cmd/config.go, and what MyAuth/cmd/main.go hands to the login server. The environment is a
-- function, in which an unset name reads as the empty text. `time.ParseDuration` is a parameter, and
-- a duration is its number of nanoseconds. The secret is kept as the text whose bytes it is.
pub mod Reading
use grpc_api_gateway_session.Prelude.{
  ℕ, String, Bool, Option, none, some, ◌==◌, Result, ok, err, ◌>>=◌, ℤ, pos, if◌then◌else◌,
}
use grpc_api_gateway_session.Text.Utf8.{bytes_of}
use grpc_api_gateway_session.Config.{or_default}
use grpc_api_gateway_session.Config.Numbers.{atoi}
use grpc_api_gateway_session.Token.{Codecs}
use grpc_api_gateway_session.Auth.{Fault, LoginRequest, LoginResponse, User, login}

pub record AuthConfig : Type 0 where
  pub port : ℤ
  pub redis_addr : String
  pub jwt_secret : String
  pub token_expiration : ℤ

pub data AuthConfigError : Type 0 where
  invalid_port invalid_expiration secret_required : AuthConfigError

abbrev pub or_invalid {ℓ} : {A : Type ℓ} → AuthConfigError → Option A → Result AuthConfigError A
or_invalid e none = err e
or_invalid e (some a) = ok a

-- `if v := os.Getenv(...); v != "" { ... }` over a default.
pub given {ℓ} :
    {A : Type ℓ} → String → A → AuthConfigError → (String → Option A) → Result AuthConfigError A
given v default e read = if v == "" then ok default else or_invalid e (read v)

-- The last test of `LoadConfig`.
pub with_secret : String → ℤ → String → ℤ → Result AuthConfigError AuthConfig
with_secret secret port redis_addr expiration =
    if secret == ""
    then err secret_required
    else ok (record {
      port = port;
      redis_addr = redis_addr;
      jwt_secret = secret;
      token_expiration = expiration;
    })

module _ (getenv : String → String) (parse_duration : String → Option ℤ) where
  -- `LoadConfig`
  unfoldable pub load_config : Result AuthConfigError AuthConfig
  unfolding given with_secret
  load_config =
      let redis_addr = or_default "redis://localhost:6379" (getenv "REDIS_ADDR") in
      do
        port ← given (getenv "SERVICE_PORT_GRPC") (pos 5001) invalid_port atoi
        expiration ←
            given (getenv "TOKEN_EXPIRATION") (pos 3600000000000) invalid_expiration parse_duration
        with_secret (getenv "JWT_SECRET") port redis_addr expiration

-- `Login` of the server that `main` builds from the configuration. `add` is `Time.Add`.
abbrev pub served_login :
    (lib : Codecs)
    → (ℤ → lib.Time → lib.Time)
    → AuthConfig
    → (String → Result Fault User)
    → lib.Time
    → Option LoginRequest
    → Result Fault (LoginResponse lib.Time)
served_login lib add cfg = login lib (bytes_of cfg.jwt_secret) (add cfg.token_expiration)
