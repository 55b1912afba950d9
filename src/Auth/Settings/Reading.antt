-- ===== src/Auth/Settings/Reading.antt =====
-- What MyAuth's configuration holds.
use mathlib.Core.Option.{some-injective}
use grpc_api_gateway_session.Prelude.{
  ◌≡◌, refl, sym, ◌∙◌, ap, ◌≢◌, ◌⊎◌, ◌↔◌, inl, inr, String, false, Option, some, ◌==◌, eq_iff, ok,
  ◌>>=◌, bind-eq-ok, ℤ, pos, arith, text-cases, Option-cases, ok-injective, subst,
}
use grpc_api_gateway_session.Config.{or_default}
use grpc_api_gateway_session.Config.Numbers.{atoi}
use grpc_api_gateway_session.Auth.Settings.{
  AuthConfig, AuthConfigError, invalid_port, invalid_expiration, or_invalid, given, with_secret,
  load_config,
}

-- A setting is its default where the name is unset, and what its text reads as where it is set.
abbrev pub IsRead {ℓ} : {A : Type ℓ} → String → A → (String → Option A) → A → Type ℓ
IsRead v default read a = ((v ≡ "") × (a ≡ default)) ⊎ ((v ≢ "") × (read v ≡ some a))

given_iff {ℓ} :
    {A : Type ℓ} (v : String) (default : A) (e : AuthConfigError) (read : String → Option A) (a : A)
    → (given v default e read ≡ ok a) ↔ IsRead v default read a
unfolding given
given_iff v default e read a = (from, back)
  where
    from : given v default e read ≡ ok a → IsRead v default read a
    from h = elim (text-cases v "") [
      | inl (q, p) ↦ inl (p, sym (ok-injective (rw (q, given) at h)))
      | inr (q, p) ↦ elim (Option-cases (read v)) [
        | inl n ↦ absurd (cc (rw (q, given, n, or_invalid) at h))
        | inr (b, n) ↦ inr (p, n ∙ ap some (ok-injective (rw (q, given, n, or_invalid) at h)))
      ]
    ]

    back : IsRead v default read a → given v default e read ≡ ok a
    back (inl (p, d)) = rw ((eq_iff v "").1 p, given) (ap ok (sym d))
    back (inr (p, r)) =
        let set : (v == "") ≡ false = ground (arith, eq_iff v "") in
        rw (set, given, r, or_invalid) refl

-- What the loader reads from the environment.
pub record IsConfigured (getenv : String → String) (parse_duration : String → Option ℤ)
    (cfg : AuthConfig) : Type 0 where
  pub port : IsRead (getenv "SERVICE_PORT_GRPC") (pos 5001) atoi cfg.port
  pub redis_addr : IsRead (getenv "REDIS_ADDR") "redis://localhost:6379" some cfg.redis_addr
  pub expiration :
      IsRead (getenv "TOKEN_EXPIRATION") (pos 3600000000000) parse_duration cfg.token_expiration
  pub secret : cfg.jwt_secret ≡ getenv "JWT_SECRET"
  pub has_secret : getenv "JWT_SECRET" ≢ ""

or_default-IsRead : (d v : String) → IsRead v d some (or_default d v)
or_default-IsRead d v = elim (text-cases v "") [
  | inl (q, p) ↦ inl (p, rw (q, or_default) refl)
  | inr (q, p) ↦ inr (p, rw (q, or_default) refl)
]

IsRead-or_default : (d v a : String) → IsRead v d some a → or_default d v ≡ a
IsRead-or_default d v a (inl (p, e)) = rw ((eq_iff v "").1 p) (sym e)
IsRead-or_default d v a (inr (p, e)) = ground (arith, eq_iff v "", some-injective v a e)

module _ (getenv : String → String) (parse_duration : String → Option ℤ) where
  load_config-IsConfigured :
      (cfg : AuthConfig)
      → load_config getenv parse_duration ≡ ok cfg
      → IsConfigured getenv parse_duration cfg
  unfolding load_config with_secret
  load_config-IsConfigured cfg h =
      let addr = or_default "redis://localhost:6379" (getenv "REDIS_ADDR") in
      let rest = λ (port : ℤ).
        given (getenv "TOKEN_EXPIRATION") (pos 3600000000000) invalid_expiration parse_duration
        >>= with_secret (getenv "JWT_SECRET") port addr in
      let (port, e, h1) =
        bind-eq-ok (given (getenv "SERVICE_PORT_GRPC") (pos 5001) invalid_port atoi) rest cfg h in
      let (expiration, d, h2) =
        bind-eq-ok
          (given (getenv "TOKEN_EXPIRATION") (pos 3600000000000) invalid_expiration parse_duration)
          (with_secret (getenv "JWT_SECRET") port addr) cfg h1 in
      elim (text-cases (getenv "JWT_SECRET") "") [
        | inl (q, p) ↦ absurd (cc (rw (q, with_secret) at h2))
        | inr (q, p) ↦
            subst (IsConfigured getenv parse_duration) (ok-injective (rw (q, with_secret) at h2))
              (record {
                port = (given_iff _ _ invalid_port atoi port).0 e;
                redis_addr = or_default-IsRead _ (getenv "REDIS_ADDR");
                expiration = (given_iff _ _ invalid_expiration parse_duration expiration).0 d;
                secret = refl;
                has_secret = p;
              })
      ]

  IsConfigured-load_config :
      (cfg : AuthConfig)
      → IsConfigured getenv parse_duration cfg
      → load_config getenv parse_duration ≡ ok cfg
  unfolding load_config with_secret
  IsConfigured-load_config cfg c =
      let set : (getenv "JWT_SECRET" == "") ≡ false =
        ground (arith, eq_iff (getenv "JWT_SECRET") "", c.has_secret) in
      rw
        (
          (given_iff _ _ invalid_port _ cfg.port).1 c.port,
          (given_iff _ _ invalid_expiration _ cfg.token_expiration).1 c.expiration,
          set,
          IsRead-or_default _ _ cfg.redis_addr c.redis_addr,
        )
        (rw (← c.secret) refl)

  -- MyAuth's configuration is loaded exactly if the secret is set, and the port and the expiry of
  -- tokens are unset or can be read; it then holds the secret as it stands, the values read, and the
  -- defaults for what is unset.
  pub load_config_iff :
      (cfg : AuthConfig)
      → (load_config getenv parse_duration ≡ ok cfg) ↔ IsConfigured getenv parse_duration cfg
  load_config_iff cfg = (load_config-IsConfigured cfg, IsConfigured-load_config cfg)
