-- ===== src/Discoverer/Settings/Reading.antt =====
-- What MyDiscoverer's configuration holds, and which kind of client it leads to.
use grpc_api_gateway_session.Prelude.{
  ◌≡◌, refl, sym, ap, ◌∙◌, ◌≢◌, ◌↔◌, inl, inr, String, false, some, ◌==◌, eq_iff, ok, ok-injective,
  ℤ, arith, text-cases, Option-cases,
}
use grpc_api_gateway_session.Config.Numbers.{atoi}
use grpc_api_gateway_session.Discoverer.Settings.{MyDiscovererConfig, with_port, load_config}

pub record IsConfigured (getenv : String → String) (cfg : MyDiscovererConfig) : Type 0 where
  pub addr : cfg.redis.addr ≡ getenv "REDIS_ADDR"
  pub has_addr : getenv "REDIS_ADDR" ≢ ""
  pub port : atoi (getenv "SERVICE_PORT_HTTP") ≡ some cfg.http_port

with_port-eq-ok :
    (getenv : String → String) (cfg : MyDiscovererConfig)
    → getenv "REDIS_ADDR" ≢ ""
    → with_port (getenv "REDIS_ADDR") (atoi (getenv "SERVICE_PORT_HTTP")) ≡ ok cfg
    → IsConfigured getenv cfg
unfolding with_port
with_port-eq-ok getenv cfg has h = elim (Option-cases (atoi (getenv "SERVICE_PORT_HTTP"))) [
  | inl n ↦ absurd (cc (rw (n, with_port) at h))
  | inr (p, n) ↦
      let e = ok-injective (rw (n, with_port) at h) in
      record {
        addr = ap (λ (c : MyDiscovererConfig). c.redis.addr) (sym e);
        has_addr = has;
        port = n ∙ ap (λ (c : MyDiscovererConfig). some c.http_port) e;
      }
]

empty_number : {n : ℤ} → atoi "" ≡ some n → ⊥
unfolding atoi
empty_number h = cc

module _ (getenv : String → String) where
  -- MyDiscoverer's configuration is loaded exactly if the address of Redis is set and the port can be
  -- read; it then holds the two.
  pub load_config-IsConfigured :
      (cfg : MyDiscovererConfig) → (load_config getenv ≡ ok cfg) ↔ IsConfigured getenv cfg
  unfolding load_config with_port
  load_config-IsConfigured cfg = (from, back)
    where
      from : load_config getenv ≡ ok cfg → IsConfigured getenv cfg
      from h = elim (text-cases (getenv "REDIS_ADDR") "") [
        | inl (q, p) ↦ absurd (cc (rw (q, load_config) at h))
        | inr (q, p) ↦ elim (text-cases (getenv "SERVICE_PORT_HTTP") "") [
          | inl (r, e) ↦ absurd (cc (rw (q, r, load_config) at h))
          | inr (r, e) ↦ with_port-eq-ok getenv cfg p (rw (q, r, load_config) at h)
        ]
      ]

      back : IsConfigured getenv cfg → load_config getenv ≡ ok cfg
      back c = elim (text-cases (getenv "SERVICE_PORT_HTTP") "") [
        | inl (r, e) ↦ absurd (empty_number (ap atoi (sym e) ∙ c.port))
        | inr (r, e) ↦
            let set : (getenv "REDIS_ADDR" == "") ≡ false =
              ground (arith, eq_iff (getenv "REDIS_ADDR") "", c.has_addr) in
            rw (set, load_config, r, c.port, with_port) (rw (← c.addr) refl)
      ]
