-- ===== src/Scenarios/Answers.antt =====
-- Which answers pass the checks that the scenarios share.
use grpc_api_gateway_session.Prelude.{◌≡◌, refl, ◌≢◌, String, true, false, ◌==◌, eq_iff, ok, arith}
use grpc_api_gateway_session.Scenarios.{ScenarioConfig, LoginReply, Client, login}

module _ {S : Type 0} (client : Client S) where
  -- A granted login with a token, an expiry and a role passes the checks.
  pub login-passes :
      (cfg : ScenarioConfig) (session_id : String) (r : LoginReply) (s : S)
      → client.login
          (record { username = cfg.username; password = cfg.password; session_id = session_id })
          s
        ≡ (ok r, s)
      → r.token ≢ ""
      → r.has_expiry ≡ true
      → r.role ≢ ""
      → login client cfg session_id s ≡ (ok r.token, s)
  unfolding login
  login-passes cfg session_id r s h token expiry role =
      let t : (r.token == "") ≡ false = ground (arith, eq_iff r.token "") in
      let o : (r.role == "") ≡ false = ground (arith, eq_iff r.role "") in rw (h, t, expiry, o) refl
