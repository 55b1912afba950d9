-- ===== src/Proxy/Authorized.antt =====
-- The handler behind the auth processor, wired as MyGateway/cmd/main.go wires them.
use grpc_api_gateway_session.Prelude.{
  ℕ, ◌≡◌, refl, ◌∙◌, inl, inr, String, Bool, some, List, [], ◌∷◌, Result, ok, err, Result-cases,
}
use grpc_api_gateway_session.GrpcError.{Error}
use grpc_api_gateway_session.Domain.{Route, RouteConfig, ClusterId, authorization_required}
use grpc_api_gateway_session.RouteMatcher.{RouteMatcher, new_route_matcher, match}
use grpc_api_gateway_session.Headers.{
  Metadata, HeaderProcessor, process_chain, process_auth, auth_rules, mode_for,
}
use grpc_api_gateway_session.Headers.Gate.{IsAuthorized, process_auth_iff}
use grpc_api_gateway_session.Headers.Agreement.{mode_for-match_lem}
use grpc_api_gateway_session.Proxy.{Env, Proxy, World, returned, routed, handler}

module _ (validate : String → String → Result String Bool) where
  -- The chain of the one auth processor.
  abbrev pub auth_chain : RouteConfig → HeaderProcessor
  auth_chain cfg = process_chain (process_auth validate (auth_rules cfg.routes) ∷ [])

  abbrev pub wired : RouteConfig → RouteMatcher → ℕ → List ClusterId → Proxy
  wired cfg m retry_count dynamic_clusters = record {
    router = m;
    headers = auth_chain cfg;
    retry_count = retry_count;
    dynamic_clusters = dynamic_clusters;
  }

  auth_chain-refuses :
      (cfg : RouteConfig) (md : Metadata) (method : String)
      → mode_for (auth_rules cfg.routes) method ≡ authorization_required
      → (IsAuthorized validate md → ⊥)
      → (e : Error) × (auth_chain cfg md method ≡ err e)
  unfolding process_chain
  auth_chain-refuses cfg md method required denied =
      elim (Result-cases (process_auth validate (auth_rules cfg.routes) md method)) [
        | inl (e, h) ↦ (e, rw (h, process_chain) refl)
        | inr (out, h) ↦
            elim ((process_auth_iff validate (auth_rules cfg.routes) md out method).0 h).1 [
              | inl other ↦ absurd (other required)
              | inr granted ↦ absurd (denied granted)
            ]
      ]

  -- A request on a route that requires authorization, without a session and a token that the
  -- validator accepts for it, is refused before anything happens: no connection is taken, no stream
  -- opened, no backend reported and no session bound.
  pub handler-refuses :
      (env : Env) (cfg : RouteConfig) (m : RouteMatcher) (retry_count : ℕ)
      (dynamic_clusters : List ClusterId) (method : String) (md : Metadata) (route : Route)
      (w : World)
      → new_route_matcher cfg ≡ ok m
      → match m method ≡ some route
      → route.authorization ≡ authorization_required
      → (IsAuthorized validate md → ⊥)
      → (e : Error) × (handler env (wired cfg m retry_count dynamic_clusters) (some method) md w
          ≡ (returned (some e), w))
  unfolding handler routed
  handler-refuses env cfg m retry_count dynamic_clusters method md route w built found required
        denied =
      let (e, h) =
        auth_chain-refuses cfg md method
          (mode_for-match_lem cfg m method route built found ∙ required) denied in
      (e, rw (found, h, handler, routed) refl)
