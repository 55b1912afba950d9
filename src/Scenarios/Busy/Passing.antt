-- ===== src/Scenarios/Busy/Passing.antt =====
-- The scenario of busy instances against the resolver of the gateway.
use Prim.Native.String
use text.Mathlib.TextLemmas.{cons-append}
use grpc_api_gateway_session.Prelude.{
  ℕ, ◌≡◌, refl, sym, ap, ◌∙◌, ◌≢◌, String, Bool, true, false, Option, none, some, List, [], ◌∷◌,
  ◌==◌, eq_iff, arith, Result, ok, err, lookup, All,
}
use grpc_api_gateway_session.GrpcError.{
  Code, resource_exhausted, Error, sentinel, gateway_error_to_grpc, err_no_available_conn_instance,
}
use grpc_api_gateway_session.GrpcError.Table.{StatusLibrary, bare, gateway_error_to_grpc-sentinel}
use grpc_api_gateway_session.Domain.{ServiceInstance, Route, ClusterId, balancer_sticky_session}
use grpc_api_gateway_session.Headers.{Metadata, get_header_value}
use grpc_api_gateway_session.Text.{to_lower}
use grpc_api_gateway_session.Auth.{LoginRequest}
use grpc_api_gateway_session.Pool.{Pool, Answer, no_available_conn_instance, get_connection_for_key}
use grpc_api_gateway_session.Pool.Capacity.Spread.{answered_id, Turns, keys_of, ids_of, IsSpread}
use grpc_api_gateway_session.Pool.Capacity.Filling.{serve_keys, serve_keys-fills}
use grpc_api_gateway_session.Resolver.{
  Resolver, Resolved, get_connection, sticky_header, from_pool, pool_error,
}
use grpc_api_gateway_session.Scenarios.{
  ScenarioConfig, LoginReply, EchoReply, Client, echo_value, signed_in, pairs, login, echo,
  echo_faults, unless_fault,
}
use grpc_api_gateway_session.Resolver.Sticky.{
  HasPool, put_pool, put_pool-HasPool, get_connection-sticky,
}
use grpc_api_gateway_session.Scenarios.Answers.{login-passes}
use grpc_api_gateway_session.Scenarios.LoginErrors.Passing.{refuses-answered}
use grpc_api_gateway_session.Scenarios.Unauthenticated.{says_exactly}
use grpc_api_gateway_session.Scenarios.Busy.{
  LoggedIn, session_of, login_all, occupy, turn_away, fill_up, run_no_instances_available,
}

-- Occupants with the instances that they are meant to get.
abbrev pub Seats : Type 0
Seats = List (LoggedIn × ServiceInstance)

abbrev pub occupants : Seats → List LoggedIn
occupants [] = []
occupants ((logged_in, inst) ∷ seats) = logged_in ∷ occupants seats

abbrev pub turns : (stamp : String → String) → Seats → Turns
turns stamp [] = []
turns stamp ((logged_in, inst) ∷ seats) = (session_of stamp logged_in.0, inst) ∷ turns stamp seats

head_of :
    {A : Type 0} (x y : A) (xs ys : List A)
    → ◌≡◌ {A = List A} (x ∷ xs) (y ∷ ys)
    → (x ≡ y) × (xs ≡ ys)
head_of x y xs ys e = (cc, cc)

module _ (granted : LoginRequest → LoginReply) (cfg : ScenarioConfig)
    (stamp : String → String) where
  abbrev pub token_of : String → String
  token_of number =
      (granted (record {
        username = cfg.username;
        password = cfg.password;
        session_id = session_of stamp number;
      })).token

  abbrev pub seat : String → ServiceInstance → LoggedIn × ServiceInstance
  seat number inst = ((number, token_of number), inst)

  abbrev pub three_seats : (inst1 inst2 inst3 : ServiceInstance) → Seats
  three_seats inst1 inst2 inst3 = seat "1" inst1 ∷ seat "2" inst2 ∷ seat "3" inst3 ∷ []

module _ (from_error : Error → Option (Code × String)) (grpc : StatusLibrary from_error)
    (dial : ClusterId → ℕ → ServiceInstance → Bool) (route : Route)
    (service : String → String → EchoReply) where
  abbrev sent : Option Error → Result Error EchoReply → Result Error EchoReply
  sent none r = r
  sent (some e) r = err e

  -- What the gateway sends for the connection that the resolver gives it; the instance answers with
  -- what `service` says for the session and the instance.
  abbrev pub echoed : Result Error Resolved × Resolver → Result Error EchoReply × Resolver
  echoed (ok (c, key, id), r) = (ok (service key id), r)
  echoed (err e, r) = (sent (gateway_error_to_grpc from_error (some e)) (err e), r)

  -- A client whose echo calls the gateway resolves along the route.
  abbrev pub IsResolved : Client Resolver → Type 0
  IsResolved client =
      (md : Metadata) (value : String) (r : Resolver)
      → client.echo md value r ≡ echoed (get_connection dial route md r)

  abbrev pub LogsIn : (LoginRequest → LoginReply) → Client Resolver → Type 0
  LogsIn granted client =
      (req : LoginRequest) (r : Resolver)
      → (client.login req r ≡ (ok (granted req), r))
        × ((granted req).token ≢ "")
        × ((granted req).has_expiry ≡ true)
        × ((granted req).role ≢ "")

  session_of-ne : (stamp : String → String) (number : String) → session_of stamp number ≢ ""
  session_of-ne stamp number e = cc (
      sym (
        cons-append "i" "ntegration-test-session"
          (String.◌++◌ "-noinst-" (String.◌++◌ number (String.◌++◌ "-" (stamp number)))))
      ∙ e)

  session_of-found :
      (stamp : String → String) (number token : String)
      → get_header_value (signed_in token (session_of stamp number)) "session-id"
        ≡ some (session_of stamp number)
  unfolding get_header_value signed_in pairs to_lower
  session_of-found stamp number token =
      let e : (session_of stamp number == "") ≡ false =
        ground (arith, eq_iff (session_of stamp number) "", session_of-ne stamp number) in
      rw e refl

  module _ (client : String → Client Resolver) (stamp : String → String)
      (resolved : (number : String) → IsResolved (client number))
      (sticky : route.balancer.kind ≡ balancer_sticky_session)
      (by_session : sticky_header route ≡ "session-id")
      (serves : (key id : String) → echo_faults "" (service key id) ≡ none) where
    echo-resolved :
        (number token value : String) (p : Pool) (r : Resolver)
        → HasPool dial route p r
        → (client number).echo (signed_in token (session_of stamp number)) value r
          ≡ echoed (
              from_pool route.cluster
                (session_of stamp number)
                r
                (get_connection_for_key (dial route.cluster) (session_of stamp number) p))
    echo-resolved number token value p r h =
        resolved number (signed_in token (session_of stamp number)) value r
        ∙ ap echoed (
            get_connection-sticky dial route (session_of stamp number)
              (signed_in token (session_of stamp number)) p r h sticky
              (ap (get_header_value (signed_in token (session_of stamp number))) by_session
                ∙ session_of-found stamp number token))

    occupant-passes :
        (key number token : String) (id : String) (a : Answer × Pool) (p : Pool) (r : Resolver)
        → (client number).echo (signed_in token key) echo_value r
          ≡ echoed (from_pool route.cluster key r a)
        → answered_id a.0 ≡ some id
        → (pod : String) × (echo (client number) (signed_in token key) "" r
            ≡ (ok pod, put_pool dial route a.1 r))
    unfolding echo put_pool unless_fault
    occupant-passes key number token id (ok (c, i), q) p r e h =
        ((service key i).pod_name, rw (e, serves key i) refl)
    occupant-passes key number token id (err x, q) p r e h = absurd (cc h)

    occupy-passes :
        (seats : Seats) (p : Pool) (r : Resolver)
        → HasPool dial route p r
        → (serve_keys (dial route.cluster) (keys_of (turns stamp seats)) p).0
          ≡ ids_of (turns stamp seats)
        → (t : Resolver) × (occupy from_error client stamp (occupants seats) r ≡ (ok tt, t))
          × HasPool dial route (serve_keys (dial route.cluster) (keys_of (turns stamp seats)) p).1 t
    unfolding occupy serve_keys
    occupy-passes [] p r has e = (r, refl, has)
    occupy-passes (((number, token), inst) ∷ seats) p r has e =
        let key = session_of stamp number in
        let a = get_connection_for_key (dial route.cluster) key p in
        let (here, later) = head_of _ _ _ _ e in
        let (pod, f) =
          occupant-passes key number token inst.instance_id a p r
            (echo-resolved number token echo_value p r has) here in
        let (t, g, still) =
          occupy-passes seats a.1 (put_pool dial route a.1 r)
            (put_pool-HasPool dial route p a.1 r has) later in
        (t, rw (f) g, still)

    turn_away-passes :
        (number token : String) (p : Pool) (r : Resolver)
        → HasPool dial route p r
        → get_connection_for_key (dial route.cluster) (session_of stamp number) p
          ≡ (err no_available_conn_instance, p)
        → turn_away from_error client stamp (number, token) r ≡ (ok tt, put_pool dial route p r)
    unfolding turn_away put_pool
    turn_away-passes number token p r has full =
        let key = session_of stamp number in
        refuses-answered from_error grpc (says_exactly resource_exhausted "all instances are busy")
          "expected RESOURCE_EXHAUSTED" ((client number).echo (signed_in token key) echo_value) r
          (put_pool dial route p r) resource_exhausted "all instances are busy"
          (echo-resolved number token echo_value p r has
            ∙ ap (λ (a : Answer × Pool). echoed (from_pool route.cluster key r a)) full
            ∙ ap
                (λ (e : Option Error).
                  (sent e (err (pool_error no_available_conn_instance)), put_pool dial route p r))
                (gateway_error_to_grpc-sentinel from_error grpc err_no_available_conn_instance
                  (sentinel err_no_available_conn_instance) bare))
          refl

    module _ (granted : LoginRequest → LoginReply) (cfg : ScenarioConfig)
        (logs_in : (number : String) → LogsIn granted (client number)) where
      login-granted :
          (number : String) (r : Resolver)
          → login (client number) cfg (session_of stamp number) r
            ≡ (ok (token_of granted cfg stamp number), r)
      login-granted number r =
          let (h, token, expiry, role) =
            logs_in number
              (record {
                username = cfg.username;
                password = cfg.password;
                session_id = session_of stamp number;
              })
              r in
          login-passes (client number) cfg (session_of stamp number) _ r h token expiry role

      -- The scenario passes against the resolver, the pool and the error mapping of the gateway, if the
      -- clients log in, their echo calls are resolved along a route with sticky sessions under
      -- session-id, the instances answer as they should, the open pool of the route lists three
      -- instances with different IDs that no key holds and that can be dialled, and the four sessions
      -- differ and have no binding yet.
      pub run_no_instances_available-passes :
          (inst1 inst2 inst3 : ServiceInstance) (p : Pool) (r : Resolver)
          → lookup route.cluster r.static_conns ≡ none
          → lookup route.cluster r.pools ≡ some p
          → p.instances ≡ inst1 ∷ inst2 ∷ inst3 ∷ []
          → IsSpread p.key_to_id (turns stamp (three_seats granted cfg stamp inst1 inst2 inst3))
          → p.closed ≡ false
          → ((n : ℕ) (i : ServiceInstance) → dial route.cluster n i ≡ true)
          → lookup (session_of stamp "4") p.key_to_id ≡ none
          → All
              (λ (key : String). key ≢ session_of stamp "4")
              (keys_of (turns stamp (three_seats granted cfg stamp inst1 inst2 inst3)))
          → (run_no_instances_available from_error client stamp cfg r).0 ≡ ok tt
      unfolding run_no_instances_available login_all fill_up
      run_no_instances_available-passes inst1 inst2 inst3 p r static has listed spread opened up new
            apart =
          let seats = three_seats granted cfg stamp inst1 inst2 inst3 in
          let here : HasPool dial route p r = record { no_static = static; has_pool = has } in
          let (ids, full) =
            serve_keys-fills (dial route.cluster) (turns stamp seats) p (session_of stamp "4")
              listed spread opened up (session_of-ne stamp "4") new apart in
          let (t, passed, there) = occupy-passes seats p r here ids in
          rw
            (
              login-granted "1" r,
              login-granted "2" r,
              login-granted "3" r,
              login-granted "4" r,
              passed,
              turn_away-passes "4" (token_of granted cfg stamp "4")
                  (serve_keys (dial route.cluster) (keys_of (turns stamp seats)) p).1 t there full,
            )
            refl
