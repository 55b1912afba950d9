-- ===== src/Proxy/Calls.antt =====
-- What a run of the handler does to the resolver that all handlers share.
use grpc_api_gateway_session.Prelude.{
  ℕ, zero, suc, ◌≡◌, refl, sym, ap, ◌∙◌, inl, inr, String, Bool, true, false, not, if_rule, Option,
  none, some, List, [], ◌∷◌, ◌++◌, Result, ok, err, Bool-cases, Option-cases, Result-cases,
}
use grpc_api_gateway_session.GrpcError.{Error}
use grpc_api_gateway_session.Domain.{Route}
use grpc_api_gateway_session.RouteMatcher.{match}
use grpc_api_gateway_session.Headers.{Metadata}
use grpc_api_gateway_session.Resolver.{Resolver, Resolved}
use grpc_api_gateway_session.Resolver.Runs.{Call, gets, fails, call, calls, calls-append}
use grpc_api_gateway_session.Proxy.{
  Ending, eof, failed, Event, server_to_client, client_to_server, Env, Proxy, World, Stream, report,
  cancel, Attempt, no_connection, refused, streaming, last_round, or_again, open_on,
  with_connection, attempt, open_retrying, retryable, open_backend_stream, Outcome, finish,
  continue_with, broken, answered, replay, first_broken, exchange, start, forward, routed, handler,
}

module _ (env : Env) where
  -- The second resolver is what some calls make of the first.
  abbrev pub Follows : Resolver → Resolver → Type 0
  Follows r s = (cs : List Call) × (s ≡ calls env.dial cs r)

  Follows-refl : (r : Resolver) → Follows r r
  unfolding calls
  Follows-refl r = ([], refl)

  Follows-trans : (r s t : Resolver) → Follows r s → Follows s t → Follows r t
  Follows-trans r s t (cs, e) (ds, d) =
      (cs ++ ds, d ∙ ap (calls env.dial ds) e ∙ sym (calls-append env.dial cs ds r))

  Follows-call : (c : Call) (r : Resolver) → Follows r (call env.dial c r)
  unfolding calls
  Follows-call c r = (c ∷ [], refl)

  report-Follows :
      (route : Route) (key id : String) (w : World)
      → Follows w.resolver (report route key id w).resolver
  unfolding report call
  report-Follows route key id w = Follows-call (fails route key id) w.resolver

  module _ (proxy : Proxy) (route : Route) (md : Metadata) where
    -- The world behind a result follows the world before it.
    abbrev Leads {ℓ} : {A : Type ℓ} → World → A × World → Type 0
    Leads w r = Follows w.resolver r.1.resolver

    open_on-Leads : (found : Resolved) (w : World) → Leads w (open_on env proxy route md found w)
    unfolding open_on
    open_on-Leads (backend, key, id) w = elim (Option-cases (env.new_stream w.attempts backend)) [
      | inl n ↦ rw (n, open_on) (Follows-refl w.resolver)
      | inr (e, n) ↦
          rw (n, open_on) (report-Follows route key id (record w { attempts = suc w.attempts }))
    ]

    with_connection-Leads :
        (w : World) (found : Result Error Resolved × Resolver)
        → Follows w.resolver found.1
        → Leads w (with_connection env proxy route md w found)
    unfolding with_connection
    with_connection-Leads w (err e, r) h = h
    with_connection-Leads w (ok found, r) h =
        Follows-trans _ _ _ h (open_on-Leads found (record w { resolver = r }))

    attempt-Leads : (w : World) → Leads w (attempt env proxy route md w)
    unfolding attempt call
    attempt-Leads w = with_connection-Leads w _ (Follows-call (gets route md) w.resolver)

    last_round-Leads : (w : World) (a : Attempt × World) → Leads w a → Leads w (last_round a)
    last_round-Leads w (no_connection e, v) h = h
    last_round-Leads w (refused e, v) h = h
    last_round-Leads w (streaming s, v) h = h

    or_again-Leads :
        (again : World → Result Error Stream × World) (w : World) (a : Attempt × World)
        → ((v : World) → Leads v (again v))
        → Leads w a
        → Leads w (or_again again a)
    or_again-Leads again w (no_connection e, v) k h = h
    or_again-Leads again w (refused e, v) k h = Follows-trans _ _ _ h (k v)
    or_again-Leads again w (streaming s, v) k h = h

    open_retrying-Leads : (left : ℕ) (w : World) → Leads w (open_retrying env proxy route md left w)
    unfolding open_retrying
    open_retrying-Leads zero w = Follows-refl w.resolver
    open_retrying-Leads (suc zero) w = last_round-Leads w _ (attempt-Leads w)
    open_retrying-Leads (suc (suc left)) w =
        or_again-Leads _ w _ (open_retrying-Leads (suc left)) (attempt-Leads w)

    open-Leads : (w : World) → Leads w (open_backend_stream env proxy route md w)
    unfolding open_backend_stream
    open-Leads w = elim (Bool-cases (retryable env proxy route md)) [
      | inl e ↦ rw (e, open_backend_stream) (open_retrying-Leads proxy.retry_count w)
      | inr e ↦ rw (e, open_backend_stream) (last_round-Leads w _ (attempt-Leads w))
    ]

    continue-Leads :
        (again : Stream → World → Outcome × World) (s : Stream) (w : World)
        (r : Result Error Stream × World)
        → ((s' : Stream) (v : World) → Leads v (again s' v))
        → Leads w r
        → Leads w (continue_with env proxy route md again s r)
    unfolding continue_with finish cancel
    continue-Leads again s w (err e, v) k h = h
    continue-Leads again s w (ok s', v) k h = Follows-trans _ _ _ h (k s' v)

    broken-Leads :
        (gives_up : Bool) (e : Error) (again : Stream → World → Outcome × World) (s : Stream)
        (w : World)
        → ((s' : Stream) (v : World) → Leads v (again s' v))
        → Leads w (broken env proxy route md gives_up e again s w)
    unfolding broken finish cancel
    broken-Leads true e again s w k = report-Follows route s.sticky_key s.instance_id w
    broken-Leads false e again s w k =
        Follows-trans _ _ _ (report-Follows route s.sticky_key s.instance_id w) (
          continue-Leads again s (cancel s (report route s.sticky_key s.instance_id w)) _ k
            (open-Leads (cancel s (report route s.sticky_key s.instance_id w))))

    answered-Leads :
        (end : Ending) (gives_up : Bool) (again : Stream → World → Outcome × World) (s : Stream)
        (w : World)
        → ((s' : Stream) (v : World) → Leads v (again s' v))
        → Leads w (answered env proxy route md end gives_up again s w)
    unfolding answered finish cancel
    answered-Leads eof gives_up again s w k = Follows-refl w.resolver
    answered-Leads (failed e) gives_up again s w k = broken-Leads gives_up e again s w k

    replay-Leads :
        (fuel transfer : ℕ) (s : Stream) (w : World)
        → Leads w (replay env proxy route md fuel transfer s w)
    unfolding replay finish cancel
    replay-Leads zero transfer s w = Follows-refl w.resolver
    replay-Leads (suc fuel) transfer s w =
        if_rule (Leads w) (not env.has_first_msg) _ _ (λ _. Follows-refl w.resolver)
          λ _. elim (Option-cases (env.replay_send transfer)) [
            | inr (e, q) ↦ rw q (report-Follows route s.sticky_key s.instance_id w)
            | inl q ↦ rw q (
                answered-Leads (env.replay_end transfer) _ _ s w (replay-Leads fuel (suc transfer)))
          ]

    first_broken-Leads :
        (e : Error) (s : Stream) (w : World) → Leads w (first_broken env proxy route md e s w)
    unfolding first_broken
    first_broken-Leads e s w = broken-Leads _ e _ s w (replay-Leads proxy.retry_count 1)

    exchange-Leads :
        (left : ℕ) (events : List Event) (s : Stream) (w : World)
        → Leads w (exchange env proxy route md left events s w)
    unfolding exchange finish cancel
    exchange-Leads zero events s w = Follows-refl w.resolver
    exchange-Leads (suc left) [] s w = Follows-refl w.resolver
    exchange-Leads (suc left) (server_to_client eof ∷ events) s w = exchange-Leads left events s w
    exchange-Leads (suc left) (server_to_client (failed e) ∷ events) s w = first_broken-Leads e s w
    exchange-Leads (suc left) (client_to_server eof ∷ events) s w = Follows-refl w.resolver
    exchange-Leads (suc left) (client_to_server (failed e) ∷ events) s w = first_broken-Leads e s w

    start-Leads :
        (w : World) (r : Result Error Stream × World)
        → Leads w r
        → Leads w (start env proxy route md r)
    unfolding start
    start-Leads w (err e, v) h = h
    start-Leads w (ok s, v) h = Follows-trans _ _ _ h (exchange-Leads 2 env.events s v)

    forward-Leads : (w : World) → Leads w (forward env proxy route md w)
    unfolding forward
    forward-Leads w = start-Leads w _ (open-Leads w)

  routed-Follows :
      (proxy : Proxy) (md : Metadata) (method : String) (found : Option Route) (w : World)
      → Follows w.resolver (routed env proxy md method found w).1.resolver
  unfolding routed
  routed-Follows proxy md method none w = Follows-refl w.resolver
  routed-Follows proxy md method (some route) w = elim (Result-cases (proxy.headers md method)) [
    | inl (e, p) ↦ rw (p, routed) (Follows-refl w.resolver)
    | inr (out, p) ↦ rw (p, routed) (forward-Leads proxy route out w)
  ]

  -- A run of the handler changes the resolver only by calls of its methods.
  pub handler-Follows :
      (proxy : Proxy) (method : Option String) (md : Metadata) (w : World)
      → Follows w.resolver (handler env proxy method md w).1.resolver
  unfolding handler
  handler-Follows proxy none md w = Follows-refl w.resolver
  handler-Follows proxy (some method) md w =
      routed-Follows proxy md method (match proxy.router method) w
