-- ===== src/Proxy/Bounds.antt =====
-- How often a run of the handler tries to open a stream.
use grpc_api_gateway_session.Prelude.{
  ℕ, zero, suc, ◌+◌, ◌-◌, ◌*◌, ◌≤◌, ◌≡◌, refl, inl, inr, String, Bool, true, false, some, List, [],
  ◌∷◌, Result, ok, err, any, ◌==◌, if◌then◌else◌, arith, Bool-cases, Option-cases, Result-cases,
}
use grpc_api_gateway_session.GrpcError.{Error}
use grpc_api_gateway_session.Domain.{Route}
use grpc_api_gateway_session.RouteMatcher.{match}
use grpc_api_gateway_session.Headers.{Metadata}
use grpc_api_gateway_session.Resolver.{Resolver, Resolved, get_connection}
use grpc_api_gateway_session.Proxy.{
  Ending, eof, failed, Event, server_to_client, client_to_server, Env, Proxy, World, Stream, report,
  cancel, Attempt, no_connection, refused, streaming, last_round, or_again, open_on,
  with_connection, attempt, open_retrying, retryable, open_backend_stream, Outcome, finish,
  continue_with, broken, is_last, answered, replay, first_broken, exchange, start, forward, routed,
  handler,
}

-- `rounds` times `n`, by recursion on the rounds.
abbrev times : ℕ → ℕ → ℕ
times zero n = 0
times (suc rounds) n = n + times rounds n

times-eq : (rounds n : ℕ) → times rounds n ≡ rounds * n
times-eq zero n = omega arith
times-eq (suc rounds) n = grind (arith, times-eq rounds n)

-- The attempts of a result, over those before.
abbrev Spends {ℓ} : {A : Type ℓ} → ℕ → World → A × World → Type 0
Spends n w r = r.1.attempts ≤ w.attempts + n

module _ (env : Env) (proxy : Proxy) (route : Route) (md : Metadata) where
  open_on-Spends : (found : Resolved) (w : World) → Spends 1 w (open_on env proxy route md found w)
  unfolding open_on report
  open_on-Spends (backend, key, id) w = elim (Option-cases (env.new_stream w.attempts backend)) [
    | inl n ↦ rw (n, open_on) (omega arith)
    | inr (e, n) ↦ rw (n, open_on) (omega arith)
  ]

  with_connection-Spends :
      (w : World) (found : Result Error Resolved × Resolver)
      → Spends 1 w (with_connection env proxy route md w found)
  unfolding with_connection
  with_connection-Spends w (err e, r) = omega arith
  with_connection-Spends w (ok found, r) = open_on-Spends found (record w { resolver = r })

  attempt-Spends : (w : World) → Spends 1 w (attempt env proxy route md w)
  unfolding attempt
  attempt-Spends w = with_connection-Spends w (get_connection env.dial route md w.resolver)

  last_round-Spends :
      (n : ℕ) (w : World) (a : Attempt × World) → Spends n w a → Spends n w (last_round a)
  last_round-Spends n w (no_connection e, v) h = h
  last_round-Spends n w (refused e, v) h = h
  last_round-Spends n w (streaming s, v) h = h

  or_again-Spends :
      (n : ℕ) (again : World → Result Error Stream × World) (w : World) (a : Attempt × World)
      → ((v : World) → Spends n v (again v))
      → Spends 1 w a
      → Spends (suc n) w (or_again again a)
  or_again-Spends n again w (no_connection e, v) k h = omega arith
  or_again-Spends n again w (refused e, v) k h = omega (arith, k v)
  or_again-Spends n again w (streaming s, v) k h = omega arith

  open_retrying-Spends :
      (left : ℕ) (w : World) → Spends left w (open_retrying env proxy route md left w)
  unfolding open_retrying
  open_retrying-Spends zero w = omega arith
  open_retrying-Spends (suc zero) w = last_round-Spends 1 w _ (attempt-Spends w)
  open_retrying-Spends (suc (suc left)) w =
      or_again-Spends (suc left) _ w _ (open_retrying-Spends (suc left)) (attempt-Spends w)

  -- What one opening of a stream may spend.
  budget : ℕ
  budget = if retryable env proxy route md then proxy.retry_count else 1

  open-Spends : (w : World) → Spends budget w (open_backend_stream env proxy route md w)
  unfolding open_backend_stream budget
  open-Spends w = elim (Bool-cases (retryable env proxy route md)) [
    | inl e ↦ rw (e, open_backend_stream) (open_retrying-Spends proxy.retry_count w)
    | inr e ↦ rw (e, open_backend_stream) (last_round-Spends 1 w _ (attempt-Spends w))
  ]

  continue-Spends :
      (n : ℕ) (again : Stream → World → Outcome × World) (s : Stream) (w : World)
      (r : Result Error Stream × World)
      → ((s' : Stream) (v : World) → Spends n v (again s' v))
      → Spends budget w r
      → Spends (budget + n) w (continue_with env proxy route md again s r)
  unfolding continue_with finish cancel
  continue-Spends n again s w (err e, v) k h = omega arith
  continue-Spends n again s w (ok s', v) k h = omega (arith, k s' v)

  -- A handler that goes on has transfers left, which the rounds count.
  broken-Spends :
      (rounds : ℕ) (gives_up : Bool) (e : Error) (again : Stream → World → Outcome × World)
      (s : Stream) (w : World)
      → (gives_up ≡ false
          → (k : ℕ) × (rounds ≡ suc k)
            × ((s' : Stream) (v : World) → Spends (times k budget) v (again s' v)))
      → Spends (times rounds budget) w (broken env proxy route md gives_up e again s w)
  unfolding broken cancel report finish
  broken-Spends rounds true e again s w h = omega arith
  broken-Spends rounds false e again s w h =
      let (k, eq, goes) = h refl in
      rw eq (
        continue-Spends (times k budget) again s w _ goes
          (open-Spends (cancel s (report route s.sticky_key s.instance_id w))))

  answered-Spends :
      (rounds : ℕ) (end : Ending) (gives_up : Bool) (again : Stream → World → Outcome × World)
      (s : Stream) (w : World)
      → (gives_up ≡ false
          → (k : ℕ) × (rounds ≡ suc k)
            × ((s' : Stream) (v : World) → Spends (times k budget) v (again s' v)))
      → Spends (times rounds budget) w (answered env proxy route md end gives_up again s w)
  unfolding answered finish cancel
  answered-Spends rounds eof gives_up again s w h = omega arith
  answered-Spends rounds (failed e) gives_up again s w h = broken-Spends rounds _ e again s w h

  -- Transfers left after one with this number.
  rounds_left : ℕ → ℕ
  rounds_left transfer =
      if retryable env proxy route md then proxy.retry_count - suc transfer else 0

  goes_on :
      (transfer : ℕ)
      → retryable env proxy route md ≡ true
      → is_last env proxy route md transfer ≡ false
      → rounds_left transfer ≡ suc (rounds_left (suc transfer))
  unfolding is_last rounds_left
  goes_on transfer r h = ground arith

  replay-Spends :
      (fuel transfer : ℕ) (s : Stream) (w : World)
      → Spends (times (rounds_left transfer) budget) w (replay env proxy route md fuel transfer s w)
  unfolding replay finish cancel report rounds_left budget retryable
  replay-Spends zero transfer s w = omega arith
  replay-Spends (suc fuel) transfer s w = elim (Bool-cases env.has_first_msg) [
    | inr m ↦ rw (m, replay) (omega arith)
    | inl m ↦ elim (Option-cases (env.replay_send transfer)) [
      | inr (e, q) ↦ rw (m, q, replay) (omega arith)
      | inl q ↦
          rw (m, q, replay)
            (answered-Spends (rounds_left transfer) (env.replay_end transfer) _ _ s w λ goes. (
              rounds_left (suc transfer),
              goes_on transfer (ground arith) (ground arith),
              replay-Spends fuel (suc transfer),
            ))
    ]
  ]

  first_broken-Spends :
      (e : Error) (s : Stream) (w : World)
      → Spends (times (rounds_left 0) budget) w (first_broken env proxy route md e s w)
  unfolding first_broken
  first_broken-Spends e s w = broken-Spends (rounds_left 0) _ e _ s w λ goes.
      (rounds_left 1, goes_on 0 (ground arith) (ground arith), replay-Spends proxy.retry_count 1)

  exchange-Spends :
      (left : ℕ) (events : List Event) (s : Stream) (w : World)
      → Spends (times (rounds_left 0) budget) w (exchange env proxy route md left events s w)
  unfolding exchange finish cancel
  exchange-Spends zero events s w = omega arith
  exchange-Spends (suc left) [] s w = omega arith
  exchange-Spends (suc left) (server_to_client eof ∷ events) s w = exchange-Spends left events s w
  exchange-Spends (suc left) (server_to_client (failed e) ∷ events) s w = first_broken-Spends e s w
  exchange-Spends (suc left) (client_to_server eof ∷ events) s w = omega arith
  exchange-Spends (suc left) (client_to_server (failed e) ∷ events) s w = first_broken-Spends e s w

  start-Spends :
      (w : World) (r : Result Error Stream × World)
      → Spends budget w r
      → Spends (budget + times (rounds_left 0) budget) w (start env proxy route md r)
  unfolding start
  start-Spends w (err e, v) h = omega arith
  start-Spends w (ok s, v) h = omega (arith, exchange-Spends 2 env.events s v)

  -- The square of the retry count, or one attempt where the cluster is not dynamic.
  abbrev pub attempts_allowed : ℕ
  attempts_allowed =
      if any (λ cluster. cluster == route.cluster) proxy.dynamic_clusters
      then proxy.retry_count * proxy.retry_count
      else 1

  square : (n : ℕ) → n + times (n - 1) n ≡ n * n
  square zero = omega arith
  square (suc n) = grind (arith, times-eq n (suc n))

  spent : budget + times (rounds_left 0) budget ≡ attempts_allowed
  unfolding budget rounds_left retryable
  spent = elim (Bool-cases (retryable env proxy route md)) [
    | inl e ↦ rw e (square proxy.retry_count)
    | inr e ↦ rw e (omega arith)
  ]

  forward-Spends : (w : World) → Spends attempts_allowed w (forward env proxy route md w)
  unfolding forward
  forward-Spends w = rw (← spent) (start-Spends w _ (open-Spends w))

module _ (env : Env) (proxy : Proxy) where
  -- A run of the handler on a routed method tries to open a stream at most as often as the square of
  -- the retry count if the cluster of the route is dynamic, and at most once if it is not.
  pub handler-attempts :
      (method : String) (md : Metadata) (route : Route) (w : World)
      → match proxy.router method ≡ some route
      → (handler env proxy (some method) md w).1.attempts
        ≤ w.attempts + attempts_allowed env proxy route md
  unfolding handler routed
  handler-attempts method md route w found = elim (Result-cases (proxy.headers md method)) [
    | inl (e, p) ↦ rw (found, handler, p, routed) (omega arith)
    | inr (out, p) ↦ rw (found, handler, p, routed) (forward-Spends env proxy route out w)
  ]
