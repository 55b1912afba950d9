-- ===== src/Proxy/Streams.antt =====
-- What a run of the handler leaves behind, from the opened stream on.
use grpc_api_gateway_session.Prelude.{
  ℕ, zero, suc, ◌+◌, ◌≤◌, ◌<◌, ◌≡◌, refl, ◌≢◌, inl, inr, String, Bool, true, false, not, ◌||◌,
  Option, none, some, List, [], ◌∷◌, Result, ok, err, length, arith, Option-cases, Result-cases,
}
use grpc_api_gateway_session.GrpcError.{Error}
use grpc_api_gateway_session.Domain.{Route}
use grpc_api_gateway_session.RouteMatcher.{match}
use grpc_api_gateway_session.Headers.{Metadata}
use grpc_api_gateway_session.Proxy.{
  Ending, eof, failed, Event, server_to_client, client_to_server, Env, Proxy, World, Stream, report,
  cancel, Outcome, returned, blocked, out_of_fuel, finish, retryable, continue_with, broken,
  is_last, answered, replay, first_broken, exchange, start, forward, routed, handler,
}
use grpc_api_gateway_session.Proxy.Opening.{IsCancelled, IsIdle, IsBusy, Opened, open-Opened}

-- The world in which a run returns: no stream is open, and every attempt was reported but the one
-- whose stream ended well, which the run that returns no error has.
pub record IsSettled (e : Option Error) (w : World) : Type 0 where
  pub all_cancelled : (i : ℕ) → i < w.opened → IsCancelled i w
  pub reported_on_success : e ≡ none → w.attempts ≡ suc (length w.failures)
  pub reported_on_error : e ≢ none → w.attempts ≡ length w.failures

-- A run that waits for ever is the network's doing; one that is out of fuel would be the model's.
abbrev pub Ended : Outcome × World → Type 0
Ended (returned e, w) = IsSettled e w
Ended (blocked, w) = Unit
Ended (out_of_fuel, w) = ⊥

-- Each of the two goroutines reports once.
abbrev pub ReportsOnce : List Event → Type 0
ReportsOnce [] = Unit
ReportsOnce (client_to_server e ∷ events) = Unit
ReportsOnce (server_to_client e ∷ []) = Unit
ReportsOnce (server_to_client e ∷ client_to_server d ∷ events) = Unit
ReportsOnce (server_to_client e ∷ server_to_client d ∷ events) = ⊥

idle_settles : (e : Error) (s : Stream) (w : World) → IsIdle w → Ended (finish (some e) s w)
unfolding finish cancel
idle_settles e s w h = record {
  all_cancelled = λ i lt. ground (arith, h.all_cancelled i lt);
  reported_on_success = λ n. cc;
  reported_on_error = λ _. h.all_reported;
}

refused_settles : (e : Error) (w : World) → IsIdle w → Ended (returned (some e), w)
refused_settles e w h = record {
  all_cancelled = h.all_cancelled;
  reported_on_success = λ n. cc;
  reported_on_error = λ _. h.all_reported;
}

success_settles : (s : Stream) (w : World) → IsBusy s w → Ended (finish none s w)
unfolding finish cancel
success_settles s w h = record {
  all_cancelled = λ i lt. ground (arith, h.others_cancelled i lt);
  reported_on_success = λ _. h.others_reported;
  reported_on_error = λ n. absurd (n refl);
}

-- Reporting and cancelling a broken stream.
broken-IsIdle :
    (route : Route) (s : Stream) (w : World)
    → IsBusy s w
    → IsIdle (cancel s (report route s.sticky_key s.instance_id w))
unfolding cancel report
broken-IsIdle route s w h = record {
  all_cancelled = λ i lt. ground (arith, h.others_cancelled i lt);
  all_reported = h.others_reported;
}

module _ (env : Env) (proxy : Proxy) (route : Route) (md : Metadata) where
  continue-Ended :
      (again : Stream → World → Outcome × World) (s : Stream) (r : Result Error Stream × World)
      → ((s' : Stream) (w : World) → IsBusy s' w → Ended (again s' w))
      → Opened r
      → Ended (continue_with env proxy route md again s r)
  unfolding continue_with
  continue-Ended again s (err e, w) k h = idle_settles e s w h
  continue-Ended again s (ok s', w) k h = k s' w h

  -- It is enough that the transfers end where the handler does not give up.
  broken-Ended :
      (gives_up : Bool) (e : Error) (again : Stream → World → Outcome × World) (s : Stream)
      (w : World)
      → (gives_up ≡ false → (s' : Stream) (w : World) → IsBusy s' w → Ended (again s' w))
      → IsBusy s w
      → Ended (broken env proxy route md gives_up e again s w)
  unfolding broken
  broken-Ended true e again s w k h = idle_settles e s _ (broken-IsIdle route s w h)
  broken-Ended false e again s w k h =
      continue-Ended again s _ (k refl)
        (open-Opened env proxy route md _ (broken-IsIdle route s w h))

  answered-Ended :
      (end : Ending) (gives_up : Bool) (again : Stream → World → Outcome × World) (s : Stream)
      (w : World)
      → (gives_up ≡ false → (s' : Stream) (w : World) → IsBusy s' w → Ended (again s' w))
      → IsBusy s w
      → Ended (answered env proxy route md end gives_up again s w)
  unfolding answered
  answered-Ended eof gives_up again s w k h = success_settles s w h
  answered-Ended (failed e) gives_up again s w k h = broken-Ended gives_up e again s w k h

  -- Where the handler goes on, another transfer is left.
  transfers_left :
      (fuel transfer : ℕ)
      → proxy.retry_count ≤ suc fuel + transfer
      → (not (retryable env proxy route md)
          || is_last env proxy route md transfer
          || env.client_gone transfer)
        ≡ false
      → 0 < fuel
  unfolding is_last
  transfers_left fuel transfer n goes = ground arith

  replay-Ended :
      (fuel transfer : ℕ) (s : Stream) (w : World)
      → env.has_first_msg ≡ true
      → 0 < fuel
      → proxy.retry_count ≤ fuel + transfer
      → IsBusy s w
      → Ended (replay env proxy route md fuel transfer s w)
  unfolding replay
  replay-Ended zero transfer s w m f n h = absurd (omega arith)
  replay-Ended (suc fuel) transfer s w m f n h = elim (Option-cases (env.replay_send transfer)) [
    | inr (e, q) ↦ rw (m, q, replay) (idle_settles e s _ (broken-IsIdle route s w h))
    | inl q ↦
        rw (m, q, replay)
          (answered-Ended (env.replay_end transfer) _ _ s w
            (λ goes s' w'.
              replay-Ended fuel (suc transfer) s' w' m (transfers_left fuel transfer n goes)
                (omega arith))
            h)
  ]

  first_broken-Ended :
      (e : Error) (s : Stream) (w : World)
      → IsBusy s w
      → Ended (first_broken env proxy route md e s w)
  unfolding first_broken is_last
  first_broken-Ended e s w h =
      broken-Ended _ e _ s w
        (λ goes s' w'.
          replay-Ended proxy.retry_count 1 s' w' (ground arith) (ground arith) (omega arith))
        h

  exchange-Ended :
      (events : List Event) (s : Stream) (w : World)
      → ReportsOnce events
      → IsBusy s w
      → Ended (exchange env proxy route md 2 events s w)
  unfolding exchange
  exchange-Ended [] s w r h = tt
  exchange-Ended (client_to_server eof ∷ events) s w r h = success_settles s w h
  exchange-Ended (client_to_server (failed e) ∷ events) s w r h = first_broken-Ended e s w h
  exchange-Ended (server_to_client (failed e) ∷ events) s w r h = first_broken-Ended e s w h
  exchange-Ended (server_to_client eof ∷ []) s w r h = tt
  exchange-Ended (server_to_client eof ∷ client_to_server eof ∷ events) s w r h =
      success_settles s w h
  exchange-Ended (server_to_client eof ∷ client_to_server (failed e) ∷ events) s w r h =
      first_broken-Ended e s w h
  exchange-Ended (server_to_client eof ∷ server_to_client d ∷ events) s w r h = absurd r

  start-Ended :
      (r : Result Error Stream × World)
      → ReportsOnce env.events
      → Opened r
      → Ended (start env proxy route md r)
  unfolding start
  start-Ended (err e, w) once h = refused_settles e w h
  start-Ended (ok s, w) once h = exchange-Ended env.events s w once h

  forward-Ended :
      (w : World) → ReportsOnce env.events → IsIdle w → Ended (forward env proxy route md w)
  unfolding forward
  forward-Ended w once h = start-Ended _ once (open-Opened env proxy route md w h)

module _ (env : Env) (proxy : Proxy) where
  routed-Ended :
      (md : Metadata) (method : String) (found : Option Route) (w : World)
      → ReportsOnce env.events
      → IsIdle w
      → Ended (routed env proxy md method found w)
  unfolding routed
  routed-Ended md method none w once h = refused_settles _ w h
  routed-Ended md method (some route) w once h = elim (Result-cases (proxy.headers md method)) [
    | inl (e, p) ↦ rw (p, routed) (refused_settles e w h)
    | inr (out, p) ↦ rw (p, routed) (forward-Ended env proxy route out w once h)
  ]

  -- Every run of the handler ends, unless the network lets it wait for ever, and then no stream is
  -- open: each one that was opened was cancelled. Each attempt to open a stream was reported as a
  -- backend failure, but for the one stream that ended well, which a run without an error has.
  pub handler-Ended :
      (method : Option String) (md : Metadata) (w : World)
      → ReportsOnce env.events
      → IsIdle w
      → Ended (handler env proxy method md w)
  unfolding handler
  handler-Ended none md w once h = refused_settles _ w h
  handler-Ended (some method) md w once h =
      routed-Ended md method (match proxy.router method) w once h
