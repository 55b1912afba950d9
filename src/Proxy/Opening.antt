-- ===== src/Proxy/Opening.antt =====
-- Opening a stream: the world has one open stream behind it if it succeeds, and none if not.
use grpc_api_gateway_session.Prelude.{
  ℕ, zero, suc, ◌<◌, ◌≡◌, ◌⊎◌, inl, inr, true, Result, ok, err, nat_eq, any, length, arith,
  Bool-cases, Option-cases,
}
use grpc_api_gateway_session.GrpcError.{Error}
use grpc_api_gateway_session.Domain.{Route}
use grpc_api_gateway_session.Headers.{Metadata}
use grpc_api_gateway_session.Resolver.{Resolver, Resolved, get_connection}
use grpc_api_gateway_session.Proxy.{
  Env, Proxy, World, Stream, report, Attempt, no_connection, refused, streaming, last_round,
  or_again, open_on, with_connection, attempt, open_retrying, retryable, open_backend_stream,
}

abbrev pub IsCancelled : ℕ → World → Type 0
IsCancelled i w = any (nat_eq i) w.cancelled ≡ true

-- No stream is open, and every attempt was reported as a failure.
pub record IsIdle (w : World) : Type 0 where
  pub all_cancelled : (i : ℕ) → i < w.opened → IsCancelled i w
  pub all_reported : w.attempts ≡ length w.failures

-- One stream is open, and every other attempt was reported.
pub record IsBusy (s : Stream) (w : World) : Type 0 where
  pub others_cancelled : (i : ℕ) → i < w.opened → (i ≡ s.number) ⊎ IsCancelled i w
  pub others_reported : w.attempts ≡ suc (length w.failures)

abbrev Tried : Attempt × World → Type 0
Tried (no_connection e, w) = IsIdle w
Tried (refused e, w) = IsIdle w
Tried (streaming s, w) = IsBusy s w

abbrev pub Opened : Result Error Stream × World → Type 0
Opened (err e, w) = IsIdle w
Opened (ok s, w) = IsBusy s w

module _ (env : Env) (proxy : Proxy) (route : Route) (md : Metadata) where
  open_on-Tried :
      (found : Resolved) (w : World) → IsIdle w → Tried (open_on env proxy route md found w)
  unfolding open_on report
  open_on-Tried (backend, key, id) w h = elim (Option-cases (env.new_stream w.attempts backend)) [
    | inl n ↦
        rw (n, open_on)
          (record {
            others_cancelled = λ i lt. ground (arith, h.all_cancelled i);
            others_reported = ground (arith, h.all_reported);
          })
    | inr (e, n) ↦
        rw (n, open_on)
          (record {
            all_cancelled = h.all_cancelled;
            all_reported = ground (arith, h.all_reported);
          })
  ]

  with_connection-Tried :
      (w : World) (found : Result Error Resolved × Resolver)
      → IsIdle w
      → Tried (with_connection env proxy route md w found)
  unfolding with_connection
  with_connection-Tried w (err e, r) h = record {
    all_cancelled = h.all_cancelled;
    all_reported = h.all_reported;
  }
  with_connection-Tried w (ok found, r) h =
      open_on-Tried found (record w { resolver = r })
        (record { all_cancelled = h.all_cancelled; all_reported = h.all_reported })

  attempt-Tried : (w : World) → IsIdle w → Tried (attempt env proxy route md w)
  unfolding attempt
  attempt-Tried w h = with_connection-Tried w (get_connection env.dial route md w.resolver) h

  last_round-Opened : (a : Attempt × World) → Tried a → Opened (last_round a)
  last_round-Opened (no_connection e, w) h = h
  last_round-Opened (refused e, w) h = h
  last_round-Opened (streaming s, w) h = h

  or_again-Opened :
      (again : World → Result Error Stream × World) (a : Attempt × World)
      → ((w : World) → IsIdle w → Opened (again w))
      → Tried a
      → Opened (or_again again a)
  or_again-Opened again (no_connection e, w) k h = h
  or_again-Opened again (refused e, w) k h = k w h
  or_again-Opened again (streaming s, w) k h = h

  open_retrying-Opened :
      (left : ℕ) (w : World) → IsIdle w → Opened (open_retrying env proxy route md left w)
  unfolding open_retrying
  open_retrying-Opened zero w h = h
  open_retrying-Opened (suc zero) w h = last_round-Opened _ (attempt-Tried w h)
  open_retrying-Opened (suc (suc left)) w h =
      or_again-Opened _ _ (open_retrying-Opened (suc left)) (attempt-Tried w h)

  pub open-Opened : (w : World) → IsIdle w → Opened (open_backend_stream env proxy route md w)
  unfolding open_backend_stream
  open-Opened w h = elim (Bool-cases (retryable env proxy route md)) [
    | inl e ↦ rw (e, open_backend_stream) (open_retrying-Opened proxy.retry_count w h)
    | inr e ↦ rw (e, open_backend_stream) (last_round-Opened _ (attempt-Tried w h))
  ]
