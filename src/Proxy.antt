-- ===== src/Proxy.antt =====
-- MyGateway/service/transparent.go: one run of `Handler`. What the network does is an environment:
-- how each `NewStream` ends, by the number of the call, what the two forwarding goroutines report
-- and in which order, and whether the client is gone when the handler asks. Messages, headers and
-- trailers, which the proxy passes on unread, and the timers are left out. A stream is known by the
-- order in which it was opened.
pub mod Bounds
pub mod Calls
pub mod Opening
pub mod Streams
pub mod Authorized
use grpc_api_gateway_session.Prelude.{
  ℕ, zero, suc, String, Bool, true, false, not, ◌&&◌, ◌||◌, Option, none, some, List, [], ◌∷◌, ◌==◌,
  any, Result, ok, err, leb, if◌then◌else◌,
}
use grpc_api_gateway_session.GrpcError.{
  Error, status, internal, unavailable, unimplemented, msg_backend_unavailable,
}
use grpc_api_gateway_session.Domain.{ServiceInstance, Route, ClusterId}
use grpc_api_gateway_session.RouteMatcher.{RouteMatcher, match}
use grpc_api_gateway_session.Headers.{Metadata, HeaderProcessor}
use grpc_api_gateway_session.Resolver.{
  Backend, Resolver, Resolved, get_connection, on_backend_failure,
}

-- How a forwarding goroutine ends.
pub data Ending : Type 0 where
  eof : Ending
  failed : Error → Ending

-- Which of the two reports: client to backend, or backend to client.
pub data Event : Type 0 where
  server_to_client client_to_server : Ending → Event

pub record Env : Type 0 where
  pub dial : ClusterId → ℕ → ServiceInstance → Bool
  -- The error of the n-th `NewStream`, if it has one.
  pub new_stream : ℕ → Backend → Option Error
  -- The reports of the first exchange, in the order of their arrival.
  pub events : List Event
  -- Whether the first client message had been stored when the first exchange broke.
  pub has_first_msg : Bool
  -- By the number of the transfer: the error of sending the first message again, the end of the
  -- answer, which is taken to come, and whether the client's context is done afterwards.
  pub replay_send : ℕ → Option Error
  pub replay_end : ℕ → Ending
  pub client_gone : ℕ → Bool

pub record Proxy : Type 0 where
  pub router : RouteMatcher
  pub headers : HeaderProcessor
  pub retry_count : ℕ
  pub dynamic_clusters : List ClusterId

-- What a run changes. The logs hold the cancelled streams and the failures reported, last first.
pub record World : Type 0 where
  pub resolver : Resolver
  pub attempts : ℕ
  pub opened : ℕ
  pub cancelled : List ℕ
  pub failures : List (String × String)

-- `streamState`
pub record Stream : Type 0 where
  pub number : ℕ
  pub sticky_key : String
  pub instance_id : String

-- `p.resolver.OnBackendFailure(route, stickyKey, instanceID)`
pub report : Route → String → String → World → World
report route key id w = record w {
  resolver = on_backend_failure route key id w.resolver;
  failures = (key, id) ∷ w.failures;
}

-- `streamCancel()`
pub cancel : Stream → World → World
cancel s w = record w { cancelled = s.number ∷ w.cancelled }

-- One round of `openBackendStream`.
pub data Attempt : Type 0 where
  no_connection refused : Error → Attempt
  streaming : Stream → Attempt

-- The end of a round that is the last, and of one that is not.
abbrev pub last_round : Attempt × World → Result Error Stream × World
last_round (no_connection e, w) = (err e, w)
last_round (refused e, w) = (err e, w)
last_round (streaming s, w) = (ok s, w)

abbrev pub or_again :
    (World → Result Error Stream × World) → Attempt × World → Result Error Stream × World
or_again again (no_connection e, w) = (err e, w)
or_again again (refused e, w) = again w
or_again again (streaming s, w) = (ok s, w)

-- How a run ends; `blocked` is a run whose goroutines never report, and `out_of_fuel` is the
-- model's own.
pub data Outcome : Type 0 where
  returned : Option Error → Outcome
  blocked out_of_fuel : Outcome

-- The deferred cancellation of the current stream runs on every return.
pub finish : Option Error → Stream → World → Outcome × World
finish e s w = (returned e, cancel s w)

module _ (env : Env) (proxy : Proxy) (route : Route) (md : Metadata) where
  open_on : Resolved → World → Attempt × World
  open_on (backend, key, id) w = elim (env.new_stream w.attempts backend) [
    | none ↦ (
      streaming (record { number = w.opened; sticky_key = key; instance_id = id }),
      record w { attempts = suc w.attempts; opened = suc w.opened },
    )
    | some e ↦ (refused e, report route key id (record w { attempts = suc w.attempts }))
  ]

  with_connection : World → Result Error Resolved × Resolver → Attempt × World
  with_connection w (err e, r) = (no_connection e, record w { resolver = r })
  with_connection w (ok found, r) = open_on found (record w { resolver = r })

  pub attempt : World → Attempt × World
  unfolding open_on with_connection
  attempt w = with_connection w (get_connection env.dial route md w.resolver)

  -- The retry loop, by the rounds left.
  pub open_retrying : ℕ → World → Result Error Stream × World
  open_retrying zero w = (err (status unavailable msg_backend_unavailable), w)
  open_retrying (suc zero) w = last_round (attempt w)
  open_retrying (suc (suc left)) w = or_again (open_retrying (suc left)) (attempt w)

  pub retryable : Bool
  retryable = any (λ cluster. cluster == route.cluster) proxy.dynamic_clusters

  pub open_backend_stream : World → Result Error Stream × World
  unfolding open_retrying retryable
  open_backend_stream w =
      if retryable then open_retrying proxy.retry_count w else last_round (attempt w)

  -- What follows the error of a stream: it is reported and cancelled, and then the handler gives up
  -- or goes on with a new stream. The deferred call cancels the old stream once more if none opens.
  continue_with :
      (Stream → World → Outcome × World) → Stream → Result Error Stream × World → Outcome × World
  continue_with again s (err e, w) = finish (some e) s w
  continue_with again s (ok s', w) = again s' w

  pub broken : Bool → Error → (Stream → World → Outcome × World) → Stream → World → Outcome × World
  unfolding continue_with
  broken gives_up e again s w =
      let w' = cancel s (report route s.sticky_key s.instance_id w) in
      if gives_up then finish (some e) s w' else continue_with again s (open_backend_stream w')

  -- `transferAttempt >= p.retryCount-1`, on integers.
  is_last : ℕ → Bool
  is_last transfer = leb proxy.retry_count (suc transfer)

  -- The end of the answer to a replayed message.
  answered : Ending → Bool → (Stream → World → Outcome × World) → Stream → World → Outcome × World
  unfolding broken
  answered eof gives_up again s w = finish none s w
  answered (failed e) gives_up again s w = broken gives_up e again s w

  -- The transfers after the first, by their number.
  pub replay : ℕ → ℕ → Stream → World → Outcome × World
  unfolding answered is_last
  replay zero transfer s w = (out_of_fuel, w)
  replay (suc fuel) transfer s w =
      if not env.has_first_msg
      then finish (some (status unavailable msg_backend_unavailable)) s w
      else elim (env.replay_send transfer) [
        | some e ↦ finish (some e) s (cancel s (report route s.sticky_key s.instance_id w))
        | none ↦
            answered (env.replay_end transfer)
              (not retryable || is_last transfer || env.client_gone transfer)
              (replay fuel (suc transfer)) s w
      ]

  first_broken : Error → Stream → World → Outcome × World
  first_broken e =
      broken (not retryable || not env.has_first_msg || is_last 0 || env.client_gone 0) e
        (replay proxy.retry_count 1)

  -- The loop over two reports of the first exchange.
  pub exchange : ℕ → List Event → Stream → World → Outcome × World
  unfolding first_broken
  exchange zero events s w = finish (some (status internal "unexpected proxy termination")) s w
  exchange (suc left) [] s w = (blocked, w)
  exchange (suc left) (server_to_client eof ∷ events) s w = exchange left events s w
  exchange (suc left) (server_to_client (failed e) ∷ events) s w = first_broken e s w
  exchange (suc left) (client_to_server eof ∷ events) s w = finish none s w
  exchange (suc left) (client_to_server (failed e) ∷ events) s w = first_broken e s w

  start : Result Error Stream × World → Outcome × World
  start (err e, w) = (returned (some e), w)
  start (ok s, w) = exchange 2 env.events s w

  -- From the opening of the first stream on.
  pub forward : World → Outcome × World
  unfolding start
  forward w = start (open_backend_stream w)

module _ (env : Env) (proxy : Proxy) where
  routed : Metadata → String → Option Route → World → Outcome × World
  routed md method none w = (returned (some (status unimplemented "method not routed")), w)
  routed md method (some route) w = elim (proxy.headers md method) [
    | err e ↦ (returned (some e), w)
    | ok out ↦ forward env proxy route out w
  ]

  -- `none` is a stream whose context has no method.
  pub handler : Option String → Metadata → World → Outcome × World
  unfolding routed
  handler none md w = (returned (some (status internal "missing grpc method in stream context")), w)
  handler (some method) md w = routed md method (match proxy.router method) w
