-- ===== src/Scenarios/Streams.antt =====
-- IntegrationTests/scenario: `SubscribeStream` of scenario_shared.go. A stream is what each of its
-- `Recv` calls gives, by the number of the call. Every way out of the function cancels the stream.
pub mod Reading
use grpc_api_gateway_session.Prelude.{
  ℕ, zero, suc, String, Bool, not, ◌&&◌, ◌||◌, Option, none, some, ◌==◌, Result, ok, err, nat_eq,
  leb, if◌then◌else◌,
}
use grpc_api_gateway_session.GrpcError.{Error, wrap, other}
use grpc_api_gateway_session.Config.Numbers.{int_32}
use grpc_api_gateway_session.Scenarios.{EchoReply, same_int}

-- What a `Recv` gives; an error comes with whether the stream's context was done.
pub data Received : Type 0 where
  message : EchoReply → Received
  ended : Received
  failed : Error → (cancelled : Bool) → Received

-- The checks of a message, in their order.
pub stream_faults : (value method : String) → ℕ → (first_pod : String) → EchoReply → Option Error
unfolding same_int int_32
stream_faults value method expected_index first_pod r =
    if not (r.client_value == value)
    then some (other "client_value")
    else if not (r.server_value == "my_service")
    then some (other "server_value")
    else if r.client_session_id == "" || r.server_session_id == ""
    then some (other "client_session_id or server_session_id is empty")
    else if not (same_int r.index (int_32 expected_index))
    then some (other "index")
    else if not (r.server_method == method)
    then some (other "server_method")
    else if r.pod_name == ""
    then some (other "pod_name is empty")
    else if not (first_pod == "") && not (r.pod_name == first_pod)
    then some (other "pod_name changed")
    else none

-- `SubscribeStreamResult`, of which the cancel function does nothing.
pub record StreamResult : Type 0 where
  pub pod_name : String
  pub message_count : ℕ

-- Behind the loop.
pub counted : ℕ → String → Result Error StreamResult
counted count first_pod =
    if nat_eq count 0
    then err (other "no messages received from stream")
    else ok (record { pod_name = first_pod; message_count = count })

-- After a `Recv` with an error.
pub interrupted : Error → Bool → ℕ → String → Result Error StreamResult
unfolding counted
interrupted e cancelled count first_pod =
    if cancelled
    then if leb 1 count
      then counted count first_pod
      else err (wrap "context cancelled before receiving messages" e)
    else if leb 2 count
    then counted count first_pod
    else err (wrap "stream recv error" e)

module _ (recv : ℕ → Received) (value method : String) where
  -- The loop, by the messages left; the number of the next message, as an `int32`, is the index that is
  -- expected.
  pub read_messages : ℕ → ℕ → String → Result Error StreamResult
  unfolding interrupted counted stream_faults
  read_messages zero count first_pod = counted count first_pod
  read_messages (suc left) count first_pod = elim (recv count) [
    | ended ↦ counted count first_pod
    | failed e cancelled ↦ interrupted e cancelled count first_pod
    | message r ↦ elim (stream_faults value method count first_pod r) [
      | some e ↦ err e
      | none ↦ read_messages left (suc count) (if first_pod == "" then r.pod_name else first_pod)
    ]
  ]

  -- `SubscribeStream`, where the call that opens the stream gives an error or none.
  unfoldable pub subscribe_stream : Option Error → (max_messages : ℕ) → Result Error StreamResult
  unfolding read_messages
  subscribe_stream (some e) max_messages = err (wrap "myservice_subscribe request failed" e)
  subscribe_stream none max_messages = read_messages max_messages 0 ""
