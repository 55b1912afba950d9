-- ===== src/Scenarios/Transfer.antt =====
-- IntegrationTests/scenario/session_transfer.go, from the client on. `stamp` is the time that ends
-- the session ID.
pub mod Echoes
pub mod Passing
use grpc_api_gateway_session.Prelude.{
  ℕ, zero, suc, String, Bool, false, not, ◌||◌, Option, none, some, ◌==◌, Result, ok, err,
  if◌then◌else◌,
}
use grpc_api_gateway_session.GrpcError.{Code, unavailable, resource_exhausted, Error, wrap}
use grpc_api_gateway_session.Headers.{Metadata}
use grpc_api_gateway_session.Scenarios.{
  ScenarioConfig, Run, ◌>>=◌, ◌>>◌, within, check, give, Client, same_code, signed_in, login, echo,
  shutdown, refuses,
}
use grpc_api_gateway_session.Scenarios.Sticky.{numbered_session_id}

module _ (from_error : Error → Option (Code × String)) {S : Type 0} (client : Client S) where
  abbrev pub is_retryable : Error → Bool
  is_retryable e = elim (from_error e) [ none ↦ false | some (c, m) ↦ same_code c unavailable ]

  -- What a round does behind its call.
  pub or_retry : Run S String → Result Error String × S → Result Error String × S
  or_retry again (ok pod, s) = (ok pod, s)
  or_retry again (err e, s) = if is_retryable e then again s else (err (wrap "myservice_echo" e), s)

  module _ (md : Metadata) where
    -- The loop over `retry`, by the retries left behind this one.
    pub echo_retrying : ℕ → (expected_pod : String) → Run S String
    unfolding or_retry
    echo_retrying zero expected_pod s = within "myservice_echo" (echo client md expected_pod) s
    echo_retrying (suc left) expected_pod s =
        or_retry (echo_retrying left expected_pod) (echo client md expected_pod s)

    -- `echoTwice`; the first round finds no name of a pod to compare with.
    pub echo_twice : (expected_pod : String) → Run S String
    unfolding echo_retrying
    echo_twice expected_pod = do
      pod_name ← echo_retrying 4 expected_pod
      pod ← echo_retrying 4 expected_pod
      check (pod_name == "" || pod_name == pod) "sticky session violation"
      give (if pod_name == "" then pod else pod_name)

    -- The scenario behind the login, in parts: what follows the echoes of each instance.
    pub leave_third : (pod_name1 pod_name2 pod_name3 : String) → Run S (Unit {0})
    leave_third pod_name1 pod_name2 pod_name3 = do
      check (not (pod_name3 == pod_name1 || pod_name3 == pod_name2)) "session not transferred"
      within "shutdown third instance" (shutdown client md pod_name3)
      refuses from_error (λ c m. same_code c unavailable || same_code c resource_exhausted)
          "expected UNAVAILABLE or RESOURCE_EXHAUSTED" (echo client md "")

    pub leave_second : (pod_name1 pod_name2 : String) → Run S (Unit {0})
    unfolding echo_twice leave_third
    leave_second pod_name1 pod_name2 = do
      check (not (pod_name2 == pod_name1)) "session not transferred"
      within "shutdown second instance" (shutdown client md pod_name2)
      pod_name3 ← within "third instance echo" (echo_twice "")
      leave_third pod_name1 pod_name2 pod_name3

    pub leave_first : (pod_name1 : String) → Run S (Unit {0})
    unfolding echo_twice leave_second
    leave_first pod_name1 = do
      within "shutdown first instance" (shutdown client md pod_name1)
      pod_name2 ← within "second instance echo" (echo_twice "")
      leave_second pod_name1 pod_name2

    unfoldable pub transfer : Run S (Unit {0})
    unfolding echo_twice leave_first
    transfer = do pod_name1 ← within "first instance echo" (echo_twice ""); leave_first pod_name1

  -- `runSessionTransfer`
  unfoldable pub run_session_transfer : (stamp : String) → ScenarioConfig → Run S (Unit {0})
  unfolding transfer
  run_session_transfer stamp cfg = do
    token ← within "login" (login client cfg (numbered_session_id "-transfer-" stamp))
    transfer (signed_in token (numbered_session_id "-transfer-" stamp))
