-- ===== src/Scenarios/Sticky.antt =====
-- IntegrationTests/scenario: sticky_session.go and basic_workflow.go, from the clients on. The
-- clients share the state. `stamp` is the time that ends the session IDs.
pub mod Passing
use Prim.Native.String
use grpc_api_gateway_session.Prelude.{ℕ, zero, suc, String, not, ◌==◌, if◌then◌else◌}
use grpc_api_gateway_session.Headers.{Metadata}
use grpc_api_gateway_session.Scenarios.{
  ScenarioConfig, Run, ◌>>=◌, ◌>>◌, within, check, give, Client, session_id_prefix, signed_in,
  login, echo, shutdown,
}

abbrev pub numbered_session_id : (infix_text stamp : String) → String
numbered_session_id infix_text stamp = String.◌++◌ session_id_prefix (String.◌++◌ infix_text stamp)

-- `if podName == "" { podName = pod }`
abbrev pub first_pod : (pod_name pod : String) → String
first_pod pod_name pod = if pod_name == "" then pod else pod_name

module _ {S : Type 0} (client : Client S) (md : Metadata) where
  -- The loop of `runBasicWorkflow`, by the rounds left.
  pub echo_rounds : ℕ → String → Run S String
  echo_rounds zero pod_name = give pod_name
  echo_rounds (suc left) pod_name = do
    pod ← within "myservice_echo" (echo client md pod_name)
    echo_rounds left (first_pod pod_name pod)

-- `runBasicWorkflow`
pub run_basic_workflow :
    {S : Type 0} → Client S → (stamp : String) → ScenarioConfig → Run S (Unit {0})
unfolding echo_rounds
run_basic_workflow client stamp cfg = do
  token ← within "login" (login client cfg (numbered_session_id "-" stamp))
  pod_name ← echo_rounds client (signed_in token (numbered_session_id "-" stamp)) 10 ""
  within "myservice_shutdown"
      (shutdown client (signed_in token (numbered_session_id "-" stamp)) pod_name)

module _ {S : Type 0} (client1 client2 : Client S) where
  -- The loop of `runStickySession`, by the rounds left, which gives the pods of both clients.
  pub alternate : (md1 md2 : Metadata) → ℕ → String → String → Run S (String × String)
  alternate md1 md2 zero pod_name1 pod_name2 = give (pod_name1, pod_name2)
  alternate md1 md2 (suc left) pod_name1 pod_name2 = do
    pod1 ← within "myservice_echo (client1)" (echo client1 md1 pod_name1)
    pod2 ← within "myservice_echo (client2)" (echo client2 md2 pod_name2)
    alternate md1 md2 left (first_pod pod_name1 pod1) (first_pod pod_name2 pod2)

  -- What follows the loop.
  pub part : (md1 md2 : Metadata) → String × String → Run S (Unit {0})
  part md1 md2 (pod_name1, pod_name2) = do
    check (not (pod_name1 == pod_name2)) "both clients are on the same instance"
    within "myservice_shutdown (client1)" (shutdown client1 md1 pod_name1)
    within "myservice_shutdown (client2)" (shutdown client2 md2 pod_name2)

  -- What follows the logins.
  pub alternate_and_part : (md1 md2 : Metadata) → Run S (Unit {0})
  unfolding alternate part
  alternate_and_part md1 md2 = do pods ← alternate md1 md2 10 "" ""; part md1 md2 pods

  -- `runStickySession`
  pub run_sticky_session : (stamp : String) → ScenarioConfig → Run S (Unit {0})
  unfolding alternate_and_part
  run_sticky_session stamp cfg = do
    token1 ← within "login (client1)" (login client1 cfg (numbered_session_id "-client1-" stamp))
    token2 ← within "login (client2)" (login client2 cfg (numbered_session_id "-client2-" stamp))
    alternate_and_part (signed_in token1 (numbered_session_id "-client1-" stamp))
        (signed_in token2 (numbered_session_id "-client2-" stamp))
