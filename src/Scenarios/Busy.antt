-- ===== src/Scenarios/Busy.antt =====
-- IntegrationTests/scenario/no_instances_available.go, from the clients on. A client is known by its
-- number as it stands in the session ID, and `stamp` is the time that ends that ID.
pub mod Passing
use Prim.Native.String
use grpc_api_gateway_session.Prelude.{String, Option, List, [], ◌∷◌}
use grpc_api_gateway_session.GrpcError.{Code, resource_exhausted, Error}
use grpc_api_gateway_session.Scenarios.{
  ScenarioConfig, Run, ◌>>=◌, ◌>>◌, within, give, Client, session_id_prefix, echo_value, signed_in,
  login, echo, refuses,
}
use grpc_api_gateway_session.Scenarios.Unauthenticated.{says_exactly}

abbrev pub expected_msg_all_instances_busy : String
expected_msg_all_instances_busy = "all instances are busy"

-- The fields of an entry of `clients`: its number and its token.
abbrev pub LoggedIn : Type 0
LoggedIn = String × String

abbrev pub session_of : (stamp : String → String) (number : String) → String
session_of stamp number =
    String.◌++◌ session_id_prefix
      (String.◌++◌ "-noinst-" (String.◌++◌ number (String.◌++◌ "-" (stamp number))))

module _ (from_error : Error → Option (Code × String)) {S : Type 0} (client : String → Client S)
    (stamp : String → String) where
  -- The loop of logins.
  pub login_all : ScenarioConfig → List String → Run S (List LoggedIn)
  login_all cfg [] = give []
  login_all cfg (number ∷ numbers) = do
    token ← within "login" (login (client number) cfg (session_of stamp number))
    rest ← login_all cfg numbers
    give ((number, token) ∷ rest)

  -- The loop of the occupants.
  pub occupy : List LoggedIn → Run S (Unit {0})
  occupy [] = give tt
  occupy ((number, token) ∷ rest) = do
    pod ←
        within "echo to occupy instance"
          (echo (client number) (signed_in token (session_of stamp number)) "")
    occupy rest

  -- The extra client.
  pub turn_away : LoggedIn → Run S (Unit {0})
  turn_away (number, token) =
      refuses from_error (says_exactly resource_exhausted expected_msg_all_instances_busy)
        "expected RESOURCE_EXHAUSTED"
        ((client number).echo (signed_in token (session_of stamp number)) echo_value)

  -- The occupants go first; the last client is the extra one.
  pub fill_up : List LoggedIn → LoggedIn → Run S (Unit {0})
  unfolding occupy turn_away
  fill_up occupants extra = do occupy occupants; turn_away extra

  -- `runNoInstancesAvailable`; the loop of logins goes over the occupants and then the extra client.
  pub run_no_instances_available : ScenarioConfig → Run S (Unit {0})
  unfolding login_all fill_up
  run_no_instances_available cfg = do
    occupants ← login_all cfg ("1" ∷ "2" ∷ "3" ∷ [])
    token ← within "login" (login (client "4") cfg (session_of stamp "4"))
    fill_up occupants ("4", token)
