-- ===== src/Scenarios.antt =====
-- IntegrationTests/scenario: the calls and checks that the scenarios share. A scenario is a program
-- over a client, whose calls read and change a state of their own. The errors are those of the
-- gateway's model: `wrap` is `fmt.Errorf` round an error, and `other` one that it makes of a text, of
-- which the values printed are left out. Waiting and what is printed are left out.
pub mod Answers
pub mod Inversion
pub mod Streams
pub mod LoginErrors
pub mod Unauthenticated
pub mod Sticky
pub mod Transfer
pub mod Busy
pub mod Authentication
use Prim.Native.String
use grpc_api_gateway_session.Prelude.{
  ℕ, String, Bool, true, false, not, ◌&&◌, ◌||◌, Option, none, some, List, [], ◌∷◌, ◌==◌, Result,
  ok, err, ℤ, pos, negsuc, nat_eq, if◌then◌else◌,
}
use grpc_api_gateway_session.GrpcError.{
  already_exists, failed_precondition, aborted, out_of_range, data_loss, Code, ok_code, canceled,
  unknown, invalid_argument, deadline_exceeded, not_found, permission_denied, resource_exhausted,
  unimplemented, internal, unavailable, unauthenticated, Error, wrap, other,
}
use grpc_api_gateway_session.Headers.{Metadata}
use grpc_api_gateway_session.Auth.{LoginRequest}

-- `Config`, of which the addresses are left out.
pub record ScenarioConfig : Type 0 where
  pub username : String
  pub password : String

pub record LoginReply : Type 0 where
  pub token : String
  -- Whether `ExpiresAt` is set.
  pub has_expiry : Bool
  pub role : String

pub record EchoReply : Type 0 where
  pub client_value : String
  pub server_value : String
  pub client_session_id : String
  pub server_session_id : String
  pub index : ℤ
  pub server_method : String
  pub pod_name : String

pub record ShutdownReply : Type 0 where
  pub client_session_id : String
  pub server_session_id : String
  pub server_method : String
  pub pod_name : String

-- A program over a state.
abbrev pub Run : Type 0 → Type 0 → Type 0
Run S A = S → Result Error A × S

abbrev pub after {ℓ} :
    {S A : Type 0} {B : Type ℓ}
    → Result Error A × S
    → (A → S → Result Error B × S)
    → Result Error B × S
after (ok a, s) f = f a s
after (err e, s) f = (err e, s)

infixl 5 ◌>>=◌ ◌>>◌
abbrev pub ◌>>=◌ : {S A B : Type 0} → Run S A → (A → Run S B) → Run S B
◌>>=◌ m f s = after (m s) f

abbrev pub ◌>>◌ : {S B : Type 0} → Run S (Unit {0}) → Run S B → Run S B
◌>>◌ m k s = after (m s) (λ u. k)

abbrev pub give : {S A : Type 0} → A → Run S A
give a s = (ok a, s)

abbrev pub fail : {S A : Type 0} → Error → Run S A
fail e s = (err e, s)

-- `if err != nil { return fmt.Errorf("text: %w", err) }`
abbrev pub wrapped : {S A : Type 0} → String → Result Error A × S → Result Error A × S
wrapped text (ok a, s) = (ok a, s)
wrapped text (err e, s) = (err (wrap text e), s)

abbrev pub within : {S A : Type 0} → String → Run S A → Run S A
within text m s = wrapped text (m s)

-- A check that must hold.
abbrev pub check : {S : Type 0} → Bool → String → Run S (Unit {0})
check true text = give tt
check false text = fail (other text)

-- `pb.MyServiceAPIClient`; the metadata of the outgoing context is an argument.
pub record Client (S : Type 0) : Type 0 where
  pub login : LoginRequest → Run S LoginReply
  pub echo : Metadata → (value : String) → Run S EchoReply
  pub shutdown : Metadata → Run S ShutdownReply

abbrev pub echo_value : String
echo_value = "integration-test-echo"

abbrev pub session_id_prefix : String
session_id_prefix = "integration-test-session"

-- `metadata.Pairs`
pub pairs : List (String × String) → Metadata
pairs [] key = []
pairs ((k, v) ∷ rest) key = if k == key then v ∷ pairs rest key else pairs rest key

-- The metadata of a client that logged in.
pub signed_in : (token session_id : String) → Metadata
unfolding pairs
signed_in token session_id = pairs (("authorization", token) ∷ ("session-id", session_id) ∷ [])

abbrev pub rank : Code → ℕ
rank ok_code = 0
rank canceled = 1
rank unknown = 2
rank invalid_argument = 3
rank deadline_exceeded = 4
rank not_found = 5
rank already_exists = 6
rank permission_denied = 7
rank resource_exhausted = 8
rank failed_precondition = 9
rank aborted = 10
rank out_of_range = 11
rank unimplemented = 12
rank internal = 13
rank unavailable = 14
rank data_loss = 15
rank unauthenticated = 16

abbrev pub same_code : Code → Code → Bool
same_code c d = nat_eq (rank c) (rank d)

unfoldable pub same_int : ℤ → ℤ → Bool
same_int (pos a) (pos b) = nat_eq a b
same_int (negsuc a) (negsuc b) = nat_eq a b
same_int _ _ = false

-- The checks of an `EchoResponse` and of a `ShutdownResponse`, in their order.
unfoldable pub echo_faults : String → EchoReply → Option Error
unfolding same_int
echo_faults expected_pod r =
    if not (r.client_value == echo_value)
    then some (other "client_value")
    else if not (r.server_value == "my_service")
    then some (other "server_value")
    else if r.client_session_id == "" || r.server_session_id == ""
    then some (other "client_session_id or server_session_id is empty")
    else if not (same_int r.index (pos 0))
    then some (other "index")
    else if r.server_method == ""
    then some (other "server_method is empty")
    else if r.pod_name == ""
    then some (other "pod_name is empty")
    else if not (expected_pod == "") && not (r.pod_name == expected_pod)
    then some (other "sticky session violation")
    else none

pub shutdown_faults : String → ShutdownReply → Option Error
shutdown_faults expected_pod r =
    if r.server_session_id == "" || r.client_session_id == ""
    then some (other "server_session_id or client_session_id is empty")
    else if r.server_method == ""
    then some (other "server_method is empty")
    else if r.pod_name == ""
    then some (other "pod_name is empty")
    else if not (r.pod_name == expected_pod)
    then some (other "pod_name")
    else none

pub unless_fault : {S A : Type 0} → A → Option Error → Run S A
unless_fault a none = give a
unless_fault a (some e) = fail e

module _ {S : Type 0} (client : Client S) where
  -- `Login`
  unfoldable pub login : ScenarioConfig → String → Run S String
  login cfg session_id = do
    resp ← within "login request failed" (
        client.login
          (record { username = cfg.username; password = cfg.password; session_id = session_id }))
    check (not (resp.token == "")) "login: token is empty"
    check resp.has_expiry "login: expires_at is nil"
    check (not (resp.role == "")) "login: role is empty"
    give resp.token

  -- `Echo`
  unfoldable pub echo : Metadata → (expected_pod : String) → Run S String
  unfolding echo_faults unless_fault
  echo md expected_pod = do
    resp ← within "myservice_echo request failed" (client.echo md echo_value)
    unless_fault resp.pod_name (echo_faults expected_pod resp)

  -- `Shutdown`
  unfoldable pub shutdown : Metadata → (expected_pod : String) → Run S (Unit {0})
  unfolding shutdown_faults unless_fault
  shutdown md expected_pod = do
    resp ← within "myservice_shutdown request failed" (client.shutdown md)
    unless_fault tt (shutdown_faults expected_pod resp)

-- What a scenario demands of an answer that must be an error.
module _ (from_error : Error → Option (Code × String)) where
  abbrev pub with_status :
      {A : Type 0} → (Code → String → Bool) → String → Result Error A → Option Error
  with_status holds text (ok a) = some (other text)
  with_status holds text (err e) = elim (from_error e) [
    | none ↦ some (wrap text e)
    | some (c, m) ↦ if holds c m then none else some (other text)
  ]

  -- The call must be answered with a status for which the test holds.
  abbrev pub refuses : {S A : Type 0} → (Code → String → Bool) → String → Run S A → Run S (Unit {0})
  refuses holds text m s = unless_fault tt (with_status holds text (m s).0) (m s).1
