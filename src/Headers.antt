-- ===== src/Headers.antt =====
-- MyGateway/helpers: headers.go, header_chain.go and configurable_auth_processor.go. Metadata is
-- what `md.Get` answers for a lower-case key, the empty list where the key or the map is missing, so
-- a nil map is the function that is always empty. A processor neither reads nor changes the context.
pub mod Gate
pub mod Agreement
use grpc_api_gateway_session.Prelude.{
  String, Bool, true, false, not, Option, none, some, List, [], ◌∷◌, ◌==◌, Result, ok, err, ◌>>=◌,
  map, if◌then◌else◌,
}
use grpc_api_gateway_session.Text.{trim_space, to_lower}
use grpc_api_gateway_session.GrpcError.{
  Error, status, internal, unauthenticated, msg_missing_or_invalid_token,
}
use grpc_api_gateway_session.Domain.{Route, authorization_none, authorization_required}
use grpc_api_gateway_session.RouteMatcher.{sort_by_len, first_prefix}

abbrev pub Metadata : Type 0
Metadata = String → List String

abbrev pub header_session_id : String
header_session_id = "session-id"

abbrev pub header_authorization : String
header_authorization = "authorization"

-- The first value, if it is not empty; `none` stands for `("", false)`.
pub first_value : List String → Option String
first_value [] = none
first_value (v ∷ vs) = if v == "" then none else some v

unfoldable pub get_header_value : Metadata → String → Option String
unfolding first_value
get_header_value md key = first_value (md (to_lower key))

unfoldable pub get_session_id : Metadata → Option String
unfolding first_value
get_session_id md = first_value (md header_session_id)

trimmed : Option String → Option String
trimmed none = none
trimmed (some v) = if trim_space v == "" then none else some (trim_space v)

unfoldable pub get_auth_token : Metadata → Option String
unfolding first_value trimmed
get_auth_token md = trimmed (first_value (md header_authorization))

abbrev pub HeaderProcessor : Type 0
HeaderProcessor = Metadata → String → Result Error Metadata

-- `HeaderProcessorChain.Process`: the output of one processor is the input of the next.
unfoldable pub process_chain : List HeaderProcessor → HeaderProcessor
process_chain [] headers method = ok headers
process_chain (p ∷ ps) headers method = do next ← p headers method; process_chain ps next method

pub record AuthRule : Type 0 where
  pub prefix : String
  pub authorization : String

pub rule_of : Route → AuthRule
rule_of r = record {
  prefix = r.prefix;
  authorization = if r.authorization == "" then authorization_none else r.authorization;
}

abbrev pub rule_prefix : AuthRule → String
rule_prefix r = r.prefix

-- `NewConfigurableAuthProcessor`
unfoldable pub auth_rules : List Route → List AuthRule
unfolding rule_of
auth_rules routes = sort_by_len rule_prefix (map rule_of routes)

-- The mode of the first rule whose prefix fits.
unfoldable pub mode_for : List AuthRule → String → String
mode_for rules method = elim (first_prefix rule_prefix method rules) [
  | none ↦ authorization_none
  | some rule ↦ rule.authorization
]

abbrev pub unauthenticated_with {ℓ} : {A : Type ℓ} → String → Result Error A
unauthenticated_with message = err (status unauthenticated message)

judge : Result String Bool → Metadata → Result Error Metadata
judge (err text) headers = err (status internal text)
judge (ok false) headers = unauthenticated_with msg_missing_or_invalid_token
judge (ok true) headers = ok headers

-- The `JwtService` answers with a verdict or with the text of an error.
module _ (validate : String → String → Result String Bool) where
  check_token : Metadata → String → Option String → Result Error Metadata
  check_token headers session_id none = unauthenticated_with msg_missing_or_invalid_token
  check_token headers session_id (some token) = judge (validate session_id token) headers

  check_session : Metadata → Option String → Result Error Metadata
  check_session headers none = unauthenticated_with "missing session-id"
  check_session headers (some session_id) = check_token headers session_id (get_auth_token headers)

  -- `ConfigurableAuthProcessor.Process`
  unfoldable pub process_auth : List AuthRule → HeaderProcessor
  unfolding check_session check_token judge
  process_auth rules headers method =
      if mode_for rules method == authorization_required
      then check_session headers (get_session_id headers)
      else ok headers
