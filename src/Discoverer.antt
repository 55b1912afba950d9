-- ===== src/Discoverer.antt =====
-- MyDiscoverer/service: my_error.go and http_error.go. Whether echo's `HTTPError` unwraps to its
-- internal error is a parameter. The error that a handler returns ends in an answer; what is logged
-- is left out.
pub mod Settings
pub mod Cache
pub mod Server
pub mod Client
pub mod Members
pub mod Listing
pub mod Registration
pub mod Reports
use grpc_api_gateway_session.Prelude.{
  ℕ, String, Bool, true, false, Option, none, some, List, [], ◌∷◌, lookup, if◌then◌else◌,
}

abbrev pub err_internal_server_error : String
err_internal_server_error = "internal_server_error"

abbrev pub err_entity_not_found : String
err_entity_not_found = "entity_not_found"

abbrev pub err_bad_parameter : String
err_bad_parameter = "bad_parameter"

-- A `MyError` with its code and message, without and with an inner error; an error that `fmt.Errorf`
-- wraps; echo's `HTTPError` with its code and its message, if that is a text, without and with an
-- internal error; openapi3filter's `RequestError`; and any other.
pub data Fault : Type 0 where
  my_error : String → String → Fault
  my_error_of : String → String → Fault → Fault
  wrapped : String → Fault → Fault
  http_error : ℕ → Option String → Fault
  http_error_of : ℕ → Option String → Fault → Fault
  request_error : Fault
  other : String → Fault

-- The code and the message of a `MyError`.
abbrev pub MyError : Type 0
MyError = String × String

pub data HttpAnswer : Type 0 where
  no_content : ℕ → HttpAnswer
  json_error : ℕ → MyError → HttpAnswer

abbrev with_inner : String → String → Option Fault → Fault
with_inner code message none = my_error code message
with_inner code message (some inner) = my_error_of code message inner

-- `NewErrorCodeToStatusCodeMaps`
abbrev status_codes : List (String × ℕ)
status_codes =
    (err_bad_parameter, 400) ∷ (err_entity_not_found, 404) ∷ (err_internal_server_error, 500) ∷ []

pub get_status_code : String → ℕ
get_status_code code = elim (lookup code status_codes) [ some n ↦ n | none ↦ 500 ]

abbrev text_of : Option String → String
text_of none = ""
text_of (some m) = m

module _ (unwraps : Bool) where
  -- `ToMyError`: the first `MyError` of the chain, with what it wraps.
  pub to_my_error : Fault → Option Fault
  to_my_error (my_error code message) = some (my_error code message)
  to_my_error (my_error_of code message inner) = some (my_error_of code message inner)
  to_my_error (wrapped text inner) = to_my_error inner
  to_my_error (http_error n m) = none
  to_my_error (http_error_of n m inner) =
      let rest = to_my_error inner in if unwraps then rest else none
  to_my_error request_error = none
  to_my_error (other text) = none

  -- `errors.As(err, &requestError)`
  pub as_request_error : Fault → Bool
  as_request_error (my_error code message) = false
  as_request_error (my_error_of code message inner) = as_request_error inner
  as_request_error (wrapped text inner) = as_request_error inner
  as_request_error (http_error n m) = false
  as_request_error (http_error_of n m inner) =
      let rest = as_request_error inner in if unwraps then rest else false
  as_request_error request_error = true
  as_request_error (other text) = false

  abbrev found_error : Option Fault → Option Fault
  found_error none = none
  found_error (some inner) = to_my_error inner

  -- `NewInternalServerError`, `NewEntityNotFoundError` and `NewBadParameterError`, by their code: an
  -- inner `MyError` is returned as it is.
  pub new_error : String → String → Option Fault → Fault
  unfolding to_my_error
  new_error code message inner = elim (found_error inner) [
    | some e ↦ e
    | none ↦ with_inner code message inner
  ]

  -- The code and message of the `MyError` that answers for an error which is no `HTTPError`.
  abbrev shown : Option Fault → MyError
  shown (some (my_error code message)) = (code, message)
  shown (some (my_error_of code message inner)) = (code, message)
  shown _ = (err_internal_server_error, "an internal server error has occurred")

  abbrev code_for : Bool → String
  code_for bad_request = if bad_request then err_bad_parameter else err_internal_server_error

  -- The answer by an `HTTPError`, which has no body for a HEAD request.
  abbrev by_http : (is_head : Bool) → ℕ → Option String → String → HttpAnswer
  by_http is_head n m code = if is_head then no_content n else json_error n (code, text_of m)

  -- An internal `HTTPError` takes the place of the outer one.
  abbrev by_internal : (is_head : Bool) → ℕ → Option String → Fault → HttpAnswer
  by_internal is_head n m (http_error n' m') = by_http is_head n' m' err_internal_server_error
  by_internal is_head n m (http_error_of n' m' inner) =
      by_http is_head n' m' (code_for (as_request_error inner))
  by_internal is_head n m inner = by_http is_head n m (code_for (as_request_error inner))

  abbrev by_code : MyError → HttpAnswer
  by_code (code, message) = json_error (get_status_code code) (code, message)

  -- `HTTPErrorHandler.Handler`: `none` where the response was sent already.
  pub error_handler : (committed is_head : Bool) → Fault → Option HttpAnswer
  unfolding to_my_error get_status_code as_request_error
  error_handler true is_head e = none
  error_handler false is_head (http_error n m) =
      some (by_http is_head n m err_internal_server_error)
  error_handler false is_head (http_error_of n m inner) = some (by_internal is_head n m inner)
  error_handler false is_head e = some (by_code (shown (to_my_error e)))
