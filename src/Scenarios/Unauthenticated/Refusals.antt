-- ===== src/Scenarios/Unauthenticated/Refusals.antt =====
-- How the gateway refuses the echo calls of the scenario.
use Prim.Native.String
use text.Mathlib.TextLemmas.{cons-append}
use grpc_api_gateway_session.Prelude.{
  ◌≡◌, refl, sym, ap, ◌∙◌, ◌≢◌, String, false, Option, some, none, [], ◌∷◌, ◌==◌, eq_iff, ok, err,
  arith,
}
use grpc_api_gateway_session.Text.{trim_space, split_n}
use grpc_api_gateway_session.GrpcError.{
  Code, unauthenticated, Error, status, gateway_error_to_grpc, code_of,
}
use grpc_api_gateway_session.GrpcError.Table.{StatusLibrary}
use grpc_api_gateway_session.Domain.{authorization_required}
use grpc_api_gateway_session.Headers.{
  Metadata, get_session_id, get_auth_token, process_chain, auth_rules, mode_for,
}
use grpc_api_gateway_session.Headers.Gate.{
  process_auth-no_session, process_auth-no_token, process_auth-bad_token,
}
use grpc_api_gateway_session.Token.{Bytes, Codecs, validate_token, parse_and_verify}
use grpc_api_gateway_session.Proxy.Authorized.{auth_chain}
use grpc_api_gateway_session.Config.{Config}
use grpc_api_gateway_session.Gateway.{jwt_validator}
use grpc_api_gateway_session.Scenarios.{Client, pairs, echo_value}
use grpc_api_gateway_session.Scenarios.Unauthenticated.{case_session_id}

pub case_session_id-ne : (suffix now : String) → case_session_id suffix now ≢ ""
case_session_id-ne suffix now e =
    cc (sym (cons-append "i" "ntegration-test-session" (String.◌++◌ suffix now)) ∙ e)

pub no_metadata : get_session_id (pairs []) ≡ none
unfolding get_session_id pairs
no_metadata = refl

pub session_only :
    (session_id : String)
    → session_id ≢ ""
    → let md = pairs (("session-id", session_id) ∷ []) in
      (get_session_id md ≡ some session_id) × (get_auth_token md ≡ none)
unfolding get_session_id get_auth_token pairs
session_only session_id ne =
    let e : (session_id == "") ≡ false = ground (arith, eq_iff session_id "") in (rw e refl, refl)

pub token_only : (token : String) → get_session_id (pairs (("authorization", token) ∷ [])) ≡ none
unfolding get_session_id pairs
token_only token = refl

pub bad_token :
    (session_id : String)
    → session_id ≢ ""
    → let md =
        pairs (("authorization", "invalid_token_format") ∷ ("session-id", session_id) ∷ []) in
      (get_session_id md ≡ some session_id) × (get_auth_token md ≡ some "invalid_token_format")
unfolding get_session_id get_auth_token pairs trim_space
bad_token session_id ne =
    let e : (session_id == "") ≡ false = ground (arith, eq_iff session_id "") in (rw e refl, refl)

not_valid :
    (lib : Codecs) (secret : Bytes) (now : lib.Time) (session_id : String)
    → validate_token lib secret now session_id "invalid_token_format" ≡ false
unfolding validate_token parse_and_verify split_n
not_valid lib secret now session_id = refl

unauthenticated_sent :
    (from_error : Error → Option (Code × String))
    → StatusLibrary from_error
    → (message : String)
    → gateway_error_to_grpc from_error (some (status unauthenticated message))
      ≡ some (status unauthenticated message)
unfolding gateway_error_to_grpc code_of
unauthenticated_sent from_error grpc message =
    rw (grpc.of_status unauthenticated message, code_of) refl

module _ (lib : Codecs) (gateway : Config) (later : lib.Time) (method : String)
    (from_error : Error → Option (Code × String)) (grpc : StatusLibrary from_error) where
  -- A client whose echo calls, made on the method, first go through the header chain of the gateway;
  -- the error of the chain is sent as the gateway's interceptor maps it.
  abbrev pub GuardsEcho : {S : Type 0} → Client S → Type 0
  GuardsEcho {S} client =
      (md : Metadata) (value : String) (s : S) (e sent : Error)
      → auth_chain (jwt_validator lib gateway later) gateway.routes md method ≡ err e
      → gateway_error_to_grpc from_error (some e) ≡ some sent
      → client.echo md value s ≡ (err sent, s)

  module _ {S : Type 0} (client : Client S) (guarded : GuardsEcho client)
      (required : mode_for (auth_rules gateway.routes.routes) method ≡ authorization_required) where
    chain_refuses :
        (md : Metadata) (s : S) (message : String)
        → auth_chain (jwt_validator lib gateway later) gateway.routes md method
          ≡ err (status unauthenticated message)
        → client.echo md echo_value s ≡ (err (status unauthenticated message), s)
    chain_refuses md s message h =
        guarded md echo_value s _ _ h (unauthenticated_sent from_error grpc message)

    pub echo-no_session :
        (md : Metadata) (s : S)
        → get_session_id md ≡ none
        → client.echo md echo_value s ≡ (err (status unauthenticated "missing session-id"), s)
    unfolding process_chain
    echo-no_session md s e = chain_refuses md s "missing session-id" (
        rw
          (
            process_auth-no_session (jwt_validator lib gateway later) _ md method required e,
            process_chain,
          )
          refl)

    pub echo-no_token :
        (md : Metadata) (s : S) (session_id : String)
        → get_session_id md ≡ some session_id
        → get_auth_token md ≡ none
        → client.echo md echo_value s ≡ (err (status unauthenticated "missing or invalid token"), s)
    unfolding process_chain
    echo-no_token md s session_id e d = chain_refuses md s "missing or invalid token" (
        rw
          (
            process_auth-no_token (jwt_validator lib gateway later) _ md method required session_id
                e d,
            process_chain,
          )
          refl)

    -- A token that the validator does not accept for the session.
    pub echo-invalid_token :
        (md : Metadata) (s : S) (session_id token : String)
        → get_session_id md ≡ some session_id
        → get_auth_token md ≡ some token
        → jwt_validator lib gateway later session_id token ≡ ok false
        → client.echo md echo_value s ≡ (err (status unauthenticated "missing or invalid token"), s)
    unfolding process_chain
    echo-invalid_token md s session_id token e d bad =
        chain_refuses md s "missing or invalid token" (
          rw
            (
              process_auth-bad_token (jwt_validator lib gateway later) _ md method required
                  session_id token e d bad,
              process_chain,
            )
            refl)

    pub echo-bad_token :
        (md : Metadata) (s : S) (session_id : String)
        → get_session_id md ≡ some session_id
        → get_auth_token md ≡ some "invalid_token_format"
        → client.echo md echo_value s ≡ (err (status unauthenticated "missing or invalid token"), s)
    echo-bad_token md s session_id e d =
        echo-invalid_token md s session_id "invalid_token_format" e d
          (ap ok (not_valid lib _ later session_id))
