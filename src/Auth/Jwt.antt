-- ===== src/Auth/Jwt.antt =====
-- MyAuth/service/jwt.go and MyAuth/handlers/jwt_service.go: MyAuth's own copy of the code that writes
-- and reads tokens. The claims have the JSON names of the gateway's, so the two share their type.
pub mod Agreement
use Prim.Native.Char.{code}
use Prim.Native.String
use grpc_api_gateway_session.Prelude.{
  ℕ, ◌≡◌, refl, String, Option, none, some, List, [], ◌∷◌, Result, ok, err, ◌>>=◌, if◌then◌else◌,
}
use grpc_api_gateway_session.Text.{split_n}
use grpc_api_gateway_session.Token
use grpc_api_gateway_session.Token.{
  Bytes, Codecs, TokenClaims, TokenError, err_invalid_token_format, err_decode_payload,
  err_decode_signature, err_invalid_signature, err_unmarshal_claims, bytes_equal, dot,
}

-- An error of a library, wrapped.
wrap_error : {A : Type 0} → TokenError → Option A → Result TokenError A
wrap_error e none = err e
wrap_error e (some a) = ok a

-- The one payload and the one signature.
split_token : List String → Result TokenError (String × String)
split_token (payload ∷ signature ∷ []) = ok (payload, signature)
split_token _ = err err_invalid_token_format

module _ (lib : Codecs) where
  open lib use {Time, format, marshal, unmarshal, base64_encode, base64_decode, hmac_sha256}

  -- `CreateToken`
  unfoldable pub create_token :
      (login role session_id : String) (expires_at issued_at : Time) (secret : Bytes)
      → Option String
  create_token login role session_id expires_at issued_at secret =
      let claims : TokenClaims = record {
        login = login;
        role = role;
        session_id = session_id;
        expires_at = format expires_at;
        issued_at = format issued_at;
      } in
      elim (marshal claims) [
        | none ↦ none
        | some payload ↦
            let signature = hmac_sha256 secret payload in
            some (String.◌++◌ (base64_encode payload) (String.◌++◌ "." (base64_encode signature)))
      ]

  verify : (secret payload received : Bytes) → Result TokenError TokenClaims
  verify secret payload received =
      if bytes_equal received (hmac_sha256 secret payload)
      then wrap_error err_unmarshal_claims (unmarshal payload)
      else err err_invalid_signature

  -- `ParseAndVerify`
  unfoldable pub parse_and_verify : String → Bytes → Result TokenError TokenClaims
  unfolding wrap_error split_token verify
  parse_and_verify token secret = do
    parts ← split_token (split_n 2 (code dot) token)
    payload ← wrap_error err_decode_payload (base64_decode parts.0)
    received ← wrap_error err_decode_signature (base64_decode parts.1)
    verify secret payload received

  -- `JwtService.CreateToken`
  unfoldable pub service_create_token :
      Bytes → (login role session_id : String) (expires_at issued_at : Time) → Option String
  unfolding create_token
  service_create_token secret login role session_id expires_at issued_at =
      create_token login role session_id expires_at issued_at secret
