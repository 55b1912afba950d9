-- ===== src/Auth/Jwt/Agreement.antt =====
-- The two copies of the token code.

use Prim.Native.String
use text.Mathlib.TextLemmas.{nil-append, cons-append}
use grpc_api_gateway_session.Prelude.{
  ◌≡◌, refl, String, Option, none, some, List, [], ◌∷◌, inl, inr, ap, ◌∙◌, Option-cases,
}
use grpc_api_gateway_session.Token
use grpc_api_gateway_session.Token.{
  Bytes, Codecs, TokenClaims, TokenError, dot, two_parts, or_fail, check_signature, claims_of,
}
use grpc_api_gateway_session.Auth.Jwt.{
  wrap_error, split_token, create_token, verify, parse_and_verify, service_create_token,
}

split_token-agrees : (parts : List String) → split_token parts ≡ two_parts parts
unfolding split_token two_parts
split_token-agrees [] = refl
split_token-agrees (p ∷ []) = refl
split_token-agrees (p ∷ q ∷ []) = refl
split_token-agrees (p ∷ q ∷ r ∷ rest) = refl

wrap_error-agrees : {A : Type 0} (e : TokenError) (m : Option A) → wrap_error e m ≡ or_fail e m
unfolding wrap_error
wrap_error-agrees e none = refl
wrap_error-agrees e (some a) = refl

module _ (lib : Codecs) where
  service_create_token-agrees :
      (secret : Bytes) (login role session_id : String) (expires_at issued_at : lib.Time)
      → service_create_token lib secret login role session_id expires_at issued_at
        ≡ Token.create_token lib login role session_id expires_at issued_at secret
  unfolding service_create_token create_token Token.create_token
  service_create_token-agrees secret login role session_id expires_at issued_at =
      elim (Option-cases (lib.marshal (claims_of lib login role session_id expires_at issued_at))) [
        | inl e ↦ rw (e, create_token, Token.create_token) refl
        | inr (payload, e) ↦
            rw (e, create_token, Token.create_token)
              (ap (λ (s : String). some (String.◌++◌ (lib.base64_encode payload) s))
                (cons-append dot String.[] (lib.base64_encode (lib.hmac_sha256 secret payload))
                  ∙ ap (String.◌∷◌ dot) (nil-append _)))
      ]

  verify-agrees :
      (secret payload received : Bytes)
      → verify lib secret payload received ≡ check_signature lib secret payload received
  unfolding verify check_signature
  verify-agrees secret payload received = rw wrap_error-agrees refl

  parse_and_verify-agrees :
      (secret : Bytes) (token : String)
      → parse_and_verify lib token secret ≡ Token.parse_and_verify lib token secret
  unfolding parse_and_verify Token.parse_and_verify
  parse_and_verify-agrees secret token = simp (split_token-agrees, wrap_error-agrees, verify-agrees)

  -- MyAuth's JWT service writes the token that the gateway's code would write, and its copy of
  -- ParseAndVerify answers every text as the gateway's does, with the same claims or error.
  pub jwt_agrees :
      (secret : Bytes) (login role session_id token : String) (expires_at issued_at : lib.Time)
      → (service_create_token lib secret login role session_id expires_at issued_at
          ≡ Token.create_token lib login role session_id expires_at issued_at secret)
        × (parse_and_verify lib token secret ≡ Token.parse_and_verify lib token secret)
  jwt_agrees secret login role session_id token expires_at issued_at = (
    service_create_token-agrees secret login role session_id expires_at issued_at,
    parse_and_verify-agrees secret token,
  )
