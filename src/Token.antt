-- ===== src/Token.antt =====
-- MyGateway/auth/token.go and MyAuth/service/jwt.go, which are the same code, and the two users of
-- it: MyGateway/service/validator.go with time_provider.go, and MyAuth/handlers/jwt_service.go.
-- HMAC-SHA256, base64, JSON and the RFC 3339 times of Go's library are a record of functions.
pub mod Verify
pub mod Validate
use Prim.Native.Char.{Char, code}
use Prim.Native.String
use grpc_api_gateway_session.Prelude.{
  ℕ, String, Bool, true, false, ◌&&◌, Option, none, some, List, [], ◌∷◌, ◌==◌, nat_eq, Result, ok,
  err, ◌>>=◌, if◌then◌else◌,
}
use grpc_api_gateway_session.Text.{split_n}

abbrev pub Bytes : Type 0
Bytes = List ℕ

pub record TokenClaims : Type 0 where
  pub login : String
  pub role : String
  pub session_id : String
  pub expires_at : String
  pub issued_at : String

-- What the code calls: of an encoder the bytes, and `none` for an error.
pub record Codecs : Type 1 where
  pub Time : Type 0
  pub after : Time → Time → Bool
  pub format : Time → String
  pub parse : String → Option Time
  pub marshal : TokenClaims → Option Bytes
  pub unmarshal : Bytes → Option TokenClaims
  pub base64_encode : Bytes → String
  pub base64_decode : String → Option Bytes
  pub hmac_sha256 : (secret payload : Bytes) → Bytes

pub data TokenError : Type 0 where
  err_invalid_token_format err_decode_payload err_decode_signature : TokenError
  err_invalid_signature err_unmarshal_claims : TokenError

-- `subtle.ConstantTimeCompare(x, y) == 1`
pub bytes_equal : Bytes → Bytes → Bool
bytes_equal [] [] = true
bytes_equal [] (y ∷ ys) = false
bytes_equal (x ∷ xs) [] = false
bytes_equal (x ∷ xs) (y ∷ ys) = nat_eq x y && bytes_equal xs ys

abbrev pub dot : Char
dot = "."

abbrev pub or_fail : {A : Type 0} → TokenError → Option A → Result TokenError A
or_fail e none = err e
or_fail e (some a) = ok a

-- `len(parts) != 2`
unfoldable pub two_parts : List String → Result TokenError (String × String)
two_parts [] = err err_invalid_token_format
two_parts (p ∷ []) = err err_invalid_token_format
two_parts (p ∷ q ∷ []) = ok (p, q)
two_parts (p ∷ q ∷ r ∷ rest) = err err_invalid_token_format

module _ (lib : Codecs) where
  open lib use {
    Time, after, format, parse, marshal, unmarshal, base64_encode, base64_decode, hmac_sha256,
  }

  abbrev pub claims_of :
      (login role session_id : String) (expires_at issued_at : Time) → TokenClaims
  claims_of login role session_id expires_at issued_at = record {
    login = login;
    role = role;
    session_id = session_id;
    expires_at = format expires_at;
    issued_at = format issued_at;
  }

  -- payload.signature
  abbrev pub sign : Bytes → Bytes → String
  sign secret payload =
      String.◌++◌ (base64_encode payload)
        (String.◌∷◌ dot (base64_encode (hmac_sha256 secret payload)))

  unfoldable pub create_token :
      (login role session_id : String) (expires_at issued_at : Time) (secret : Bytes)
      → Option String
  create_token login role session_id expires_at issued_at secret =
      elim (marshal (claims_of login role session_id expires_at issued_at)) [
        | none ↦ none
        | some payload ↦ some (sign secret payload)
      ]

  unfoldable pub check_signature : Bytes → Bytes → Bytes → Result TokenError TokenClaims
  check_signature secret payload received =
      if bytes_equal received (hmac_sha256 secret payload)
      then or_fail err_unmarshal_claims (unmarshal payload)
      else err err_invalid_signature

  unfoldable pub parse_and_verify : String → Bytes → Result TokenError TokenClaims
  unfolding check_signature two_parts bytes_equal
  parse_and_verify token secret = do
    parts ← two_parts (split_n 2 (code dot) token)
    payload ← or_fail err_decode_payload (base64_decode parts.0)
    received ← or_fail err_decode_signature (base64_decode parts.1)
    check_signature secret payload received

  -- `now.After(t)`, then the session.
  check_claims : (session_id : String) (now t : Time) → TokenClaims → Bool
  check_claims session_id now t claims =
      if after now t then false else claims.session_id == session_id

  -- `ValidateToken`, whose error is always nil: every failure is a plain `false`.
  unfoldable pub validate_token : (secret : Bytes) (now : Time) (session_id token : String) → Bool
  unfolding check_claims parse_and_verify
  validate_token secret now session_id token = elim (parse_and_verify token secret) [
    | err e ↦ false
    | ok claims ↦ elim (parse claims.expires_at) [
      | none ↦ false
      | some t ↦ check_claims session_id now t claims
    ]
  ]
