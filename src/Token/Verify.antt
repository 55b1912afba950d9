-- ===== src/Token/Verify.antt =====
-- Which tokens `ParseAndVerify` accepts.
use Prim.Native.Char.{code}
use Prim.Native.String
use mathlib.Core.Option.{some-injective}
use grpc_api_gateway_session.Prelude.{
  bind-eq-ok, ◌≡◌, refl, sym, ap, ◌∙◌, String, true, Option, none, some, List, [], ◌∷◌, ok, ◌↔◌,
  arith, Bool-cases, Option-cases, inl, inr,
}
use grpc_api_gateway_session.Text.{split_n-append, split_n-two, Lacks}
use grpc_api_gateway_session.Token.{
  Bytes, TokenClaims, Codecs, TokenError, bytes_equal, dot, or_fail, two_parts, claims_of,
  create_token, check_signature, parse_and_verify,
}

-- What Go's library documents of base64 and of a JSON object of five texts: what was encoded is
-- decoded again, and base64 has no dot.
pub record RoundTrips (lib : Codecs) : Type 0 where
  pub base64 : (b : Bytes) → lib.base64_decode (lib.base64_encode b) ≡ some b
  pub base64-Lacks : (b : Bytes) → Lacks (code dot) (lib.base64_encode b)
  pub json : (c : TokenClaims) (b : Bytes) → lib.marshal c ≡ some b → lib.unmarshal b ≡ some c

bytes_equal_refl : (xs : Bytes) → bytes_equal xs xs ≡ true
unfolding bytes_equal
bytes_equal_refl [] = refl
bytes_equal_refl (x ∷ xs) = ground (arith, bytes_equal_refl xs)

bytes_equal-eq : (xs ys : Bytes) → bytes_equal xs ys ≡ true → xs ≡ ys
unfolding bytes_equal
bytes_equal-eq [] [] h = refl
bytes_equal-eq [] (y ∷ ys) h = cc
bytes_equal-eq (x ∷ xs) [] h = cc
bytes_equal-eq (x ∷ xs) (y ∷ ys) h = ground (arith, bytes_equal-eq xs ys)

-- The token has two parts, the second signs the first, and the first holds the claims.
pub record IsSigned (lib : Codecs) (secret : Bytes) (token : String) (claims : TokenClaims)
    : Type 0 where
  pub payload64 : String
  pub signature64 : String
  pub payload : Bytes
  pub joined : token ≡ String.◌++◌ payload64 (String.◌∷◌ dot signature64)
  pub one_dot : Lacks (code dot) payload64 × Lacks (code dot) signature64
  pub decoded : lib.base64_decode payload64 ≡ some payload
  pub signed : lib.base64_decode signature64 ≡ some (lib.hmac_sha256 secret payload)
  pub content : lib.unmarshal payload ≡ some claims

two_parts-eq-ok :
    (parts : List String) (p : String × String) → two_parts parts ≡ ok p → parts ≡ p.0 ∷ p.1 ∷ []
unfolding two_parts
two_parts-eq-ok [] p h = cc
two_parts-eq-ok (a ∷ []) p h = cc
two_parts-eq-ok (a ∷ b ∷ []) p h = cc
two_parts-eq-ok (a ∷ b ∷ c ∷ rest) p h = cc

or_fail-eq-ok :
    {A : Type 0} (e : TokenError) (o : Option A) (a : A) → or_fail e o ≡ ok a → o ≡ some a
or_fail-eq-ok e none a h = cc
or_fail-eq-ok e (some b) a h = cc

module _ (lib : Codecs) where
  check_signature-eq-ok :
      (secret payload received : Bytes) (claims : TokenClaims)
      → check_signature lib secret payload received ≡ ok claims
      → (received ≡ lib.hmac_sha256 secret payload) × (lib.unmarshal payload ≡ some claims)
  unfolding check_signature
  check_signature-eq-ok secret payload received claims h =
      elim (Bool-cases (bytes_equal received (lib.hmac_sha256 secret payload))) [
        | inl same ↦ (
          bytes_equal-eq received (lib.hmac_sha256 secret payload) same,
          or_fail-eq-ok _ (lib.unmarshal payload) claims (rw (same, check_signature) at h),
        )
        | inr other ↦ absurd (cc (rw (other, check_signature) at h))
      ]

  parse_and_verify-IsSigned :
      (token : String) (secret : Bytes) (claims : TokenClaims)
      → parse_and_verify lib token secret ≡ ok claims
      → IsSigned lib secret token claims
  unfolding parse_and_verify
  parse_and_verify-IsSigned token secret claims h =
      let (parts, two, h₁) = bind-eq-ok _ _ claims h in
      let (payload, decoded, h₂) = bind-eq-ok _ _ claims h₁ in
      let (received, signature, h₃) = bind-eq-ok _ _ claims h₂ in
      let (same, content) = check_signature-eq-ok secret payload received claims h₃ in
      let (joined, left, right) =
        split_n-two dot token parts.0 parts.1 (two_parts-eq-ok _ parts two) in
      record {
        payload64 = parts.0;
        signature64 = parts.1;
        payload = payload;
        joined = joined;
        one_dot = (left, right);
        decoded = or_fail-eq-ok _ _ payload decoded;
        signed = or_fail-eq-ok _ _ received signature ∙ ap some same;
        content = content;
      }

  IsSigned-parse_and_verify :
      (token : String) (secret : Bytes) (claims : TokenClaims)
      → IsSigned lib secret token claims
      → parse_and_verify lib token secret ≡ ok claims
  unfolding parse_and_verify two_parts check_signature
  IsSigned-parse_and_verify token secret claims s =
      rw
        (
          s.joined,
          split_n-append dot s.payload64 s.signature64 s.one_dot.0 s.one_dot.1,
          s.decoded,
          s.signed,
          bytes_equal_refl (lib.hmac_sha256 secret s.payload),
          s.content,
        )
        refl

  -- A token is accepted with some claims exactly if it has one dot, the part before it is the base64
  -- of a payload that holds the claims, and the part behind it is the base64 of the payload's HMAC
  -- under the secret.
  pub parse_and_verify_iff :
      (token : String) (secret : Bytes) (claims : TokenClaims)
      → (parse_and_verify lib token secret ≡ ok claims) ↔ IsSigned lib secret token claims
  parse_and_verify_iff token secret claims =
      (parse_and_verify-IsSigned token secret claims, IsSigned-parse_and_verify token secret claims)

  -- A token that was created is accepted under the same secret, with the claims it was created for.
  pub parse_and_verify-create_token :
      (login role session_id : String) (expires_at issued_at : lib.Time) (secret : Bytes)
      (token : String)
      → RoundTrips lib
      → create_token lib login role session_id expires_at issued_at secret ≡ some token
      → parse_and_verify lib token secret
        ≡ ok (claims_of lib login role session_id expires_at issued_at)
  unfolding create_token
  parse_and_verify-create_token login role session_id expires_at issued_at secret token law h =
      elim (Option-cases (lib.marshal claims)) [
        | inl e ↦ absurd (cc (rw (e, create_token) at h))
        | inr (payload, e) ↦ IsSigned-parse_and_verify token secret claims (record {
          payload64 = lib.base64_encode payload;
          signature64 = lib.base64_encode (lib.hmac_sha256 secret payload);
          payload = payload;
          joined = sym (some-injective _ _ (rw (e, create_token) at h));
          one_dot = (law.base64-Lacks _, law.base64-Lacks _);
          decoded = law.base64 payload;
          signed = law.base64 _;
          content = law.json claims payload e;
        })
      ]
    where
      claims : TokenClaims
      claims = claims_of lib login role session_id expires_at issued_at
