-- ===== src/Token/Validate.antt =====
-- When the gateway lets a token pass for a session.
use grpc_api_gateway_session.Prelude.{
  ◌≡◌, refl, ◌↔◌, String, true, false, some, ◌==◌, eq_iff, arith, Result-cases, Option-cases, inl,
  inr, if◌then◌else◌,
}
use grpc_api_gateway_session.Token.{
  Bytes, TokenClaims, Codecs, create_token, parse_and_verify, check_claims, validate_token,
}
use grpc_api_gateway_session.Token.Verify.{
  RoundTrips, IsSigned, parse_and_verify_iff, parse_and_verify-create_token,
}

-- A token that is signed, carries the session, and whose time is readable and not over.
pub record IsLive (lib : Codecs) (secret : Bytes) (now : lib.Time) (session_id token : String)
    : Type 0 where
  pub claims : TokenClaims
  pub signed : IsSigned lib secret token claims
  pub expiry : lib.Time
  pub readable : lib.parse claims.expires_at ≡ some expiry
  pub not_over : lib.after now expiry ≡ false
  pub session : claims.session_id ≡ session_id

module _ (lib : Codecs) where
  check_claims_iff :
      (session_id : String) (now t : lib.Time) (claims : TokenClaims)
      → (check_claims lib session_id now t claims ≡ true)
        ↔ ((lib.after now t ≡ false) × (claims.session_id ≡ session_id))
  unfolding check_claims
  check_claims_iff session_id now t claims = (
    λ h. (ground arith, ground (arith, eq_iff claims.session_id session_id)),
    λ h. ground (arith, eq_iff claims.session_id session_id),
  )

  validate_token-IsLive :
      (secret : Bytes) (now : lib.Time) (session_id token : String)
      → validate_token lib secret now session_id token ≡ true
      → IsLive lib secret now session_id token
  unfolding validate_token
  validate_token-IsLive secret now session_id token h =
      elim (Result-cases (parse_and_verify lib token secret)) [
        | inl (e, p) ↦ absurd (cc (rw (p, validate_token) at h))
        | inr (claims, p) ↦ elim (Option-cases (lib.parse claims.expires_at)) [
          | inl q ↦ absurd (cc (rw (p, q, validate_token) at h))
          | inr (t, q) ↦
              let (live, same) =
                (check_claims_iff session_id now t claims).0 (rw (p, q, validate_token) at h) in
              record {
                claims = claims;
                signed = (parse_and_verify_iff lib token secret claims).0 p;
                expiry = t;
                readable = q;
                not_over = live;
                session = same;
              }
        ]
      ]

  IsLive-validate_token :
      (secret : Bytes) (now : lib.Time) (session_id token : String)
      → IsLive lib secret now session_id token
      → validate_token lib secret now session_id token ≡ true
  unfolding validate_token
  IsLive-validate_token secret now session_id token v =
      rw ((parse_and_verify_iff lib token secret v.claims).1 v.signed, v.readable, validate_token)
        ((check_claims_iff session_id now v.expiry v.claims).1 (v.not_over, v.session))

  -- A token passes for a session exactly if it is signed under the secret, its claims name that
  -- session, and its expiry can be read and does not lie before now.
  pub validate_token_iff :
      (secret : Bytes) (now : lib.Time) (session_id token : String)
      → (validate_token lib secret now session_id token ≡ true)
        ↔ IsLive lib secret now session_id token
  validate_token_iff secret now session_id token = (
    validate_token-IsLive secret now session_id token,
    IsLive-validate_token secret now session_id token,
  )

  -- A token that was created for one session passes, until it expires, for that session and for no
  -- other, if the time that was written can be read.
  pub validate_token-create_token :
      (login role issued_for session_id : String) (expires_at issued_at read now : lib.Time)
      (secret : Bytes) (token : String)
      → RoundTrips lib
      → lib.parse (lib.format expires_at) ≡ some read
      → create_token lib login role issued_for expires_at issued_at secret ≡ some token
      → validate_token lib secret now session_id token
        ≡ (if lib.after now read then false else issued_for == session_id)
  unfolding validate_token check_claims
  validate_token-create_token login role issued_for session_id expires_at issued_at read now secret
        token law times made =
      rw
        (
          parse_and_verify-create_token lib login role issued_for expires_at issued_at secret token
              law made,
          times,
          validate_token,
        )
        refl
