-- ===== src/Headers/Gate.antt =====
-- Who gets past the auth processor.
use grpc_api_gateway_session.Prelude.{
  ◌≡◌, refl, sym, ap, ◌≢◌, ◌↔◌, none, ◌==◌, eq_iff, ◌⊎◌, inl, inr, String, Bool, true, false, some,
  List, [], ◌∷◌, Result, ok, err, ◌>>=◌, ◌++◌, text-cases, Result-cases, ◌∙◌, Option-cases,
}
use grpc_api_gateway_session.Prelude.{arith}
use grpc_api_gateway_session.Text.{trim_space}
use grpc_api_gateway_session.GrpcError.{status, unauthenticated}
use grpc_api_gateway_session.Domain.{authorization_required}
use grpc_api_gateway_session.Headers.{
  Metadata, first_value, trimmed, header_authorization, HeaderProcessor, AuthRule, get_session_id,
  get_auth_token, process_chain, mode_for, judge, check_token, check_session, process_auth,
}

-- Processing with two chains one after the other is processing with the joined chain.
pub process_chain-append :
    (ps qs : List HeaderProcessor) (headers : Metadata) (method : String)
    → process_chain (ps ++ qs) headers method
      ≡ (process_chain ps headers method >>= λ out. process_chain qs out method)
unfolding process_chain
process_chain-append [] qs headers method = refl
process_chain-append (p ∷ ps) qs headers method = elim (Result-cases (p headers method)) [
  | inl (e, r) ↦ rw r refl
  | inr (next, r) ↦ rw r (process_chain-append ps qs next method)
]

judge-ok :
    (r : Result String Bool) (headers out : Metadata)
    → judge r headers ≡ ok out
    → (r ≡ ok true) × (out ≡ headers)
unfolding judge
judge-ok (err text) headers out h = cc
judge-ok (ok false) headers out h = cc
judge-ok (ok true) headers out h = (refl, cc)

module _ (validate : String → String → Result String Bool) where
  -- What a request must show on a route that requires authorization.
  pub record IsAuthorized (headers : Metadata) : Type 0 where
    pub session_id : String
    pub token : String
    pub has_session : get_session_id headers ≡ some session_id
    pub has_token : get_auth_token headers ≡ some token
    pub valid : validate session_id token ≡ ok true

  check_session-ok :
      (headers out : Metadata)
      → check_session validate headers (get_session_id headers) ≡ ok out
      → IsAuthorized headers × (out ≡ headers)
  unfolding check_session check_token
  check_session-ok headers out h = elim (Option-cases (get_session_id headers)) [
    | inl e ↦ absurd (cc (rw (e, check_session) at h))
    | inr (s, e) ↦ elim (Option-cases (get_auth_token headers)) [
      | inl f ↦ absurd (cc (rw (e, f, check_session) at h))
      | inr (t, f) ↦
          let (valid, same) = judge-ok (validate s t) headers out (rw (e, f, check_session) at h) in
          (
            record { session_id = s; token = t; has_session = e; has_token = f; valid = valid },
            same,
          )
    ]
  ]

  ok-check_session :
      (headers : Metadata)
      → IsAuthorized headers
      → check_session validate headers (get_session_id headers) ≡ ok headers
  unfolding check_session check_token judge
  ok-check_session headers a = rw (a.has_session, check_session, a.has_token, a.valid) refl

  -- The auth processor lets a request pass exactly if the method's mode is not "required", or the
  -- request has a session ID and a token that the validator accepts for it; then the headers go on
  -- unchanged.
  pub process_auth_iff :
      (rules : List AuthRule) (headers out : Metadata) (method : String)
      → (process_auth validate rules headers method ≡ ok out) ↔ (
          (out ≡ headers)
          × ((mode_for rules method ≢ authorization_required) ⊎ IsAuthorized headers))
  unfolding process_auth
  process_auth_iff rules headers out method =
      elim (text-cases (mode_for rules method) authorization_required) [
        | inl (t, e) ↦
            rw (t, process_auth)
              (
                λ h. let (a, same) = check_session-ok headers out h in (same, inr a),
                λ h. elim (h.1) [
                  | inl ne ↦ absurd (ne e)
                  | inr a ↦ ok-check_session headers a ∙ ap ok (sym h.0)
                ],
              )
        | inr (t, ne) ↦ rw (t, process_auth) (λ h. (cc, inl ne), λ h. ap ok (sym h.0))
      ]

  -- How a request is refused where the method requires authorization.
  module _ (rules : List AuthRule) (headers : Metadata) (method : String)
      (required : mode_for rules method ≡ authorization_required) where
    reaches_session :
        process_auth validate rules headers method
        ≡ check_session validate headers (get_session_id headers)
    unfolding process_auth
    reaches_session =
        let e : (mode_for rules method == authorization_required) ≡ true =
          (eq_iff (mode_for rules method) authorization_required).1 required in
        rw (e, process_auth) refl

    pub process_auth-no_session :
        get_session_id headers ≡ none
        → process_auth validate rules headers method
          ≡ err (status unauthenticated "missing session-id")
    unfolding check_session
    process_auth-no_session e = reaches_session ∙ rw (e, check_session) refl

    pub process_auth-no_token :
        (session_id : String)
        → get_session_id headers ≡ some session_id
        → get_auth_token headers ≡ none
        → process_auth validate rules headers method
          ≡ err (status unauthenticated "missing or invalid token")
    unfolding check_session check_token
    process_auth-no_token session_id e d = reaches_session ∙ rw (e, check_session, d) refl

    pub process_auth-bad_token :
        (session_id token : String)
        → get_session_id headers ≡ some session_id
        → get_auth_token headers ≡ some token
        → validate session_id token ≡ ok false
        → process_auth validate rules headers method
          ≡ err (status unauthenticated "missing or invalid token")
    unfolding check_session check_token judge
    process_auth-bad_token session_id token e d bad =
        reaches_session ∙ rw (e, check_session, d, bad) refl

-- A token without space around it is read as it stands.
pub get_auth_token_lem :
    (md : Metadata) (token : String) (rest : List String)
    → md header_authorization ≡ token ∷ rest
    → trim_space token ≡ token
    → token ≢ ""
    → get_auth_token md ≡ some token
unfolding get_auth_token first_value trimmed
get_auth_token_lem md token rest e trims made =
    let t : (token == "") ≡ false = ground (arith, eq_iff token "") in
    rw (e, get_auth_token, first_value, t, trimmed, trims, t) refl
