-- ===== src/GrpcError/Table.antt =====
-- The table of errors that a client of the gateway can see.
use grpc_api_gateway_session.Prelude.{
  ◌≡◌, refl, ◌≢◌, inl, inr, ◌⊎◌, String, true, false, Option, none, some, Bool-cases, ap, sym,
}
use grpc_api_gateway_session.GrpcError.{
  Code, ok_code, unknown, unavailable, resource_exhausted, unauthenticated, Sentinel,
  err_conn_pool_closed, err_no_available_conn_instance, err_generic_unknown_cluster,
  err_sticky_key_required, Error, status, sentinel, wrap, other, msg_all_instances_busy,
  msg_backend_unavailable, msg_missing_or_invalid_token, errors_is, from_sentinel, code_of,
  gateway_error_to_grpc, status_err, is_unknown, is_unavailable,
}

-- What the gRPC library documents of `status.FromError`: it gives back the code and the message of
-- a status, the code of a status that an error wraps, and nothing for an error without a status.
pub record StatusLibrary (from_error : Error → Option (Code × String)) : Type 0 where
  pub of_status : (c : Code) (m : String) → from_error (status c m) ≡ some (c, m)
  pub of_sentinel : (s : Sentinel) → from_error (sentinel s) ≡ none
  pub of_wrap_none : (t : String) (e : Error) → from_error e ≡ none → from_error (wrap t e) ≡ none
  pub of_wrap_some :
      (t : String) (e : Error) (c : Code) (m : String)
      → from_error e ≡ some (c, m)
      → (text : String) × (from_error (wrap t e) ≡ some (c, text))

-- The status that a sentinel, wrapped or not, is reported as.
abbrev pub reported : Sentinel → Error
reported err_conn_pool_closed = status unavailable msg_backend_unavailable
reported err_no_available_conn_instance = status resource_exhausted msg_all_instances_busy
reported err_generic_unknown_cluster = status unavailable msg_backend_unavailable
reported err_sticky_key_required = status unauthenticated msg_missing_or_invalid_token

-- An error of the gateway's own: a sentinel under any number of wrappers.
pub data Carries (s : Sentinel) : Error → Type 0 where
  bare : Carries s (sentinel s)
  wrapped : {e : Error} (t : String) → Carries s e → Carries s (wrap t e)

-- The error has no status, or one whose code says nothing.
abbrev HasNoCode : Option (Code × String) → Type 0
HasNoCode none = Unit
HasNoCode (some (c, m)) = c ≡ unknown

-- A status that the gateway words itself, for an error whose status is `found`: the backend was not
-- available, or there was no status, and the gateway found no instance or no sticky key.
abbrev IsOwn : (found : Option (Code × String)) → Code → String → Type 0
IsOwn found c m =
    ((c ≡ unavailable)
      × (m ≡ msg_backend_unavailable)
      × (HasNoCode found ⊎ ((text : String) × (found ≡ some (unavailable, text)))))
    ⊎ (((c ≡ resource_exhausted) × (m ≡ msg_all_instances_busy) × HasNoCode found)
        ⊎ ((c ≡ unauthenticated) × (m ≡ msg_missing_or_invalid_token) × HasNoCode found))

-- What the client is sent for an error whose status is `found`. It is sent no error only for a status
-- that says OK. Otherwise it is sent a status with another code than OK and unknown: the one of the
-- error as it is, but never one that says unavailable, or one in the gateway's own words.
abbrev pub IsClientError : (found : Option (Code × String)) → Option Error → Type 0
IsClientError found none = (m : String) × (found ≡ some (ok_code, m))
IsClientError found (some (status c m)) =
    (c ≢ unknown) × (c ≢ ok_code) × (((c ≢ unavailable) × (found ≡ some (c, m))) ⊎ IsOwn found c m)
IsClientError found (some (sentinel s)) = ⊥
IsClientError found (some (wrap t e)) = ⊥
IsClientError found (some (other t)) = ⊥

from_sentinel-IsClientError :
    (found : Option (Code × String)) (e : Error)
    → HasNoCode found
    → IsClientError found (some (from_sentinel e))
unfolding from_sentinel
from_sentinel-IsClientError found e n =
    elim (Bool-cases (errors_is e err_no_available_conn_instance)) [
      | inl h ↦ rw h (cc, cc, inr (inr (inl (refl, refl, n))))
      | inr h ↦ elim (Bool-cases (errors_is e err_sticky_key_required)) [
        | inl k ↦ rw (h, k) (cc, cc, inr (inr (inr (refl, refl, n))))
        | inr k ↦ rw (h, k) (cc, cc, inr (inl (refl, refl, inl n)))
      ]
    ]

status_err-IsClientError :
    (c : Code) (m : String)
    → is_unknown c ≡ false
    → is_unavailable c ≡ false
    → IsClientError (some (c, m)) (status_err c m)
status_err-IsClientError ok_code m h k = (m, refl)
status_err-IsClientError unknown m h k = cc
status_err-IsClientError unavailable m h k = cc
status_err-IsClientError _ m h k = (cc, cc, inl (cc, refl))

is_unknown-path : (c : Code) → is_unknown c ≡ true → c ≡ unknown
is_unknown-path unknown h = refl
is_unknown-path _ h = cc

is_unavailable-path : (c : Code) → is_unavailable c ≡ true → c ≡ unavailable
is_unavailable-path unavailable h = refl
is_unavailable-path _ h = cc

module _ (from_error : Error → Option (Code × String)) where
  mapped :
      (e : Error) (found : Option (Code × String))
      → from_error e ≡ found
      → IsClientError found (gateway_error_to_grpc from_error (some e))
  unfolding gateway_error_to_grpc code_of
  mapped e none f = rw (f, gateway_error_to_grpc, code_of) (from_sentinel-IsClientError none e tt)
  mapped e (some (c, m)) f = elim (Bool-cases (is_unavailable c)) [
    | inl h ↦
        rw (f, h, gateway_error_to_grpc, code_of)
          (cc, cc, inr (inl (refl, refl, inr (m, ap (λ d. some (d, m)) (is_unavailable-path c h)))))
    | inr h ↦ elim (Bool-cases (is_unknown c)) [
      | inl k ↦
          rw (f, h, k, gateway_error_to_grpc, code_of)
            (from_sentinel-IsClientError (some (c, m)) e (is_unknown-path c k))
      | inr k ↦ rw (f, h, k, gateway_error_to_grpc, code_of) (status_err-IsClientError c m k h)
    ]
  ]

  pub gateway_error_to_grpc-IsClientError :
      (e : Error)
      → IsClientError (from_error e) (gateway_error_to_grpc from_error (some e))
        × (gateway_error_to_grpc from_error none ≡ none)
  unfolding gateway_error_to_grpc
  gateway_error_to_grpc-IsClientError e = (mapped e (from_error e) refl, refl)

module _ (from_error : Error → Option (Code × String)) (lib : StatusLibrary from_error) where
  Carries-no_status : (s : Sentinel) {e : Error} → Carries s e → from_error e ≡ none
  Carries-no_status s bare = lib.of_sentinel s
  Carries-no_status s (wrapped {e = e} t c) = lib.of_wrap_none t e (Carries-no_status s c)

  Carries-from_sentinel : (s : Sentinel) {e : Error} → Carries s e → from_sentinel e ≡ reported s
  unfolding from_sentinel errors_is
  Carries-from_sentinel err_conn_pool_closed bare = refl
  Carries-from_sentinel err_no_available_conn_instance bare = refl
  Carries-from_sentinel err_generic_unknown_cluster bare = refl
  Carries-from_sentinel err_sticky_key_required bare = refl
  Carries-from_sentinel s (wrapped t c) = Carries-from_sentinel s c

  -- A sentinel is reported by the table, however often it was wrapped: no instance as resource
  -- exhausted, a missing sticky key as unauthenticated, a closed pool and an unknown cluster as
  -- unavailable.
  pub gateway_error_to_grpc-sentinel :
      (s : Sentinel) (e : Error)
      → Carries s e
      → gateway_error_to_grpc from_error (some e) ≡ some (reported s)
  unfolding gateway_error_to_grpc code_of
  gateway_error_to_grpc-sentinel s e c =
      rw (Carries-no_status s c, code_of, Carries-from_sentinel s c) refl

  IsClientError-fixed :
      (found : Option (Code × String)) (o : Option Error)
      → IsClientError found o
      → gateway_error_to_grpc from_error o ≡ o
  unfolding gateway_error_to_grpc code_of
  IsClientError-fixed found none h = refl
  IsClientError-fixed found (some (status ok_code m)) h = absurd (h.1 refl)
  IsClientError-fixed found (some (status unknown m)) h = absurd (h.0 refl)
  IsClientError-fixed found (some (status unavailable m)) (n, o, inl (u, f)) = absurd (u refl)
  IsClientError-fixed found (some (status unavailable m)) (n, o, inr (inl (c, e, w))) =
      rw (lib.of_status unavailable m, code_of) (ap (λ t. some (status unavailable t)) (sym e))
  IsClientError-fixed found (some (status unavailable m)) (n, o, inr (inr (inl (c, w, n')))) = cc
  IsClientError-fixed found (some (status unavailable m)) (n, o, inr (inr (inr (c, w, n')))) = cc
  IsClientError-fixed found (some (status c m)) h = rw (lib.of_status c m, code_of) refl
  IsClientError-fixed found (some (sentinel s)) h = absurd h
  IsClientError-fixed found (some (wrap t e)) h = absurd h
  IsClientError-fixed found (some (other t)) h = absurd h

  -- Mapping an error twice is mapping it once, so a second interceptor would change nothing.
  pub gateway_error_to_grpc_idem :
      (e : Option Error)
      → gateway_error_to_grpc from_error (gateway_error_to_grpc from_error e)
        ≡ gateway_error_to_grpc from_error e
  unfolding gateway_error_to_grpc
  gateway_error_to_grpc_idem none = refl
  gateway_error_to_grpc_idem (some e) =
      IsClientError-fixed (from_error e) (gateway_error_to_grpc from_error (some e))
        (gateway_error_to_grpc-IsClientError from_error e).0
