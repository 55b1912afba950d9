-- ===== src/Scenarios/Transfer/Echoes.antt =====
-- What the calls of `echoTwice` were answered.
use grpc_api_gateway_session.Prelude.{
  ℕ, zero, suc, ◌≡◌, refl, ap, ◌∙◌, ◌≢◌, ◌⊎◌, String, true, ◌||◌, Option, ◌==◌, eq_iff, Result, ok,
  err, arith, if◌then◌else◌, ok-injective, Bool-cases, inl, inr, subst,
}
use grpc_api_gateway_session.GrpcError.{Code, Error}
use grpc_api_gateway_session.Headers.{Metadata}
use grpc_api_gateway_session.Scenarios.{Run, Client, echo}
use grpc_api_gateway_session.Scenarios.Inversion.{
  after_ok, wrapped_ok, check_ok, AnswersFrom, echo_ok,
}
use grpc_api_gateway_session.Scenarios.Transfer.{is_retryable, or_retry, echo_retrying, echo_twice}

module _ (from_error : Error → Option (Code × String)) {S : Type 0} (client : Client S) where
  or_retry_ok :
      (again : Run S String) (r : Result Error String × S) (pod : String) (t : S)
      → or_retry from_error client again r ≡ (ok pod, t)
      → (r ≡ (ok pod, t))
        ⊎ ((e : Error) × (u : S) × (r ≡ (err e, u))
            × (is_retryable from_error client e ≡ true)
            × (again u ≡ (ok pod, t)))
  unfolding or_retry
  or_retry_ok again (ok x, u) pod t h = inl h
  or_retry_ok again (err e, u) pod t h = elim (Bool-cases (is_retryable from_error client e)) [
    | inl p ↦ inr (e, u, refl, p, rw p at h)
    | inr p ↦ absurd (cc (ap (λ w. w.0) (rw p at h)))
  ]

module _ (from_error : Error → Option (Code × String)) {S : Type 0} (client : Client S)
    (md : Metadata) where
  -- Calls that are refused as unavailable, and then one that the pod answers.
  pub data AnswersAtLast (pod : String) : S → S → Type 0 where
    at_once : {s t : S} → AnswersFrom client md pod s t → AnswersAtLast pod s t
    refused_first :
        {s u : S} (t : S) (e : Error)
        → echo client md "" s ≡ (err e, t)
        → is_retryable from_error client e ≡ true
        → AnswersAtLast pod t u
        → AnswersAtLast pod s u

  echo_retrying_ok :
      (left : ℕ) (pod : String) (s t : S)
      → echo_retrying from_error client md left "" s ≡ (ok pod, t)
      → AnswersAtLast pod s t × (pod ≢ "")
  unfolding echo_retrying
  echo_retrying_ok zero pod s t h =
      let (a, n, k) = echo_ok client md "" pod s t (wrapped_ok "myservice_echo" _ pod t h) in
      (at_once a, n)
  echo_retrying_ok (suc left) pod s t h =
      elim (or_retry_ok from_error client (echo_retrying from_error client md left "")
        (echo client md "" s) pod t h) [
          | inl g ↦ (let (a, n, k) = echo_ok client md "" pod s t g in (at_once a, n))
          | inr (e, u, q, p, g) ↦
              (let (a, n) = echo_retrying_ok left pod u t g in (refused_first u e q p a, n))
        ]

  -- What `echoTwice` did when it succeeds.
  pub echo_twice_ok :
      (pod : String) (s u : S)
      → echo_twice from_error client md "" s ≡ (ok pod, u)
      → (t : S) × AnswersAtLast pod s t × AnswersAtLast pod t u
  unfolding echo_twice
  echo_twice_ok pod s u h =
      let (pod1, t, e1, h1) = after_ok _ _ pod u h in
      let (pod2, t2, e2, h2) = after_ok _ _ pod u h1 in
      let (y, t3, e3, h3) = after_ok _ _ pod u h2 in
      let (same, w) = check_ok (pod1 == "" || pod1 == pod2) "sticky session violation" t2 y t3 e3 in
      let (a1, n1) = echo_retrying_ok 4 pod1 s t e1 in
      let (a2, n2) = echo_retrying_ok 4 pod2 t t2 e2 in
      let e : (if pod1 == "" then pod2 else pod1) ≡ pod = ok-injective (ap (λ p. p.0) h3) in
      let f1 : pod1 ≡ pod = ground (arith, eq_iff pod1 "") in
      let f2 : pod2 ≡ pod = ground (arith, eq_iff pod1 "", eq_iff pod1 pod2) in
      (
        t,
        subst (λ (x : String). AnswersAtLast x s t) f1 a1,
        subst (λ (x : String). AnswersAtLast x t u) f2
            (subst (λ (x : S). AnswersAtLast pod2 t x) (w ∙ ap (λ p. p.1) h3) a2),
      )
