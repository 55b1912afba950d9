-- ===== src/Scenarios/Inversion.antt =====
-- What a part of a scenario did when it succeeds.
use grpc_api_gateway_session.Prelude.{
  Option-cases, Bool-cases, inl, inr, ◌≡◌, refl, sym, ap, ◌∙◌, ◌≢◌, String, Bool, true, false,
  Option, none, some, eq_iff, Result, ok, err, arith, ok-injective,
}
use grpc_api_gateway_session.GrpcError.{Code, Error}
use grpc_api_gateway_session.Headers.{Metadata}
use grpc_api_gateway_session.Scenarios.{
  with_status, refuses, EchoReply, ShutdownReply, Run, after, wrapped, check, Client, echo_value,
  echo_faults, shutdown_faults, unless_fault, echo, shutdown,
}

-- A program that succeeds went through its first call.
module _ {S A B : Type 0} where
  pub after_ok :
      (r : Result Error A × S) (f : A → Run S B) (b : B) (t : S)
      → after r f ≡ (ok b, t)
      → (a : A) × (s : S) × (r ≡ (ok a, s)) × (f a s ≡ (ok b, t))
  after_ok (ok a, s) f b t h = (a, s, refl, h)
  after_ok (err e, s) f b t h = absurd (cc (ap (λ p. p.0) h))

pub wrapped_ok :
    {S A : Type 0} (text : String) (r : Result Error A × S) (a : A) (t : S)
    → wrapped text r ≡ (ok a, t)
    → r ≡ (ok a, t)
wrapped_ok text (ok x, s) a t h = h
wrapped_ok text (err e, s) a t h = absurd (cc (ap (λ p. p.0) h))

pub unless_fault_ok :
    {S A : Type 0} (x : A) (fault : Option Error) (s : S) (a : A) (t : S)
    → unless_fault x fault s ≡ (ok a, t)
    → (fault ≡ none) × (x ≡ a) × (s ≡ t)
unfolding unless_fault
unless_fault_ok x none s a t h = (refl, ok-injective (ap (λ p. p.0) h), ap (λ p. p.1) h)
unless_fault_ok x (some e) s a t h = absurd (cc (ap (λ p. p.0) h))

-- An answer that `Echo` accepts.
module _ (expected_pod : String) (r : EchoReply) where
  pub echo_faults-pod :
      echo_faults expected_pod r ≡ none
      → (r.pod_name ≢ "") × (expected_pod ≢ "" → r.pod_name ≡ expected_pod)
  unfolding echo_faults
  echo_faults-pod h =
      ground (arith, eq_iff r.pod_name "", eq_iff expected_pod "", eq_iff r.pod_name expected_pod)

module _ {S : Type 0} (client : Client S) (md : Metadata) where
  -- The client gets an answer from the pod.
  pub AnswersFrom : String → S → S → Type 0
  AnswersFrom pod s t =
      (r : EchoReply) × (client.echo md echo_value s ≡ (ok r, t)) × (r.pod_name ≡ pod)

  pub echo_ok :
      (expected_pod pod : String) (s t : S)
      → echo client md expected_pod s ≡ (ok pod, t)
      → AnswersFrom pod s t × (pod ≢ "") × (expected_pod ≢ "" → pod ≡ expected_pod)
  unfolding echo AnswersFrom
  echo_ok expected_pod pod s t h =
      let (r, u, e, g) =
        after_ok _
          (λ (resp : EchoReply). unless_fault resp.pod_name (echo_faults expected_pod resp)) pod t
          h in
      let (p, q, v) = unless_fault_ok r.pod_name (echo_faults expected_pod r) u pod t g in
      let (n, m) = echo_faults-pod expected_pod r p in
      (
        (
          r,
          wrapped_ok "myservice_echo request failed" (client.echo md echo_value s) r t
              (e ∙ ap (λ w. (ok r, w)) v),
          q,
        ),
        λ z. n (q ∙ z),
        λ z. sym q ∙ m z,
      )

pub check_ok :
    {S : Type 0} (b : Bool) (text : String) (s : S) (u : Unit {0}) (t : S)
    → check b text s ≡ (ok u, t)
    → (b ≡ true) × (s ≡ t)
check_ok true text s u t h = (refl, ap (λ p. p.1) h)
check_ok false text s u t h = absurd (cc (ap (λ p. p.0) h))

module _ {S : Type 0} (client : Client S) (md : Metadata) where
  -- The client shuts the pod down.
  pub ShutsDown : String → S → S → Type 0
  ShutsDown pod s t = (r : ShutdownReply) × (client.shutdown md s ≡ (ok r, t)) × (r.pod_name ≡ pod)

  pub shutdown_ok :
      (pod : String) (u : Unit {0}) (s t : S)
      → shutdown client md pod s ≡ (ok u, t)
      → ShutsDown pod s t
  unfolding shutdown ShutsDown shutdown_faults
  shutdown_ok pod u s t h =
      let (r, v, e, g) =
        after_ok _ (λ (resp : ShutdownReply). unless_fault tt (shutdown_faults pod resp)) u t h in
      let (p, q, w) = unless_fault_ok tt (shutdown_faults pod r) v u t g in
      (
        r,
        wrapped_ok "myservice_shutdown request failed" (client.shutdown md s) r t
            (e ∙ ap (λ x. (ok r, x)) w),
        ground (arith, eq_iff r.pod_name pod),
      )

-- A refusal that a scenario accepts.
module _ (from_error : Error → Option (Code × String)) (holds : Code → String → Bool)
    (text : String) where
  -- The answer is a status that meets the demand.
  pub IsRefusal : {A : Type 0} → Result Error A → Type 0
  IsRefusal r =
      (e : Error) × (c : Code) × (message : String) × (r ≡ err e)
      × (from_error e ≡ some (c, message))
      × (holds c message ≡ true)

  with_status-IsRefusal :
      {A : Type 0} (r : Result Error A) → with_status from_error holds text r ≡ none → IsRefusal r
  unfolding IsRefusal
  with_status-IsRefusal (ok a) h = absurd (cc h)
  with_status-IsRefusal (err e) h = elim (Option-cases (from_error e)) [
    | inl p ↦ absurd (cc (rw (p, with_status) at h))
    | inr ((c, message), p) ↦ elim (Bool-cases (holds c message)) [
      | inl q ↦ (e, c, message, refl, p, q)
      | inr q ↦ absurd (cc (rw (p, q, with_status) at h))
    ]
  ]

  pub refuses_ok :
      {S A : Type 0} (m : Run S A) (s : S) (u : Unit {0}) (t : S)
      → refuses from_error holds text m s ≡ (ok u, t)
      → IsRefusal (m s).0 × ((m s).1 ≡ t)
  refuses_ok m s u t h =
      let (p, q, v) =
        unless_fault_ok tt (with_status from_error holds text (m s).0) (m s).1 u t h in
      (with_status-IsRefusal (m s).0 p, v)
