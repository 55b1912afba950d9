-- ===== src/Scenarios/Transfer/Passing.antt =====
-- What the transfer scenario shows when it passes.
use grpc_api_gateway_session.Prelude.{
  ◌≡◌, sym, ◌≢◌, String, not, ◌||◌, Option, ◌==◌, eq_iff, ok, arith, subst,
}
use grpc_api_gateway_session.GrpcError.{Code, Error, unavailable, resource_exhausted}
use grpc_api_gateway_session.Headers.{Metadata}
use grpc_api_gateway_session.Scenarios.{ScenarioConfig, Client, signed_in, login, echo, same_code}
use grpc_api_gateway_session.Scenarios.Inversion.{
  after_ok, wrapped_ok, check_ok, IsRefusal, refuses_ok, ShutsDown, shutdown_ok,
}
use grpc_api_gateway_session.Scenarios.Sticky.{numbered_session_id}
use grpc_api_gateway_session.Scenarios.Transfer.{
  leave_third, leave_second, leave_first, transfer, run_session_transfer,
}
use grpc_api_gateway_session.Scenarios.Transfer.Echoes.{AnswersAtLast, echo_twice_ok}

module _ (from_error : Error → Option (Code × String)) {S : Type 0} (client : Client S)
    (md : Metadata) where
  -- Two calls that the pod answers.
  pub Serves : String → S → S → Type 0
  Serves pod s u =
      (t : S) × AnswersAtLast from_error client md pod s t
      × AnswersAtLast from_error client md pod t u

  -- The pod is shut down, and no other is left.
  pub RunsOut : String → S → Type 0
  RunsOut pod s =
      (t : S) × ShutsDown client md pod s t
      × IsRefusal from_error (λ c m. same_code c unavailable || same_code c resource_exhausted)
          "expected UNAVAILABLE or RESOURCE_EXHAUSTED" (echo client md "" t).0

  -- The pod is shut down, and the next one serves.
  pub MovesTo : (pod next : String) → S → S → Type 0
  MovesTo pod next s u = (next ≢ pod) × (t : S) × ShutsDown client md pod s t × Serves next t u

  leave_third_ok :
      (pod1 pod2 pod3 : String) (x : Unit {0}) (s t : S)
      → leave_third from_error client md pod1 pod2 pod3 s ≡ (ok x, t)
      → (pod3 ≢ pod1) × (pod3 ≢ pod2) × RunsOut pod3 s
  unfolding leave_third RunsOut
  leave_third_ok pod1 pod2 pod3 x s t h =
      let (y, s1, e1, h1) = after_ok _ _ x t h in
      let (z, s2, e2, h2) = after_ok _ _ x t h1 in
      let (apart, same) =
        check_ok (not (pod3 == pod1 || pod3 == pod2)) "session not transferred" s y s1 e1 in
      (
        ground (arith, eq_iff pod3 pod1),
        ground (arith, eq_iff pod3 pod2),
        (
          s2,
          subst (λ (w : S). ShutsDown client md pod3 w s2) (sym same)
              (shutdown_ok client md pod3 z s1 s2 (wrapped_ok "shutdown third instance" _ z s2 e2)),
          (refuses_ok from_error _ _ (echo client md "") s2 x t h2).0,
        ),
      )

  leave_second_ok :
      (pod1 pod2 : String) (x : Unit {0}) (s t : S)
      → leave_second from_error client md pod1 pod2 s ≡ (ok x, t)
      → (pod2 ≢ pod1)
        × (pod3 : String) × (u : S) × MovesTo pod2 pod3 s u
        × (pod3 ≢ pod1)
        × RunsOut pod3 u
  unfolding leave_second MovesTo Serves
  leave_second_ok pod1 pod2 x s t h =
      let (y, s1, e1, h1) = after_ok _ _ x t h in
      let (z, s2, e2, h2) = after_ok _ _ x t h1 in
      let (pod3, s3, e3, h3) = after_ok _ _ x t h2 in
      let (apart, same) = check_ok (not (pod2 == pod1)) "session not transferred" s y s1 e1 in
      let (from1, from2, out) = leave_third_ok pod1 pod2 pod3 x s3 t h3 in
      (
        ground (arith, eq_iff pod2 pod1),
        pod3,
        s3,
        (
          from2,
          s2,
          subst (λ (w : S). ShutsDown client md pod2 w s2) (sym same)
              (shutdown_ok client md pod2 z s1 s2
                (wrapped_ok "shutdown second instance" _ z s2 e2)),
          echo_twice_ok from_error client md pod3 s2 s3
              (wrapped_ok "third instance echo" _ pod3 s3 e3),
        ),
        from1,
        out,
      )

  leave_first_ok :
      (pod1 : String) (x : Unit {0}) (s t : S)
      → leave_first from_error client md pod1 s ≡ (ok x, t)
      → (pod2 pod3 : String) × (u v : S) × MovesTo pod1 pod2 s u
        × MovesTo pod2 pod3 u v
        × (pod3 ≢ pod1)
        × RunsOut pod3 v
  unfolding leave_first MovesTo Serves
  leave_first_ok pod1 x s t h =
      let (z, s1, e1, h1) = after_ok _ _ x t h in
      let (pod2, s2, e2, h2) = after_ok _ _ x t h1 in
      let (from1, pod3, v, moves, apart, out) = leave_second_ok pod1 pod2 x s2 t h2 in
      (
        pod2,
        pod3,
        s2,
        v,
        (
          from1,
          s1,
          shutdown_ok client md pod1 z s s1 (wrapped_ok "shutdown first instance" _ z s1 e1),
          echo_twice_ok from_error client md pod2 s1 s2
              (wrapped_ok "second instance echo" _ pod2 s2 e2),
        ),
        moves,
        apart,
        out,
      )

  -- Three pods in turn serve the session, each till it is shut down; then nothing serves it.
  pub IsTransferred : S → Type 0
  IsTransferred s =
      (pod1 pod2 pod3 : String) × (t u v : S) × Serves pod1 s t
      × MovesTo pod1 pod2 t u
      × MovesTo pod2 pod3 u v
      × (pod3 ≢ pod1)
      × RunsOut pod3 v

  transfer_ok :
      (x : Unit {0}) (s t : S) → transfer from_error client md s ≡ (ok x, t) → IsTransferred s
  unfolding transfer IsTransferred Serves
  transfer_ok x s t h =
      let (pod1, s1, e1, h1) =
        after_ok _ (λ (pod : String). leave_first from_error client md pod) x t h in
      let (pod2, pod3, u, v, first, second, apart, out) = leave_first_ok pod1 x s1 t h1 in
      (
        pod1,
        pod2,
        pod3,
        s1,
        u,
        v,
        echo_twice_ok from_error client md pod1 s s1
            (wrapped_ok "first instance echo" _ pod1 s1 e1),
        first,
        second,
        apart,
        out,
      )

module _ (from_error : Error → Option (Code × String)) {S : Type 0} (client : Client S) where
  -- What the transfer scenario shows when it passes: after the login three different pods serve the
  -- session, each of them twice and till it is shut down, and then the session is refused as
  -- unavailable or for want of a free instance.
  pub run_session_transfer-IsTransferred :
      (stamp : String) (cfg : ScenarioConfig) (x : Unit {0}) (s t : S)
      → run_session_transfer from_error client stamp cfg s ≡ (ok x, t)
      → (token : String) × (u : S) × (login client cfg (numbered_session_id "-transfer-" stamp) s
          ≡ (ok token, u))
        × IsTransferred from_error client
            (signed_in token (numbered_session_id "-transfer-" stamp))
            u
  unfolding run_session_transfer
  run_session_transfer-IsTransferred stamp cfg x s t h =
      let (token, u, e, g) =
        after_ok _
          (λ (token : String).
            transfer from_error client (signed_in token (numbered_session_id "-transfer-" stamp)))
          x t h in
      (token, u, wrapped_ok "login" _ token u e, transfer_ok from_error client _ x u t g)
