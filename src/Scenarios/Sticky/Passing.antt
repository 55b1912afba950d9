-- ===== src/Scenarios/Sticky/Passing.antt =====
-- What the sticky scenario shows.
use grpc_api_gateway_session.Prelude.{
  ℕ, zero, suc, ◌≡◌, refl, sym, ap, ◌∙◌, ◌≢◌, String, not, ◌==◌, eq_iff, ok, arith, ok-injective,
  text-cases, inl, inr, subst,
}
use grpc_api_gateway_session.Headers.{Metadata}
use grpc_api_gateway_session.Scenarios.{ScenarioConfig, Client, signed_in, login}
use grpc_api_gateway_session.Scenarios.Inversion.{
  after_ok, wrapped_ok, check_ok, AnswersFrom, echo_ok, ShutsDown, shutdown_ok,
}
use grpc_api_gateway_session.Scenarios.Sticky.{
  numbered_session_id, first_pod, alternate, part, alternate_and_part, run_sticky_session,
}

first_pod_lem :
    (pod_name pod : String) → (pod_name ≢ "" → pod ≡ pod_name) → first_pod pod_name pod ≡ pod
first_pod_lem pod_name pod same = elim (text-cases pod_name "") [
  | inl (e, p) ↦ rw e refl
  | inr (e, n) ↦ rw e (sym (same n))
]

module _ {S : Type 0} (client1 client2 : Client S) (md1 md2 : Metadata) where
  -- Rounds in which the first client is answered from one pod and then the second from another.
  pub data Alternates (pod1 pod2 : String) : ℕ → S → S → Type 0 where
    none_left : {s : S} → Alternates pod1 pod2 0 s s
    one_more :
        {n : ℕ} {s v : S} (t u : S)
        → AnswersFrom client1 md1 pod1 s t
        → AnswersFrom client2 md2 pod2 t u
        → Alternates pod1 pod2 n u v
        → Alternates pod1 pod2 (suc n) s v

  alternate_ok :
      (left : ℕ) (name1 name2 : String) (q : String × String) (s t : S)
      → alternate client1 client2 md1 md2 left name1 name2 s ≡ (ok q, t)
      → Alternates q.0 q.1 left s t × (name1 ≢ "" → q.0 ≡ name1) × (name2 ≢ "" → q.1 ≡ name2)
  unfolding alternate
  alternate_ok zero name1 name2 q s t h =
      let e : (name1, name2) ≡ q = ok-injective (ap (λ p. p.0) h) in
      (
        subst (λ (w : S). Alternates q.0 q.1 0 s w) (ap (λ p. p.1) h) none_left,
        λ n. sym (ap (λ p. p.0) e),
        λ n. sym (ap (λ p. p.1) e),
      )
  alternate_ok (suc left) name1 name2 q s t h =
      let (pod1, s1, e1, h1) = after_ok _ _ q t h in
      let (pod2, s2, e2, h2) = after_ok _ _ q t h1 in
      let (a1, n1, k1) =
        echo_ok client1 md1 name1 pod1 s s1 (wrapped_ok "myservice_echo (client1)" _ pod1 s1 e1) in
      let (a2, n2, k2) =
        echo_ok client2 md2 name2 pod2 s1 s2 (wrapped_ok "myservice_echo (client2)" _ pod2 s2 e2) in
      let f1 : first_pod name1 pod1 ≡ pod1 = first_pod_lem name1 pod1 k1 in
      let f2 : first_pod name2 pod2 ≡ pod2 = first_pod_lem name2 pod2 k2 in
      let (rest, l1, l2) =
        alternate_ok left (first_pod name1 pod1) (first_pod name2 pod2) q s2 t h2 in
      let g1 : q.0 ≡ pod1 = l1 (λ z. n1 (sym f1 ∙ z)) ∙ f1 in
      let g2 : q.1 ≡ pod2 = l2 (λ z. n2 (sym f2 ∙ z)) ∙ f2 in
      (
        one_more s1 s2 (subst (λ (w : String). AnswersFrom client1 md1 w s s1) (sym g1) a1)
            (subst (λ (w : String). AnswersFrom client2 md2 w s1 s2) (sym g2) a2) rest,
        λ z. g1 ∙ k1 z,
        λ z. g2 ∙ k2 z,
      )

module _ {S : Type 0} (client1 client2 : Client S) where
  -- Ten rounds in which each client keeps to a pod of its own, and then each shuts its pod down.
  pub KeepsApart : (md1 md2 : Metadata) → S → S → Type 0
  KeepsApart md1 md2 s v =
      (pod1 pod2 : String) × (t u : S) × (pod1 ≢ pod2)
      × Alternates client1 client2 md1 md2 pod1 pod2 10 s t
      × ShutsDown client1 md1 pod1 t u
      × ShutsDown client2 md2 pod2 u v

  alternate_and_part-KeepsApart :
      (md1 md2 : Metadata) (x : Unit {0}) (s v : S)
      → alternate_and_part client1 client2 md1 md2 s ≡ (ok x, v)
      → KeepsApart md1 md2 s v
  unfolding alternate_and_part part KeepsApart
  alternate_and_part-KeepsApart md1 md2 x s v h =
      let (q, t, e, h1) =
        after_ok _ (λ (pods : String × String). part client1 client2 md1 md2 pods) x v h in
      let (y1, t1, e1, h2) = after_ok _ _ x v h1 in
      let (y2, t2, e2, h3) = after_ok _ _ x v h2 in
      let (apart, same) =
        check_ok (not (q.0 == q.1)) "both clients are on the same instance" t y1 t1 e1 in
      (
        q.0,
        q.1,
        t,
        t2,
        ground (arith, eq_iff q.0 q.1),
        (alternate_ok client1 client2 md1 md2 10 "" "" q s t e).0,
        subst (λ (w : S). ShutsDown client1 md1 q.0 w t2) (sym same)
            (shutdown_ok client1 md1 q.0 y2 t1 t2
              (wrapped_ok "myservice_shutdown (client1)" _ y2 t2 e2)),
        shutdown_ok client2 md2 q.1 x t2 v (wrapped_ok "myservice_shutdown (client2)" _ x v h3),
      )

  -- What the sticky scenario shows when it passes: after the logins each client got its ten answers
  -- from a pod of its own, though the clients took turns, and the pods are different.
  pub run_sticky_session-KeepsApart :
      (stamp : String) (cfg : ScenarioConfig) (x : Unit {0}) (s v : S)
      → run_sticky_session client1 client2 stamp cfg s ≡ (ok x, v)
      → (token1 token2 : String) × (t u : S) × (login client1 cfg
            (numbered_session_id "-client1-" stamp)
            s
          ≡ (ok token1, t))
        × (login client2 cfg (numbered_session_id "-client2-" stamp) t ≡ (ok token2, u))
        × KeepsApart
            (signed_in token1 (numbered_session_id "-client1-" stamp))
            (signed_in token2 (numbered_session_id "-client2-" stamp))
            u
            v
  unfolding run_sticky_session
  run_sticky_session-KeepsApart stamp cfg x s v h =
      let (token1, t, e1, h1) = after_ok _ _ x v h in
      let (token2, u, e2, h2) = after_ok _ _ x v h1 in
      (
        token1,
        token2,
        t,
        u,
        wrapped_ok "login (client1)" _ token1 t e1,
        wrapped_ok "login (client2)" _ token2 u e2,
        alternate_and_part-KeepsApart _ _ x u v h2,
      )
