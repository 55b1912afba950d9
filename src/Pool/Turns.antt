-- ===== src/Pool/Turns.antt =====
-- The order in which round robin serves the instances.
use native.Mathlib.Nat.{mod-lt, mod-add-mod}
use grpc_api_gateway_session.Prelude.{
  ℕ, zero, suc, ◌+◌, ◌%◌, ◌<◌, ◌≡◌, refl, sym, ap, subst, ◌∙◌, inl, inr, Bool, true, false, some,
  List, [], ◌∷◌, arith, ok, length, get_elem?, lookup, nat_eq, if_rule, Option-cases,
}
use grpc_api_gateway_session.Domain.{ServiceInstance}
use grpc_api_gateway_session.Pool.{
  Pool, Conn, Answer, Op, round_robin, get_or_create_conn_locked, round_robin_loop,
  get_connection_round_robin, step, run,
}

get_elem?-some :
    (xs : List ServiceInstance) (i : ℕ)
    → i < length xs
    → (x : ServiceInstance) × (get_elem? xs i ≡ some x)
get_elem?-some [] i h = absurd (omega arith)
get_elem?-some (x ∷ xs) zero h = (x, refl)
get_elem?-some (x ∷ xs) (suc i) h = get_elem?-some xs i (omega arith)

-- The answer is the instance at this index, and the pool is ready for the next one.
abbrev TurnsTo : Pool → ℕ → Answer × Pool → Type 0
TurnsTo p i r =
    (inst : ServiceInstance) × (c : Conn) × (get_elem? p.instances i ≡ some inst)
    × (r.0 ≡ ok (c, inst.instance_id))
    × (r.1.instances ≡ p.instances)
    × (r.1.closed ≡ p.closed)
    × (r.1.rr ≡ (i + 1) % length p.instances)

abbrev pub calls : ℕ → List Op
calls zero = []
calls (suc k) = round_robin ∷ calls k

abbrev pub Serves : List ServiceInstance → ℕ → Answer × Pool → Type 0
Serves instances i r =
    (inst : ServiceInstance) × (c : Conn) × (get_elem? instances i ≡ some inst)
    × (r.0 ≡ ok (c, inst.instance_id))

turn : (a k n : ℕ) → (((a + 0) % n + 1) % n + k) % n ≡ (a + suc k) % n
turn a k n =
    mod-add-mod ((a + 0) % n + 1) n k
    ∙ ap (λ x. x % n) (omega arith)
    ∙ mod-add-mod (a + 0) n (suc k)
    ∙ ap (λ x. x % n) (omega arith)

module _ (dial : ℕ → ServiceInstance → Bool)
    (up : (n : ℕ) (inst : ServiceInstance) → dial n inst ≡ true) where
  round_robin_loop-TurnsTo :
      (left i : ℕ) (p : Pool)
      → 0 < length p.instances
      → TurnsTo p ((p.rr + i) % length p.instances) (round_robin_loop dial (suc left) i p)
  unfolding round_robin_loop get_or_create_conn_locked
  round_robin_loop-TurnsTo left i p n =
      let (inst, e) = get_elem?-some p.instances ((p.rr + i) % length p.instances) (mod-lt _ n) in
      elim (Option-cases (lookup inst.instance_id p.instance_conn)) [
        | inr (c, h) ↦
            rw (e, h, round_robin_loop, get_or_create_conn_locked)
              (inst, c, refl, refl, refl, refl, refl)
        | inl h ↦
            rw (e, h, up p.dialled inst, round_robin_loop, get_or_create_conn_locked)
              (inst, p.opened, refl, refl, refl, refl, refl)
      ]

  rounds-TurnsTo :
      (rounds i : ℕ) (p : Pool)
      → 0 < rounds
      → 0 < length p.instances
      → TurnsTo p ((p.rr + i) % length p.instances) (round_robin_loop dial rounds i p)
  rounds-TurnsTo zero i p r n = absurd (omega arith)
  rounds-TurnsTo (suc left) i p r n = round_robin_loop-TurnsTo left i p n

  get_connection_round_robin-TurnsTo :
      (p : Pool)
      → p.closed ≡ false
      → 0 < length p.instances
      → TurnsTo p ((p.rr + 0) % length p.instances) (get_connection_round_robin dial p)
  unfolding get_connection_round_robin
  get_connection_round_robin-TurnsTo p opened n =
      if_rule (TurnsTo p ((p.rr + 0) % length p.instances)) p.closed _ _
        (λ shut. absurd (cc (opened, shut)))
        λ _.
          if_rule (TurnsTo p ((p.rr + 0) % length p.instances)) (nat_eq (length p.instances) 0) _ _
            (λ e. absurd (ground arith)) λ _. rounds-TurnsTo (length p.instances) 0 p n n

  -- If every dial succeeds, the call after `k` calls of an open pool with at least one instance is
  -- answered with the instance that stands `k` places, round the list, behind the next one.
  pub round_robin-Serves :
      (k : ℕ) (p : Pool)
      → p.closed ≡ false
      → 0 < length p.instances
      → Serves p.instances
          ((p.rr + k) % length p.instances)
          (get_connection_round_robin dial (run dial (calls k) p))
  unfolding run step
  round_robin-Serves zero p opened n =
      let (inst, c, e, a, same, shut, next) = get_connection_round_robin-TurnsTo p opened n in
      (inst, c, e, a)
  round_robin-Serves (suc k) p opened n =
      let q = (get_connection_round_robin dial p).1 in
      let (inst, c, e, a, same, shut, next) = get_connection_round_robin-TurnsTo p opened n in
      let size = length p.instances in
      let answer = get_connection_round_robin dial (run dial (calls k) q) in
      let later =
        round_robin-Serves k q (shut ∙ opened) (subst (λ xs. 0 < length xs) (sym same) n) in
      subst (λ i. Serves p.instances i answer) (ap (λ r. (r + k) % size) next ∙ turn p.rr k size)
        (subst (λ xs. Serves xs ((q.rr + k) % length xs) answer) same later)
