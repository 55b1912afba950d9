-- ===== src/Pool/Affinity/Requests.antt =====
-- A request for a connection leaves the binding of every session in place.
use grpc_api_gateway_session.Prelude.{
  if_rule, ℕ, suc, ◌+◌, ◌%◌, ◌≡◌, ◌≢◌, inl, inr, String, Bool, List, [], ◌∷◌, ◌==◌, eq_iff, lookup,
  lookup-insert, arith, length, ok, Bool-cases, Option-cases, text-cases, get_elem?, nat_eq,
}
use grpc_api_gateway_session.Domain.{ServiceInstance}
use grpc_api_gateway_session.Pool.{
  Conn, Pool, get_or_create_conn_locked, round_robin_loop, get_connection_round_robin, for_key_loop,
  choose_for_key, bound_id, get_connection_for_key, is_instance_assigned_to_other_key, advance,
}
use grpc_api_gateway_session.Pool.Calls.{get_or_create-Tried}
use grpc_api_gateway_session.Pool.Affinity.{
  IsBound, Keeps, after_try_rule, ne_test, bind_other, unbind_other,
}

module _ (dial : ℕ → ServiceInstance → Bool) where
  pub get_or_create-IsBound :
      (key id : String) (c : Conn) (inst : ServiceInstance) (p : Pool)
      → IsBound key id c p
      → IsBound key id c (get_or_create_conn_locked dial inst p).1
  get_or_create-IsBound key id c inst p b = elim (get_or_create-Tried dial inst p) [
    | inl (d, found, r) ↦ rw r b
    | inr (inl (m, d, r)) ↦ rw r (record {
      binding = b.binding;
      cached = ground (
        arith,
        lookup-insert inst.instance_id id p.opened p.instance_conn,
        eq_iff inst.instance_id id,
        b.cached,
      );
      is_open = b.is_open;
    })
    | inr (inr (m, d, r)) ↦
        rw r (record { binding = b.binding; cached = b.cached; is_open = b.is_open })
  ]

  round_robin_loop-IsBound :
      (key id : String) (c : Conn) (left i : ℕ) (p : Pool)
      → IsBound key id c p
      → IsBound key id c (round_robin_loop dial left i p).1
  unfolding round_robin_loop
  round_robin_loop-IsBound key id c ℕ.zero i p b = b
  round_robin_loop-IsBound key id c (suc left) i p b =
      elim (Option-cases (get_elem? p.instances ((p.rr + i) % length p.instances))) [
        | inl e ↦ rw (e, round_robin_loop) b
        | inr (inst, e) ↦
            rw (e, round_robin_loop)
              (after_try_rule (Keeps key id c) (IsBound key id c) _ (advance _ inst) _
                (get_or_create-IsBound key id c inst p b)
                (round_robin_loop-IsBound key id c left (suc i))
                (λ d p' b'. record {
                  binding = b'.binding;
                  cached = b'.cached;
                  is_open = b'.is_open;
                }))
      ]

  pub round_robin-IsBound :
      (key id : String) (c : Conn) (p : Pool)
      → IsBound key id c p
      → IsBound key id c (get_connection_round_robin dial p).1
  unfolding get_connection_round_robin
  round_robin-IsBound key id c p b =
      if_rule (Keeps key id c) p.closed _ _ (λ _. b)
        λ _.
          if_rule (Keeps key id c) (nat_eq (length p.instances) 0) _ _ (λ _. b)
            λ _. round_robin_loop-IsBound key id c (length p.instances) 0 p b

  for_key_loop-IsBound :
      (key id k : String) (c : Conn) (insts : List ServiceInstance) (p : Pool)
      → k ≢ key
      → IsBound key id c p
      → IsBound key id c (for_key_loop dial k insts p).1
  unfolding for_key_loop
  for_key_loop-IsBound key id k c [] p ne b = b
  for_key_loop-IsBound key id k c (inst ∷ rest) p ne b =
      elim (Bool-cases (is_instance_assigned_to_other_key inst.instance_id k p.key_to_id)) [
        | inl e ↦ rw (e, for_key_loop) (for_key_loop-IsBound key id k c rest p ne b)
        | inr e ↦
            rw (e, for_key_loop)
              (after_try_rule (Keeps key id c) (IsBound key id c) _ _ _
                (get_or_create-IsBound key id c inst p b)
                (λ p'. for_key_loop-IsBound key id k c rest p' ne)
                (λ d p' b'. bind_other key id k inst.instance_id c p' ne b'))
      ]

  pub choose_for_key-IsBound :
      (key id k : String) (c : Conn) (p : Pool)
      → k ≢ key
      → IsBound key id c p
      → IsBound key id c (choose_for_key dial k p).1
  unfolding choose_for_key
  choose_for_key-IsBound key id k c p ne b = elim (Bool-cases (bound_id k p == "")) [
    | inl e ↦ rw (e, choose_for_key) (for_key_loop-IsBound key id k c p.instances p ne b)
    | inr e ↦ elim (Option-cases (lookup (bound_id k p) p.instance_conn)) [
      | inr (d, f) ↦ rw (e, f, choose_for_key) b
      | inl f ↦
          rw (e, f, choose_for_key)
            (for_key_loop-IsBound key id k c p.instances _ ne (unbind_other key id k c p ne b))
    ]
  ]

  -- A bound key is answered from the cache, and nothing changes.
  choose_bound :
      (key id : String) (c : Conn) (p : Pool)
      → id ≢ ""
      → IsBound key id c p
      → choose_for_key dial key p ≡ (ok (c, id), p)
  unfolding choose_for_key bound_id
  choose_bound key id c p ne b = ground (arith, b.binding, b.cached, ne_test id ne)

  choose_same :
      (key id k : String) (c : Conn) (p : Pool)
      → k ≡ key
      → id ≢ ""
      → IsBound key id c p
      → IsBound key id c (choose_for_key dial k p).1
  choose_same key id k c p e ne b = rw (e, choose_bound key id c p ne b) b

  pub get_bound :
      (key id : String) (c : Conn) (p : Pool)
      → key ≢ ""
      → id ≢ ""
      → IsBound key id c p
      → get_connection_for_key dial key p ≡ (ok (c, id), p)
  unfolding get_connection_for_key
  get_bound key id c p nk ne b =
      ground (arith, b.is_open, ne_test key nk, choose_bound key id c p ne b)

  pub for_key-IsBound :
      (key id k : String) (c : Conn) (p : Pool)
      → id ≢ ""
      → IsBound key id c p
      → IsBound key id c (get_connection_for_key dial k p).1
  unfolding get_connection_for_key
  for_key-IsBound key id k c p ne b =
      if_rule (Keeps key id c) p.closed _ _ (λ _. b)
        λ _.
          if_rule (Keeps key id c) (k == "") _ _ (λ _. b)
            λ _. elim (text-cases k key) [
              | inl (_, e) ↦ choose_same key id k c p e ne b
              | inr (_, e) ↦ choose_for_key-IsBound key id k c p e b
            ]
