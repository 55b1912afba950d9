-- ===== src/Pool/Free.antt =====
-- When a sticky key is served.
use mathlib.Core.List.{Memᴰ}
use grpc_api_gateway_session.Prelude.{
  ℕ, suc, ◌≡◌, refl, if_rule, subst, ◌≢◌, inl, inr, String, Bool, true, false, List, [], ◌∷◌, ◌==◌,
  eq_iff, arith, ok, err, lookup, delete, Option-cases, Bool-cases,
}
use grpc_api_gateway_session.Domain.{ServiceInstance}
use grpc_api_gateway_session.Pool.{
  Pool, Answer, is_instance_assigned_to_other_key, get_or_create_conn_locked, for_key_loop,
  choose_for_key, bound_id, get_connection_for_key,
}

-- The call was answered with a connection.
abbrev pub IsServed : Answer × Pool → Type 0
IsServed (ok a, q) = Unit
IsServed (err e, q) = ⊥

module _ (dial : ℕ → ServiceInstance → Bool) where
  for_key_loop-head :
      (key : String) (inst : ServiceInstance) (rest : List ServiceInstance) (p : Pool)
      → is_instance_assigned_to_other_key inst.instance_id key p.key_to_id ≡ false
      → ((n : ℕ) → dial n inst ≡ true)
      → IsServed (for_key_loop dial key (inst ∷ rest) p)
  unfolding for_key_loop get_or_create_conn_locked
  for_key_loop-head key inst rest p free up =
      elim (Option-cases (lookup inst.instance_id p.instance_conn)) [
        | inl n ↦ rw (free, n, up p.dialled, for_key_loop, get_or_create_conn_locked) tt
        | inr (c, n) ↦ rw (free, n, for_key_loop, get_or_create_conn_locked) tt
      ]

  for_key_loop-IsServed :
      (key : String) (inst : ServiceInstance) (instances : List ServiceInstance) (p : Pool)
      → Memᴰ inst instances
      → is_instance_assigned_to_other_key inst.instance_id key p.key_to_id ≡ false
      → ((n : ℕ) → dial n inst ≡ true)
      → IsServed (for_key_loop dial key instances p)
  unfolding for_key_loop get_or_create_conn_locked
  for_key_loop-IsServed key inst [] p m free up = elim m [ ]
  for_key_loop-IsServed key inst (x ∷ xs) p (Memᴰ.head e) free up =
      subst (λ y. IsServed (for_key_loop dial key (y ∷ xs) p)) e
        (for_key_loop-head key inst xs p free up)
  for_key_loop-IsServed key inst (x ∷ xs) p (Memᴰ.tail m) free up =
      elim (Bool-cases (is_instance_assigned_to_other_key x.instance_id key p.key_to_id)) [
        | inl busy ↦ rw (busy, for_key_loop) (for_key_loop-IsServed key inst xs p m free up)
        | inr idle ↦ elim (Option-cases (lookup x.instance_id p.instance_conn)) [
          | inr (c, n) ↦ rw (idle, n, for_key_loop, get_or_create_conn_locked) tt
          | inl n ↦ elim (Bool-cases (dial p.dialled x)) [
            | inl d ↦ rw (idle, n, d, for_key_loop, get_or_create_conn_locked) tt
            | inr d ↦
                rw (idle, n, d, for_key_loop, get_or_create_conn_locked)
                  (for_key_loop-IsServed key inst xs (record p { dialled = suc p.dialled }) m free
                    up)
          ]
        ]
      ]

  -- Forgetting a key does not bind an instance.
  delete-free :
      (id key : String) (m : List (String × String))
      → is_instance_assigned_to_other_key id key m ≡ false
      → is_instance_assigned_to_other_key id key (delete key m) ≡ false
  unfolding is_instance_assigned_to_other_key delete
  delete-free id key [] h = refl
  delete-free id key ((k, mapped) ∷ m) h = ground (arith, eq_iff k key, delete-free id key m)

  choose_for_key-IsServed :
      (key : String) (inst : ServiceInstance) (p : Pool)
      → Memᴰ inst p.instances
      → is_instance_assigned_to_other_key inst.instance_id key p.key_to_id ≡ false
      → ((n : ℕ) → dial n inst ≡ true)
      → IsServed (choose_for_key dial key p)
  unfolding choose_for_key
  choose_for_key-IsServed key inst p m free up = elim (Bool-cases (bound_id key p == "")) [
    | inl e ↦ rw (e, choose_for_key) (for_key_loop-IsServed key inst p.instances p m free up)
    | inr e ↦ elim (Option-cases (lookup (bound_id key p) p.instance_conn)) [
      | inr (c, n) ↦ rw (e, n, choose_for_key) tt
      | inl n ↦
          rw (e, n, choose_for_key)
            (for_key_loop-IsServed key inst p.instances
              (record p { key_to_id = delete key p.key_to_id }) m
              (delete-free inst.instance_id key p.key_to_id free) up)
    ]
  ]

  -- An open pool does not refuse a non-empty key as long as it lists an instance that no other key
  -- holds and that can be dialled.
  pub get_connection_for_key-IsServed :
      (key : String) (inst : ServiceInstance) (p : Pool)
      → p.closed ≡ false
      → key ≢ ""
      → Memᴰ inst p.instances
      → is_instance_assigned_to_other_key inst.instance_id key p.key_to_id ≡ false
      → ((n : ℕ) → dial n inst ≡ true)
      → IsServed (get_connection_for_key dial key p)
  unfolding get_connection_for_key
  get_connection_for_key-IsServed key inst p opened named m free up =
      if_rule IsServed p.closed _ _ (λ shut. absurd (cc (opened, shut)))
        λ _.
          if_rule IsServed (key == "") _ _ (λ e. absurd (named ((eq_iff key "").0 e)))
            λ _. choose_for_key-IsServed key inst p m free up
