-- ===== src/Pool/Affinity/Sessions.antt =====
-- Session affinity over a history of calls.
use grpc_api_gateway_session.Prelude.{
  if_rule, ℕ, ◌≡◌, subst, ◌≢◌, inl, inr, String, Bool, false, none, some, List, [], ◌∷◌, ◌==◌,
  eq_refl, lookup, lookup-insert, arith, ok, err, All, HasUniqueKeys, Bool-cases, Option-cases,
}
use grpc_api_gateway_session.Domain.{ServiceInstance}
use grpc_api_gateway_session.Pool.{
  Conn, Pool, Answer, Op, round_robin, closes, for_key, failure, refreshes, refresh, for_key_loop,
  choose_for_key, bound_id, get_connection_for_key, step, run, is_instance_assigned_to_other_key,
}
use grpc_api_gateway_session.Pool.Calls.{get_or_create-Tried}
use grpc_api_gateway_session.Pool.Invariant.{IsValid, step-IsValid, for_key-IsValid}
use grpc_api_gateway_session.Pool.Affinity.{
  IsBound, IsBenign, on_backend_failure-IsBound, refresh-IsBound,
}
use grpc_api_gateway_session.Pool.Affinity.Requests.{
  round_robin-IsBound, for_key-IsBound, get_bound,
}

module _ (dial : ℕ → ServiceInstance → Bool) where
  step-IsBound :
      (key id : String) (c : Conn) (op : Op) (p : Pool)
      → id ≢ ""
      → HasUniqueKeys p.key_to_id
      → IsBenign key id op
      → IsBound key id c p
      → IsBound key id c (step dial op p)
  unfolding step refresh
  step-IsBound key id c round_robin p ne u h b = round_robin-IsBound dial key id c p b
  step-IsBound key id c closes p ne u h b = absurd h
  step-IsBound key id c (for_key k) p ne u h b = for_key-IsBound dial key id k c p ne b
  step-IsBound key id c (failure k i) p ne u h b =
      on_backend_failure-IsBound key id k i c p h.0 h.1 b
  step-IsBound key id c (refreshes none) p ne u h b = b
  step-IsBound key id c (refreshes (some xs)) p ne u h b = refresh-IsBound key id c xs p h u b

  run-IsBound :
      (key id : String) (c : Conn) (ops : List Op) (p : Pool)
      → id ≢ ""
      → IsValid p
      → All (IsBenign key id) ops
      → IsBound key id c p
      → IsBound key id c (run dial ops p)
  unfolding run
  run-IsBound key id c [] p ne v h b = b
  run-IsBound key id c (op ∷ ops) p ne v (h, hs) b =
      run-IsBound key id c ops (step dial op p) ne (step-IsValid dial op p v) hs
        (step-IsBound key id c op p ne v.bindings.unique h b)

  -- A success of `GetConnectionForKey` leaves the key bound to what it returned.
  abbrev Binds : String → Answer × Pool → Type 0
  Binds key (ok (c, id), q) = IsBound key id c q
  Binds key (err e, q) = Unit

  for_key_loop-Binds :
      (key : String) (insts : List ServiceInstance) (p : Pool)
      → p.closed ≡ false
      → Binds key (for_key_loop dial key insts p)
  unfolding for_key_loop
  for_key_loop-Binds key [] p o = tt
  for_key_loop-Binds key (inst ∷ rest) p o =
      elim (Bool-cases (is_instance_assigned_to_other_key inst.instance_id key p.key_to_id)) [
        | inl e ↦ rw (e, for_key_loop) (for_key_loop-Binds key rest p o)
        | inr e ↦ elim (get_or_create-Tried dial inst p) [
          | inl (c, found, r) ↦
              rw (e, r, for_key_loop)
                (record {
                  binding =
                      ground
                        (arith, lookup-insert key key inst.instance_id p.key_to_id, eq_refl key);
                  cached = found;
                  is_open = o;
                })
          | inr (inl (m, d, r)) ↦
              rw (e, r, for_key_loop)
                (record {
                  binding =
                      ground
                        (arith, lookup-insert key key inst.instance_id p.key_to_id, eq_refl key);
                  cached = ground (
                    arith,
                    lookup-insert inst.instance_id inst.instance_id p.opened p.instance_conn,
                    eq_refl inst.instance_id,
                  );
                  is_open = o;
                })
          | inr (inr (m, d, r)) ↦ rw (e, r, for_key_loop) (for_key_loop-Binds key rest _ o)
        ]
      ]

  lookup-bound_id :
      (key : String) (p : Pool)
      → (bound_id key p == "") ≡ false
      → lookup key p.key_to_id ≡ some (bound_id key p)
  unfolding bound_id
  lookup-bound_id key p h = elim (Option-cases (lookup key p.key_to_id)) [
    | inl e ↦ absurd (missing e)
    | inr (id, e) ↦ rw (e, bound_id)
  ]
    where
      missing : lookup key p.key_to_id ≡ none → ⊥
      missing e = cc (rw (e, bound_id) at h)

  choose_for_key-Binds :
      (key : String) (p : Pool) → p.closed ≡ false → Binds key (choose_for_key dial key p)
  unfolding choose_for_key
  choose_for_key-Binds key p o = elim (Bool-cases (bound_id key p == "")) [
    | inl e ↦ rw (e, choose_for_key) (for_key_loop-Binds key p.instances p o)
    | inr e ↦ elim (Option-cases (lookup (bound_id key p) p.instance_conn)) [
      | inr (c, f) ↦
          rw (e, f, choose_for_key)
            (record { binding = lookup-bound_id key p e; cached = f; is_open = o })
      | inl f ↦ rw (e, f, choose_for_key) (for_key_loop-Binds key p.instances _ o)
    ]
  ]

  get_connection_for_key-Binds :
      (key : String) (p : Pool) → Binds key (get_connection_for_key dial key p)
  unfolding get_connection_for_key
  get_connection_for_key-Binds key p =
      if_rule (Binds key) p.closed _ _ (λ _. tt)
        λ o. if_rule (Binds key) (key == "") _ _ (λ _. tt) λ _. choose_for_key-Binds key p o

  -- Session affinity. If the key was given connection `c` to an instance with a non-empty ID, then
  -- after any calls that are benign for the key and the instance it is given `c` and the same
  -- instance again, and that call changes nothing. Benign is every call but closing the pool, a
  -- failure reported for the key or for the instance, and a refresh that lacks the instance.
  pub affinity :
      (key id : String) (c : Conn) (p q : Pool) (ops : List Op)
      → IsValid p
      → key ≢ ""
      → id ≢ ""
      → get_connection_for_key dial key p ≡ (ok (c, id), q)
      → All (IsBenign key id) ops
      → get_connection_for_key dial key (run dial ops q) ≡ (ok (c, id), run dial ops q)
  affinity key id c p q ops v nk ne got hs = get_bound dial key id c (run dial ops q) nk ne (
      run-IsBound key id c ops q ne (subst (λ r. IsValid r.1) got (for_key-IsValid dial key p v)) hs
        (subst (Binds key) got (get_connection_for_key-Binds key p)))
