-- ===== src/Pool/Invariant.antt =====
-- The invariant of the pool: it holds of the pool that `NewConnectionPool` returns, and every call
-- keeps it, so it holds after every interleaving of callers, refreshes and failures.
use grpc_api_gateway_session.Prelude.{
  ℕ, ◌+◌, ◌<◌, ◌≡◌, refl, ap, delete, ◌⊎◌, inl, inr, String, Bool, true, Option, some, List, [],
  ◌∷◌, lookup, ltb, length, arith,
}
use grpc_api_gateway_session.Domain.{ServiceInstance}
use grpc_api_gateway_session.Pool.{
  Conn, Pool, Op, conns_of, close_conn, unbind_instance, empty_pool, new_connection_pool,
  get_connection_for_key, for_key, step, run,
}
use grpc_api_gateway_session.Pool.Moves.{
  Move, Moves-keep, closes_conn, unbinds, unbinds_instance, fails_dial, dials, binds, advances,
  relists, unregisters, shuts,
}
use grpc_api_gateway_session.Pool.Sweep.{refresh-Moves}
use grpc_api_gateway_session.Pool.Calls.{step-Moves}
use grpc_api_gateway_session.Pool.Bindings.{HasExclusiveKeys, Move-HasExclusiveKeys}
use grpc_api_gateway_session.Pool.Accounting.{
  AccountsForConns, Move-AccountsForConns, count, one_if,
}

pub record HasShape (p : Pool) : Type 0 where
  -- The next index of the round-robin order is an index of the list.
  pub rr_in_range : (p.rr ≡ 0) ⊎ (p.rr < length p.instances)
  -- A closed pool holds no connection and no binding.
  pub closed_is_empty : p.closed ≡ true → (p.instance_conn ≡ []) × (p.key_to_id ≡ [])

Move-HasShape : (p q : Pool) → Move p q → HasShape p → HasShape q
unfolding close_conn delete unbind_instance
Move-HasShape p _ (closes_conn id c h) v = record {
  rr_in_range = v.rr_in_range;
  closed_is_empty = λ e. (ap (delete id) (v.closed_is_empty e).0, (v.closed_is_empty e).1);
}
Move-HasShape p _ (unbinds key) v = record {
  rr_in_range = v.rr_in_range;
  closed_is_empty = λ e. ((v.closed_is_empty e).0, ap (delete key) (v.closed_is_empty e).1);
}
Move-HasShape p _ (unbinds_instance id) v = record {
  rr_in_range = v.rr_in_range;
  closed_is_empty = λ e. ((v.closed_is_empty e).0, ap (unbind_instance id) (v.closed_is_empty e).1);
}
Move-HasShape p _ fails_dial v = record {
  rr_in_range = v.rr_in_range;
  closed_is_empty = v.closed_is_empty;
}
Move-HasShape p _ (dials id o m) v = record {
  rr_in_range = v.rr_in_range;
  closed_is_empty = λ e. absurd (cc);
}
Move-HasShape p _ (binds key id o free) v = record {
  rr_in_range = v.rr_in_range;
  closed_is_empty = λ e. absurd (cc);
}
Move-HasShape p _ (advances i h) v = record {
  rr_in_range = inr h;
  closed_is_empty = v.closed_is_empty;
}
Move-HasShape p _ (relists xs) v = record {
  rr_in_range = ground arith;
  closed_is_empty = v.closed_is_empty;
}
Move-HasShape p _ (unregisters id) v = record {
  rr_in_range = v.rr_in_range;
  closed_is_empty = v.closed_is_empty;
}
Move-HasShape p _ shuts v = record {
  rr_in_range = v.rr_in_range;
  closed_is_empty = λ _. (refl, refl);
}

pub record IsValid (p : Pool) : Type 0 where
  pub bindings : HasExclusiveKeys p
  pub conns : AccountsForConns p
  pub shape : HasShape p

Move-IsValid : (p q : Pool) → Move p q → IsValid p → IsValid q
Move-IsValid p q m v = record {
  bindings = Move-HasExclusiveKeys p q m v.bindings;
  conns = Move-AccountsForConns p q m v.conns;
  shape = Move-HasShape p q m v.shape;
}

empty_pool-IsValid : IsValid empty_pool
unfolding empty_pool conns_of lookup
empty_pool-IsValid = record {
  bindings = record { unique = tt; exclusive = λ k j id a b. cc };
  conns = record { unique = tt; accounted = λ c. ground arith };
  shape = record { rr_in_range = inl refl; closed_is_empty = λ e. cc };
}

pub new_connection_pool-IsValid :
    (first : Option (List ServiceInstance)) → IsValid (new_connection_pool first)
unfolding new_connection_pool
new_connection_pool-IsValid first =
    Moves-keep IsValid Move-IsValid (refresh-Moves first empty_pool empty_pool-IsValid.conns.unique)
      empty_pool-IsValid

module _ (dial : ℕ → ServiceInstance → Bool) where
  -- Every call keeps the invariant, whatever the dials and the discoverer answer.
  pub step-IsValid : (op : Op) (p : Pool) → IsValid p → IsValid (step dial op p)
  step-IsValid op p v = Moves-keep IsValid Move-IsValid (step-Moves dial op p v.conns.unique) v

  pub for_key-IsValid :
      (key : String) (p : Pool) → IsValid p → IsValid (get_connection_for_key dial key p).1
  unfolding step
  for_key-IsValid key p v = step-IsValid (for_key key) p v

  pub run-IsValid : (ops : List Op) (p : Pool) → IsValid p → IsValid (run dial ops p)
  unfolding run
  run-IsValid [] p v = v
  run-IsValid (op ∷ ops) p v = run-IsValid ops (step dial op p) (step-IsValid op p v)

  -- In every pool that can be reached two sticky keys are never bound to one instance.
  pub run_exclusive :
      (first : Option (List ServiceInstance)) (ops : List Op) (k j id : String)
      → lookup k (run dial ops (new_connection_pool first)).key_to_id ≡ some id
      → lookup j (run dial ops (new_connection_pool first)).key_to_id ≡ some id
      → k ≡ j
  run_exclusive first ops =
      (run-IsValid ops _ (new_connection_pool-IsValid first)).bindings.exclusive

  -- In every pool that can be reached a connection that the factory made is cached once or closed
  -- once and never both, and no other connection is cached or closed: nothing leaks.
  pub run_accounted :
      (first : Option (List ServiceInstance)) (ops : List Op) (c : Conn)
      → (let p = run dial ops (new_connection_pool first) in
          count c (conns_of p.instance_conn) + count c p.closed_conns ≡ one_if (ltb c p.opened))
  run_accounted first ops = (run-IsValid ops _ (new_connection_pool-IsValid first)).conns.accounted

  -- In every pool that can be reached the round-robin index is 0 or inside the list, and a closed
  -- pool caches no connection and binds no key.
  pub run-HasShape :
      (first : Option (List ServiceInstance)) (ops : List Op)
      → HasShape (run dial ops (new_connection_pool first))
  run-HasShape first ops = (run-IsValid ops _ (new_connection_pool-IsValid first)).shape
