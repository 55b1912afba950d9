-- ===== src/Pool/Calls.antt =====
-- Each call of the pool, as a sequence of moves.
use grpc_api_gateway_session.Prelude.{
  ℕ, suc, ◌+◌, ◌<◌, ◌≡◌, refl, ◌⊎◌, inl, inr, String, Bool, true, false, Option, none, some, List,
  [], ◌∷◌, ◌==◌, nat_eq, if◌then◌else◌, length, lookup, HasUniqueKeys, arith, get_elem?, Bool-cases,
  Option-cases, ◌%◌,
}
use native.Mathlib.Nat.{mod-lt}
use grpc_api_gateway_session.Domain.{ServiceInstance}
use grpc_api_gateway_session.Pool.{
  Conn, Pool, is_instance_assigned_to_other_key, seen, remove_instance, cut_instance, close_cached,
  unbind_key, on_backend_failure, close, get_or_create_conn_locked, round_robin_loop,
  get_connection_round_robin, for_key_loop, choose_for_key, bound_id, get_connection_for_key, Op,
  round_robin, closes, for_key, failure, refreshes, step,
}
use grpc_api_gateway_session.Pool.Moves.{
  Moves, Moves-trans, add_conn, closes_conn, unbinds, fails_dial, dials, binds, advances, relists,
  unregisters, shuts, none_yet, and_then,
}
use grpc_api_gateway_session.Pool.Sweep.{refresh-Moves}

unbind_key-Moves : (key : String) (p : Pool) → Moves p (unbind_key key p)
unfolding unbind_key
unbind_key-Moves key p = elim (Bool-cases (key == "")) [
  | inl e ↦ rw (e, unbind_key) none_yet
  | inr e ↦ rw (e, unbind_key) (and_then none_yet (unbinds key))
]

close_cached-Moves : (id : String) (p : Pool) → Moves p (close_cached id p)
unfolding close_cached
close_cached-Moves id p = elim (Option-cases (lookup id p.instance_conn)) [
  | inl e ↦ rw (e, close_cached) none_yet
  | inr (c, e) ↦ rw (e, close_cached) (and_then none_yet (closes_conn id c e))
]

cut_instance-Moves : (id : String) (p : Pool) → Moves p (cut_instance id p)
unfolding cut_instance
cut_instance-Moves id p = elim (Bool-cases (seen p.instances id)) [
  | inl e ↦ rw (e, cut_instance) (and_then none_yet (relists (remove_instance id p.instances)))
  | inr e ↦ rw (e, cut_instance) none_yet
]

on_backend_failure-Moves : (key id : String) (p : Pool) → Moves p (on_backend_failure key id p)
unfolding on_backend_failure
on_backend_failure-Moves key id p =
    and_then
      (Moves-trans (unbind_key-Moves key p)
        (Moves-trans (close_cached-Moves id _) (cut_instance-Moves id _)))
      (unregisters id)

close-Moves : (p : Pool) → Moves p (close p)
unfolding close
close-Moves p = elim (Bool-cases p.closed) [
  | inl e ↦ rw (e, close) none_yet
  | inr e ↦ rw (e, close) (and_then none_yet shuts)
]

if-Moves :
    {A : Type 0} {p : Pool} (b : Bool) (x y : A × Pool)
    → (b ≡ true → Moves p x.1)
    → (b ≡ false → Moves p y.1)
    → Moves p (if b then x else y).1
if-Moves true x y h k = h refl
if-Moves false x y h k = k refl

module _ (dial : ℕ → ServiceInstance → Bool) where
  -- The three ways in which `getOrCreateConnLocked` ends.
  abbrev pub Tried : ServiceInstance → Pool → Option Conn × Pool → Type 0
  Tried inst p r =
      ((c : Conn) × (lookup inst.instance_id p.instance_conn ≡ some c) × (r ≡ (some c, p)))
      ⊎ ((lookup inst.instance_id p.instance_conn ≡ none)
          × (dial p.dialled inst ≡ true)
          × (r ≡ (some p.opened, add_conn inst.instance_id p)))
      ⊎ ((lookup inst.instance_id p.instance_conn ≡ none)
          × (dial p.dialled inst ≡ false)
          × (r ≡ (none, record p { dialled = suc p.dialled })))

  pub get_or_create-Tried :
      (inst : ServiceInstance) (p : Pool) → Tried inst p (get_or_create_conn_locked dial inst p)
  unfolding get_or_create_conn_locked
  get_or_create-Tried inst p = elim (Option-cases (lookup inst.instance_id p.instance_conn)) [
    | inr (c, e) ↦ inl (c, e, rw (e, get_or_create_conn_locked))
    | inl e ↦ elim (Bool-cases (dial p.dialled inst)) [
      | inl d ↦ inr (inl (e, d, rw (e, d, get_or_create_conn_locked)))
      | inr d ↦ inr (inr (e, d, rw (e, d, get_or_create_conn_locked)))
    ]
  ]

  round_robin_loop-Moves :
      (left i : ℕ) (p : Pool)
      → p.closed ≡ false
      → 0 < length p.instances
      → Moves p (round_robin_loop dial left i p).1
  unfolding round_robin_loop
  round_robin_loop-Moves ℕ.zero i p o n = none_yet
  round_robin_loop-Moves (suc left) i p o n =
      elim (Option-cases (get_elem? p.instances ((p.rr + i) % length p.instances))) [
        | inl e ↦ rw (e, round_robin_loop) none_yet
        | inr (inst, e) ↦ elim (get_or_create-Tried inst p) [
          | inl (c, found, r) ↦
              rw (e, r, round_robin_loop) (and_then none_yet (advances _ (mod-lt _ n)))
          | inr (inl (m, d, r)) ↦
              rw (e, r, round_robin_loop)
                (and_then (and_then none_yet (dials inst.instance_id o m))
                  (advances _ (mod-lt _ n)))
          | inr (inr (m, d, r)) ↦
              rw (e, r, round_robin_loop)
                (Moves-trans (and_then none_yet fails_dial)
                  (round_robin_loop-Moves left (suc i) _ o n))
        ]
      ]

  for_key_loop-Moves :
      (key : String) (insts : List ServiceInstance) (p : Pool)
      → p.closed ≡ false
      → Moves p (for_key_loop dial key insts p).1
  unfolding for_key_loop
  for_key_loop-Moves key [] p o = none_yet
  for_key_loop-Moves key (inst ∷ rest) p o =
      elim (Bool-cases (is_instance_assigned_to_other_key inst.instance_id key p.key_to_id)) [
        | inl taken ↦ rw (taken, for_key_loop) (for_key_loop-Moves key rest p o)
        | inr free ↦ elim (get_or_create-Tried inst p) [
          | inl (c, found, r) ↦
              rw (free, r, for_key_loop) (and_then none_yet (binds key inst.instance_id o free))
          | inr (inl (m, d, r)) ↦
              rw (free, r, for_key_loop)
                (and_then (and_then none_yet (dials inst.instance_id o m))
                  (binds key inst.instance_id o free))
          | inr (inr (m, d, r)) ↦
              rw (free, r, for_key_loop)
                (Moves-trans (and_then none_yet fails_dial) (for_key_loop-Moves key rest _ o))
        ]
      ]

  round_robin-Moves : (p : Pool) → Moves p (get_connection_round_robin dial p).1
  unfolding get_connection_round_robin
  round_robin-Moves p =
      if-Moves p.closed _ _ (λ _. none_yet)
        λ o.
          if-Moves (nat_eq (length p.instances) 0) _ _ (λ _. none_yet)
            λ n. round_robin_loop-Moves (length p.instances) 0 p o (ground arith)

  choose_for_key-Moves :
      (key : String) (p : Pool) → p.closed ≡ false → Moves p (choose_for_key dial key p).1
  unfolding choose_for_key
  choose_for_key-Moves key p o = elim (Bool-cases (bound_id key p == "")) [
    | inl e ↦ rw (e, choose_for_key) (for_key_loop-Moves key p.instances p o)
    | inr e ↦ elim (Option-cases (lookup (bound_id key p) p.instance_conn)) [
      | inr (c, f) ↦ rw (e, f, choose_for_key) none_yet
      | inl f ↦
          rw (e, f, choose_for_key)
            (Moves-trans (and_then none_yet (unbinds key)) (for_key_loop-Moves key p.instances _ o))
    ]
  ]

  for_key-Moves : (key : String) (p : Pool) → Moves p (get_connection_for_key dial key p).1
  unfolding get_connection_for_key
  for_key-Moves key p =
      if-Moves p.closed _ _ (λ _. none_yet)
        λ o. if-Moves (key == "") _ _ (λ _. none_yet) λ _. choose_for_key-Moves key p o

  pub step-Moves : (op : Op) (p : Pool) → HasUniqueKeys p.instance_conn → Moves p (step dial op p)
  unfolding step
  step-Moves round_robin p u = round_robin-Moves p
  step-Moves closes p u = close-Moves p
  step-Moves (for_key key) p u = for_key-Moves key p
  step-Moves (failure key id) p u = on_backend_failure-Moves key id p
  step-Moves (refreshes answer) p u = refresh-Moves answer p u
