-- ===== src/Pool/Bindings.antt =====
-- The sticky bindings, `keyToID`: one instance to a key and one key to an instance.
use grpc_api_gateway_session.Prelude.{
  ◌≡◌, refl, String, false, Option, none, some, List, [], ◌∷◌, ◌==◌, eq_iff, lookup, insert,
  HasUniqueKeys, lookup-insert, lookup-delete, insert-HasUniqueKeys, delete-HasUniqueKeys, arith,
  if◌then◌else◌,
}
use grpc_api_gateway_session.Pool.{
  Pool, close_conn, unbind_instance, is_instance_assigned_to_other_key,
}
use grpc_api_gateway_session.Pool.Moves.{
  Move, closes_conn, unbinds, unbinds_instance, fails_dial, dials, binds, advances, relists,
  unregisters, shuts,
}

-- What is left of one binding when an instance is unbound.
abbrev pub unless_to : String → Option String → Option String
unless_to id none = none
unless_to id (some mapped) = if mapped == id then none else some mapped

lookup-unbind_none :
    (id k : String) (m : List (String × String))
    → lookup k m ≡ none
    → lookup k (unbind_instance id m) ≡ none
unfolding lookup unbind_instance
lookup-unbind_none id k [] h = refl
lookup-unbind_none id k ((j, v) ∷ m) h = ground (arith, lookup-unbind_none id k m)

pub lookup-unbind_instance :
    (id k : String) (m : List (String × String))
    → HasUniqueKeys m
    → lookup k (unbind_instance id m) ≡ unless_to id (lookup k m)
unfolding lookup unbind_instance
lookup-unbind_instance id k [] u = refl
lookup-unbind_instance id k ((j, v) ∷ m) (fresh, u) =
    ground
      (arith, eq_iff j k, eq_iff v id, lookup-unbind_instance id k m u, lookup-unbind_none id j m)

pub unbind_instance-HasUniqueKeys :
    (id : String) (m : List (String × String))
    → HasUniqueKeys m
    → HasUniqueKeys (unbind_instance id m)
unfolding unbind_instance
unbind_instance-HasUniqueKeys id [] u = tt
unbind_instance-HasUniqueKeys id ((j, v) ∷ m) (fresh, u) =
    ground (arith, lookup-unbind_none id j m, unbind_instance-HasUniqueKeys id m u)

-- The test that guards a binding: no other key is bound to the instance.
pub assigned_to_no_other :
    (id key k : String) (m : List (String × String))
    → is_instance_assigned_to_other_key id key m ≡ false
    → lookup k m ≡ some id
    → k ≡ key
unfolding is_instance_assigned_to_other_key lookup
assigned_to_no_other id key k [] h e = cc
assigned_to_no_other id key k ((j, v) ∷ m) h e =
    ground (arith, eq_iff j k, eq_iff j key, eq_iff v id, assigned_to_no_other id key k m)

pub record HasExclusiveKeys (p : Pool) : Type 0 where
  pub unique : HasUniqueKeys p.key_to_id
  pub exclusive :
      (k j id : String) → lookup k p.key_to_id ≡ some id → lookup j p.key_to_id ≡ some id → k ≡ j

-- Fewer bindings are as exclusive.
sub_exclusive :
    (p q : Pool)
    → HasExclusiveKeys p
    → HasUniqueKeys q.key_to_id
    → ((k id : String) → lookup k q.key_to_id ≡ some id → lookup k p.key_to_id ≡ some id)
    → HasExclusiveKeys q
sub_exclusive p q v u sub = record {
  unique = u;
  exclusive = λ k j id a b. v.exclusive k j id (sub k id a) (sub j id b);
}

bind_exclusive :
    (p : Pool) (key id : String)
    → is_instance_assigned_to_other_key id key p.key_to_id ≡ false
    → HasExclusiveKeys p
    → HasExclusiveKeys (record p { key_to_id = insert key id p.key_to_id })
bind_exclusive p key id free v = record {
  unique = insert-HasUniqueKeys key id p.key_to_id v.unique;
  exclusive = λ k j i a b. ground (
    arith,
    lookup-insert key k id p.key_to_id,
    lookup-insert key j id p.key_to_id,
    eq_iff key k,
    eq_iff key j,
    v.exclusive k j i,
    assigned_to_no_other id key k p.key_to_id free,
    assigned_to_no_other id key j p.key_to_id free,
  );
}

pub Move-HasExclusiveKeys : (p q : Pool) → Move p q → HasExclusiveKeys p → HasExclusiveKeys q
unfolding close_conn lookup
Move-HasExclusiveKeys p _ (closes_conn id c h) v = record {
  unique = v.unique;
  exclusive = v.exclusive;
}
Move-HasExclusiveKeys p _ (unbinds key) v =
    sub_exclusive p _ v (delete-HasUniqueKeys key p.key_to_id v.unique)
      λ k id e. ground (arith, lookup-delete key k p.key_to_id)
Move-HasExclusiveKeys p _ (unbinds_instance id) v =
    sub_exclusive p _ v (unbind_instance-HasUniqueKeys id p.key_to_id v.unique)
      λ k i e. ground (arith, lookup-unbind_instance id k p.key_to_id v.unique)
Move-HasExclusiveKeys p _ fails_dial v = record { unique = v.unique; exclusive = v.exclusive }
Move-HasExclusiveKeys p _ (dials id o m) v = record { unique = v.unique; exclusive = v.exclusive }
Move-HasExclusiveKeys p _ (binds key id o free) v = bind_exclusive p key id free v
Move-HasExclusiveKeys p _ (advances i h) v = record { unique = v.unique; exclusive = v.exclusive }
Move-HasExclusiveKeys p _ (relists xs) v = record { unique = v.unique; exclusive = v.exclusive }
Move-HasExclusiveKeys p _ (unregisters id) v = record { unique = v.unique; exclusive = v.exclusive }
Move-HasExclusiveKeys p _ shuts v = record { unique = tt; exclusive = λ k j id a b. cc }
