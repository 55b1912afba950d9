-- ===== src/Pool/Accounting.antt =====
-- The connections: each one that the factory made is cached exactly once or closed exactly once.

use grpc_api_gateway_session.Prelude.{
  ℕ, ◌+◌, ◌≡◌, refl, String, Bool, ◌++◌, none, some, List, [], ◌∷◌, eq_iff, lookup, insert, delete,
  HasUniqueKeys, ltb, nat_eq, insert-HasUniqueKeys, delete-HasUniqueKeys, arith, if◌then◌else◌,
}
use grpc_api_gateway_session.Pool.{Conn, Pool, close_conn, conns_of}
use grpc_api_gateway_session.Pool.Moves.{
  Move, closes_conn, unbinds, unbinds_instance, fails_dial, dials, binds, advances, relists,
  unregisters, shuts,
}

abbrev pub one_if : Bool → ℕ
one_if b = if b then 1 else 0

abbrev pub count : Conn → List Conn → ℕ
count c [] = 0
count c (d ∷ ds) = one_if (nat_eq c d) + count c ds

count-append : (c : Conn) (xs ys : List Conn) → count c (xs ++ ys) ≡ count c xs + count c ys
count-append c [] ys = omega arith
count-append c (x ∷ xs) ys = omega (arith, count-append c xs ys)

delete_missing : (id : String) (m : List (String × Conn)) → lookup id m ≡ none → delete id m ≡ m
unfolding lookup delete
delete_missing id [] h = refl
delete_missing id ((j, d) ∷ m) h = ground (arith, eq_iff j id, delete_missing id m)

-- Deleting an entry takes its connection out once.
count-delete :
    (x : Conn) (id : String) (c : Conn) (m : List (String × Conn))
    → HasUniqueKeys m
    → lookup id m ≡ some c
    → count x (conns_of m) ≡ one_if (nat_eq x c) + count x (conns_of (delete id m))
unfolding lookup delete conns_of
count-delete x id c [] u h = cc
count-delete x id c ((j, d) ∷ m) (fresh, u) h =
    ground (arith, eq_iff j id, delete_missing id m, count-delete x id c m u)

count-insert :
    (x : Conn) (id : String) (c : Conn) (m : List (String × Conn))
    → lookup id m ≡ none
    → count x (conns_of (insert id c m)) ≡ one_if (nat_eq x c) + count x (conns_of m)
unfolding lookup insert conns_of
count-insert x id c [] h = refl
count-insert x id c ((j, d) ∷ m) h = ground (arith, eq_iff j id, count-insert x id c m)

pub record AccountsForConns (p : Pool) : Type 0 where
  pub unique : HasUniqueKeys p.instance_conn
  pub accounted :
      (c : Conn)
      → count c (conns_of p.instance_conn) + count c p.closed_conns ≡ one_if (ltb c p.opened)

pub Move-AccountsForConns : (p q : Pool) → Move p q → AccountsForConns p → AccountsForConns q
unfolding close_conn conns_of
Move-AccountsForConns p _ (closes_conn id c h) v = record {
  unique = delete-HasUniqueKeys id p.instance_conn v.unique;
  accounted = λ x. omega (arith, v.accounted x, count-delete x id c p.instance_conn v.unique h);
}
Move-AccountsForConns p _ (unbinds key) v = record { unique = v.unique; accounted = v.accounted }
Move-AccountsForConns p _ (unbinds_instance id) v = record {
  unique = v.unique;
  accounted = v.accounted;
}
Move-AccountsForConns p _ fails_dial v = record { unique = v.unique; accounted = v.accounted }
Move-AccountsForConns p _ (dials id o m) v = record {
  unique = insert-HasUniqueKeys id p.opened p.instance_conn v.unique;
  accounted = λ x. ground (arith, v.accounted x, count-insert x id p.opened p.instance_conn m);
}
Move-AccountsForConns p _ (binds key id o free) v = record {
  unique = v.unique;
  accounted = v.accounted;
}
Move-AccountsForConns p _ (advances i h) v = record { unique = v.unique; accounted = v.accounted }
Move-AccountsForConns p _ (relists xs) v = record { unique = v.unique; accounted = v.accounted }
Move-AccountsForConns p _ (unregisters id) v = record { unique = v.unique; accounted = v.accounted }
Move-AccountsForConns p _ shuts v = record {
  unique = tt;
  accounted =
      λ x. omega (arith, v.accounted x, count-append x (conns_of p.instance_conn) p.closed_conns);
}
