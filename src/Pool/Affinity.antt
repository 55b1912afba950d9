-- ===== src/Pool/Affinity.antt =====
-- Session affinity: a key that was given a connection is given the same one again, whatever other
-- keys, refreshes and failures do in between, until its own instance fails or disappears.
pub mod Requests
pub mod Sessions
use grpc_api_gateway_session.Prelude.{
  if_rule, ℕ, suc, ◌+◌, ◌%◌, ◌≡◌, refl, subst, ◌≢◌, ◌⊎◌, inl, inr, String, Bool, true, false,
  Option, none, some, List, [], ◌∷◌, ◌==◌, eq_iff, eq_refl, lookup, insert, delete, lookup-insert,
  lookup-delete, arith, leb, length, Result, ok, err, All, HasUniqueKeys, Bool-cases, Option-cases,
  text-cases, get_elem?, if◌then◌else◌, nat_eq, ne_text,
}
use grpc_api_gateway_session.Domain.{ServiceInstance}
use grpc_api_gateway_session.Pool.{
  Conn, Pool, Answer, PoolError, conn_pool_closed, no_available_conn_instance, Op, round_robin,
  closes, for_key, failure, refreshes, close_conn, drop_instance, sweep, seen, refresh,
  remove_instance, cut_instance, close_cached, unbind_key, on_backend_failure,
  get_or_create_conn_locked, round_robin_loop, get_connection_round_robin, for_key_loop,
  choose_for_key, bound_id, get_connection_for_key, step, run, unbind_instance,
  is_instance_assigned_to_other_key, after_try, advance,
}
use grpc_api_gateway_session.Pool.Calls.{get_or_create-Tried}
use grpc_api_gateway_session.Pool.Bindings.{
  lookup-unbind_instance, unbind_instance-HasUniqueKeys, HasExclusiveKeys,
}
use grpc_api_gateway_session.Pool.Invariant.{IsValid, step-IsValid, for_key-IsValid}

-- The key is bound to the instance, whose connection is cached, and the pool is open.
pub record IsBound (key id : String) (c : Conn) (p : Pool) : Type 0 where
  pub binding : lookup key p.key_to_id ≡ some id
  pub cached : lookup id p.instance_conn ≡ some c
  pub is_open : p.closed ≡ false

abbrev pub Keeps : String → String → Conn → Answer × Pool → Type 0
Keeps key id c r = IsBound key id c r.1

-- A call that is no reason to move the session: it does not close the pool, reports no failure of
-- the key or of the instance, and if it is a refresh the instance is still listed.
abbrev pub IsBenign : String → String → Op → Type 0
IsBenign key id round_robin = Unit
IsBenign key id closes = ⊥
IsBenign key id (for_key k) = Unit
IsBenign key id (failure k i) = (k ≢ key) × (i ≢ id)
IsBenign key id (refreshes none) = Unit
IsBenign key id (refreshes (some xs)) = seen xs id ≡ true

pub after_try_rule {ℓ κ} :
    {A : Type 0} (P : A → Type ℓ) (Q : Pool → Type κ) (continue : Pool → A)
    (use_conn : Conn → Pool → A) (r : Option Conn × Pool)
    → Q r.1
    → ((p : Pool) → Q p → P (continue p))
    → ((c : Conn) (p : Pool) → Q p → P (use_conn c p))
    → P (after_try continue use_conn r)
after_try_rule P Q continue use_conn (none, p) q h k = h p q
after_try_rule P Q continue use_conn (some c, p) q h k = k c p q

pub ne_test : (s : String) → s ≢ "" → (s == "") ≡ false
ne_test s ne = ground (arith, eq_iff s "")

pub bind_other :
    (key id k i : String) (c : Conn) (p : Pool)
    → k ≢ key
    → IsBound key id c p
    → IsBound key id c (record p { key_to_id = insert k i p.key_to_id })
bind_other key id k i c p ne b = record {
  binding = ground (arith, lookup-insert k key i p.key_to_id, eq_iff k key, b.binding);
  cached = b.cached;
  is_open = b.is_open;
}

pub unbind_other :
    (key id k : String) (c : Conn) (p : Pool)
    → k ≢ key
    → IsBound key id c p
    → IsBound key id c (record p { key_to_id = delete k p.key_to_id })
unbind_other key id k c p ne b = record {
  binding = ground (arith, lookup-delete k key p.key_to_id, eq_iff k key, b.binding);
  cached = b.cached;
  is_open = b.is_open;
}

drop_instance-IsBound :
    (key id i : String) (c d : Conn) (p : Pool)
    → i ≢ id
    → HasUniqueKeys p.key_to_id
    → IsBound key id c p
    → IsBound key id c (drop_instance i d p)
unfolding drop_instance close_conn
drop_instance-IsBound key id i c d p ne u b = record {
  binding = ground (arith, lookup-unbind_instance i key p.key_to_id u, eq_iff id i, b.binding);
  cached = ground (arith, lookup-delete i id p.instance_conn, eq_iff i id, b.cached);
  is_open = b.is_open;
}

drop_instance-HasUniqueKeys :
    (i : String) (d : Conn) (p : Pool)
    → HasUniqueKeys p.key_to_id
    → HasUniqueKeys (drop_instance i d p).key_to_id
unfolding drop_instance close_conn
drop_instance-HasUniqueKeys i d p u = unbind_instance-HasUniqueKeys i p.key_to_id u

not_seen :
    (xs : List ServiceInstance) (i id : String) → seen xs i ≡ false → seen xs id ≡ true → i ≢ id
not_seen xs i id gone here e = cc

sweep-IsBound :
    (key id : String) (c : Conn) (xs : List ServiceInstance) (entries : List (String × Conn))
    (p : Pool)
    → seen xs id ≡ true
    → HasUniqueKeys p.key_to_id
    → IsBound key id c p
    → IsBound key id c (sweep xs entries p)
unfolding sweep
sweep-IsBound key id c xs [] p s u b = b
sweep-IsBound key id c xs ((i, d) ∷ entries) p s u b = elim (Bool-cases (seen xs i)) [
  | inl kept ↦ rw (kept, sweep) (sweep-IsBound key id c xs entries p s u b)
  | inr gone ↦
      rw (gone, sweep)
        (sweep-IsBound key id c xs entries (drop_instance i d p) s
          (drop_instance-HasUniqueKeys i d p u)
          (drop_instance-IsBound key id i c d p (not_seen xs i id gone s) u b))
]

pub refresh-IsBound :
    (key id : String) (c : Conn) (xs : List ServiceInstance) (p : Pool)
    → seen xs id ≡ true
    → HasUniqueKeys p.key_to_id
    → IsBound key id c p
    → IsBound key id c (refresh (some xs) p)
unfolding refresh
refresh-IsBound key id c xs p s u b =
    let b' = sweep-IsBound key id c xs p.instance_conn p s u b in
    record { binding = b'.binding; cached = b'.cached; is_open = b'.is_open }

pub on_backend_failure-IsBound :
    (key id k i : String) (c : Conn) (p : Pool)
    → k ≢ key
    → i ≢ id
    → IsBound key id c p
    → IsBound key id c (on_backend_failure k i p)
unfolding on_backend_failure unbind_key close_cached cut_instance close_conn
on_backend_failure-IsBound key id k i c p nk ni b = record {
  binding = ground (arith, lookup-delete k key p.key_to_id, eq_iff k key, b.binding);
  cached = ground (arith, lookup-delete i id p.instance_conn, eq_iff i id, b.cached);
  is_open = ground (arith, b.is_open);
}
