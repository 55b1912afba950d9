-- ===== src/Tests/Pools.antt =====
-- A pool over a history of calls.
use grpc_api_gateway_session.Prelude.{
  none, err, ℕ, ◌+◌, ◌==◌, ◌≡◌, refl, ◌≢◌, ltb, ne_text, String, Bool, true, false, some, List, [],
  ◌∷◌, ok, pos, lookup, insert, delete, All,
}
use grpc_api_gateway_session.Domain.{ServiceInstance}
use grpc_api_gateway_session.Pool.{
  Pool, Op, round_robin, for_key, failure, refreshes, new_connection_pool, get_connection_for_key,
  get_connection_round_robin, on_backend_failure, refresh, close_conn, run, step, conns_of, seen,
}
use grpc_api_gateway_session.Pool.Invariant.{
  run_exclusive, run_accounted, new_connection_pool-IsValid,
}
use grpc_api_gateway_session.Pool.Accounting.{count, one_if}
use mathlib.Core.List.{Memᴰ}
use grpc_api_gateway_session.Pool.{is_instance_assigned_to_other_key}
use grpc_api_gateway_session.Pool.Failure.{HasForgotten, on_backend_failure-HasForgotten}
use grpc_api_gateway_session.Pool.Turns.{Serves, calls, round_robin-Serves}
use grpc_api_gateway_session.Prelude.{◌%◌, length, arith}
use grpc_api_gateway_session.Pool.Free.{IsServed, get_connection_for_key-IsServed}
use grpc_api_gateway_session.Pool.{no_available_conn_instance}
use grpc_api_gateway_session.Pool.Capacity.{is_held, IsFree}
use grpc_api_gateway_session.Pool.Capacity.Spread.{Turns, keys_of, hosts, IsApart, IsSpread}
use grpc_api_gateway_session.Pool.Capacity.Filling.{serve_keys, serve_keys-fills}
use grpc_api_gateway_session.Pool.Affinity.{IsBenign}
use grpc_api_gateway_session.Pool.Affinity.Sessions.{affinity}

abbrev instance_at : String → ServiceInstance
instance_at id = record {
  instance_id = id;
  ipv4 = "10.0.0.1";
  port = pos 9000;
  assigned_client_session_id = "";
}

abbrev two : List ServiceInstance
two = instance_at "i1" ∷ instance_at "i2" ∷ []

abbrev dial : ℕ → ServiceInstance → Bool
dial n inst = true

-- Two sessions, a failure of the first instance, and the end.
abbrev history : List Op
history =
    for_key "s1"
    ∷ round_robin
    ∷ for_key "s2"
    ∷ failure "s1" "i1"
    ∷ refreshes (some two)
    ∷ for_key "s1"
    ∷ []

run_exclusive_test :
    lookup "s1" (run dial history (new_connection_pool (some two))).key_to_id ≡ some "i1"
unfolding run step new_connection_pool get_connection_for_key get_connection_round_robin
    on_backend_failure refresh close_conn lookup insert delete
run_exclusive_test = refl

run_exclusive_example : ◌≡◌ {A = String} "s1" "s1"
run_exclusive_example =
    run_exclusive dial (some two) history "s1" "s1" "i1" run_exclusive_test run_exclusive_test

run_accounted_example :
    count 0 (conns_of (run dial history (new_connection_pool (some two))).instance_conn)
      + count 0 (run dial history (new_connection_pool (some two))).closed_conns
    ≡ one_if (ltb 0 (run dial history (new_connection_pool (some two))).opened)
run_accounted_example = run_accounted dial (some two) history 0

abbrev fresh : Pool
fresh = new_connection_pool (some two)

-- The pool after the first call of the session.
abbrev held : Pool
held = record {
  instances = two;
  key_to_id = ("s1", "i1") ∷ [];
  instance_conn = ("i1", 0) ∷ [];
  rr = 0;
  closed = false;
  dialled = 1;
  opened = 1;
  closed_conns = [];
  unregistered = [];
}

held_test : get_connection_for_key dial "s1" fresh ≡ (ok (0, "i1"), held)
unfolding new_connection_pool get_connection_for_key lookup insert delete
held_test = refl

different : (s t : String) → (s == t) ≡ false → s ≢ t
different = ne_text

-- What happens to the others does not move the session.
abbrev others : List Op
others = round_robin ∷ for_key "s2" ∷ failure "s2" "i2" ∷ refreshes (some two) ∷ []

others_are-IsBenign : All (IsBenign "s1" "i1") others
unfolding seen
others_are-IsBenign = (tt, (tt, ((different "s2" "s1" refl, different "i2" "i1" refl), (refl, tt))))

affinity_example :
    get_connection_for_key dial "s1" (run dial others held) ≡ (ok (0, "i1"), run dial others held)
affinity_example =
    affinity dial "s1" "i1" 0 fresh held others (new_connection_pool-IsValid (some two))
      (different "s1" "" refl) (different "i1" "" refl) held_test others_are-IsBenign

on_backend_failure-HasForgotten_example :
    HasForgotten "s1" "i1" held (on_backend_failure "s1" "i1" held)
on_backend_failure-HasForgotten_example = on_backend_failure-HasForgotten "s1" "i1" held

second_free_test : is_instance_assigned_to_other_key "i2" "s2" held.key_to_id ≡ false
unfolding is_instance_assigned_to_other_key
second_free_test = refl

get_connection_for_key-IsServed_example : IsServed (get_connection_for_key dial "s2" held)
get_connection_for_key-IsServed_example =
    get_connection_for_key-IsServed dial "s2" (instance_at "i2") held refl (different "s2" "" refl)
      (Memᴰ.tail (Memᴰ.head refl)) second_free_test (λ n. refl)

-- The third call of a pool with two instances starts again.
round_robin-Serves_example :
    Serves held.instances
      ((held.rr + 2) % length held.instances)
      (get_connection_round_robin dial (run dial (calls 2) held))
round_robin-Serves_example = round_robin-Serves dial (λ n inst. refl) 2 held refl (omega arith)

abbrev turns : Turns
turns = ("s1", instance_at "i1") ∷ ("s2", instance_at "i2") ∷ []

abbrev new_pool : Pool
new_pool = new_connection_pool (some two)

spread : IsSpread new_pool.key_to_id turns
unfolding IsSpread IsApart IsFree is_held lookup new_connection_pool refresh
spread = (
  ne_text "s1" "" refl,
  refl,
  refl,
  ((ne_text "s1" "s2" refl, ne_text "i1" "i2" refl), tt),
  (ne_text "s2" "" refl, refl, refl, tt, tt),
)

listed :
    (new_pool.instances ≡ hosts turns)
    × (new_pool.closed ≡ false)
    × (lookup "s3" new_pool.key_to_id ≡ none)
unfolding lookup new_connection_pool refresh
listed = (refl, refl, refl)

serve_keys-fills_example :
    ((serve_keys dial (keys_of turns) new_pool).0 ≡ some "i1" ∷ some "i2" ∷ [])
    × (get_connection_for_key dial "s3" (serve_keys dial (keys_of turns) new_pool).1
        ≡ (err no_available_conn_instance, (serve_keys dial (keys_of turns) new_pool).1))
serve_keys-fills_example =
    serve_keys-fills dial turns new_pool "s3" listed.0 spread listed.1 (λ n i. refl)
      (ne_text "s3" "" refl) listed.2 (ne_text "s1" "s3" refl, (ne_text "s2" "s3" refl, tt))
