-- ===== src/Pool.antt =====
-- MyGateway/service/connection_pool.go. Every exported method holds the mutex from its first line to
-- its last, so a method is one atomic function of the pool; `refresh` asks the discoverer before it
-- takes the lock, so the answer is its argument. `dial` says how each call of the factory ends, by
-- the number of the call; a connection is known by the order in which the factory made it. The last
-- fields of the record log what the pool does to the world outside.
use grpc_api_gateway_session.Prelude.{
  ℕ, suc, ◌+◌, ◌%◌, String, Bool, true, false, not, ◌&&◌, ◌||◌, Option, none, some, List, [], ◌∷◌,
  ◌++◌, Result, ok, err, ◌==◌, leb, nat_eq, if◌then◌else◌, length, get_elem?, any, lookup, insert,
  delete,
}
pub mod Moves
pub mod Sweep
pub mod Calls
pub mod Cutting
pub mod Failure
pub mod Free
pub mod Capacity
pub mod Turns
pub mod Bindings
pub mod Accounting
pub mod Invariant
pub mod Affinity
use grpc_api_gateway_session.Domain.{ServiceInstance}

abbrev pub Conn : Type 0
Conn = ℕ

pub data PoolError : Type 0 where
  conn_pool_closed no_available_conn_instance : PoolError

-- The connection with the ID of its instance.
abbrev pub Answer : Type 0
Answer = Result PoolError (Conn × String)

pub record Pool : Type 0 where
  pub instances : List ServiceInstance
  pub key_to_id : List (String × String)
  pub instance_conn : List (String × Conn)
  pub rr : ℕ
  pub closed : Bool
  -- How often the factory was called, and how many connections it made.
  pub dialled : ℕ
  pub opened : ℕ
  -- The connections closed and the instances unregistered, last first.
  pub closed_conns : List Conn
  pub unregistered : List String

-- The pool before its first refresh.
pub empty_pool : Pool
empty_pool = record {
  instances = [];
  key_to_id = [];
  instance_conn = [];
  rr = 0;
  closed = false;
  dialled = 0;
  opened = 0;
  closed_conns = [];
  unregistered = [];
}

-- `conn.Close()` and the deletion from `instanceConn` that always follows it.
unfoldable pub close_conn : String → Conn → Pool → Pool
close_conn id c p = record p {
  instance_conn = delete id p.instance_conn;
  closed_conns = c ∷ p.closed_conns;
}

-- `for key, mapped := range p.keyToID { if mapped == id { delete(p.keyToID, key) } }`
pub unbind_instance : String → List (String × String) → List (String × String)
unbind_instance id [] = []
unbind_instance id ((k, mapped) ∷ m) =
    let rest = unbind_instance id m in if mapped == id then rest else (k, mapped) ∷ rest

-- The `seen` set of `refresh`.
unfoldable pub seen : List ServiceInstance → String → Bool
seen instances id = any (λ inst. inst.instance_id == id) instances

-- One round of the loop over `instanceConn` whose instance is gone.
pub drop_instance : String → Conn → Pool → Pool
drop_instance id c p =
    let p' = close_conn id c p in record p' { key_to_id = unbind_instance id p'.key_to_id }

-- The loop over the entries that `instanceConn` had when the loop began.
pub sweep : List ServiceInstance → List (String × Conn) → Pool → Pool
sweep instances [] p = p
sweep instances ((id, c) ∷ entries) p =
    sweep instances entries (if seen instances id then p else drop_instance id c p)

-- `none` is an error of `GetInstances`, which is logged only.
unfoldable pub refresh : Option (List ServiceInstance) → Pool → Pool
unfolding sweep drop_instance unbind_instance seen
refresh none p = p
refresh (some instances) p =
    let swept = sweep instances p.instance_conn p in
    record swept {
      instances = instances;
      rr = if leb (length instances) swept.rr then 0 else swept.rr;
    }

-- `NewConnectionPool` runs the first refresh.
unfoldable pub new_connection_pool : Option (List ServiceInstance) → Pool
unfolding empty_pool refresh
new_connection_pool first = refresh first empty_pool

unfoldable pub is_instance_assigned_to_other_key : String → String → List (String × String) → Bool
is_instance_assigned_to_other_key id exclude [] = false
is_instance_assigned_to_other_key id exclude ((k, mapped) ∷ m) =
    (not (k == exclude) && mapped == id) || is_instance_assigned_to_other_key id exclude m

-- The first instance of the list with this ID is cut out.
pub remove_instance : String → List ServiceInstance → List ServiceInstance
remove_instance id [] = []
remove_instance id (inst ∷ rest) =
    if inst.instance_id == id then rest else inst ∷ remove_instance id rest

-- The index is reset only when an instance was found and cut out.
pub cut_instance : String → Pool → Pool
cut_instance id p =
    if seen p.instances id
    then (let left = remove_instance id p.instances in
        record p { instances = left; rr = if leb (length left) p.rr then 0 else p.rr })
    else p

pub close_cached : String → Pool → Pool
close_cached id p = elim (lookup id p.instance_conn) [ none ↦ p | some c ↦ close_conn id c p ]

pub unbind_key : String → Pool → Pool
unbind_key key p = if key == "" then p else record p { key_to_id = delete key p.key_to_id }

unfoldable pub on_backend_failure : String → String → Pool → Pool
unfolding cut_instance close_cached unbind_key remove_instance seen
on_backend_failure key id p =
    let p' = cut_instance id (close_cached id (unbind_key key p)) in
    record p' { unregistered = id ∷ p'.unregistered }

pub conns_of : List (String × Conn) → List Conn
conns_of [] = []
conns_of ((id, c) ∷ m) = c ∷ conns_of m

unfoldable pub close : Pool → Pool
unfolding conns_of
close p = if p.closed then p else record p {
  closed = true;
  closed_conns = conns_of p.instance_conn ++ p.closed_conns;
  instance_conn = [];
  key_to_id = [];
}

-- A missing key reads as the empty ID, which counts as no binding.
pub bound_id : String → Pool → String
bound_id key p = elim (lookup key p.key_to_id) [ none ↦ "" | some id ↦ id ]

-- `if err != nil { continue }`, and what follows it in the loop's body.
abbrev pub after_try {ℓ} : {A : Type ℓ} → (Pool → A) → (Conn → Pool → A) → Option Conn × Pool → A
after_try continue use_conn (none, p) = continue p
after_try continue use_conn (some c, p) = use_conn c p

-- The success in a round of `GetConnectionRoundRobin`: the next call starts behind this instance.
abbrev pub advance : ℕ → ServiceInstance → Conn → Pool → Answer × Pool
advance idx inst c p = (ok (c, inst.instance_id), record p { rr = (idx + 1) % length p.instances })

-- The calls that a pool answers, each in one critical section.
pub data Op : Type 0 where
  round_robin closes : Op
  for_key : String → Op
  failure : String → String → Op
  refreshes : Option (List ServiceInstance) → Op

module _ (dial : ℕ → ServiceInstance → Bool) where
  -- `none` is an error of the factory.
  pub get_or_create_conn_locked : ServiceInstance → Pool → Option Conn × Pool
  get_or_create_conn_locked inst p = elim (lookup inst.instance_id p.instance_conn) [
    | some c ↦ (some c, p)
    | none ↦
        if dial p.dialled inst
        then (
          some p.opened,
          record p {
            dialled = suc p.dialled;
            opened = suc p.opened;
            instance_conn = insert inst.instance_id p.opened p.instance_conn;
          },
        )
        else (none, record p { dialled = suc p.dialled })
  ]

  -- The loop of `GetConnectionRoundRobin`, with the rounds left and the round's number.
  pub round_robin_loop : ℕ → ℕ → Pool → Answer × Pool
  unfolding get_or_create_conn_locked
  round_robin_loop ℕ.zero i p = (err no_available_conn_instance, p)
  round_robin_loop (suc left) i p =
      let idx = (p.rr + i) % length p.instances in
      elim (get_elem? p.instances idx) [
        | none ↦ (err no_available_conn_instance, p)
        | some inst ↦
            after_try (round_robin_loop left (suc i)) (advance idx inst)
              (get_or_create_conn_locked inst p)
      ]

  unfoldable pub get_connection_round_robin : Pool → Answer × Pool
  unfolding round_robin_loop
  get_connection_round_robin p =
      if p.closed
      then (err conn_pool_closed, p)
      else if nat_eq (length p.instances) 0
      then (err no_available_conn_instance, p)
      else round_robin_loop (length p.instances) 0 p

  -- The loop of `GetConnectionForKey` over the instances.
  pub for_key_loop : String → List ServiceInstance → Pool → Answer × Pool
  unfolding is_instance_assigned_to_other_key get_or_create_conn_locked
  for_key_loop key [] p = (err no_available_conn_instance, p)
  for_key_loop key (inst ∷ rest) p =
      elim (is_instance_assigned_to_other_key inst.instance_id key p.key_to_id) [
        | true ↦ for_key_loop key rest p
        | false ↦
            after_try (for_key_loop key rest)
              (λ c p'. (
                ok (c, inst.instance_id),
                record p' { key_to_id = insert key inst.instance_id p'.key_to_id },
              ))
              (get_or_create_conn_locked inst p)
      ]

  -- The part behind the two guards: the binding first, then a free instance.
  pub choose_for_key : String → Pool → Answer × Pool
  unfolding bound_id for_key_loop
  choose_for_key key p =
      if bound_id key p == ""
      then for_key_loop key p.instances p
      else elim (lookup (bound_id key p) p.instance_conn) [
        | some c ↦ (ok (c, bound_id key p), p)
        | none ↦ for_key_loop key p.instances (record p { key_to_id = delete key p.key_to_id })
      ]

  unfoldable pub get_connection_for_key : String → Pool → Answer × Pool
  unfolding choose_for_key
  get_connection_for_key key p =
      if p.closed
      then (err conn_pool_closed, p)
      else if key == ""
      then (err no_available_conn_instance, p)
      else choose_for_key key p

  unfoldable pub step : Op → Pool → Pool
  unfolding get_connection_round_robin get_connection_for_key
  step round_robin p = (get_connection_round_robin p).1
  step closes p = close p
  step (for_key key) p = (get_connection_for_key key p).1
  step (failure key id) p = on_backend_failure key id p
  step (refreshes answer) p = refresh answer p

  -- Any interleaving of the callers and the refresh loop is a list of calls.
  unfoldable pub run : List Op → Pool → Pool
  run [] p = p
  run (op ∷ ops) p = run ops (step op p)
