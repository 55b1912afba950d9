-- ===== src/Pool/Moves.antt =====
-- Every call of the pool is a sequence of the moves below; an invariant is proved move by move.
use grpc_api_gateway_session.Prelude.{
  ℕ, suc, ◌<◌, ◌≡◌, String, true, false, ◌++◌, none, some, List, [], ◌∷◌, leb, if◌then◌else◌,
  length, lookup, insert, delete,
}
use grpc_api_gateway_session.Domain.{ServiceInstance}
use grpc_api_gateway_session.Pool.{
  Conn, Pool, close_conn, unbind_instance, is_instance_assigned_to_other_key, conns_of,
}

abbrev pub relist : List ServiceInstance → Pool → Pool
relist xs p = record p { instances = xs; rr = if leb (length xs) p.rr then 0 else p.rr }

abbrev pub add_conn : String → Pool → Pool
add_conn id p = record p {
  dialled = suc p.dialled;
  opened = suc p.opened;
  instance_conn = insert id p.opened p.instance_conn;
}

abbrev pub shut : Pool → Pool
shut p = record p {
  closed = true;
  closed_conns = conns_of p.instance_conn ++ p.closed_conns;
  instance_conn = [];
  key_to_id = [];
}

pub data Move : Pool → Pool → Type 0 where
  closes_conn :
      {p : Pool} (id : String) (c : Conn)
      → lookup id p.instance_conn ≡ some c
      → Move p (close_conn id c p)
  unbinds : {p : Pool} (key : String) → Move p (record p { key_to_id = delete key p.key_to_id })
  unbinds_instance :
      {p : Pool} (id : String) → Move p (record p { key_to_id = unbind_instance id p.key_to_id })
  fails_dial : {p : Pool} → Move p (record p { dialled = suc p.dialled })
  dials :
      {p : Pool} (id : String)
      → p.closed ≡ false
      → lookup id p.instance_conn ≡ none
      → Move p (add_conn id p)
  binds :
      {p : Pool} (key id : String)
      → p.closed ≡ false
      → is_instance_assigned_to_other_key id key p.key_to_id ≡ false
      → Move p (record p { key_to_id = insert key id p.key_to_id })
  advances : {p : Pool} (i : ℕ) → i < length p.instances → Move p (record p { rr = i })
  relists : {p : Pool} (xs : List ServiceInstance) → Move p (relist xs p)
  unregisters : {p : Pool} (id : String) → Move p (record p { unregistered = id ∷ p.unregistered })
  shuts : {p : Pool} → Move p (shut p)

pub data Moves (p : Pool) : Pool → Type 0 where
  none_yet : Moves p p
  and_then : {q r : Pool} → Moves p q → Move q r → Moves p r

pub Moves-trans : {p q r : Pool} → Moves p q → Moves q r → Moves p r
Moves-trans m none_yet = m
Moves-trans m (and_then n s) = and_then (Moves-trans m n) s

-- What each move keeps, every sequence of moves keeps.
pub Moves-keep {ℓ} :
    (P : Pool → Type ℓ)
    → ((p q : Pool) → Move p q → P p → P q)
    → {p q : Pool} → Moves p q
    → P p
    → P q
Moves-keep P keep none_yet h = h
Moves-keep P keep (and_then {q = q} {r = r} m s) h = keep q r s (Moves-keep P keep m h)
