-- ===== src/Pool/Sweep.antt =====
-- The refresh of a pool, as a sequence of moves: the loop over the cached connections goes over the
-- entries that the map had at its start.
use grpc_api_gateway_session.Prelude.{
  ◌≡◌, inl, inr, String, Option, none, some, List, [], ◌∷◌, eq_iff, eq_refl, lookup, delete,
  HasUniqueKeys, lookup-delete, All, arith, Bool-cases,
}
use grpc_api_gateway_session.Domain.{ServiceInstance}
use grpc_api_gateway_session.Pool.{Conn, Pool, close_conn, seen, drop_instance, sweep, refresh}
use grpc_api_gateway_session.Pool.Moves.{
  Moves, Moves-trans, closes_conn, unbinds_instance, relists, none_yet, and_then,
}

drop_instance-Moves :
    (id : String) (c : Conn) (p : Pool)
    → lookup id p.instance_conn ≡ some c
    → Moves p (drop_instance id c p)
unfolding drop_instance
drop_instance-Moves id c p h =
    and_then (and_then none_yet (closes_conn id c h)) (unbinds_instance id)

-- The entries of the snapshot that the loop has still to visit are in the live map.
abbrev IsLive : List (String × Conn) → List (String × Conn) → Type 0
IsLive entries m = All (λ e. lookup e.0 m ≡ some e.1) entries

IsLive-delete :
    (id : String) (entries m : List (String × Conn))
    → lookup id entries ≡ none
    → IsLive entries m
    → IsLive entries (delete id m)
unfolding lookup
IsLive-delete id [] m fresh live = tt
IsLive-delete id ((j, c) ∷ entries) m fresh (here, live) = (
  ground (arith, lookup-delete id j m, eq_iff id j, eq_iff j id),
  IsLive-delete id entries m (ground (arith, eq_iff j id)) live,
)

IsLive-cons :
    (id : String) (c : Conn) (entries m : List (String × Conn))
    → lookup id entries ≡ none
    → IsLive entries m
    → IsLive entries ((id, c) ∷ m)
unfolding lookup
IsLive-cons id c [] m fresh live = tt
IsLive-cons id c ((j, d) ∷ entries) m fresh (here, live) = (
  ground (arith, eq_iff id j, eq_iff j id),
  IsLive-cons id c entries m (ground (arith, eq_iff j id)) live,
)

sweep-Moves :
    (xs : List ServiceInstance) (entries : List (String × Conn)) (p : Pool)
    → HasUniqueKeys entries
    → IsLive entries p.instance_conn
    → Moves p (sweep xs entries p)
unfolding sweep
sweep-Moves xs [] p u live = none_yet
sweep-Moves xs ((id, c) ∷ entries) p (fresh, u) (here, live) = elim (Bool-cases (seen xs id)) [
  | inl kept ↦ rw (kept, sweep) (sweep-Moves xs entries p u live)
  | inr gone ↦
      rw (gone, sweep)
        (Moves-trans (drop_instance-Moves id c p here) (
          sweep-Moves xs entries (drop_instance id c p) u (
            unfold drop_instance close_conn in
            IsLive-delete id entries p.instance_conn fresh live)))
]

All-self : (entries : List (String × Conn)) → HasUniqueKeys entries → IsLive entries entries
unfolding lookup
All-self [] u = tt
All-self ((id, c) ∷ entries) (fresh, u) =
    (ground (arith, eq_refl id), IsLive-cons id c entries entries fresh (All-self entries u))

pub refresh-Moves :
    (answer : Option (List ServiceInstance)) (p : Pool)
    → HasUniqueKeys p.instance_conn
    → Moves p (refresh answer p)
unfolding refresh
refresh-Moves none p u = none_yet
refresh-Moves (some xs) p u =
    and_then (sweep-Moves xs p.instance_conn p u (All-self p.instance_conn u)) (relists xs)
