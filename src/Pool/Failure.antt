-- ===== src/Pool/Failure.antt =====
-- What a report of a failed backend changes in a pool.
use mathlib.Core.Option.{some-injective}
use grpc_api_gateway_session.Prelude.{
  ◌≡◌, refl, ap, subst, ◌∙◌, ◌≢◌, inl, inr, none, some, ◌∷◌, eq_iff, eq_refl, arith, lookup,
  lookup-delete, text-cases, Option-cases, ℕ, String, List,
}
use grpc_api_gateway_session.Domain.{ServiceInstance}
use grpc_api_gateway_session.Pool.{
  Pool, Conn, close_conn, close_cached, cut_instance, unbind_key, on_backend_failure,
}
use grpc_api_gateway_session.Pool.Cutting.{
  HasCut, SameCounts, cut_instance-HasCut, cut_instance-CutKeeps,
}

-- The pool after the report of a key and an instance, beside the pool before.
pub record HasForgotten (key id : String) (p q : Pool) : Type 0 where
  pub conn_gone : lookup id q.instance_conn ≡ none
  pub other_conns : (j : String) → id ≢ j → lookup j q.instance_conn ≡ lookup j p.instance_conn
  pub conn_closed :
      (c : Conn) → lookup id p.instance_conn ≡ some c → q.closed_conns ≡ c ∷ p.closed_conns
  pub none_closed : lookup id p.instance_conn ≡ none → q.closed_conns ≡ p.closed_conns
  pub key_gone : key ≢ "" → lookup key q.key_to_id ≡ none
  pub other_keys : (k : String) → key ≢ k → lookup k q.key_to_id ≡ lookup k p.key_to_id
  pub told : q.unregistered ≡ id ∷ p.unregistered
  pub cut : HasCut id p.instances p.rr q
  pub closed_as_before : q.closed ≡ p.closed
  pub same_dialled : q.dialled ≡ p.dialled
  pub same_opened : q.opened ≡ p.opened

abbrev SameTurns : Pool → Pool → Type 0
SameTurns p q = (q.instances ≡ p.instances) × (q.rr ≡ p.rr)

-- What unbinding the key, and closing the connection, each do.
pub record HasUnbound (key : String) (p q : Pool) : Type 0 where
  pub same_turns : SameTurns p q
  pub same_counts : SameCounts p q
  pub same_conns : q.instance_conn ≡ p.instance_conn
  pub same_closed : q.closed_conns ≡ p.closed_conns
  pub same_told : q.unregistered ≡ p.unregistered
  pub key_gone : key ≢ "" → lookup key q.key_to_id ≡ none
  pub other_keys : (k : String) → key ≢ k → lookup k q.key_to_id ≡ lookup k p.key_to_id

pub record HasClosed (id : String) (p q : Pool) : Type 0 where
  pub same_turns : SameTurns p q
  pub same_counts : SameCounts p q
  pub same_keys : q.key_to_id ≡ p.key_to_id
  pub same_told : q.unregistered ≡ p.unregistered
  pub conn_gone : lookup id q.instance_conn ≡ none
  pub other_conns : (j : String) → id ≢ j → lookup j q.instance_conn ≡ lookup j p.instance_conn
  pub conn_closed :
      (c : Conn) → lookup id p.instance_conn ≡ some c → q.closed_conns ≡ c ∷ p.closed_conns
  pub none_closed : lookup id p.instance_conn ≡ none → q.closed_conns ≡ p.closed_conns

unbind_key-HasUnbound : (key : String) (p : Pool) → HasUnbound key p (unbind_key key p)
unfolding unbind_key
unbind_key-HasUnbound key p = elim (text-cases key "") [
  | inl (q, e) ↦
      rw (q, unbind_key)
        (record {
          same_turns = (refl, refl);
          same_counts = (refl, refl, refl);
          same_conns = refl;
          same_closed = refl;
          same_told = refl;
          key_gone = λ ne. absurd (ne e);
          other_keys = λ k ne. refl;
        })
  | inr (q, e) ↦
      rw (q, unbind_key)
        (record {
          same_turns = (refl, refl);
          same_counts = (refl, refl, refl);
          same_conns = refl;
          same_closed = refl;
          same_told = refl;
          key_gone = λ ne. rw (lookup-delete key key p.key_to_id, eq_refl key) refl;
          other_keys = λ k ne. ground (arith, lookup-delete key k p.key_to_id, eq_iff key k);
        })
]

close_cached-HasClosed : (id : String) (p : Pool) → HasClosed id p (close_cached id p)
unfolding close_cached close_conn
close_cached-HasClosed id p = elim (Option-cases (lookup id p.instance_conn)) [
  | inl n ↦
      rw (n, close_cached)
        (record {
          same_turns = (refl, refl);
          same_counts = (refl, refl, refl);
          same_keys = refl;
          same_told = refl;
          conn_gone = n;
          other_conns = λ j ne. refl;
          conn_closed = λ c e. cc;
          none_closed = λ e. refl;
        })
  | inr (c, n) ↦
      rw (n, close_cached, close_conn)
        (record {
          same_turns = (refl, refl);
          same_counts = (refl, refl, refl);
          same_keys = refl;
          same_told = refl;
          conn_gone = rw (lookup-delete id id p.instance_conn, eq_refl id) refl;
          other_conns = λ j ne. ground (arith, lookup-delete id j p.instance_conn, eq_iff id j);
          conn_closed = λ d e. ap (λ x. x ∷ p.closed_conns) (some-injective c d (rw n at e));
          none_closed = λ e. cc;
        })
]

abbrev told : String → Pool → Pool
told id p = record p { unregistered = id ∷ p.unregistered }

on_backend_failure-told :
    (key id : String) (p : Pool)
    → told id (cut_instance id (close_cached id (unbind_key key p))) ≡ on_backend_failure key id p
unfolding on_backend_failure
on_backend_failure-told key id p = refl

-- After a report the failed instance has no connection, the one it had and no other was closed, the
-- key, if there is one, is bound to nothing, the discoverer was told, and all other connections and
-- bindings are as they were. The first instance with the ID is cut out of the list, and the index of
-- the next turn starts again if it is past the new end; without such an instance the list and the
-- index are as they were. Nothing was dialled or opened, and the pool is closed if it was.
pub on_backend_failure-HasForgotten :
    (key id : String) (p : Pool) → HasForgotten key id p (on_backend_failure key id p)
on_backend_failure-HasForgotten key id p =
    let u = unbind_key-HasUnbound key p in
    let c = close_cached-HasClosed id (unbind_key key p) in
    let cut = cut_instance id (close_cached id (unbind_key key p)) in
    let (conns, keys, shut, heard, counts) =
      cut_instance-CutKeeps id (close_cached id (unbind_key key p)) in
    subst (HasForgotten key id p) (on_backend_failure-told key id p) (record {
      conn_gone = ap (lookup id) conns ∙ c.conn_gone;
      other_conns = λ j ne. ap (lookup j) conns ∙ c.other_conns j ne ∙ ap (lookup j) u.same_conns;
      conn_closed = λ d e.
          shut ∙ c.conn_closed d (ap (lookup id) u.same_conns ∙ e) ∙ ap (λ l. d ∷ l) u.same_closed;
      none_closed = λ e. shut ∙ c.none_closed (ap (lookup id) u.same_conns ∙ e) ∙ u.same_closed;
      key_gone = λ ne. ap (lookup key) (keys ∙ c.same_keys) ∙ u.key_gone ne;
      other_keys = λ k ne. ap (lookup k) (keys ∙ c.same_keys) ∙ u.other_keys k ne;
      told = ap (λ l. id ∷ l) (heard ∙ c.same_told ∙ u.same_told);
      cut =
          subst (λ (l : List ServiceInstance). HasCut id l p.rr cut)
            (c.same_turns.0 ∙ u.same_turns.0)
            (subst (λ (n : ℕ). HasCut id (close_cached id (unbind_key key p)).instances n cut)
              (c.same_turns.1 ∙ u.same_turns.1)
              (cut_instance-HasCut id (close_cached id (unbind_key key p))));
      closed_as_before = counts.0 ∙ c.same_counts.0 ∙ u.same_counts.0;
      same_dialled = counts.1 ∙ c.same_counts.1 ∙ u.same_counts.1;
      same_opened = counts.2 ∙ c.same_counts.2 ∙ u.same_counts.2;
    })
