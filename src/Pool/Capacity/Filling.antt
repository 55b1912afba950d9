-- ===== src/Pool/Capacity/Filling.antt =====
-- How new keys fill a pool.
use grpc_api_gateway_session.Prelude.{
  ℕ, ◌≡◌, refl, sym, ap, ◌∙◌, ◌≢◌, String, Bool, true, false, Option, none, List, [], ◌∷◌, ◌++◌,
  err, lookup, insert, All, All-weaken, subst,
}
use grpc_api_gateway_session.Domain.{ServiceInstance}
use grpc_api_gateway_session.Pool.{
  Pool, no_available_conn_instance, for_key_loop, get_connection_for_key,
}
use grpc_api_gateway_session.Pool.Capacity.{
  IsHeld, IsFree, Takes, append-nil, for_key_loop-IsHeld, for_key_loop-Takes, fresh_key,
  get_connection_for_key-IsHeld,
}
use grpc_api_gateway_session.Pool.Capacity.Spread.{
  answered_id, Turns, keys_of, hosts, ids_of, IsSpread, IsSpread-insert, snoc, All-snoc,
  IsHeld-insert, IsHeld-taken, insert_other, Takes-parts,
}

module _ (dial : ℕ → ServiceInstance → Bool) where
  -- The calls of the keys one after the other, with the answers.
  unfoldable pub serve_keys : List String → Pool → List (Option String) × Pool
  serve_keys [] p = ([], p)
  serve_keys (key ∷ keys) p =
      let rest = serve_keys keys (get_connection_for_key dial key p).1 in
      (answered_id (get_connection_for_key dial key p).0 ∷ rest.0, rest.1)

module _ (dial : ℕ → ServiceInstance → Bool) where
  first_turn :
      (key : String) (inst : ServiceInstance) (busy rest : List ServiceInstance) (p : Pool)
      → p.instances ≡ busy ++ (inst ∷ rest)
      → All (IsHeld p.key_to_id) busy
      → key ≢ ""
      → lookup key p.key_to_id ≡ none
      → IsFree p.key_to_id inst
      → p.closed ≡ false
      → ((n : ℕ) → dial n inst ≡ true)
      → Takes key inst p (get_connection_for_key dial key p)
  first_turn key inst busy rest p listed all named h free opened up =
      subst (Takes key inst p)
        (sym (
          fresh_key dial key p opened named h
          ∙ ap (λ xs. for_key_loop dial key xs p) listed
          ∙ for_key_loop-IsHeld dial key busy (inst ∷ rest) p h all))
        (for_key_loop-Takes dial key inst rest p h free up)

  -- The turns were served, and the pool holds all that it lists.
  pub IsFilled : List ServiceInstance → Turns → Pool → List (Option String) × Pool → Type 0
  IsFilled busy turns p r =
      (r.0 ≡ ids_of turns)
      × (r.1.instances ≡ busy ++ hosts turns)
      × All (IsHeld r.1.key_to_id) (busy ++ hosts turns)
      × (r.1.closed ≡ false)
      × ((k : String)
          → lookup k p.key_to_id ≡ none
          → All (λ (j : String). j ≢ k) (keys_of turns)
          → lookup k r.1.key_to_id ≡ none)

  serve_keys-IsFilled :
      (busy : List ServiceInstance) (turns : Turns) (p : Pool)
      → p.instances ≡ busy ++ hosts turns
      → All (IsHeld p.key_to_id) busy
      → IsSpread p.key_to_id turns
      → p.closed ≡ false
      → ((n : ℕ) (i : ServiceInstance) → dial n i ≡ true)
      → IsFilled busy turns p (serve_keys dial (keys_of turns) p)
  unfolding serve_keys IsFilled IsSpread
  serve_keys-IsFilled busy [] p listed all spread opened up = (
    refl,
    listed,
    subst (All (IsHeld p.key_to_id)) (sym (append-nil busy)) all,
    opened,
    λ k h apart. h,
  )
  serve_keys-IsFilled busy ((key, inst) ∷ turns) p listed all (named, h, free, apart, spread) opened
        up =
      let r = get_connection_for_key dial key p in
      let (id, keys, insts, shut) = Takes-parts key inst p r (
        first_turn key inst busy (hosts turns) p listed all named h free opened (λ n. up n inst)) in
      let bound : All (IsHeld r.1.key_to_id) (busy ++ (inst ∷ [])) =
        subst (λ (m : List (String × String)). All (IsHeld m) (busy ++ (inst ∷ []))) (sym keys)
          (All-snoc (IsHeld (insert key inst.instance_id p.key_to_id)) busy inst
            (All-weaken (λ (i : ServiceInstance). IsHeld-insert key inst i p.key_to_id h) busy all)
            (IsHeld-taken key inst p.key_to_id h)) in
      let (ids, lists, held_all, still, others) =
        serve_keys-IsFilled (busy ++ (inst ∷ [])) turns r.1
          (insts ∙ listed ∙ snoc busy inst (hosts turns)) bound
          (subst (λ (m : List (String × String)). IsSpread m turns) (sym keys)
            (IsSpread-insert key inst p.key_to_id turns h apart spread))
          (shut ∙ opened) up in
      (
        ap (λ (xs : List (Option String)). answered_id r.0 ∷ xs) ids
            ∙ ap (λ (x : Option String). x ∷ ids_of turns) id,
        lists ∙ sym (snoc busy inst (hosts turns)),
        subst (All (IsHeld (serve_keys dial (keys_of turns) r.1).1.key_to_id))
            (sym (snoc busy inst (hosts turns))) held_all,
        still,
        λ k g (ne, rest).
            others k (ap (lookup k) keys ∙ insert_other key k inst.instance_id p.key_to_id ne g)
              rest,
      )

  -- New keys get the instances of an open pool in the order of the list, if each can be dialled: the
  -- keys are named, have no binding and differ, and the instances, as many as the keys, have different
  -- IDs and are held by nobody. Then the pool is full: it refuses every other named key without a
  -- binding, and stays as it is.
  pub serve_keys-fills :
      (turns : Turns) (p : Pool) (key : String)
      → p.instances ≡ hosts turns
      → IsSpread p.key_to_id turns
      → p.closed ≡ false
      → ((n : ℕ) (i : ServiceInstance) → dial n i ≡ true)
      → key ≢ ""
      → lookup key p.key_to_id ≡ none
      → All (λ (j : String). j ≢ key) (keys_of turns)
      → let r = serve_keys dial (keys_of turns) p in
        (r.0 ≡ ids_of turns)
        × (get_connection_for_key dial key r.1 ≡ (err no_available_conn_instance, r.1))
  unfolding IsFilled
  serve_keys-fills turns p key listed spread opened up named h apart =
      let (ids, lists, all, still, others) =
        serve_keys-IsFilled [] turns p listed tt spread opened up in
      let q = (serve_keys dial (keys_of turns) p).1 in
      (
        ids,
        get_connection_for_key-IsHeld dial key q still named (others key h apart)
            (subst (All (IsHeld q.key_to_id)) (sym lists) all),
      )
