-- ===== src/Pool/Capacity.antt =====
-- When a pool is full.
pub mod Spread
pub mod Filling
use grpc_api_gateway_session.Prelude.{
  ℕ, zero, suc, ◌≡◌, refl, sym, ap, ◌∙◌, ◌≢◌, inl, inr, String, Bool, true, false, not, ◌&&◌, ◌||◌,
  Option, none, some, List, [], ◌∷◌, ◌++◌, ◌==◌, eq_iff, arith, ok, err, lookup, insert, delete,
  Option-cases, Bool-cases, text-cases, if_rule, All, if◌then◌else◌, length, subst,
}
use grpc_api_gateway_session.Domain.{ServiceInstance}
use grpc_api_gateway_session.Pool.{
  Pool, Conn, Answer, no_available_conn_instance, is_instance_assigned_to_other_key,
  get_or_create_conn_locked, for_key_loop, choose_for_key, bound_id, get_connection_for_key,
  after_try, Op, for_key, step, run,
}

-- Some key is bound to the instance.
unfoldable pub is_held : String → List (String × String) → Bool
is_held id [] = false
is_held id ((k, mapped) ∷ m) = mapped == id || is_held id m

-- For a key without a binding the other keys are all keys.
pub assigned-is_held :
    (id key : String) (m : List (String × String))
    → lookup key m ≡ none
    → is_instance_assigned_to_other_key id key m ≡ is_held id m
unfolding is_instance_assigned_to_other_key is_held lookup
assigned-is_held id key [] h = refl
assigned-is_held id key ((k, mapped) ∷ m) h =
    ground (arith, eq_iff k key, assigned-is_held id key m)

pub is_held-insert :
    (id key v : String) (m : List (String × String))
    → lookup key m ≡ none
    → is_held id (insert key v m) ≡ (v == id || is_held id m)
unfolding is_held lookup insert
is_held-insert id key v [] h = refl
is_held-insert id key v ((k, mapped) ∷ m) h =
    ground (arith, eq_iff k key, is_held-insert id key v m)

pub IsHeld : List (String × String) → ServiceInstance → Type 0
IsHeld m inst = is_held inst.instance_id m ≡ true

unfoldable pub IsFree : List (String × String) → ServiceInstance → Type 0
IsFree m inst = is_held inst.instance_id m ≡ false

-- The key took the instance.
abbrev pub Takes : String → ServiceInstance → Pool → Answer × Pool → Type 0
Takes key inst p (ok (c, id), q) =
    (id ≡ inst.instance_id)
    × (q.key_to_id ≡ insert key inst.instance_id p.key_to_id)
    × (q.instances ≡ p.instances)
    × (q.closed ≡ p.closed)
Takes key inst p (err e, q) = ⊥

pub append-nil : {A : Type 0} (xs : List A) → xs ++ [] ≡ xs
append-nil [] = refl
append-nil (x ∷ xs) = ap (λ ys. x ∷ ys) (append-nil xs)

module _ (dial : ℕ → ServiceInstance → Bool) where
  -- The loop passes by what other keys hold.
  pub for_key_loop-IsHeld :
      (key : String) (busy rest : List ServiceInstance) (p : Pool)
      → lookup key p.key_to_id ≡ none
      → All (IsHeld p.key_to_id) busy
      → for_key_loop dial key (busy ++ rest) p ≡ for_key_loop dial key rest p
  unfolding for_key_loop IsHeld
  for_key_loop-IsHeld key [] rest p h all = refl
  for_key_loop-IsHeld key (inst ∷ busy) rest p h (held_here, all) =
      rw (assigned-is_held inst.instance_id key p.key_to_id h ∙ held_here, for_key_loop)
        (for_key_loop-IsHeld key busy rest p h all)

  pub for_key_loop-Takes :
      (key : String) (inst : ServiceInstance) (rest : List ServiceInstance) (p : Pool)
      → lookup key p.key_to_id ≡ none
      → IsFree p.key_to_id inst
      → ((n : ℕ) → dial n inst ≡ true)
      → Takes key inst p (for_key_loop dial key (inst ∷ rest) p)
  unfolding for_key_loop get_or_create_conn_locked IsFree
  for_key_loop-Takes key inst rest p h free up =
      let idle = assigned-is_held inst.instance_id key p.key_to_id h ∙ free in
      elim (Option-cases (lookup inst.instance_id p.instance_conn)) [
        | inl n ↦
            rw (idle, n, up p.dialled, for_key_loop, get_or_create_conn_locked)
              (refl, refl, refl, refl)
        | inr (c, n) ↦
            rw (idle, n, for_key_loop, get_or_create_conn_locked) (refl, refl, refl, refl)
      ]

  pub fresh_key :
      (key : String) (p : Pool)
      → p.closed ≡ false
      → key ≢ ""
      → lookup key p.key_to_id ≡ none
      → get_connection_for_key dial key p ≡ for_key_loop dial key p.instances p
  unfolding get_connection_for_key choose_for_key bound_id
  fresh_key key p opened named h =
      let e : (key == "") ≡ false = ground (arith, eq_iff key "") in
      if_rule (λ a. a ≡ for_key_loop dial key p.instances p) p.closed _ _
        (λ shut. absurd (cc (opened, shut)))
        λ _.
          if_rule (λ a. a ≡ for_key_loop dial key p.instances p) (key == "") _ _
            (λ y. absurd (cc (e, y))) λ _. rw (h, bound_id, choose_for_key) refl

  -- A pool of which every instance is held refuses a key without a binding, and stays as it is.
  pub get_connection_for_key-IsHeld :
      (key : String) (p : Pool)
      → p.closed ≡ false
      → key ≢ ""
      → lookup key p.key_to_id ≡ none
      → All (IsHeld p.key_to_id) p.instances
      → get_connection_for_key dial key p ≡ (err no_available_conn_instance, p)
  unfolding for_key_loop
  get_connection_for_key-IsHeld key p opened named h all =
      fresh_key key p opened named h
      ∙ ap (λ xs. for_key_loop dial key xs p) (sym (append-nil p.instances))
      ∙ for_key_loop-IsHeld key p.instances [] p h all
      ∙ empty_loop
    where
      empty_loop : for_key_loop dial key [] p ≡ (err no_available_conn_instance, p)
      empty_loop = refl
