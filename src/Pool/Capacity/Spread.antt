-- ===== src/Pool/Capacity/Spread.antt =====
-- Keys and the instances that they are meant to get.
use grpc_api_gateway_session.Prelude.{
  ◌≡◌, refl, ap, ◌≢◌, String, Option, none, some, List, [], ◌∷◌, ◌++◌, eq_iff, arith, ok, err,
  lookup, insert, lookup-insert, All,
}
use grpc_api_gateway_session.Domain.{ServiceInstance}
use grpc_api_gateway_session.Pool.{Pool, Answer}
use grpc_api_gateway_session.Pool.Capacity.{is_held-insert, IsHeld, IsFree, Takes}

-- The ID that a caller is answered with.
abbrev pub answered_id : Answer → Option String
answered_id (ok (c, id)) = some id
answered_id (err e) = none

-- Keys with the instances that they are meant to get.
abbrev pub Turns : Type 0
Turns = List (String × ServiceInstance)

abbrev pub keys_of : Turns → List String
keys_of [] = []
keys_of ((key, inst) ∷ turns) = key ∷ keys_of turns

abbrev pub hosts : Turns → List ServiceInstance
hosts [] = []
hosts ((key, inst) ∷ turns) = inst ∷ hosts turns

abbrev pub ids_of : Turns → List (Option String)
ids_of [] = []
ids_of ((key, inst) ∷ turns) = some inst.instance_id ∷ ids_of turns

-- The turn differs from those behind it.
unfoldable pub IsApart : String → ServiceInstance → String × ServiceInstance → Type 0
IsApart key inst t = (key ≢ t.0) × (inst.instance_id ≢ t.1.instance_id)

-- Named keys without a binding, no two of them alike, with instances that nobody holds, no two alike.
unfoldable pub IsSpread : List (String × String) → Turns → Type 0
IsSpread m [] = Unit
IsSpread m ((key, inst) ∷ turns) =
    (key ≢ "")
    × (lookup key m ≡ none)
    × IsFree m inst
    × All (IsApart key inst) turns
    × IsSpread m turns

pub IsSpread-insert :
    (key : String) (inst : ServiceInstance) (m : List (String × String)) (turns : Turns)
    → lookup key m ≡ none
    → All (IsApart key inst) turns
    → IsSpread m turns
    → IsSpread (insert key inst.instance_id m) turns
unfolding IsSpread IsApart IsFree
IsSpread-insert key inst m [] h apart spread = tt
IsSpread-insert key inst m ((k, i) ∷ turns) h ((ne, other), apart)
      (named, fresh, free, mine, spread) =
    (
      named,
      ground (arith, lookup-insert key k inst.instance_id m, eq_iff key k),
      ground (
        arith,
        is_held-insert i.instance_id key inst.instance_id m h,
        eq_iff inst.instance_id i.instance_id,
      ),
      mine,
      IsSpread-insert key inst m turns h apart spread,
    )

pub snoc :
    {A : Type 0} (xs : List A) (x : A) (ys : List A) → xs ++ (x ∷ ys) ≡ (xs ++ (x ∷ [])) ++ ys
snoc [] x ys = refl
snoc (y ∷ xs) x ys = ap (λ zs. y ∷ zs) (snoc xs x ys)

pub All-snoc :
    {A : Type 0} (P : A → Type 0) (xs : List A) (x : A) → All P xs → P x → All P (xs ++ (x ∷ []))
All-snoc P [] x h p = (p, tt)
All-snoc P (y ∷ xs) x (q, h) p = (q, All-snoc P xs x h p)

pub IsHeld-insert :
    (key : String) (inst i : ServiceInstance) (m : List (String × String))
    → lookup key m ≡ none
    → IsHeld m i
    → IsHeld (insert key inst.instance_id m) i
unfolding IsHeld
IsHeld-insert key inst i m h p =
    ground (arith, is_held-insert i.instance_id key inst.instance_id m h)

pub IsHeld-taken :
    (key : String) (inst : ServiceInstance) (m : List (String × String))
    → lookup key m ≡ none
    → IsHeld (insert key inst.instance_id m) inst
unfolding IsHeld
IsHeld-taken key inst m h = ground (
  arith,
  is_held-insert inst.instance_id key inst.instance_id m h,
  eq_iff inst.instance_id inst.instance_id,
)

pub insert_other :
    (key k v : String) (m : List (String × String))
    → key ≢ k
    → lookup k m ≡ none
    → lookup k (insert key v m) ≡ none
insert_other key k v m ne h = ground (arith, lookup-insert key k v m, eq_iff key k)

pub Takes-parts :
    (key : String) (inst : ServiceInstance) (p : Pool) (r : Answer × Pool)
    → Takes key inst p r
    → (answered_id r.0 ≡ some inst.instance_id)
      × (r.1.key_to_id ≡ insert key inst.instance_id p.key_to_id)
      × (r.1.instances ≡ p.instances)
      × (r.1.closed ≡ p.closed)
Takes-parts key inst p (ok (c, id), q) (a, b, d, e) = (ap some a, b, d, e)
Takes-parts key inst p (err x, q) t = elim t [ ]
