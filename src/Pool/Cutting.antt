-- ===== src/Pool/Cutting.antt =====
-- How the list of instances, and the index of the next turn, change when a failed instance is cut out.

use grpc_api_gateway_session.Prelude.{
  ◌≡◌, refl, ap, ◌≢◌, inl, inr, ◌∷◌, arith, text-cases, Bool-cases, ℕ, ◌<◌, ◌≤◌, ◌⊎◌, String, true,
  false, List, [], ◌++◌, All, length, leb, if◌then◌else◌,
}
use grpc_api_gateway_session.Domain.{ServiceInstance}
use grpc_api_gateway_session.Pool.{remove_instance, Pool, cut_instance, seen}

-- The list of instances and the index of the next turn after a report: the first instance with the
-- ID is cut out, and the index starts again if it is past the end; without such an instance both are
-- as they were.
abbrev pub HasCut : String → List ServiceInstance → ℕ → Pool → Type 0
HasCut id instances rr q =
    (All (λ (i : ServiceInstance). i.instance_id ≢ id) instances
      × (q.instances ≡ instances)
      × (q.rr ≡ rr))
    ⊎ ((before after : List ServiceInstance) × (inst : ServiceInstance) × (instances
          ≡ before ++ (inst ∷ after))
        × All (λ (i : ServiceInstance). i.instance_id ≢ id) before
        × (inst.instance_id ≡ id)
        × (q.instances ≡ before ++ after)
        × (((rr < length q.instances) × (q.rr ≡ rr)) ⊎ ((length q.instances ≤ rr) × (q.rr ≡ 0))))

-- The parts that no step of a report changes.
abbrev pub SameCounts : Pool → Pool → Type 0
SameCounts p q = (q.closed ≡ p.closed) × (q.dialled ≡ p.dialled) × (q.opened ≡ p.opened)

-- The parts that cutting the instance out of the list leaves alone.
abbrev pub CutKeeps : (id : String) (p : Pool) → Type 0
CutKeeps id p =
    ((cut_instance id p).instance_conn ≡ p.instance_conn)
    × ((cut_instance id p).key_to_id ≡ p.key_to_id)
    × ((cut_instance id p).closed_conns ≡ p.closed_conns)
    × ((cut_instance id p).unregistered ≡ p.unregistered)
    × SameCounts p (cut_instance id p)

-- The first instance with the ID is the one that is cut out.
abbrev IsCutOut : String → List ServiceInstance → Type 0
IsCutOut id instances =
    (before after : List ServiceInstance) × (inst : ServiceInstance) × (instances
      ≡ before ++ (inst ∷ after))
    × All (λ (i : ServiceInstance). i.instance_id ≢ id) before
    × (inst.instance_id ≡ id)
    × (remove_instance id instances ≡ before ++ after)

remove_instance-IsCutOut :
    (id : String) (instances : List ServiceInstance)
    → seen instances id ≡ true
    → IsCutOut id instances
unfolding seen remove_instance
remove_instance-IsCutOut id [] h = cc
remove_instance-IsCutOut id (x ∷ xs) h = elim (text-cases x.instance_id id) [
  | inl (t, e) ↦ ([], xs, x, refl, tt, e, rw (t, remove_instance) refl)
  | inr (t, n) ↦
      let (before, after, inst, split, fresh, named, left) =
        remove_instance-IsCutOut id xs (rw (t, seen) at h) in
      (
        x ∷ before,
        after,
        inst,
        ap (λ l. x ∷ l) split,
        (n, fresh),
        named,
        rw (t, remove_instance) (ap (λ l. x ∷ l) left),
      )
]

not_seen :
    (id : String) (instances : List ServiceInstance)
    → seen instances id ≡ false
    → All (λ (i : ServiceInstance). i.instance_id ≢ id) instances
unfolding seen
not_seen id [] h = tt
not_seen id (x ∷ xs) h = elim (text-cases x.instance_id id) [
  | inl (t, e) ↦ absurd (cc (rw (t, seen) at h))
  | inr (t, n) ↦ (n, not_seen id xs (rw (t, seen) at h))
]

next_turn :
    (n rr : ℕ)
    → ((rr < n) × ((if leb n rr then 0 else rr) ≡ rr))
      ⊎ ((n ≤ rr) × ((if leb n rr then 0 else rr) ≡ 0))
next_turn n rr = elim (Bool-cases (leb n rr)) [
  | inl h ↦ inr (ground arith, rw h refl)
  | inr h ↦ inl (ground arith, rw h refl)
]

pub cut_instance-HasCut : (id : String) (p : Pool) → HasCut id p.instances p.rr (cut_instance id p)
unfolding cut_instance
cut_instance-HasCut id p = elim (Bool-cases (seen p.instances id)) [
  | inr h ↦ rw (h, cut_instance) (inl (not_seen id p.instances h, refl, refl))
  | inl h ↦
      let (before, after, inst, split, fresh, named, left) =
        remove_instance-IsCutOut id p.instances h in
      rw (h, cut_instance)
        (inr (
          before,
          after,
          inst,
          split,
          fresh,
          named,
          left,
          next_turn (length (remove_instance id p.instances)) p.rr,
        ))
]

pub cut_instance-CutKeeps : (id : String) (p : Pool) → CutKeeps id p
unfolding cut_instance
cut_instance-CutKeeps id p = elim (Bool-cases (seen p.instances id)) [
  | inl h ↦ rw (h, cut_instance) (refl, refl, refl, refl, (refl, refl, refl))
  | inr h ↦ rw (h, cut_instance) (refl, refl, refl, refl, (refl, refl, refl))
]
