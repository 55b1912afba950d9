-- ===== src/RouteMatcher/Mapping.antt =====
-- Sorting and matching depend on the texts alone: they commute with a map that keeps the text.
use Prim.Native.String.{len}
use text.Mathlib.Text.{starts_with}
use mathlib.Core.Option
use grpc_api_gateway_session.Prelude.{
  ◌≡◌, refl, ◌∙◌, String, List, [], ◌∷◌, map, ltb, Bool-cases, inl, inr, ap,
}
use grpc_api_gateway_session.RouteMatcher.{insert_by_len, sort_from, sort_by_len, first_prefix}

module _ {A B : Type 0} (text_a : A → String) (text_b : B → String) (f : A → B)
    (same : (a : A) → text_b (f a) ≡ text_a a) where
  insert-map :
      (x : A) (xs : List A)
      → insert_by_len text_b (f x) (map f xs) ≡ map f (insert_by_len text_a x xs)
  unfolding insert_by_len
  insert-map x [] = refl
  insert-map x (y ∷ ys) =
      rw (same x, same y)
        (elim (Bool-cases (ltb (len (text_a y)) (len (text_a x)))) [
          | inl e ↦ rw e refl
          | inr e ↦ rw e (ap (◌∷◌ (f y)) (insert-map x ys))
        ])

  sort_from-map :
      (sorted xs : List A)
      → sort_from text_b (map f sorted) (map f xs) ≡ map f (sort_from text_a sorted xs)
  unfolding sort_from
  sort_from-map sorted [] = refl
  sort_from-map sorted (x ∷ xs) =
      ap (λ s. sort_from text_b s (map f xs)) (insert-map x sorted)
      ∙ sort_from-map (insert_by_len text_a x sorted) xs

  pub sort_by_len-map :
      (xs : List A) → sort_by_len text_b (map f xs) ≡ map f (sort_by_len text_a xs)
  unfolding sort_by_len
  sort_by_len-map xs = sort_from-map [] xs

  pub first_prefix-map :
      (method : String) (xs : List A)
      → first_prefix text_b method (map f xs) ≡ Option.map f (first_prefix text_a method xs)
  unfolding first_prefix
  first_prefix-map method [] = refl
  first_prefix-map method (x ∷ xs) =
      rw (same x) (elim (Bool-cases (starts_with method (text_a x))) [
        | inl e ↦ rw e refl
        | inr e ↦ rw e (first_prefix-map method xs)
      ])
