-- ===== src/RouteMatcher/Sorting.antt =====
-- The sort by length: it keeps the elements, and of those that fit a method the first is longest.
use Prim.Native.String.{len}
use text.Mathlib.Text.{starts_with}
use mathlib.Core.Option.{some-injective}
use grpc_api_gateway_session.Prelude.{
  ℕ, ◌≤◌, ◌≡◌, inl, inr, String, true, false, none, some, List, [], ◌∷◌, ltb, All, arith,
  Bool-cases, subst, All-weaken,
}
use grpc_api_gateway_session.RouteMatcher.{insert_by_len, sort_from, sort_by_len, first_prefix}

module _ {A : Type 0} (text : A → String) where
  insert-All :
      (P : A → Type 0) (x : A) (ys : List A) → P x → All P ys → All P (insert_by_len text x ys)
  unfolding insert_by_len
  insert-All P x [] px h = (px, tt)
  insert-All P x (y ∷ ys) px (py, h) = elim (Bool-cases (ltb (len (text y)) (len (text x)))) [
    | inl e ↦ rw e (px, (py, h))
    | inr e ↦ rw e (py, insert-All P x ys px h)
  ]

  All-insert :
      (P : A → Type 0) (x : A) (ys : List A) → All P (insert_by_len text x ys) → P x × All P ys
  unfolding insert_by_len
  All-insert P x [] h = (h.0, tt)
  All-insert P x (y ∷ ys) h = elim (Bool-cases (ltb (len (text y)) (len (text x)))) [
    | inl e ↦ (rw e at h)
    | inr e ↦
        let (py, rest) : P y × All P (insert_by_len text x ys) = rw e at h in
        let (px, pys) = All-insert P x ys rest in (px, (py, pys))
  ]

  sort_from-All :
      (P : A → Type 0) (sorted xs : List A)
      → All P sorted
      → All P xs
      → All P (sort_from text sorted xs)
  unfolding sort_from
  sort_from-All P sorted [] h k = h
  sort_from-All P sorted (x ∷ xs) h (px, k) =
      sort_from-All P (insert_by_len text x sorted) xs (insert-All P x sorted px h) k

  All-sort_from :
      (P : A → Type 0) (sorted xs : List A)
      → All P (sort_from text sorted xs)
      → All P sorted × All P xs
  unfolding sort_from
  All-sort_from P sorted [] h = (h, tt)
  All-sort_from P sorted (x ∷ xs) h =
      let (s, pxs) = All-sort_from P (insert_by_len text x sorted) xs h in
      let (px, ps) = All-insert P x sorted s in (ps, (px, pxs))

  -- What holds of every element holds of every element of the sorted list, and conversely.
  pub All-sort_by_len : (P : A → Type 0) (xs : List A) → All P (sort_by_len text xs) → All P xs
  unfolding sort_by_len
  All-sort_by_len P xs h = (All-sort_from P [] xs h).1

  pub sort_by_len-All : (P : A → Type 0) (xs : List A) → All P xs → All P (sort_by_len text xs)
  unfolding sort_by_len
  sort_by_len-All P xs h = sort_from-All P [] xs tt h

  -- No element is longer than one before it.
  abbrev pub IsSorted : List A → Type 0
  IsSorted [] = Unit
  IsSorted (x ∷ xs) = All (λ y. len (text y) ≤ len (text x)) xs × IsSorted xs

  All-shorter :
      (m n : ℕ) (xs : List A)
      → m ≤ n
      → All (λ y. len (text y) ≤ m) xs
      → All (λ y. len (text y) ≤ n) xs
  All-shorter m n [] h k = tt
  All-shorter m n (x ∷ xs) h (p, k) = (omega arith, All-shorter m n xs h k)

  insert-IsSorted : (x : A) (ys : List A) → IsSorted ys → IsSorted (insert_by_len text x ys)
  unfolding insert_by_len
  insert-IsSorted x [] s = (tt, tt)
  insert-IsSorted x (y ∷ ys) (below, s) = elim (Bool-cases (ltb (len (text y)) (len (text x)))) [
    | inl e ↦ rw e (
      (ground arith, All-shorter (len (text y)) (len (text x)) ys (ground arith) below),
      (below, s),
    )
    | inr e ↦ rw e (
      insert-All (λ z. len (text z) ≤ len (text y)) x ys (ground arith) below,
      insert-IsSorted x ys s,
    )
  ]

  sort_from-IsSorted : (sorted xs : List A) → IsSorted sorted → IsSorted (sort_from text sorted xs)
  unfolding sort_from
  sort_from-IsSorted sorted [] s = s
  sort_from-IsSorted sorted (x ∷ xs) s =
      sort_from-IsSorted (insert_by_len text x sorted) xs (insert-IsSorted x sorted s)

  pub sort_by_len-IsSorted : (xs : List A) → IsSorted (sort_by_len text xs)
  unfolding sort_by_len
  sort_by_len-IsSorted xs = sort_from-IsSorted [] xs tt

  -- The first fit of a sorted list fits, and no fit is longer.
  abbrev pub IsLongestFit : String → A → List A → Type 0
  IsLongestFit method r xs =
      (starts_with method (text r) ≡ true)
      × All (λ y. starts_with method (text y) ≡ true → len (text y) ≤ len (text r)) xs

  same_head :
      (method : String) (x r : A) (xs : List A)
      → starts_with method (text x) ≡ true
      → first_prefix text method (x ∷ xs) ≡ some r
      → x ≡ r
  unfolding first_prefix
  same_head method x r xs fits e = some-injective x r (rw (fits, first_prefix) at e)

  pub first_prefix-IsLongestFit :
      (method : String) (r : A) (xs : List A)
      → IsSorted xs
      → first_prefix text method xs ≡ some r
      → IsLongestFit method r xs
  unfolding first_prefix
  first_prefix-IsLongestFit method r [] s e = cc
  first_prefix-IsLongestFit method r (x ∷ xs) (below, s) e =
      elim (Bool-cases (starts_with method (text x))) [
        | inl fits ↦
            subst (λ q. IsLongestFit method q (x ∷ xs)) (same_head method x r xs fits e)
              (fits, ((λ _. omega arith), All-weaken (λ y le _. le) xs below))
        | inr misses ↦
            let (here, longest) =
              first_prefix-IsLongestFit method r xs s (rw (misses, first_prefix) at e) in
            (here, ((λ h. cc), longest))
      ]

  pub first_prefix-All :
      (P : A → Type 0) (method : String) (r : A) (xs : List A)
      → All P xs
      → first_prefix text method xs ≡ some r
      → P r
  unfolding first_prefix
  first_prefix-All P method r [] h e = cc
  first_prefix-All P method r (x ∷ xs) (px, h) e = elim (Bool-cases (starts_with method (text x))) [
    | inl fits ↦ subst P (same_head method x r xs fits e) px
    | inr misses ↦ first_prefix-All P method r xs h (rw (misses, first_prefix) at e)
  ]

  pub first_prefix-none :
      (method : String) (xs : List A)
      → first_prefix text method xs ≡ none
      → All (λ y. starts_with method (text y) ≡ false) xs
  unfolding first_prefix
  first_prefix-none method [] e = tt
  first_prefix-none method (x ∷ xs) e = (ground arith, first_prefix-none method xs (ground arith))
