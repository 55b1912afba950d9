-- ===== src/Prelude/Maps.antt =====
-- Go's `map[string]V` as an association list with one entry to a key.

use Prim.Native.String.{String}
use mathlib.Core.Path.{◌≡◌, refl, sym, subst, ◌∙◌}
use mathlib.Core.Logic.{inl, inr}
use mathlib.Core.Option.{Option, none, some}
use mathlib.Core.List.{List, [], ◌∷◌}
use native.Mathlib.Omega.{arith}
use text.Mathlib.Text.{◌==◌}
use text.Mathlib.TextEquality.{eq_iff}
use grpc_api_gateway_session.Prelude.Tests.{if◌then◌else◌, Bool-cases}
use grpc_api_gateway_session.Prelude.Lists.{All}

module _ {ℓ} {V : Type ℓ} where
  unfoldable pub lookup : String → List (String × V) → Option V
  lookup key [] = none
  lookup key ((head, value) ∷ rest) = if head == key then some value else lookup key rest

  -- `m[key] = value`
  unfoldable pub insert : String → V → List (String × V) → List (String × V)
  insert key value [] = (key, value) ∷ []
  insert key value ((head, held) ∷ rest) =
      if head == key then (key, value) ∷ rest else (head, held) ∷ insert key value rest

  -- `delete(m, key)`
  unfoldable pub delete : String → List (String × V) → List (String × V)
  delete key [] = []
  delete key ((head, held) ∷ rest) =
      let kept = delete key rest in if head == key then kept else (head, held) ∷ kept

  -- No key stands twice.
  abbrev pub HasUniqueKeys : List (String × V) → Type ℓ
  HasUniqueKeys [] = Unit
  HasUniqueKeys ((key, value) ∷ rest) = (lookup key rest ≡ none) × HasUniqueKeys rest

  pub lookup-insert :
      (key asked : String) (value : V) (rest : List (String × V))
      → lookup asked (insert key value rest)
        ≡ (if key == asked then some value else lookup asked rest)
  unfolding lookup insert
  lookup-insert key asked value [] = refl
  lookup-insert key asked value ((head, held) ∷ rest) = ground (
    arith,
    eq_iff key asked,
    eq_iff head key,
    eq_iff head asked,
    lookup-insert key asked value rest,
  )

  pub lookup-delete :
      (key asked : String) (rest : List (String × V))
      → lookup asked (delete key rest) ≡ (if key == asked then none else lookup asked rest)
  unfolding lookup delete
  lookup-delete key asked [] = ground arith
  lookup-delete key asked ((head, held) ∷ rest) =
      ground
        (arith, eq_iff key asked, eq_iff head key, eq_iff head asked, lookup-delete key asked rest)

  pub insert-HasUniqueKeys :
      (key : String) (value : V) (rest : List (String × V))
      → HasUniqueKeys rest
      → HasUniqueKeys (insert key value rest)
  unfolding lookup insert
  insert-HasUniqueKeys key value [] u = (refl, tt)
  insert-HasUniqueKeys key value ((head, held) ∷ rest) (fresh, u) = ground (
    arith,
    eq_iff head key,
    eq_iff key head,
    lookup-insert key head value rest,
    insert-HasUniqueKeys key value rest u,
  )

  pub delete-HasUniqueKeys :
      (key : String) (rest : List (String × V))
      → HasUniqueKeys rest
      → HasUniqueKeys (delete key rest)
  unfolding delete
  delete-HasUniqueKeys key [] u = tt
  delete-HasUniqueKeys key ((head, held) ∷ rest) (fresh, u) =
      ground (arith, eq_iff key head, lookup-delete key head rest, delete-HasUniqueKeys key rest u)

  -- What holds of every entry that is found holds of every entry.
  pub All-lookup {κ} :
      (P : String → V → Type κ) (m : List (String × V))
      → HasUniqueKeys m
      → ((key : String) (value : V) → lookup key m ≡ some value → P key value)
      → All (λ (e : String × V). P e.0 e.1) m
  unfolding lookup
  All-lookup P [] u h = tt
  All-lookup P ((key, value) ∷ rest) (fresh, u) h = (
    h key value (ground (arith, eq_iff key key)),
    All-lookup P rest u λ k v e. h k v (elim (Bool-cases (key == k)) [
      | inl p ↦ absurd (cc (sym (rw ((eq_iff key k).0 p) at fresh) ∙ e))
      | inr p ↦ rw p e
    ]),
  )

  -- A key that is found is found after every insertion.
  pub insert-found :
      (key asked : String) (value : V) (m : List (String × V)) {held : V}
      → lookup asked m ≡ some held
      → (v : V) × (lookup asked (insert key value m) ≡ some v)
  insert-found key asked value m {held} h = elim (Bool-cases (key == asked)) [
    | inl p ↦ (value, rw (lookup-insert key asked value m, p) refl)
    | inr p ↦ (held, rw (lookup-insert key asked value m, p) h)
  ]

  pub lookup-insert_self :
      (key : String) (value : V) (m : List (String × V))
      → lookup key (insert key value m) ≡ some value
  lookup-insert_self key value m = ground (arith, lookup-insert key key value m, eq_iff key key)

  pub lookup-All {κ} :
      (P : String → Type κ) (key : String) (m : List (String × V)) {held : V}
      → lookup key m ≡ some held
      → All (λ (e : String × V). P e.0) m
      → P key
  unfolding lookup
  lookup-All P key [] h all = absurd (cc)
  lookup-All P key ((head, value) ∷ rest) h (p, all) = elim (Bool-cases (head == key)) [
    | inl e ↦ subst P ((eq_iff head key).0 e) p
    | inr e ↦ lookup-All P key rest (rw e at h) all
  ]
