-- ===== src/Prelude/Results.antt =====
-- A Go result `(value, error)`: one of the two.
use mathlib.Core.Path.{◌≡◌, refl, subst}
use mathlib.Core.Logic.{◌⊎◌, inl, inr}

pub data Result {ℓ κ} (E : Type κ) (A : Type ℓ) : Type (ℓ ⊔ κ) where
  ok : A → Result E A
  err : E → Result E A

infixl 5 ◌>>=◌
abbrev pub ◌>>=◌ {ℓ κ μ} :
    {E : Type μ} {A : Type ℓ} {B : Type κ} → Result E A → (A → Result E B) → Result E B
ok a >>= f = f a
err e >>= f = err e

pub Result-cases {ℓ κ} :
    {E : Type κ} {A : Type ℓ} (r : Result E A) → ((e : E) × (r ≡ err e)) ⊎ ((a : A) × (r ≡ ok a))
Result-cases (err e) = inl (e, refl)
Result-cases (ok a) = inr (a, refl)

pub bind-eq-ok {ℓ κ μ} :
    {E : Type μ} {A : Type ℓ} {B : Type κ} (m : Result E A) (f : A → Result E B) (b : B)
    → (m >>= f) ≡ ok b
    → (a : A) × (m ≡ ok a) × (f a ≡ ok b)
bind-eq-ok (ok a) f b h = (a, refl, h)
bind-eq-ok (err e) f b h = cc

-- A property of what a computation returns, if it returns something.
abbrev pub Holds {ℓ κ μ} : {E : Type κ} {A : Type ℓ} → (A → Type μ) → Result E A → Type μ
Holds P (ok a) = P a
Holds P (err e) = Unit

pub bind-Holds {ℓ κ μ ν} :
    {E : Type ν} {A : Type ℓ} {B : Type κ} (P : B → Type μ) (m : Result E A) (f : A → Result E B)
    → ((a : A) → m ≡ ok a → Holds P (f a))
    → Holds P (m >>= f)
bind-Holds P (ok a) f h = h a refl
bind-Holds P (err e) f h = tt

pub Holds-ok {ℓ κ μ} :
    {E : Type κ} {A : Type ℓ} (P : A → Type μ) {r : Result E A} {a : A} → r ≡ ok a → Holds P r → P a
Holds-ok P e h = subst (Holds P) e h

pub Holds-weaken {ℓ κ μ ν} :
    {E : Type κ} {A : Type ℓ} {P : A → Type μ} {Q : A → Type ν}
    → ((a : A) → P a → Q a)
    → (r : Result E A) → Holds P r
    → Holds Q r
Holds-weaken f (ok a) h = f a h
Holds-weaken f (err e) h = tt

pub ok-injective {ℓ κ} :
    {E : Type κ} {A : Type ℓ} {a b : A} → ◌≡◌ {A = Result E A} (ok a) (ok b) → a ≡ b
ok-injective h = cc
