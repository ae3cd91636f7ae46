-- ===== src/Base/Results.antt =====
-- What a call of the program comes to: a value, or a panic (a failed `assert!`, an `unwrap` of
-- nothing, an explicit `panic!`).
use mathlib.Core.Path.{◌≡◌, refl, ap}
use mathlib.Core.Bool.{Bool, true, false}
use mathlib.Core.Option.{Option, none, some}
use native.Mathlib.Omega.{arith}

pub data Outcome {ℓ} (A : Type ℓ) : Type ℓ where
  returns : A → Outcome A
  panics : Outcome A

infixl 5 ◌>>=◌ ◌>>◌
abbrev pub ◌>>=◌ {ℓ κ} : {A : Type ℓ} {B : Type κ} → Outcome A → (A → Outcome B) → Outcome B
returns a >>= f = f a
panics >>= f = panics

abbrev pub ◌>>◌ {ℓ} : {B : Type ℓ} → Outcome (Unit {0}) → Outcome B → Outcome B
m >> k = m >>= λ _. k

abbrev pub assert : Bool → Outcome (Unit {0})
assert true = returns tt
assert false = panics

abbrev pub unwrap {ℓ} : {A : Type ℓ} → Option A → Outcome A
unwrap (some a) = returns a
unwrap none = panics

abbrev pub is_panic {ℓ} : {A : Type ℓ} → Outcome A → Bool
is_panic (returns a) = false
is_panic panics = true

abbrev pub is_none {ℓ} : {A : Type ℓ} → Option A → Bool
is_none (some a) = false
is_none none = true

pub is_panic-bind {ℓ κ} :
    {A : Type ℓ} {B : Type κ} (o : Outcome A) (f : A → B)
    → is_panic (o >>= λ a. returns (f a)) ≡ is_panic o
is_panic-bind (returns a) f = refl
is_panic-bind panics f = refl

returned_or {ℓ} : {A : Type ℓ} → A → Outcome A → A
returned_or other (returns a) = a
returned_or other panics = other

pub returned {ℓ} : {A : Type ℓ} {a b : A} → returns a ≡ returns b → a ≡ b
unfolding returned_or
returned {a = a} e = ap (returned_or a) e

-- A chain returns only if its first part does.
pub bind-returns {ℓ κ} :
    {A : Type ℓ} {B : Type κ} (o : Outcome A) (f : A → Outcome B) (b : B)
    → (o >>= f) ≡ returns b
    → (a : A) × (o ≡ returns a) × (f a ≡ returns b)
bind-returns (returns a) f b e = (a, refl, e)
bind-returns panics f b e = absurd (ground (arith, e))
