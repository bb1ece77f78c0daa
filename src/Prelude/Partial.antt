-- ===== src/Prelude/Partial.antt =====
-- Code that may panic: `none` is the panic.
use pokecatch.Prelude.{◌≡◌, Option, none, some}

infixl 5 ◌>>=◌
abbrev pub ◌>>=◌ {ℓ κ} : {A : Type ℓ} {B : Type κ} → Option A → (A → Option B) → Option B
none >>= f = none
some a >>= f = f a

-- The code does not panic, and its value satisfies `P`.
abbrev pub Returns {ℓ κ} : {A : Type ℓ} → (A → Type κ) → Option A → Type (ℓ ⊔ κ)
Returns {A} P o = (a : A) × (o ≡ some a) × P a

module _ {ℓ κ μ} {A : Type ℓ} {B : Type κ} where
  pub Returns-bind :
      {P : A → Type μ} {Q : B → Type μ} (o : Option A) (f : A → Option B)
      → Returns P o
      → ((a : A) → P a → Returns Q (f a))
      → Returns Q (o >>= f)
  Returns-bind o f (a, e, p) k = let (b, e', q) = k a p in (b, rw (e, ◌>>=◌) e', q)
