-- ===== src/Common/Outcome.antt =====
-- Computations of C code: a value, or `fault` where the code has undefined behaviour (an access
-- outside a memory block, signed overflow, a negative size passed to `memcpy`).
use mathlib.Core.Path.{◌≡◌, refl}

pub data Outcome {ℓ} (A : Type ℓ) : Type ℓ where
  done : A → Outcome A
  fault : Outcome A

infixl 5 ◌>>=◌
abbrev pub ◌>>=◌ {ℓ κ} : {A : Type ℓ} {B : Type κ} → Outcome A → (A → Outcome B) → Outcome B
done a >>= f = f a
fault >>= f = fault

-- The run has no undefined behaviour, and its result has the property.
pub data Returns {A : Type 0} (P : A → Type 0) : Outcome A → Type 0 where
  returns : {a : A} → P a → Returns P (done a)

module _ {A : Type 0} {P : A → Type 0} where
  pub Returns-bind :
      {B : Type 0} {Q : B → Type 0} {m : Outcome A} {f : A → Outcome B}
      → Returns P m
      → ((a : A) → P a → Returns Q (f a))
      → Returns Q (m >>= f)
  Returns-bind (returns p) next = next _ p

  pub Returns-mono :
      {Q : A → Type 0} {m : Outcome A} → Returns P m → ((a : A) → P a → Q a) → Returns Q m
  Returns-mono (returns p) weaken = returns (weaken _ p)

  pub Returns-value : {m : Outcome A} → Returns P m → (a : A) × (m ≡ done a) × P a
  Returns-value (returns {a} p) = (a, refl, p)

  pub Returns-at : {m : Outcome A} {a : A} → m ≡ done a → P a → Returns P m
  Returns-at e p = rw e (returns p)

Returns_inv : {A : Type 0} {P : A → Type 0} {a : A} → Returns P (done a) → P a
Returns_inv (returns p) = p

pub Returns-both :
    {A : Type 0} {P Q : A → Type 0} {m : Outcome A}
    → Returns P m
    → Returns Q m
    → Returns (λ a. P a × Q a) m
Returns-both (returns p) q = returns (p, Returns_inv q)
