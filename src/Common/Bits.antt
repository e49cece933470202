-- ===== src/Common/Bits.antt =====
-- Facts about `bit_or` at variables, which `|=` in `_pow_min_value` rests on.
use Prim.Native.Nat.{ℕ, zero, suc, ◌/◌, ◌^◌, ◌≤◌, ◌<◌, max, bit_or, digits, bit_or-bitwise}
use mathlib.Core.Path.{◌≡◌}
use mathlib.Core.Bool.{Bool, true, ◌&&◌}
use native.Mathlib.Nat.{pow-suc}
use native.Mathlib.Omega.{arith}

abbrev or_digits : ℕ → ℕ → ℕ → ℕ
or_digits n a b = digits (λ b. b) max n a b

le-or_digits : (n a b : ℕ) → a ≤ n → (a ≤ or_digits n a b) × (b ≤ or_digits n a b)
le-or_digits zero zero b h = omega arith
le-or_digits zero (suc a) b h = absurd (omega arith)
le-or_digits (suc n) zero b h = omega arith
le-or_digits (suc n) (suc a) b h = omega (arith, le-or_digits n (suc a / 2) (b / 2) (omega arith))

or_digits-lt : (k n a b : ℕ) → a ≤ n → a < 2 ^ k → b < 2 ^ k → or_digits n a b < 2 ^ k
or_digits-lt k zero a b h p q = q
or_digits-lt k (suc n) zero b h p q = q
or_digits-lt zero (suc n) (suc a) b h p q = absurd (omega arith)
or_digits-lt (suc k) (suc n) (suc a) b h p q = omega (
  arith,
  pow-suc 2 k,
  or_digits-lt k n (suc a / 2) (b / 2) (omega arith) (omega (arith, pow-suc 2 k))
      (omega (arith, pow-suc 2 k)),
)

pub le-bit_or : (a b : ℕ) → (a ≤ bit_or a b) × (b ≤ bit_or a b)
le-bit_or a b = omega (arith, bit_or-bitwise a b, le-or_digits a a b (omega arith))

pub bit_or-lt : (k a b : ℕ) → a < 2 ^ k → b < 2 ^ k → bit_or a b < 2 ^ k
bit_or-lt k a b p q = omega (arith, bit_or-bitwise a b, or_digits-lt k a a b (omega arith) p q)

-- Whether a test holds of the numbers k-1, ..., 0.
unfoldable pub every_under : (test : ℕ → Bool) → ℕ → Bool
every_under test zero = true
every_under test (suc k) = every_under test k && test k

pub every_under-elim :
    (test : ℕ → Bool) (k i : ℕ) → every_under test k ≡ true → i < k → test i ≡ true
unfolding every_under
every_under-elim test zero i all below = absurd (omega arith)
every_under-elim test (suc k) i all below = grind (arith, every_under-elim test k i)
