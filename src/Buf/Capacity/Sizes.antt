-- ===== src/Buf/Capacity/Sizes.antt =====
-- `_pow_min_value`: the size that a block grows to.
use dpapp.Common.{
  ℕ, zero, suc, ◌+◌, ◌-◌, ◌*◌, ◌/◌, ◌^◌, ◌≤◌, ◌<◌, ◌≡◌, refl, Bool, true, false, ◌&&◌, ◌==◌, ltb,
  leb, every_under, every_under-elim, arith, bit_and, le-bit_or, bit_or-lt,
}
use dpapp.Common.Outcome.{Outcome, done, fault, Returns, returns, Returns-at}
use dpapp.Buf.Capacity.{smear, pow_min_value}
use native.Mathlib.Nat.{div-le_self}

smear_bounds : (v k m : ℕ) → v < 2 ^ m → (v ≤ smear v k) × (smear v k < 2 ^ m)
smear_bounds v k m h = (
  (le-bit_or v (v / 2 ^ k)).0,
  bit_or-lt m v (v / 2 ^ k) h (omega (arith, div-le_self v (2 ^ k))),
)

smears_bounds :
    (v m : ℕ) → v < 2 ^ m → let w = smear (smear (smear (smear v 1) 2) 4) 8 in (v ≤ w) × (w < 2 ^ m)
smears_bounds v m h =
    let a = smear_bounds v 1 m h in
    let b = smear_bounds (smear v 1) 2 m a.1 in
    let c = smear_bounds (smear (smear v 1) 2) 4 m b.1 in
    let d = smear_bounds (smear (smear (smear v 1) 2) 4) 8 m c.1 in omega arith

-- Up to 2 ^ 30 the increment does not overflow, and the result lies between the argument and
-- 2 ^ 30.
pub pow_min_value_bounds :
    (v : ℕ) → v ≤ 2 ^ 30 → Returns (λ r. (v ≤ r) × (r ≤ 2 ^ 30) × (0 < r)) (pow_min_value v)
unfolding pow_min_value
pow_min_value_bounds zero h = returns (omega arith)
pow_min_value_bounds (suc v) h =
    let w = smear (smear (smear (smear (suc v - 1) 1) 2) 4) 8 in
    let b = smears_bounds (suc v - 1) 30 (omega arith) in
    Returns-at {a = w + 1} (ground arith) (omega arith)

-- The test that a size is the least power of two from `v` on.
abbrev pub LeastPow2 : ℕ → ℕ → Type 0
LeastPow2 v r = (bit_and r (r - 1) ≡ 0) × (v ≤ r) × (r < 2 * v)

is_least_pow2 : ℕ → Bool
is_least_pow2 v = elim (pow_min_value (suc v)) [
  | done r ↦ bit_and r (r - 1) == 0 && leb (suc v) r && ltb r (2 * suc v)
  | fault ↦ false
]

is_least_pow2_sound :
    (v : ℕ) → is_least_pow2 v ≡ true → Returns (LeastPow2 (suc v)) (pow_min_value (suc v))
unfolding is_least_pow2
is_least_pow2_sound v h = go (pow_min_value (suc v)) h
  where
    go :
        (m : Outcome ℕ)
        → (elim m [
          | done r ↦ bit_and r (r - 1) == 0 && leb (suc v) r && ltb r (2 * suc v)
          | fault ↦ false
        ])
          ≡ true
        → Returns (LeastPow2 (suc v)) m
    go (done r) e = returns (ground arith)
    go fault e = cc

table : every_under is_least_pow2 65536 ≡ true
unfolding every_under is_least_pow2 pow_min_value
table = refl

-- From 1 to 2^16 _pow_min_value has no overflow and returns the least power of two that is not
-- below its argument.
pub pow_min_value_least : (v : ℕ) → 0 < v → v ≤ 65536 → Returns (LeastPow2 v) (pow_min_value v)
pow_min_value_least zero p h = absurd (omega arith)
pow_min_value_least (suc v) p h =
    is_least_pow2_sound v (every_under-elim is_least_pow2 65536 v table h)
