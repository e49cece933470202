-- ===== src/Common/Int.antt =====
-- C integers as signed numbers over the native numbers, with the bounds of `int`.
use Prim.Native.Nat.{ℕ, suc, ◌+◌, ◌-◌, ◌^◌, ◌≤◌}
use mathlib.Core.Path.{◌≡◌}
use mathlib.Core.Bool.{Bool, ◌&&◌}
use native.Mathlib.Omega.{arith}
use dpapp.Common.Tests.{ltb, leb, if◌then◌else◌}
use dpapp.Common.Outcome.{Outcome, done, fault}

-- `negsuc n` is -(n + 1).
pub data ℤ : Type 0 where
  pos : ℕ → ℤ
  negsuc : ℕ → ℤ

abbrev pub pos_part : ℤ → ℕ
pos_part (pos n) = n
pos_part (negsuc n) = 0

abbrev pub neg_part : ℤ → ℕ
neg_part (pos n) = 0
neg_part (negsuc n) = suc n

-- a - b, as an integer.
abbrev pub sub_ℕ : ℕ → ℕ → ℤ
sub_ℕ a b = if leb b a then pos (a - b) else negsuc (b - a - 1)

infixl 65 ◌+ℤ◌ ◌-ℤ◌
unfoldable pub ◌+ℤ◌ : ℤ → ℤ → ℤ
a +ℤ b = sub_ℕ (pos_part a + pos_part b) (neg_part a + neg_part b)

unfoldable pub ◌-ℤ◌ : ℤ → ℤ → ℤ
a -ℤ b = sub_ℕ (pos_part a + neg_part b) (neg_part a + pos_part b)

abbrev pub ltb_ℤ : ℤ → ℤ → Bool
ltb_ℤ a b = ltb (pos_part a + neg_part b) (pos_part b + neg_part a)

infix 50 ◌≤ℤ◌
abbrev pub ◌≤ℤ◌ : ℤ → ℤ → Type 0
a ≤ℤ b = pos_part a + neg_part b ≤ pos_part b + neg_part a

abbrev pub min_ℤ : ℤ → ℤ → ℤ
min_ℤ a b = if ltb_ℤ a b then a else b

abbrev pub int_max : ℕ
int_max = 2 ^ 31 - 1

-- The value lies in the range of `int`.
abbrev pub fits_int : ℤ → Bool
fits_int a = leb (pos_part a) int_max && leb (neg_part a) (int_max + 1)

-- `a + b` on `int`: overflow is undefined.
unfoldable pub add_int : ℤ → ℤ → Outcome ℤ
unfolding ◌+ℤ◌
add_int a b = if fits_int (a +ℤ b) then done (a +ℤ b) else fault

-- An `int` used as a position or as the size of a memory operation: a negative one is an access
-- outside every block.
abbrev pub index : ℤ → Outcome ℕ
index (pos n) = done n
index (negsuc n) = fault

pub index-sub_ℕ : (a b : ℕ) → b ≤ a → index (sub_ℕ a b) ≡ done (a - b)
index-sub_ℕ a b h = ground arith

pub add_int-pos : (a b : ℕ) → a + b ≤ int_max → add_int (pos a) (pos b) ≡ done (pos (a + b))
unfolding add_int
add_int-pos a b h = ground arith

pub index-add : (a b : ℕ) → index (pos a +ℤ pos b) ≡ done (a + b)
unfolding ◌+ℤ◌
index-add a b = ground arith

pub index-add_zero : (a : ℕ) → index (pos a +ℤ pos 0) ≡ done a
unfolding ◌+ℤ◌
index-add_zero a = ground arith

pub index-sub_zero : (a b : ℕ) → b ≤ a → index (sub_ℕ a b -ℤ pos 0) ≡ done (a - b)
unfolding ◌-ℤ◌
index-sub_zero a b h = ground arith

pub zero-add_pos : (a : ℕ) → pos 0 +ℤ pos a ≡ pos a
unfolding ◌+ℤ◌
zero-add_pos a = ground arith

pub add_pos : (a b : ℕ) → pos a +ℤ pos b ≡ pos (a + b)
unfolding ◌+ℤ◌
add_pos a b = ground arith
