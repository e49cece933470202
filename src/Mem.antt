-- ===== src/Mem.antt =====
-- Memory blocks of C as lists of bytes, the accesses of `memcpy`, `memmove` and `memset` to them,
-- and the routines of libc that lib/dpapp/dpbuf.c calls on them.
pub mod Search
pub mod Slice
use dpapp.Common.{
  ℕ, zero, suc, ◌+◌, ◌≡◌, Bool, true, false, ◌&&◌, Option, none, some, List, [], ◌∷◌, ◌==◌, ltb,
  leb, if◌then◌else◌, length, take, drop, min,
}
use dpapp.Common.Int.{ℤ, pos, negsuc}
use dpapp.Common.Outcome.{Outcome, done, fault}

abbrev pub Block : Type 0
Block = List ℕ

-- `n` bytes from position `i`.
abbrev pub slice : Block → ℕ → ℕ → Block
slice xs i n = take n (drop i xs)

-- The block with `ys` written over its front.
unfoldable pub overwrite : Block → Block → Block
overwrite [] xs = xs
overwrite (y ∷ ys) [] = []
overwrite (y ∷ ys) (x ∷ xs) = y ∷ overwrite ys xs

-- The block with `ys` written from position `i` on.
unfoldable pub splice : Block → ℕ → Block → Block
unfolding overwrite
splice xs zero ys = overwrite ys xs
splice [] (suc i) ys = []
splice (x ∷ xs) (suc i) ys = x ∷ splice xs i ys

-- A read or a write that does not lie inside the block is undefined.
unfoldable pub read_at : Block → ℕ → ℕ → Outcome Block
read_at xs i n = if leb (i + n) (length xs) then done (slice xs i n) else fault

unfoldable pub write_at : Block → ℕ → Block → Outcome Block
write_at xs i ys = if leb (i + length ys) (length xs) then done (splice xs i ys) else fault

-- `malloc` and `realloc`: any functions, which may fail, that return a block of the size asked for
-- and keep the bytes that both blocks have room for. Whether the two structures of a buffer can be
-- allocated is said by the first two fields.
pub record Alloc : Type 0 where
  pub malloc_buf : Bool
  pub malloc_data : Bool
  pub malloc : ℕ → Option Block
  pub realloc : Block → ℕ → Option Block
  pub length-malloc : (n : ℕ) (ys : Block) → malloc n ≡ some ys → length ys ≡ n
  pub length-realloc : (xs : Block) (n : ℕ) (ys : Block) → realloc xs n ≡ some ys → length ys ≡ n
  pub take-realloc :
      (xs : Block) (n : ℕ) (ys : Block)
      → realloc xs n ≡ some ys
      → take (min n (length xs)) ys ≡ take (min n (length xs)) xs

-- `memcmp` on two blocks of one length. The C standard fixes the sign of the result only.
unfoldable pub memcmp : Block → Block → ℤ
memcmp (x ∷ xs) (y ∷ ys) =
    let rest = memcmp xs ys in if x == y then rest else if ltb x y then negsuc 0 else pos 1
memcmp _ _ = pos 0

unfoldable pub starts_with : Block → Block → Bool
starts_with xs [] = true
starts_with [] (y ∷ ys) = false
starts_with (x ∷ xs) (y ∷ ys) = (x == y) && starts_with xs ys

-- The position of the first occurrence.
unfoldable pub memmem : Block → Block → Option ℕ
unfolding starts_with
memmem [] sub = if starts_with [] sub then some 0 else none
memmem (x ∷ xs) sub =
    let rest = memmem xs sub in
    if starts_with (x ∷ xs) sub then some 0 else elim rest [ none ↦ none | some i ↦ some (suc i) ]

-- The number of bytes before the first 0, at most all of them.
unfoldable pub strnlen : Block → ℕ
strnlen [] = 0
strnlen (x ∷ xs) = let rest = strnlen xs in if x == 0 then 0 else suc rest

-- `strlen`: without a 0 in the block it reads past the end.
unfoldable pub strlen : Block → Outcome ℕ
unfolding strnlen
strlen xs = if ltb (strnlen xs) (length xs) then done (strnlen xs) else fault
