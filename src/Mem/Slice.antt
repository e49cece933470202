-- ===== src/Mem/Slice.antt =====
-- What the slices of a block are after a write and after a reallocation.
use dpapp.Common.{
  ℕ, zero, suc, ◌+◌, ◌-◌, ◌≤◌, ◌≡◌, refl, sym, ap, ◌∙◌, [], ◌∷◌, ◌++◌, arith, length, take, drop,
  length-take, length-drop, take-add, take-take, drop-drop, drop-take, le→leb,
}
use mathlib.Core.Path.{ap₂}
use dpapp.Common.Outcome.{done}
use dpapp.Mem.{Block, slice, overwrite, splice, read_at, write_at}

pub length-slice : (xs : Block) (i n : ℕ) → i + n ≤ length xs → length (slice xs i n) ≡ n
length-slice xs i n h = omega (arith, length-take n (drop i xs), length-drop i xs)

pub slice-add : (xs : Block) (i n m : ℕ) → slice xs i (n + m) ≡ slice xs i n ++ slice xs (i + n) m
slice-add xs i n m =
    take-add n m (drop i xs) ∙ ap (λ z. take n (drop i xs) ++ take m z) (drop-drop n i xs)

pub slice-slice :
    (xs : Block) (i n j m : ℕ) → j + m ≤ n → slice (slice xs i n) j m ≡ slice xs (i + j) m
slice-slice xs i n j m h =
    ap (take m) (drop-take j n (drop i xs))
    ∙ take-take m (n - j) (drop j (drop i xs)) (omega arith)
    ∙ ap (take m) (drop-drop j i xs)

length-overwrite : (ys xs : Block) → length (overwrite ys xs) ≡ length xs
unfolding overwrite
length-overwrite [] xs = refl
length-overwrite (y ∷ ys) [] = refl
length-overwrite (y ∷ ys) (x ∷ xs) = ap suc (length-overwrite ys xs)

pub length-splice : (xs : Block) (i : ℕ) (ys : Block) → length (splice xs i ys) ≡ length xs
unfolding splice
length-splice xs zero ys = length-overwrite ys xs
length-splice [] (suc i) ys = refl
length-splice (x ∷ xs) (suc i) ys = ap suc (length-splice xs i ys)

take-overwrite : (ys xs : Block) → length ys ≤ length xs → take (length ys) (overwrite ys xs) ≡ ys
unfolding overwrite
take-overwrite [] xs h = refl
take-overwrite (y ∷ ys) [] h = absurd (omega arith)
take-overwrite (y ∷ ys) (x ∷ xs) h = ap (◌∷◌ y) (take-overwrite ys xs (omega arith))

-- What a write puts into a block is what is read back.
pub slice-splice_self :
    (xs : Block) (i : ℕ) (ys : Block)
    → i + length ys ≤ length xs
    → slice (splice xs i ys) i (length ys) ≡ ys
unfolding splice
slice-splice_self xs zero ys h = take-overwrite ys xs (omega arith)
slice-splice_self [] (suc i) ys h = absurd (omega arith)
slice-splice_self (x ∷ xs) (suc i) ys h = slice-splice_self xs i ys (omega arith)

take-splice :
    (xs : Block) (i : ℕ) (ys : Block) (n : ℕ) → n ≤ i → take n (splice xs i ys) ≡ take n xs
unfolding splice
take-splice xs i ys zero h = refl
take-splice xs zero ys (suc n) h = absurd (omega arith)
take-splice [] (suc i) ys (suc n) h = refl
take-splice (x ∷ xs) (suc i) ys (suc n) h = ap (◌∷◌ x) (take-splice xs i ys n (omega arith))

pub slice-take : (xs : Block) (k i n : ℕ) → i + n ≤ k → slice (take k xs) i n ≡ slice xs i n
slice-take xs k i n h =
    ap (take n) (drop-take i k xs) ∙ take-take n (k - i) (drop i xs) (omega arith)

-- Two blocks with one beginning have the slices in it in common.
pub slice-eq_of_take :
    (xs ys : Block) (k i n : ℕ) → take k xs ≡ take k ys → i + n ≤ k → slice xs i n ≡ slice ys i n
slice-eq_of_take xs ys k i n e h =
    sym (slice-take xs k i n h) ∙ ap (λ z. slice z i n) e ∙ slice-take ys k i n h

-- A write leaves what stands before it.
pub slice-splice_before :
    (xs : Block) (j : ℕ) (ys : Block) (i n : ℕ)
    → i + n ≤ j
    → slice (splice xs j ys) i n ≡ slice xs i n
slice-splice_before xs j ys i n h =
    slice-eq_of_take (splice xs j ys) xs j i n (take-splice xs j ys j (omega arith)) h

-- In bounds, the accesses are defined.
pub read_at-done : (xs : Block) (i n : ℕ) → i + n ≤ length xs → read_at xs i n ≡ done (slice xs i n)
unfolding read_at
read_at-done xs i n h = rw (le→leb _ _ h)

pub write_at-done :
    (xs : Block) (i : ℕ) (ys : Block)
    → i + length ys ≤ length xs
    → write_at xs i ys ≡ done (splice xs i ys)
unfolding write_at
write_at-done xs i ys h = rw (le→leb _ _ h)

-- What a write to the front put there is read back in parts.
pub slice-splice_front :
    (xs ys : Block) (j m : ℕ)
    → j + m ≤ length ys
    → length ys ≤ length xs
    → slice (splice xs 0 ys) j m ≡ slice ys j m
slice-splice_front xs ys j m h k =
    sym (slice-take (splice xs 0 ys) (length ys) j m h)
    ∙ ap (λ z. slice z j m) (slice-splice_self xs 0 ys (omega arith))

pub slice_at : (xs : Block) (i j n m : ℕ) → i ≡ j → n ≡ m → slice xs i n ≡ slice xs j m
slice_at xs i j n m p q = rw (p, q)

-- A write at the end of a slice makes it longer.
pub slice-splice_end :
    (xs : Block) (i j : ℕ) (ys : Block)
    → i ≤ j
    → j + length ys ≤ length xs
    → slice (splice xs j ys) i (j + length ys - i) ≡ slice xs i (j - i) ++ ys
slice-splice_end xs i j ys h k =
    slice_at (splice xs j ys) i i (j + length ys - i) (j - i + length ys) refl (omega arith)
    ∙ slice-add (splice xs j ys) i (j - i) (length ys)
    ∙ ap₂ ◌++◌ (slice-splice_before xs j ys i (j - i) (omega arith)) (
        slice_at (splice xs j ys) (i + (j - i)) j (length ys) (length ys) (omega arith) refl
        ∙ slice-splice_self xs j ys k)

-- The same for the front of what is written.
pub slice-splice_part :
    (xs : Block) (i j : ℕ) (ys : Block) (m : ℕ)
    → i ≤ j
    → j + length ys ≤ length xs
    → m ≤ length ys
    → slice (splice xs j ys) i (j + m - i) ≡ slice xs i (j - i) ++ take m ys
slice-splice_part xs i j ys m h k le =
    let whole = splice xs j ys in
    slice_at whole i i (j + m - i) (j - i + m) refl (omega arith)
    ∙ slice-add whole i (j - i) m
    ∙ ap₂ ◌++◌ (slice-splice_before xs j ys i (j - i) (omega arith)) (
        slice_at whole (i + (j - i)) j m m (omega arith) refl
        ∙ sym (take-take m (length ys) (drop j whole) le)
        ∙ ap (take m) (slice-splice_self xs j ys k))
