-- ===== src/Mem/Search.antt =====
-- What `memmem`, `strnlen` and `memcmp` find.
use dpapp.Common.{
  ℕ, zero, suc, ◌+◌, ◌≤◌, ◌<◌, ◌≡◌, ◌≢◌, refl, ap, inl, inr, true, false, none, some, [], ◌∷◌, ◌==◌,
  ==_iff, arith, length, take, drop, Bool-cases, Option-cases, get_elem?,
}
use dpapp.Common.Int.{pos}
use dpapp.Mem.{Block, starts_with, memmem, memcmp, strnlen}

pub starts_with-eq_take : (xs sub : Block) → starts_with xs sub ≡ true → take (length sub) xs ≡ sub
unfolding starts_with
starts_with-eq_take xs [] h = refl
starts_with-eq_take [] (y ∷ sub) h = cc
starts_with-eq_take (x ∷ xs) (y ∷ sub) h = ground (arith, starts_with-eq_take xs sub)

pub starts_with-take : (xs sub : Block) → take (length sub) xs ≡ sub → starts_with xs sub ≡ true
unfolding starts_with
starts_with-take xs [] h = refl
starts_with-take [] (y ∷ sub) h = cc
starts_with-take (x ∷ xs) (y ∷ sub) h = ground (arith, starts_with-take xs sub)

starts_with-le : (xs sub : Block) → starts_with xs sub ≡ true → length sub ≤ length xs
unfolding starts_with
starts_with-le xs [] h = omega arith
starts_with-le [] (y ∷ sub) h = cc
starts_with-le (x ∷ xs) (y ∷ sub) h = ground (arith, starts_with-le xs sub)

-- `sub` stands at position `i` of `xs`.
abbrev pub OccursAt : Block → Block → ℕ → Type 0
OccursAt xs sub i = take (length sub) (drop i xs) ≡ sub

-- `memmem` returns the first position where the needle stands.
pub record IsFirst (xs sub : Block) (i : ℕ) : Type 0 where
  pub occurs : OccursAt xs sub i
  pub first : (j : ℕ) → j < i → ¬ OccursAt xs sub j
  pub inside : i + length sub ≤ length xs

IsFirst-zero : (xs sub : Block) → starts_with xs sub ≡ true → IsFirst xs sub 0
IsFirst-zero xs sub h = record {
  occurs = starts_with-eq_take xs sub h;
  first = λ j lt. absurd (omega arith);
  inside = omega (arith, starts_with-le xs sub h);
}

IsFirst-suc :
    (x : ℕ) (xs sub : Block) {i : ℕ}
    → starts_with (x ∷ xs) sub ≡ false
    → IsFirst xs sub i
    → IsFirst (x ∷ xs) sub (suc i)
IsFirst-suc x xs sub {i} miss f = record {
  occurs = f.occurs;
  first = go;
  inside = omega (arith, f.inside);
}
  where
    go : (j : ℕ) → j < suc i → ¬ OccursAt (x ∷ xs) sub j
    go zero lt o = cc (miss, starts_with-take (x ∷ xs) sub o)
    go (suc j) lt o = f.first j (omega arith) o

pub memmem-IsFirst : (xs sub : Block) {i : ℕ} → memmem xs sub ≡ some i → IsFirst xs sub i
unfolding memmem
memmem-IsFirst [] sub {i} h = elim (Bool-cases (starts_with [] sub)) [
  | inl e ↦ let z : 0 ≡ i = ground arith in rw (← z) (IsFirst-zero [] sub e)
  | inr e ↦ absurd (ground arith)
]
memmem-IsFirst (x ∷ xs) sub {i} h = elim (Bool-cases (starts_with (x ∷ xs) sub)) [
  | inl e ↦ let z : 0 ≡ i = ground arith in rw (← z) (IsFirst-zero (x ∷ xs) sub e)
  | inr e ↦ elim (Option-cases (memmem xs sub)) [
    | inl n ↦ absurd (ground arith)
    | inr (k, ek) ↦
        let z : suc k ≡ i = ground arith in
        rw (← z) (IsFirst-suc x xs sub e (memmem-IsFirst xs sub ek))
  ]
]

-- Without a result the needle stands nowhere.
pub memmem-none :
    (xs sub : Block) → memmem xs sub ≡ none → (i : ℕ) → i ≤ length xs → ¬ OccursAt xs sub i
unfolding memmem
memmem-none [] sub h zero le o = let e = starts_with-take [] sub o in absurd (ground arith)
memmem-none [] sub h (suc i) le o = absurd (omega arith)
memmem-none (x ∷ xs) sub h zero le o =
    let e = starts_with-take (x ∷ xs) sub o in absurd (ground arith)
memmem-none (x ∷ xs) sub h (suc i) le o = elim (Option-cases (memmem xs sub)) [
  | inl n ↦ memmem-none xs sub n i (omega arith) o
  | inr (k, ek) ↦ absurd (ground arith)
]

-- `strnlen` stops at the first 0, or at the end.
pub strnlen-le : (xs : Block) → strnlen xs ≤ length xs
unfolding strnlen
strnlen-le [] = omega arith
strnlen-le (x ∷ xs) = ground (arith, strnlen-le xs)

pub strnlen-stop : (xs : Block) → strnlen xs < length xs → get_elem? xs (strnlen xs) ≡ some 0
unfolding strnlen
strnlen-stop [] h = absurd (omega arith)
strnlen-stop (x ∷ xs) h = elim (Bool-cases (x == 0)) [
  | inl e ↦ let z : x ≡ 0 = (==_iff x 0).0 e in rw e (ap some z)
  | inr e ↦ rw e (strnlen-stop xs (ground arith))
]

pub strnlen-first : (xs : Block) (j : ℕ) → j < strnlen xs → get_elem? xs j ≢ some 0
unfolding strnlen
strnlen-first [] j h = absurd (omega arith)
strnlen-first (x ∷ xs) zero h = ground arith
strnlen-first (x ∷ xs) (suc j) h = strnlen-first xs j (ground arith)

-- `memcmp` of two blocks of one length is 0 exactly where they are equal.
pub memcmp_eq : (xs ys : Block) → length xs ≡ length ys → memcmp xs ys ≡ pos 0 → xs ≡ ys
unfolding memcmp
memcmp_eq [] [] e h = refl
memcmp_eq [] (y ∷ ys) e h = absurd (omega arith)
memcmp_eq (x ∷ xs) [] e h = absurd (omega arith)
memcmp_eq (x ∷ xs) (y ∷ ys) e h = ground (arith, memcmp_eq xs ys (omega arith))

pub memcmp_self : (xs : Block) → memcmp xs xs ≡ pos 0
unfolding memcmp
memcmp_self [] = refl
memcmp_self (x ∷ xs) = ground (arith, memcmp_self xs)
