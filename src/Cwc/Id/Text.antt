-- ===== src/Cwc/Id/Text.antt =====
-- The text of a number can be read back.
use dpapp.Common.{
  ℕ, zero, suc, ◌+◌, ◌*◌, ◌/◌, ◌%◌, ◌^◌, ◌<◌, ◌≡◌, refl, sym, ap, ◌∙◌, some, List, [], ◌∷◌, ◌++◌,
  ltb, arith, Bool-cases, inl, inr, length, take, replicate, take-of_length_le, length-append,
  length-replicate,
}
use dpapp.Cwc.Id.{base62_char, fill, to_base62, digit, parse, to_uint64}

digit-base62_char : (d : ℕ) → d < 62 → digit (base62_char d) ≡ some d
unfolding digit base62_char
digit-base62_char d h = ground arith

-- A zero in front changes nothing.
parse-zeros : (n : ℕ) (out : List ℕ) → parse (replicate n 48 ++ out) 0 ≡ parse out 0
unfolding parse digit
parse-zeros zero out = refl
parse-zeros (suc n) out = parse-zeros n out

parse-digit :
    (d v : ℕ) (out : List ℕ)
    → d < 62
    → v * 62 + d < 2 ^ 64
    → parse (base62_char d ∷ out) v ≡ parse out (v * 62 + d)
unfolding parse
parse-digit d v out h k =
    let e : (v * 62 + d) % 2 ^ 64 ≡ v * 62 + d = omega arith in rw (digit-base62_char d h, e)

parse-fill :
    (n v : ℕ) (out : List ℕ) → v < 62 ^ n → v < 2 ^ 64 → parse (fill n v out) 0 ≡ parse out v
unfolding fill
parse-fill zero v out h k = let e : v ≡ 0 = omega arith in rw e
parse-fill (suc n) v out h k = elim (Bool-cases (ltb 0 v)) [
  | inl e ↦
      let back : v / 62 * 62 + v % 62 ≡ v = omega arith in
      rw e (
        parse-fill n (v / 62) (base62_char (v % 62) ∷ out) (omega arith) (omega arith)
        ∙ parse-digit (v % 62) (v / 62) out (omega arith) (omega arith)
        ∙ ap (parse out) back)
  | inr e ↦
      let z : v ≡ 0 = ground (arith, e) in rw e (parse-zeros (suc n) out ∙ ap (parse out) (sym z))
]

length-fill : (n v : ℕ) (out : List ℕ) → length (fill n v out) ≡ n + length out
unfolding fill
length-fill zero v out = omega arith
length-fill (suc n) v out = elim (Bool-cases (ltb 0 v)) [
  | inl e ↦ rw (e, length-fill n (v / 62) (base62_char (v % 62) ∷ out)) (omega arith)
  | inr e ↦ rw (e, length-append (replicate (suc n) 48) out, length-replicate {A = ℕ} (suc n) 48)
]

-- Dpcwc_id_2str writes 11 characters for an identifier, and dpcwc_id_2u64 reads the identifier
-- back from them.
pub to_uint64-to_base62 :
    (id : ℕ) → id < 2 ^ 64 → (to_uint64 (some (to_base62 id)) ≡ id) × (length (to_base62 id) ≡ 11)
unfolding to_uint64 to_base62 parse
to_uint64-to_base62 id h =
    let l : length (fill 11 id []) ≡ 11 = length-fill 11 id [] in
    let t : take 11 (fill 11 id []) ≡ fill 11 id [] = take-of_length_le 11 _ (omega (arith, l)) in
    (rw t (parse-fill 11 id [] (omega arith) h), l)
