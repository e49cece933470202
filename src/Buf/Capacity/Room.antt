-- ===== src/Buf/Capacity/Room.antt =====
-- `_dpbuf_data_resize` and `_dpbuf_resize`: no access outside the block, and the bytes that are in
-- use stay.
use dpapp.Common.{
  ℕ, ◌+◌, ◌^◌, ◌≤◌, ◌<◌, min, ◌≡◌, refl, ◌∙◌, inl, inr, Bool, true, false, ◌||◌, [], ◌∷◌, arith,
  length, ltb, leb, ltb→lt, Bool-cases, Option-cases,
}
use dpapp.Common.Int.{pos, int_max}
use dpapp.Common.Outcome.{Returns, returns, Returns-bind}
use dpapp.Mem.{Alloc, slice, splice}
use dpapp.Mem.Slice.{length-splice, slice-splice_before, slice-eq_of_take, write_at-done}
use dpapp.Buf.{Data, constdata, has_flag, dpbuf_max_size}
use dpapp.Buf.Capacity.{data_grow, data_resize}
use dpapp.Buf.Capacity.Sizes.{pow_min_value_bounds}

-- `d'` has room for `n` bytes and a 0 behind them, and the first `n` bytes of `d`.
pub record Fits (d : Data) (n : ℕ) (d' : Data) : Type 0 where
  pub room : n < length d'.bytes
  pub maxs_room : d'.maxs ≤ length d'.bytes
  pub same_flag : d'.flag ≡ d.flag
  pub same_refc : d'.refc ≡ d.refc
  pub kept : (i k : ℕ) → i + k ≤ n → i + k ≤ length d.bytes → slice d'.bytes i k ≡ slice d.bytes i k

abbrev pub Resized : Data → ℕ → Bool × Data → Type 0
Resized d n (true, d') = Fits d n d'
Resized d n (false, d') = d' ≡ d

shrink-Fits :
    (d : Data) (n : ℕ)
    → d.maxs ≤ length d.bytes
    → n < length d.bytes
    → Fits d n (record d { bytes = splice d.bytes n (0 ∷ []) })
shrink-Fits d n m h = record {
  room = omega (arith, length-splice d.bytes n (0 ∷ []));
  maxs_room = omega (arith, length-splice d.bytes n (0 ∷ []));
  same_flag = refl;
  same_refc = refl;
  kept = λ i k p q. slice-splice_before d.bytes n (0 ∷ []) i k p;
}

module _ (env : Alloc) where
  data_grow-Resized :
      (d : Data) (n newsz : ℕ) → n < newsz → Returns (Resized d n) (data_grow env d n newsz)
  unfolding data_grow
  data_grow-Resized d n newsz h = elim (Option-cases (env.realloc d.bytes newsz)) [
    | inl e ↦ rw (e, data_grow) (returns refl)
    | inr (tmp, e) ↦
        let len = env.length-realloc d.bytes newsz tmp e in
        rw (e, data_grow, write_at-done tmp n (0 ∷ []) (omega arith))
          (returns (record {
            room = omega (arith, length-splice tmp n (0 ∷ []));
            maxs_room = omega (arith, length-splice tmp n (0 ∷ []));
            same_flag = refl;
            same_refc = refl;
            kept = λ i k p q.
                slice-splice_before tmp n (0 ∷ []) i k p
                ∙ slice-eq_of_take tmp d.bytes (min newsz (length d.bytes)) i k
                    (env.take-realloc d.bytes newsz tmp e) (omega arith);
          }))
  ]

  pub data_resize-Resized :
      (d : Data) (n : ℕ)
      → d.maxs ≤ length d.bytes
      → n < 2 ^ 30
      → Returns (Resized d n) (data_resize env d (pos n))
  unfolding data_resize
  data_resize-Resized d n m h = elim (Bool-cases (ltb n d.maxs)) [
    | inl e ↦
        let lt = ltb→lt n d.maxs e in
        rw (e, write_at-done d.bytes n (0 ∷ []) (omega arith))
          (returns (shrink-Fits d n m (omega arith)))
    | inr e ↦ elim (Bool-cases (has_flag d.flag constdata || leb int_max n)) [
      | inl stop ↦ rw (e, stop) (returns refl)
      | inr go ↦
          rw (e, go)
            (Returns-bind (pow_min_value_bounds (n + 1) (omega arith)) λ newsz b.
              elim (Bool-cases (ltb dpbuf_max_size newsz)) [
                | inl big ↦ absurd (omega (arith, ltb→lt dpbuf_max_size newsz big))
                | inr fine ↦ rw fine (data_grow-Resized d n newsz (omega arith))
              ])
    ]
  ]
