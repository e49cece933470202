-- ===== src/Buf/Capacity/Grows.antt =====
-- When `dpbuf_resizew` succeeds: storage of its own, and memory to be had.
use dpapp.Common.{
  ℕ, ◌+◌, ◌^◌, ◌≤◌, ◌<◌, ◌≡◌, refl, inl, inr, Bool, true, false, ◌==◌, some, arith, length, ltb,
  leb, ltb→lt, leb→le, Bool-cases, [], ◌∷◌,
}
use dpapp.Common.Int.{pos, add_int-pos, ltb_ℤ, int_max}
use dpapp.Common.Outcome.{Returns, returns, Returns-bind}
use dpapp.Mem.{Block, Alloc}
use dpapp.Mem.Slice.{write_at-done}
use dpapp.Buf.{Data, Buf, constdata, has_flag, cwsize, dpbuf_max_size}
use dpapp.Buf.Capacity.{data_grow, data_resize, resize, resizew, wcheck}
use dpapp.Buf.Capacity.Sizes.{pow_min_value_bounds}
use dpapp.Buf.Capacity.Enough.{compact-Keeps}
use dpapp.Buf.Valid.{IsValid}

-- The storage is not constant.
abbrev pub IsOwned : Buf → Type 0
IsOwned b = has_flag b.data_ref.flag constdata ≡ false

abbrev pub Succeeds : {A : Type 0} → Bool × A → Type 0
Succeeds out = out.0 ≡ true

-- `realloc` never fails.
abbrev pub HasMemory : Alloc → Type 0
HasMemory env = (xs : Block) (n : ℕ) → (ys : Block) × (env.realloc xs n ≡ some ys)

module _ (env : Alloc) (memory : HasMemory env) where
  data_grow-Succeeds :
      (d : Data) (n newsz : ℕ) → n < newsz → Returns Succeeds (data_grow env d n newsz)
  unfolding data_grow
  data_grow-Succeeds d n newsz h =
      let (ys, e) = memory d.bytes newsz in
      rw
        (
          e,
          data_grow,
          write_at-done ys n (0 ∷ []) (omega (arith, env.length-realloc d.bytes newsz ys e)),
        )
        (returns refl)

  data_resize-Succeeds :
      (d : Data) (n : ℕ)
      → d.maxs ≤ length d.bytes
      → has_flag d.flag constdata ≡ false
      → n < 2 ^ 30
      → Returns Succeeds (data_resize env d (pos n))
  unfolding data_resize
  data_resize-Succeeds d n m own h = elim (Bool-cases (ltb n d.maxs)) [
    | inl e ↦
        let lt = ltb→lt n d.maxs e in
        rw (e, write_at-done d.bytes n (0 ∷ []) (omega arith)) (returns refl)
    | inr e ↦ elim (Bool-cases (leb int_max n)) [
      | inl big ↦ absurd (omega (arith, leb→le int_max n big))
      | inr go ↦
          rw (e, own, go)
            (Returns-bind (pow_min_value_bounds (n + 1) (omega arith)) λ newsz b.
              elim (Bool-cases (ltb dpbuf_max_size newsz)) [
                | inl big ↦ absurd (omega (arith, ltb→lt dpbuf_max_size newsz big))
                | inr fine ↦ rw fine (data_grow-Succeeds d n newsz (omega arith))
              ])
    ]
  ]

  resize-Succeeds :
      {b : Buf} (n : ℕ)
      → IsValid b
      → IsOwned b
      → 0 < n
      → n < 2 ^ 30
      → Returns Succeeds (resize env b (pos n))
  unfolding resize
  resize-Succeeds {b} n v own p h =
      let ne : (n == 0) ≡ false = ground arith in
      rw ne
        (Returns-bind (data_resize-Succeeds b.data_ref n v.maxs_in_block own h) λ out e. returns e)

  resizew-Succeeds :
      {b : Buf} (n : ℕ)
      → IsValid b
      → IsOwned b
      → 0 < n
      → b.wbeg + n < 2 ^ 30
      → Returns Succeeds (resizew env b (pos n))
  unfolding resizew
  resizew-Succeeds {b} n v own p small = Returns-bind (compact-Keeps env v) λ b' k.
      rw (add_int-pos b'.wbeg n (omega arith)) (
        resize-Succeeds (b'.wbeg + n) k.0.valid (rw k.0.same_data_flag own) (omega arith)
          (omega arith))

  -- _dpbuf_wcheck for n > 0 bytes with wbeg + n < 2^30 returns true on a valid buffer that owns
  -- its storage, if realloc never fails.
  pub wcheck-Succeeds :
      {b : Buf} (n : ℕ)
      → IsValid b
      → IsOwned b
      → 0 < n
      → b.wbeg + n < 2 ^ 30
      → Returns Succeeds (wcheck env b (pos n))
  unfolding wcheck
  wcheck-Succeeds {b} n v own p small = elim (Bool-cases (ltb_ℤ (cwsize b) (pos n))) [
    | inl e ↦ rw e (resizew-Succeeds n v own p small)
    | inr e ↦ rw e (returns refl)
  ]
