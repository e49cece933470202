-- ===== src/Buf/Create/Copies.antt =====
-- What the constructors of dpbuf.c build: empty buffers, formatted text, and copies of windows.
use dpapp.Common.{
  ℕ, ◌+◌, ◌-◌, ◌≤◌, ◌<◌, ◌≡◌, refl, sym, ◌∙◌, true, false, some, [], ◌∷◌, ◌==◌, arith, length, take,
  drop, length-drop, leb, bit_or,
}
use dpapp.Common.Int.{pos, int_max, add_int-pos}
use dpapp.Common.Outcome.{Returns, returns, Returns-bind}
use dpapp.Mem.{Block, Alloc, slice, splice}
use dpapp.Mem.Slice.{
  length-splice, length-slice, slice-splice_self, slice-splice_before, slice_at, read_at-done,
  write_at-done,
}
use dpapp.Buf.{Data, Buf, bytes, crsize, cesize, dup_data, init_r_mode, cpusr}
use dpapp.Buf.Create.{
  fresh, all_readable, data_new, data_dup, data_new_d, init, init_d, new, new_d, dup_r, dup_e,
}
use dpapp.Buf.Valid.{IsValid, readable, pending}

-- `malloc` never fails.
pub record CanAllocate (env : Alloc) : Type 0 where
  pub buf : env.malloc_buf ≡ true
  pub data_part : env.malloc_data ≡ true
  pub block : (n : ℕ) → (xs : Block) × (env.malloc n ≡ some xs)

-- A block that counts as the size `n` of `xs`, holds `xs` at its front and is the only one's.
pub record Holds (xs : Block) (d : Data) : Type 0 where
  pub exact : d.maxs ≡ length xs
  pub room : d.maxs < length d.bytes
  pub front : slice d.bytes 0 d.maxs ≡ xs
  pub own_flag : d.flag ≡ 0
  pub counted : d.refc ≡ 1

module _ (env : Alloc) (memory : CanAllocate env) where
  data_dup-Holds :
      (src : Block) (n : ℕ)
      → n ≤ length src
      → n < int_max
      → Returns (λ o. (d : Data) × (o ≡ some d) × Holds (take n src) d) (data_dup env src n)
  unfolding data_dup
  data_dup-Holds src n h small =
      let (ys, e) = memory.block (n + 1) in
      let len = env.length-malloc (n + 1) ys e in
      let len_src = length-slice src 0 n (omega arith) in
      let len' = length-splice ys 0 (take n src) in
      rw
        (
          add_int-pos n 1 (omega arith),
          e,
          data_dup,
          read_at-done src 0 n (omega arith),
          write_at-done ys 0 (take n src) (omega arith),
          write_at-done (splice ys 0 (take n src)) n (0 ∷ []) (omega arith),
        )
        (returns (
          record {
            bytes = splice (splice ys 0 (take n src)) n (0 ∷ []);
            maxs = n;
            flag = 0;
            refc = 1;
          },
          refl,
          record {
            exact = sym len_src;
            room = omega (arith, length-splice (splice ys 0 (take n src)) n (0 ∷ []));
            front =
                slice-splice_before (splice ys 0 (take n src)) n (0 ∷ []) 0 n (omega arith)
                ∙ slice_at (splice ys 0 (take n src)) 0 0 n (length (take n src)) refl (sym len_src)
                ∙ slice-splice_self ys 0 (take n src) (omega arith);
            own_flag = refl;
            counted = refl;
          },
        ))

  -- A new buffer in which all of `xs` is readable and nothing is pending.
  init_d-Holds :
      (src : Block) (n : ℕ)
      → n ≤ length src
      → n < int_max
      → Returns
          (λ o. (d : Data) × (o ≡ some (all_readable (fresh d))) × Holds (take n src) d)
          (init_d env (some src) (pos n) (bit_or dup_data init_r_mode))
  unfolding init_d data_new_d
  init_d-Holds src n h small = simp memory.data_part (
      Returns-bind (data_dup-Holds src n h small)
        λ o (d, e, holds). rw e (returns (d, refl, holds)))

-- `c` is a buffer of its own in which exactly `xs` is readable, with the tags of `b`.
pub record CopyOf (xs : Block) (b c : Buf) : Type 0 where
  pub valid : IsValid c
  pub same_readable : readable c ≡ xs
  pub nothing_pending : pending c ≡ []
  pub same_utype : c.utype ≡ b.utype
  pub same_uflag : c.uflag ≡ b.uflag
  pub own_refc : c.data_ref.refc ≡ 1

Holds-CopyOf :
    {xs : Block} {d : Data} (b : Buf) → Holds xs d → CopyOf xs b (cpusr b (all_readable (fresh d)))
unfolding cpusr
Holds-CopyOf {xs} {d} b h = record {
  valid = record {
    read_order = omega arith;
    write_order = omega arith;
    in_size = omega arith;
    in_block = h.room;
    maxs_in_block = omega (arith, h.room);
  };
  same_readable = slice_at d.bytes 0 0 (d.maxs - 0) d.maxs refl (omega arith) ∙ h.front;
  nothing_pending = slice_at d.bytes d.maxs d.maxs (d.maxs - d.maxs) 0 refl (omega arith);
  same_utype = refl;
  same_uflag = refl;
  own_refc = h.counted;
}

module _ (env : Alloc) (memory : CanAllocate env) where
  -- Dpbuf_dup_r of a valid buffer with something to read, rend below INT_MAX and malloc that does
  -- not fail, returns a valid buffer with storage of its own whose readable window is that of the
  -- original, with nothing pending and the same tags.
  pub dup_r-CopyOf :
      {b : Buf}
      → IsValid b
      → b.rbeg < b.rend
      → b.rend < int_max
      → Returns (λ o. (c : Buf) × (o ≡ some c) × CopyOf (readable b) b c) (dup_r env b)
  unfolding dup_r new_d
  dup_r-CopyOf {b} v some_readable small =
      let n = b.rend - b.rbeg in
      let more : (b.rend == b.rbeg) ≡ false = ground arith in
      let e : crsize b ≡ pos n = ground arith in
      rw (more, e)
        (simp memory.buf (
          Returns-bind
            (init_d-Holds env memory (drop b.rbeg (bytes b)) n
              (omega (arith, length-drop b.rbeg (bytes b))) (omega arith))
            λ o (d, got, holds).
              rw got (returns (cpusr b (all_readable (fresh d)), refl, Holds-CopyOf b holds))))

  -- `dpbuf_dup_e` copies what is pending.
  pub dup_e-CopyOf :
      {b : Buf}
      → IsValid b
      → b.rend < b.wbeg
      → b.wbeg < int_max
      → Returns (λ o. (c : Buf) × (o ≡ some c) × CopyOf (pending b) b c) (dup_e env b)
  unfolding dup_e new_d
  dup_e-CopyOf {b} v some_pending small =
      let n = b.wbeg - b.rend in
      let more : (b.wbeg == b.rend) ≡ false = ground arith in
      let e : cesize b ≡ pos n = ground arith in
      rw (more, e)
        (simp memory.buf (
          Returns-bind
            (init_d-Holds env memory (drop b.rend (bytes b)) n
              (omega (arith, length-drop b.rend (bytes b))) (omega arith))
            λ o (d, got, holds).
              rw got (returns (cpusr b (all_readable (fresh d)), refl, Holds-CopyOf b holds))))

  -- Dpbuf_new of a size below INT_MAX, where malloc does not fail, returns a valid buffer of that
  -- size with nothing readable and nothing pending.
  pub new-empty :
      (n : ℕ)
      → n < int_max
      → Returns
          (λ o.
            (b : Buf) × (o ≡ some b)
            × IsValid b
            × (readable b ≡ [])
            × (pending b ≡ [])
            × (b.size ≡ n))
          (new env (pos n))
  unfolding new init data_new
  new-empty n small =
      let (ys, e) = memory.block (n + 1) in
      let len = env.length-malloc (n + 1) ys e in
      let len' = length-splice ys 0 (0 ∷ []) in
      let small' : leb int_max n ≡ false = ground arith in
      let len_last = length-splice (splice ys 0 (0 ∷ [])) n (0 ∷ []) in
      simp
        (
          memory.buf,
          memory.data_part,
          small',
          e,
          write_at-done ys 0 (0 ∷ []) (omega arith),
          write_at-done (splice ys 0 (0 ∷ [])) n (0 ∷ []) (omega arith),
        )
        (returns (
          fresh (record {
            bytes = splice (splice ys 0 (0 ∷ [])) n (0 ∷ []);
            maxs = n;
            flag = 0;
            refc = 1;
          }),
          refl,
          record {
            read_order = omega arith;
            write_order = omega arith;
            in_size = omega arith;
            in_block = omega arith;
            maxs_in_block = omega arith;
          },
          slice_at (splice (splice ys 0 (0 ∷ [])) n (0 ∷ [])) 0 0 (0 - 0) 0 refl (omega arith),
          slice_at (splice (splice ys 0 (0 ∷ [])) n (0 ∷ [])) 0 0 (0 - 0) 0 refl (omega arith),
          refl,
        ))
