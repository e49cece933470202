-- ===== src/Buf/Capacity/Recycle.antt =====
-- `_dpbuf_recycle_data`: what is consumed gives its room back, and nothing else changes.
use dpapp.Common.{
  ℕ, ◌+◌, ◌-◌, ◌/◌, ◌≤◌, ◌≡◌, refl, sym, ◌∙◌, inl, inr, ◌&&◌, [], ◌∷◌, arith, ltb, ◌==◌, ==_iff,
  Bool-cases,
}
use dpapp.Common.Int.{index-sub_ℕ}
use dpapp.Common.Outcome.{Returns, returns}
use dpapp.Mem.{Block, slice, splice}
use dpapp.Mem.Slice.{
  length-splice, length-slice, slice-splice_before, slice-splice_front, slice-slice, slice_at,
  write_at-done, read_at-done,
}
use dpapp.Buf.{Buf, bytes, with_bytes, dpbuf_s_size}
use dpapp.Buf.Capacity.{recycle_data}
use dpapp.Buf.Valid.{IsValid, Keeps, Keeps-refl}

-- The buffer after everything in it was consumed.
abbrev emptied : Buf → Buf
emptied b = record (with_bytes b (splice (bytes b) (b.size - b.wbeg) (0 ∷ []))) {
  rbeg = 0;
  rend = 0;
  wbeg = 0;
  size = b.size - b.wbeg;
}

emptied-Keeps : {b : Buf} → IsValid b → b.rbeg ≡ b.wbeg → Keeps b (emptied b)
emptied-Keeps {b} v e = record {
  valid =
      let len = length-splice (bytes b) (b.size - b.wbeg) (0 ∷ []) in
      record {
        read_order = omega arith;
        write_order = omega arith;
        in_size = omega arith;
        in_block = omega arith;
        maxs_in_block = omega arith;
      };
  same_readable = sym (slice_at (bytes b) b.rbeg b.rbeg (b.rend - b.rbeg) 0 refl (omega arith));
  same_pending = sym (slice_at (bytes b) b.rend b.rend (b.wbeg - b.rend) 0 refl (omega arith));
  same_utype = refl;
  same_uflag = refl;
  same_flag = refl;
  same_data_flag = refl;
}

-- The block after the move of what was written to its front.
abbrev moved_bytes : Buf → Block
moved_bytes b =
    splice (splice (bytes b) 0 (slice (bytes b) b.rbeg (b.wbeg - b.rbeg))) (b.size - b.rbeg)
      (0 ∷ [])

abbrev moved : Buf → Buf
moved b = record (with_bytes b (moved_bytes b)) {
  rbeg = 0;
  rend = b.rend - b.rbeg;
  wbeg = b.wbeg - b.rbeg;
  size = b.size - b.rbeg;
}

slice-moved_bytes :
    {b : Buf} (j m : ℕ)
    → IsValid b
    → b.rbeg + (j + m) ≤ b.wbeg
    → slice (moved_bytes b) j m ≡ slice (bytes b) (b.rbeg + j) m
slice-moved_bytes {b} j m v h =
    let chunk = slice (bytes b) b.rbeg (b.wbeg - b.rbeg) in
    let len = length-slice (bytes b) b.rbeg (b.wbeg - b.rbeg) (omega arith) in
    slice-splice_before (splice (bytes b) 0 chunk) (b.size - b.rbeg) (0 ∷ []) j m (omega arith)
    ∙ slice-splice_front (bytes b) chunk j m (omega arith) (omega arith)
    ∙ slice-slice (bytes b) b.rbeg (b.wbeg - b.rbeg) j m (omega arith)

moved-Keeps : {b : Buf} → IsValid b → Keeps b (moved b)
moved-Keeps {b} v = record {
  valid =
      let chunk = slice (bytes b) b.rbeg (b.wbeg - b.rbeg) in
      let len = length-splice (splice (bytes b) 0 chunk) (b.size - b.rbeg) (0 ∷ []) in
      let len' = length-splice (bytes b) 0 chunk in
      record {
        read_order = omega arith;
        write_order = omega arith;
        in_size = omega arith;
        in_block = omega arith;
        maxs_in_block = omega arith;
      };
  same_readable =
      slice_at (moved_bytes b) 0 0 (b.rend - b.rbeg - 0) (b.rend - b.rbeg) refl (omega arith)
      ∙ slice-moved_bytes 0 (b.rend - b.rbeg) v (omega arith)
      ∙ slice_at (bytes b) (b.rbeg + 0) b.rbeg (b.rend - b.rbeg) (b.rend - b.rbeg) (omega arith)
          refl;
  same_pending =
      slice-moved_bytes (b.rend - b.rbeg) (b.wbeg - b.rbeg - (b.rend - b.rbeg)) v (omega arith)
      ∙ slice_at (bytes b) (b.rbeg + (b.rend - b.rbeg)) b.rend (b.wbeg - b.rbeg - (b.rend - b.rbeg))
          (b.wbeg - b.rend) (omega arith) (omega arith);
  same_utype = refl;
  same_uflag = refl;
  same_flag = refl;
  same_data_flag = refl;
}

-- _dpbuf_recycle_data of a valid buffer stays inside the block, keeps the buffer valid with its
-- readable and pending bytes, tags and flags, moves wbeg only towards the front, and leaves the
-- free room behind wbeg as it was.
pub recycle_data-Keeps :
    {b : Buf}
    → IsValid b
    → Returns
        (λ b'. Keeps b b' × (b'.wbeg ≤ b.wbeg) × (b'.size - b'.wbeg ≡ b.size - b.wbeg))
        (recycle_data b)
unfolding recycle_data
recycle_data-Keeps {b} v = elim (Bool-cases (b.rbeg == b.wbeg)) [
  | inl e ↦
      rw
        (
          e,
          index-sub_ℕ b.size b.wbeg v.in_size,
          write_at-done (bytes b) (b.size - b.wbeg) (0 ∷ []) (omega arith),
        )
        (returns (emptied-Keeps v ((==_iff _ _).0 e), omega arith, omega arith))
  | inr ne ↦ elim (Bool-cases (ltb dpbuf_s_size b.rbeg && ltb (b.data_ref.maxs / b.rbeg) 4)) [
    | inl far ↦
        let chunk = slice (bytes b) b.rbeg (b.wbeg - b.rbeg) in
        let len = length-slice (bytes b) b.rbeg (b.wbeg - b.rbeg) (omega arith) in
        let len' = length-splice (bytes b) 0 chunk in
        rw
          (
            ne,
            far,
            index-sub_ℕ b.wbeg b.rbeg (omega arith),
            read_at-done (bytes b) b.rbeg (b.wbeg - b.rbeg) (omega arith),
            write_at-done (bytes b) 0 chunk (omega arith),
            index-sub_ℕ b.rend b.rbeg (omega arith),
            index-sub_ℕ b.size b.rbeg (omega arith),
            write_at-done (splice (bytes b) 0 chunk) (b.size - b.rbeg) (0 ∷ []) (omega arith),
          )
          (returns (moved-Keeps v, omega arith, omega arith))
    | inr near ↦ rw (ne, near) (returns (Keeps-refl v, omega arith, refl))
  ]
]
