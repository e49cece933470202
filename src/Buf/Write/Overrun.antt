-- ===== src/Buf/Write/Overrun.antt =====
-- Where the writers of dpbuf.c leave the block: a buffer that wraps memory of the caller, and
-- negative lengths.
use dpapp.Common.{
  ℕ, ◌+◌, ◌≤◌, ◌<◌, ◌≡◌, true, false, some, [], ◌∷◌, arith, length, length-append, refl, ap, ◌∙◌,
  leb, ◌++◌, bit_and, bit_or,
}
use dpapp.Common.Int.{pos, negsuc, ltb_ℤ, int_max, add_int-pos}
use dpapp.Common.Outcome.{done, fault}
use dpapp.Mem.{Block, Alloc, write_at, splice, overwrite}
use dpapp.Mem.Slice.{write_at-done}
use dpapp.Buf.{Buf, enomem, constdata, init_w_mode, cwsize, flagmask}
use dpapp.Buf.Capacity.{recycle_data, resizew, wcheck, resize, data_resize}
use dpapp.Buf.Create.{init_d, data_new_d, fresh}
use dpapp.Buf.Valid.{IsValid}
use dpapp.Buf.Write.{wdata, write_block}

-- `DPBUF_INIT_CW`: the caller's memory, to be written.
abbrev pub init_cw : ℕ
init_cw = bit_or init_w_mode constdata

write_at-fault : (xs : Block) (i : ℕ) (y : ℕ) → length xs ≤ i → write_at xs i (y ∷ []) ≡ fault
unfolding write_at
write_at-fault xs i y h = let e : leb (i + 1) (length xs) ≡ false = ground arith in rw e

abbrev pub wrapped : Block → Buf
wrapped block =
    fresh (record { bytes = block; maxs = length block; flag = bit_and init_cw flagmask; refc = 1 })

-- What `DPBUF_INIT_CW` makes of a block of the caller.
init_d-wrapped :
    (env : Alloc) (block : Block)
    → env.malloc_data ≡ true
    → init_d env (some block) (pos (length block)) init_cw ≡ done (some (wrapped block))
unfolding init_d data_new_d
init_d-wrapped env block h = rw h

wrapped_overrun :
    (env : Alloc) (block src : Block) (n : ℕ)
    → length block < n
    → wdata env (wrapped block) (some src) (pos n) ≡ fault
unfolding wdata write_block wcheck resizew recycle_data
wrapped_overrun env block src n h =
    ground (arith, write_at-fault block (length block) 0 (omega arith))

-- The same buffer where one more byte `y` stands behind the block.
abbrev pub wrapped_in : Block → ℕ → Buf
wrapped_in block y = record (wrapped block) {
  data_ref = record ((wrapped block).data_ref) { bytes = block ++ y ∷ [] };
}

splice-last :
    (block : Block) (y : ℕ) → splice (block ++ y ∷ []) (length block) (0 ∷ []) ≡ block ++ 0 ∷ []
unfolding splice overwrite
splice-last [] y = refl
splice-last (x ∷ block) y = ap (◌∷◌ x) (splice-last block y)

write_at-last :
    (block : Block) (y : ℕ)
    → write_at (block ++ y ∷ []) (length block) (0 ∷ []) ≡ done (block ++ 0 ∷ [])
write_at-last block y =
    write_at-done (block ++ y ∷ []) (length block) (0 ∷ [])
      (omega (arith, length-append block (y ∷ [])))
    ∙ ap done (splice-last block y)

wrapped_in-stores :
    (env : Alloc) (block src : Block) (y n : ℕ)
    → length block < n
    → n ≤ int_max
    → wdata env (wrapped_in block y) (some src) (pos n) ≡ done (enomem, wrapped_in block 0)
unfolding wdata write_block wcheck resizew recycle_data resize data_resize
wrapped_in-stores env block src y n h small =
    ground (arith, add_int-pos 0 n (omega arith), write_at-last block y)

-- Dpbuf_init_d with DPBUF_INIT_CW makes of the caller's block, at its full size and where there is
-- memory for its descriptor, a buffer on which a dpbuf_wdata of more bytes than the block has (at
-- most INT_MAX) is undefined: it stores behind the block. Where another byte stands there, the
-- write answers -ENOMEM and has changed nothing but that byte, which is 0.
pub init_d-overrun :
    (env : Alloc) (block src : Block) (y n : ℕ)
    → env.malloc_data ≡ true
    → length block < n
    → n ≤ int_max
    → (init_d env (some block) (pos (length block)) init_cw ≡ done (some (wrapped block)))
      × (wdata env (wrapped block) (some src) (pos n) ≡ fault)
      × (wdata env (wrapped_in block y) (some src) (pos n) ≡ done (enomem, wrapped_in block 0))
init_d-overrun env block src y n ok h small = (
  init_d-wrapped env block ok,
  wrapped_overrun env block src n h,
  wrapped_in-stores env block src y n h small,
)

-- Dpbuf_wdata with a negative length on a valid buffer has undefined behaviour: the length passes
-- the check for room and is the size of the copy.
pub wdata_negative :
    (env : Alloc) {b : Buf} (src : Block) (n : ℕ)
    → IsValid b
    → wdata env b (some src) (negsuc n) ≡ fault
unfolding wdata write_block wcheck
wdata_negative env {b} src n v = let e : ltb_ℤ (cwsize b) (negsuc n) ≡ false = ground arith in rw e
