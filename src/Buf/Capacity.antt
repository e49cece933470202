-- ===== src/Buf/Capacity.antt =====
-- How dpbuf.c makes room: `_pow_min_value`, `_dpbuf_data_resize`, `_dpbuf_resize`,
-- `_dpbuf_recycle_data`, `dpbuf_recycle`, `dpbuf_resizew`, `_dpbuf_wcheck`.
pub mod Enough
pub mod Grows
pub mod Recycle
pub mod Room
pub mod Sizes
use dpapp.Common.{
  ℕ, ◌+◌, ◌-◌, ◌/◌, ◌^◌, bit_or, Bool, true, false, ◌&&◌, ◌||◌, not, none, some, [], ◌∷◌, ◌==◌, ltb,
  leb, if◌then◌else◌,
}
use dpapp.Common.Int.{ℤ, pos, negsuc, ltb_ℤ, sub_ℕ, int_max, add_int, index}
use dpapp.Common.Outcome.{Outcome, done, fault, ◌>>=◌}
use dpapp.Mem.{Alloc, read_at, write_at}
use dpapp.Buf.{
  Data, Buf, dpbuf_max_size, dpbuf_s_size, constdata, norecycle, has_flag, cwsize, bytes,
  with_bytes,
}

-- `value |= value >> k`.
abbrev smear : ℕ → ℕ → ℕ
smear v k = bit_or v (v / 2 ^ k)

-- The `++` at the end overflows at `INT_MAX`.
unfoldable pub pow_min_value : ℕ → Outcome ℕ
pow_min_value v =
    if v == 0
    then done 1
    else let w = smear (smear (smear (smear (v - 1) 1) 2) 4) 8 in
      if ltb w int_max then done (w + 1) else fault

module _ (env : Alloc) where
  -- The part of `_dpbuf_data_resize` from `realloc` on.
  unfoldable pub data_grow : Data → ℕ → ℕ → Outcome (Bool × Data)
  data_grow d n newsz = elim (env.realloc d.bytes newsz) [
    | none ↦ done (false, d)
    | some tmp ↦ do
      tmp ← write_at tmp n (0 ∷ [])
      done (true, record d { bytes = tmp; maxs = newsz })
  ]

  unfoldable pub data_resize : Data → ℤ → Outcome (Bool × Data)
  data_resize d (negsuc n) = fault
  data_resize d (pos n) =
      if ltb n d.maxs
      then (do xs ← write_at d.bytes n (0 ∷ []); done (true, record d { bytes = xs }))
      else if has_flag d.flag constdata || leb int_max n
      then done (false, d)
      else do
        newsz ← pow_min_value (n + 1)
        if ltb dpbuf_max_size newsz then done (false, d) else data_grow d n newsz

  -- `_dpbuf_resize`, for a `self` that is not NULL.
  unfoldable pub resize : Buf → ℤ → Outcome (Bool × Buf)
  resize b (negsuc n) = done (false, b)
  resize b (pos n) = if n == 0 then done (false, b) else do
    (r, d) ← data_resize b.data_ref (pos n)
    done (r, record b { data_ref = d; size = if r then n else b.size })

-- `_dpbuf_recycle_data`: forget what is consumed, or move the rest to the front.
unfoldable pub recycle_data : Buf → Outcome Buf
recycle_data b =
    if b.rbeg == b.wbeg
    then (do
      size ← index (sub_ℕ b.size b.wbeg)
      xs ← write_at (bytes b) size (0 ∷ [])
      done (record (with_bytes b xs) { rbeg = 0; rend = 0; wbeg = 0; size = size }))
    else if ltb dpbuf_s_size b.rbeg && ltb (b.data_ref.maxs / b.rbeg) 4
    then (do
      len ← index (sub_ℕ b.wbeg b.rbeg)
      chunk ← read_at (bytes b) b.rbeg len
      xs ← write_at (bytes b) 0 chunk
      rend ← index (sub_ℕ b.rend b.rbeg)
      size ← index (sub_ℕ b.size b.rbeg)
      xs ← write_at xs size (0 ∷ [])
      done (record (with_bytes b xs) { rbeg = 0; rend = rend; wbeg = len; size = size }))
    else done b

module _ (env : Alloc) where
  -- `dpbuf_recycle`. The result of the resize is not looked at.
  unfoldable pub recycle : Buf → Bool → Outcome Buf
  recycle b force =
      if force || not (has_flag b.flag norecycle)
      then (do b ← recycle_data b; (r, b) ← resize env b (pos 0); done b)
      else done b

  unfoldable pub resizew : Buf → ℤ → Outcome (Bool × Buf)
  resizew b (negsuc n) = done (false, b)
  resizew b (pos n) = do
    b ← if has_flag b.flag norecycle then done b else recycle_data b
    total ← add_int (pos b.wbeg) (pos n)
    resize env b total

  -- `_dpbuf_wcheck`.
  unfoldable pub wcheck : Buf → ℤ → Outcome (Bool × Buf)
  wcheck b len = if ltb_ℤ (cwsize b) len then resizew b len else done (true, b)
