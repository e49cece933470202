-- ===== src/Buf/Write.antt =====
-- The writers of dpbuf.c: `dpbuf_wbuf`, `dpbuf_wbuf_r`, `dpbuf_wfill`, `dpbuf_wdata`, `dpbuf_wstrv`.
-- A writer returns its result, a count or a negative error code, and the new buffer.
pub mod Appends
pub mod Overrun
pub mod Text
pub mod Consume
use dpapp.Common.{ℕ, ◌+◌, Option, none, some, [], ◌∷◌, ◌++◌, ◌==◌, if◌then◌else◌, length, replicate}
use dpapp.Common.Int.{ℤ, pos, negsuc, min_ℤ, ltb_ℤ, index}
use dpapp.Common.Outcome.{Outcome, done, ◌>>=◌}
use dpapp.Mem.{Block, Alloc, read_at, write_at}
use dpapp.Buf.{Buf, enomem, einval, crsize, bytes, with_bytes}
use dpapp.Buf.Capacity.{wcheck}

-- `memcpy(dpbuf_cwdata(self), xs, n)` and `self->wbeg += n`.
unfoldable pub append : Buf → Block → Outcome Buf
append b xs = do
  ys ← write_at (bytes b) b.wbeg xs
  done (record (with_bytes b ys) { wbeg = b.wbeg + length xs })

-- How much `dpbuf_wbuf` takes from a source with `alen` readable bytes.
abbrev pub taken : ℤ → ℤ → ℤ
taken alen len = if ltb_ℤ (pos 0) len then min_ℤ alen len else alen

module _ (env : Alloc) where
  -- The source is another buffer, with storage of its own.
  unfoldable pub wbuf : Buf → Buf → ℤ → Outcome (ℤ × Buf)
  wbuf b src len = do
    (room, b) ← wcheck env b (taken (crsize src) len)
    if room
        then (do
          n ← index (taken (crsize src) len)
          chunk ← read_at (bytes src) src.rbeg n
          b ← append b chunk
          done (pos n, b))
        else done (enomem, b)

  -- `dpbuf_wbuf_r` consumes what it has taken from the source.
  unfoldable pub wbuf_r : Buf → Buf → ℤ → Outcome (ℤ × Buf × Buf)
  wbuf_r b src len = do
    (room, b) ← wcheck env b (taken (crsize src) len)
    if room
        then (do
          n ← index (taken (crsize src) len)
          chunk ← read_at (bytes src) src.rbeg n
          b ← append b chunk
          done (pos n, b, record src { rbeg = src.rbeg + n }))
        else done (enomem, b, src)

  unfoldable pub wfill : Buf → ℤ → ℕ → Outcome (ℤ × Buf)
  wfill b len v = do
    (room, b) ← wcheck env b len
    if room
        then (do n ← index len; b ← append b (replicate n v); done (pos n, b))
        else done (enomem, b)

  -- The part of `dpbuf_wdata` behind its test of the arguments.
  unfoldable pub write_block : Buf → Block → ℤ → Outcome (ℤ × Buf)
  write_block b src len = do
    (room, b) ← wcheck env b len
    if room
        then (do n ← index len; chunk ← read_at src 0 n; b ← append b chunk; done (pos n, b))
        else done (enomem, b)

  unfoldable pub wdata : Buf → Option Block → ℤ → Outcome (ℤ × Buf)
  wdata b none len = done (einval, b)
  wdata b (some src) (pos n) = if n == 0 then done (einval, b) else write_block b src (pos n)
  wdata b (some src) (negsuc n) = write_block b src (negsuc n)

  -- `text` is what `vsnprintf` makes of the arguments, `none` its error. The 0 that it writes
  -- behind the text is not counted.
  unfoldable pub wstrv : Buf → Option Block → Outcome (ℤ × Buf)
  wstrv b none = done (pos 0, b)
  wstrv b (some text) = if length text == 0 then done (pos 0, b) else do
    (room, b) ← wcheck env b (pos (length text + 1))
    if room
        then (do
          ys ← write_at (bytes b) b.wbeg (text ++ (0 ∷ []))
          done (pos (length text), record (with_bytes b ys) { wbeg = b.wbeg + length text }))
        else done (enomem, b)
