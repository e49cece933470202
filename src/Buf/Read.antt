-- ===== src/Buf/Read.antt =====
-- The readers of dpbuf.c: `dpbuf_rws`, `dpbuf_rdata`, `dpbuf_rmust`, `dpbuf_runtil`, `dpbuf_rcstr`,
-- `dpbuf_rall`, `dpbuf_readto`. Each drops the readable window and takes the next one from what was
-- written behind it.
pub mod Scans
pub mod Takes
pub mod Transfer
use dpapp.Common.{ℕ, suc, ◌&&◌, ◌||◌, Option, ltb, if◌then◌else◌}
use dpapp.Common.Int.{ℤ, pos, negsuc, ◌+ℤ◌, ◌-ℤ◌, min_ℤ, ltb_ℤ, index}
use dpapp.Common.Outcome.{Outcome, done, ◌>>=◌}
use dpapp.Mem.{Block, Alloc, read_at, strnlen}
use dpapp.Buf.{Buf, enodata, cesize, bytes}
use dpapp.Buf.Scan.{is_zero, cfind, count_ws}
use dpapp.Buf.Write.{wbuf}

-- `self->rbeg = self->rend`, and the window of `len` bytes from there.
abbrev pub window : Buf → ℤ → Outcome Buf
window b len = do rend ← index (pos b.rend +ℤ len); done (record b { rbeg = b.rend; rend = rend })

unfoldable pub rws : Buf → Outcome (ℤ × Buf)
rws b = elim (cesize b) [
  | negsuc _ ↦ done (pos 0, record b { rbeg = b.rend })
  | pos s ↦ do
    xs ← read_at (bytes b) b.rend s
    b ← window b (pos (count_ws xs))
    done (pos (count_ws xs), b)
]

unfoldable pub rdata : Buf → ℤ → Outcome (ℤ × Buf)
rdata b len = do
  let len = if ltb_ℤ len (pos 0) then cesize b else len
  let len = min_ℤ len (cesize b)
  b ← window b len
  done (len, b)

unfoldable pub rmust : Buf → ℤ → Outcome (ℤ × Buf)
rmust b len =
    if ltb_ℤ len (pos 0) || ltb_ℤ (cesize b) len
    then done (enodata, record b { rbeg = b.rend })
    else do b ← window b len; done (len, b)

unfoldable pub runtil : Buf → Option Block → ℤ → Outcome (ℤ × Buf)
runtil b until until_sz = do
  idx ← cfind (record b { rbeg = b.rend; rend = b.wbeg }) until until_sz (pos 0)
  if ltb_ℤ idx (pos 0)
      then done (enodata, record b { rbeg = b.rend })
      else do b ← window b (idx +ℤ until_sz); done (idx +ℤ until_sz, b)

-- How much of the `el` bytes `xs` is a string: up to and with the first 0, unless that is the first
-- byte.
abbrev pub cstr_count : Block → ℕ → ℕ
cstr_count xs el =
    if ltb 0 (strnlen xs) && ltb (strnlen xs) el then suc (strnlen xs) else strnlen xs

unfoldable pub rcstr : Buf → Outcome (ℤ × Buf)
rcstr b = do
  el ← index (cesize b)
  xs ← read_at (bytes b) b.rend el
  b ← window b (pos (cstr_count xs el))
  done (pos (cstr_count xs el), b)

unfoldable pub rall : Buf → ℤ × Buf
rall b = (cesize b, record b { rbeg = b.rend; rend = b.wbeg })

module _ (env : Alloc) where
  -- `det->rend = det->wbeg` and the cursors of the source are set on the error path too.
  unfoldable pub readto : Buf → Buf → ℤ → Outcome (ℤ × Buf × Buf)
  readto b det size =
      if is_zero (cesize b) then done (enodata, record b { rbeg = b.rend }, det) else do
        let src = record b { rbeg = b.rend; rend = b.wbeg }
        (wsz, det) ← wbuf env det src size
        rend ← index (pos b.wbeg -ℤ (cesize b -ℤ wsz))
        done (wsz, record b { rbeg = rend; rend = rend }, record det { rend = det.wbeg })
