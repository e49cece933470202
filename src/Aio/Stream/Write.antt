-- ===== src/Aio/Stream/Write.antt =====
-- dpasc.c: the streams that write, and the two on a bare block of memory.
pub mod Steps
use dpapp.Common.{
  ℕ, zero, suc, ◌+◌, ◌-◌, Bool, true, false, Option, none, some, ltb, leb, if◌then◌else◌, length,
}
use dpapp.Common.Int.{ℤ, pos, negsuc, sub_ℕ, index}
use dpapp.Common.Outcome.{Outcome, done, ◌>>=◌}
use dpapp.Mem.{Block, read_at, write_at}
use dpapp.Buf.{Buf, bytes, crsize}
use dpapp.Buf.Seek.{seek_cur, rseek}
use dpapp.Aio.{Posted, wait, continue, inval}
use dpapp.Aio.Stream.{Stm, Reader, Writer, Next, answer, on_ret, total_or, sub_prep, fresh}

-- All that the buffer has to read is offered.
unfoldable pub write_some_prep : Option Buf → ℤ → Outcome (ℤ × Option Stm)
write_some_prep buf len = sub_prep buf len (done (inval, none)) λ b len. do
  io_len ← index (crsize b)
  done (continue, some (record (fresh b len) { io_len = io_len }))

-- Just `len` bytes are offered, whether the buffer has them to read or not.
unfoldable pub write_must_prep : Option Buf → ℤ → Outcome (ℤ × Option Stm)
write_must_prep buf len =
    sub_prep buf len (done (inval, none))
      λ b len. done (continue, some (record (fresh b len) { io_len = len }))

-- The bytes that the stream offers.
abbrev pub offered : Stm → Outcome Block
offered stm = read_at (bytes stm.buf) stm.io_at stm.io_len

-- `stm->io.total >= stm->len ? stm->io.total : ret`.
abbrev pub enough_or : Stm → ℤ → ℤ
enough_or stm ret = if leb stm.len stm.total then pos stm.total else ret

module _ {K : Type 0} where
  -- The position in the block goes on by `n` bytes, and the stream waits.
  abbrev pub go_on : Posted K → Stm → ℕ → Outcome (Next K)
  go_on p stm n = do
    left ← index (sub_ℕ stm.io_len n)
    done (answer p (record stm { io_at = stm.io_at + n; io_len = left }) wait)

  unfoldable pub write_some_got : Posted K → Stm → ℕ → Outcome (Next K)
  write_some_got p stm n = do
    (r, b) ← rseek stm.buf (pos n) seek_cur
    let stm' = record stm { buf = b; total = stm.total + n }
    if leb stm.len (stm.total + n)
        then done (answer p stm' (pos (stm.total + n)))
        else go_on p stm' n

  unfoldable pub write_some_post : Writer K → Stm → K → Outcome (Next K)
  write_some_post sub stm k = do
    xs ← offered stm
    p ← sub.post xs k
    on_ret p.ret (done (answer p stm (enough_or stm p.ret))) (write_some_got p stm)

  -- `write_must_post` after `n` bytes. It compares `total` with what is left to be written.
  unfoldable pub write_must_got : Posted K → Stm → ℕ → Outcome (Next K)
  write_must_got p stm n = do
    (r, b) ← rseek stm.buf (pos n) seek_cur
    let stm' = record stm { buf = b; total = stm.total + n }
    if leb stm.io_len (stm.total + n)
        then done (answer p stm' (pos (stm.total + n)))
        else go_on p stm' n

  unfoldable pub write_must_post : Writer K → Stm → K → Outcome (Next K)
  write_must_post sub stm k = do
    xs ← offered stm
    p ← sub.post xs k
    on_ret p.ret (done (answer p stm (total_or stm p.ret))) (write_must_got p stm)
