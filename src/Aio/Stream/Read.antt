-- ===== src/Aio/Stream/Read.antt =====
-- dpasc.c: the streams that read.
pub mod Must
pub mod Scanning
pub mod Some
pub mod Steps
pub mod Until
use dpapp.Common.{
  ℕ, zero, suc, ◌+◌, ◌-◌, min, Bool, true, false, ◌||◌, not, Option, none, some, ltb, leb, ◌==◌,
  if◌then◌else◌, length,
}
use dpapp.Common.Int.{ℤ, pos, negsuc, sub_ℕ, ◌+ℤ◌, ltb_ℤ, index}
use dpapp.Common.Outcome.{Outcome, done, ◌>>=◌}
use dpapp.Mem.{Block, Alloc, write_at}
use dpapp.Buf.{Buf, bytes, with_bytes, cwsize, cesize, crsize}
use dpapp.Buf.Capacity.{resizew}
use dpapp.Buf.Seek.{seek_set, seek_cur, seek_end, wseek, eseek}
use dpapp.Buf.Scan.{cfind}
use dpapp.Aio.{Posted, wait, continue, inval, nomem}
use dpapp.Aio.Stream.{Stm, batch, Reader, Next, answer, on_ret, total_or, sub_prep, fresh}

-- The bytes that the operation below has put behind `wbeg`.
unfoldable pub fill : Stm → Block → Outcome Stm
fill stm xs = do
  ys ← write_at (bytes stm.buf) stm.buf.wbeg xs
  done (record stm { buf = with_bytes stm.buf ys })

module _ {K : Type 0} where
  -- `read_must_post` after `n` bytes. It compares `total` with what is left to be read.
  unfoldable pub read_must_got : Posted K → Stm → ℕ → Outcome (Next K)
  read_must_got p stm n = do
    (r, b) ← wseek stm.buf (pos n) seek_cur
    let stm' = record stm { buf = b; total = stm.total + n }
    if leb stm.io_len (stm.total + n) then done (answer p stm' (pos (stm.total + n))) else do
      left ← index (sub_ℕ stm.io_len n)
      done (answer p (record stm' { io_len = left }) wait)

  unfoldable pub read_must_post : Reader K → Stm → K → Outcome (Next K)
  read_must_post sub stm k = do
    p ← sub.post stm.flag stm.io_len k
    stm ← fill stm p.bytes
    on_ret p.ret (done (answer p stm (total_or stm p.ret))) (read_must_got p stm)

module _ (env : Alloc) where
  -- Room for `n` bytes, and the operation below is to fill all that there is.
  unfoldable pub grow : Stm → ℕ → Outcome (Bool × Stm)
  grow stm n = do
    (room, b) ← resizew env stm.buf (pos n)
    io_len ← if room then index (cwsize b) else done stm.io_len
    done (room, record stm { buf = b; io_len = io_len })

  unfoldable pub read_some_prep : Option Buf → ℤ → Outcome (ℤ × Option Stm)
  read_some_prep buf len = sub_prep buf len (done (inval, none)) λ b len. do
    (esz, b) ← eseek b (pos 0) seek_end
    if ltb_ℤ esz (pos len)
        then (do
          esz ← index esz
          (room, stm) ← grow (fresh b len) (min (len - esz) batch)
          done (if room then continue else nomem, some stm))
        else done (esz, some (fresh b len))

  module _ {K : Type 0} where
    -- `read_some_post` after `n` bytes.
    unfoldable pub read_some_got : Posted K → Stm → ℕ → Outcome (Next K)
    read_some_got p stm n = do
      (r, b) ← wseek stm.buf (pos n) seek_cur
      (s, b) ← eseek b (pos 0) seek_end
      let stm' = record stm { buf = b; total = stm.total + n }
      if ltb n stm.io_len || leb stm.len (stm.total + n)
          then done (answer p stm' (pos (stm.total + n)))
          else do
            (room, stm'') ← grow stm' (min (stm.len - (stm.total + n)) batch)
            done (answer p stm'' (if room then wait else total_or stm'' nomem))

    unfoldable pub read_some_post : Reader K → Stm → K → Outcome (Next K)
    read_some_post sub stm k = do
      p ← sub.post stm.flag stm.io_len k
      stm ← fill stm p.bytes
      on_ret p.ret (done (answer p stm (total_or stm p.ret))) (read_some_got p stm)

  unfoldable pub read_must_prep : Option Buf → ℤ → Outcome (ℤ × Option Stm)
  read_must_prep buf len = sub_prep buf len (done (inval, none)) λ b len.
      if ltb_ℤ (cesize b) (pos len)
      then (do
        esz ← index (cesize b)
        (room, b) ← resizew env b (pos (len - esz))
        if room
            then done (continue, some (record (fresh b len) { io_len = len - esz }))
            else done (nomem, some (fresh b len)))
      else (do (r, b) ← eseek b (pos len) seek_cur; done (r, some (fresh b len)))

  unfoldable pub read_until_prep : Option Block → ℤ → Option Buf → ℤ → Outcome (ℤ × Option Stm)
  read_until_prep none until_len buf len = done (inval, none)
  read_until_prep (some until) until_len buf len =
      if ltb_ℤ until_len (pos 1)
      then done (inval, none)
      else sub_prep buf len (done (inval, none)) λ b len. do
        n ← index until_len
        (idx, scanned, b) ←
            (if ltb_ℤ (pos 0) (cesize b)
              then (do
                (r, b) ← eseek b (pos 0) seek_end
                idx ← cfind b (some until) until_len (pos 0)
                scanned ← index (crsize b)
                done (idx, scanned, b))
              else done (negsuc 0, 0, b))
        let stm = record (fresh b len) { flag = scanned; until = until; until_len = n }
        if ltb_ℤ idx (pos 0)
            then (do
              (room, stm) ← grow stm (min len batch)
              done (if room then continue else nomem, some stm))
            else (do
              (r, b) ← eseek b (idx +ℤ until_len) seek_set
              done (idx +ℤ until_len, some (record stm { buf = b; flag = 0 })))

  module _ {K : Type 0} where
    -- `read_until_post` where the delimiter was not found.
    unfoldable pub read_until_miss : Posted K → Stm → Outcome (Next K)
    read_until_miss p stm = do
      let stm = record stm { flag = stm.total }
      if leb stm.len stm.total then done (answer p stm continue) else do
        (room, stm) ← grow stm (min (stm.len - stm.total) batch)
        done (answer p stm (if room then wait else total_or stm nomem))

    -- `read_until_post` after `n` bytes.
    unfoldable pub read_until_got : Posted K → Stm → ℕ → Outcome (Next K)
    read_until_got p stm n = do
      (r, b) ← wseek stm.buf (pos n) seek_cur
      (s, b) ← eseek b (pos 0) seek_end
      let stm = record stm { buf = b; total = stm.total + n }
      idx ← cfind b (some (stm.until)) (pos stm.until_len) (pos (stm.flag + 1 - stm.until_len))
      if ltb_ℤ idx (pos 0) then read_until_miss p stm else do
        (t, b) ← eseek b (idx +ℤ pos stm.until_len) seek_set
        done (answer p (record stm { buf = b }) (idx +ℤ pos stm.until_len))

    unfoldable pub read_until_post : Reader K → Stm → K → Outcome (Next K)
    read_until_post sub stm k = do
      p ← sub.post stm.flag stm.io_len k
      stm ← fill stm p.bytes
      on_ret p.ret (done (answer p stm (total_or stm p.ret))) (read_until_got p stm)
