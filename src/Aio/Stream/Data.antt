-- ===== src/Aio/Stream/Data.antt =====
-- dpasc.c: `dpaio_read_data` and `dpaio_write_data`, the streams on a bare block of memory.
pub mod Rounds
use dpapp.Common.{ℕ, zero, suc, ◌+◌, ◌-◌, Bool, Option, none, some, ltb, leb, if◌then◌else◌, length}
use dpapp.Common.Int.{ℤ, pos, negsuc, sub_ℕ, index}
use dpapp.Common.Outcome.{Outcome, done, ◌>>=◌}
use dpapp.Mem.{Block, read_at, write_at}
use dpapp.Aio.{Posted, wait, continue, inval}
use dpapp.Aio.Stream.{Reader, Writer, on_ret}

-- The fields of `_dpaio_stm_t` that these streams use: `mem` is the memory that `io.buf` points into,
-- at `io_at`.
pub record Raw : Type 0 where
  pub mem : Block
  pub io_at : ℕ
  pub io_len : ℕ
  pub total : ℕ
  pub len : ℕ

-- What `post` answers: its return value, the stream, whether the event was withdrawn, the system.
pub record NextRaw (K : Type 0) : Type 0 where
  pub ret : ℤ
  pub raw : Raw
  pub inva : Bool
  pub system : K

abbrev start : Block → ℕ → ℕ → Raw
start mem at len = record { mem = mem; io_at = at; io_len = len; total = 0; len = len }

-- `none` is NULL, another pointer is a position in a block.
abbrev data_prep : Option (Block × ℕ) → ℤ → ℤ × Option Raw
data_prep none len = (inval, none)
data_prep (some (mem, at)) (pos zero) = (inval, none)
data_prep (some (mem, at)) (pos (suc n)) = (continue, some (start mem at (suc n)))
data_prep (some (mem, at)) (negsuc n) = (inval, none)

unfoldable pub read_data_prep : Option (Block × ℕ) → ℤ → ℤ × Option Raw
read_data_prep ptr len = data_prep ptr len

unfoldable pub write_data_prep : Option (Block × ℕ) → ℤ → ℤ × Option Raw
write_data_prep ptr len = data_prep ptr len

module _ {K : Type 0} where
  abbrev pub tell : Posted K → Raw → ℤ → NextRaw K
  tell p raw ret = record { ret = ret; raw = raw; inva = p.inva; system = p.system }

  -- `if (ret <= 0) return total > 0 ? total : ret`.
  abbrev pub partial : Posted K → Raw → NextRaw K
  partial p raw = tell p raw (if ltb 0 raw.total then pos raw.total else p.ret)

  -- Both of them after `n` bytes.
  unfoldable pub data_got : Posted K → Raw → ℕ → Outcome (NextRaw K)
  data_got p raw n =
      let total = raw.total + n in
      if leb raw.len total then done (tell p (record raw { total = total }) (pos total)) else do
        left ← index (sub_ℕ raw.io_len n)
        done (tell p (record raw { io_at = raw.io_at + n; io_len = left; total = total }) wait)

  unfoldable pub read_data_post : Reader K → Raw → K → Outcome (NextRaw K)
  read_data_post sub raw k = do
    p ← sub.post 0 raw.io_len k
    mem ← write_at raw.mem raw.io_at p.bytes
    let raw = record raw { mem = mem }
    on_ret p.ret (done (partial p raw)) (data_got p raw)

  unfoldable pub write_data_post : Writer K → Raw → K → Outcome (NextRaw K)
  write_data_post sub raw k = do
    xs ← read_at raw.mem raw.io_at raw.io_len
    p ← sub.post xs k
    on_ret p.ret (done (partial p raw)) (data_got p raw)
