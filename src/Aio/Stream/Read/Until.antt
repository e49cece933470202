-- ===== src/Aio/Stream/Read/Until.antt =====
-- `_dpaio_read_until_post`: a round finds the first delimiter in all that was read, though it searches
-- a part of it only.
use dpapp.Common.{◌+◌, ◌^◌, ◌<◌}
use dpapp.Common.Outcome.{◌>>=◌}
use dpapp.Mem.{Block, Alloc}
use dpapp.Buf.{Buf}
use dpapp.Buf.Scan.From.{Search}
use dpapp.Aio.{Posted}
use dpapp.Aio.Stream.{Stm, batch}
use dpapp.Aio.Stream.Read.Steps.{shown, advanced}
use dpapp.Aio.Stream.Read.Scanning.{IsScanning}

module _ (env : Alloc) {K : Type 0} {stm : Stm} (s : IsScanning stm)
    (small : stm.buf.size + batch < 2 ^ 30) (p : Posted K) where
  -- The buffer in which a round searches.
  abbrev all_shown : Block → Buf
  all_shown xs = shown (advanced stm.buf xs)
