-- ===== src/Aio/Post.antt =====
-- dpasc_epoll.c: `_dpaio_buf_post`, `_dpaio_iov_post` and `_dpaio_msg_post`, which repeat a call
-- until all bytes are moved or the system has no more.
pub mod Iov
pub mod Moves
pub mod Pipe
use dpapp.Common.{
  ℕ, zero, suc, ◌+◌, ◌-◌, ◌≤◌, ◌<◌, ◌≡◌, Bool, true, false, Option, none, some, List, [], ◌∷◌, ◌++◌,
  ◌==◌, ltb, if◌then◌else◌, length,
}
use dpapp.Common.Int.{ℤ, pos}
use dpapp.Common.Outcome.{Outcome, done, fault}
use dpapp.Mem.{Block}
use dpapp.Aio.{Answer, moved, closed, failed, Posted, errno, eof}

-- `total > 0 ? total : -errno`.
abbrev pub total_or : Block → ℤ → ℤ
total_or got e = if ltb 0 (length got) then pos (length got) else e

module _ {K : Type 0} where
  abbrev pub stopped : ℤ → Block → K → Posted K
  stopped ret got k = record { ret = ret; bytes = got; inva = true; system = k }

  abbrev pub complete : Block → K → Posted K
  complete got k = record { ret = pos (length got); bytes = got; inva = false; system = k }

  -- What a round makes of the answer, where `got` was moved before and `again` is the next round.
  abbrev pub buf_round :
      ℕ → (Block → K → Outcome (Posted K)) → Block → Answer × K → Outcome (Posted K)
  buf_round len again got (moved xs, k) =
      if length (got ++ xs) == len then done (complete (got ++ xs) k) else again (got ++ xs) k
  buf_round len again got (closed, k) = done (stopped eof got k)
  buf_round len again got (failed e, k) = done (stopped (total_or got (errno e)) got k)

  -- `io` is the call at the position where it goes on, for what is left of the `len` bytes. A loop of
  -- more rounds than `fuel` is a `fault`.
  unfoldable pub buf_post : (ℕ → K → Answer × K) → ℕ → ℕ → Block → K → Outcome (Posted K)
  buf_post io zero len got k = fault
  buf_post io (suc fuel) len got k = buf_round len (buf_post io fuel len) got (io (length got) k)
