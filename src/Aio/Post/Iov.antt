-- ===== src/Aio/Post/Iov.antt =====
-- dpasc_epoll.c: `_dpioc_iov_total`, `_dpioc_iov_advance`, `_dpaio_iov_post` and `_dpaio_msg_post`,
-- which move bytes to or from a list of segments.
pub mod Same
use dpapp.Common.{
  ℕ, zero, suc, ◌+◌, ◌-◌, Bool, true, false, Option, none, some, List, [], ◌∷◌, ◌++◌, ◌==◌, ltb,
  leb, ◌%◌, ◌^◌, ◌&&◌, if◌then◌else◌, length, take,
}
use dpapp.Common.Int.{ℤ, pos, negsuc, int_max}
use dpapp.Common.Outcome.{Outcome, done, fault}
use dpapp.Mem.{Block}
use dpapp.Aio.{Answer, moved, closed, failed, Posted, errno, eof}
use dpapp.Aio.Post.{total_or, stopped, complete}

-- `struct iovec`.
pub record Iovec : Type 0 where
  pub base : ℕ
  pub len : ℕ

abbrev pub sum_len : List Iovec → ℕ
sum_len [] = 0
sum_len (seg ∷ iov) = seg.len + sum_len iov

-- The first argument is NULL or an array, the second the number of its segments.
unfoldable pub iov_total : Option (List Iovec) → ℤ → ℕ
iov_total none n = 0
iov_total (some iov) (pos n) = sum_len (take n iov)
iov_total (some iov) (negsuc n) = 0

-- The loop ends where no segment or no byte is left, or inside a segment.
unfoldable pub iov_advance : List Iovec → ℕ → List Iovec
iov_advance [] n = []
iov_advance (seg ∷ iov) n =
    let rest = iov_advance iov (n - seg.len) in
    if n == 0
    then seg ∷ iov
    else if ltb n seg.len
    then record { base = seg.base + n; len = seg.len - n } ∷ iov
    else rest

-- `total == total_len`, where `total_len` is the `int` that the sum of the segments is narrowed to;
-- a negative one is never reached.
abbrev pub is_total : ℕ → ℕ → Bool
is_total total sum = leb (sum % 2 ^ 32) int_max && total == sum % 2 ^ 32

module _ {K : Type 0} where
  abbrev pub iov_round :
      ℕ
      → (List Iovec → Block → K → Outcome (Posted K))
      → List Iovec
      → Block
      → Answer × K
      → Outcome (Posted K)
  iov_round len again iov got (moved xs, k) =
      if is_total (length (got ++ xs)) len
      then done (complete (got ++ xs) k)
      else again (iov_advance iov (length xs)) (got ++ xs) k
  iov_round len again iov got (closed, k) = done (stopped eof got k)
  iov_round len again iov got (failed e, k) = done (stopped (total_or got (errno e)) got k)

  -- `io` is `readv` or `writev` on a list of segments, `len` their total size.
  unfoldable pub iov_post :
      (List Iovec → K → Answer × K) → ℕ → ℕ → List Iovec → Block → K → Outcome (Posted K)
  iov_post io zero len iov got k = fault
  iov_post io (suc fuel) len iov got k = iov_round len (iov_post io fuel len) iov got (io iov k)

  abbrev pub msg_round :
      ℕ
      → (List Iovec → Block → K → Outcome (Posted K))
      → List Iovec
      → Block
      → Answer × K
      → Outcome (Posted K)
  msg_round len again iov got (moved xs, k) =
      if is_total (length (got ++ xs)) len
      then done (complete (got ++ xs) k)
      else again (iov_advance iov (length xs)) (got ++ xs) k
  msg_round len again iov got (closed, k) = done (stopped (total_or got eof) got k)
  msg_round len again iov got (failed e, k) = done (stopped (total_or got (errno e)) got k)

  -- `io` is `recvmsg` or `sendmsg`. The fields of the `msghdr` that it sets are part of the system.
  unfoldable pub msg_post :
      (List Iovec → K → Answer × K) → ℕ → ℕ → List Iovec → Block → K → Outcome (Posted K)
  msg_post io zero len iov got k = fault
  msg_post io (suc fuel) len iov got k = msg_round len (msg_post io fuel len) iov got (io iov k)
