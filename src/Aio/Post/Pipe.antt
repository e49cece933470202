-- ===== src/Aio/Post/Pipe.antt =====
-- dpasc_epoll.c: `_dpgfd_splice_post` and `_dpgfd_tee_post`, between a pipe and a descriptor.
use dpapp.Common.{
  ℕ, zero, suc, ◌+◌, ◌-◌, ◌<◌, ◌≡◌, ap, ◌∙◌, true, false, [], ◌++◌, ◌==◌, arith, if◌then◌else◌,
  length, length-append, take, take-of_length_le,
}
use dpapp.Common.Int.{pos}
use dpapp.Common.Outcome.{Outcome, done, fault}
use dpapp.Mem.{Block}
use dpapp.Aio.{Answer, moved, closed, failed, Posted, errno}
use dpapp.Aio.Post.{total_or, stopped, complete}

module _ {K : Type 0} where
  -- With no more to come the event is kept, and an empty transfer is `DPE_OK`.
  abbrev pub ended : Block → K → Posted K
  ended got k = record { ret = total_or got (pos 0); bytes = got; inva = false; system = k }

  abbrev pub pipe_round :
      ℕ → (Block → K → Outcome (Posted K)) → Block → Answer × K → Outcome (Posted K)
  pipe_round len again got (moved xs, k) =
      if length (got ++ xs) == len then done (complete (got ++ xs) k) else again (got ++ xs) k
  pipe_round len again got (closed, k) = done (ended got k)
  pipe_round len again got (failed e, k) = done (stopped (total_or got (errno e)) got k)

  -- `io` is `splice` for the number of bytes given.
  unfoldable pub splice_post : (ℕ → K → Answer × K) → ℕ → ℕ → Block → K → Outcome (Posted K)
  splice_post io zero len got k = fault
  splice_post io (suc fuel) len got k =
      pipe_round len (splice_post io fuel len) got (io (len - length got) k)

  -- `io` is `tee`.
  unfoldable pub tee_post : (ℕ → K → Answer × K) → ℕ → ℕ → Block → K → Outcome (Posted K)
  tee_post io zero len got k = fault
  tee_post io (suc fuel) len got k =
      pipe_round len (tee_post io fuel len) got (io (len - length got) k)

-- `tee(2)` on a pipe that holds bytes: they are copied to the other pipe and stay. The system is what
-- the two pipes hold.
pub record TeeCopies (io : ℕ → Block × Block → Answer × (Block × Block)) : Type 0 where
  pub copies :
      (n : ℕ) (held out : Block)
      → 0 < n
      → 0 < length held
      → io n (held, out) ≡ (moved (take n held), (held, out ++ take n held))

-- _dpgfd_tee_post on a pipe that holds n bytes, asked for 2n, writes the same n bytes twice to the
-- other pipe and returns 2n, since tee(2) leaves what it copies in the pipe.
pub tee_post-doubles :
    (io : ℕ → Block × Block → Answer × (Block × Block))
    → TeeCopies io
    → (xs out : Block) (fuel : ℕ) → 0 < length xs
    → tee_post io (suc (suc fuel)) (length xs + length xs) [] (xs, out)
      ≡ done (complete (xs ++ xs) (xs, (out ++ xs) ++ xs))
unfolding tee_post
tee_post-doubles io t xs out fuel h =
    let n = length xs in
    let first : io (n + n - 0) (xs, out) ≡ (moved xs, (xs, out ++ xs)) =
      t.copies (n + n - 0) xs out (omega arith) h
      ∙ ap (λ (z : Block). (moved z, (xs, out ++ z)))
          (take-of_length_le (n + n - 0) xs (omega arith)) in
    let second : io (n + n - n) (xs, out ++ xs) ≡ (moved xs, (xs, (out ++ xs) ++ xs)) =
      t.copies (n + n - n) xs (out ++ xs) (omega arith) h
      ∙ ap (λ (z : Block). (moved z, (xs, (out ++ xs) ++ z)))
          (take-of_length_le (n + n - n) xs (omega arith)) in
    let more : (n == n + n) ≡ false = ground arith in
    let all : (length (xs ++ xs) == n + n) ≡ true = ground (arith, length-append xs xs) in
    rw (first, more, second, all)
