-- ===== src/Aio/Post/Moves.antt =====
-- What `_dpaio_buf_post` returns for a system that answers as documented.
use dpapp.Common.{
  ℕ, zero, suc, ◌+◌, ◌≤◌, ◌<◌, ◌≡◌, refl, inl, inr, false, [], ◌∷◌, ◌++◌, ◌==◌, ==_iff, lt→ltb,
  arith, length, length-append, Bool-cases,
}
use dpapp.Common.Int.{pos}
use dpapp.Common.Outcome.{Outcome, done, Returns, returns}
use dpapp.Mem.{Block}
use dpapp.Aio.{Answer, moved, closed, failed, Posted, errno, eof}
use dpapp.Aio.Post.{total_or, stopped, complete, buf_round, buf_post}

-- What `read(2)` and its like promise for `len` bytes: at least one byte is moved, and no more than
-- are left from the position on. `Right` says which bytes these can be.
pub record Device {K : Type 0} (len : ℕ) (Right : Block → Type 0) (io : ℕ → K → Answer × K)
    : Type 0 where
  pub some_moved : {at : ℕ} {k k' : K} {xs : Block} → io at k ≡ (moved xs, k') → 0 < length xs
  pub in_room : {at : ℕ} {k k' : K} {xs : Block} → io at k ≡ (moved xs, k') → at + length xs ≤ len
  pub keeps_right :
      {got xs : Block} {k k' : K}
      → Right got
      → io (length got) k ≡ (moved xs, k')
      → Right (got ++ xs)

-- The results: all bytes; some, and then an error; none, and an error; or the other side has closed,
-- and what was moved before that is not told. All but the first withdraw the event.
pub data Sound {K : Type 0} (len : ℕ) (Right : Block → Type 0) : Posted K → Type 0 where
  all_moved : {xs : Block} {k : K} → length xs ≡ len → Right xs → Sound len Right (complete xs k)
  some_moved :
      {xs : Block} {k : K}
      → 0 < length xs
      → length xs < len
      → Right xs
      → Sound len Right (stopped (pos (length xs)) xs k)
  none_moved : {k : K} (e : ℕ) → Sound len Right (stopped (errno e) [] k)
  at_end : {xs : Block} {k : K} → length xs < len → Right xs → Sound len Right (stopped eof xs k)

failed-Sound :
    {K : Type 0} {len : ℕ} (Right : Block → Type 0) (got : Block) (e : ℕ) (k : K)
    → length got < len
    → Right got
    → Sound len Right (stopped (total_or got (errno e)) got k)
failed-Sound Right [] e k h r = none_moved e
failed-Sound Right (x ∷ got) e k h r =
    rw (lt→ltb 0 (length (x ∷ got)) (omega arith)) (some_moved (omega arith) h r)

module _ {K : Type 0} {len : ℕ} {Right : Block → Type 0} {io : ℕ → K → Answer × K}
    (d : Device len Right io) where
  round-Sound :
      (again : Block → K → Outcome (Posted K)) (got : Block) (k : K) (answer : Answer × K)
      → io (length got) k ≡ answer
      → length got < len
      → Right got
      → ((xs : Block) (k : K)
          → length got < length xs
          → length xs < len
          → Right xs
          → Returns (Sound len Right) (again xs k))
      → Returns (Sound len Right) (buf_round len again got answer)
  round-Sound again got k (closed, k') e h r next = returns (at_end h r)
  round-Sound again got k (failed n, k') e h r next = returns (failed-Sound Right got n k' h r)
  round-Sound again got k (moved xs, k') e h r next =
      elim (Bool-cases (length (got ++ xs) == len)) [
        | inl full ↦ rw full (returns (all_moved ((==_iff _ len).0 full) (d.keeps_right r e)))
        | inr more ↦ rw more (
            let n = length-append got xs in
            let fits = d.in_room e in
            next (got ++ xs) k' (omega (arith, d.some_moved e, n)) (ground (arith, n, fits, more))
              (d.keeps_right r e))
      ]

  buf_post-Sound_from :
      (fuel : ℕ) (got : Block) (k : K)
      → length got < len
      → len ≤ fuel + length got
      → Right got
      → Returns (Sound len Right) (buf_post io fuel len got k)
  unfolding buf_post
  buf_post-Sound_from zero got k h enough r = absurd (omega arith)
  buf_post-Sound_from (suc fuel) got k h enough r =
      round-Sound (buf_post io fuel len) got k (io (length got) k) refl h r
        λ xs k' longer lt r'. buf_post-Sound_from fuel xs k' lt (omega arith) r'

  -- The loop of _dpaio_buf_post for len bytes, over a call that moves at least one byte and no
  -- more than are left: len rounds are enough for it to return, with len and all bytes; or with
  -- how many came, some but not all, or an error where none came, or DPE_EOF, and then it
  -- withdraws the event.
  pub buf_post-Sound :
      (k : K) → 0 < len → Right [] → Returns (Sound len Right) (buf_post io len len [] k)
  buf_post-Sound k h r = buf_post-Sound_from len [] k h (omega arith) r

-- Where a part of the bytes is moved and the other side then closes, _dpaio_buf_post returns
-- DPE_EOF and not how many were moved.
pub buf_post-loses :
    {K : Type 0} (io : ℕ → K → Answer × K) (len fuel : ℕ) {k k1 k2 : K} {xs : Block}
    → io 0 k ≡ (moved xs, k1)
    → length xs < len
    → io (length xs) k1 ≡ (closed, k2)
    → buf_post io (suc (suc fuel)) len [] k ≡ done (stopped eof xs k2)
unfolding buf_post
buf_post-loses io len fuel {xs} first short second =
    let more : (length xs == len) ≡ false = ground arith in rw (first, more, second)
