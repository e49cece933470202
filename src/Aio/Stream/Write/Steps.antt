-- ===== src/Aio/Stream/Write/Steps.antt =====
-- What a round of `_dpaio_write_some_post` writes, in which order, and when it ends.
use dpapp.Common.{
  ℕ, ◌+◌, ◌-◌, ◌^◌, ◌≤◌, ◌<◌, ◌≡◌, refl, sym, ap, ◌∙◌, ◌⊎◌, inl, inr, true, false, [], ◌++◌, leb,
  arith, length, take, take-take, Bool-cases,
}
use dpapp.Common.Int.{pos, sub_ℕ, index-sub_ℕ}
use dpapp.Common.Outcome.{done, Returns, returns, Returns-value}
use dpapp.Mem.{Block}
use dpapp.Mem.Slice.{read_at-done, length-slice, slice_at, slice-add}
use dpapp.Buf.{Buf, bytes}
use dpapp.Buf.Valid.{IsValid, readable}
use dpapp.Buf.Seek.{seek_cur, rseek}
use dpapp.Buf.Seek.Moves.{target, rseek-goal}
use dpapp.Aio.{Posted, wait, errno, eof}
use dpapp.Aio.Post.{stopped, complete}
use dpapp.Aio.Post.Moves.{Sound, all_moved, some_moved, none_moved, at_end}
use dpapp.Aio.Stream.{Stm, Writer, Next, Came, Stopped, errno-Stopped, answer, on_ret}
use dpapp.Aio.Stream.Read.Some.{on_ret-pos, on_ret-errno}
use dpapp.Aio.Stream.Write.{offered, enough_or, write_some_got, write_some_post}

-- The stream offers just what the buffer has to read.
pub record IsSending (stm : Stm) : Type 0 where
  pub valid : IsValid stm.buf
  pub at_rbeg : stm.io_at ≡ stm.buf.rbeg
  pub all_of_it : stm.buf.rbeg + stm.io_len ≡ stm.buf.rend

-- The buffer after `n` bytes of it were written.
abbrev pub sent : Buf → ℕ → Buf
sent b n = record b { rbeg = b.rbeg + n }

pub rseek-cur :
    {b : Buf} (n : ℕ)
    → IsValid b
    → b.size < 2 ^ 30
    → b.rbeg + n ≤ b.rend
    → rseek b (pos n) seek_cur ≡ done (sub_ℕ (b.rbeg + n) b.rbeg, sent b n)
rseek-cur {b} n v small fits =
    let to : target b.rbeg (pos n) 0 b.rend ≡ b.rbeg + n = omega arith in
    (rseek-goal (pos n) v small (omega arith) seek_cur).0
    ∙ ap (λ t. done (sub_ℕ t b.rbeg, record b { rbeg = t })) to

readable-sent :
    (b : Buf) (n : ℕ)
    → b.rbeg + n ≤ b.rend
    → take n (readable b) ++ readable (sent b n) ≡ readable b
readable-sent b n fits =
    ap (λ z. z ++ readable (sent b n)) (take-take n (b.rend - b.rbeg) _ (omega arith))
    ∙ sym (
        slice_at (bytes b) b.rbeg b.rbeg (b.rend - b.rbeg) (n + (b.rend - (b.rbeg + n))) refl
          (omega arith)
        ∙ slice-add (bytes b) b.rbeg n (b.rend - (b.rbeg + n)))

-- What a round makes of the stream where the operation below answers `p`: the bytes that were written and those that the buffer has left
-- are those that it had, and the round answers the total where that has reached `len`, or waits; or
-- the operation stopped, and the buffer is as it was.
pub data WriteStep {K : Type 0} (stm : Stm) (p : Posted K) (next : Next K) : Type 0 where
  wrote :
      (xs : Block)
      → Came p xs
      → 0 < length xs
      → xs ++ readable next.stm.buf ≡ readable stm.buf
      → IsValid next.stm.buf
      → next.stm.total ≡ stm.total + length xs
      → ((stm.len ≤ next.stm.total) × (next.ret ≡ pos next.stm.total))
        ⊎ ((next.stm.total < stm.len) × (next.ret ≡ wait) × IsSending next.stm)
      → WriteStep stm p next
  stops : Stopped p → next.stm ≡ stm → next.ret ≡ enough_or stm p.ret → WriteStep stm p next

module _ {stm : Stm} (s : IsSending stm) where
  sent-IsValid : (n : ℕ) → n ≤ stm.io_len → IsValid (sent stm.buf n)
  sent-IsValid n fits = record {
    read_order = omega (arith, s.all_of_it);
    write_order = s.valid.write_order;
    in_size = s.valid.in_size;
    in_block = s.valid.in_block;
    maxs_in_block = s.valid.maxs_in_block;
  }

  sent-IsSending :
      (n : ℕ)
      → n ≤ stm.io_len
      → IsSending (record stm {
        buf = sent stm.buf n;
        io_at = stm.io_at + n;
        io_len = stm.io_len - n;
        total = stm.total + n;
      })
  sent-IsSending n fits = record {
    valid = sent-IsValid n fits;
    at_rbeg = ap (λ z. z + n) s.at_rbeg;
    all_of_it = omega (arith, s.all_of_it);
  }

  in_data : stm.buf.rbeg + (stm.buf.rend - stm.buf.rbeg) ≤ length (bytes stm.buf)
  in_data = let v = s.valid in omega (arith, v.read_order, v.write_order, v.in_size, v.in_block)

  offered-readable : offered stm ≡ done (readable stm.buf)
  offered-readable =
      read_at-done (bytes stm.buf) stm.io_at stm.io_len
        (omega (arith, s.at_rbeg, s.all_of_it, in_data))
      ∙ ap done (
          slice_at (bytes stm.buf) stm.io_at stm.buf.rbeg stm.io_len (stm.buf.rend - stm.buf.rbeg)
            s.at_rbeg (omega (arith, s.all_of_it)))

  length-readable : length (readable stm.buf) ≡ stm.io_len
  length-readable =
      length-slice (bytes stm.buf) stm.buf.rbeg (stm.buf.rend - stm.buf.rbeg) in_data
      ∙ omega (arith, s.all_of_it)

  module _ {K : Type 0} (p : Posted K) where
    went_on-WriteStep :
        (xs : Block)
        → Came p xs
        → 0 < length xs
        → length xs ≤ stm.io_len
        → xs ++ readable (sent stm.buf (length xs)) ≡ readable stm.buf
        → leb stm.len (stm.total + length xs) ≡ false
        → WriteStep stm p (
            answer p
              (record stm {
                buf = sent stm.buf (length xs);
                io_at = stm.io_at + length xs;
                io_len = stm.io_len - length xs;
                total = stm.total + length xs;
              })
              wait)
    went_on-WriteStep xs came some fits order more =
        wrote xs came some order (sent-IsValid (length xs) fits) refl
          (inr (ground (arith, more), refl, sent-IsSending (length xs) fits))

    ended-WriteStep :
        (xs : Block)
        → Came p xs
        → 0 < length xs
        → length xs ≤ stm.io_len
        → xs ++ readable (sent stm.buf (length xs)) ≡ readable stm.buf
        → leb stm.len (stm.total + length xs) ≡ true
        → WriteStep stm p (
            answer p
              (record stm { buf = sent stm.buf (length xs); total = stm.total + length xs })
              (pos (stm.total + length xs)))
    ended-WriteStep xs came some fits order enough =
        wrote xs came some order (sent-IsValid (length xs) fits) refl
          (inl (ground (arith, enough), refl))

    got-WriteStep :
        (xs : Block)
        → Came p xs
        → stm.buf.size < 2 ^ 30
        → 0 < length xs
        → length xs ≤ stm.io_len
        → xs ≡ take (length xs) (readable stm.buf)
        → Returns (WriteStep stm p) (write_some_got p stm (length xs))
    unfolding write_some_got
    got-WriteStep xs came small some fits right =
        let n = length xs in
        let room : stm.buf.rbeg + n ≤ stm.buf.rend = omega (arith, s.all_of_it) in
        let order : xs ++ readable (sent stm.buf n) ≡ readable stm.buf =
          ap (λ z. z ++ readable (sent stm.buf n)) right ∙ readable-sent stm.buf n room in
        rw (rseek-cur n s.valid small room) (elim (Bool-cases (leb stm.len (stm.total + n))) [
          | inl enough ↦ rw enough (returns (ended-WriteStep xs came some fits order enough))
          | inr more ↦ rw more (
              rw (index-sub_ℕ stm.io_len n fits)
                (returns (went_on-WriteStep xs came some fits order more)))
        ])

    Stopped-WriteStep : Stopped p → WriteStep stm p (answer p stm (enough_or stm p.ret))
    Stopped-WriteStep stop = stops stop refl refl

  module _ {K : Type 0} (small : stm.buf.size < 2 ^ 30) (offers : 0 < stm.io_len) where
    posted-WriteStep :
        (p : Posted K)
        → Sound (length (readable stm.buf)) (λ xs. xs ≡ take (length xs) (readable stm.buf)) p
        → Returns
            (WriteStep stm p)
            (on_ret p.ret (done (answer p stm (enough_or stm p.ret))) (write_some_got p stm))
    posted-WriteStep _ (all_moved {xs} {k} e r) =
        rw (on_ret-pos (length xs) _ _ (omega (arith, length-readable))) (
          got-WriteStep (complete xs k) xs (refl, refl) small (omega (arith, length-readable))
            (omega (arith, length-readable)) r)
    posted-WriteStep _ (some_moved {xs} {k} some lt r) = rw (on_ret-pos (length xs) _ _ some) (
        got-WriteStep (stopped (pos (length xs)) xs k) xs (refl, refl) small some
          (omega (arith, length-readable)) r)
    posted-WriteStep _ (none_moved {k} e) =
        rw (on_ret-errno e _ _)
          (returns (Stopped-WriteStep (stopped (errno e) [] k) (errno-Stopped e)))
    posted-WriteStep _ (at_end {xs} {k} lt r) = returns (Stopped-WriteStep (stopped eof xs k) refl)

    -- A round of dpaio_write_some that offers all that the buffer has to read (not nothing, a size
    -- below 2^30): where the operation below writes n > 0 bytes, these followed by the bytes left
    -- to read are those that were there to read, so none is lost, doubled or overtaken, and the
    -- round answers the total where that has reached min_len and otherwise waits, again offering
    -- all that is left; where it answers 0 or an error, the stream is as it was, and the round
    -- answers the total where that is enough and otherwise just that answer.
    pub write_some_post-WriteStep :
        (sub : Writer K) (k : K)
        → (p : Posted K) × (sub.post (readable stm.buf) k ≡ done p)
          × Returns (WriteStep stm p) (write_some_post sub stm k)
    unfolding write_some_post
    write_some_post-WriteStep sub k =
        let (p, e, h) =
          Returns-value (sub.sound (readable stm.buf) k (omega (arith, length-readable))) in
        (p, e, rw offered-readable (rw e (posted-WriteStep p h)))
