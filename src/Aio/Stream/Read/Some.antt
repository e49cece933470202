-- ===== src/Aio/Stream/Read/Some.antt =====
-- `_dpaio_read_some_post`: one round of `dpaio_read_some`.
use dpapp.Common.{
  [], ℕ, zero, suc, ◌+◌, ◌-◌, ◌^◌, ◌≤◌, ◌<◌, min, ◌≡◌, refl, ◌∙◌, ◌⊎◌, inl, inr, Bool, true, false,
  ◌||◌, ◌++◌, ltb, leb, arith, length, if◌then◌else◌, Bool-cases,
}
use dpapp.Common.Int.{ℤ, pos}
use dpapp.Common.Outcome.{done, ◌>>=◌, Returns, returns, Returns-bind, Returns-value}
use dpapp.Mem.{Block, Alloc}
use dpapp.Buf.Valid.{IsValid, readable, pending, Keeps}
use dpapp.Aio.{Posted, wait, nomem, errno, eof}
use dpapp.Aio.Post.{stopped, complete}
use dpapp.Aio.Post.Moves.{Sound, all_moved, some_moved, none_moved, at_end}
use dpapp.Aio.Stream.{
  Stm, Reader, Next, Came, Stopped, errno-Stopped, answer, on_ret, total_or, batch,
}
use dpapp.Aio.Stream.Read.{fill, grow, read_some_got, read_some_post}
use dpapp.Aio.Stream.Read.Steps.{
  filled, filled-Keeps, fill-filled, wseek-cur, eseek-end, shown, shown-IsValid, advanced,
  advanced-IsValid, readable-advanced, IsReady, GrownBy, grow-GrownBy,
}

-- What a round makes of the stream `stm` where the operation below answers `p`: bytes came and stand
-- behind all that the buffer held, and it answers how many came in all, or waits and is ready; or
-- the operation stopped.
pub data ReadStep {K : Type 0} (stm : Stm) (p : Posted K) (next : Next K) : Type 0 where
  got :
      (xs : Block)
      → Came p xs
      → 0 < length xs
      → length xs ≤ stm.io_len
      → IsValid next.stm.buf
      → readable next.stm.buf ≡ readable stm.buf ++ (pending stm.buf ++ xs)
      → next.stm.total ≡ stm.total + length xs
      → (next.ret ≡ pos next.stm.total)
        ⊎ ((next.ret ≡ wait) × (next.stm.total < stm.len) × IsReady next.stm)
      → ReadStep stm p next
  none_got :
      Stopped p
      → Keeps stm.buf next.stm.buf
      → next.stm.total ≡ stm.total
      → next.ret ≡ total_or stm p.ret
      → ReadStep stm p next

pub on_ret-pos :
    {A : Type 0} (n : ℕ) (stop : A) (go : ℕ → A) → 0 < n → on_ret (pos n) stop go ≡ go n
on_ret-pos zero stop go h = absurd (omega arith)
on_ret-pos (suc n) stop go h = refl

pub on_ret-errno : {A : Type 0} (e : ℕ) (stop : A) (go : ℕ → A) → on_ret (errno e) stop go ≡ stop
on_ret-errno zero stop go = refl
on_ret-errno (suc e) stop go = refl

total_or-pos : (stm : Stm) (r : ℤ) → 0 < stm.total → total_or stm r ≡ pos stm.total
total_or-pos stm r h = ground arith

module _ (env : Alloc) {K : Type 0} {stm : Stm} (ready : IsReady stm)
    (small : stm.buf.size + batch < 2 ^ 30) where
  grown-ReadStep :
      (p : Posted K) (xs : Block)
      → Came p xs
      → 0 < length xs
      → length xs ≤ stm.io_len
      → stm.buf.wbeg + length xs ≤ stm.buf.size
      → stm.total + length xs < stm.len
      → (r : Bool) (s : Stm)
      → GrownBy
          (record stm { buf = shown (advanced stm.buf xs); total = stm.total + length xs })
          (r, s)
      → ReadStep stm p (answer p s (if r then wait else total_or s nomem))
  grown-ReadStep p xs came some fits room more r s g =
      got xs came some fits g.keeps.valid
        (g.keeps.same_readable ∙ readable-advanced xs ready.room.valid room) g.same_total
        (went_on r g)
    where
      went_on :
          (r : Bool)
          → GrownBy
              (record stm { buf = shown (advanced stm.buf xs); total = stm.total + length xs })
              (r, s)
          → ((if r then wait else total_or s nomem) ≡ pos s.total)
            ⊎ (((if r then wait else total_or s nomem) ≡ wait) × (s.total < stm.len) × IsReady s)
      went_on true g = inr (
        refl,
        omega (arith, more, g.same_total),
        record { room = g.room refl; no_flag = g.same_flag ∙ ready.no_flag },
      )
      went_on false g = inl (total_or-pos s nomem (omega (arith, g.same_total)))

  more-ReadStep :
      (p : Posted K) (xs : Block)
      → Came p xs
      → 0 < length xs
      → length xs ≤ stm.io_len
      → stm.total + length xs < stm.len
      → let stm' = record stm {
        buf = shown (advanced stm.buf xs);
        total = stm.total + length xs;
      } in
        Returns (ReadStep stm p) (do
          (room, stm'') ← grow env stm' (min (stm.len - (stm.total + length xs)) batch)
          done (answer p stm'' (if room then wait else total_or stm'' nomem)))
  more-ReadStep p xs came some fits h =
      let room : stm.buf.wbeg + length xs ≤ stm.buf.size = omega (arith, ready.room.in_room) in
      let stm' = record stm { buf = shown (advanced stm.buf xs); total = stm.total + length xs } in
      Returns-bind
        (grow-GrownBy env {stm = stm'} (min (stm.len - (stm.total + length xs)) batch)
          (shown-IsValid (advanced-IsValid xs ready.room.valid room)) (omega arith) (omega arith))
        λ (r, s) g. returns (grown-ReadStep p xs came some fits room h r s g)

  got-ReadStep :
      (p : Posted K) (xs : Block)
      → Came p xs
      → 0 < length xs
      → length xs ≤ stm.io_len
      → Returns
          (ReadStep stm p)
          (read_some_got env p (record stm { buf = filled stm.buf xs }) (length xs))
  unfolding read_some_got
  got-ReadStep p xs came some fits =
      let v = ready.room.valid in
      let room : stm.buf.wbeg + length xs ≤ stm.buf.size = omega (arith, ready.room.in_room) in
      let vf = (filled-Keeps xs v room).valid in
      rw (wseek-cur (length xs) vf (omega arith) room) (
        rw (eseek-end (advanced-IsValid xs v room) (omega arith))
          (elim (Bool-cases (ltb (length xs) stm.io_len || leb stm.len (stm.total + length xs))) [
            | inl last ↦ rw last (
                returns (
                  got xs came some fits (shown-IsValid (advanced-IsValid xs v room))
                    (readable-advanced xs v room) refl (inl refl)))
            | inr more ↦ rw more (more-ReadStep p xs came some fits (ground (arith, more)))
          ]))

  Stopped-ReadStep :
      (p : Posted K) (xs : Block)
      → Stopped p
      → length xs ≤ stm.io_len
      → ReadStep stm p (
          answer p
            (record stm { buf = filled stm.buf xs })
            (total_or (record stm { buf = filled stm.buf xs }) p.ret))
  Stopped-ReadStep p xs stop fits =
      none_got stop (filled-Keeps xs ready.room.valid (omega (arith, ready.room.in_room))) refl refl

  moved-ReadStep :
      (p : Posted K) (xs : Block)
      → Came p xs
      → 0 < length xs
      → length xs ≤ stm.io_len
      → let s = record stm { buf = filled stm.buf xs } in
        Returns
          (ReadStep stm p)
          (on_ret (pos (length xs)) (done (answer p s (total_or s p.ret))) (read_some_got env p s))
  moved-ReadStep p xs came some fits =
      rw (on_ret-pos (length xs) _ _ some) (got-ReadStep p xs came some fits)

  posted-ReadStep :
      (p : Posted K)
      → Sound stm.io_len (λ xs. Unit {0}) p
      → Returns (ReadStep stm p) (do
        s ← fill stm p.bytes
        on_ret p.ret (done (answer p s (total_or s p.ret))) (read_some_got env p s))
  posted-ReadStep _ (all_moved {xs} {k} e r) =
      rw (fill-filled stm xs ready.room.valid (omega (arith, ready.room.in_room))) (
        moved-ReadStep (complete xs k) xs (refl, refl) (omega (arith, ready.room.some_room))
          (omega arith))
  posted-ReadStep _ (some_moved {xs} {k} some lt r) =
      rw (fill-filled stm xs ready.room.valid (omega (arith, ready.room.in_room)))
        (moved-ReadStep (stopped (pos (length xs)) xs k) xs (refl, refl) some (omega arith))
  posted-ReadStep _ (none_moved {k} e) =
      rw (fill-filled stm [] ready.room.valid (omega (arith, ready.room.in_room))) (
        rw (on_ret-errno e _ _)
          (returns (Stopped-ReadStep (stopped (errno e) [] k) [] (errno-Stopped e) (omega arith))))
  posted-ReadStep _ (at_end {xs} {k} lt r) =
      rw (fill-filled stm xs ready.room.valid (omega (arith, ready.room.in_room)))
        (returns (Stopped-ReadStep (stopped eof xs k) xs refl (omega arith)))

  -- A round of dpaio_read_some on a ready stream with a size below 2^30 - 8192, whatever the
  -- operation below answers: where it brings n > 0 bytes, readable is what was readable and
  -- pending before with just these behind, the total grows by n, and the round answers the total,
  -- or waits with the total below len and room for more; where it answers 0 or an error, the
  -- buffer keeps what it held, and the round answers the total so far if that is positive and
  -- otherwise just that answer.
  pub read_some_post-ReadStep :
      (sub : Reader K) (k : K)
      → (p : Posted K) × (sub.post stm.flag stm.io_len k ≡ done p)
        × Returns (ReadStep stm p) (read_some_post env sub stm k)
  unfolding read_some_post
  read_some_post-ReadStep sub k =
      let (p, e, h) =
        Returns-value (sub.sound stm.flag stm.io_len k ready.no_flag ready.room.some_room) in
      (p, e, rw e (posted-ReadStep p h))
