-- ===== src/Aio/Stream/Data/Rounds.antt =====
-- The streams on a bare block: the invariant of a round, and the bytes that `dpaio_read_data` brings.
use dpapp.Common.{
  ℕ, ◌+◌, ◌-◌, ◌≤◌, ◌<◌, ◌≡◌, refl, ap, ◌∙◌, ◌⊎◌, inl, inr, true, false, [], ◌++◌, ltb, leb, arith,
  length, if◌then◌else◌, Bool-cases,
}
use dpapp.Common.Int.{pos, index-sub_ℕ}
use dpapp.Common.Outcome.{done, ◌>>=◌, Returns, returns, Returns-value}
use dpapp.Mem.{Block, slice, splice, write_at}
use dpapp.Mem.Slice.{write_at-done, length-splice, slice-splice_before, slice-splice_end, slice_at}
use dpapp.Aio.{Posted, wait, errno, eof}
use dpapp.Aio.Post.{stopped, complete}
use dpapp.Aio.Post.Moves.{Sound, all_moved, some_moved, none_moved, at_end}
use dpapp.Aio.Stream.{Reader, Came, Stopped, errno-Stopped, on_ret}
use dpapp.Aio.Stream.Read.Some.{on_ret-pos, on_ret-errno}
use dpapp.Aio.Stream.Data.{Raw, NextRaw, tell, partial, data_got, read_data_post}

-- The stream began at `base` and is not at its end.
pub record IsGoing (base : ℕ) (raw : Raw) : Type 0 where
  pub counted : raw.io_at ≡ base + raw.total
  pub rest : raw.total + raw.io_len ≡ raw.len
  pub some_left : 0 < raw.io_len
  pub in_block : base + raw.len ≤ length raw.mem

-- The bytes that came so far.
abbrev pub arrived : ℕ → Raw → Block
arrived base raw = slice raw.mem base raw.total

-- What a round makes of the stream where the operation below answers `p`: bytes were put behind those that came before, and it answers
-- `len` exactly where all are there and waits otherwise; or the operation stopped.
pub data DataStep {K : Type 0} (base : ℕ) (raw : Raw) (p : Posted K) (next : NextRaw K)
    : Type 0 where
  brought :
      (xs : Block)
      → Came p xs
      → 0 < length xs
      → arrived base next.raw ≡ arrived base raw ++ xs
      → ((next.raw.total ≡ raw.len) × (next.ret ≡ pos raw.len))
        ⊎ ((next.ret ≡ wait) × IsGoing base next.raw)
      → DataStep base raw p next
  stops :
      Stopped p
      → arrived base next.raw ≡ arrived base raw
      → next.raw.total ≡ raw.total
      → next.ret ≡ (if ltb 0 raw.total then pos raw.total else p.ret)
      → DataStep base raw p next

-- The stream after `xs` was put at its position.
abbrev filled_raw : Raw → Block → Raw
filled_raw raw xs = record raw { mem = splice raw.mem raw.io_at xs }

module _ {base : ℕ} {raw : Raw} (g : IsGoing base raw) where
  arrived-filled_raw :
      (xs : Block)
      → length xs ≤ raw.io_len
      → slice (splice raw.mem raw.io_at xs) base (raw.total + length xs) ≡ arrived base raw ++ xs
  arrived-filled_raw xs fits =
      slice_at (splice raw.mem raw.io_at xs) base base (raw.total + length xs)
        (raw.io_at + length xs - base) refl (omega (arith, g.counted))
      ∙ slice-splice_end raw.mem base raw.io_at xs (omega (arith, g.counted))
          (omega (arith, g.counted, g.rest, g.in_block))
      ∙ ap (λ z. z ++ xs)
          (slice_at raw.mem base base (raw.io_at - base) raw.total refl (omega (arith, g.counted)))

  arrived_before : (xs : Block) → arrived base (filled_raw raw xs) ≡ arrived base raw
  arrived_before xs =
      slice-splice_before raw.mem raw.io_at xs base raw.total (omega (arith, g.counted))

  next-IsGoing :
      (xs : Block)
      → length xs < raw.io_len
      → IsGoing base record {
        mem = splice raw.mem raw.io_at xs;
        io_at = raw.io_at + length xs;
        io_len = raw.io_len - length xs;
        total = raw.total + length xs;
        len = raw.len;
      }
  next-IsGoing xs h = record {
    counted = omega (arith, g.counted);
    rest = omega (arith, g.rest);
    some_left = omega arith;
    in_block = omega (arith, g.in_block, length-splice raw.mem raw.io_at xs);
  }

  module _ {K : Type 0} (p : Posted K) (xs : Block) (came : Came p xs) (some : 0 < length xs)
      (fits : length xs ≤ raw.io_len) where
    went_on-DataStep :
        leb raw.len (raw.total + length xs) ≡ false
        → DataStep base raw p (
            tell p
              record {
                mem = splice raw.mem raw.io_at xs;
                io_at = raw.io_at + length xs;
                io_len = raw.io_len - length xs;
                total = raw.total + length xs;
                len = raw.len;
              }
              wait)
    went_on-DataStep more =
        let rest = g.rest in
        brought xs came some (arrived-filled_raw xs fits)
          (inr (refl, next-IsGoing xs (ground (arith, more))))

    ended-DataStep :
        leb raw.len (raw.total + length xs) ≡ true
        → DataStep base raw p (
            tell p
              (record (filled_raw raw xs) { total = raw.total + length xs })
              (pos (raw.total + length xs)))
    ended-DataStep enough =
        let rest = g.rest in
        let all : raw.total + length xs ≡ raw.len = ground (arith, enough) in
        brought xs came some (arrived-filled_raw xs fits) (inl (all, ap pos all))

    got-DataStep : Returns (DataStep base raw p) (data_got p (filled_raw raw xs) (length xs))
    unfolding data_got
    got-DataStep = elim (Bool-cases (leb raw.len (raw.total + length xs))) [
      | inl enough ↦ rw enough (returns (ended-DataStep enough))
      | inr more ↦
          rw more (rw (index-sub_ℕ raw.io_len (length xs) fits) (returns (went_on-DataStep more)))
    ]

  Stopped-DataStep :
      {K : Type 0} (p : Posted K) (xs : Block)
      → Stopped p
      → DataStep base raw p (partial p (filled_raw raw xs))
  Stopped-DataStep p xs stop = stops stop (arrived_before xs) refl refl

  write-filled_raw :
      (xs : Block)
      → length xs ≤ raw.io_len
      → write_at raw.mem raw.io_at xs ≡ done (splice raw.mem raw.io_at xs)
  write-filled_raw xs fits =
      write_at-done raw.mem raw.io_at xs (omega (arith, g.counted, g.rest, g.in_block))

  module _ {K : Type 0} where
    posted-DataStep :
        (p : Posted K)
        → Sound raw.io_len (λ xs. Unit {0}) p
        → Returns (DataStep base raw p) (do
          mem ← write_at raw.mem raw.io_at p.bytes
          on_ret p.ret
              (done (partial p (record raw { mem = mem })))
              (data_got p (record raw { mem = mem })))
    posted-DataStep _ (all_moved {xs} {k} e r) = rw (write-filled_raw xs (omega arith)) (
        rw (on_ret-pos (length xs) _ _ (omega (arith, g.some_left)))
          (got-DataStep (complete xs k) xs (refl, refl) (omega (arith, g.some_left)) (omega arith)))
    posted-DataStep _ (some_moved {xs} {k} some lt r) = rw (write-filled_raw xs (omega arith)) (
        rw (on_ret-pos (length xs) _ _ some)
          (got-DataStep (stopped (pos (length xs)) xs k) xs (refl, refl) some (omega arith)))
    posted-DataStep _ (none_moved {k} e) = rw (write-filled_raw [] (omega arith)) (
        rw (on_ret-errno e _ _)
          (returns (Stopped-DataStep (stopped (errno e) [] k) [] (errno-Stopped e))))
    posted-DataStep _ (at_end {xs} {k} lt r) =
        rw (write-filled_raw xs (omega arith))
          (returns (Stopped-DataStep (stopped eof xs k) xs refl))

    -- A round of dpaio_read_data on a stream that is not at its end: where the operation below
    -- brings n > 0 bytes, they stand behind those that came before, and the round answers len
    -- exactly where all len bytes are there and otherwise waits with the position and the rest in
    -- step with the total; where it answers 0 or an error, what came before is kept, and the round
    -- answers the total where that is positive and otherwise just that answer.
    pub read_data_post-DataStep :
        (sub : Reader K) (k : K)
        → (p : Posted K) × (sub.post 0 raw.io_len k ≡ done p)
          × Returns (DataStep base raw p) (read_data_post sub raw k)
    unfolding read_data_post
    read_data_post-DataStep sub k =
        let (p, e, h) = Returns-value (sub.sound 0 raw.io_len k refl g.some_left) in
        (p, e, rw e (posted-DataStep p h))
