-- ===== src/Aio/Stream/Read/Must.antt =====
-- `_dpaio_read_must_post`: what a round does, and the round that ends too early.
use dpapp.Common.{
  ◌+◌, ◌-◌, ◌^◌, ◌≤◌, ◌<◌, ◌≡◌, refl, ◌∙◌, true, false, leb, arith, length, if◌then◌else◌,
}
use dpapp.Common.Int.{pos, index-sub_ℕ}
use dpapp.Common.Outcome.{done}
use dpapp.Mem.{Block}
use dpapp.Aio.{Posted, wait}
use dpapp.Aio.Stream.{Stm, Reader, answer}
use dpapp.Aio.Stream.Read.{read_must_got, read_must_post}
use dpapp.Aio.Stream.Read.Steps.{
  filled, filled-Keeps, fill-filled, wseek-cur, advanced, advanced-IsValid, IsReady,
}
use dpapp.Aio.Stream.Read.Some.{on_ret-pos}

-- The stream after a round that brought `xs`, and what is left to be read if it goes on.
abbrev pub with_bytes_of : Stm → Block → Stm
with_bytes_of stm xs = record stm { buf = advanced stm.buf xs; total = stm.total + length xs }

abbrev pub going_on : Stm → Block → Stm
going_on stm xs = record (with_bytes_of stm xs) { io_len = stm.io_len - length xs }

-- The operation below brings the bytes of `p`, at least one and no more than the stream asks for.
pub record Brings {K : Type 0} (sub : Reader K) (stm : Stm) (k : K) (p : Posted K) : Type 0 where
  pub posted : sub.post stm.flag stm.io_len k ≡ done p
  pub counted : p.ret ≡ pos (length p.bytes)
  pub some : 0 < length p.bytes
  pub fits : length p.bytes ≤ stm.io_len

going_on-IsReady :
    {stm : Stm} (xs : Block) → IsReady stm → length xs < stm.io_len → IsReady (going_on stm xs)
going_on-IsReady xs ready h = record {
  room = record {
    valid = advanced-IsValid xs ready.room.valid (omega (arith, ready.room.in_room));
    some_room = omega arith;
    in_room = omega (arith, ready.room.in_room);
  };
  no_flag = ready.no_flag;
}

module _ {K : Type 0} (sub : Reader K) {stm : Stm} {k : K} {p : Posted K} where
  read_must_post-got :
      IsReady stm
      → Brings sub stm k p
      → read_must_post sub stm k
        ≡ read_must_got p (record stm { buf = filled stm.buf p.bytes }) (length p.bytes)
  unfolding read_must_post
  read_must_post-got ready b = rw b.posted (
      rw (fill-filled stm p.bytes ready.room.valid (omega (arith, ready.room.in_room, b.fits)))
        (rw b.counted (on_ret-pos (length p.bytes) _ _ b.some)))

  -- A round that brings bytes counts them, and ends where the count reaches what the round asked for.
  read_must_post_round :
      IsReady stm
      → stm.buf.size < 2 ^ 30
      → Brings sub stm k p
      → read_must_post sub stm k ≡ (
          if leb stm.io_len (stm.total + length p.bytes)
          then done (answer p (with_bytes_of stm p.bytes) (pos (stm.total + length p.bytes)))
          else done (answer p (going_on stm p.bytes) wait))
  unfolding read_must_got
  read_must_post_round ready small b =
      let room : stm.buf.wbeg + length p.bytes ≤ stm.buf.size =
        omega (arith, ready.room.in_room, b.fits) in
      read_must_post-got ready b
      ∙ rw
          (wseek-cur (length p.bytes) (filled-Keeps p.bytes ready.room.valid room).valid small room)
          (rw (index-sub_ℕ stm.io_len (length p.bytes) b.fits) refl)

-- In dpaio_read_must for len bytes (io_len of a ready stream that has read none, a size below
-- 2^30), where a round brings a bytes and the next b with a + b < len but 2a + b not below len,
-- the first round waits and the second ends the stream with a + b, fewer than len.
pub read_must_post-early :
    {K : Type 0} (sub : Reader K) {stm : Stm} {k : K} {p q : Posted K}
    → IsReady stm
    → stm.buf.size < 2 ^ 30
    → stm.total ≡ 0
    → Brings sub stm k p
    → Brings sub (going_on stm p.bytes) p.system q
    → stm.io_len ≤ length p.bytes + length p.bytes + length q.bytes
    → length p.bytes + length q.bytes < stm.io_len
    → (read_must_post sub stm k ≡ done (answer p (going_on stm p.bytes) wait))
      × (read_must_post sub (going_on stm p.bytes) p.system
          ≡ done (
              answer q
                (with_bytes_of (going_on stm p.bytes) q.bytes)
                (pos (stm.total + length p.bytes + length q.bytes))))
read_must_post-early sub {stm} {p} {q} ready small none_yet first second enough short =
    let wait1 : leb stm.io_len (stm.total + length p.bytes) ≡ false = ground arith in
    let ends : leb (stm.io_len - length p.bytes) (stm.total + length p.bytes + length q.bytes)
        ≡ true =
      ground arith in
    (
      read_must_post_round sub ready small first ∙ rw wait1 refl,
      read_must_post_round sub (going_on-IsReady p.bytes ready (omega arith)) small second
          ∙ rw ends refl,
    )
