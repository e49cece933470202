-- ===== src/Aio/Stream/Read/Steps.antt =====
-- What the streams that read do to a valid buffer.
use dpapp.Common.{
  ℕ, ◌+◌, ◌-◌, ◌^◌, ◌≤◌, ◌<◌, ◌≡◌, refl, ap, ◌∙◌, Bool, true, false, ◌++◌, arith, length,
  if◌then◌else◌,
}
use dpapp.Common.Int.{pos, sub_ℕ, index, index-sub_ℕ}
use dpapp.Common.Outcome.{done, ◌>>=◌, Returns, returns, Returns-bind}
use dpapp.Mem.{Block, Alloc, splice}
use dpapp.Mem.Slice.{
  slice-add, write_at-done, slice-splice_before, slice-splice_end, length-splice, slice_at,
}
use dpapp.Buf.{Buf, bytes, with_bytes, cwsize}
use dpapp.Buf.Valid.{IsValid, readable, pending, Keeps}
use dpapp.Buf.Seek.{seek_cur, seek_end, wseek, eseek}
use dpapp.Buf.Seek.Moves.{target, wseek-goal, eseek-goal}
use dpapp.Buf.Capacity.Enough.{Made, resizew-Made}
use dpapp.Aio.Stream.{Stm}
use dpapp.Aio.Stream.Read.{fill, grow}

-- The buffer with `xs` put behind `wbeg`, which is not moved.
abbrev pub filled : Buf → Block → Buf
filled b xs = with_bytes b (splice (bytes b) b.wbeg xs)

pub filled-Keeps :
    {b : Buf} (xs : Block) → IsValid b → b.wbeg + length xs ≤ b.size → Keeps b (filled b xs)
filled-Keeps {b} xs v h =
    let len = length-splice (bytes b) b.wbeg xs in
    record {
      valid = record {
        read_order = v.read_order;
        write_order = v.write_order;
        in_size = v.in_size;
        in_block = omega arith;
        maxs_in_block = omega arith;
      };
      same_readable =
          slice-splice_before (bytes b) b.wbeg xs b.rbeg (b.rend - b.rbeg) (omega arith);
      same_pending = slice-splice_before (bytes b) b.wbeg xs b.rend (b.wbeg - b.rend) (omega arith);
      same_utype = refl;
      same_uflag = refl;
      same_flag = refl;
      same_data_flag = refl;
    }

pub fill-filled :
    (stm : Stm) (xs : Block)
    → IsValid stm.buf
    → stm.buf.wbeg + length xs ≤ stm.buf.size
    → fill stm xs ≡ done (record stm { buf = filled stm.buf xs })
unfolding fill
fill-filled stm xs v h =
    rw (write_at-done (bytes stm.buf) stm.buf.wbeg xs (omega (arith, v.in_block))) refl

-- `wbeg` behind what was put there.
pub wseek-cur :
    {b : Buf} (n : ℕ)
    → IsValid b
    → b.size < 2 ^ 30
    → b.wbeg + n ≤ b.size
    → wseek b (pos n) seek_cur ≡ done (sub_ℕ (b.wbeg + n) b.wbeg, record b { wbeg = b.wbeg + n })
wseek-cur {b} n v small fits =
    let to : target b.wbeg (pos n) b.rend b.size ≡ b.wbeg + n = omega arith in
    (wseek-goal (pos n) v small (omega arith) seek_cur).0
    ∙ ap (λ t. done (sub_ℕ t b.wbeg, record b { wbeg = t })) to

-- `rend` at `wbeg`: all that is pending becomes readable.
abbrev pub shown : Buf → Buf
shown b = record b { rend = b.wbeg }

pub eseek-end :
    {b : Buf}
    → IsValid b
    → b.size < 2 ^ 30
    → eseek b (pos 0) seek_end ≡ done (sub_ℕ b.wbeg b.rend, shown b)
eseek-end {b} v small =
    let to : target b.wbeg (pos 0) b.rbeg b.wbeg ≡ b.wbeg = omega arith in
    (eseek-goal (pos 0) v small (omega arith) seek_end).0
    ∙ ap (λ t. done (sub_ℕ t b.rend, record b { rend = t })) to

readable-shown : {b : Buf} → IsValid b → readable (shown b) ≡ readable b ++ pending b
readable-shown {b} v =
    slice_at (bytes b) b.rbeg b.rbeg (b.wbeg - b.rbeg) (b.rend - b.rbeg + (b.wbeg - b.rend)) refl
      (omega arith)
    ∙ slice-add (bytes b) b.rbeg (b.rend - b.rbeg) (b.wbeg - b.rend)
    ∙ ap (λ z. readable b ++ z)
        (slice_at (bytes b) (b.rbeg + (b.rend - b.rbeg)) b.rend (b.wbeg - b.rend) (b.wbeg - b.rend)
          (omega arith) refl)

pub shown-IsValid : {b : Buf} → IsValid b → IsValid (shown b)
shown-IsValid v = record {
  read_order = omega arith;
  write_order = omega arith;
  in_size = v.in_size;
  in_block = v.in_block;
  maxs_in_block = v.maxs_in_block;
}

-- The buffer after `xs` was put behind `wbeg` and counted.
abbrev pub advanced : Buf → Block → Buf
advanced b xs = record (filled b xs) { wbeg = b.wbeg + length xs }

pub advanced-IsValid :
    {b : Buf} (xs : Block) → IsValid b → b.wbeg + length xs ≤ b.size → IsValid (advanced b xs)
advanced-IsValid {b} xs v h =
    let k = filled-Keeps xs v h in
    record {
      read_order = v.read_order;
      write_order = omega (arith, v.write_order);
      in_size = h;
      in_block = k.valid.in_block;
      maxs_in_block = k.valid.maxs_in_block;
    }

pub pending-advanced :
    {b : Buf} (xs : Block)
    → IsValid b
    → b.wbeg + length xs ≤ b.size
    → pending (advanced b xs) ≡ pending b ++ xs
pending-advanced {b} xs v h =
    slice-splice_end (bytes b) b.rend b.wbeg xs v.write_order (omega (arith, v.in_block))

pub readable-advanced :
    {b : Buf} (xs : Block)
    → IsValid b
    → b.wbeg + length xs ≤ b.size
    → readable (shown (advanced b xs)) ≡ readable b ++ (pending b ++ xs)
readable-advanced {b} xs v h =
    readable-shown (advanced-IsValid xs v h)
    ∙ ap (λ z. z ++ pending (advanced b xs)) (filled-Keeps xs v h).same_readable
    ∙ ap (λ z. readable b ++ z) (pending-advanced xs v h)

-- The buffer is valid and has room for what the stream asks for.
pub record HasRoom (stm : Stm) : Type 0 where
  pub valid : IsValid stm.buf
  pub some_room : 0 < stm.io_len
  pub in_room : stm.buf.wbeg + stm.io_len ≤ stm.buf.size

-- The stream can go on, and its calls have no flags.
pub record IsReady (stm : Stm) : Type 0 where
  pub room : HasRoom stm
  pub no_flag : stm.flag ≡ 0

-- `grow` keeps what the buffer holds and, if it answers true, there is room.
pub record GrownBy (stm : Stm) (out : Bool × Stm) : Type 0 where
  pub keeps : Keeps stm.buf out.1.buf
  pub room : out.0 ≡ true → HasRoom out.1
  pub same_total : out.1.total ≡ stm.total
  pub same_flag : out.1.flag ≡ stm.flag
  pub same_until : out.1.until ≡ stm.until
  pub same_until_len : out.1.until_len ≡ stm.until_len

grown-By :
    {stm : Stm} (n : ℕ) (r : Bool) (b : Buf)
    → 0 < n
    → Made stm.buf n (r, b)
    → Returns (GrownBy stm) (do
      io_len ← if r then index (cwsize b) else done stm.io_len
      done (r, record stm { buf = b; io_len = io_len }))
grown-By n false b h m = returns record {
  keeps = m.keeps;
  room = λ e. cc;
  same_total = refl;
  same_flag = refl;
  same_until = refl;
  same_until_len = refl;
}
grown-By n true b h m = rw (index-sub_ℕ b.size b.wbeg m.keeps.valid.in_size) (
    returns record {
      keeps = m.keeps;
      room = λ e. record {
        valid = m.keeps.valid;
        some_room = omega (arith, m.room refl);
        in_room = omega (arith, m.keeps.valid.in_size);
      };
      same_total = refl;
      same_flag = refl;
      same_until = refl;
      same_until_len = refl;
    })

pub grow-GrownBy :
    (env : Alloc) {stm : Stm} (n : ℕ)
    → IsValid stm.buf
    → 0 < n
    → stm.buf.wbeg + n < 2 ^ 30
    → Returns (GrownBy stm) (grow env stm n)
unfolding grow
grow-GrownBy env {stm} n v h small =
    Returns-bind (resizew-Made env n v small) λ (r, b) m. grown-By n r b h m
