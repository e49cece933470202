-- ===== src/Buf/Write/Consume.antt =====
-- `dpbuf_wbuf_r` moves bytes from the readable window of one buffer behind what is pending in another.
use dpapp.Common.{
  ℕ, ◌+◌, ◌-◌, ◌^◌, ◌≤◌, ◌<◌, ◌≡◌, refl, sym, ap, ◌∙◌, ◌⊎◌, inl, inr, Bool, true, false, arith,
  length, length-take, take, drop, drop-drop, drop-take, if◌then◌else◌,
}
use dpapp.Common.Int.{ℤ, pos}
use dpapp.Common.Outcome.{Outcome, done, ◌>>=◌, Returns, returns, Returns-bind}
use dpapp.Mem.{Block, Alloc}
use dpapp.Mem.Slice.{slice_at, length-slice, read_at-done}
use dpapp.Buf.{Buf, bytes, enomem}
use dpapp.Buf.Capacity.Enough.{Made, wcheck-Made}
use dpapp.Buf.Valid.{IsValid, readable, pending, Keeps}
use dpapp.Buf.Write.{append, wbuf_r}
use dpapp.Buf.Write.Appends.{
  Wrote, Keeps-Wrote, append-Wrote, take_count, take_count-le, taken_pos, taken_slice, crsize-pos,
}

-- All bytes that `n` of were to be moved: behind what was pending in `b`, and off the source; or
-- nothing has moved.
abbrev pub Consumed : (b src : Buf) → ℕ → ℤ × Buf × Buf → Type 0
Consumed b src n (r, b', src') =
    ((r ≡ pos n)
      × Wrote b (take n (readable src)) b'
      × IsValid src'
      × (readable src' ≡ drop n (readable src))
      × (pending src' ≡ pending src))
    ⊎ ((r ≡ enomem) × Keeps b b' × (src' ≡ src))

advance : Buf → ℕ → Buf
advance src n = record src { rbeg = src.rbeg + n }

readable-advance :
    {src : Buf} (n : ℕ)
    → IsValid src
    → n ≤ src.rend - src.rbeg
    → readable (advance src n) ≡ drop n (readable src)
unfolding advance
readable-advance {src} n v h =
    slice_at (bytes src) (src.rbeg + n) (src.rbeg + n) (src.rend - (src.rbeg + n))
      (src.rend - src.rbeg - n) refl (omega arith)
    ∙ ap (take (src.rend - src.rbeg - n)) (sym (drop-drop n src.rbeg (bytes src)))
    ∙ sym (drop-take n (src.rend - src.rbeg) (drop src.rbeg (bytes src)))

finish_r : Buf → ℕ → Block → Bool × Buf → Outcome (ℤ × Buf × Buf)
finish_r src n xs (room, b) =
    if room
    then (do b ← append b xs; done (pos n, b, record src { rbeg = src.rbeg + n }))
    else done (enomem, b, src)

finish_r-Consumed :
    {b src : Buf} (n : ℕ) (out : Bool × Buf)
    → IsValid src
    → n ≤ src.rend - src.rbeg
    → Made b n out
    → Returns (Consumed b src n) (finish_r src n (take n (readable src)) out)
unfolding finish_r advance
finish_r-Consumed {src} n (true, b') v h m =
    let len : length (take n (readable src)) ≡ n = omega (
      arith,
      length-take n (readable src),
      length-slice (bytes src) src.rbeg (src.rend - src.rbeg) (omega arith),
    ) in
    Returns-bind (append-Wrote (take n (readable src)) m.keeps.valid (rw len (m.room refl))) λ c w.
      returns (
        inl (
          refl,
          Keeps-Wrote m.keeps w,
          record {
            read_order = omega arith;
            write_order = v.write_order;
            in_size = v.in_size;
            in_block = v.in_block;
            maxs_in_block = v.maxs_in_block;
          },
          readable-advance n v h,
          refl,
        ))
finish_r-Consumed n (false, b') v h m = returns (inr (refl, m.keeps, refl))

-- Dpbuf_wbuf_r between two valid buffers with sizes below 2^30 moves the bytes asked for from the
-- front of the source's readable window behind what is pending in the destination, and keeps the
-- source's pending bytes; or it returns -ENOMEM, the source is unchanged and the destination holds
-- what it held.
pub wbuf_r-Consumed :
    (env : Alloc) {b src : Buf} (len : ℤ)
    → IsValid b
    → IsValid src
    → b.wbeg + (src.rend - src.rbeg) < 2 ^ 30
    → Returns (Consumed b src (take_count (src.rend - src.rbeg) len)) (wbuf_r env b src len)
unfolding wbuf_r finish_r
wbuf_r-Consumed env {b} {src} len v w small =
    let n = take_count (src.rend - src.rbeg) len in
    let le = take_count-le (src.rend - src.rbeg) len in
    rw (crsize-pos w, taken_pos (src.rend - src.rbeg) len)
      (simp (read_at-done (bytes src) src.rbeg n (omega arith)) (
        rw (taken_slice src len) (
          Returns-bind (wcheck-Made env n v (omega arith))
            λ out m. finish_r-Consumed n out w le m)))
