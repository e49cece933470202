-- ===== src/Buf/Read/Transfer.antt =====
-- `dpbuf_readto` moves bytes from what is pending in one buffer to the readable window of another.
use dpapp.Common.{
  ℕ, ◌+◌, ◌-◌, ◌^◌, ◌≤◌, ◌<◌, ◌≡◌, refl, sym, ap, ◌∙◌, false, ◌++◌, arith, length, take, drop,
}
use mathlib.Core.Path.{ap₂}
use mathlib.Core.List.{append_assoc}
use dpapp.Common.Int.{ℤ, pos, ◌-ℤ◌, sub_ℕ, index}
use dpapp.Common.Outcome.{done, Returns, returns, Returns-bind}
use dpapp.Mem.{Alloc}
use dpapp.Mem.Slice.{slice_at, slice-add, length-slice}
use dpapp.Buf.{Buf, bytes, enomem, cesize}
use dpapp.Buf.Capacity.Grows.{IsOwned, HasMemory}
use dpapp.Buf.Read.{readto}
use dpapp.Buf.Read.Scans.{ahead, ahead-IsValid, length-pending}
use dpapp.Buf.Read.Takes.{moved-Took}
use dpapp.Buf.Scan.{is_zero}
use dpapp.Buf.Valid.{IsValid, readable, pending}
use dpapp.Buf.Write.{wbuf}
use dpapp.Buf.Write.Appends.{take_count, take_count-pos, take_count-le, Wrote, wbuf-Wrote}

-- `det->rend = det->wbeg`.
abbrev shown : Buf → Buf
shown b = record b { rend = b.wbeg }

shown-IsValid : {b : Buf} → IsValid b → IsValid (shown b)
shown-IsValid v = record {
  read_order = omega arith;
  write_order = omega arith;
  in_size = v.in_size;
  in_block = v.in_block;
  maxs_in_block = v.maxs_in_block;
}

-- Then all that was readable or pending is readable.
readable-shown : {b : Buf} → IsValid b → readable (shown b) ≡ readable b ++ pending b
readable-shown {b} v =
    slice_at (bytes b) b.rbeg b.rbeg (b.wbeg - b.rbeg) (b.rend - b.rbeg + (b.wbeg - b.rend)) refl
      (omega arith)
    ∙ slice-add (bytes b) b.rbeg (b.rend - b.rbeg) (b.wbeg - b.rend)
    ∙ ap (λ z. readable b ++ z)
        (slice_at (bytes b) (b.rbeg + (b.rend - b.rbeg)) b.rend (b.wbeg - b.rend) (b.wbeg - b.rend)
          (omega arith) refl)

-- The first `n` pending bytes of `b` stand at the end of what is readable in `det'`, behind all that
-- `det` held, and the others are pending in `b'`.
pub record Moved (n : ℕ) (b det : Buf) (b' det' : Buf) : Type 0 where
  pub valid : IsValid b'
  pub det_valid : IsValid det'
  pub received : readable det' ≡ readable det ++ pending det ++ take n (pending b)
  pub all_shown : det'.rend ≡ det'.wbeg
  pub rest : pending b' ≡ drop n (pending b)
  pub nothing_readable : b'.rbeg ≡ b'.rend
  pub same_storage : b'.data_ref ≡ b.data_ref

end_index : (w e n : ℕ) → e ≤ w → n ≤ w - e → index (pos w -ℤ (sub_ℕ w e -ℤ pos n)) ≡ done (e + n)
unfolding ◌-ℤ◌
end_index w e n h k = ground arith

cursors-Moved :
    {b det c : Buf} (n : ℕ)
    → IsValid b
    → n ≤ b.wbeg - b.rend
    → Wrote det (take n (pending b)) c
    → Moved n b det (record b { rbeg = b.rend + n; rend = b.rend + n }) (shown c)
cursors-Moved {b} {det} {c} n v le wr =
    let t = moved-Took n v le in
    record {
      valid = record {
        read_order = omega arith;
        write_order = omega arith;
        in_size = v.in_size;
        in_block = v.in_block;
        maxs_in_block = v.maxs_in_block;
      };
      det_valid = shown-IsValid wr.valid;
      received =
          readable-shown wr.valid
          ∙ ap₂ ◌++◌ wr.same_readable wr.more_pending
          ∙ sym (append_assoc (readable det) (pending det) (take n (pending b)));
      all_shown = refl;
      rest = t.rest;
      nothing_readable = refl;
      same_storage = refl;
    }

back_index : (w e : ℕ) → e ≤ w → 12 ≤ e → index (pos w -ℤ (sub_ℕ w e -ℤ enomem)) ≡ done (e - 12)
unfolding ◌-ℤ◌
back_index w e h k = ground arith

module _ (env : Alloc) where
  -- Dpbuf_readto between valid buffers, with bytes pending, a destination that owns its storage,
  -- realloc that never fails and sizes below 2^30, returns the number n of bytes asked for (at
  -- most all pending, all for a size that is not positive); the destination's readable window
  -- becomes what it held followed by the first n pending bytes of the source, which are pending no
  -- more, and the others still are; both stay valid.
  pub readto-Moved :
      {b det : Buf} (size : ℤ)
      → HasMemory env
      → IsValid b
      → IsValid det
      → IsOwned det
      → b.rend < b.wbeg
      → det.wbeg + (b.wbeg - b.rend) < 2 ^ 30
      → let n = take_count (b.wbeg - b.rend) size in
        Returns (λ out. (out.0 ≡ pos n) × Moved n b det out.1 out.2) (readto env b det size)
  unfolding readto
  readto-Moved {b} {det} size memory v w own some_pending small =
      let n = take_count (b.wbeg - b.rend) size in
      let le = take_count-le (b.wbeg - b.rend) size in
      let more : is_zero (cesize b) ≡ false = ground arith in
      rw more (
        Returns-bind
          (wbuf-Wrote env size memory w own (ahead-IsValid v)
            (take_count-pos (b.wbeg - b.rend) size (omega arith)) small)
          λ (r, c) (e, wr).
            rw (e, end_index b.wbeg b.rend n v.write_order le)
              (returns (refl, cursors-Moved n v le wr)))

-- Where the write to the destination fails with -ENOMEM, bytes are pending and rend is at least
-- 12, dpbuf_readto on a valid source returns -ENOMEM but leaves both read cursors 12 bytes before
-- where rend was, so that 12 bytes more are pending than before.
pub readto_failed :
    (env : Alloc) {b : Buf} (det : Buf) {det' : Buf} (size : ℤ)
    → IsValid b
    → b.rend < b.wbeg
    → 12 ≤ b.rend
    → wbuf env det (ahead b) size ≡ done (enomem, det')
    → (readto env b det size
        ≡ done (enomem, record b { rbeg = b.rend - 12; rend = b.rend - 12 }, shown det'))
      × (length (pending (record b { rbeg = b.rend - 12; rend = b.rend - 12 }))
          ≡ length (pending b) + 12)
unfolding readto
readto_failed env {b} det size v some_pending h e =
    let more : is_zero (cesize b) ≡ false = ground arith in
    (
      rw (more, e, back_index b.wbeg b.rend v.write_order h),
      omega (
        arith,
        length-pending v,
        length-slice (bytes b) (b.rend - 12) (b.wbeg - (b.rend - 12)) (omega arith),
      ),
    )
