-- ===== src/Buf/Write/Text.antt =====
-- `dpbuf_wstrv` appends the formatted text, with a 0 behind it that is not counted; `dpbuf_wbuf_r`
-- moves bytes from one buffer to another.
use dpapp.Common.{
  ◌+◌, ◌-◌, ◌^◌, ◌≤◌, ◌<◌, ◌≡◌, refl, ap, ◌∙◌, inl, inr, Bool, true, false, some, [], ◌∷◌, ◌++◌,
  ◌==◌, arith, length, length-append, take-append_left, take-of_length_le, if◌then◌else◌,
}
use dpapp.Common.Int.{ℤ, pos}
use dpapp.Common.Outcome.{Outcome, done, ◌>>=◌, Returns, returns, Returns-bind, Returns-mono}
use dpapp.Mem.{Block, Alloc, write_at}
use dpapp.Mem.Slice.{length-splice, slice-splice_before, slice-splice_part, write_at-done}
use dpapp.Buf.{Buf, bytes, with_bytes, enomem}
use dpapp.Buf.Capacity.Enough.{Made, wcheck-Made}
use dpapp.Buf.Valid.{IsValid, pending}
use dpapp.Buf.Write.{wstrv}
use dpapp.Buf.Write.Appends.{Wrote, Keeps-Wrote, Written}

put_text : Buf → Block → Outcome (ℤ × Buf)
put_text b text = do
  ys ← write_at (bytes b) b.wbeg (text ++ (0 ∷ []))
  done (pos (length text), record (with_bytes b ys) { wbeg = b.wbeg + length text })

put_text-Wrote :
    {b : Buf} (text : Block)
    → IsValid b
    → b.wbeg + (length text + 1) ≤ b.size
    → Returns (λ out. (out.0 ≡ pos (length text)) × Wrote b text out.1) (put_text b text)
unfolding put_text
put_text-Wrote {b} text v h =
    let ys = text ++ (0 ∷ []) in
    let e = length-append text (0 ∷ []) in
    let len = length-splice (bytes b) b.wbeg ys in
    rw (write_at-done (bytes b) b.wbeg ys (omega arith)) (
      returns (
        refl,
        record {
          valid = record {
            read_order = v.read_order;
            write_order = omega arith;
            in_size = omega arith;
            in_block = omega arith;
            maxs_in_block = omega arith;
          };
          same_readable =
              slice-splice_before (bytes b) b.wbeg ys b.rbeg (b.rend - b.rbeg) (omega arith);
          more_pending =
              slice-splice_part (bytes b) b.rend b.wbeg ys (length text) v.write_order (omega arith)
                (omega arith)
              ∙ ap (λ z. pending b ++ z)
                  (take-append_left (length text) text (0 ∷ []) (omega arith)
                    ∙ take-of_length_le (length text) text (omega arith));
          same_utype = refl;
          same_uflag = refl;
          same_flag = refl;
        },
      ))

end_text-Written :
    {b : Buf} (text : Block) (out : Bool × Buf)
    → Made b (length text + 1) out
    → Returns (Written b text) (if out.0 then put_text out.1 text else done (enomem, out.1))
end_text-Written text (true, b') m =
    Returns-mono (put_text-Wrote text m.keeps.valid (m.room refl))
      λ out (e, w). inl (e, Keeps-Wrote m.keeps w)
end_text-Written text (false, b') m = returns (inr (refl, m.keeps))

-- Dpbuf_wstrv of a non-empty formatted text to a valid buffer with wbeg + length + 1 < 2^30
-- appends exactly the text and returns its length, or returns -ENOMEM and keeps what the buffer
-- held; the terminating 0 stays inside the block.
pub wstrv-Written :
    (env : Alloc) {b : Buf} (text : Block)
    → IsValid b
    → 0 < length text
    → b.wbeg + (length text + 1) < 2 ^ 30
    → Returns (Written b text) (wstrv env b (some text))
unfolding wstrv put_text
wstrv-Written env text v p small =
    let ne : (length text == 0) ≡ false = ground arith in
    rw ne (
      Returns-bind (wcheck-Made env (length text + 1) v small) λ out m. end_text-Written text out m)
