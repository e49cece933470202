-- ===== src/Buf/Write/Appends.antt =====
-- `dpbuf_wdata`, `dpbuf_wfill`, `dpbuf_wbuf` and `dpbuf_wbuf_r` put their bytes behind what is
-- pending, or fail and keep it.
use dpapp.Common.{
  ℕ, ◌+◌, ◌-◌, ◌^◌, ◌≤◌, ◌<◌, min, ◌≡◌, refl, sym, ap, ◌∙◌, ◌⊎◌, inl, inr, Bool, true, false, some,
  ◌++◌, ◌==◌, arith, length, take, drop, take-take, replicate, length-replicate, if◌then◌else◌,
}
use dpapp.Common.Int.{ℤ, pos, negsuc}
use dpapp.Common.Outcome.{Outcome, done, ◌>>=◌, Returns, returns, Returns-bind, Returns-both}
use dpapp.Mem.{Block, Alloc, slice}
use dpapp.Mem.Slice.{
  length-splice, length-slice, slice-splice_before, slice-splice_end, write_at-done, read_at-done,
}
use dpapp.Buf.{Buf, bytes, enomem, crsize}
use dpapp.Buf.Capacity.{wcheck}
use dpapp.Buf.Capacity.Enough.{Made, wcheck-Made}
use dpapp.Buf.Capacity.Grows.{IsOwned, HasMemory, wcheck-Succeeds}
use dpapp.Buf.Valid.{IsValid, readable, pending, Keeps}
use dpapp.Buf.Write.{append, taken, wbuf, wfill, write_block, wdata}

-- `b'` is `b` with `xs` behind what is pending.
pub record Wrote (b : Buf) (xs : Block) (b' : Buf) : Type 0 where
  pub valid : IsValid b'
  pub same_readable : readable b' ≡ readable b
  pub more_pending : pending b' ≡ pending b ++ xs
  pub same_utype : b'.utype ≡ b.utype
  pub same_uflag : b'.uflag ≡ b.uflag
  pub same_flag : b'.flag ≡ b.flag

-- What a writer of `xs` returns: the number of bytes, or -ENOMEM and a buffer that holds what it
-- held.
abbrev pub Written : Buf → Block → ℤ × Buf → Type 0
Written b xs (r, b') = (r ≡ pos (length xs)) × Wrote b xs b' ⊎ (r ≡ enomem) × Keeps b b'

pub Keeps-Wrote : {a b c : Buf} {xs : Block} → Keeps a b → Wrote b xs c → Wrote a xs c
Keeps-Wrote {xs} k w = record {
  valid = w.valid;
  same_readable = w.same_readable ∙ k.same_readable;
  more_pending = w.more_pending ∙ ap (λ z. z ++ xs) k.same_pending;
  same_utype = w.same_utype ∙ k.same_utype;
  same_uflag = w.same_uflag ∙ k.same_uflag;
  same_flag = w.same_flag ∙ k.same_flag;
}

pub append-Wrote :
    {b : Buf} (xs : Block)
    → IsValid b
    → b.wbeg + length xs ≤ b.size
    → Returns (Wrote b xs) (append b xs)
unfolding append
append-Wrote {b} xs v h =
    let len = length-splice (bytes b) b.wbeg xs in
    rw (write_at-done (bytes b) b.wbeg xs (omega arith)) (
      returns (record {
        valid = record {
          read_order = v.read_order;
          write_order = omega arith;
          in_size = h;
          in_block = omega arith;
          maxs_in_block = omega arith;
        };
        same_readable =
            slice-splice_before (bytes b) b.wbeg xs b.rbeg (b.rend - b.rbeg) (omega arith);
        more_pending = slice-splice_end (bytes b) b.rend b.wbeg xs v.write_order (omega arith);
        same_utype = refl;
        same_uflag = refl;
        same_flag = refl;
      }))

-- The common end of the writers of `n` bytes.
abbrev finish : ℕ → Block → Bool × Buf → Outcome (ℤ × Buf)
finish n xs (room, b) = if room then (do b ← append b xs; done (pos n, b)) else done (enomem, b)

finish-Written :
    {b : Buf} (n : ℕ) (xs : Block) (out : Bool × Buf)
    → n ≡ length xs
    → Made b n out
    → Returns (Written b xs) (finish n xs out)
finish-Written n xs (true, b') e m =
    Returns-bind (append-Wrote xs m.keeps.valid (rw (← e) (m.room refl)))
      λ c w. returns (inl (ap pos e, Keeps-Wrote m.keeps w))
finish-Written n xs (false, b') e m = returns (inr (refl, m.keeps))

-- How many bytes `dpbuf_wbuf` takes from a source with `alen` of them.
abbrev pub take_count : ℕ → ℤ → ℕ
take_count alen (pos n) = if n == 0 then alen else min alen n
take_count alen (negsuc n) = alen

pub taken_pos : (alen : ℕ) (len : ℤ) → taken (pos alen) len ≡ pos (take_count alen len)
taken_pos alen (pos n) = ground arith
taken_pos alen (negsuc n) = ground arith

pub take_count-le : (alen : ℕ) (len : ℤ) → take_count alen len ≤ alen
take_count-le alen (pos n) = ground arith
take_count-le alen (negsuc n) = omega arith

pub crsize-pos : {b : Buf} → IsValid b → crsize b ≡ pos (b.rend - b.rbeg)
crsize-pos v = ground arith

-- The bytes that `dpbuf_wbuf` takes.
abbrev pub taken_bytes : Buf → ℤ → Block
taken_bytes src len = take (take_count (src.rend - src.rbeg) len) (readable src)

pub take_count-pos : (alen : ℕ) (len : ℤ) → 0 < alen → 0 < take_count alen len
take_count-pos alen (pos n) h = ground arith
take_count-pos alen (negsuc n) h = h

pub taken_slice :
    (src : Buf) (len : ℤ)
    → slice (bytes src) src.rbeg (take_count (src.rend - src.rbeg) len) ≡ taken_bytes src len
taken_slice src len = sym (
    take-take (take_count (src.rend - src.rbeg) len) (src.rend - src.rbeg)
      (drop src.rbeg (bytes src)) (take_count-le (src.rend - src.rbeg) len))

module _ (env : Alloc) where
  check-Written :
      {b : Buf} (n : ℕ) (xs : Block)
      → n ≡ length xs
      → IsValid b
      → b.wbeg + n < 2 ^ 30
      → Returns (Written b xs) (wcheck env b (pos n) >>= finish n xs)
  check-Written n xs e v small =
      Returns-bind (wcheck-Made env n v small) λ out m. finish-Written n xs out e m

  -- With memory to be had and storage of its own there is no -ENOMEM.
  check-Wrote :
      {b : Buf} (n : ℕ) (xs : Block)
      → HasMemory env
      → n ≡ length xs
      → IsValid b
      → IsOwned b
      → 0 < n
      → b.wbeg + n < 2 ^ 30
      → Returns (λ out. (out.0 ≡ pos n) × Wrote b xs out.1) (wcheck env b (pos n) >>= finish n xs)
  check-Wrote n xs memory e v own p small =
      Returns-bind
        (Returns-both (wcheck-Made env n v small) (wcheck-Succeeds env memory n v own p small))
        λ (room, b') (m, ok). rw ok (
          Returns-bind (append-Wrote xs m.keeps.valid (rw (← e) (m.room ok)))
            λ c w. returns (refl, Keeps-Wrote m.keeps w))

  -- `dpbuf_wfill`.
  pub wfill-Written :
      {b : Buf} (n c : ℕ)
      → IsValid b
      → b.wbeg + n < 2 ^ 30
      → Returns (Written b (replicate n c)) (wfill env b (pos n) c)
  unfolding wfill
  wfill-Written n c v small = check-Written n (replicate n c) (sym (length-replicate n c)) v small

  -- Dpbuf_wdata of n bytes (0 < n, not more than the source has, wbeg + n < 2^30) to a valid
  -- buffer has no undefined behaviour; it returns n and the bytes stand behind what was pending,
  -- or -ENOMEM and nothing that the buffer held has changed; either way the buffer is valid, and
  -- the readable window and the tags are kept.
  pub wdata-Written :
      {b : Buf} (src : Block) (n : ℕ)
      → IsValid b
      → 0 < n
      → n ≤ length src
      → b.wbeg + n < 2 ^ 30
      → Returns (Written b (take n src)) (wdata env b (some src) (pos n))
  unfolding wdata write_block
  wdata-Written src n v p h small =
      let ne : (n == 0) ≡ false = ground arith in
      rw ne (
        simp (read_at-done src 0 n (omega arith))
          (check-Written n (take n src) (sym (length-slice src 0 n (omega arith))) v small))

  -- Dpbuf_wbuf between two valid buffers with sizes below 2^30 appends the bytes asked for of the
  -- source's readable window (all of it for a length that is not positive), or returns -ENOMEM and
  -- keeps what the destination held.
  pub wbuf-Written :
      {b src : Buf} (len : ℤ)
      → IsValid b
      → IsValid src
      → b.wbeg + (src.rend - src.rbeg) < 2 ^ 30
      → Returns (Written b (taken_bytes src len)) (wbuf env b src len)
  unfolding wbuf
  wbuf-Written {src} len v w small =
      let n = take_count (src.rend - src.rbeg) len in
      let le = take_count-le (src.rend - src.rbeg) len in
      rw (crsize-pos w, taken_pos (src.rend - src.rbeg) len)
        (simp (read_at-done (bytes src) src.rbeg n (omega arith)) (
          rw (← taken_slice src len) (
            check-Written n (slice (bytes src) src.rbeg n)
              (sym (length-slice (bytes src) src.rbeg n (omega arith))) v (omega arith))))

  -- Dpbuf_wdata to a valid buffer that owns its storage returns n and appends the bytes, if
  -- realloc never fails (0 < n, not more than the source has, wbeg + n < 2^30).
  pub wdata-Wrote :
      {b : Buf} (src : Block) (n : ℕ)
      → HasMemory env
      → IsValid b
      → IsOwned b
      → 0 < n
      → n ≤ length src
      → b.wbeg + n < 2 ^ 30
      → Returns
          (λ out. (out.0 ≡ pos n) × Wrote b (take n src) out.1)
          (wdata env b (some src) (pos n))
  unfolding wdata write_block
  wdata-Wrote src n memory v own p h small =
      let ne : (n == 0) ≡ false = ground arith in
      rw ne (
        simp (read_at-done src 0 n (omega arith)) (
          check-Wrote n (take n src) memory (sym (length-slice src 0 n (omega arith))) v own p
            small))

  -- `dpbuf_wbuf` where memory is to be had.
  pub wbuf-Wrote :
      {b src : Buf} (len : ℤ)
      → HasMemory env
      → IsValid b
      → IsOwned b
      → IsValid src
      → 0 < take_count (src.rend - src.rbeg) len
      → b.wbeg + (src.rend - src.rbeg) < 2 ^ 30
      → Returns
          (λ out.
            (out.0 ≡ pos (take_count (src.rend - src.rbeg) len))
            × Wrote b (taken_bytes src len) out.1)
          (wbuf env b src len)
  unfolding wbuf
  wbuf-Wrote {src} len memory v own w p small =
      let n = take_count (src.rend - src.rbeg) len in
      let le = take_count-le (src.rend - src.rbeg) len in
      rw (crsize-pos w, taken_pos (src.rend - src.rbeg) len)
        (simp (read_at-done (bytes src) src.rbeg n (omega arith)) (
          rw (← taken_slice src len) (
            check-Wrote n (slice (bytes src) src.rbeg n) memory
              (sym (length-slice (bytes src) src.rbeg n (omega arith))) v own p (omega arith))))
