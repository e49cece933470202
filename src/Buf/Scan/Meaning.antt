-- ===== src/Buf/Scan/Meaning.antt =====
-- `dpbuf_cequalc` and `dpbuf_ccmp` decide questions about the readable window.
use dpapp.Common.{
  ℕ, ◌-◌, ◌≤◌, ◌<◌, ◌≡◌, ◌↔◌, refl, sym, ap, ◌∙◌, inl, inr, true, false, ◌||◌, some, ◌==◌, arith,
  length, length-take, take, drop, take-take, take-of_length_le, ltb, ltb→lt, Bool-cases,
}
use dpapp.Common.Int.{ℤ, pos, negsuc, ◌-ℤ◌, ltb_ℤ}
use dpapp.Common.Outcome.{Returns, returns}
use dpapp.Mem.{Block, memcmp}
use dpapp.Mem.Slice.{read_at-done, length-slice, slice_at}
use dpapp.Mem.Search.{memcmp_eq, memcmp_self}
use dpapp.Buf.{Buf, bytes, crsize}
use dpapp.Buf.Scan.{is_zero, cequalc, ccmp, ccmp_windows}
use dpapp.Buf.Write.Appends.{crsize-pos}
use dpapp.Buf.Valid.{IsValid, readable}

is_zero_iff : (a : ℤ) → (is_zero a ≡ true) ↔ (a ≡ pos 0)
is_zero_iff (pos n) = ground arith
is_zero_iff (negsuc n) = ground arith

memcmp_iff : (xs ys : Block) → length xs ≡ length ys → (is_zero (memcmp xs ys) ≡ true) ↔ (xs ≡ ys)
memcmp_iff xs ys e =
    (λ h. memcmp_eq xs ys e ((is_zero_iff _).0 h), λ h. rw h ((is_zero_iff _).1 (memcmp_self ys)))

-- Dpbuf_cequalc on a valid buffer, for a non-empty string given with its length, returns true
-- exactly where the readable window begins with that string.
pub cequalc_iff :
    {b : Buf} (sub : Block)
    → IsValid b
    → 0 < length sub
    → Returns
        (λ r. (r ≡ true) ↔ (take (length sub) (readable b) ≡ sub))
        (cequalc b sub (pos (length sub)))
unfolding cequalc
cequalc_iff {b} sub v p = elim (Bool-cases (ltb (b.rend - b.rbeg) (length sub))) [
  | inl short ↦
      let e : (length sub == 0 || ltb_ℤ (crsize b) (pos (length sub))) ≡ true = ground arith in
      let lt = ltb→lt _ _ short in
      rw e (
        returns (
          λ h. cc,
          λ h. absurd (
              omega (
                arith,
                ap length h,
                length-take (length sub) (readable b),
                length-slice (bytes b) b.rbeg (b.rend - b.rbeg) (omega arith),
              )),
        ))
  | inr fits ↦
      let e : (length sub == 0 || ltb_ℤ (crsize b) (pos (length sub))) ≡ false = ground arith in
      let le : length sub ≤ b.rend - b.rbeg = ground arith in
      rw
        (
          e,
          read_at-done (bytes b) b.rbeg (length sub) (omega arith),
          read_at-done sub 0 (length sub) (omega arith),
        )
        (rw
          (
            take-of_length_le (length sub) sub (omega arith),
            sym (take-take (length sub) (b.rend - b.rbeg) (drop b.rbeg (bytes b)) le),
          )
          (returns (
            memcmp_iff (take (length sub) (readable b)) sub (
              omega (
                arith,
                length-take (length sub) (readable b),
                length-slice (bytes b) b.rbeg (b.rend - b.rbeg) (omega arith),
              )))))
]

is_zero-sub : (n m : ℕ) → is_zero (pos n -ℤ pos m) ≡ (n == m)
unfolding ◌-ℤ◌
is_zero-sub n m = ground arith

length-readable : {b : Buf} → IsValid b → length (readable b) ≡ b.rend - b.rbeg
length-readable {b} v = length-slice (bytes b) b.rbeg (b.rend - b.rbeg) (omega arith)

-- Dpbuf_ccmp of two valid buffers that are not one object returns 0 exactly where their readable
-- windows are equal.
pub ccmp_iff :
    {b other : Buf}
    → IsValid b
    → IsValid other
    → Returns (λ r. (r ≡ pos 0) ↔ (readable b ≡ readable other)) (ccmp false (some b) (some other))
unfolding ccmp ccmp_windows
ccmp_iff {b} {other} v w =
    let n = b.rend - b.rbeg in
    let m = other.rend - other.rbeg in
    rw (crsize-pos v, crsize-pos w, is_zero-sub n m)
      (elim (Bool-cases (n == m)) [
        | inr differ ↦ rw differ (
            returns (
              λ h. cc (sym (is_zero-sub n m) ∙ ap is_zero h, differ),
              λ h. absurd (ground (arith, ap length h, length-readable v, length-readable w)),
            ))
        | inl same ↦
            let e : m ≡ n = ground arith in
            rw same (elim (Bool-cases (ltb_ℤ (pos 0) (pos n))) [
              | inl some_bytes ↦
                  rw
                    (
                      some_bytes,
                      crsize-pos v,
                      read_at-done (bytes b) b.rbeg n (omega arith),
                      read_at-done (bytes other) other.rbeg n (omega arith),
                      slice_at (bytes other) other.rbeg other.rbeg n m refl (sym e),
                    )
                    (returns (
                      λ h.
                          memcmp_eq (readable b) (readable other)
                            (omega (arith, length-readable v, length-readable w)) h,
                      λ h. rw h (memcmp_self (readable other)),
                    ))
              | inr no_bytes ↦
                  let z : n ≡ 0 = ground arith in
                  rw no_bytes (
                    returns (
                      λ h.
                          slice_at (bytes b) b.rbeg b.rbeg n 0 refl z
                          ∙ sym (slice_at (bytes other) other.rbeg other.rbeg m 0 refl (e ∙ z)),
                      λ h. refl,
                    ))
            ])
      ])
