-- ===== src/Buf/Read/Takes.antt =====
-- `dpbuf_rdata`, `dpbuf_rmust` and `dpbuf_rall` take their bytes from the front of what is pending.
use dpapp.Common.{
  ℕ, ◌+◌, ◌-◌, ◌≤◌, ◌<◌, min, ◌≡◌, refl, sym, ap, ◌∙◌, ◌⊎◌, inl, inr, true, false, ◌||◌, arith,
  take, drop, take-take, drop-take, drop-drop, ltb, ltb→lt, Bool-cases, if◌then◌else◌,
}
use mathlib.Core.Path.{subst}
use dpapp.Common.Int.{ℤ, pos, negsuc, index-add, ltb_ℤ, min_ℤ}
use dpapp.Common.Outcome.{Returns, returns, Returns-bind}
use dpapp.Mem.Slice.{slice_at}
use dpapp.Buf.{Buf, bytes, enodata, cesize}
use dpapp.Buf.Read.{window, rdata, rmust, rall}
use dpapp.Buf.Valid.{IsValid, readable, pending}

-- `b'` has the first `k` pending bytes of `b` for its readable window, and the others pending.
pub record Took (k : ℕ) (b b' : Buf) : Type 0 where
  pub valid : IsValid b'
  pub read : readable b' ≡ take k (pending b)
  pub rest : pending b' ≡ drop k (pending b)
  pub same_storage : b'.data_ref ≡ b.data_ref
  pub same_size : b'.size ≡ b.size
  pub same_utype : b'.utype ≡ b.utype
  pub same_uflag : b'.uflag ≡ b.uflag
  pub same_flag : b'.flag ≡ b.flag

pub moved-Took :
    {b : Buf} (k : ℕ)
    → IsValid b
    → k ≤ b.wbeg - b.rend
    → Took k b (record b { rbeg = b.rend; rend = b.rend + k })
moved-Took {b} k v h = record {
  valid = record {
    read_order = omega arith;
    write_order = omega arith;
    in_size = v.in_size;
    in_block = v.in_block;
    maxs_in_block = v.maxs_in_block;
  };
  read =
      slice_at (bytes b) b.rend b.rend (b.rend + k - b.rend) k refl (omega arith)
      ∙ sym (take-take k (b.wbeg - b.rend) (drop b.rend (bytes b)) h);
  rest =
      slice_at (bytes b) (b.rend + k) (b.rend + k) (b.wbeg - (b.rend + k)) (b.wbeg - b.rend - k)
        refl (omega arith)
      ∙ ap (take (b.wbeg - b.rend - k)) (sym (drop-drop k b.rend (bytes b)))
      ∙ sym (drop-take k (b.wbeg - b.rend) (drop b.rend (bytes b)));
  same_storage = refl;
  same_size = refl;
  same_utype = refl;
  same_uflag = refl;
  same_flag = refl;
}

-- A reader that fails drops the readable window and leaves what is pending.
pub failed-Took : {b : Buf} → IsValid b → Took 0 b (record b { rbeg = b.rend })
failed-Took {b} v = record {
  valid = record {
    read_order = omega arith;
    write_order = v.write_order;
    in_size = v.in_size;
    in_block = v.in_block;
    maxs_in_block = v.maxs_in_block;
  };
  read = slice_at (bytes b) b.rend b.rend (b.rend - b.rend) 0 refl (omega arith);
  rest = refl;
  same_storage = refl;
  same_size = refl;
  same_utype = refl;
  same_uflag = refl;
  same_flag = refl;
}

pub window-Took :
    {b : Buf} (k : ℕ) → IsValid b → k ≤ b.wbeg - b.rend → Returns (Took k b) (window b (pos k))
window-Took {b} k v h = rw (index-add b.rend k) (returns (moved-Took k v h))

pub cesize-pos : {b : Buf} → IsValid b → cesize b ≡ pos (b.wbeg - b.rend)
cesize-pos v = ground arith

-- How many of `avail` bytes `dpbuf_rdata` reads.
abbrev pub read_count : ℕ → ℤ → ℕ
read_count avail (pos n) = min n avail
read_count avail (negsuc n) = avail

read_count-le : (avail : ℕ) (len : ℤ) → read_count avail len ≤ avail
read_count-le avail (pos n) = omega arith
read_count-le avail (negsuc n) = omega arith

read_length :
    {b : Buf} (len : ℤ)
    → IsValid b
    → min_ℤ (if ltb_ℤ len (pos 0) then cesize b else len) (cesize b)
      ≡ pos (read_count (b.wbeg - b.rend) len)
read_length (pos n) v = ground arith
read_length (negsuc n) v = ground arith

-- Dpbuf_rdata of a valid buffer returns the smaller of the length and the number of pending bytes,
-- all of them for a negative length; these bytes become the readable window, the others stay
-- pending, and the storage is not touched.
pub rdata-Took :
    {b : Buf} (len : ℤ)
    → IsValid b
    → let k = read_count (b.wbeg - b.rend) len in
      Returns (λ out. (out.0 ≡ pos k) × Took k b out.1) (rdata b len)
unfolding rdata
rdata-Took {b} len v = rw (read_length len v) (
    Returns-bind
      (window-Took (read_count (b.wbeg - b.rend) len) v (read_count-le (b.wbeg - b.rend) len))
      λ b' t. returns (refl, t))

-- Dpbuf_rmust of n bytes on a valid buffer reads exactly n bytes and returns n if so many are
-- pending; otherwise it returns -ENODATA, the readable window is empty and all bytes stay pending.
pub rmust-Took :
    {b : Buf} (n : ℕ)
    → IsValid b
    → Returns
        (λ out.
          (n ≤ b.wbeg - b.rend) × (out.0 ≡ pos n) × Took n b out.1
          ⊎ (b.wbeg - b.rend < n) × (out.0 ≡ enodata) × Took 0 b out.1)
        (rmust b (pos n))
unfolding rmust
rmust-Took {b} n v = elim (Bool-cases (ltb (b.wbeg - b.rend) n)) [
  | inl short ↦
      let e : (ltb_ℤ (pos n) (pos 0) || ltb_ℤ (cesize b) (pos n)) ≡ true = ground arith in
      rw e (returns (inr (ltb→lt _ _ short, refl, failed-Took v)))
  | inr fits ↦
      let e : (ltb_ℤ (pos n) (pos 0) || ltb_ℤ (cesize b) (pos n)) ≡ false = ground arith in
      let le : n ≤ b.wbeg - b.rend = ground arith in
      rw e (Returns-bind (window-Took n v le) λ b' t. returns (inl (le, refl, t)))
]

-- `dpbuf_rall`.
pub rall-Took :
    {b : Buf}
    → IsValid b
    → ((rall b).0 ≡ pos (b.wbeg - b.rend)) × Took (b.wbeg - b.rend) b (rall b).1
unfolding rall
rall-Took {b} v = (
  cesize-pos v,
  subst (λ z. Took (b.wbeg - b.rend) b (record b { rbeg = b.rend; rend = z })) (omega arith)
      (moved-Took (b.wbeg - b.rend) v (omega arith)),
)
