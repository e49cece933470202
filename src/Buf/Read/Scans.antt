-- ===== src/Buf/Read/Scans.antt =====
-- `dpbuf_runtil`, `dpbuf_rcstr` and `dpbuf_rws`: the readers that look at the bytes.
use dpapp.Common.{
  ℕ, ◌+◌, ◌-◌, ◌≤◌, ◌<◌, ◌≡◌, refl, ap, ◌⊎◌, inl, inr, true, false, ◌||◌, Option, none, some, List,
  [], ◌∷◌, ◌==◌, arith, length, length-take, length-drop, drop, ltb, ltb→lt, Bool-cases,
  Option-cases, take-of_length_le, if◌then◌else◌,
}
use dpapp.Common.Int.{
  ℤ, pos, index-add_zero, index-sub_zero, index-sub_ℕ, zero-add_pos, add_pos, ltb_ℤ,
}
use dpapp.Common.Outcome.{done, Returns, returns, Returns-bind}
use dpapp.Mem.{Block, memmem}
use dpapp.Mem.Slice.{read_at-done, length-slice}
use dpapp.Mem.Search.{OccursAt, IsFirst, memmem-IsFirst, memmem-none, strnlen-le}
use dpapp.Buf.{Buf, bytes, enodata, eperm, crsize}
use dpapp.Buf.Scan.{cfind, count_ws}
use dpapp.Buf.Read.{cstr_count, runtil, rcstr, rws}
use dpapp.Buf.Read.Takes.{Took, failed-Took, window-Took, cesize-pos}
use dpapp.Buf.Valid.{IsValid, readable, pending}

-- The outcome of a search, as an error code or a position.
abbrev pub found : Option ℕ → ℤ
found none = eperm
found (some i) = pos i

-- `dpbuf_cfind` from the front of the readable window, with the length of the string given: the
-- first position where the string stands, -EPERM if there is none, -ENODATA if it cannot be there.
pub cfind-found :
    {b : Buf} (sub : Block)
    → IsValid b
    → 0 < length sub
    → cfind b (some sub) (pos (length sub)) (pos 0) ≡ (
        if ltb (b.rend - b.rbeg) (length sub)
        then done enodata
        else done (found (memmem (readable b) sub)))
unfolding cfind
cfind-found {b} sub v p = elim (Bool-cases (ltb (b.rend - b.rbeg) (length sub))) [
  | inl short ↦
      let e : (length sub == 0 || ltb_ℤ (crsize b) (pos (length sub))) ≡ true = ground arith in
      rw (e, short)
  | inr fits ↦
      let e : (length sub == 0 || ltb_ℤ (crsize b) (pos (length sub))) ≡ false = ground arith in
      rw
        (
          e,
          fits,
          index-add_zero b.rbeg,
          index-sub_zero b.rend b.rbeg v.read_order,
          read_at-done (bytes b) b.rbeg (b.rend - b.rbeg) (omega arith),
          read_at-done sub 0 (length sub) (omega arith),
          take-of_length_le (length sub) sub (omega arith),
        )
        (elim (Option-cases (memmem (readable b) sub)) [
          | inl e ↦ rw e
          | inr (i, e) ↦ rw e (ap done (zero-add_pos i))
        ])
]

-- The buffer in which `dpbuf_runtil` searches.
abbrev pub ahead : Buf → Buf
ahead b = record b { rbeg = b.rend; rend = b.wbeg }

pub ahead-IsValid : {b : Buf} → IsValid b → IsValid (ahead b)
ahead-IsValid v = record {
  read_order = v.write_order;
  write_order = omega arith;
  in_size = v.in_size;
  in_block = v.in_block;
  maxs_in_block = v.maxs_in_block;
}

-- `dpbuf_runtil` reads up to the end of the first place where `sub` stands in what is pending or,
-- where it stands nowhere, fails and keeps all of it.
abbrev pub Until : Buf → Block → ℤ × Buf → Type 0
Until b sub (r, b') =
    ((i : ℕ) × IsFirst (pending b) sub i × (r ≡ pos (i + length sub)) × Took (i + length sub) b b')
    ⊎ ((r ≡ enodata) × ((i : ℕ) → i ≤ b.wbeg - b.rend → ¬ OccursAt (pending b) sub i) × Took 0 b b')

pub length-pending : {b : Buf} → IsValid b → length (pending b) ≡ b.wbeg - b.rend
length-pending {b} v = length-slice (bytes b) b.rend (b.wbeg - b.rend) (omega arith)

too_short : (xs sub : Block) → length xs < length sub → (i : ℕ) → ¬ OccursAt xs sub i
too_short xs sub h i o =
    omega (arith, ap length o, length-take (length sub) (drop i xs), length-drop i xs)

ltb_ℤ-pos : (i : ℕ) → ltb_ℤ (pos i) (pos 0) ≡ false
ltb_ℤ-pos i = ground arith

-- Dpbuf_runtil for a non-empty delimiter given with its length, on a valid buffer: it reads up to
-- the end of the first place where the delimiter stands in the pending bytes and returns that
-- length, or it stands nowhere, the result is -ENODATA and all bytes stay pending.
pub runtil-Until :
    {b : Buf} (sub : Block)
    → IsValid b
    → 0 < length sub
    → Returns (Until b sub) (runtil b (some sub) (pos (length sub)))
unfolding runtil
runtil-Until {b} sub v p =
    rw (cfind-found sub (ahead-IsValid v) p)
      (elim (Bool-cases (ltb (b.wbeg - b.rend) (length sub))) [
        | inl short ↦ rw short (
            returns (
              inr (
                refl,
                λ i h.
                    too_short (pending b) sub (omega (arith, length-pending v, ltb→lt _ _ short)) i,
                failed-Took v,
              )))
        | inr fits ↦ rw fits (elim (Option-cases (memmem (pending b) sub)) [
          | inl e ↦ rw e (
              returns (
                inr (
                  refl,
                  λ i h. memmem-none (pending b) sub e i (omega (arith, length-pending v)),
                  failed-Took v,
                )))
          | inr (i, e) ↦
              let f = memmem-IsFirst (pending b) sub e in
              rw (e, ltb_ℤ-pos i, add_pos i (length sub))
                (Returns-bind
                  (window-Took (i + length sub) v (omega (arith, length-pending v, f.inside)))
                  λ b' t. returns (inl (i, f, refl, t)))
        ])
      ])

-- Dpbuf_rcstr on a valid buffer reads the pending bytes up to and with their first 0, or all of
-- them if there is no 0, or none if the first of them is 0; it returns their number.
pub rcstr-Took :
    {b : Buf}
    → IsValid b
    → let k = cstr_count (pending b) (b.wbeg - b.rend) in
      Returns (λ out. (out.0 ≡ pos k) × Took k b out.1) (rcstr b)
unfolding rcstr
rcstr-Took {b} v =
    let k = cstr_count (pending b) (b.wbeg - b.rend) in
    let le : k ≤ b.wbeg - b.rend = ground (arith, length-pending v, strnlen-le (pending b)) in
    rw
      (
        index-sub_ℕ b.wbeg b.rend v.write_order,
        read_at-done (bytes b) b.rend (b.wbeg - b.rend) (omega arith),
      )
      (Returns-bind (window-Took k v le) λ b' t. returns (refl, t))

count_ws-le : (xs : List ℕ) → count_ws xs ≤ length xs
unfolding count_ws
count_ws-le [] = omega arith
count_ws-le (c ∷ cs) = ground (arith, count_ws-le cs)

-- `dpbuf_rws` reads the white space at the front of what is pending.
pub rws-Took :
    {b : Buf}
    → IsValid b
    → let k = count_ws (pending b) in Returns (λ out. (out.0 ≡ pos k) × Took k b out.1) (rws b)
unfolding rws
rws-Took {b} v =
    rw (cesize-pos v, rws, read_at-done (bytes b) b.rend (b.wbeg - b.rend) (omega arith))
      (Returns-bind
        (window-Took (count_ws (pending b)) v
          (omega (arith, length-pending v, count_ws-le (pending b))))
        λ b' t. returns (refl, t))
