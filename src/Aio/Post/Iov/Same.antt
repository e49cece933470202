-- ===== src/Aio/Post/Iov/Same.antt =====
-- A call on segments does to them what the call on one block does to the bytes in a row.
use dpapp.Common.{
  ℕ, zero, suc, ◌+◌, ◌-◌, ◌≤◌, ◌<◌, ◌^◌, ◌%◌, leb, true, ◌≡◌, refl, sym, ap, ◌∙◌, inl, inr, some,
  List, [], ◌∷◌, ◌++◌, ◌==◌, ltb, arith, length, length-append, take, take-of_length_le, drop,
  drop-nil, drop-drop, ==_iff, if◌then◌else◌, Bool-cases,
}
use dpapp.Common.Int.{pos, int_max}
use dpapp.Common.Outcome.{Outcome, done}
use dpapp.Mem.{Block}
use dpapp.Aio.{Answer, moved, closed, failed, Posted}
use dpapp.Aio.Post.{complete, buf_round, buf_post}
use dpapp.Aio.Post.Iov.{Iovec, sum_len, iov_total, iov_advance, is_total, iov_round, iov_post}

abbrev range : ℕ → ℕ → List ℕ
range base zero = []
range base (suc n) = base ∷ range (suc base) n

-- The addresses of the bytes of the segments, in order.
abbrev pub addresses : List Iovec → List ℕ
addresses [] = []
addresses (seg ∷ iov) = range seg.base seg.len ++ addresses iov

length-range : (base n : ℕ) → length (range base n) ≡ n
length-range base zero = refl
length-range base (suc n) = ap suc (length-range (suc base) n)

drop-append_range :
    (base n m : ℕ) (xs : List ℕ)
    → m ≤ n
    → drop m (range base n ++ xs) ≡ range (base + m) (n - m) ++ xs
drop-append_range base n zero xs h =
    let b : base ≡ base + 0 = omega arith in
    let c : n ≡ n - 0 = omega arith in
    ap (λ (i : ℕ). range i n ++ xs) b ∙ ap (λ (i : ℕ). range (base + 0) i ++ xs) c
drop-append_range base zero (suc m) xs h = absurd (omega arith)
drop-append_range base (suc n) (suc m) xs h =
    let b : suc base + m ≡ base + suc m = omega arith in
    let c : n - m ≡ suc n - suc m = omega arith in
    drop-append_range (suc base) n m xs (omega arith)
    ∙ ap (λ (i : ℕ). range i (n - m) ++ xs) b
    ∙ ap (λ (i : ℕ). range (base + suc m) i ++ xs) c

drop-append_over :
    (base n m : ℕ) (xs : List ℕ) → n ≤ m → drop m (range base n ++ xs) ≡ drop (m - n) xs
drop-append_over base zero m xs h = let e : m ≡ m - 0 = omega arith in ap (λ (i : ℕ). drop i xs) e
drop-append_over base (suc n) zero xs h = absurd (omega arith)
drop-append_over base (suc n) (suc m) xs h =
    let e : m - n ≡ suc m - suc n = omega arith in
    drop-append_over (suc base) n m xs (omega arith) ∙ ap (λ (i : ℕ). drop i xs) e

sum_len-addresses : (iov : List Iovec) → sum_len iov ≡ length (addresses iov)
sum_len-addresses [] = refl
sum_len-addresses (seg ∷ iov) = omega (
  arith,
  sum_len-addresses iov,
  length-append (range seg.base seg.len) (addresses iov),
  length-range seg.base seg.len,
)

-- `_dpioc_iov_advance` leaves the segments of what is left.
pub iov_advance-addresses :
    (iov : List Iovec) (n : ℕ) → addresses (iov_advance iov n) ≡ drop n (addresses iov)
unfolding iov_advance
iov_advance-addresses [] n = sym (drop-nil n)
iov_advance-addresses (seg ∷ iov) n = elim (Bool-cases (n == 0)) [
  | inl e ↦
      let z : n ≡ 0 = (==_iff n 0).0 e in
      rw e (ap (λ (i : ℕ). drop i (addresses (seg ∷ iov))) (sym z))
  | inr e ↦ elim (Bool-cases (ltb n seg.len)) [
    | inl lt ↦
        rw (e, lt) (sym (drop-append_range seg.base seg.len n (addresses iov) (ground (arith, lt))))
    | inr ge ↦
        rw (e, ge)
          (iov_advance-addresses iov (n - seg.len)
            ∙ sym (drop-append_over seg.base seg.len n (addresses iov) (ground (arith, ge))))
  ]
]

-- A sum of the segments that fits in an int is not changed by the narrowing.
is_total-small : (n len : ℕ) → len < 2 ^ 31 → is_total n len ≡ (n == len)
is_total-small n len h =
    let e : len % 2 ^ 32 ≡ len = omega arith in
    let b : leb len int_max ≡ true = ground arith in rw (e, b) refl

module _ {K : Type 0} (io : List Iovec → K → Answer × K) (flat : List ℕ → K → Answer × K)
    (documented : (iov : List Iovec) (k : K) → io iov k ≡ flat (addresses iov) k) (all : List ℕ)
    (len : ℕ) (small : len < 2 ^ 31) where
  round-same :
      (again : List Iovec → Block → K → Outcome (Posted K))
      (again' : Block → K → Outcome (Posted K)) (iov : List Iovec) (got : Block)
      → addresses iov ≡ drop (length got) all
      → ((iov : List Iovec) (got : Block) (k : K)
          → addresses iov ≡ drop (length got) all
          → again iov got k ≡ again' got k)
      → (answer : Answer × K) → iov_round len again iov got answer ≡ buf_round len again' got answer
  round-same again again' iov got e same (closed, k) = refl
  round-same again again' iov got e same (failed n, k) = refl
  round-same again again' iov got e same (moved xs, k) =
      let at =
        iov_advance-addresses iov (length xs)
        ∙ ap (drop (length xs)) e
        ∙ drop-drop (length xs) (length got) all
        ∙ ap (λ (i : ℕ). drop i all) (sym (length-append got xs)) in
      rw (is_total-small (length (got ++ xs)) len small) (
        ap (λ z. if length (got ++ xs) == len then done (complete (got ++ xs) k) else z)
          (same (iov_advance iov (length xs)) (got ++ xs) k at))

  iov_post-same_from :
      (fuel : ℕ) (iov : List Iovec) (got : Block) (k : K)
      → addresses iov ≡ drop (length got) all
      → iov_post io fuel len iov got k ≡ buf_post (λ at. flat (drop at all)) fuel len got k
  unfolding iov_post buf_post
  iov_post-same_from zero iov got k e = refl
  iov_post-same_from (suc fuel) iov got k e =
      round-same (iov_post io fuel len) (buf_post (λ at. flat (drop at all)) fuel len) iov got e
        (iov_post-same_from fuel) (io iov k)
      ∙ ap (buf_round len (buf_post (λ at. flat (drop at all)) fuel len) got)
          (documented iov k ∙ ap (λ z. flat z k) e)

-- _dpaio_iov_post on segments of fewer than 2^31 bytes in all, so that their total fits the int
-- that it is narrowed to, over a call that treats them as their bytes in a row, returns for any
-- number of rounds just what _dpaio_buf_post does on those bytes in a row: _dpioc_iov_advance
-- always leaves the segments of the bytes that are left, and _dpioc_iov_total is their number.
pub iov_post-buf_post :
    {K : Type 0} (io : List Iovec → K → Answer × K) (flat : List ℕ → K → Answer × K)
    → ((iov : List Iovec) (k : K) → io iov k ≡ flat (addresses iov) k)
    → (iov : List Iovec) (fuel : ℕ) (k : K) → length (addresses iov) < 2 ^ 31
    → let len = iov_total (some iov) (pos (length iov)) in
      (len ≡ length (addresses iov))
      × (iov_post io fuel len iov [] k
          ≡ buf_post (λ at. flat (drop at (addresses iov))) fuel len [] k)
unfolding iov_total
iov_post-buf_post io flat documented iov fuel k small =
    let total : sum_len (take (length iov) iov) ≡ length (addresses iov) =
      ap sum_len (take-of_length_le (length iov) iov (omega arith)) ∙ sum_len-addresses iov in
    (
      total,
      iov_post-same_from io flat documented (addresses iov) (sum_len (take (length iov) iov))
          (omega (arith, total)) fuel iov [] k refl,
    )
