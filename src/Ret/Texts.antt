-- ===== src/Ret/Texts.antt =====
-- Which texts `dperr_http_detail` gives.
use Prim.Native.String.{String}
use dpapp.Common.{
  le→leb, lt→ltb, ℕ, zero, suc, ◌+◌, ◌≤◌, ◌<◌, ◌≡◌, refl, ◌⊎◌, inl, inr, false, Option, none, ltb,
  if◌then◌else◌, arith,
}
use dpapp.Common.Int.{pos}
use dpapp.Common.Outcome.{done}
use dpapp.Ret.{errmsg, or_unknown, negated, detail, http_detail}

not_below : (a b : ℕ) → a ≤ b → ltb b a ≡ false
not_below a b h = ground (arith, h)

-- From 150 on the text of a code comes from the table.
detail-table :
    (f : ℕ → Option String) (n : ℕ)
    → 150 ≤ n
    → detail f (negated n) ≡ or_unknown (if ltb n 600 then errmsg n else none)
unfolding detail
detail-table f zero h = absurd (omega arith)
detail-table f (suc n) h = rw (not_below 150 (suc n) h) refl

-- For an HTTP status from 100 to 109, or of 150 and more, dperr_http_detail gives the text of the
-- table of dpret.c, shifted by 90 below 110, or that of an unknown error where the table has none
-- or the status is 600 or more; it never depends on strerror.
pub http_detail-table :
    (f : ℕ → Option String) (n : ℕ)
    → ((100 ≤ n) × (n < 110)) ⊎ (150 ≤ n)
    → http_detail f (pos n)
      ≡ done
          (or_unknown (if ltb n 110 then errmsg (n + 90) else if ltb n 600 then errmsg n else none))
unfolding http_detail
http_detail-table f n (inl (lo, hi)) =
    rw
      (
        le→leb 100 n lo,
        lt→ltb n 110 hi,
        detail-table f (n + 90) (omega arith),
        lt→ltb (n + 90) 600 (omega arith),
      )
      refl
http_detail-table f n (inr lo) =
    rw (le→leb 100 n (omega arith), not_below 110 n (omega arith), detail-table f n lo) refl
