-- ===== src/Aio/Stream/Read/Scanning.antt =====
-- What a round of `_dpaio_read_until_post` may make of a stream, and what holds before its search.
use dpapp.Common.{
  ℕ, ◌+◌, ◌-◌, ◌^◌, ◌≤◌, ◌<◌, ◌≡◌, refl, sym, ap, ◌∙◌, true, ◌++◌, ltb, arith, length, take, drop,
  take-take, take-append_left,
}
use mathlib.Core.Path.{subst}
use dpapp.Common.Int.{ℤ, pos, sub_ℕ}
use dpapp.Common.Outcome.{done}
use dpapp.Mem.{Block}
use dpapp.Mem.Slice.{slice-eq_of_take, slice_at, length-slice}
use dpapp.Mem.Search.{OccursAt, IsFirst}
use dpapp.Buf.{Buf, bytes}
use dpapp.Buf.Valid.{IsValid, readable}
use dpapp.Buf.Seek.{seek_set, eseek}
use dpapp.Buf.Seek.Moves.{target, eseek-goal}
use dpapp.Aio.{wait, continue}
use dpapp.Aio.Stream.{Stm, Next, total_or}
use dpapp.Aio.Stream.Read.Steps.{HasRoom}

-- The stream can go on: the delimiter does not stand in the first `flag` bytes that are readable.
pub record IsScanning (stm : Stm) : Type 0 where
  pub room : HasRoom stm
  pub counted : stm.until_len ≡ length stm.until
  pub some_until : 0 < stm.until_len
  pub flag_in : stm.flag ≤ length (readable stm.buf)
  pub total_in : stm.total ≤ length (readable stm.buf)
  pub unseen : (j : ℕ) → j + stm.until_len ≤ stm.flag → ¬ OccursAt (readable stm.buf) stm.until j

-- What a round makes of the stream where `all` is readable after it: it finds the first delimiter
-- and shows what stands up to its end; or there is none in `all`, and it ends where `len` is
-- reached, waits and can go on, or answers the total where there is no memory.
pub data UntilStep {K : Type 0} (stm : Stm) (all : Block) (n : ℕ) (next : Next K) : Type 0 where
  found :
      (i : ℕ)
      → IsFirst all stm.until i
      → next.ret ≡ pos (i + stm.until_len)
      → readable next.stm.buf ≡ take (i + stm.until_len) all
      → IsValid next.stm.buf
      → UntilStep stm all n next
  missed :
      ((i : ℕ) → ¬ OccursAt all stm.until i)
      → stm.len ≤ stm.total + n
      → next.ret ≡ continue
      → readable next.stm.buf ≡ all
      → UntilStep stm all n next
  waits :
      ((i : ℕ) → ¬ OccursAt all stm.until i)
      → stm.total + n < stm.len
      → next.ret ≡ wait
      → readable next.stm.buf ≡ all
      → IsScanning next.stm
      → UntilStep stm all n next
  no_memory :
      ((i : ℕ) → ¬ OccursAt all stm.until i)
      → next.ret ≡ pos (stm.total + n)
      → readable next.stm.buf ≡ all
      → UntilStep stm all n next

-- What stands in the front of a longer block stands in the block that this front is.
pub append-OccursAt :
    (old more sub : Block) (j : ℕ)
    → j + length sub ≤ length old
    → OccursAt (old ++ more) sub j
    → OccursAt old sub j
append-OccursAt old more sub j h o =
    slice-eq_of_take old (old ++ more) (length old) j (length sub)
      (sym (take-append_left (length old) old more (omega arith))) h
    ∙ o

pub move-OccursAt :
    {xs ys sub sub' : Block} (j : ℕ) → xs ≡ ys → sub ≡ sub' → OccursAt xs sub j → OccursAt ys sub' j
move-OccursAt {xs} {sub'} j e f o =
    subst (λ z. OccursAt z sub' j) e (subst (λ z. OccursAt xs z j) f o)

-- The search may begin at `left`.
pub before_left :
    {stm : Stm} (more : Block)
    → IsScanning stm
    → (j : ℕ) → j < stm.flag + 1 - stm.until_len
    → ¬ OccursAt (readable stm.buf ++ more) stm.until j
before_left {stm} more s j h o =
    s.unseen j (omega arith)
      (append-OccursAt (readable stm.buf) more stm.until j (omega (arith, s.counted, s.flag_in)) o)

-- `rend` at the end of the first `n` readable bytes.
pub eseek-set :
    {b : Buf} (n : ℕ)
    → IsValid b
    → b.size < 2 ^ 30
    → b.rbeg + n ≤ b.wbeg
    → eseek b (pos n) seek_set ≡ done (sub_ℕ (b.rbeg + n) b.rend, record b { rend = b.rbeg + n })
eseek-set {b} n v small fits =
    let to : target b.rbeg (pos n) b.rbeg b.wbeg ≡ b.rbeg + n = omega arith in
    (eseek-goal (pos n) v small (omega arith) seek_set).0
    ∙ ap (λ t. done (sub_ℕ t b.rend, record b { rend = t })) to

pub readable_first :
    (b : Buf) (n : ℕ)
    → b.rbeg + n ≤ b.rend
    → readable (record b { rend = b.rbeg + n }) ≡ take n (readable b)
readable_first b n h =
    slice_at (bytes b) b.rbeg b.rbeg (b.rbeg + n - b.rbeg) n refl (omega arith)
    ∙ sym (take-take n (b.rend - b.rbeg) (drop b.rbeg (bytes b)) (omega arith))

-- The stream after `n` bytes that stand in its buffer `b`.
abbrev pub counted_in : Stm → Buf → ℕ → Stm
counted_in stm b n = record stm { buf = b; total = stm.total + n }

pub length-readable : {b : Buf} → IsValid b → length (readable b) ≡ b.rend - b.rbeg
length-readable {b} v = length-slice (bytes b) b.rbeg (b.rend - b.rbeg) (omega arith)

pub total_or-at : (stm : Stm) (r : ℤ) {n : ℕ} → stm.total ≡ n → 0 < n → total_or stm r ≡ pos n
total_or-at stm r e h = let c : ltb 0 stm.total ≡ true = ground arith in rw c (ap pos e)
