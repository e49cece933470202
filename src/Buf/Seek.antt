-- ===== src/Buf/Seek.antt =====
-- `dpbuf_rseek`, `dpbuf_wseek`, `dpbuf_eseek`: each moves one cursor, clamped between its neighbours.
pub mod Moves
use dpapp.Common.{ℕ, if◌then◌else◌}
use dpapp.Common.Int.{ℤ, pos, pos_part, sub_ℕ, ltb_ℤ, add_int}
use dpapp.Common.Outcome.{Outcome, done, ◌>>=◌}
use dpapp.Buf.{Buf}

-- The values of `seek`; any other is ignored.
pub data Whence : Type 0 where
  seek_set seek_cur seek_end other : Whence

unfoldable pub iclamp : ℤ → ℤ → ℤ → ℤ
iclamp v l h = let t = if ltb_ℤ v l then l else v in if ltb_ℤ t h then t else h

-- `_iclamp(base + offset, lo, hi)` at bounds that are cursors, and so a cursor.
unfoldable pub clamped : ℕ → ℤ → ℕ → ℕ → Outcome ℕ
unfolding iclamp
clamped base offset lo hi = do
  v ← add_int (pos base) offset
  done (pos_part (iclamp v (pos lo) (pos hi)))

unfoldable pub rseek : Buf → ℤ → Whence → Outcome (ℤ × Buf)
rseek b offset seek = do
  rbeg ← elim seek [
    | seek_set ↦ clamped 0 offset 0 b.rend
    | seek_cur ↦ clamped b.rbeg offset 0 b.rend
    | seek_end ↦ clamped b.rend offset 0 b.rend
    | other ↦ done b.rbeg
  ]
  done (sub_ℕ rbeg b.rbeg, record b { rbeg = rbeg })

unfoldable pub wseek : Buf → ℤ → Whence → Outcome (ℤ × Buf)
wseek b offset seek = do
  wbeg ← elim seek [
    | seek_set ↦ clamped b.rend offset b.rend b.size
    | seek_cur ↦ clamped b.wbeg offset b.rend b.size
    | seek_end ↦ clamped b.size offset b.rend b.size
    | other ↦ done b.wbeg
  ]
  done (sub_ℕ wbeg b.wbeg, record b { wbeg = wbeg })

unfoldable pub eseek : Buf → ℤ → Whence → Outcome (ℤ × Buf)
eseek b offset seek = do
  rend ← elim seek [
    | seek_set ↦ clamped b.rbeg offset b.rbeg b.wbeg
    | seek_cur ↦ clamped b.rend offset b.rbeg b.wbeg
    | seek_end ↦ clamped b.wbeg offset b.rbeg b.wbeg
    | other ↦ done b.rend
  ]
  done (sub_ℕ rend b.rend, record b { rend = rend })
