-- ===== src/Buf/Seek/Moves.antt =====
-- A seek on a valid buffer puts its cursor at the clamped target, and the windows stay in order.
use dpapp.Common.{ℕ, ◌+◌, ◌-◌, ◌^◌, ◌≤◌, ◌<◌, ◌≡◌, refl, min, max, arith}
use dpapp.Common.Int.{ℤ, pos, negsuc, sub_ℕ, add_int}
use dpapp.Common.Outcome.{done}
use dpapp.Buf.{Buf}
use dpapp.Buf.Valid.{IsValid}
use dpapp.Buf.Seek.{Whence, seek_set, seek_cur, seek_end, other, clamped, rseek, wseek, eseek}

-- The position at distance `offset` from `base`, brought into [lo, hi].
abbrev pub target : ℕ → ℤ → ℕ → ℕ → ℕ
target base (pos n) lo hi = min (max (base + n) lo) hi
target base (negsuc n) lo hi = min (max (base - (n + 1)) lo) hi

-- The distance lies between -2 ^ 30 and 2 ^ 30.
abbrev pub IsSmall : ℤ → Type 0
IsSmall (pos n) = n < 2 ^ 30
IsSmall (negsuc n) = n < 2 ^ 30

clamped-target :
    (base : ℕ) (offset : ℤ) (lo hi : ℕ)
    → base < 2 ^ 30
    → IsSmall offset
    → lo ≤ hi
    → clamped base offset lo hi ≡ done (target base offset lo hi)
unfolding clamped add_int
clamped-target base (pos n) lo hi b s h = ground arith
clamped-target base (negsuc n) lo hi b s h = ground arith

-- Where `seek` asks a cursor to go that moves in [lo, hi]; `start` is the origin of SEEK_SET.
abbrev pub goal : Whence → ℤ → (start cur lo hi : ℕ) → ℕ
goal seek_set offset start cur lo hi = target start offset lo hi
goal seek_cur offset start cur lo hi = target cur offset lo hi
goal seek_end offset start cur lo hi = target hi offset lo hi
goal other offset start cur lo hi = cur

target_range :
    (base : ℕ) (offset : ℤ) (lo hi : ℕ)
    → lo ≤ hi
    → (lo ≤ target base offset lo hi) × (target base offset lo hi ≤ hi)
target_range base (pos n) lo hi h = omega arith
target_range base (negsuc n) lo hi h = omega arith

-- A cursor that stays between its neighbours leaves the buffer valid.
rbeg_at :
    {b : Buf} {to : ℕ} → IsValid b → (0 ≤ to) × (to ≤ b.rend) → IsValid (record b { rbeg = to })
rbeg_at v range = record {
  read_order = range.1;
  write_order = v.write_order;
  in_size = v.in_size;
  in_block = v.in_block;
  maxs_in_block = v.maxs_in_block;
}

wbeg_at :
    {b : Buf} {to : ℕ}
    → IsValid b
    → (b.rend ≤ to) × (to ≤ b.size)
    → IsValid (record b { wbeg = to })
wbeg_at v range = record {
  read_order = v.read_order;
  write_order = range.0;
  in_size = range.1;
  in_block = v.in_block;
  maxs_in_block = v.maxs_in_block;
}

rend_at :
    {b : Buf} {to : ℕ}
    → IsValid b
    → (b.rbeg ≤ to) × (to ≤ b.wbeg)
    → IsValid (record b { rend = to })
rend_at v range = record {
  read_order = range.0;
  write_order = range.1;
  in_size = v.in_size;
  in_block = v.in_block;
  maxs_in_block = v.maxs_in_block;
}

module _ {b : Buf} (offset : ℤ) (v : IsValid b) (small : b.size < 2 ^ 30)
    (near : IsSmall offset) where
  -- `dpbuf_rseek`.
  pub rseek-goal :
      (seek : Whence)
      → let to = goal seek offset 0 b.rbeg 0 b.rend in
        (rseek b offset seek ≡ done (sub_ℕ to b.rbeg, record b { rbeg = to }))
        × IsValid (record b { rbeg = to })
  unfolding rseek
  rseek-goal seek_set = (
    rw (clamped-target 0 offset 0 b.rend (omega arith) near (omega arith)),
    rbeg_at v (target_range 0 offset 0 b.rend (omega arith)),
  )
  rseek-goal seek_cur = (
    rw (clamped-target b.rbeg offset 0 b.rend (omega arith) near (omega arith)),
    rbeg_at v (target_range b.rbeg offset 0 b.rend (omega arith)),
  )
  rseek-goal seek_end = (
    rw (clamped-target b.rend offset 0 b.rend (omega arith) near (omega arith)),
    rbeg_at v (target_range b.rend offset 0 b.rend (omega arith)),
  )
  rseek-goal other = (refl, v)

  -- `dpbuf_wseek`.
  pub wseek-goal :
      (seek : Whence)
      → let to = goal seek offset b.rend b.wbeg b.rend b.size in
        (wseek b offset seek ≡ done (sub_ℕ to b.wbeg, record b { wbeg = to }))
        × IsValid (record b { wbeg = to })
  unfolding wseek
  wseek-goal seek_set = (
    rw (clamped-target b.rend offset b.rend b.size (omega arith) near (omega arith)),
    wbeg_at v (target_range b.rend offset b.rend b.size (omega arith)),
  )
  wseek-goal seek_cur = (
    rw (clamped-target b.wbeg offset b.rend b.size (omega arith) near (omega arith)),
    wbeg_at v (target_range b.wbeg offset b.rend b.size (omega arith)),
  )
  wseek-goal seek_end = (
    rw (clamped-target b.size offset b.rend b.size (omega arith) near (omega arith)),
    wbeg_at v (target_range b.size offset b.rend b.size (omega arith)),
  )
  wseek-goal other = (refl, v)

  -- `dpbuf_eseek`.
  pub eseek-goal :
      (seek : Whence)
      → let to = goal seek offset b.rbeg b.rend b.rbeg b.wbeg in
        (eseek b offset seek ≡ done (sub_ℕ to b.rend, record b { rend = to }))
        × IsValid (record b { rend = to })
  unfolding eseek
  eseek-goal seek_set = (
    rw (clamped-target b.rbeg offset b.rbeg b.wbeg (omega arith) near (omega arith)),
    rend_at v (target_range b.rbeg offset b.rbeg b.wbeg (omega arith)),
  )
  eseek-goal seek_cur = (
    rw (clamped-target b.rend offset b.rbeg b.wbeg (omega arith) near (omega arith)),
    rend_at v (target_range b.rend offset b.rbeg b.wbeg (omega arith)),
  )
  eseek-goal seek_end = (
    rw (clamped-target b.wbeg offset b.rbeg b.wbeg (omega arith) near (omega arith)),
    rend_at v (target_range b.wbeg offset b.rbeg b.wbeg (omega arith)),
  )
  eseek-goal other = (refl, v)
