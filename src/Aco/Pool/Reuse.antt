-- ===== src/Aco/Pool/Reuse.antt =====
-- `dpaco_delater` and `dpaco_create` on the list of coroutines kept for reuse.
use dpapp.Common.{
  ℕ, suc, ◌≡◌, true, false, none, some, ◌⊎◌, List, ◌∷◌, ltb, tests, arith, if◌then◌else◌,
  Bool-cases, inl, inr,
}
use dpapp.Common.Outcome.{Returns, returns}
use dpapp.Aco.{Co, World, put, store}
use dpapp.Aco.Pool.{is_over, emptied, recycled, delater}
use dpapp.Aco.Pool.Free.{Absent, link_to, HasPool, load-live, put-same, Linked-put, HasPool-store}

-- What `dpaco_delater` makes of the coroutine `co` at `i`, and that it leaves the others alone.
pub data Parted (w : World) (rs : List ℕ) (i : ℕ) (co : Co) (w' : World) : Type 0 where
  kept :
      is_over co.status ≡ true
      → HasPool w' (i ∷ rs)
      → w'.heap i ≡ some (emptied w co)
      → Parted w rs i co w'
  freed :
      is_over co.status ≡ true
      → w.recycle_count ≡ 1024
      → HasPool w' rs
      → w'.heap i ≡ none
      → Parted w rs i co w'
  marked :
      is_over co.status ≡ false
      → HasPool w' rs
      → w'.heap i ≡ some (record co { delater = true })
      → Parted w rs i co w'

pub HasPool-kept :
    {w : World} {rs : List ℕ} {i : ℕ} (co : Co)
    → HasPool w rs
    → Absent i rs
    → is_over co.status ≡ true
    → ltb w.recycle_count 1024 ≡ true
    → HasPool
        (record w {
          heap = put w.heap i (some (emptied w co));
          recycle = some i;
          recycle_count = suc w.recycle_count;
        })
        (i ∷ rs)
HasPool-kept {w} {rs} {i} co pool out over room = record {
  linked =
      link_to {co = emptied w co} (put-same w.heap i (some (emptied w co))) over out
        (Linked-put (some (emptied w co)) pool.linked out);
  counted = omega (arith, pool.counted);
  bounded = omega (tests, room);
}

recycled-Parted :
    {w : World} {rs : List ℕ} {i : ℕ} {co : Co}
    → HasPool w rs
    → Absent i rs
    → is_over co.status ≡ true
    → Parted w rs i co (recycled w i co)
unfolding recycled
recycled-Parted {w} {rs} {i} {co} pool out over = elim (Bool-cases (ltb w.recycle_count 1024)) [
  | inl room ↦ rw room (kept over (HasPool-kept co pool out over room) (put-same w.heap i _))
  | inr full ↦ rw full (
      freed over (ground (arith, full, pool.bounded)) (HasPool-store none pool out)
        (put-same w.heap i none))
]

-- Dpaco_delater of a live coroutine that is not in the list for reuse: one that has not begun or
-- is dead becomes the first of the list, or is freed where the list has 1024 blocks; any other is
-- marked. The list stays sound, counted and at most 1024 long.
pub delater-Parted :
    {w : World} {rs : List ℕ} {i : ℕ} {co : Co}
    → HasPool w rs
    → w.heap i ≡ some co
    → Absent i rs
    → Returns (Parted w rs i co) (delater w (some i))
unfolding delater
delater-Parted {w} {rs} {i} {co} pool live out =
    rw (load-live w i live) (returns (part (Bool-cases (is_over co.status))))
  where
    part :
        (is_over co.status ≡ true) ⊎ (is_over co.status ≡ false)
        → Parted w rs i co (
            if is_over co.status then recycled w i co else store w i (record co { delater = true }))
    part (inl over) = rw over (recycled-Parted pool out over)
    part (inr busy) = rw busy (marked busy (HasPool-store _ pool out) (put-same w.heap i _))
