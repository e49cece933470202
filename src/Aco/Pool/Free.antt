-- ===== src/Aco/Pool/Free.antt =====
-- The list of the coroutines that are kept for reuse.
use dpapp.Common.{
  ℕ, ◌≤◌, ◌≡◌, ◌≢◌, refl, sym, ap, ◌∙◌, true, Option, none, some, List, [], ◌∷◌, length, arith,
}
use dpapp.Aco.{Heap, Co, World, live_block, load, put}
use dpapp.Common.Outcome.{done}
use dpapp.Aco.Pool.{is_over}

-- `i` does not stand in the list.
pub data Absent (i : ℕ) : List ℕ → Type 0 where
  nowhere : Absent i []
  behind : {j : ℕ} {js : List ℕ} → i ≢ j → Absent i js → Absent i (j ∷ js)

-- From `r` on, the links lead through the blocks `rs`, which are live, different and not in use.
pub data Linked (h : Heap) : Option ℕ → List ℕ → Type 0 where
  end_of : Linked h none []
  link_to :
      {i : ℕ} {co : Co} {rs : List ℕ}
      → h i ≡ some co
      → is_over co.status ≡ true
      → Absent i rs
      → Linked h co.link rs
      → Linked h (some i) (i ∷ rs)

-- `rs` are the coroutines kept for reuse; `recycle_count` counts them and is at most 1024.
pub record HasPool (w : World) (rs : List ℕ) : Type 0 where
  pub linked : Linked w.heap w.recycle rs
  pub counted : length rs ≡ w.recycle_count
  pub bounded : w.recycle_count ≤ 1024

pub put-same : (h : Heap) (i : ℕ) (x : Option Co) → put h i x i ≡ x
unfolding put
put-same h i x = ground arith

pub put-other : (h : Heap) {i j : ℕ} (x : Option Co) → j ≢ i → put h i x j ≡ h j
unfolding put
put-other h x ne = ground arith

pub Linked-put :
    {h : Heap} {i : ℕ} (x : Option Co) {r : Option ℕ} {rs : List ℕ}
    → Linked h r rs
    → Absent i rs
    → Linked (put h i x) r rs
Linked-put x end_of nowhere = end_of
Linked-put {h} {i} x (link_to {co} live over out rest) (behind ne a) =
    link_to {co = co} (put-other h x (λ e. ne (sym e)) ∙ live) over out (Linked-put x rest a)

-- A block that is not live is not in the list.
pub Linked-Absent :
    {h : Heap} {j : ℕ} {r : Option ℕ} {rs : List ℕ} → h j ≡ none → Linked h r rs → Absent j rs
Linked-Absent dead end_of = nowhere
Linked-Absent dead (link_to live over out rest) =
    behind (λ e. absurd (cc)) (Linked-Absent dead rest)

pub load-live : (w : World) (i : ℕ) {co : Co} → w.heap i ≡ some co → load w i ≡ done co
unfolding load
load-live w i live = ap live_block live

-- What the list says of its first block.
pub record First (h : Heap) (r : Option ℕ) (i : ℕ) (rs : List ℕ) : Type 0 where
  pub co : Co
  pub points : r ≡ some i
  pub live : h i ≡ some co
  pub out : Absent i rs
  pub rest : Linked h co.link rs

pub Linked-First :
    {h : Heap} {r : Option ℕ} {i : ℕ} {rs : List ℕ} → Linked h r (i ∷ rs) → First h r i rs
Linked-First (link_to {co} live over out rest) = record {
  co = co;
  points = refl;
  live = live;
  out = out;
  rest = rest;
}

pub Linked-empty : {h : Heap} {r : Option ℕ} → Linked h r [] → r ≡ none
Linked-empty end_of = refl

pub HasPool-store :
    {w : World} {rs : List ℕ} {i : ℕ} (x : Option Co)
    → HasPool w rs
    → Absent i rs
    → HasPool (record w { heap = put w.heap i x }) rs
HasPool-store x pool out = record {
  linked = Linked-put x pool.linked out;
  counted = pool.counted;
  bounded = pool.bounded;
}
