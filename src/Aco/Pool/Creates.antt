-- ===== src/Aco/Pool/Creates.antt =====
-- What `dpaco_create` returns.
use dpapp.Common.{
  ℕ, suc, ◌≡◌, ◌≢◌, refl, ap, ◌∙◌, Bool, true, false, Option, none, some, ◌⊎◌, List, [], ◌∷◌, ◌==◌,
  ==_iff, length, arith, if◌then◌else◌, inl, inr,
}
use dpapp.Common.Int.{ℤ, sub_ℕ, index}
use dpapp.Common.Outcome.{done, ◌>>=◌, Returns, returns}
use dpapp.Aco.{created, at_entry, Co, World, Alloc, put, store}
use dpapp.Aco.Pool.{
  zeroed, prepared, asked, take_from, take_block, new_block, fit, resized, create, set_up,
}
use dpapp.Aco.Pool.Free.{
  Absent, nowhere, HasPool, load-live, put-same, put-other, Linked-Absent, HasPool-store,
  Linked-First, Linked-empty,
}

-- At `j` there is a coroutine for `f` that has not begun, beside those kept for reuse.
pub record Made (w : World) (f : ℕ) (rs : List ℕ) (j : ℕ) : Type 0 where
  pub co : Co
  pub live : w.heap j ≡ some co
  pub starts : co.func ≡ some f
  pub ready : co.status ≡ created
  pub place : co.ctx ≡ at_entry
  pub no_link : co.link ≡ none
  pub not_delater : co.delater ≡ false
  pub pool : HasPool w rs
  pub out : Absent j rs

stays-Made :
    {w : World} (f : ℕ) {rs : List ℕ} {i : ℕ} (co : Co)
    → HasPool w rs
    → Absent i rs
    → Made (store w i (prepared f co)) f rs i
stays-Made {w} f {rs} {i} co pool out = record {
  co = prepared f co;
  live = put-same w.heap i _;
  starts = refl;
  ready = refl;
  place = refl;
  no_link = refl;
  not_delater = refl;
  pool = HasPool-store _ pool out;
  out = out;
}

resized-Made :
    (env : Alloc) {w : World} (f : ℕ) {rs : List ℕ} {i : ℕ} (co : Co) (n : ℕ)
    → HasPool w rs
    → Absent i rs
    → (o : Option ℕ) → env.realloc w.heap i n ≡ o
    → let out = resized w i (prepared f co) n o in Made out.1 f rs out.0
resized-Made env f co n pool out none e = stays-Made f co pool out
resized-Made env {w} f {rs} {i} co n pool out (some j) e =
    let out_j : Absent j rs = elim (env.realloc_fresh e) [
      | inl same ↦ rw same out
      | inr free ↦ Linked-Absent free pool.linked
    ] in
    record {
      co = record (prepared f co) { size = n };
      live = put-same (put w.heap i none) j _;
      starts = refl;
      ready = refl;
      place = refl;
      no_link = refl;
      not_delater = refl;
      pool = HasPool-store _ (HasPool-store none pool out) out_j;
      out = out_j;
    }

fit-Made :
    (env : Alloc) {w : World} (f : ℕ) {rs : List ℕ} {i : ℕ} (co : Co) (n : ℕ)
    → HasPool w rs
    → Absent i rs
    → let out = fit env w i (prepared f co) n in Made out.1 f rs out.0
unfolding fit
fit-Made env {w} f {rs} {i} co n pool out = choose (co.size == n)
  where
    choose :
        (b : Bool)
        → let o =
            if b
            then (i, store w i (prepared f co))
            else resized w i (prepared f co) n (env.realloc w.heap i n) in
          Made o.1 f rs o.0
    choose true = stays-Made f co pool out
    choose false = resized-Made env f co n pool out (env.realloc w.heap i n) refl

-- The blocks that `fit` changes: the one it is given and the one it returns.
record Local (w : World) (i : ℕ) (out : ℕ × World) : Type 0 where
  pub others : (k : ℕ) → k ≢ i → k ≢ out.0 → out.1.heap k ≡ w.heap k
  pub origin : (out.0 ≡ i) ⊎ (w.heap out.0 ≡ none)

fit-Local : (env : Alloc) (w : World) (i : ℕ) (co : Co) (n : ℕ) → Local w i (fit env w i co n)
unfolding fit
fit-Local env w i co n = choose (co.size == n)
  where
    move : (o : Option ℕ) → env.realloc w.heap i n ≡ o → Local w i (resized w i co n o)
    move none e = record { others = λ k ne _. put-other w.heap _ ne; origin = inl refl }
    move (some j) e = record {
      others = λ k ne ne'. put-other (put w.heap i none) _ ne' ∙ put-other w.heap none ne;
      origin = env.realloc_fresh e;
    }

    choose :
        (b : Bool)
        → Local w i (if b then (i, store w i co) else resized w i co n (env.realloc w.heap i n))
    choose true = record { others = λ k ne _. put-other w.heap _ ne; origin = inl refl }
    choose false = move (env.realloc w.heap i n) refl

-- The outcomes of `dpaco_create` for `f` and a stack of `n` bytes, by what is kept for reuse.
pub data Creation (env : Alloc) (w : World) (f n : ℕ) : List ℕ → Option ℕ × World → Type 0 where
  failed : env.calloc w.heap n ≡ none → Creation env w f n [] (none, w)
  fresh :
      {j : ℕ} {w' : World}
      → env.calloc w.heap n ≡ some j
      → Made w' f [] j
      → ((k : ℕ) → k ≢ j → w'.heap k ≡ w.heap k)
      → Creation env w f n [] (some j, w')
  reused :
      {i j : ℕ} {rs : List ℕ} {w' : World}
      → Made w' f rs j
      → (j ≡ i) ⊎ (w.heap j ≡ none)
      → ((k : ℕ) → k ≢ i → k ≢ j → w'.heap k ≡ w.heap k)
      → Creation env w f n (i ∷ rs) (some j, w')

-- `fit` for a block of the size asked for.
fit-same :
    (env : Alloc) (w : World) (i : ℕ) (co : Co) (n : ℕ)
    → co.size ≡ n
    → fit env w i co n ≡ (i, store w i co)
unfolding fit
fit-same env w i co n same = rw ((==_iff co.size n).1 same) refl

new-Creation :
    (env : Alloc) {w : World} (f n : ℕ)
    → HasPool w []
    → (o : Option ℕ) → env.calloc w.heap n ≡ o
    → let out = new_block w n o in Returns (Creation env w f n []) (set_up env out.1 f n out.0)
new-Creation env f n pool none e = returns (failed e)
new-Creation env {w} f n pool (some j) e =
    let fields = zeroed n in
    let w' = store w j fields in
    rw (load-live w' j {co = fields} (put-same w.heap j (some fields))) (
      rw (fit-same env w' j (prepared f fields) n refl) (
        returns (
          fresh e (stays-Made f fields (HasPool-store _ pool nowhere) nowhere)
            λ k ne. put-other w'.heap _ ne ∙ put-other w.heap _ ne)))

one_less : (n m : ℕ) → suc n ≡ m → index (sub_ℕ m 1) ≡ done n
one_less n m e = ground (arith, e)

reused-Creation :
    (env : Alloc) {w : World} (f n : ℕ) {i : ℕ} {rs : List ℕ}
    → HasPool w (i ∷ rs)
    → Returns
        (Creation env w f n (i ∷ rs))
        (take_from env w n (some i) >>= λ out. set_up env out.1 f n out.0)
reused-Creation env {w} f n {i} {rs} pool =
    let first = Linked-First pool.linked in
    let w' = record w { recycle = first.co.link; recycle_count = length rs } in
    let pool' : HasPool w' rs = record {
      linked = first.rest;
      counted = refl;
      bounded = omega (arith, pool.counted, pool.bounded);
    } in
    let near = fit-Local env w' i (prepared f first.co) n in
    rw (load-live w i first.live) (
      rw (one_less (length rs) w.recycle_count pool.counted) (
        rw (load-live w' i first.live)
          (returns (reused (fit-Made env f first.co n pool' first.out) near.origin near.others))))

-- Dpaco_create on a sound list for reuse: with an empty list it fails exactly where calloc does,
-- changing nothing, or returns the new block; with a block in the list it never fails and takes
-- the first one, possibly moved by realloc to a block that was not live. The coroutine made has
-- the function, the state created and no links, the rest of the list stays sound and does not hold
-- it, and no other block changes.
pub create-Creation :
    (env : Alloc) {w : World} (rs : List ℕ) (f : ℕ) (size : ℤ)
    → HasPool w rs
    → Returns (Creation env w f (asked w size) rs) (create env w (some f) size)
unfolding create take_block
create-Creation env {w} [] f size pool =
    rw (ap (take_from env w (asked w size)) (Linked-empty pool.linked))
      (new-Creation env f (asked w size) pool (env.calloc w.heap (asked w size)) refl)
create-Creation env {w} (i ∷ rs) f size pool =
    rw (ap (take_from env w (asked w size)) (Linked-First pool.linked).points)
      (reused-Creation env f (asked w size) pool)
