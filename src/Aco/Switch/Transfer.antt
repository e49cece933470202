-- ===== src/Aco/Switch/Transfer.antt =====
-- A resumed coroutine gives the control back to the one that resumed it.
use dpapp.Common.{ℕ, ◌≡◌, ◌≢◌, refl, sym, ap, ◌∙◌, Bool, true, false, ◌&&◌, some, if◌then◌else◌}
use dpapp.Common.Outcome.{done}
use dpapp.Aco.{
  Status, created, running, suspend, dead, Place, at_entry, in_yield, in_resume, in_wrap, Co, World,
  pointer, put, store,
}
use dpapp.Aco.Pool.Free.{load-live, put-same, put-other}
use dpapp.Aco.Switch.{
  is_dead, yield_to, reap, message, land, swap_in, switch_to, switch_back, yield,
}

-- `c` is the current coroutine, in the state `cu`.
pub record Current (w : World) (c : ℕ) (cu : Co) : Type 0 where
  pub points : w.cocurr ≡ some c
  pub live : w.heap c ≡ some cu

-- It does not wait for another coroutine.
abbrev pub is_at_rest : Place → Bool
is_at_rest at_entry = true
is_at_rest in_yield = true
is_at_rest (in_resume i) = false
is_at_rest (in_wrap i) = false

-- The world in which `i` runs, resumed by `c`.
abbrev pub entered : Place → World → ℕ → Co → ℕ → Co → ℕ → World
entered place w c cu i co v = record w {
  heap =
      put (put w.heap i (some (record co { link = some c; msg = v; status = running }))) c
        (some (record cu { status = suspend; ctx = place }));
  cocurr = some i;
}

-- The world in which `c` runs again, after `i` has given the control back.
abbrev pub left : World → ℕ → Co → ℕ → Co → ℕ → World
left w i co c cu u = record w {
  heap =
      put
        (put w.heap i (
          some
            (record co { status = if is_dead co.status then dead else suspend; ctx = in_yield })))
        c (some (record cu { status = running; msg = u }));
  cocurr = some c;
}

pub message-Current : {w : World} {c : ℕ} {cu : Co} → Current w c cu → message w ≡ done cu.msg
unfolding message
message-Current {w} {c} now = rw (ap pointer now.points) (rw (load-live w c now.live) refl)

pub swap_in-Current : {w : World} {c : ℕ} {cu : Co} → Current w c cu → swap_in w ≡ land w cu.ctx
unfolding swap_in
swap_in-Current {w} {c} now = rw (ap pointer now.points) (rw (load-live w c now.live) refl)

land-at_rest :
    {w : World} {c : ℕ} {cu : Co} (p : Place)
    → is_at_rest p ≡ true
    → Current w c cu
    → land w p ≡ done (cu.msg, w)
unfolding land
land-at_rest at_entry rest now = rw (message-Current now) refl
land-at_rest in_yield rest now = rw (message-Current now) refl
land-at_rest (in_resume i) rest now = cc
land-at_rest (in_wrap i) rest now = cc

pub switch_to-entered :
    (place : Place) {w : World} {c : ℕ} {cu : Co} {i : ℕ} (co : Co) (v : ℕ)
    → Current w c cu
    → i ≢ c
    → is_at_rest co.ctx ≡ true
    → switch_to place w i co v ≡ done (v, entered place w c cu i co v)
unfolding switch_to
switch_to-entered place {w} {c} {cu} {i} co v now ne rest =
    let co' = record co { link = some c; msg = v; status = running } in
    let cu' = record cu { status = suspend; ctx = place } in
    let w1 = store w i co' in
    let h1 : w1.heap c ≡ some cu = put-other w.heap (some co') (λ e. ne (sym e)) ∙ now.live in
    let w2 = entered place w c cu i co v in
    let h2 : w2.heap i ≡ some co' =
      put-other w1.heap (some cu') ne ∙ put-same w.heap i (some co') in
    let now' : Current w2 i co' = record { points = refl; live = h2 } in
    rw (ap pointer now.points)
      (rw (load-live w1 c h1) (swap_in-Current now' ∙ land-at_rest co.ctx rest now'))

pub yield-left :
    {w : World} {i : ℕ} {co : Co} {c : ℕ} {cu : Co} (u : ℕ)
    → Current w i co
    → co.link ≡ some c
    → w.heap c ≡ some cu
    → c ≢ i
    → yield w u ≡ land (left w i co c cu u) cu.ctx
unfolding yield switch_back
yield-left {w} {i} {co} {c} {cu} u now link live ne =
    let co' = record co { status = if is_dead co.status then dead else suspend; ctx = in_yield } in
    let cu' = record cu { status = running; msg = u } in
    let w1 = store w i co' in
    let h1 : w1.heap c ≡ some cu = put-other w.heap (some co') ne ∙ live in
    let now' : Current (left w i co c cu u) c cu' = record {
      points = refl;
      live = put-same w1.heap c (some cu');
    } in
    rw (ap pointer now.points) (
      rw (load-live w i now.live)
        (rw (ap (λ p. yield_to w i co p u) link) (rw (load-live w1 c h1) (swap_in-Current now'))))

is_dead_after : (s : Status) → is_dead (if is_dead s then dead else suspend) ≡ is_dead s
is_dead_after created = refl
is_dead_after running = refl
is_dead_after suspend = refl
is_dead_after dead = refl

-- The end of the wait in `dpaco_resume` for `i`, which has given back `u` and is not to be deleted.
pub land-resumed :
    (w : World) {i : ℕ} (co : Co) {c : ℕ} (cu : Co) (u : ℕ)
    → c ≢ i
    → (is_dead co.status && co.delater) ≡ false
    → land (left w i co c cu u) (in_resume i) ≡ done (u, left w i co c cu u)
unfolding land reap
land-resumed w {i} co {c} cu u ne stays =
    let co' = record co { status = if is_dead co.status then dead else suspend; ctx = in_yield } in
    let cu' = record cu { status = running; msg = u } in
    let w1 = store w i co' in
    let w2 = left w i co c cu u in
    let h2 : w2.heap i ≡ some co' =
      put-other w1.heap (some cu') (λ e. ne (sym e)) ∙ put-same w.heap i (some co') in
    let now' : Current w2 c cu' = record { points = refl; live = put-same w1.heap c (some cu') } in
    rw (load-live w2 i h2)
      (rw (is_dead_after co.status) (rw stays (rw (message-Current now') refl)))
