-- ===== src/Aco/Switch/Returns.antt =====
-- A resumed coroutine that yields, or ends, gives the control back to the one that resumed it.
use dpapp.Common.{ℕ, ◌≡◌, ◌≢◌, refl, sym, ◌∙◌, true, false, some}
use dpapp.Common.Outcome.{done, Returns, Returns-at}
use dpapp.Aco.{Status, running, suspend, dead, in_resume, in_yield, Co, World, put, store}
use dpapp.Aco.Pool.Free.{load-live, put-same, put-other}
use dpapp.Aco.Switch.{is_ready, resume, yield, finish}
use dpapp.Aco.Switch.Transfer.{
  Current, is_at_rest, entered, switch_to-entered, yield-left, land-resumed,
}

-- After `i` was resumed by `c` and has given the control back with `u`: both coroutines, and that
-- nothing else is touched. `status` is what `i` is left in.
pub record Back (status : Status) (w : World) (c : ℕ) (cu : Co) (i : ℕ) (co : Co) (v u : ℕ)
    (w' : World) : Type 0 where
  pub resumer : Current w' c (record cu { status = running; msg = u; ctx = in_resume i })
  pub resumed :
      w'.heap i ≡ some (record co { link = some c; msg = v; status = status; ctx = in_yield })
  pub others : (k : ℕ) → k ≢ i → k ≢ c → w'.heap k ≡ w.heap k
  pub same_recycle : w'.recycle ≡ w.recycle
  pub same_count : w'.recycle_count ≡ w.recycle_count

-- The heap that `resume` leaves is changed at the two coroutines only.
entered-others :
    (w : World) (c : ℕ) (cu : Co) (i : ℕ) (co : Co) (v k : ℕ)
    → k ≢ i
    → k ≢ c
    → (entered (in_resume i) w c cu i co v).heap k ≡ w.heap k
entered-others w c cu i co v k ne ne' = put-other (put w.heap i _) _ ne' ∙ put-other w.heap _ ne

module _ (w : World) (c : ℕ) (cu : Co) (i : ℕ) (co : Co) (v u : ℕ) where
  -- `i` runs; its fields and those of the coroutine that waits for it.
  abbrev runs : Co
  runs = record co { link = some c; msg = v; status = running }

  abbrev waits : Co
  waits = record cu { status = suspend; ctx = in_resume i }

  abbrev ended : Co
  ended = record co { link = some c; msg = v; status = dead; ctx = in_yield }

  -- `i` runs, and then its function has returned.
  abbrev inside : World
  inside = entered (in_resume i) w c cu i co v

  abbrev at_end : World
  at_end = store inside i (record co { link = some c; msg = v; status = dead })

  inside-Current : i ≢ c → Current inside i runs
  inside-Current ne = record {
    points = refl;
    live = put-other (put w.heap i (some runs)) (some waits) ne ∙ put-same w.heap i (some runs);
  }

  inside-waits : inside.heap c ≡ some waits
  inside-waits = put-same (put w.heap i (some runs)) c (some waits)

  resume-inside :
      Current w c cu
      → w.heap i ≡ some co
      → i ≢ c
      → is_ready co.status ≡ true
      → is_at_rest co.ctx ≡ true
      → resume w (some i) v ≡ done (v, inside)
  unfolding resume
  resume-inside now live ne ready rest =
      rw (load-live w i live) (rw ready (switch_to-entered (in_resume i) co v now ne rest))

  yield-Back :
      i ≢ c → Returns (λ end. (end.0 ≡ u) × Back suspend w c cu i co v u end.1) (yield inside u)
  yield-Back ne =
      let ne' : c ≢ i = λ e. ne (sym e) in
      let h' = put inside.heap i (some (record runs { status = suspend; ctx = in_yield })) in
      Returns-at
        (yield-left u (inside-Current ne) refl inside-waits ne'
          ∙ land-resumed inside runs waits u ne' refl)
        (
          refl,
          record {
            resumer = record { points = refl; live = put-same h' c _ };
            resumed = put-other h' _ ne ∙ put-same inside.heap i _;
            others = λ k n n'.
                put-other h' _ n' ∙ put-other inside.heap _ n ∙ entered-others w c cu i co v k n n';
            same_recycle = refl;
            same_count = refl;
          },
        )

  -- When the current coroutine resumes another one that has not begun or has yielded, that one
  -- runs with the value given, and its next dpaco_yield makes the first one current and running
  -- again with the value yielded: the yielder is left suspended, no other block and not the list
  -- for reuse has changed, and nothing of it is undefined behaviour.
  pub resume-yield :
      Current w c cu
      → w.heap i ≡ some co
      → i ≢ c
      → is_ready co.status ≡ true
      → is_at_rest co.ctx ≡ true
      → Returns
          (λ out.
            (out.0 ≡ v)
            × Current out.1 i (record co { link = some c; msg = v; status = running })
            × Returns (λ end. (end.0 ≡ u) × Back suspend w c cu i co v u end.1) (yield out.1 u))
          (resume w (some i) v)
  resume-yield now live ne ready rest =
      Returns-at (resume-inside now live ne ready rest) (refl, inside-Current ne, yield-Back ne)

  at_end-Current : Current at_end i (record co { link = some c; msg = v; status = dead })
  at_end-Current = record { points = refl; live = put-same inside.heap i _ }

  finish-yield : i ≢ c → finish inside u ≡ yield at_end u
  unfolding finish
  finish-yield ne = rw (load-live inside i (inside-Current ne).live) refl

  finish-Back :
      i ≢ c
      → co.delater ≡ false
      → Returns (λ end. (end.0 ≡ u) × Back dead w c cu i co v u end.1) (finish inside u)
  finish-Back ne stays =
      let ne' : c ≢ i = λ e. ne (sym e) in
      let co' = record co { link = some c; msg = v; status = dead } in
      let h' = put at_end.heap i (some ended) in
      Returns-at
        (finish-yield ne
          ∙ yield-left u at_end-Current refl (put-other inside.heap _ ne' ∙ inside-waits) ne'
          ∙ land-resumed at_end co' waits u ne' stays)
        (
          refl,
          record {
            resumer = record { points = refl; live = put-same h' c _ };
            resumed = put-other h' _ ne ∙ put-same at_end.heap i _;
            others = λ k n n'.
                put-other h' _ n'
                ∙ put-other at_end.heap _ n
                ∙ put-other inside.heap _ n
                ∙ entered-others w c cu i co v k n n';
            same_recycle = refl;
            same_count = refl;
          },
        )

  -- When the current coroutine resumes another one that has not begun or has yielded and is not
  -- marked for deletion, and the function of that one returns, the first one is current and
  -- running again with the value returned, the other is left dead, and no other block and not the
  -- list for reuse has changed.
  pub resume-finish :
      Current w c cu
      → w.heap i ≡ some co
      → i ≢ c
      → is_ready co.status ≡ true
      → is_at_rest co.ctx ≡ true
      → co.delater ≡ false
      → Returns
          (λ out.
            (out.0 ≡ v)
            × Returns (λ end. (end.0 ≡ u) × Back dead w c cu i co v u end.1) (finish out.1 u))
          (resume w (some i) v)
  resume-finish now live ne ready rest stays =
      Returns-at (resume-inside now live ne ready rest) (refl, finish-Back ne stays)
