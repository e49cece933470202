-- ===== src/Aco/Switch/Misuse.antt =====
-- Calls that Lua refuses and dpaco.c does not.
use dpapp.Common.{ℕ, ◌≡◌, ◌≢◌, refl, sym, ap, ◌∙◌, some}
use dpapp.Common.Outcome.{Returns, returns}
use dpapp.Aco.{running, suspend, in_resume, Co, World, pointer, store}
use dpapp.Aco.Pool.Free.{load-live, put-same, put-other}
use dpapp.Aco.Switch.{is_ready, land, reap, switch_to, resume}
use dpapp.Aco.Switch.Transfer.{Current, entered, message-Current, swap_in-Current}

-- After `c` has resumed `p`, which waited for `c` itself.
pub record Looped (c p v : ℕ) (out : ℕ × World) : Type 0 where
  pub value : out.0 ≡ v
  pub co : Co
  pub current : Current out.1 p co
  pub down : co.link ≡ some c
  pub waiting : Co
  pub live : out.1.heap c ≡ some waiting
  pub up : waiting.link ≡ some p

-- Dpaco_resume of the coroutine that has resumed the caller and waits for it is not refused: the
-- caller's resumer runs on with the value as if it had been yielded, and afterwards the links of
-- the two lead to each other.
pub resume-Looped :
    {w : World} {c p : ℕ} (cu pr : Co) (v : ℕ)
    → Current w c cu
    → cu.link ≡ some p
    → w.heap p ≡ some pr
    → pr.status ≡ suspend
    → pr.ctx ≡ in_resume c
    → p ≢ c
    → Returns (Looped c p v) (resume w (some p) v)
unfolding resume switch_to land reap
resume-Looped {w} {c} {p} cu pr v now up live waits ctx ne =
    let pr' = record pr { link = some c; msg = v; status = running } in
    let cu' = record cu { status = suspend; ctx = in_resume p } in
    let w1 = store w p pr' in
    let w2 = entered (in_resume p) w c cu p pr v in
    let h1 : w1.heap c ≡ some cu = put-other w.heap (some pr') (λ e. ne (sym e)) ∙ now.live in
    let now' : Current w2 p pr' = record {
      points = refl;
      live = put-other w1.heap (some cu') ne ∙ put-same w.heap p (some pr');
    } in
    let h2 : w2.heap c ≡ some cu' = put-same w1.heap c (some cu') in
    rw (load-live w p live) (
      rw (ap is_ready waits) (
        rw (ap pointer now.points) (
          rw (load-live w1 c h1) (
            rw (swap_in-Current now') (
              rw (ap (land w2) ctx) (
                rw (load-live w2 c h2) (
                  rw (message-Current now') (
                    returns record {
                      value = refl;
                      co = pr';
                      current = now';
                      down = refl;
                      waiting = cu';
                      live = h2;
                      up = up;
                    }))))))))
