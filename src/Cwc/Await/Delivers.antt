-- ===== src/Cwc/Await/Delivers.antt =====
-- A coroutine that waits for an element gets the result of its operation.
use dpapp.Common.{
  List, ℕ, ◌≡◌, ◌≢◌, refl, sym, ap, ◌∙◌, true, false, ◌&&◌, ◌||◌, Option, some, [], ◌==◌,
  if◌then◌else◌, arith,
}
use mathlib.Core.Path.{subst}
use dpapp.Common.Int.{ℤ, pos, negsuc, fits_int}
use dpapp.Common.Outcome.{done, Returns, returns, Returns-bind, Returns-mono, Returns-at}
use dpapp.Aco.{Status, running, suspend, in_resume, in_yield, Co, Alloc, put, store}
use dpapp.Aco.Pool.Free.{put-same, put-other}
use dpapp.Aco.Pool.Free.{load-live}
use dpapp.Aco.Switch.{yield, resume, status_of, is_ready}
use dpapp.Aco.Switch.Returns.{resume-yield}
use dpapp.Aco.Switch.Transfer.{Current, left, yield-left, land-resumed}
use dpapp.Evp.Element.{World, Ele, Op, end, ended, is_doing, is_efd, pop_ready}
use dpapp.Cwc.Await.Loop.{Stands, await-Stands, end-Stands, pop-Stands}
use dpapp.Cwc.Await.{
  Thread, Control, switched, of_ret, to_ret, is_tmr, has_func, await_ele, wake_waiter, main_step,
}

-- A result of 32 bits is read back.
to_ret-of_ret : (r : ℤ) → fits_int r ≡ true → to_ret (of_ret r) ≡ r
to_ret-of_ret (pos n) h = ground (arith, h)
to_ret-of_ret (negsuc n) h = ground (arith, h)

-- The loop `m` waits in dpaco_resume for the coroutine `i`, which runs.
pub record Serves (w : dpapp.Aco.World) (m i : ℕ) (cu co : Co) : Type 0 where
  pub current : Current w i co
  pub runs : co.status ≡ running
  pub linked : co.link ≡ some m
  pub live : w.heap m ≡ some cu
  pub waits : cu.ctx ≡ in_resume i
  pub apart : m ≢ i

module _ {w : dpapp.Aco.World} {m i : ℕ} {cu co : Co} (serves : Serves w m i cu co) where
  pub yield-Returns :
      (msg : ℕ) → Returns (λ out. (out.0 ≡ msg) × (out.1 ≡ left w i co m cu msg)) (yield w msg)
  yield-Returns msg =
      Returns-at
        (yield-left msg serves.current serves.linked serves.live serves.apart
          ∙ ap (dpapp.Aco.Switch.land (left w i co m cu msg)) serves.waits
          ∙ land-resumed w co cu msg serves.apart
              (ap (λ (s : Status). dpapp.Aco.Switch.is_dead s && co.delater) serves.runs))
        (refl, refl)

  -- What stands at `i` and `m` after the coroutine has yielded.
  abbrev yielder : Co
  yielder = record co {
    status = if dpapp.Aco.Switch.is_dead co.status then dpapp.Aco.dead else suspend;
    ctx = in_yield;
  }

  yielder-live : (msg : ℕ) → (left w i co m cu msg).heap i ≡ some yielder
  yielder-live msg =
      put-other (put w.heap i (some yielder)) _ (λ e. serves.apart (sym e))
      ∙ put-same w.heap i (some yielder)

  yielder-suspend : yielder.status ≡ suspend
  yielder-suspend =
      ap (λ (s : Status). if dpapp.Aco.Switch.is_dead s then dpapp.Aco.dead else suspend)
        serves.runs

  pub main-Current :
      (msg : ℕ) → Current (left w i co m cu msg) m (record cu { status = running; msg = msg })
  main-Current msg = record { points = refl; live = put-same (put w.heap i (some yielder)) m _ }

  yielder-status : (msg : ℕ) → status_of (left w i co m cu msg) i ≡ done suspend
  yielder-status msg =
      rw (load-live (left w i co m cu msg) i (yielder-live msg)) (ap done yielder-suspend)

  wakes-Returns :
      (evp : World) (funcs : ℕ → Option ℕ) (msg : ℕ) (r : ℤ)
      → Returns
          (λ out.
            (out.0 ≡ switched (of_ret r))
            × (out.1.evp ≡ evp)
            × Current out.1.aco i
                (record co { link = some m; msg = of_ret r; status = running; ctx = in_yield }))
          (wake_waiter (record { evp = evp; aco = left w i co m cu msg; funcs = funcs }) (some i) r)
  unfolding wake_waiter
  wakes-Returns evp funcs msg r =
      let t = left w i co m cu msg in
      rw (yielder-status msg) (
        Returns-bind
          (resume-yield t m (record cu { status = running; msg = msg }) i yielder (of_ret r) 0
            (main-Current msg) (yielder-live msg) (λ e. serves.apart (sym e))
            (ap is_ready yielder-suspend) refl)
          λ out p. returns (ap switched (p.0), refl, p.1))

-- What is asked of the element: it is under way, not detached, and has a reference; its operation is
-- one of input and output; and it is no timer with a function.
abbrev pub MayWait : (ℕ → Option ℕ) → ℕ → Ele → Type 0
MayWait funcs a e =
    (is_doing e.asc ≡ true)
    × (e.detach ≡ false)
    × (e.refc == 0 ≡ false)
    × (is_efd e.kind || e.io ≡ true)
    × (is_tmr e.kind && has_func (funcs a) ≡ false)

-- The coroutine `i` runs again, and its call of dpcwc_await returns `r`.
abbrev pub Got : ℕ → Co → ℤ → Control × Thread → Type 0
Got i co r (control, t) = (v : ℕ) × (control ≡ switched v) × (to_ret v ≡ r) × Current t.aco i co

-- The loop `m` runs, with the answer `msg` of its dpaco_resume; and if then the operation of `a` is
-- ended with `r`, the loop pops `a`, and its next step makes `i` run with `r`.
abbrev pub Wakes : {K : Type 0} → (ℕ → Op K) → Alloc → ℕ → ℕ → ℕ → ℤ → Control × Thread → Type 0
Wakes ops env run_tmr a i r (control, t) =
    Returns
      (λ ended.
        Returns
          (λ p.
            (p.0 ≡ some a)
            × Returns (λ out. (co : Co) × (co.status ≡ running) × Got i co r out)
                (main_step env run_tmr (record t { evp = p.1 }) a))
          (pop_ready ops ended))
      (end r t.evp a)

-- The running coroutine gives the control to the loop, and the element names it.
pub await_ele-Returns :
    (t : Thread) (m i : ℕ) (cu co : Co)
    → Serves t.aco m i cu co
    → (a : ℕ) (e : Ele) (xs : List ℕ) → Stands t.evp a e xs
    → is_doing e.asc ≡ true
    → e.detach ≡ false
    → (msg : ℕ)
    → Returns
        (λ out.
          (out.0 ≡ switched msg)
          × (out.1 ≡ record { evp = out.1.evp; aco = left t.aco i co m cu msg; funcs = t.funcs })
          × Stands out.1.evp a (record e { cop = some i }) xs
          × (out.1.evp.timers ≡ t.evp.timers))
        (await_ele t a msg)
unfolding await_ele
await_ele-Returns t m i cu co serves a e xs stands doing attached msg =
    (Returns-bind (await-Stands t.evp a e t.aco.cocurr xs stands doing attached) λ p q.
      let stays : Stands (p.1) a (record e { cop = some i }) xs =
        subst (λ (c : Option ℕ). Stands (p.1) a (record e { cop = c }) xs) serves.current.points
          (q.1) in
      rw (q.0) (
        Returns-bind (yield-Returns serves msg) λ y z. returns (
          ap switched (z.0),
          ap (λ (x : dpapp.Aco.World). record { evp = p.1; aco = x; funcs = t.funcs }) (z.1),
          stays,
          q.2,
        )))

module _ {K : Type 0} (ops : ℕ → Op K) (env : Alloc) (run_tmr : ℕ) where
  pub step-Got :
      {w : dpapp.Aco.World} {m i : ℕ} {cu co : Co}
      → Serves w m i cu co
      → (evp : World) (funcs : ℕ → Option ℕ) (a : ℕ) (e : Ele) (msg : ℕ) (r : ℤ)
      → evp.ele a ≡ some e
      → is_tmr e.kind && has_func (funcs a) ≡ false
      → e.cop ≡ some i
      → e.ret ≡ r
      → fits_int r ≡ true
      → Returns
          (λ out. (out.1.evp ≡ evp) × (co : Co) × (co.status ≡ running) × Got i co r out)
          (main_step env run_tmr
            (record { evp = evp; aco = left w i co m cu msg; funcs = funcs })
            a)
  unfolding main_step
  step-Got {w} {m} {i} {cu} {co} serves evp funcs a e msg r live kind cop ret fits =
      rw (live, kind, cop, ret)
        (Returns-mono (wakes-Returns serves evp funcs msg r)
          λ out p. (p.1, _, refl, (of_ret r, p.0, to_ret-of_ret r fits, p.2)))

  module _ {w : dpapp.Aco.World} {m i : ℕ} {cu co : Co} (serves : Serves w m i cu co) (a : ℕ)
      (e : Ele) (funcs : ℕ → Option ℕ) (may : MayWait funcs a e) (r : ℤ)
      (fits : fits_int r ≡ true) where
    ended-Wakes :
        (evp : World) (msg : ℕ)
        → Stands evp a (record e { cop = some i }) []
        → Wakes ops env run_tmr a i r
            (switched msg, record { evp = evp; aco = left w i co m cu msg; funcs = funcs })
    ended-Wakes evp msg stands =
        let (doing, attached, held, io, kind) = may in
        let e1 = record e { cop = some i } in
        Returns-mono (end-Stands evp a e1 r stands doing) λ v s.
          Returns-mono (pop-Stands v a (ended r e1) ops [] s io held attached) λ p q. (
            q.0,
            Returns-mono (step-Got serves (p.1) funcs a _ msg r (q.1.0) kind refl refl fits)
                λ out g. (g.1, g.2, g.3),
          )

  -- When the running coroutine awaits an operation of input and output that is under way, not
  -- detached and held, while nothing is ready: dpaco_yield gives the control to the loop that has
  -- resumed it; and when the operation is then ended with a result, the loop pops just this
  -- element, and its step makes the coroutine run again, whose dpcwc_await returns this result.
  pub await_ele-Wakes :
      (t : Thread) (m i : ℕ) (cu co : Co)
      → Serves t.aco m i cu co
      → (a : ℕ) (e : Ele) → Stands t.evp a e []
      → MayWait t.funcs a e
      → (r : ℤ) → fits_int r ≡ true
      → (msg : ℕ)
      → Returns
          (λ out.
            (out.0 ≡ switched msg)
            × Current out.1.aco m (record cu { status = running; msg = msg })
            × Wakes ops env run_tmr a i r out)
          (await_ele t a msg)
  await_ele-Wakes t m i cu co serves a e stands may r fits msg =
      Returns-mono (await_ele-Returns t m i cu co serves a e [] stands (may.0) (may.1) msg) λ out p.
        (
          p.0,
          rw (ap (λ (x : Thread). x.aco) (p.1)) (main-Current serves msg),
          subst (λ (x : Thread). Wakes ops env run_tmr a i r (switched msg, x)) (sym (p.1))
              (ended-Wakes serves a e t.funcs may r fits (out.1.evp) msg (p.2)),
        )
