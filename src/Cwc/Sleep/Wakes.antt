-- ===== src/Cwc/Sleep/Wakes.antt =====
-- A coroutine that sleeps is woken when its timer has expired, and its timer is freed.
use dpapp.Common.{
  ℕ, ◌≡◌, refl, sym, ap, ◌∙◌, true, false, not, Option, none, some, arith, Bool-cases, inl, inr,
}
use mathlib.Core.Path.{subst}
use dpapp.Common.Int.{ℤ}
use dpapp.Common.Outcome.{Returns, returns, Returns-bind, Returns-mono}
use dpapp.Aio.{wait}
use dpapp.Aco.{running, Co, Alloc}
use dpapp.Aco.Switch.Transfer.{Current, left}
use dpapp.Evp.Ready.{inprogress}
use dpapp.Evp.Element.{
  World, Ele, Op, tmr, time, has, put, time_if, create, add, start, finish_add, del, pop_timer,
}
use dpapp.Evp.Element.Sound.{self, put_self}
use dpapp.Cwc.Await.{Thread, Control, switched, main_step, to_ret}
use dpapp.Cwc.Await.Loop.{pop_timer-Returns}
use dpapp.Cwc.Await.Delivers.{Serves, step-Got, main-Current, await_ele-Returns}
use dpapp.Cwc.Sleep.{timeout, no_func, sleep, awake}

-- The timer of a sleep, under way.
abbrev sleeping : ℕ → Option ℕ → Ele
sleeping i cop = record {
  kind = tmr;
  io = false;
  able = 0;
  want = 0;
  refc = 1;
  asc = some i;
  after = true;
  detach = false;
  ret = inprogress;
  cop = cop;
}

timed-ele : (w : World) (a : ℕ) → (time_if true w a).ele ≡ w.ele
timed-ele w a = elim (Bool-cases (not (has a w.timers))) [ inl h ↦ rw h refl | inr h ↦ rw h refl ]

timed-has : (w : World) (a : ℕ) → has a ((time_if true w a).timers) ≡ true
timed-has w a = elim (Bool-cases (has a w.timers)) [
  | inl h ↦ rw h h
  | inr h ↦ rw (h, self a) (ground arith)
]

add-Returns :
    {K : Type 0} (i : ℕ) (k : K) (w : World) (a : ℕ)
    → Returns
        (λ p. (p.0 ≡ wait) × ((p.1).ele a ≡ some (sleeping i none)) × (has a ((p.1).timers) ≡ true))
        (add timeout i k (create tmr false w a) a)
unfolding add create start finish_add
add-Returns i k w a = rw (self a) (
    returns (
      refl,
      ap (λ (f : ℕ → Option Ele). f a)
            (timed-ele (put (create tmr false w a) a (some (sleeping i none))) a)
          ∙ put_self (create tmr false w a) a _,
      timed-has (put (create tmr false w a) a (some (sleeping i none))) a,
    ))

awake-frees :
    (t : Thread) (a i : ℕ) (v : ℕ) (cop : Option ℕ) (r : ℤ)
    → t.evp.ele a ≡ some (record (sleeping i cop) { ret = time; want = 0; asc = none })
    → to_ret v ≡ r
    → Returns (λ out. (out.0 ≡ r) × (out.1.evp.ele a ≡ none)) (awake t a v)
unfolding awake del
awake-frees t a i v cop r live e = rw live (returns (e, put_self t.evp a none))

-- When the timer of `a` expires, the loop pops `a`, its step makes `i` run again, and the sleep ends
-- with DPE_TIME and frees the timer.
abbrev pub Woken : {K : Type 0} → (ℕ → Op K) → Alloc → ℕ → ℕ → ℕ → Control × Thread → Type 0
Woken ops env run_tmr a i (control, t) =
    Returns
      (λ p.
        (p.0 ≡ some a)
        × Returns
            (λ out.
              (v : ℕ) × (out.0 ≡ switched v)
              × ((co : Co) × Current out.1.aco i co)
              × Returns (λ end. (end.0 ≡ time) × (end.1.evp.ele a ≡ none)) (awake out.1 a v))
            (main_step env run_tmr (record t { evp = p.1 }) a))
      (pop_timer ops t.evp a)

module _ {K : Type 0} (ops : ℕ → Op K) (env : Alloc) (run_tmr : ℕ) where
  expires-Woken :
      {w : dpapp.Aco.World} {m i : ℕ} {cu co : Co}
      → Serves w m i cu co
      → (evp : World) (funcs : ℕ → Option ℕ) (a n : ℕ) (msg : ℕ)
      → evp.ele a ≡ some (sleeping n (some i))
      → (ops n).ending ≡ none
      → funcs a ≡ none
      → Woken ops env run_tmr a i
          (switched msg, record { evp = evp; aco = left w i co m cu msg; funcs = funcs })
  expires-Woken {w} {m} {i} {cu} {co} serves evp funcs a n msg live quiet func =
      Returns-mono (pop_timer-Returns evp a (sleeping n (some i)) ops live refl quiet refl refl)
        λ p q. (
          q.0,
          Returns-mono
              (step-Got ops env run_tmr serves (p.1) funcs a _ msg time (q.1) (rw func refl) refl
                refl refl)
              λ out g.
                let (v, e, back, now) = g.3 in
                (
                  v,
                  e,
                  (g.1, now),
                  awake-frees (out.1) a n v (some i) time (ap (λ (x : World). x.ele a) (g.0) ∙ q.1)
                      back,
                ),
        )

  -- When the running coroutine calls dpcwc_sleep with a time that is not negative and gets memory
  -- for the timer, and the operation with the number of dptmr_timeout has no post, as in the code:
  -- dpaco_yield gives the control to the loop that has resumed it, and the timer runs; when it
  -- expires, the loop pops it, its step makes the coroutine run again, the sleep answers DPE_TIME,
  -- and the timer is freed.
  pub sleep-Woken :
      (t : Thread) (m i : ℕ) (cu co : Co)
      → Serves t.aco m i cu co
      → (n : ℕ) (k : K) (a : ℕ) → (ops n).ending ≡ none
      → (msg : ℕ)
      → Returns
          (λ out.
            (out.0 ≡ switched msg)
            × Current out.1.aco m (record cu { status = running; msg = msg })
            × (has a out.1.evp.timers ≡ true)
            × Woken ops env run_tmr a i out)
          (sleep n k t (some a) msg)
  unfolding sleep
  sleep-Woken t m i cu co serves n k a quiet msg = Returns-bind (add-Returns n k t.evp a) λ p q.
      rw (q.0) (
        Returns-mono
          (await_ele-Returns (record t { evp = p.1; funcs = no_func a t.funcs }) m i cu co serves a
            (sleeping n none) ((p.1).ready) (q.1, refl) refl refl msg)
          λ out r. (
            r.0,
            rw (ap (λ (x : Thread). x.aco) (r.1)) (main-Current serves msg),
            ap (has a) (r.3) ∙ q.2,
            subst (λ (x : Thread). Woken ops env run_tmr a i (switched msg, x)) (sym (r.1))
                (expires-Woken serves (out.1.evp) (no_func a t.funcs) a n msg (r.2.0) quiet
                  (rw (self a) refl)),
          ))
