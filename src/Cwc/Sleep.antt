-- ===== src/Cwc/Sleep.antt =====
-- dpcwc.c: a coroutine that sleeps, on the timer operation of dpasc.c.
pub mod Wakes
mod Examples
use dpapp.Common.{ℕ, Bool, true, false, not, Option, none, some, if◌then◌else◌, ◌==◌}
use dpapp.Common.Int.{ℤ, pos}
use dpapp.Common.Outcome.{Outcome, done, ◌>>=◌}
use dpapp.Aio.{continue, nomem}
use dpapp.Evp.Ready.{Out, Post, is_wait}
use dpapp.Evp.Element.{World, Op, Prep, tmr, create, add, del}
use dpapp.Cwc.Await.{Thread, Control, returned, is_tmr, await_ele, to_ret}

-- `dptmr_timeout`, with `_dptmr_timeout_prep` for a time that is not negative, where the element gets
-- room for it. Its writes to `data` are in `sleep`.
abbrev pub timeout : {K : Type 0} → Op K
timeout = record {
  accepts = is_tmr;
  allow_doing = true;
  prep =
      λ k. record { ret = continue; out = record { want = 0; inva = 0; able = 0 }; after = true };
  post = λ out k. record { ret = pos 0; out = out; system = k };
  fuel = λ k. 2;
  ending = none;
}

-- The part of `dpcwc_sleep` behind `dpevp_add`, to where the coroutine waits.
abbrev pub sleep_for : ℤ → World → Thread → ℕ → ℕ → Outcome (Control × Thread)
sleep_for ret evp t a msg =
    if is_wait ret
    then await_ele (record t { evp = evp }) a msg
    else (do evp ← del evp a; done (returned ret, record t { evp = evp }))

-- `data[0] = DPV64_NULL` in the data of `a`.
abbrev pub no_func : ℕ → (ℕ → Option ℕ) → ℕ → Option ℕ
no_func a funcs b = if b == a then none else funcs b

-- `dpcwc_sleep` with a timer at the address that `calloc` gives. `i` is the number of `dptmr_timeout`.
unfoldable pub sleep : {K : Type 0} → ℕ → K → Thread → Option ℕ → ℕ → Outcome (Control × Thread)
sleep i k t none msg = done (returned nomem, t)
sleep i k t (some a) msg = do
  (ret, evp) ← add timeout i k (create tmr false t.evp a) a
  sleep_for ret evp (record t { funcs = no_func a t.funcs }) a msg

-- What is left of `dpcwc_sleep` when the coroutine is resumed with `v`.
unfoldable pub awake : Thread → ℕ → ℕ → Outcome (ℤ × Thread)
awake t a v = do evp ← del t.evp a; done (to_ret v, record t { evp = evp })
