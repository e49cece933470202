-- ===== src/Cwc/Await.antt =====
-- dpcwc.c: coroutines that wait for elements of the event loop.
pub mod Delivers
pub mod Loop
pub mod Examples
use dpapp.Common.{
  ℕ, ◌+◌, ◌-◌, ◌%◌, ◌^◌, Bool, true, false, ◌&&◌, Option, none, some, if◌then◌else◌, ltb,
}
use dpapp.Common.Int.{ℤ, pos, negsuc}
use dpapp.Common.Outcome.{Outcome, done, ◌>>=◌}
use dpapp.Aco.{Status, created, running, suspend, dead, Alloc, null}
use dpapp.Aco.Switch.{resume, yield, wrap, status_of}
use dpapp.Evp.Element.{Ele, Kind, efd, usd, tmr, load, await, end}

-- A thread: its event loop, its coroutines, and `data[0]` of the operation of an element: a function
-- or NULL.
pub record Thread : Type 0 where
  pub evp : dpapp.Evp.Element.World
  pub aco : dpapp.Aco.World
  pub funcs : ℕ → Option ℕ

-- A `dpret_t` as the `a32.s32` of a `dpv64_t`, and back.
abbrev pub of_ret : ℤ → ℕ
of_ret (pos n) = n % 2 ^ 32
of_ret (negsuc n) = (2 ^ 32 - 1 - n % 2 ^ 32)

abbrev pub to_ret : ℕ → ℤ
to_ret v = if ltb (v % 2 ^ 32) (2 ^ 31) then pos (v % 2 ^ 32) else negsuc (2 ^ 32 - 1 - v % 2 ^ 32)

-- How a call goes on: it returns at once, or the control goes to another coroutine, whose call returns
-- the value.
pub data Control : Type 0 where
  returned : ℤ → Control
  switched : ℕ → Control

-- `dpcwc_await` to where the coroutine waits.
unfoldable pub await_ele : Thread → ℕ → ℕ → Outcome (Control × Thread)
await_ele t a msg = do
  (waits, evp) ← await t.aco.cocurr t.evp a
  if waits
      then (do (v, aco) ← yield t.aco msg; done (switched v, record t { evp = evp; aco = aco }))
      else (do e ← load evp a; done (returned e.ret, t))

abbrev pub is_suspend : Status → Bool
is_suspend created = false
is_suspend running = false
is_suspend suspend = true
is_suspend dead = false

abbrev pub is_tmr : Kind → Bool
is_tmr efd = false
is_tmr usd = false
is_tmr tmr = true

abbrev pub resumed : Thread → ℕ → ℤ → Outcome (Control × Thread)
resumed t c r = do
  (v, aco) ← resume t.aco (some c) (of_ret r)
  done (switched v, record t { aco = aco })

-- The coroutine that waits for an element is resumed with the result.
unfoldable pub wake_waiter : Thread → Option ℕ → ℤ → Outcome (Control × Thread)
wake_waiter t none r = done (returned r, t)
wake_waiter t (some c) r = do
  s ← status_of t.aco c
  if is_suspend s then resumed t c r else done (returned r, t)

-- Whether it is a function.
abbrev pub has_func : Option ℕ → Bool
has_func none = false
has_func (some f) = true

-- The part of `_dpcwc_thread_main_step` behind `dpevp_pop` for an element that is no cross-thread call.
-- `run_tmr` is the coroutine function `_dpcwc_run_tmr`.
unfoldable pub main_step : Alloc → ℕ → Thread → ℕ → Outcome (Control × Thread)
main_step env run_tmr t a = do
  e ← load t.evp a
  if is_tmr e.kind && has_func (t.funcs a)
      then (do
        (v, aco) ← wrap env t.aco (some run_tmr) a (pos 0)
        done (switched v, record t { aco = aco }))
      else wake_waiter t e.cop e.ret

abbrev pub resumed_if : Thread → Option ℕ → ℤ → Outcome (Control × Thread)
resumed_if t none r = done (returned (pos 0), t)
resumed_if t (some c) r = resumed t c r

-- `dpcwc_cease`.
unfoldable pub cease : Thread → ℕ → ℤ → Outcome (Control × Thread)
cease t a r = do e ← load t.evp a; evp ← end r t.evp a; resumed_if (record t { evp = evp }) e.cop r
