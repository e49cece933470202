-- ===== src/Cwc/Await/Examples.antt =====
-- Coroutines that wait, at concrete ones.
use dpapp.Common.{
  ℕ, zero, suc, ◌≡◌, refl, Bool, true, false, Option, none, some, [], ◌==◌, if◌then◌else◌, arith,
}
use dpapp.Common.Int.{pos}
use dpapp.Common.Outcome.{Outcome, done, ◌>>=◌, Returns}
use dpapp.Aco.{Co, Heap, Alloc, running, suspend, in_resume, at_entry, put, store}
use dpapp.Aco.Switch.{resume, yield, switch_back, swap_in, switch_to, land, message, reap}
use dpapp.Aco.Switch.Transfer.{Current}
use dpapp.Evp.Ready.{inprogress}
use dpapp.Evp.Element.{Ele, Op, efd, load, is_doing, await, end, over, over_last, pop_ready}
use dpapp.Cwc.Await.{Thread, Control, switched, await_ele, cease, main_step, wake_waiter}
use dpapp.Cwc.Await.Delivers.{Serves, Wakes, await_ele-Wakes}

abbrev pub no_alloc : Alloc
no_alloc = record {
  calloc = λ h n. none;
  realloc = λ h i n. none;
  calloc_fresh = λ e. absurd (ground (arith, e));
  realloc_fresh = λ e. absurd (ground (arith, e));
}

abbrev pub main_co : Co
main_co = record {
  ctx = in_resume 1;
  func = none;
  msg = 0;
  link = none;
  status = suspend;
  delater = false;
  size = 0;
}

abbrev pub waiter : Co
waiter = record {
  ctx = at_entry;
  func = some 3;
  msg = 0;
  link = some 0;
  status = running;
  delater = false;
  size = 100;
}

abbrev blocks : Heap
blocks zero = some main_co
blocks (suc zero) = some waiter
blocks (suc (suc a)) = none

abbrev reading : Ele
reading = record {
  kind = efd;
  io = true;
  able = 0;
  want = 1;
  refc = 1;
  asc = some 0;
  after = false;
  detach = false;
  ret = inprogress;
  cop = none;
}

-- Two descriptors with an operation under way, and a coroutine that the loop has resumed.
abbrev pub thread : Thread
thread = record {
  evp = record {
    ele = λ a. if a == 5 then some reading else if a == 6 then some reading else none;
    ready = [];
    timers = [];
  };
  aco = record {
    heap = blocks;
    comain = some 0;
    cocurr = some 1;
    recycle = none;
    recycle_count = 0;
    stack_size = 100;
  };
  funcs = λ a. none;
}

abbrev ops : ℕ → Op ℕ
ops i = record {
  accepts = λ kind. true;
  allow_doing = false;
  prep = λ k. record { ret = pos 0; out = record { want = 1; inva = 0; able = 0 }; after = false };
  post = λ out k. record { ret = pos 0; out = out; system = k };
  fuel = λ k. 2;
  ending = none;
}

pub thread-Serves : Serves thread.aco 0 1 main_co waiter
thread-Serves = record {
  current = record { points = refl; live = refl };
  runs = refl;
  linked = refl;
  live = refl;
  waits = refl;
  apart = λ e. absurd (omega (arith, e));
}

await_ele-Wakes_example :
    Returns
      (λ out.
        (out.0 ≡ switched 0)
        × Current out.1.aco 0 (record main_co { status = running; msg = 0 })
        × Wakes ops no_alloc 9 5 1 (pos 7) out)
      (await_ele thread 5 0)
await_ele-Wakes_example =
    await_ele-Wakes ops no_alloc 9 thread 0 1 main_co waiter thread-Serves 5 reading (refl, refl)
      (refl, refl, refl, refl, refl) (pos 7) refl 0

-- A coroutine waits for 5, dpcwc_cease ends that with 7 and resumes it, and it waits for 6; then the loop
-- pops 5, and its step resumes the coroutine.
ceased : Outcome (Option ℕ × Control × Bool)
ceased = do
  (c, t) ← await_ele thread 5 0
  (c, t) ← cease t 5 (pos 7)
  (c, t) ← await_ele t 6 0
  (popped, evp) ← pop_ready ops t.evp
  (c, t) ← main_step no_alloc 9 (record t { evp = evp }) 5
  e ← load t.evp 6
  done (popped, c, is_doing e.asc)

-- It is resumed a second time with 7, while the operation of 6 is under way.
woken_twice : ceased ≡ done (some 5, switched 7, true)
unfolding ceased await_ele cease main_step wake_waiter resume yield switch_back swap_in switch_to
    land message reap put await end over over_last pop_ready dpapp.Aco.load
woken_twice = refl
