-- ===== src/Cwc/Sleep/Examples.antt =====
-- A sleep at a concrete thread.
use dpapp.Common.{ℕ, ◌≡◌, refl, true, some}
use dpapp.Common.Outcome.{Returns}
use dpapp.Aco.{running}
use dpapp.Aco.Switch.Transfer.{Current}
use dpapp.Evp.Element.{has, Op}
use dpapp.Cwc.Await.{switched}
use dpapp.Cwc.Await.Examples.{no_alloc, main_co, waiter, thread, thread-Serves}
use dpapp.Cwc.Sleep.{timeout, sleep}
use dpapp.Cwc.Sleep.Wakes.{Woken, sleep-Woken}

abbrev ops : ℕ → Op ℕ
ops i = timeout

sleep-Woken_example :
    Returns
      (λ out.
        (out.0 ≡ switched 0)
        × Current out.1.aco 0 (record main_co { status = running; msg = 0 })
        × (has 8 out.1.evp.timers ≡ true)
        × Woken ops no_alloc 9 8 1 out)
      (sleep {K = ℕ} 2 5 thread (some 8) 0)
sleep-Woken_example =
    sleep-Woken ops no_alloc 9 thread 0 1 main_co waiter thread-Serves 2 5 8 refl 0
