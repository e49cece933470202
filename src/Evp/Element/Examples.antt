-- ===== src/Evp/Element/Examples.antt =====
-- The life of elements at concrete ones.
use dpapp.Common.{
  if◌then◌else◌, inr, ◌==◌, Bool-cases, ℕ, zero, suc, ◌≡◌, refl, inl, true, false, Option, none,
  some, List, [], ◌∷◌, arith,
}
use dpapp.Common.Int.{ℤ}
use dpapp.Common.Outcome.{Outcome, done, fault, ◌>>=◌, Returns}
use dpapp.Aio.{inval, continue}
use dpapp.Evp.Ready.{Out, Post}
use dpapp.Evp.Ready.Waits.{Progress}
use dpapp.Evp.Element.{
  Ele, World, Op, efd, tmr, ok, create, del, end, add, finish_add, start, over, over_last,
  pop_ready, pop_timer, pop_event,
}
use dpapp.Evp.Element.Sound.{IsSound}
use dpapp.Evp.Element.Freed.{Freed, del-Freed}
use dpapp.Evp.Element.Run.{
  Command, create_ele, del_ele, end_ele, add_ele, ready_round, timer_round, event_round, command,
  run, run-IsSound,
}

-- A descriptor's operation that ends at once, and one with a timeout.
abbrev ends : Out → ℕ → Post ℕ
ends out k = record { ret = ok; out = out; system = k }

abbrev timeout : ℤ → Option (World → Outcome (ℤ × World)) → Op ℕ
timeout r ending = record {
  accepts = λ kind. true;
  allow_doing = true;
  prep = λ k. record { ret = r; out = record { want = 1; inva = 0; able = 0 }; after = true };
  post = ends;
  fuel = λ k. 2;
  ending = ending;
}

-- A callback that starts the timer 1 again.
again : World → Outcome (ℤ × World)
again w = do (r, w') ← add (timeout continue none) 0 0 w 1; done (ok, w')

-- A timeout, a `prep` that fails, and a timer that starts itself again.
abbrev ops : ℕ → Op ℕ
ops zero = timeout continue none
ops (suc zero) = timeout inval none
ops (suc (suc i)) = timeout continue (some again)

abbrev nothing : World
nothing = record { ele = λ a. none; ready = []; timers = [] }

-- A timer that is ended while it runs and started again before it is popped, is popped and deleted
-- while the timer set still holds it.
restarted :
    run ops
      (create_ele tmr false 1
        ∷ add_ele 0 0 1
        ∷ end_ele ok 1
        ∷ add_ele 0 0 1
        ∷ del_ele 1
        ∷ ready_round
        ∷ timer_round 1
        ∷ [])
      nothing
    ≡ fault
unfolding run command create add start finish_add end del pop_ready pop_timer over over_last
restarted = refl

-- A running timer for which a second `prep` fails has no operation: it is deleted while it runs.
refused :
    run ops
      (create_ele tmr false 1 ∷ add_ele 0 0 1 ∷ add_ele 1 0 1 ∷ del_ele 1 ∷ timer_round 1 ∷ [])
      nothing
    ≡ fault
unfolding run command create add start finish_add end del pop_ready pop_timer over over_last
refused = refl

-- A callback starts its timer, to which no reference is left, again: it is deleted while it runs.
rearmed :
    run ops
      (create_ele tmr false 1 ∷ add_ele 2 0 1 ∷ del_ele 1 ∷ timer_round 1 ∷ timer_round 1 ∷ [])
      nothing
    ≡ fault
unfolding run command create add start finish_add end del pop_ready pop_timer over over_last again
rearmed = refl

-- A descriptor is deleted while its event is still among those that epoll has reported.
stale_event : run ops (create_ele efd true 1 ∷ del_ele 1 ∷ event_round 1 0 1 ∷ []) nothing ≡ fault
unfolding run command create del pop_event
stale_event = refl

abbrev quiet_ops : ℕ → Op ℕ
quiet_ops i = timeout continue none

ends-Progress : Progress ends (λ k. 0)
ends-Progress = record { less = λ out k h. absurd (ground (arith, h)) }

abbrev sound_run : List (Command ℕ)
sound_run = create_ele tmr false 1 ∷ add_ele 0 0 1 ∷ del_ele 1 ∷ timer_round 1 ∷ []

run-IsSound_example : Returns IsSound (run quiet_ops sound_run nothing)
unfolding command create add start finish_add del pop_timer over over_last
run-IsSound_example =
    run-IsSound quiet_ops (λ i. (λ k. 0, ends-Progress, λ k. refl)) (λ i. refl) sound_run nothing
      (λ a. refl)
      (
        refl,
        ((_, refl, omega arith, inl refl), ((_, refl, omega arith, omega arith), (refl, refl))),
      )

-- A timer that has been ended and waits in the queue.
abbrev ended_timer : Ele
ended_timer = record {
  kind = tmr;
  io = false;
  able = 0;
  want = 0;
  refc = 1;
  asc = some 0;
  after = true;
  detach = false;
  ret = ok;
  cop = none;
}

abbrev queued : World
queued = record {
  ele = λ a. if a == 1 then some ended_timer else none;
  ready = 1 ∷ [];
  timers = [];
}

queued-IsSound : IsSound queued
queued-IsSound a = elim (Bool-cases (a == 1)) [ inl h ↦ rw h refl | inr h ↦ rw h refl ]

-- The same timer without its last reference, in the queue and among the timers.
abbrev deleted_timer : Ele
deleted_timer = record ended_timer { refc = 0 }

abbrev still_queued : World
still_queued = record queued { ele = λ a. if a == 1 then some deleted_timer else none }

abbrev still_timed : World
still_timed = record still_queued { ready = []; timers = 1 ∷ [] }

still_queued-IsSound : IsSound still_queued
still_queued-IsSound a = elim (Bool-cases (a == 1)) [ inl h ↦ rw h refl | inr h ↦ rw h refl ]

still_timed-IsSound : IsSound still_timed
still_timed-IsSound a = elim (Bool-cases (a == 1)) [ inl h ↦ rw h refl | inr h ↦ rw h refl ]

del-Freed_example :
    Returns
      (λ w'. (w'.ele 1 ≡ some deleted_timer) × (w'.ready ≡ 1 ∷ []) × (w'.timers ≡ []) × IsSound w')
      (del queued 1)
    × Returns (λ p. Freed 1 p × IsSound (p.1)) (pop_ready quiet_ops still_queued)
    × Returns (λ p. Freed 1 p × IsSound (p.1)) (pop_timer quiet_ops still_timed 1)
del-Freed_example =
    del-Freed quiet_ops (λ i. refl) queued 1 ended_timer queued-IsSound refl refl refl still_queued
      [] deleted_timer still_queued-IsSound refl refl refl still_timed deleted_timer
      still_timed-IsSound refl refl refl
