-- ===== src/Evp/Handover/Channel.antt =====
-- One direction of the hand-over by itself: what a sender, its queue on offer and a receiver do.
use dpapp.Common.{ℕ, suc, Bool, true, false, List, [], ◌∷◌, ◌++◌}
use dpapp.Evp.Handover.{on_signal}

-- `waiting` and `free` belong to the sender, `offered` is the queue that changes hands, `incr` and
-- `take` are the signals under way to the receiver and to the sender, `received` is what arrived.
pub record Channel : Type 0 where
  pub free : Bool
  pub waiting : List ℕ
  pub offered : List ℕ
  pub incr : ℕ
  pub take : ℕ
  pub received : List ℕ

abbrev pub send_if : Bool → Channel → ℕ → Channel
send_if true c x = record c { free = false; offered = c.offered ++ (x ∷ []); incr = suc c.incr }
send_if false c x = record c { waiting = c.waiting ++ (x ∷ []) }

abbrev pub send : Channel → ℕ → Channel
send c x = send_if c.free c x

abbrev pub arrive : Channel → Channel
arrive c = record c { offered = []; take = suc c.take; received = c.received ++ c.offered }

-- The receiver reads the signals for it.
abbrev pub receive : Channel → Channel
receive c = on_signal c.incr arrive (record c { incr = 0 })

abbrev pub offer : Channel → List ℕ → Channel
offer c [] = record c { offered = []; waiting = []; free = true }
offer c (x ∷ xs) = record c { offered = x ∷ xs; waiting = []; incr = suc c.incr }

-- The sender reads the signals for it.
abbrev pub refill : Channel → Channel
refill c = on_signal c.take (λ c. offer c c.waiting) (record c { take = 0 })
