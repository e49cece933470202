-- ===== src/Evp/Call/Life.antt =====
-- The statuses that a call goes through.
use dpapp.Common.{ℕ, ◌≡◌, ◌≢◌, ◌⊎◌, Bool, Option}
use dpapp.Common.Int.{ℤ}
use dpapp.Evp.Call.{
  Stat, initial, commit, cancel, running, finish, Call, Reaped, returned, finished, sent_on,
  dropped, worker_reap, master_reap, cancel_with, Answer, submit, end_ctc,
}

-- One step of the status; the last one is a call that is sent on to another event loop.
pub data Moves : Stat → Stat → Type 0 where
  first_sent : Moves initial commit
  sent_again : Moves finish commit
  starts : Moves commit running
  is_cancelled : Moves commit cancel
  ends_unrun : Moves cancel finish
  ends : Moves running finish
  resent : Moves running commit

abbrev pub Steps : Stat → Stat → Type 0
Steps s t = (t ≡ s) ⊎ Moves s t

abbrev pub call_of : Reaped → Call
call_of (returned c) = c
call_of (finished c) = c
call_of (sent_on id c) = c
call_of (dropped c) = c

-- What an event loop can have read of a status that is now the second one.
pub data Seen : Stat → Stat → Type 0 where
  same : {s : Stat} → Seen s s
  overtaken : Seen commit cancel

-- What the code does to a call in one step, on whichever thread.
pub data Step (post : ℕ → Option (Call → ℤ)) : Call → Call → Type 0 where
  reaped_by_worker :
      {seen : Stat} {c : Call} → Seen seen c.stat → Step post c (call_of (worker_reap post seen c))
  reaped_by_master :
      {seen : Stat} {c : Call} → Seen seen c.stat → Step post c (call_of (master_reap seen c))
  cancelled : {c : Call} (r : ℤ) → Step post c (cancel_with r c)
  submitted :
      {c : Call} (failed : Answer → ℤ) (r : ℤ) (id asc : ℕ) (room : Bool)
      → Step post c (submit failed r id asc room c).1
  ended : {c : Call} (r : ℤ) → c.stat ≡ running → Step post c (call_of (end_ctc r c))

-- The operation of a cancelled call stays: to run it would clear it.
abbrev pub Unrun : Stat → Call → Call → Type 0
Unrun s c c' = (s ≢ cancel) ⊎ (c'.asc_type ≡ c.asc_type)
