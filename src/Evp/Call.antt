-- ===== src/Evp/Call.antt =====
-- dpevp_epoll.c: the life of a cross-thread call (`dpctc_t`): who may run it, cancel it and finish
-- it. Its status is atomic: the thread that sent it cancels it while another one takes it.

pub mod Life
pub mod Race
pub mod Reto
use dpapp.Common.{ℕ, Bool, true, false, ◌||◌, not, Option, none, some, ◌==◌, if◌then◌else◌}
use dpapp.Common.Int.{ℤ}

-- `dpctc_stat_e`.
pub data Stat : Type 0 where
  initial : Stat
  commit : Stat
  cancel : Stat
  running : Stat
  finish : Stat

-- What `struct dpele` holds of a call. `asc_type` names the operation.
pub record Call : Type 0 where
  pub stat : Stat
  pub toid : ℕ
  pub fromid : ℕ
  pub ret : ℤ
  pub is_reto : Bool
  pub is_detach : Bool
  pub refc : ℕ
  pub asc_type : Option ℕ

abbrev pub is_commit : Stat → Bool
is_commit commit = true
is_commit _ = false

abbrev pub is_cancel : Stat → Bool
is_cancel cancel = true
is_cancel _ = false

-- What becomes of a call that an event loop takes from its queue: it is given to the caller of the
-- loop, goes on by `finish_ctc_f` or to the queue of a worker, or the loop is done with it.
pub data Reaped : Type 0 where
  returned : Call → Reaped
  finished : Call → Reaped
  sent_on : ℕ → Call → Reaped
  dropped : Call → Reaped

-- `_dpctc_del`: no reference is left, and the call is deleted, or it is detached.
abbrev pub del : Call → Bool
del c = c.refc == 0 || c.is_detach

abbrev pub unless_del : (Call → Reaped) → Call → Reaped
unless_del go c = if del c then dropped c else go c

-- `_dpctc_ces_stat` for `DPCTC_RUNNING` and `DPCTC_COMMIT`, or else `other`.
abbrev pub start_or : (Call → Reaped) → (Call → Reaped) → Call → Reaped
start_or go other c = if is_commit c.stat then go (record c { stat = running }) else other c

-- The same for `DPCTC_FINISH` and `DPCTC_CANCEL`, with what the loops do then.
abbrev pub end_or : (Call → Reaped) → Call → Reaped
end_or other c =
    if is_cancel c.stat then unless_del finished (record c { stat = finish }) else other c

-- `post` of an operation is code of the user: a parameter, `none` where there is none.
module _ (post : ℕ → Option (Call → ℤ)) where
  abbrev pub post_of : Option ℕ → Option (Call → ℤ)
  post_of none = none
  post_of (some asc) = post asc

  abbrev pub execute_by : Option (Call → ℤ) → Call → Reaped
  execute_by none c = returned c
  execute_by (some f) c = finished (record c { ret = f c; asc_type = none; stat = finish })

  -- The `case DPCTC_RUNNING` of `_worker_reap_ctc`.
  abbrev pub execute : Call → Reaped
  execute c = execute_by (post_of c.asc_type) c

  -- One round of the loop of `_worker_reap_ctc`. `seen` is the status that the `switch` has read;
  -- the sender may have changed it since. The removal of the timer is left out.
  unfoldable pub worker_reap : Stat → Call → Reaped
  worker_reap commit c = start_or returned (end_or execute) c
  worker_reap cancel c = end_or execute c
  worker_reap running c = execute c
  worker_reap initial c = unless_del returned c
  worker_reap finish c = unless_del returned c

-- The `default` case of `_master_reap_ctc`.
abbrev pub send_home : Call → Reaped
send_home c = if c.fromid == 0 then unless_del returned c else sent_on c.fromid c

-- `_master_reap_ctc`: it takes a call that is for itself, or gives it to its worker.
abbrev pub dispatch : Call → Reaped
dispatch c = if c.toid == 0 then returned c else sent_on c.toid c

unfoldable pub master_reap : Stat → Call → Reaped
master_reap commit c = start_or dispatch (end_or send_home) c
master_reap cancel c = end_or send_home c
master_reap initial c = send_home c
master_reap running c = send_home c
master_reap finish c = send_home c

-- `dpevp_end` of a call, and what `_dpevp_reap_tmr` does with `DPE_TIME`: cancel it if nobody has
-- taken it. In the code the write of `ret` follows the exchange of the status; nobody but the thread
-- that does both reads it before the reap, so that they are one step here.
unfoldable pub cancel_with : ℤ → Call → Call
cancel_with r c = if is_commit c.stat then record c { stat = cancel; ret = r } else c

-- `_dpctc_submit_prep` refuses a call that is under way.
abbrev pub is_under_way : Stat → Bool
is_under_way initial = false
is_under_way commit = true
is_under_way cancel = true
is_under_way running = true
is_under_way finish = false

-- What `dpevp_addv` answers; `wait` is also the answer `DPE_OK` for a detached call.
pub data Answer : Type 0 where
  perm : Answer
  repeat : Answer
  inval : Answer
  wait : Answer

abbrev pub is_doing : Option ℕ → Bool
is_doing none = false
is_doing (some asc) = true

abbrev pub submit_if : Bool → Bool → (Answer → ℤ) → ℤ → ℕ → ℕ → Call → Answer × Call
submit_if doing room failed in_progress id asc c =
    if doing
    then (perm, c)
    else if is_under_way c.stat
    then (repeat, record c { ret = failed repeat })
    else if not room
    then (inval, record c { ret = failed inval })
    else (
      wait,
      record c {
        asc_type = some asc;
        stat = commit;
        fromid = id;
        is_reto = false;
        ret = in_progress;
      },
    )

-- `dpevp_addv` of a call with the operation `asc`, by the event loop `id`: `room` is whether there
-- is memory for the arguments, and `failed` and `in_progress` are the values that it writes to
-- `ret`. The call then goes to `commit_ctc_f`, if the answer is `wait`.
unfoldable pub submit : (Answer → ℤ) → ℤ → ℕ → ℕ → Bool → Call → Answer × Call
submit failed in_progress id asc room c =
    submit_if (is_doing c.asc_type) room failed in_progress id asc c

abbrev pub end_if : Bool → Bool → ℤ → Call → Reaped
end_if reto detach r c =
    if reto
    then sent_on c.toid (record c { ret = r; is_reto = false; stat = commit })
    else if detach
    then dropped (record c { ret = r; stat = finish })
    else finished (record c { ret = r; stat = finish })

-- `dpevp_end_ctc_` behind its tests of the argument.
unfoldable pub end_ctc : ℤ → Call → Reaped
end_ctc r c = end_if c.is_reto c.is_detach r c
