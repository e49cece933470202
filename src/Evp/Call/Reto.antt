-- ===== src/Evp/Call/Reto.antt =====
-- dpevp_epoll.c: `dpctc_set_toid` and `dpctc_reto` of a call, which pass it to another event loop.
pub mod SentOn
use dpapp.Common.{ℕ, ◌%◌, ◌^◌, Bool, true, false, Option, none, some, List, if◌then◌else◌}
use dpapp.Common.Int.{ℤ}
use dpapp.Common.Outcome.{Outcome, done, ◌>>=◌}
use dpapp.App.{Layout, resolve_toid}
use dpapp.Evp.Call.{Stat, running, Call}

-- `DPE_OK`, `DPE_INVAL` and `DPE_PERM`.
pub data Reply : Type 0 where
  accepted : Reply
  invalid : Reply
  refused : Reply

abbrev pub is_running : Stat → Bool
is_running running = true
is_running _ = false

-- `toid` has eight bits.
abbrev pub set_with : Call → Option ℕ → Reply × Call
set_with c none = (invalid, c)
set_with c (some id) = (accepted, record c { toid = id % 2 ^ 8 })

-- `dpctc_set_toid`; `key` is the bytes of the pointer to the call.
unfoldable pub set_toid : Layout → List ℕ → ℤ → Call → Outcome (Reply × Call)
set_toid l key toid c = do id ← resolve_toid l key toid; done (set_with c id)

abbrev pub reto_with : Call → Option ℕ → Reply × Call
reto_with c none = (invalid, c)
reto_with c (some id) =
    if is_running c.stat
    then (accepted, record c { toid = id % 2 ^ 8; is_reto = true })
    else (refused, c)

-- `dpctc_reto`.
unfoldable pub reto : Layout → List ℕ → ℤ → Call → Outcome (Reply × Call)
reto l key toid c = do id ← resolve_toid l key toid; done (reto_with c id)
