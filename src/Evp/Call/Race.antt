-- ===== src/Evp/Call/Race.antt =====
-- A call that is cancelled while an event loop takes it.
use dpapp.Common.{◌≡◌}
use dpapp.Common.Int.{ℤ}
use dpapp.Evp.Call.{
  Stat, commit, cancel, running, finish, Call, Reaped, finished, unless_del, cancel_with,
}

-- Whatever the loop does with a call that it starts, by `reap`, which is given the status seen and
-- the call: it starts the call before it is cancelled, or finds it cancelled and ends it unrun.
pub record Decided (reap : Stat → Call → Reaped) (go : Call → Reaped) (r : ℤ) (c : Call)
    : Type 0 where
  pub starts : reap commit c ≡ go (record c { stat = running })
  pub too_late : cancel_with r (record c { stat = running }) ≡ record c { stat = running }
  pub seen_commit :
      reap commit (cancel_with r c) ≡ unless_del finished (record c { stat = finish; ret = r })
  pub seen_cancel :
      reap cancel (cancel_with r c) ≡ unless_del finished (record c { stat = finish; ret = r })
