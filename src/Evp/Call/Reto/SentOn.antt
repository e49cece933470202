-- ===== src/Evp/Call/Reto/SentOn.antt =====
-- A running call that is given another target goes there when it ends.
use dpapp.Common.{ℕ, ◌≡◌, none, some, List, false}
use dpapp.Common.Int.{ℤ}
use dpapp.App.Target.{Target}
use dpapp.Evp.Call.{commit, Call, sent_on, end_ctc}
use dpapp.Evp.Call.Reto.{Reply, accepted, invalid}

-- What `dpctc_reto` has made of `c`, and what happens at its end with the result `r`.
pub data Redirected (rest : List ℤ) (key : List ℕ) (toid : ℤ) (c : Call) (r : ℤ)
    : Reply × Call → Type 0 where
  no_target : Target rest key toid none → Redirected rest key toid c r (invalid, c)
  goes_on :
      {c' : Call} (id : ℕ)
      → Target rest key toid (some id)
      → end_ctc r c' ≡ sent_on id (record c { toid = id; is_reto = false; stat = commit; ret = r })
      → Redirected rest key toid c r (accepted, c')
