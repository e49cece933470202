-- ===== src/Evp/Examples.antt =====
-- The theorems about cross-thread calls and their hand-over at concrete calls and executions.
use dpapp.Common.Int.{pos}
use dpapp.Evp.Call.{Stat, Call}
use dpapp.Common.{some, false, ◌≡◌, List, [], ◌∷◌, ◌++◌}
use dpapp.Evp.Handover.{Pair, Event, commit, accept, worker_wakes, master_wakes, handle, run, start}
use dpapp.Evp.Handover.Refines.{commit_side, accept_side, commit_event, accept_event, handle-sides}
use dpapp.Evp.Handover.Sound.{Sound, Awake, start-Sound, run-Sound, run-Awake}
use dpapp.Evp.Handover.Flow.{total, commits, accepts, run-total, run-delivers}

-- Calls in both directions; the master has taken the first one, the others are under way.
abbrev busy_run : List Event
busy_run = commit 1 ∷ commit 2 ∷ accept 7 ∷ master_wakes ∷ commit 3 ∷ accept 8 ∷ []

abbrev busy : Pair
busy = run start busy_run

handle-sides_example :
    (commit_side (handle busy worker_wakes) ≡ commit_event worker_wakes (commit_side busy))
    × (accept_side (handle busy worker_wakes) ≡ accept_event worker_wakes (accept_side busy))
handle-sides_example = handle-sides busy worker_wakes

run-Awake_example : Awake (commit_side busy) × Awake (accept_side busy)
run-Awake_example = run-Awake busy_run

run-total_example :
    (total (commit_side busy) ≡ total (commit_side start) ++ commits busy_run)
    × (total (accept_side busy) ≡ total (accept_side start) ++ accepts busy_run)
run-total_example = run-total start busy_run start-Sound

busy-Sound : Sound busy
busy-Sound = run-Sound start busy_run start-Sound

run-delivers_example :
    ((run busy (master_wakes ∷ worker_wakes ∷ master_wakes ∷ [])).enter ≡ total (commit_side busy))
    × ((run busy (worker_wakes ∷ master_wakes ∷ worker_wakes ∷ [])).worker.enter
        ≡ total (accept_side busy))
run-delivers_example = run-delivers busy busy-Sound

-- A call from worker 2 to worker 1, whose operation 5 has a `post`, which answers 40.
abbrev sent : Call
sent = record {
  stat = Stat.commit;
  toid = 1;
  fromid = 2;
  ret = pos 0;
  is_reto = false;
  is_detach = false;
  refc = 1;
  asc_type = some 5;
}
