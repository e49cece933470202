-- ===== src/Evp/Handover.antt =====
-- dpevp_epoll.c: how cross-thread calls go from a worker to the master (`commit`) and from the
-- master to a worker (`accept`). The sender owns one queue and a flag, the other queue belongs to
-- the receiver while it is on offer, and two eventfds carry the signals.
-- A queue is the list of its calls; a call stands in one queue at most, so that the guard of
-- `_dpele_deque_push_back` against linked elements does not apply.
pub mod Channel
pub mod Flow
pub mod Refines
pub mod Sound
use dpapp.Common.{ℕ, zero, suc, Bool, true, false, List, [], ◌∷◌, ◌++◌}

-- The counter of an eventfd in its two halves: `_CTC_INCR_FLAG` counts below 2^32,
-- `_CTC_TAKE_FLAG` from there on.
pub record Wake : Type 0 where
  pub incr : ℕ
  pub take : ℕ

-- `worker_t`, with the queue `enter_ctcs` of its base.
pub record Worker : Type 0 where
  pub commit_wake : Wake
  pub accept_wake : Wake
  pub accepting : List ℕ
  pub commiting : List ℕ
  pub accepted : List ℕ
  pub commited : List ℕ
  pub is_request : Bool
  pub is_respond : Bool
  pub enter : List ℕ

-- A worker and the queue `enter_ctcs` of the master.
pub record Pair : Type 0 where
  pub worker : Worker
  pub enter : List ℕ

-- `write` to the eventfd.
abbrev pub signal_incr : Wake → Wake
signal_incr e = record e { incr = suc e.incr }

abbrev pub signal_take : Wake → Wake
signal_take e = record e { take = suc e.take }

-- What `read` leaves.
abbrev pub silent : Wake
silent = record { incr = 0; take = 0 }

abbrev pub push_back : List ℕ → ℕ → List ℕ
push_back xs x = xs ++ (x ∷ [])

abbrev pub offer_accept : Worker → List ℕ → Worker
offer_accept w [] = record w { accepted = []; accepting = []; is_respond = true }
offer_accept w (x ∷ xs) = record w {
  accepted = x ∷ xs;
  accepting = [];
  accept_wake = signal_incr w.accept_wake;
}

-- `_worker_move_accept_ctc`.
unfoldable pub move_accept : Worker → Worker
move_accept w = offer_accept w w.accepting

abbrev pub offer_commit : Worker → List ℕ → Worker
offer_commit w [] = record w { commited = []; commiting = []; is_request = true }
offer_commit w (x ∷ xs) = record w {
  commited = x ∷ xs;
  commiting = [];
  commit_wake = signal_incr w.commit_wake;
}

-- `_worker_move_commit_ctc`.
unfoldable pub move_commit : Worker → Worker
move_commit w = offer_commit w w.commiting

abbrev pub push_commit_if : Bool → Worker → ℕ → Worker
push_commit_if true w ctc = record w {
  is_request = false;
  commited = push_back w.commited ctc;
  commit_wake = signal_incr w.commit_wake;
}
push_commit_if false w ctc = record w { commiting = push_back w.commiting ctc }

-- `_worker_push_commit_ctc`.
unfoldable pub push_commit : Worker → ℕ → Worker
push_commit w ctc = push_commit_if w.is_request w ctc

abbrev pub push_accept_if : Bool → Worker → ℕ → Worker
push_accept_if true w ctc = record w {
  is_respond = false;
  accepted = push_back w.accepted ctc;
  accept_wake = signal_incr w.accept_wake;
}
push_accept_if false w ctc = record w { accepting = push_back w.accepting ctc }

-- `_worker_push_accept_ctc`.
unfoldable pub push_accept : Worker → ℕ → Worker
push_accept w ctc = push_accept_if w.is_respond w ctc

-- `_worker_take_commit_ctc`, which the master calls with its own queue.
unfoldable pub take_commit : Pair → Pair
take_commit p = record {
  worker = record p.worker { commited = []; accept_wake = signal_take p.worker.accept_wake };
  enter = p.enter ++ p.worker.commited;
}

-- `_worker_take_accept_ctc`, which the worker calls with its own queue.
unfoldable pub take_accept : Worker → Worker
take_accept w = record w {
  accepted = [];
  commit_wake = signal_take w.commit_wake;
  enter = w.enter ++ w.accepted;
}

-- An `if` on one half of the counter that was read.
abbrev pub on_signal : {A : Type 0} → ℕ → (A → A) → A → A
on_signal zero act a = a
on_signal (suc n) act a = act a

-- The branch of `_worker_reap_efd` for `accept_wake`, with what `read` has returned.
unfoldable pub worker_wake : Worker → Wake → Worker
worker_wake w ev = on_signal ev.incr take_accept (on_signal ev.take move_commit w)

-- The branch of `_master_reap_efd` for `commit_wake`.
unfoldable pub master_wake : Pair → Wake → Pair
master_wake p ev =
    on_signal ev.incr take_commit
      (on_signal ev.take (λ p. record p { worker = move_accept p.worker }) p)

-- What the two threads do to the queues between them. Each operation is one step: the other thread
-- touches a queue only after the signal at the end of the operation that hands it over.
pub data Event : Type 0 where
  commit : ℕ → Event
  accept : ℕ → Event
  worker_wakes : Event
  master_wakes : Event

unfoldable pub handle : Pair → Event → Pair
handle p (commit ctc) = record p { worker = push_commit p.worker ctc }
handle p (accept ctc) = record p { worker = push_accept p.worker ctc }
handle p worker_wakes = record p {
  worker = worker_wake (record p.worker { accept_wake = silent }) p.worker.accept_wake;
}
handle p master_wakes =
    master_wake (record p { worker = record p.worker { commit_wake = silent } })
      p.worker.commit_wake

unfoldable pub run : Pair → List Event → Pair
run p [] = p
run p (ev ∷ evs) = run (handle p ev) evs

-- `worker_new`.
abbrev pub new_worker : Worker
new_worker = record {
  commit_wake = silent;
  accept_wake = silent;
  accepting = [];
  commiting = [];
  accepted = [];
  commited = [];
  is_request = true;
  is_respond = true;
  enter = [];
}

abbrev pub start : Pair
start = record { worker = new_worker; enter = [] }
