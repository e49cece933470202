-- ===== src/Evp/Handover/Refines.antt =====
-- Each direction of the hand-over between a worker and the master is a channel.
use dpapp.Common.{ℕ, suc, ◌≡◌, refl, zero, Bool, true, false, List, [], ◌∷◌}
use dpapp.Evp.Handover.{
  push_commit_if, push_accept_if, Pair, move_accept, move_commit, push_commit, push_accept,
  take_commit, take_accept, worker_wake, master_wake, Event, commit, accept, worker_wakes,
  master_wakes, handle, silent,
}
use dpapp.Evp.Handover.Channel.{Channel, send, receive, refill}

abbrev pub commit_side : Pair → Channel
commit_side p = record {
  free = p.worker.is_request;
  waiting = p.worker.commiting;
  offered = p.worker.commited;
  incr = p.worker.commit_wake.incr;
  take = p.worker.accept_wake.take;
  received = p.enter;
}

abbrev pub accept_side : Pair → Channel
accept_side p = record {
  free = p.worker.is_respond;
  waiting = p.worker.accepting;
  offered = p.worker.accepted;
  incr = p.worker.accept_wake.incr;
  take = p.worker.commit_wake.take;
  received = p.worker.enter;
}

-- What an event is to the two directions.
abbrev pub commit_event : Event → Channel → Channel
commit_event (commit x) c = send c x
commit_event (accept x) c = c
commit_event worker_wakes c = refill c
commit_event master_wakes c = receive c

abbrev pub accept_event : Event → Channel → Channel
accept_event (commit x) c = c
accept_event (accept x) c = send c x
accept_event worker_wakes c = receive c
accept_event master_wakes c = refill c

-- Both directions at once.
abbrev Sides : Pair → Event → Pair → Type 0
Sides p ev p' =
    (commit_side p' ≡ commit_event ev (commit_side p))
    × (accept_side p' ≡ accept_event ev (accept_side p))

push_commit-Sides :
    (b : Bool) (p : Pair) (x : ℕ)
    → Sides
        (record p { worker = record p.worker { is_request = b } })
        (commit x)
        (record p { worker = push_commit_if b (record p.worker { is_request = b }) x })
push_commit-Sides true p x = (refl, refl)
push_commit-Sides false p x = (refl, refl)

push_accept-Sides :
    (b : Bool) (p : Pair) (x : ℕ)
    → Sides
        (record p { worker = record p.worker { is_respond = b } })
        (accept x)
        (record p { worker = push_accept_if b (record p.worker { is_respond = b }) x })
push_accept-Sides true p x = (refl, refl)
push_accept-Sides false p x = (refl, refl)

worker_wake-Sides :
    (i t : ℕ) (xs : List ℕ) (p : Pair)
    → let w = record p.worker { accept_wake = record { incr = i; take = t }; commiting = xs } in
      Sides
        (record p { worker = w })
        worker_wakes
        (record p {
          worker = worker_wake (record w { accept_wake = silent }) (record { incr = i; take = t });
        })
unfolding worker_wake move_commit take_accept
worker_wake-Sides zero zero xs p = (refl, refl)
worker_wake-Sides (suc i) zero xs p = (refl, refl)
worker_wake-Sides zero (suc t) [] p = (refl, refl)
worker_wake-Sides (suc i) (suc t) [] p = (refl, refl)
worker_wake-Sides zero (suc t) (x ∷ xs) p = (refl, refl)
worker_wake-Sides (suc i) (suc t) (x ∷ xs) p = (refl, refl)

master_wake-Sides :
    (i t : ℕ) (xs : List ℕ) (p : Pair)
    → let w = record p.worker { commit_wake = record { incr = i; take = t }; accepting = xs } in
      Sides
        (record p { worker = w })
        master_wakes
        (master_wake
          (record p { worker = record w { commit_wake = silent } })
          (record { incr = i; take = t }))
unfolding master_wake move_accept take_commit
master_wake-Sides zero zero xs p = (refl, refl)
master_wake-Sides (suc i) zero xs p = (refl, refl)
master_wake-Sides zero (suc t) [] p = (refl, refl)
master_wake-Sides (suc i) (suc t) [] p = (refl, refl)
master_wake-Sides zero (suc t) (x ∷ xs) p = (refl, refl)
master_wake-Sides (suc i) (suc t) (x ∷ xs) p = (refl, refl)

-- Each event between a worker and the master acts on the two directions as the operations of two
-- independent channels (send, receive, refill), although the directions share the two eventfds.
pub handle-sides :
    (p : Pair) (ev : Event)
    → (commit_side (handle p ev) ≡ commit_event ev (commit_side p))
      × (accept_side (handle p ev) ≡ accept_event ev (accept_side p))
unfolding handle push_commit push_accept
handle-sides p (commit x) = push_commit-Sides p.worker.is_request p x
handle-sides p (accept x) = push_accept-Sides p.worker.is_respond p x
handle-sides p worker_wakes =
    worker_wake-Sides p.worker.accept_wake.incr p.worker.accept_wake.take p.worker.commiting p
handle-sides p master_wakes =
    master_wake-Sides p.worker.commit_wake.incr p.worker.commit_wake.take p.worker.accepting p
