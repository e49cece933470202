-- ===== src/Evp/Handover/Sound.antt =====
-- The phases of a hand-over, and that the events keep to them.
use dpapp.Common.{ℕ, ◌≡◌, refl, ◌⊎◌, inl, inr, true, false, List, [], ◌∷◌, ◌++◌}
use dpapp.Evp.Handover.{Pair, Event, commit, accept, worker_wakes, master_wakes, handle, run, start}
use dpapp.Evp.Handover.Channel.{Channel, send, receive, refill}
use dpapp.Evp.Handover.Refines.{commit_side, accept_side, commit_event, accept_event, handle-sides}

-- The sender may use the queue on offer; the receiver is told of it; it has been taken and the
-- sender is told of that. One signal at most is under way.
pub data Phase : Channel → Type 0 where
  idle :
      {r : List ℕ}
      → Phase record { free = true; waiting = []; offered = []; incr = 0; take = 0; received = r }
  on_offer :
      {x : ℕ} {xs ws r : List ℕ}
      → Phase
          record { free = false; waiting = ws; offered = x ∷ xs; incr = 1; take = 0; received = r }
  taken :
      {ws r : List ℕ}
      → Phase record { free = false; waiting = ws; offered = []; incr = 0; take = 1; received = r }

pub Phase-send : {c : Channel} (x : ℕ) → Phase c → Phase (send c x)
Phase-send x idle = on_offer
Phase-send x on_offer = on_offer
Phase-send x taken = taken

pub Phase-receive : {c : Channel} → Phase c → Phase (receive c)
Phase-receive idle = idle
Phase-receive on_offer = taken
Phase-receive taken = taken

pub Phase-refill : {c : Channel} → Phase c → Phase (refill c)
Phase-refill idle = idle
Phase-refill on_offer = on_offer
Phase-refill (taken {ws = []}) = idle
Phase-refill (taken {ws = x ∷ xs}) = on_offer

Phase-commit_event : {c : Channel} (ev : Event) → Phase c → Phase (commit_event ev c)
Phase-commit_event (commit x) p = Phase-send x p
Phase-commit_event (accept x) p = p
Phase-commit_event worker_wakes p = Phase-refill p
Phase-commit_event master_wakes p = Phase-receive p

Phase-accept_event : {c : Channel} (ev : Event) → Phase c → Phase (accept_event ev c)
Phase-accept_event (commit x) p = p
Phase-accept_event (accept x) p = Phase-send x p
Phase-accept_event worker_wakes p = Phase-receive p
Phase-accept_event master_wakes p = Phase-refill p

pub record Sound (p : Pair) : Type 0 where
  pub commit_phase : Phase (commit_side p)
  pub accept_phase : Phase (accept_side p)

pub start-Sound : Sound start
start-Sound = record { commit_phase = idle; accept_phase = idle }

pub handle-Sound : (p : Pair) (ev : Event) → Sound p → Sound (handle p ev)
handle-Sound p ev s = record {
  commit_phase = rw (handle-sides p ev).0 (Phase-commit_event ev s.commit_phase);
  accept_phase = rw (handle-sides p ev).1 (Phase-accept_event ev s.accept_phase);
}

-- The phases of both directions are kept by every sequence of events.
pub run-Sound : (p : Pair) (evs : List Event) → Sound p → Sound (run p evs)
unfolding run
run-Sound p [] s = s
run-Sound p (ev ∷ evs) s = run-Sound (handle p ev) evs (handle-Sound p ev s)

-- A call that has not arrived has a signal under way for it.
pub Awake : Channel → Type 0
Awake c =
    ((c.offered ++ c.waiting ≡ []) × (c.incr ≡ 0) × (c.take ≡ 0))
    ⊎ (c.incr ≡ 1) × (c.take ≡ 0)
    ⊎ (c.incr ≡ 0) × (c.take ≡ 1)

Phase-Awake : {c : Channel} → Phase c → Awake c
unfolding Awake
Phase-Awake idle = inl (refl, refl, refl)
Phase-Awake on_offer = inr (inl (refl, refl))
Phase-Awake taken = inr (inr (refl, refl))

-- In every state that is reached from a new worker, in each direction: either no call is on offer
-- or waiting and no signal is under way, or exactly one signal is under way, to the receiver or to
-- the sender. So no call waits without a signal that leads to its delivery, and no half of an
-- eventfd counter exceeds 1.
pub run-Awake :
    (evs : List Event) → Awake (commit_side (run start evs)) × Awake (accept_side (run start evs))
run-Awake evs =
    let s = run-Sound start evs start-Sound in
    (Phase-Awake s.commit_phase, Phase-Awake s.accept_phase)
