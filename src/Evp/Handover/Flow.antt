-- ===== src/Evp/Handover/Flow.antt =====
-- No call is lost, doubled or overtaken between a worker and the master, and all of them arrive.
use dpapp.Common.{ℕ, ◌≡◌, refl, sym, ap, ◌∙◌, List, [], ◌∷◌, ◌++◌}
use dpapp.Evp.Handover.{Pair, Event, commit, accept, worker_wakes, master_wakes, handle, run}
use dpapp.Evp.Handover.Channel.{Channel, send, receive, refill}
use dpapp.Evp.Handover.Refines.{commit_side, accept_side, commit_event, accept_event, handle-sides}
use dpapp.Evp.Handover.Sound.{Phase, idle, on_offer, taken, Sound, handle-Sound}
use mathlib.Core.List.{append_assoc, append-nil}

-- The calls that have arrived, then those on offer, then those that wait.
pub total : Channel → List ℕ
total c = c.received ++ c.offered ++ c.waiting

-- The calls that an execution sends to the master, and to the worker.
pub commits : List Event → List ℕ
commits [] = []
commits (commit x ∷ evs) = x ∷ commits evs
commits (accept x ∷ evs) = commits evs
commits (worker_wakes ∷ evs) = commits evs
commits (master_wakes ∷ evs) = commits evs

pub accepts : List Event → List ℕ
accepts [] = []
accepts (commit x ∷ evs) = accepts evs
accepts (accept x ∷ evs) = x ∷ accepts evs
accepts (worker_wakes ∷ evs) = accepts evs
accepts (master_wakes ∷ evs) = accepts evs

total-send : {c : Channel} (x : ℕ) → Phase c → total (send c x) ≡ total c ++ (x ∷ [])
unfolding total
total-send x (idle {r}) = simp (append_assoc, append-nil)
total-send x (on_offer {x = y} {xs = xs} {ws = ws} {r = r}) = simp (append_assoc, append-nil)
total-send x (taken {ws} {r}) = simp (append_assoc, append-nil)

total-receive : {c : Channel} → Phase c → total (receive c) ≡ total c
unfolding total
total-receive idle = refl
total-receive (on_offer {x = y} {xs = xs} {ws = ws} {r = r}) = simp (append_assoc, append-nil)
total-receive taken = refl

total-refill : {c : Channel} → Phase c → total (refill c) ≡ total c
unfolding total
total-refill idle = refl
total-refill on_offer = refl
total-refill (taken {ws = []}) = refl
total-refill (taken {ws = x ∷ xs} {r = r}) = simp (append_assoc, append-nil)

total-commit_event :
    {c : Channel} (ev : Event) → Phase c → total (commit_event ev c) ≡ total c ++ commits (ev ∷ [])
unfolding commits
total-commit_event (commit x) p = total-send x p
total-commit_event (accept x) p = sym (append-nil _)
total-commit_event worker_wakes p = total-refill p ∙ sym (append-nil _)
total-commit_event master_wakes p = total-receive p ∙ sym (append-nil _)

total-accept_event :
    {c : Channel} (ev : Event) → Phase c → total (accept_event ev c) ≡ total c ++ accepts (ev ∷ [])
unfolding accepts
total-accept_event (commit x) p = sym (append-nil _)
total-accept_event (accept x) p = total-send x p
total-accept_event worker_wakes p = total-receive p ∙ sym (append-nil _)
total-accept_event master_wakes p = total-refill p ∙ sym (append-nil _)

commits-cons :
    (ev : Event) (evs : List Event) → commits (ev ∷ evs) ≡ commits (ev ∷ []) ++ commits evs
unfolding commits
commits-cons (commit x) evs = refl
commits-cons (accept x) evs = refl
commits-cons worker_wakes evs = refl
commits-cons master_wakes evs = refl

accepts-cons :
    (ev : Event) (evs : List Event) → accepts (ev ∷ evs) ≡ accepts (ev ∷ []) ++ accepts evs
unfolding accepts
accepts-cons (commit x) evs = refl
accepts-cons (accept x) evs = refl
accepts-cons worker_wakes evs = refl
accepts-cons master_wakes evs = refl

-- Whatever the worker and the master do to the queues between them, in any order, from a sound
-- state: the calls that have arrived at the master, then those on offer, then those that wait, are
-- the earlier ones followed by all calls sent since, in the order sent: none is lost, doubled or
-- overtaken. The same from the master to the worker.
pub run-total :
    (p : Pair) (evs : List Event)
    → Sound p
    → (total (commit_side (run p evs)) ≡ total (commit_side p) ++ commits evs)
      × (total (accept_side (run p evs)) ≡ total (accept_side p) ++ accepts evs)
unfolding run commits accepts
run-total p [] s = (sym (append-nil _), sym (append-nil _))
run-total p (ev ∷ evs) s =
    let sides = handle-sides p ev in
    let rest = run-total (handle p ev) evs (handle-Sound p ev s) in
    (
      rest.0
          ∙ ap (λ xs. xs ++ commits evs) (ap total sides.0 ∙ total-commit_event ev s.commit_phase)
          ∙ append_assoc _ (commits (ev ∷ [])) (commits evs)
          ∙ ap (λ xs. total (commit_side p) ++ xs) (sym (commits-cons ev evs)),
      rest.1
          ∙ ap (λ xs. xs ++ accepts evs) (ap total sides.1 ∙ total-accept_event ev s.accept_phase)
          ∙ append_assoc _ (accepts (ev ∷ [])) (accepts evs)
          ∙ ap (λ xs. total (accept_side p) ++ xs) (sym (accepts-cons ev evs)),
    )

-- The receiver, the sender and the receiver again.
round-received : {c : Channel} → Phase c → (receive (refill (receive c))).received ≡ total c
unfolding total
round-received idle = simp (append_assoc, append-nil)
round-received (on_offer {ws = []}) = simp (append_assoc, append-nil)
round-received (on_offer {ws = x ∷ xs}) = simp (append_assoc, append-nil)
round-received (taken {ws = []}) = simp (append_assoc, append-nil)
round-received (taken {ws = x ∷ xs}) = simp (append_assoc, append-nil)

-- From any sound state, all calls under way to the master have arrived there after the master, the
-- worker and the master again have handled their signals, and all calls under way to the worker
-- after the worker, the master and the worker again.
pub run-delivers :
    (p : Pair)
    → Sound p
    → ((run p (master_wakes ∷ worker_wakes ∷ master_wakes ∷ [])).enter ≡ total (commit_side p))
      × ((run p (worker_wakes ∷ master_wakes ∷ worker_wakes ∷ [])).worker.enter
          ≡ total (accept_side p))
unfolding run
run-delivers p s =
    let to_master =
      (handle-sides (handle (handle p master_wakes) worker_wakes) master_wakes).0
      ∙ ap receive (
          (handle-sides (handle p master_wakes) worker_wakes).0
          ∙ ap refill (handle-sides p master_wakes).0) in
    let to_worker =
      (handle-sides (handle (handle p worker_wakes) master_wakes) worker_wakes).1
      ∙ ap receive (
          (handle-sides (handle p worker_wakes) master_wakes).1
          ∙ ap refill (handle-sides p worker_wakes).1) in
    (
      ap (λ c. c.received) to_master ∙ round-received s.commit_phase,
      ap (λ c. c.received) to_worker ∙ round-received s.accept_phase,
    )
