-- ===== src/Evp/Element/Run.antt =====
-- Sequences of calls of a user and rounds of the event loop.
use dpapp.Common.{
  ℕ, ◌+◌, ◌^◌, ◌<◌, ◌≡◌, sym, ap, ◌∙◌, ◌⊎◌, Bool, true, false, ◌&&◌, Option, none, some, List, [],
  ◌∷◌, arith,
}
use mathlib.Core.Path.{subst}
use dpapp.Common.Int.{ℤ}
use dpapp.Common.Outcome.{
  Outcome, done, fault, ◌>>=◌, Returns, returns, Returns-bind, Returns-mono, Returns-value,
}
use dpapp.Evp.Element.{
  World, Ele, Op, Kind, count, has, is_doing, is_efd, is_continue, create, ref, del, set_detach,
  await, end, add, pop_ready, pop_timer, pop_event,
}
use dpapp.Evp.Element.Sound.{IsSound, put-IsSound, fit}
use dpapp.Evp.Element.Calls.{
  ref-IsSound, del-IsSound, set_detach-IsSound, await-IsSound, end-IsSound,
}
use dpapp.Evp.Element.Add.{IsOrderly, add-IsSound}
use dpapp.Evp.Element.Over.{IsQuiet}
use dpapp.Evp.Element.Pop.{pop_ready-Popped, pop_timer-Popped, pop_event-Popped}

-- A call, or a round of the loop that gives an element back; `K` is the system as it is then.
pub data Command (K : Type 0) : Type 0 where
  create_ele : Kind → Bool → ℕ → Command K
  ref_ele : ℕ → Command K
  del_ele : ℕ → Command K
  detach_ele : Bool → ℕ → Command K
  await_ele : Option ℕ → ℕ → Command K
  end_ele : ℤ → ℕ → Command K
  add_ele : ℕ → K → ℕ → Command K
  ready_round : Command K
  timer_round : ℕ → Command K
  event_round : ℕ → K → ℕ → Command K

-- An element that is live, by a reference of the user.
abbrev pub Held : World → ℕ → Type 0
Held w a = (e : Ele) × (w.ele a ≡ some e) × (0 < e.refc) × (e.refc + 1 < 2 ^ 32)

abbrev state : {A : Type 0} → Outcome (A × World) → Outcome World
state m = do r ← m; done (r.1)

-- What is asked of the result of a step, if there is one.
abbrev After : Outcome World → (World → Type 0) → Type 0
After (done w) P = P w
After fault P = true ≡ true

module _ {K : Type 0} (ops : ℕ → Op K) where
  unfoldable pub command : Command K → World → Outcome World
  command (create_ele kind io a) w = done (create kind io w a)
  command (ref_ele a) w = ref w a
  command (del_ele a) w = del w a
  command (detach_ele d a) w = state (set_detach d w a)
  command (await_ele cop a) w = state (await cop w a)
  command (end_ele r a) w = end r w a
  command (add_ele i k a) w = state (add (ops i) i k w a)
  command ready_round w = state (pop_ready ops w)
  command (timer_round a) w = state (pop_timer ops w a)
  command (event_round evs k a) w = state (pop_event ops evs k w a)

  -- A new operation on an element that has one already is allowed where it is no descriptor, it is not
  -- in the queue, and `prep` succeeds.
  abbrev pub MayAdd : ℕ → K → World → ℕ → Type 0
  MayAdd i k w a =
      (e : Ele) × (w.ele a ≡ some e)
      × (0 < e.refc)
      × ((is_doing e.asc && ((ops i).allow_doing) ≡ false)
          ⊎ ((is_efd e.kind ≡ false)
              × (count a w.ready ≡ 0)
              × (is_continue (((ops i).prep k).ret) ≡ true)))

  -- What a user has to see to, what `calloc` and `dptmrset_expire` see to, and that the descriptor of an
  -- event is live.
  abbrev pub Allowed : Command K → World → Type 0
  Allowed (create_ele kind io a) w = w.ele a ≡ none
  Allowed (ref_ele a) w = Held w a
  Allowed (del_ele a) w = Held w a
  Allowed (detach_ele d a) w = Held w a
  Allowed (await_ele cop a) w = Held w a
  Allowed (end_ele r a) w = Held w a
  Allowed (add_ele i k a) w = MayAdd i k w a
  Allowed ready_round w = true ≡ true
  Allowed (timer_round a) w = has a w.timers ≡ true
  Allowed (event_round evs k a) w = (e : Ele) × (w.ele a ≡ some e) × (is_efd e.kind ≡ true)

  -- Each command is allowed where it is its turn.
  abbrev pub AllAllowed : List (Command K) → World → Type 0
  AllAllowed [] w = true ≡ true
  AllAllowed (c ∷ cs) w = Allowed c w × After (command c w) (AllAllowed cs)

  unfoldable pub run : List (Command K) → World → Outcome World
  run [] w = done w
  run (c ∷ cs) w = do w' ← command c w; run cs w'

create-IsSound :
    (kind : Kind) (io : Bool) (w : World) (a : ℕ)
    → IsSound w
    → w.ele a ≡ none
    → IsSound (create kind io w a)
unfolding create
create-IsSound kind io w a s free =
    let f = ap (λ (o : Option Ele). fit o (count a w.ready) (has a w.timers)) (sym free) ∙ s a in
    put-IsSound w a _ s (ground (arith, f))

state-Returns :
    {A : Type 0} {P : World → Type 0} {m : Outcome (A × World)}
    → Returns (λ r. P (r.1)) m
    → Returns P (state m)
state-Returns h = Returns-bind h λ r p. returns p

module _ {K : Type 0} (ops : ℕ → Op K) (orderly : (i : ℕ) → IsOrderly (ops i))
    (quiet : (i : ℕ) → IsQuiet ((ops i).ending)) where
  command-IsSound :
      (c : Command K) (w : World) → IsSound w → Allowed ops c w → Returns IsSound (command ops c w)
  unfolding command
  command-IsSound (create_ele kind io a) w s free = returns (create-IsSound kind io w a s free)
  command-IsSound (ref_ele a) w s (e, live, held, bound) = ref-IsSound w a e s live bound
  command-IsSound (del_ele a) w s (e, live, held, bound) =
      del-IsSound w a e s live held (omega (arith, bound))
  command-IsSound (detach_ele d a) w s (e, live, held, bound) =
      state-Returns (set_detach-IsSound w a e s live d)
  command-IsSound (await_ele cop a) w s (e, live, held, bound) =
      state-Returns (await-IsSound w a e s live cop)
  command-IsSound (end_ele r a) w s (e, live, held, bound) = end-IsSound w a e s live r
  command-IsSound (add_ele i k a) w s (e, live, held, again) =
      state-Returns (add-IsSound (ops i) (orderly i) w a s i k e live held again)
  command-IsSound ready_round w s h =
      state-Returns (Returns-mono (pop_ready-Popped ops quiet w s) λ r p. p.0)
  command-IsSound (timer_round a) w s h =
      state-Returns (Returns-mono (pop_timer-Popped ops quiet w s a h) λ r p. p.0)
  command-IsSound (event_round evs k a) w s (e, live, kind) =
      state-Returns
        (Returns-mono (pop_event-Popped ops quiet w s orderly evs k a e live kind) λ r p. p.0)

  -- From a sound event loop, a sequence of calls and of rounds of the loop, each allowed where it
  -- is its turn, and operations whose post comes to an end and leaves the elements alone: no step
  -- touches a freed element, and afterwards the loop is sound: the queue and the timers hold live
  -- elements with an operation only, the queue each once and none that a timer holds or that waits
  -- for an event, and each live element has a reference or an operation under way.
  pub run-IsSound :
      (cs : List (Command K)) (w : World)
      → IsSound w
      → AllAllowed ops cs w
      → Returns IsSound (run ops cs w)
  unfolding run
  run-IsSound [] w s h = returns s
  run-IsSound (c ∷ cs) w s (h, next) =
      let (w', e, s') = Returns-value (command-IsSound c w s h) in
      rw e (run-IsSound cs w' s' (subst (λ m. After m (AllAllowed ops cs)) e next))
