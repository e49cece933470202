-- ===== src/Evp/Element/Freed.antt =====
-- An element whose last reference goes while its operation is under way is freed when that is over.
use dpapp.Common.{
  ℕ, ◌+◌, ◌-◌, ◌%◌, ◌^◌, ◌≡◌, refl, ◌∙◌, sym, true, false, ◌&&◌, ◌||◌, not, Option, none, some,
  List, ◌∷◌, ◌==◌, arith, Bool-cases, inl, inr,
}
use mathlib.Core.Path.{subst}
use dpapp.Common.Outcome.{
  done, Returns, returns, Returns-bind, Returns-mono, Returns-both, Returns-at,
}
use dpapp.Evp.Element.{
  World, Ele, Op, is_doing, is_efd, put, del, ending_of, over_last, over, pop_from, pop_ready,
  pop_timer, untime, has, time,
}
use dpapp.Evp.Element.Sound.{
  IsSound, put_self, live-fit, put-IsSound, self, count-without_self, view-put, view-untime,
}
use dpapp.Evp.Element.Over.{IsQuiet, IsTaken, put-IsTaken, run_ending-IsTaken, ending_of-IsQuiet}
use dpapp.Evp.Element.Pop.{first-IsTaken, pop_ready-Popped, pop_timer-Popped}

-- It is freed, and the loop gives nothing to its caller.
abbrev pub Freed : ℕ → Option ℕ × World → Type 0
Freed a (o, w) = (o ≡ none) × (w.ele a ≡ none)

over_last-Freed :
    (w : World) (a : ℕ) (e : Ele)
    → w.ele a ≡ some e
    → e.refc ≡ 0
    → Returns (Freed a) (over_last w a)
unfolding over_last
over_last-Freed w a e live none_left = rw (live, none_left) (returns (refl, put_self w a none))

-- The element of an operation under way stays.
deferred :
    (w : World) (a : ℕ) (e : Ele)
    → w.ele a ≡ some e
    → is_doing e.asc ≡ true
    → e.refc ≡ 1
    → del w a ≡ done (put w a (some (record e { refc = 0 })))
unfolding del
deferred w a e live doing one =
    let test : (e.refc == 1 && not (is_doing e.asc)) ≡ false = ground (arith, doing) in
    let low : (e.refc + (2 ^ 32 - 1)) % 2 ^ 32 ≡ 0 = omega (arith, one) in rw (live, test, low) refl

module _ {K : Type 0} (ops : ℕ → Op K) (quiet : (i : ℕ) → IsQuiet ((ops i).ending)) where
  over-Freed :
      (w : World) (a : ℕ) (e : Ele) → IsTaken w a e → e.refc ≡ 0 → Returns (Freed a) (over ops w a)
  unfolding over
  over-Freed w a e t none_left =
      let e' = record e { want = 0; asc = none } in
      let t' = put-IsTaken w a e e' t t.able (ground arith) in
      elim (Bool-cases (is_efd e.kind || e.io)) [
        | inl h ↦ rw (t.live, h) (over_last-Freed (put w a (some e')) a e' t'.live none_left)
        | inr h ↦
            rw (t.live, h)
              (Returns-bind
                (run_ending-IsTaken (ending_of ops e.asc) (put w a (some e')) a e'
                  (ending_of-IsQuiet ops quiet e.asc) t')
                λ w' p. over_last-Freed w' a _ (p.1.live) none_left)
      ]

  pop-Freed :
      (w : World) (a : ℕ) (rest : List ℕ) (e : Ele)
      → IsSound w
      → w.ready ≡ a ∷ rest
      → w.ele a ≡ some e
      → e.refc ≡ 0
      → Returns (Freed a) (pop_ready ops w)
  unfolding pop_ready
  pop-Freed w a rest e s first live none_left =
      subst (λ xs. Returns (Freed a) (pop_from ops w xs)) (sym first)
        (over-Freed (record w { ready = rest }) a e (first-IsTaken w a rest e s first live)
          none_left)

  timed-IsTaken :
      (w : World) (a : ℕ) (e : Ele)
      → IsSound w
      → has a w.timers ≡ true
      → w.ele a ≡ some e
      → IsTaken (put (untime w a) a (some (record e { ret = time }))) a (record e { ret = time })
  timed-IsTaken w a e s t live =
      let f = live-fit w a e s live in
      record {
        live = rw (self a) refl;
        able = ground (arith, f);
        wants = ground (arith, f);
        off_queue = ground (arith, f, t);
        off_timers = rw (count-without_self a w.timers) refl;
        other = λ b h.
            view-put (untime w a) a (some (record e { ret = time })) b h
            ∙ view-untime w a b h
            ∙ s b;
      }

  expired-Freed :
      (w : World) (a : ℕ) (e : Ele)
      → IsSound w
      → has a w.timers ≡ true
      → w.ele a ≡ some e
      → e.refc ≡ 0
      → Returns (Freed a) (pop_timer ops w a)
  unfolding pop_timer
  expired-Freed w a e s t live none_left = rw live (
      over-Freed (put (untime w a) a (some (record e { ret = time }))) a (record e { ret = time })
        (timed-IsTaken w a e s t live) none_left)

  deferred-IsSound :
      (w : World) (a : ℕ) (e : Ele)
      → IsSound w
      → w.ele a ≡ some e
      → is_doing e.asc ≡ true
      → IsSound (put w a (some (record e { refc = 0 })))
  deferred-IsSound w a e s live doing =
      put-IsSound w a (some (record e { refc = 0 })) s
        (ground (arith, live-fit w a e s live, doing))

  -- Dpele_del of the last reference to an element that is under way, on a sound loop: the element
  -- stays without a reference, whatever it waits for, the queue and the timers are as they were,
  -- and the loop is sound. On any sound loop that has such an element without a reference: where
  -- it is the first of the queue, the next round frees it, gives nothing to the caller and leaves
  -- the loop sound; where it is among the timers, its expiry does. A post that is run at the end
  -- of an operation is assumed to leave the elements, the queue and the timers as they are.
  pub del-Freed :
      (w : World) (a : ℕ) (e : Ele)
      → IsSound w
      → w.ele a ≡ some e
      → is_doing e.asc ≡ true
      → e.refc ≡ 1
      → (v : World) (rest : List ℕ) (queued : Ele) → IsSound v
      → v.ready ≡ a ∷ rest
      → v.ele a ≡ some queued
      → queued.refc ≡ 0
      → (u : World) (timed : Ele) → IsSound u
      → has a u.timers ≡ true
      → u.ele a ≡ some timed
      → timed.refc ≡ 0
      → Returns
          (λ w'.
            (w'.ele a ≡ some (record e { refc = 0 }))
            × (w'.ready ≡ w.ready)
            × (w'.timers ≡ w.timers)
            × IsSound w')
          (del w a)
        × Returns (λ p. Freed a p × IsSound (p.1)) (pop_ready ops v)
        × Returns (λ p. Freed a p × IsSound (p.1)) (pop_timer ops u a)
  del-Freed w a e s live doing one v rest queued sv first lv zv u timed su t lu zu = (
    Returns-at (deferred w a e live doing one)
        (put_self w a _, refl, refl, deferred-IsSound w a e s live doing),
    Returns-both (pop-Freed v a rest queued sv first lv zv)
        (Returns-mono (pop_ready-Popped ops quiet v sv) λ p q. q.0),
    Returns-both (expired-Freed u a timed su t lu zu)
        (Returns-mono (pop_timer-Popped ops quiet u su a t) λ p q. q.0),
  )
