-- ===== src/Evp/Element/Pop.antt =====
-- The rounds of `dpevp_pop` keep an event loop sound.
use dpapp.Common.{
  ℕ, suc, ◌<◌, ◌≡◌, refl, sym, ap, ◌∙◌, Bool, true, false, ◌&&◌, ◌||◌, not, Option, none, some,
  List, [], ◌∷◌, ◌==◌, arith, Bool-cases, inl, inr,
}
use dpapp.Common.Outcome.{Returns, returns, Returns-bind}
use dpapp.Evp.Ready.{Efd}
use dpapp.Evp.Ready.Able.{feed-Small, feed_idle}
use dpapp.Evp.Element.{
  World, Ele, Op, count, has, is_doing, is_efd, put, untime, efd_of, with_efd, op_of, over,
  pop_from, pop_ready, pop_timer, pop_event, time,
}
use dpapp.Evp.Element.Sound.{
  IsSound, fit, self, count_self, count-without_self, live-fit, put-IsSound, view-put, view-untime,
}
use dpapp.Evp.Element.Add.{IsOrderly}
use dpapp.Evp.Element.Over.{Popped, IsQuiet, IsTaken, over-Popped}

-- What the queue or the timers hold is live.
live_in :
    (o : Option Ele) (r : ℕ) (t : Bool)
    → fit o r t ≡ true
    → r == 0 && not t ≡ false
    → (e : Ele) × (o ≡ some e)
live_in none r t f h = absurd (ground (arith, f, h))
live_in (some e) r t f h = (e, refl)

-- The first of the queue.
pub first-IsTaken :
    (w : World) (a : ℕ) (rest : List ℕ) (e : Ele)
    → IsSound w
    → w.ready ≡ a ∷ rest
    → w.ele a ≡ some e
    → IsTaken (record w { ready = rest }) a e
first-IsTaken w a rest e s eq live =
    let f = live-fit w a e s live in
    let c : count a w.ready ≡ suc (count a rest) = ap (count a) eq ∙ count_self a rest in
    record {
      live = live;
      able = ground (arith, f);
      wants = ground (arith, f);
      off_queue = ground (arith, f, c);
      off_timers = ground (arith, f, c);
      other = λ b h.
          let d : count b w.ready ≡ count b rest = ap (count b) eq ∙ rw h in
          ap (λ (n : ℕ). fit (w.ele b) n (has b w.timers)) (sym d) ∙ s b;
    }

module _ {K : Type 0} (ops : ℕ → Op K) (quiet : (i : ℕ) → IsQuiet ((ops i).ending)) (w : World)
    (s : IsSound w) where
  pop_first : (xs : List ℕ) → w.ready ≡ xs → Returns Popped (pop_from ops w xs)
  pop_first [] eq = returns (s, refl)
  pop_first (a ∷ rest) eq =
      let c : count a w.ready ≡ suc (count a rest) = ap (count a) eq ∙ count_self a rest in
      let (e, live) =
        live_in (w.ele a) (count a w.ready) (has a w.timers) (s a) (ground (arith, c)) in
      over-Popped ops quiet (record w { ready = rest }) a e (first-IsTaken w a rest e s eq live)

  pub pop_ready-Popped : Returns Popped (pop_ready ops w)
  unfolding pop_ready
  pop_ready-Popped = pop_first w.ready refl

  pub pop_timer-Popped : (a : ℕ) → has a w.timers ≡ true → Returns Popped (pop_timer ops w a)
  unfolding pop_timer
  pop_timer-Popped a t =
      let (e, live) =
        live_in (w.ele a) (count a w.ready) (has a w.timers) (s a) (ground (arith, t)) in
      let f = live-fit w a e s live in
      let e' = record e { ret = time } in
      rw live (
        over-Popped ops quiet (put (untime w a) a (some e')) a e' record {
          live = rw (self a) refl;
          able = ground (arith, f);
          wants = ground (arith, f);
          off_queue = ground (arith, f, t);
          off_timers = rw (count-without_self a w.timers) refl;
          other = λ b h. view-put (untime w a) a (some e') b h ∙ view-untime w a b h ∙ s b;
        })

  -- The world with an element that an event has changed.
  abbrev fed_to : ℕ → Ele → Efd → World
  fed_to a e f = put w a (some (record (with_efd e f) { ret = f.ret }))

  gone-Popped :
      (a : ℕ) (e : Ele) (f : Efd)
      → w.ele a ≡ some e
      → is_efd e.kind ≡ true
      → count a w.ready ≡ 0
      → f.able < 32
      → Returns Popped (over ops (untime (fed_to a e f) a) a)
  gone-Popped a e f live kind c able =
      let e' = record (with_efd e f) { ret = f.ret } in
      over-Popped ops quiet (untime (fed_to a e f) a) a e' record {
        live = rw (self a) refl;
        able = able;
        wants = rw kind refl;
        off_queue = c;
        off_timers = rw (count-without_self a w.timers) refl;
        other = λ b h. view-untime (fed_to a e f) a b h ∙ view-put w a (some e') b h ∙ s b;
      }

  op_of-IsOrderly : ((i : ℕ) → IsOrderly (ops i)) → (o : Option ℕ) → IsOrderly (op_of ops o)
  op_of-IsOrderly orderly none = orderly 0
  op_of-IsOrderly orderly (some i) = orderly i

  pub pop_event-Popped :
      ((i : ℕ) → IsOrderly (ops i))
      → (evs : ℕ) (k : K) (a : ℕ) (e : Ele) → w.ele a ≡ some e
      → is_efd e.kind ≡ true
      → Returns Popped (pop_event ops evs k w a)
  unfolding pop_event
  pop_event-Popped orderly evs k a e live kind =
      let f = live-fit w a e s live in
      elim (Bool-cases (e.want == 0 || not (is_doing e.asc))) [
        | inl h ↦
            rw
              (
                live,
                feed_idle ((op_of ops e.asc).post) ((op_of ops e.asc).fuel k) (efd_of e) evs k h,
              )
              (returns (put-IsSound w a _ s (ground (arith, f)), refl))
        | inr h ↦
            let (left, progress, enough) = op_of-IsOrderly orderly e.asc in
            let c : count a w.ready ≡ 0 = ground (arith, f, h) in
            rw (live, enough k)
              (Returns-bind (feed-Small progress (efd_of e) evs k h) λ r able.
                elim (Bool-cases (r.0)) [
                  | inl g ↦ rw g (gone-Popped a e (r.1) live kind c able)
                  | inr g ↦
                      rw g
                        (returns (put-IsSound w a _ s (ground (arith, f, h, c, able, kind)), refl))
                ])
      ]
