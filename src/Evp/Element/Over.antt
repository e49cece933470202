-- ===== src/Evp/Element/Over.antt =====
-- What the event loop does when an operation is over keeps it sound.
use dpapp.Common.{
  ℕ, ◌<◌, ◌≡◌, refl, sym, ◌∙◌, true, false, ◌||◌, Option, none, some, ◌==◌, ==_iff, arith,
  Bool-cases, inl, inr,
}
use mathlib.Core.Path.{subst}
use dpapp.Common.Int.{ℤ}
use dpapp.Common.Outcome.{Outcome, Returns, returns, Returns-bind}
use dpapp.Evp.Element.{
  World, Ele, Op, count, has, is_doing, is_efd, put, run_ending, ending_of, over_last, over,
}
use dpapp.Evp.Element.Sound.{IsSound, view, fit, self, view-put}

-- The event loop is sound, and what it gives to its caller is a live element with a reference, not
-- detached, without an operation.
abbrev pub Given : World → Option ℕ → Type 0
Given w none = true ≡ true
Given w (some a) =
    (e : Ele) × (w.ele a ≡ some e) × (is_doing e.asc ≡ false) × (0 < e.refc) × (e.detach ≡ false)

abbrev pub Popped : Option ℕ × World → Type 0
Popped (o, w) = IsSound w × Given w o

-- An operation without a `post` of its own, or with one that answers and leaves the elements alone.
abbrev pub IsQuiet : Option (World → Outcome (ℤ × World)) → Type 0
IsQuiet none = true ≡ true
IsQuiet (some post) = (w : World) → Returns (λ p. p.1 ≡ w) (post w)

-- The element `a` has been taken off the queue and the timers; all else is sound.
pub record IsTaken (w : World) (a : ℕ) (e : Ele) : Type 0 where
  pub live : w.ele a ≡ some e
  pub able : e.able < 32
  pub wants : is_efd e.kind || e.want == 0 ≡ true
  pub off_queue : count a w.ready ≡ 0
  pub off_timers : has a w.timers ≡ false
  pub other : (b : ℕ) → (b == a) ≡ false → view w b ≡ true

pub put-IsTaken :
    (w : World) (a : ℕ) (e e' : Ele)
    → IsTaken w a e
    → e'.able < 32
    → is_efd e'.kind || e'.want == 0 ≡ true
    → IsTaken (put w a (some e')) a e'
put-IsTaken w a e e' t able wants = record {
  live = rw (self a) refl;
  able = able;
  wants = wants;
  off_queue = t.off_queue;
  off_timers = t.off_timers;
  other = λ b h. view-put w a (some e') b h ∙ t.other b h;
}

-- All is sound again when what stands at `a` fits.
IsTaken-IsSound :
    (w : World) (a : ℕ) (e : Ele) (o : Option Ele)
    → IsTaken w a e
    → fit o 0 false ≡ true
    → IsSound (put w a o)
IsTaken-IsSound w a e o t f b = elim (Bool-cases (b == a)) [
  | inl h ↦ rw ((==_iff b a).0 h, self a, t.off_queue, t.off_timers) f
  | inr h ↦ view-put w a o b h ∙ t.other b h
]

-- A taken element that already fits.
rest-IsSound :
    (w : World) (a : ℕ) (e : Ele) → IsTaken w a e → fit (some e) 0 false ≡ true → IsSound w
rest-IsSound w a e t f b = elim (Bool-cases (b == a)) [
  | inl h ↦ rw ((==_iff b a).0 h, t.live, t.off_queue, t.off_timers) f
  | inr h ↦ t.other b h
]

over_last-Popped :
    (w : World) (a : ℕ) (e : Ele)
    → IsTaken w a e
    → is_doing e.asc ≡ false
    → e.want ≡ 0
    → Returns Popped (over_last w a)
unfolding over_last
over_last-Popped w a e t idle want = elim (Bool-cases (e.refc == 0)) [
  | inl h ↦ rw (t.live, h) (returns (IsTaken-IsSound w a e none t refl, refl))
  | inr h ↦
      let s : IsSound w = rest-IsSound w a e t (ground (arith, t.able, idle, want, h)) in
      elim (Bool-cases e.detach) [
        | inl d ↦ rw (t.live, h, d) (returns (s, refl))
        | inr d ↦ rw (t.live, h, d) (returns (s, (e, t.live, idle, ground (arith, h), d)))
      ]
]

-- `post` leaves a taken element taken, but for its result.
pub run_ending-IsTaken :
    (o : Option (World → Outcome (ℤ × World))) (w : World) (a : ℕ) (e : Ele)
    → IsQuiet o
    → IsTaken w a e
    → Returns (λ w'. (r : ℤ) × IsTaken w' a (record e { ret = r })) (run_ending o w a)
run_ending-IsTaken none w a e q t = returns (e.ret, t)
run_ending-IsTaken (some post) w a e q t = Returns-bind (q w) λ p same.
    let t' : IsTaken (p.1) a e = subst (λ (v : World). IsTaken v a e) (sym same) t in
    rw (t'.live) (returns (p.0, put-IsTaken (p.1) a e (record e { ret = p.0 }) t' t.able t.wants))

module _ {K : Type 0} (ops : ℕ → Op K) (quiet : (i : ℕ) → IsQuiet ((ops i).ending)) where
  pub ending_of-IsQuiet : (o : Option ℕ) → IsQuiet (ending_of ops o)
  ending_of-IsQuiet none = refl
  ending_of-IsQuiet (some i) = quiet i

  pub over-Popped : (w : World) (a : ℕ) (e : Ele) → IsTaken w a e → Returns Popped (over ops w a)
  unfolding over
  over-Popped w a e t =
      let e' = record e { want = 0; asc = none } in
      let t' = put-IsTaken w a e e' t t.able (ground arith) in
      elim (Bool-cases (is_efd e.kind || e.io)) [
        | inl h ↦ rw (t.live, h) (over_last-Popped (put w a (some e')) a e' t' refl refl)
        | inr h ↦
            rw (t.live, h)
              (Returns-bind
                (run_ending-IsTaken (ending_of ops e.asc) (put w a (some e')) a e'
                  (ending_of-IsQuiet e.asc) t')
                λ w' p. over_last-Popped w' a _ (p.1) refl refl)
      ]
