-- ===== src/Cwc/Await/Loop.antt =====
-- An operation that somebody waits for, ended and popped.
use dpapp.Common.{ℕ, ◌≡◌, refl, ap, ◌∙◌, true, false, ◌||◌, Option, none, some, List, [], ◌∷◌, ◌==◌}
use dpapp.Common.Int.{ℤ}
use dpapp.Common.Outcome.{done, Returns, returns, Returns-at}
use dpapp.Evp.Element.{
  World, Ele, Op, await, end, ended, ending_of, is_doing, pop_timer, time, is_efd, over, over_last,
  pop_from, pop_ready, push_ready, put, untime,
}
use dpapp.Evp.Element.Sound.{self, put_self}

-- The element `a`, while the queue holds `xs`.
abbrev pub Stands : World → ℕ → Ele → List ℕ → Type 0
Stands w a e xs = (w.ele a ≡ some e) × (w.ready ≡ xs)

module _ (w : World) (a : ℕ) (e : Ele) where
  waits :
      (i : Option ℕ)
      → w.ele a ≡ some e
      → is_doing e.asc ≡ true
      → e.detach ≡ false
      → await i w a ≡ done (true, put w a (some (record e { cop = i })))
  unfolding await
  waits i live doing out = rw (live, doing, out) refl

  pub await-Stands :
      (i : Option ℕ) (xs : List ℕ)
      → Stands w a e xs
      → is_doing e.asc ≡ true
      → e.detach ≡ false
      → Returns
          (λ p. (p.0 ≡ true) × Stands (p.1) a (record e { cop = i }) xs × ((p.1).timers ≡ w.timers))
          (await i w a)
  await-Stands i xs (live, empty) doing out =
      Returns-at (waits i live doing out) (refl, (put_self w a _, empty), refl)

  push-alone : (u : World) → u.ready ≡ [] → (push_ready u a).ready ≡ a ∷ []
  push-alone u empty = rw empty refl

  pub end-Stands :
      (r : ℤ)
      → Stands w a e []
      → is_doing e.asc ≡ true
      → Returns (λ v. Stands v a (ended r e) (a ∷ [])) (end r w a)
  unfolding end
  end-Stands r (live, empty) doing =
      rw (live, doing)
        (returns (
          put_self (untime w a) a (some (ended r e)),
          push-alone (put (untime w a) a (some (ended r e))) empty,
        ))

  popped :
      {K : Type 0} (ops : ℕ → Op K) (xs : List ℕ)
      → w.ele a ≡ some e
      → is_efd e.kind || e.io ≡ true
      → e.refc == 0 ≡ false
      → e.detach ≡ false
      → over ops (record w { ready = xs }) a
        ≡ done (some a, put (record w { ready = xs }) a (some (record e { want = 0; asc = none })))
  unfolding over over_last
  popped ops xs live io held out = rw (live, io, self a, held, out) refl

  pub pop-Stands :
      {K : Type 0} (ops : ℕ → Op K) (xs : List ℕ)
      → Stands w a e (a ∷ xs)
      → is_efd e.kind || e.io ≡ true
      → e.refc == 0 ≡ false
      → e.detach ≡ false
      → Returns
          (λ p. (p.0 ≡ some a) × Stands (p.1) a (record e { want = 0; asc = none }) xs)
          (pop_ready ops w)
  unfolding pop_ready
  pop-Stands ops xs (live, first) io held out =
      Returns-at (ap (pop_from ops w) first ∙ popped ops xs live io held out)
        (refl, (put_self (record w { ready = xs }) a _, refl))

  expired :
      {K : Type 0} (ops : ℕ → Op K)
      → w.ele a ≡ some e
      → is_efd e.kind || e.io ≡ false
      → ending_of ops e.asc ≡ none
      → e.refc == 0 ≡ false
      → e.detach ≡ false
      → pop_timer ops w a
        ≡ done (
          some a,
          put
              (put (untime w a) a (some (record e { ret = time })))
              a
              (some (record e { ret = time; want = 0; asc = none })),
        )
  unfolding pop_timer over over_last
  expired ops live io quiet held out = rw (live, self a, io, quiet, self a, held, out) refl

  pub pop_timer-Returns :
      {K : Type 0} (ops : ℕ → Op K)
      → w.ele a ≡ some e
      → is_efd e.kind || e.io ≡ false
      → ending_of ops e.asc ≡ none
      → e.refc == 0 ≡ false
      → e.detach ≡ false
      → Returns
          (λ p.
            (p.0 ≡ some a) × ((p.1).ele a ≡ some (record e { ret = time; want = 0; asc = none })))
          (pop_timer ops w a)
  pop_timer-Returns ops live io quiet held out =
      Returns-at (expired ops live io quiet held out)
        (refl, put_self (put (untime w a) a (some (record e { ret = time }))) a _)
