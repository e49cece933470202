-- ===== src/Evp/Element/Add.antt =====
-- `dpevp_addv` keeps an event loop sound.
use dpapp.Common.{
  ℕ, suc, ◌<◌, ◌≡◌, refl, sym, ◌∙◌, Bool, true, false, ◌&&◌, ◌||◌, not, some, ◌==◌, ltb, arith,
  Bool-cases, ◌⊎◌, inl, inr,
}
use mathlib.Core.Path.{subst}
use dpapp.Common.Int.{ℤ, pos, negsuc}
use dpapp.Common.Outcome.{Returns, returns, Returns-bind}
use dpapp.Aio.{wait}
use dpapp.Evp.Ready.{Efd, Out, inprogress, is_wait}
use dpapp.Evp.Ready.Waits.{Progress, Settled}
use dpapp.Evp.Ready.Able.{wake-Settled_small}
use dpapp.Evp.Element.{
  World, Ele, Op, count, has, is_doing, is_ok, is_efd, is_continue, put, push_ready, time_if,
  with_efd, efd_of, finish_add, start, prepared, add,
}
use dpapp.Evp.Element.Sound.{
  IsSound, fit, self, change-IsSound, live-fit, put-IsSound, view-put, view-push_ready,
  view-time_if,
}
use dpapp.Evp.Element.Calls.{view-pushed}

-- The element goes on waiting, or it has ended, and then no timer holds it and it waits for no event.
abbrev Ends : ℤ → Bool → ℕ → Type 0
Ends r timing want = (is_wait r ≡ true) ⊎ ((is_wait r ≡ false) × (timing ≡ false) × (want ≡ 0))

wait-ok : (r : ℤ) → is_wait r ≡ true → is_ok r ≡ false
wait-ok (pos n) h = absurd (ground (arith, h))
wait-ok (negsuc n) h = ground arith

-- An element with an operation under way.
abbrev under_way : Ele → Bool
under_way e = ltb e.able 32 && (is_efd e.kind || e.want == 0) && is_doing e.asc && not (e.refc == 0)

module _ (w : World) (a : ℕ) (e : Ele) (s : IsSound w) (f : under_way e ≡ true)
    (c : count a w.ready ≡ 0) where
  pushed-IsSound :
      (r : ℤ)
      → has a w.timers ≡ false
      → e.want ≡ 0
      → IsSound (push_ready (put w a (some (record e { ret = r }))) a)
  pushed-IsSound r out want =
      let u = put w a (some (record e { ret = r })) in
      change-IsSound w (push_ready u a) a s (λ b h. view-push_ready u a b h ∙ view-put w a _ b h)
        (view-pushed u a (record e { ret = r }) (rw (self a) refl) (ground (arith, f, c))
          (ground (arith, f)) want out)

  timed-IsSound : (r : ℤ) → IsSound (time_if e.after (put w a (some (record e { ret = r }))) a)
  timed-IsSound r =
      let u = put w a (some (record e { ret = r })) in
      change-IsSound w (time_if e.after u a) a s
        (λ b h. view-time_if e.after u a b h ∙ view-put w a _ b h)
        (elim (Bool-cases (e.after && not (has a w.timers))) [
          | inl h ↦ rw (h, self a, c) (ground (arith, f))
          | inr h ↦ rw (h, self a, c) (ground (arith, f))
        ])

  finish_add-IsSound : (r : ℤ) → Ends r (has a w.timers) e.want → IsSound ((finish_add r w a e).1)
  unfolding finish_add
  finish_add-IsSound r (inl h) = rw (wait-ok r h, h) (timed-IsSound inprogress)
  finish_add-IsSound r (inr (h, out, want)) = elim (Bool-cases (is_ok r)) [
    | inl k ↦ rw k (pushed-IsSound r out want)
    | inr k ↦ rw (k, h) (put-IsSound w a _ s (ground (arith, f, c, out, want)))
  ]

-- The table of operations, each of whose `post` comes to an end within its fuel.
abbrev pub IsOrderly : {K : Type 0} → Op K → Type 0
IsOrderly {K} op =
    (left : K → ℕ) × Progress op.post left × ((k : K) → op.fuel k ≡ suc (suc (left k)))

-- No timer holds a descriptor.
idle : {x y : Bool} → x ≡ true → (y ≡ false) ⊎ (x ≡ false) → y ≡ false
idle h (inl t) = t
idle h (inr t) = absurd (ground (arith, h, t))

Settled-Ends : {K : Type 0} (r : ℤ × Efd × K) → Settled r → Ends (r.0) false ((r.1).want)
Settled-Ends (r, f, k) (inl (h, e)) = inl h
Settled-Ends (r, f, k) (inr (h, e)) = inr (h, refl, e)

module _ {K : Type 0} (op : Op K) (orderly : IsOrderly op) (w : World) (a : ℕ) (s : IsSound w) where
  start-IsSound :
      (out : Out) (k : K) (e : Ele)
      → under_way e ≡ true
      → count a w.ready ≡ 0
      → (has a w.timers ≡ false) ⊎ (is_efd e.kind ≡ false)
      → Returns (λ p. IsSound (p.1)) (start op out k w a e)
  unfolding start
  start-IsSound out k e f c t = elim (Bool-cases (is_efd e.kind)) [
    | inr h ↦ rw h (returns (finish_add-IsSound w a e s f c wait (inl refl)))
    | inl h ↦
        let (left, progress, enough) = orderly in
        rw (h, enough k)
          (Returns-bind (wake-Settled_small progress (efd_of e) out k (ground (arith, f))) λ r p.
            returns (
              finish_add-IsSound w a (with_efd e (r.1)) s (ground (arith, f, h, p.1)) c (r.0) (
                subst (λ (t : Bool). Ends (r.0) t ((r.1).want)) (sym (idle h t))
                  (Settled-Ends r (p.0)))))
  ]

  -- The element before the call, with a reference, and what is asked of a new operation on an element
  -- that has one already: it is no descriptor, it is not in the queue, and `prep` succeeds.
  module _ (i : ℕ) (k : K) (e : Ele) (live : w.ele a ≡ some e) (held : 0 < e.refc) where
    abbrev fresh : Ele
    fresh = record e { asc = some i; after = (op.prep k).after }

    fits : fit (some e) (count a w.ready) (has a w.timers) ≡ true
    fits = live-fit w a e s live

    prepared_idle :
        is_doing e.asc ≡ false → Returns (λ p. IsSound (p.1)) (prepared op i k w a e (op.prep k))
    prepared_idle h =
        let f : under_way fresh ≡ true = ground (arith, fits, held) in
        let c : count a w.ready ≡ 0 = ground (arith, fits, h) in
        let t : has a w.timers ≡ false = ground (arith, fits, h) in
        let want : e.want ≡ 0 = ground (arith, fits, h) in
        elim (Bool-cases (is_continue ((op.prep k).ret))) [
          | inl go ↦ rw go (start-IsSound ((op.prep k).out) k fresh f c (inl t))
          | inr go ↦ rw go (
              returns (
                finish_add-IsSound w a fresh s f c ((op.prep k).ret)
                  (elim (Bool-cases (is_wait ((op.prep k).ret))) [
                    | inl y ↦ inl y
                    | inr n ↦ inr (n, t, want)
                  ])))
        ]

    prepared_again :
        is_efd e.kind ≡ false
        → count a w.ready ≡ 0
        → is_continue ((op.prep k).ret) ≡ true
        → Returns (λ p. IsSound (p.1)) (prepared op i k w a e (op.prep k))
    prepared_again h c go =
        rw go (start-IsSound ((op.prep k).out) k fresh (ground (arith, fits, held)) c (inr h))

    pub add-IsSound :
        (is_doing e.asc && op.allow_doing ≡ false)
          ⊎ ((is_efd e.kind ≡ false)
              × (count a w.ready ≡ 0)
              × (is_continue ((op.prep k).ret) ≡ true))
        → Returns (λ p. IsSound (p.1)) (add op i k w a)
    unfolding add
    add-IsSound again = elim (Bool-cases (op.accepts e.kind)) [
      | inr n ↦ rw (live, n) (returns s)
      | inl y ↦ elim (Bool-cases (is_doing e.asc && not op.allow_doing)) [
        | inl d ↦ rw (live, y, d) (returns s)
        | inr d ↦
            rw (live, y, d)
              (elim again [
                | inl f ↦ prepared_idle (ground (arith, d, f))
                | inr (h, c, go) ↦ prepared_again h c go
              ])
      ]
    ]
