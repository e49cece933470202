-- ===== src/Evp/Element/Calls.antt =====
-- What the calls of a user do to a sound event loop.
use dpapp.Common.{
  ℕ, ◌+◌, ◌^◌, ◌<◌, ◌≡◌, refl, ◌∙◌, Bool, true, false, ◌&&◌, not, Option, some, ◌==◌, arith,
  Bool-cases, inl, inr,
}
use dpapp.Common.Int.{ℤ}
use dpapp.Common.Outcome.{Returns, returns}
use dpapp.Evp.Element.{
  World, Ele, count, has, is_doing, put, push_ready, untime, ref, del, set_detach, await, end,
  ended,
}
use dpapp.Evp.Element.Sound.{
  IsSound, view, fit, self, count-without_self, count-behind, count_self, change-IsSound, live-fit,
  put-IsSound, view-put, view-push_ready, view-untime,
}

module _ (w : World) (a : ℕ) (e : Ele) (s : IsSound w) (live : w.ele a ≡ some e) where
  pub ref-IsSound : e.refc + 1 < 2 ^ 32 → Returns IsSound (ref w a)
  unfolding ref
  ref-IsSound h = rw live (returns (put-IsSound w a _ s (ground (arith, live-fit w a e s live))))

  pub del-IsSound : 0 < e.refc → e.refc < 2 ^ 32 → Returns IsSound (del w a)
  unfolding del
  del-IsSound h k = elim (Bool-cases (e.refc == 1 && not (is_doing e.asc))) [
    | inl c ↦ rw (live, c) (returns (put-IsSound w a _ s (ground (arith, live-fit w a e s live))))
    | inr c ↦ rw (live, c) (returns (put-IsSound w a _ s (ground (arith, live-fit w a e s live))))
  ]

  pub set_detach-IsSound : (d : Bool) → Returns (λ p. IsSound (p.1)) (set_detach d w a)
  unfolding set_detach
  set_detach-IsSound d = elim (Bool-cases (is_doing e.asc)) [
    | inl c ↦ rw (live, c) (returns s)
    | inr c ↦ rw (live, c) (returns (put-IsSound w a _ s (live-fit w a e s live)))
  ]

  pub await-IsSound : (cop : Option ℕ) → Returns (λ p. IsSound (p.1)) (await cop w a)
  unfolding await
  await-IsSound cop = elim (Bool-cases (is_doing e.asc && not e.detach)) [
    | inl c ↦ rw (live, c) (returns (put-IsSound w a _ s (live-fit w a e s live)))
    | inr c ↦ rw (live, c) (returns s)
  ]

-- An element whose operation has ended goes to the queue.
pub view-pushed :
    (w : World) (a : ℕ) (e : Ele)
    → w.ele a ≡ some e
    → fit (some e) (count a w.ready) false ≡ true
    → is_doing e.asc ≡ true
    → e.want ≡ 0
    → has a w.timers ≡ false
    → view (push_ready w a) a ≡ true
view-pushed w a e live f doing want out = elim (Bool-cases (has a w.ready)) [
  | inl h ↦ rw (h, live, out) f
  | inr h ↦
      rw (h, live, out, count-behind a a w.ready, count_self a w.ready)
        (ground (arith, f, h, want, doing))
]

module _ (w : World) (a : ℕ) (e : Ele) (s : IsSound w) (live : w.ele a ≡ some e) where
  end_push-IsSound :
      (r : ℤ)
      → is_doing e.asc ≡ true
      → IsSound (push_ready (put (untime w a) a (some (ended r e))) a)
  end_push-IsSound r doing =
      let u = put (untime w a) a (some (ended r e)) in
      change-IsSound w (push_ready u a) a s
        (λ b h. view-push_ready u a b h ∙ view-put (untime w a) a _ b h ∙ view-untime w a b h)
        (view-pushed u a (ended r e) (rw (self a) refl)
          (ground (arith, live-fit w a e s live, doing)) doing
          (ground (arith, live-fit w a e s live)) (rw (count-without_self a w.timers) refl))

  pub end-IsSound : (r : ℤ) → Returns IsSound (end r w a)
  unfolding end
  end-IsSound r = elim (Bool-cases (is_doing e.asc)) [
    | inl c ↦ rw (live, c) (returns (end_push-IsSound r c))
    | inr c ↦ rw (live, c) (returns s)
  ]
