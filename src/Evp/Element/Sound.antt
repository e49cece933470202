-- ===== src/Evp/Element/Sound.antt =====
-- When the elements of an event loop, its queue and its timers agree, and what keeps them so.
use dpapp.Common.{
  ℕ, suc, ◌≡◌, refl, sym, ap, ◌∙◌, Bool, true, false, ◌&&◌, ◌||◌, not, Option, none, some, List, [],
  ◌∷◌, ◌++◌, ◌==◌, ==_iff, ltb, arith, if◌then◌else◌, Bool-cases, inl, inr,
}
use dpapp.Evp.Element.{
  World, Ele, count, has, without_ele, is_doing, is_efd, put, push_ready, untime, time_if,
}

-- What is right for an address that the queue holds so often and the timers hold or not. A freed
-- element is in neither. An operation under way may wait for a timer, or has ended and is in the queue
-- once. An element without one is in neither and has a reference. Only a descriptor waits for events.
abbrev pub fit : Option Ele → ℕ → Bool → Bool
fit none r t = r == 0 && not t
fit (some e) r t =
    ltb e.able 32
    && (is_efd e.kind || e.want == 0)
    && (if is_doing e.asc
        then r == 0 || (r == 1 && e.want == 0 && not t)
        else r == 0 && not t && e.want == 0 && not (e.refc == 0))

abbrev pub view : World → ℕ → Bool
view w a = fit (w.ele a) (count a w.ready) (has a w.timers)

abbrev pub IsSound : World → Type 0
IsSound w = (a : ℕ) → view w a ≡ true

pub self : (a : ℕ) → (a == a) ≡ true
self a = (==_iff a a).1 refl

pub count_self : (a : ℕ) (xs : List ℕ) → count a (a ∷ xs) ≡ suc (count a xs)
count_self a xs = rw (self a)

pub count-behind : (b a : ℕ) (xs : List ℕ) → count b (xs ++ (a ∷ [])) ≡ count b (a ∷ xs)
count-behind b a [] = refl
count-behind b a (x ∷ xs) =
    rw (count-behind b a xs)
      elim (Bool-cases (b == x)) [ inl h ↦ rw h (ground arith) | inr h ↦ rw h (ground arith) ]

pub count-without_self : (a : ℕ) (xs : List ℕ) → count a (without_ele a xs) ≡ 0
count-without_self a [] = refl
count-without_self a (x ∷ xs) = elim (Bool-cases (a == x)) [
  | inl h ↦ rw h (count-without_self a xs)
  | inr h ↦ rw h (rw h (count-without_self a xs))
]

count-without_other :
    (b a : ℕ) (xs : List ℕ) → (b == a) ≡ false → count b (without_ele a xs) ≡ count b xs
count-without_other b a [] h = refl
count-without_other b a (x ∷ xs) h =
    let i = count-without_other b a xs h in
    elim (Bool-cases (a == x)) [
      | inl e ↦
          let d : (b == x) ≡ false = ap (λ (z : ℕ). b == z) (sym ((==_iff a x).0 e)) ∙ h in
          rw (e, d, i)
      | inr e ↦ rw (e, i)
    ]

-- A change of the element `a` alone, and of how the queue and the timers hold `a`.
pub change-IsSound :
    (w w' : World) (a : ℕ)
    → IsSound w
    → ((b : ℕ) → (b == a) ≡ false → view w' b ≡ view w b)
    → view w' a ≡ true
    → IsSound w'
change-IsSound w w' a s other here b = elim (Bool-cases (b == a)) [
  | inl h ↦ ap (view w') ((==_iff b a).0 h) ∙ here
  | inr h ↦ other b h ∙ s b
]

-- `put`, `push_ready`, `untime` and `time_if` leave the other addresses as they are.
pub view-put :
    (w : World) (a : ℕ) (o : Option Ele) (b : ℕ) → (b == a) ≡ false → view (put w a o) b ≡ view w b
view-put w a o b h = rw h

pub view-push_ready : (w : World) (a b : ℕ) → (b == a) ≡ false → view (push_ready w a) b ≡ view w b
view-push_ready w a b h = elim (Bool-cases (has a w.ready)) [
  | inl e ↦ rw e
  | inr e ↦ rw (e, count-behind b a w.ready, h)
]

pub view-untime : (w : World) (a b : ℕ) → (b == a) ≡ false → view (untime w a) b ≡ view w b
view-untime w a b h = rw (count-without_other b a w.timers h)

pub view-time_if :
    (after : Bool) (w : World) (a b : ℕ) → (b == a) ≡ false → view (time_if after w a) b ≡ view w b
view-time_if after w a b h = elim (Bool-cases (after && not (has a w.timers))) [
  | inl e ↦ rw (e, h)
  | inr e ↦ rw e
]

-- What holds of a live element.
pub live-fit :
    (w : World) (a : ℕ) (e : Ele)
    → IsSound w
    → w.ele a ≡ some e
    → fit (some e) (count a w.ready) (has a w.timers) ≡ true
live-fit w a e s live =
    ap (λ (o : Option Ele). fit o (count a w.ready) (has a w.timers)) (sym live) ∙ s a

pub put_self : (w : World) (a : ℕ) (o : Option Ele) → (put w a o).ele a ≡ o
put_self w a o = rw (self a)

-- An element changes while the queue and the timers stay.
pub put-IsSound :
    (w : World) (a : ℕ) (o : Option Ele)
    → IsSound w
    → fit o (count a w.ready) (has a w.timers) ≡ true
    → IsSound (put w a o)
put-IsSound w a o s here =
    change-IsSound w (put w a o) a s (view-put w a o)
      (ap (λ (x : Option Ele). fit x (count a w.ready) (has a w.timers)) (put_self w a o) ∙ here)
