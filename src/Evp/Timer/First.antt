-- ===== src/Evp/Timer/First.antt =====
-- What the operations on the timers do where tree and elements agree.
use dpapp.Common.{
  ℕ, ◌+◌, ◌-◌, ◌^◌, ◌%◌, ◌≤◌, ◌<◌, ◌≡◌, refl, inl, inr, Bool, true, false, Option, none, some, ◌==◌,
  ltb, ltb→lt, arith, if◌then◌else◌, Bool-cases,
}
use mathlib.Core.Path.{subst}
use dpapp.Common.Int.{ℤ, pos, negsuc}
use dpapp.Aio.Prep.{int_of}
use dpapp.Evp.Timer.{
  Tree, Timers, set_ele, timed, untimed, upsert_at, upsert, remove, wait_for, expire_least, expire,
}
use dpapp.Evp.Timer.Agrees.{
  Agree, absent-AgreeAt, insert-AgreeAt, insert-other, remove-other, remove-absent, none-AgreeAt,
  set-Agree,
}

-- The timer of the element at `a` runs until `e`.
abbrev pub RunsUntil : {T : Type 0} → Timers T → ℕ → ℕ → Type 0
RunsUntil s a e = ((s.ele a).timing ≡ true) × ((s.ele a).expire ≡ e)

module _ {T : Type 0} (ops : Tree T) where
  upsert_at-Agree :
      (s : Timers T) (a e : ℕ) (running twice : Bool)
      → Agree ops s
      → (s.ele a).timing ≡ running
      → ops.has s.tree e a ≡ twice
      → let out = upsert_at ops running twice s a e in
        (out.0 ≡ pos 0) × Agree ops (out.1) × RunsUntil (out.1) a e
  upsert_at-Agree s a e true twice g t h =
      let gone = ops.remove s.tree ((s.ele a).expire) a in
      (
        refl,
        set-Agree ops (ops.insert gone e a) s.ele a (timed (s.ele a) e)
            (insert-AgreeAt ops gone (s.ele a) e a
              λ e'. remove-absent ops s.tree (s.ele a) a e' (g.at a))
            (λ b other.
              insert-other ops gone (s.ele b) e a b other
                (remove-other ops s.tree (s.ele b) ((s.ele a).expire) a b other (g.at b))),
        let same : (a == a) ≡ true = ground arith in rw same (refl, refl),
      )
  upsert_at-Agree s a e false true g t h =
      absurd (cc (h, absent-AgreeAt ops s.tree (s.ele a) a t (g.at a) e))
  upsert_at-Agree s a e false false g t h = (
    refl,
    set-Agree ops (ops.insert s.tree e a) s.ele a (timed (s.ele a) e)
        (insert-AgreeAt ops s.tree (s.ele a) e a (absent-AgreeAt ops s.tree (s.ele a) a t (g.at a)))
        (λ b other. insert-other ops s.tree (s.ele b) e a b other (g.at b)),
    let same : (a == a) ≡ true = ground arith in rw same (refl, refl),
  )

  -- _dptmrset_upsert of an element with a timeout of ms, where the tree has just the running
  -- timers at their times: it succeeds, whether the timer ran already or not, the timer then runs
  -- until now + ms, and the tree again has just the running timers at their times.
  pub upsert-Agree :
      (now ms : ℕ) (s : Timers T) (a : ℕ)
      → Agree ops s
      → (s.ele a).after ≡ some (pos ms)
      → let out = upsert ops now s a in
        (out.0 ≡ pos 0) × Agree ops (out.1) × RunsUntil (out.1) a (now + ms)
  unfolding upsert
  upsert-Agree now ms s a g h =
      rw h (
        upsert_at-Agree s a (now + ms) ((s.ele a).timing) (ops.has s.tree (now + ms) a) g refl refl)

  gone-Agree :
      (s : Timers T) (a : ℕ)
      → Agree ops s
      → Agree ops record {
        tree = ops.remove s.tree ((s.ele a).expire) a;
        ele = set_ele s.ele a (untimed (s.ele a));
      }
  gone-Agree s a g =
      let gone = ops.remove s.tree ((s.ele a).expire) a in
      set-Agree ops gone s.ele a (untimed (s.ele a))
        (none-AgreeAt ops gone (s.ele a) a λ e. remove-absent ops s.tree (s.ele a) a e (g.at a))
        (λ b other. remove-other ops s.tree (s.ele b) ((s.ele a).expire) a b other (g.at b))

  pub remove-Agree : (s : Timers T) (a : ℕ) → Agree ops s → Agree ops (remove ops s a)
  unfolding remove
  remove-Agree s a g = elim (Bool-cases ((s.ele a).timing)) [
    | inl t ↦ rw t (gone-Agree s a g)
    | inr t ↦ rw t g
  ]

-- No timer runs, and the wait is for ever; or none has come to its time, and the wait is over
-- before the first does; or the timer of `a` has, before all others, and is taken.
pub data Expired {T : Type 0} (ops : Tree T) (now : ℕ) (s : Timers T)
    : Option ℕ × ℤ × Timers T → Type 0 where
  nothing : ((b : ℕ) → (s.ele b).timing ≡ false) → Expired ops now s (none, negsuc 0, s)
  not_yet :
      (w : ℕ)
      → 0 < w
      → ((b : ℕ) → (s.ele b).timing ≡ true → now + w ≤ (s.ele b).expire)
      → Expired ops now s (none, pos w, s)
  due :
      (a : ℕ) {s' : Timers T}
      → (s.ele a).timing ≡ true
      → (s.ele a).expire ≤ now
      → ((b : ℕ) → (s.ele b).timing ≡ true → (s.ele a).expire ≤ (s.ele b).expire)
      → Agree ops s'
      → (s'.ele a).timing ≡ false
      → Expired ops now s (some a, pos 0, s')

int_of-pos : (n : ℕ) → n < 2 ^ 31 → int_of n ≡ pos n
int_of-pos n h = let m : n % 2 ^ 32 ≡ n = omega arith in ground arith

wait_bounds :
    (e now : ℕ)
    → now < e
    → let w = if ltb (now + 11) e then e - now - 10 else 1 in (0 < w) × (now + w ≤ e)
wait_bounds e now h = ground arith

module _ {T : Type 0} (ops : Tree T) (now : ℕ) (s : Timers T) (g : Agree ops s)
    (near : (b : ℕ) → (s.ele b).timing ≡ true → (s.ele b).expire < now + 2 ^ 31) where
  due-Expired :
      (e a : ℕ)
      → ops.least s.tree ≡ some (e, a)
      → RunsUntil s a e
      → e ≤ now
      → Expired ops now s (
        some a,
        pos 0,
        record { tree = ops.remove s.tree e a; ele = set_ele s.ele a (untimed (s.ele a)) },
      )
  due-Expired e a l r h =
      due a r.0 (omega (arith, r.1))
        (λ b t.
          omega (arith, r.1, ops.least-le s.tree e a ((s.ele b).expire) b l ((g.at b).kept t)))
        (subst
          (λ (e : ℕ).
            Agree ops
              record { tree = ops.remove s.tree e a; ele = set_ele s.ele a (untimed (s.ele a)) })
          r.1 (gone-Agree ops s a g))
        (let same : (a == a) ≡ true = ground arith in rw same refl)

  later-Expired :
      (e a : ℕ)
      → ops.least s.tree ≡ some (e, a)
      → now < e
      → Expired ops now s (none, wait_for e now, s)
  later-Expired e a l h =
      let r = (g.at a).runs e (ops.least-has s.tree e a l) in
      let w = if ltb (now + 11) e then e - now - 10 else 1 in
      let bounds = wait_bounds e now h in
      rw (int_of-pos w (omega (arith, bounds, r.1, near a r.0))) (
        not_yet w bounds.0 λ b t.
          omega (arith, bounds, ops.least-le s.tree e a ((s.ele b).expire) b l ((g.at b).kept t)))

  least-Expired :
      (first : Option (ℕ × ℕ))
      → ops.least s.tree ≡ first
      → Expired ops now s (expire_least ops now s first)
  least-Expired none l = nothing λ b. elim (Bool-cases ((s.ele b).timing)) [
    | inl t ↦ absurd (cc ((g.at b).kept t, ops.least-none s.tree ((s.ele b).expire) b l))
    | inr f ↦ f
  ]
  least-Expired (some (e, a)) l = elim (Bool-cases (ltb now e)) [
    | inl later ↦ rw later (later-Expired e a l (ltb→lt now e later))
    | inr here ↦
        rw here
          (due-Expired e a l ((g.at a).runs e (ops.least-has s.tree e a l)) (ground (arith, here)))
  ]

  -- Dptmrset_expire where the tree and the elements agree and all times lie less than 2^31 ms
  -- ahead: if no timer runs it answers none and a wait without end; if none has come to its time
  -- it answers none and a positive wait that is over before the first one's time; else it takes
  -- the one with the least time of all, which is not later than now, and tree and elements agree
  -- again.
  pub expire-Expired : Expired ops now s (expire ops now s)
  unfolding expire
  expire-Expired = least-Expired (ops.least s.tree) refl
