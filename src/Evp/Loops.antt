-- ===== src/Evp/Loops.antt =====
-- The theorems about queues, readiness and timers of an event loop at concrete ones.
use dpapp.Common.{
  ℕ, zero, suc, ◌≤◌, ◌<◌, ◌≡◌, refl, ap, ◌⊎◌, ◌^◌, inl, inr, Bool, true, false, ◌&&◌, ◌||◌, not,
  Option, none, some, List, [], ◌∷◌, ◌==◌, ==_iff, leb, arith, if◌then◌else◌, Bool-cases,
}
use mathlib.Core.Path.{subst}
use dpapp.Common.Int.{pos}
use dpapp.Common.Outcome.{Outcome, done, fault, Returns, returns}
use dpapp.Mem.{Block}
use dpapp.Aio.Post.{buf_post}
use dpapp.Aio.Post.Moves.{Sound, all_moved, some_moved, none_moved, at_end, buf_post-Sound}
use dpapp.Aio.Examples.{socket, socket-Device}
use dpapp.Aio.{Posted}
use dpapp.Evp.Deque.{Heap, Deque, push_back, pop_front, pushq}
use dpapp.Evp.Deque.Queue.{IsQueue, Popped, deque-IsQueue}
use dpapp.Evp.Ready.{Efd, Out, Post, is_wait, feed, inprogress}
use dpapp.Evp.Ready.Waits.{Advances, Fed, feed-Fed}
use dpapp.Evp.Timer.{upsert, Tree, Timers, expire}
use dpapp.Evp.Timer.Agrees.{Agree}
use dpapp.Evp.Timer.First.{RunsUntil, upsert-Agree, Expired, expire-Expired}

-- Two queues of the elements 1, 2 and 3.
abbrev heap : Heap
heap zero = record { prev = none; next = none }
heap (suc zero) = record { prev = none; next = some 2 }
heap (suc (suc zero)) = record { prev = some 1; next = none }
heap (suc (suc (suc a))) = record { prev = none; next = none }

abbrev one_two : Deque
one_two = record { head = some 1; tail = some 2 }

abbrev three : Deque
three = record { head = some 3; tail = some 3 }

one_two-IsQueue : IsQueue heap one_two (1 ∷ 2 ∷ [])
one_two-IsQueue = record {
  at_head = refl;
  at_tail = refl;
  row = (refl, refl, (refl, refl, tt));
  distinct = ((refl, refl, tt), (tt, tt));
}

three-IsQueue : IsQueue heap three (3 ∷ [])
three-IsQueue = record {
  at_head = refl;
  at_tail = refl;
  row = (refl, refl, tt);
  distinct = (tt, tt);
}

deque-IsQueue_example :
    (let out = push_back heap one_two 4 in IsQueue (out.0) (out.1) (1 ∷ 2 ∷ 4 ∷ []))
    × Popped heap one_two (1 ∷ 2 ∷ []) (pop_front heap one_two)
    × (let out = pushq heap one_two three in
        IsQueue (out.0) (out.1) (1 ∷ 2 ∷ 3 ∷ []) × IsQueue (out.0) (out.2) [])
deque-IsQueue_example =
    deque-IsQueue heap one_two three (1 ∷ 2 ∷ []) (3 ∷ []) 4 one_two-IsQueue three-IsQueue
      ((refl, refl, tt), ((refl, refl, tt), tt)) (refl, refl) (refl, refl, (refl, refl, tt))

-- `_dpaio_buf_post` of a read of two bytes from a socket, with what it makes of `out`.
abbrev answered : {K : Type 0} → Out → K → Outcome (Posted K) → Post K
answered out k fault = record { ret = pos 0; out = out; system = k }
answered out k (done p) = record {
  ret = p.ret;
  out = record out { inva = if p.inva then out.want else out.inva };
  system = p.system;
}

read_two : Out → List Block → Post (List Block)
read_two out k = answered out k (buf_post (socket 2) 2 2 [] k)

-- It withdraws what it waits for.
abbrev Withdrawn : {K : Type 0} → Post K → Type 0
Withdrawn p = (p.out.inva ≡ p.out.want) × (0 < p.out.want) × (p.out.want < 2 ^ 5)

posted-Withdrawn :
    (out : Out) (k : List Block) {p : Posted (List Block)}
    → Sound 2 (λ xs. Unit {0}) p
    → out.want ≡ 1
    → is_wait ((answered out k (done p)).ret) ≡ true
    → Withdrawn (answered out k (done p))
posted-Withdrawn out k (all_moved l r) e w = absurd (ground (arith, w))
posted-Withdrawn out k (some_moved s l r) e w = absurd (ground (arith, w))
posted-Withdrawn out k (none_moved n) e w = (refl, omega (arith, e), omega (arith, e))
posted-Withdrawn out k (at_end l r) e w = (refl, omega (arith, e), omega (arith, e))

returned-Withdrawn :
    (out : Out) (k : List Block) {m : Outcome (Posted (List Block))}
    → Returns (Sound 2 (λ xs. Unit {0})) m
    → out.want ≡ 1
    → is_wait ((answered out k m).ret) ≡ true
    → Withdrawn (answered out k m)
returned-Withdrawn out k (returns h) e w = posted-Withdrawn out k h e w

read_two-Advances : Advances (λ n. n ≡ 1) read_two (λ k. 0)
unfolding read_two
read_two-Advances = record {
  goes_on = λ out k e w.
      inr (returned-Withdrawn out k (buf_post-Sound (socket-Device 2) k (omega arith) tt) e w);
}

abbrev reading : Efd
reading = record { able = 0; want = 1; doing = true; ret = inprogress }

feed-Fed_example : Returns Fed (feed read_two 2 reading 1 ([] ∷ (5 ∷ []) ∷ []))
feed-Fed_example = feed-Fed read_two-Advances reading 1 ([] ∷ (5 ∷ []) ∷ []) refl refl

-- A tree as a list of its keys.
abbrev Keys : Type 0
Keys = List (ℕ × ℕ)

abbrev is_key : ℕ × ℕ → ℕ → ℕ → Bool
is_key (e, a) e' a' = (e == e') && (a == a')

has : Keys → ℕ → ℕ → Bool
has [] e a = false
has (k ∷ ks) e a = is_key k e a || has ks e a

remove : Keys → ℕ → ℕ → Keys
remove [] e a = []
remove ((e', a') ∷ ks) e a =
    let rest = remove ks e a in if is_key (e, a) e' a' then rest else (e', a') ∷ rest

earlier : ℕ × ℕ → Option (ℕ × ℕ) → ℕ × ℕ
earlier k none = k
earlier (e, a) (some (e', a')) = if leb e e' then (e, a) else (e', a')

least : Keys → Option (ℕ × ℕ)
least [] = none
least (k ∷ ks) = some (earlier k (least ks))

has-remove :
    (ks : Keys) (e a e' a' : ℕ)
    → has (remove ks e a) e' a' ≡ not (is_key (e, a) e' a') && has ks e' a'
unfolding has remove
has-remove [] e a e' a' = ground arith
has-remove ((e1, a1) ∷ ks) e a e' a' =
    let i = has-remove ks e a e' a' in
    elim (Bool-cases (is_key (e, a) e1 a1)) [
      | inl h ↦ rw h (ground (arith, i, h))
      | inr h ↦ rw h (ground (arith, i, h))
    ]

earlier-none : (k : ℕ × ℕ) → earlier k none ≡ k
unfolding earlier
earlier-none k = refl

-- The earlier of two keys is one of them, and not later than either.
earlier_cases :
    (k j : ℕ × ℕ)
    → ((earlier k (some j) ≡ k) × (k.0 ≤ j.0)) ⊎ ((earlier k (some j) ≡ j) × (j.0 ≤ k.0))
unfolding earlier
earlier_cases (e, a) (e', a') = elim (Bool-cases (leb e e')) [
  | inl h ↦ rw h (inl (refl, ground (arith, h)))
  | inr h ↦ rw h (inr (refl, ground (arith, h)))
]

has_first : (k : ℕ × ℕ) (ks : Keys) → has (k ∷ ks) (k.0) (k.1) ≡ true
unfolding has
has_first (e, a) ks = ground arith

has_later : (k : ℕ × ℕ) (ks : Keys) (e a : ℕ) → has ks e a ≡ true → has (k ∷ ks) e a ≡ true
unfolding has
has_later (e1, a1) ks e a h = ground arith

earlier-has :
    (k : ℕ × ℕ) (ks : Keys) → let f = earlier k (least ks) in has (k ∷ ks) (f.0) (f.1) ≡ true
unfolding least
earlier-has k [] = rw (earlier-none k) (has_first k [])
earlier-has k (j ∷ ks) =
    let f = earlier j (least ks) in
    elim (earlier_cases k f) [
      | inl (e, le) ↦ rw e (has_first k (j ∷ ks))
      | inr (e, le) ↦ rw e (has_later k (j ∷ ks) (f.0) (f.1) (earlier-has j ks))
    ]

has-nil : (e a : ℕ) → ¬ (has [] e a ≡ true)
unfolding has
has-nil e a h = cc

has-split :
    (k : ℕ × ℕ) (ks : Keys) (e a : ℕ) → has (k ∷ ks) e a ≡ true → (k.0 ≡ e) ⊎ (has ks e a ≡ true)
unfolding has
has-split (e1, a1) ks e a h = elim (Bool-cases (e1 == e)) [
  | inl s ↦ inl ((==_iff e1 e).0 s)
  | inr s ↦ inr (ground (arith, h, s))
]

earlier-le :
    (k : ℕ × ℕ) (ks : Keys) (e a : ℕ) → has (k ∷ ks) e a ≡ true → (earlier k (least ks)).0 ≤ e
unfolding least
earlier-le k [] e a h =
    rw (earlier-none k)
      (elim (has-split k [] e a h) [ inl s ↦ omega (arith, s) | inr s ↦ absurd (has-nil e a s) ])
earlier-le k (j ∷ ks) e a h =
    let f = earlier j (least ks) in
    let bound : (k.0 ≡ e) ⊎ (f.0 ≤ e) = elim (has-split k (j ∷ ks) e a h) [
      | inl s ↦ inl s
      | inr s ↦ inr (earlier-le j ks e a s)
    ] in
    elim (earlier_cases k f) [
      | inl (p, le) ↦ elim bound [
        | inl s ↦ omega (arith, s, ap (λ z. z.0) p)
        | inr s ↦ omega (arith, s, le, ap (λ z. z.0) p)
      ]
      | inr (p, le) ↦ elim bound [
        | inl s ↦ omega (arith, s, le, ap (λ z. z.0) p)
        | inr s ↦ omega (arith, s, ap (λ z. z.0) p)
      ]
    ]

has-cons : (t : Keys) (e a e' a' : ℕ) → has ((e, a) ∷ t) e' a' ≡ is_key (e, a) e' a' || has t e' a'
unfolding has
has-cons t e a e' a' = refl

abbrev key_or : ℕ × ℕ → Option (ℕ × ℕ) → ℕ × ℕ
key_or k none = k
key_or k (some j) = j

least-has : (t : Keys) (e a : ℕ) → least t ≡ some (e, a) → has t e a ≡ true
unfolding least
least-has [] e a h = cc
least-has (k ∷ ks) e a h =
    subst (λ z. has (k ∷ ks) (z.0) (z.1) ≡ true) (ap (key_or k) h) (earlier-has k ks)

least-le : (t : Keys) (e a e' a' : ℕ) → least t ≡ some (e, a) → has t e' a' ≡ true → e ≤ e'
unfolding least
least-le [] e a e' a' h m = cc
least-le (k ∷ ks) e a e' a' h m = omega (arith, ap (λ z. (key_or k z).0) h, earlier-le k ks e' a' m)

least-none : (t : Keys) (e a : ℕ) → least t ≡ none → has t e a ≡ false
unfolding least has
least-none [] e a h = refl
least-none (k ∷ ks) e a h = cc

keys : Tree Keys
keys = record {
  has = has;
  insert = λ t e a. (e, a) ∷ t;
  remove = remove;
  least = least;
  has-insert = has-cons;
  has-remove = has-remove;
  least-has = least-has;
  least-le = least-le;
  least-none = least-none;
}

-- The timers of the elements 1 and 2, at 50 and 30.
abbrev timers : Timers Keys
timers = record {
  tree = (50, 1) ∷ (30, 2) ∷ [];
  ele = λ a. record {
    after = some (pos 20);
    expire = if a == 1 then 50 else 30;
    timing = (a == 1) || (a == 2);
  };
}

timers-Agree : Agree keys timers
unfolding keys has
timers-Agree = record {
  at = λ b. record { runs = λ e h. ground (arith, h); kept = λ h. ground (arith, h) };
}

expire-Expired_example : Expired keys 40 timers (expire keys 40 timers)
expire-Expired_example = expire-Expired keys 40 timers timers-Agree λ b t. ground arith

upsert-Agree_example :
    let out = upsert keys 40 timers 1 in
    (out.0 ≡ pos 0) × Agree keys (out.1) × RunsUntil (out.1) 1 60
upsert-Agree_example = upsert-Agree keys 40 20 timers 1 timers-Agree refl
