-- ===== src/Evp/Ready/Able.antt =====
-- The events that a descriptor holds stay in their five bits.
use dpapp.Common.{
  ℕ, zero, suc, ◌<◌, ◌≡◌, refl, inl, inr, true, false, not, ◌||◌, bit_or, ◌==◌, arith, Bool-cases,
}
use dpapp.Common.Int.{ℤ, pos, ltb_ℤ}
use dpapp.Common.Outcome.{Outcome, done, fault, Returns, returns, Returns-bind}
use dpapp.Evp.Ready.{
  Efd, Out, Post, meets, is_wait, get_err, wake_round, wake_loop, wake, feed, fed, five_bits,
}
use dpapp.Evp.Ready.Waits.{Progress, Settled, wake-Settled}

-- If the run ends, the events that are there fit.
abbrev Small : {K : Type 0} → Outcome (ℤ × Efd × K) → Type 0
Small (done r) = (r.1).able < 32
Small fault = true ≡ true

round-Small :
    {K : Type 0} (again : Efd → Out → K → Outcome (ℤ × Efd × K)) (efd : Efd) (p : Post K)
    → efd.able < 32
    → ((efd' : Efd) (out : Out) (k : K) → efd'.able < 32 → Small (again efd' out k))
    → Small (wake_round again efd p)
round-Small again efd p h next = elim (Bool-cases (is_wait p.ret)) [
  | inl e ↦ rw e (next _ _ _ (omega arith))
  | inr e ↦ rw e (omega arith)
]

module _ {K : Type 0} (post : Out → K → Post K) where
  wake_loop-Small :
      (fuel : ℕ) (efd : Efd) (out : Out) (k : K)
      → efd.able < 32
      → Small (wake_loop post fuel efd out k)
  unfolding wake_loop
  wake_loop-Small zero efd out k h = refl
  wake_loop-Small (suc fuel) efd out k h = elim (Bool-cases (meets efd.able efd.want)) [
    | inr e ↦ rw e h
    | inl e ↦ rw e (
        round-Small (wake_loop post fuel) efd (post (record out { able = efd.able }) k) h
          (wake_loop-Small fuel))
  ]

  wake-Small :
      (fuel : ℕ) (efd : Efd) (out : Out) (k : K) → efd.able < 32 → Small (wake post fuel efd out k)
  unfolding wake
  wake-Small fuel efd out k h = elim (Bool-cases (ltb_ℤ (get_err efd.able) (pos 0))) [
    | inl e ↦ rw e h
    | inr e ↦ rw e (wake_loop-Small fuel _ _ k (omega arith))
  ]

Small-Returns :
    {K : Type 0} {P : ℤ × Efd × K → Type 0} {m : Outcome (ℤ × Efd × K)}
    → Returns P m
    → Small m
    → Returns (λ r. P r × ((r.1).able < 32)) m
Small-Returns (returns p) h = returns (p, h)

-- `_dpefd_wake` comes to an end, has ended or waits, and its events fit.
pub wake-Settled_small :
    {K : Type 0} {post : Out → K → Post K} {left : K → ℕ}
    → Progress post left
    → (efd : Efd) (out : Out) (k : K) → efd.able < 32
    → Returns (λ r. Settled r × ((r.1).able < 32)) (wake post (suc (suc (left k))) efd out k)
wake-Settled_small progress efd out k h =
    Small-Returns (wake-Settled progress efd out k h) (wake-Small _ _ efd out k h)

fed-able : {K : Type 0} (r : ℤ × Efd × K) → ((fed r).1).able ≡ (r.1).able
fed-able (ret, efd, k) = elim (Bool-cases (is_wait ret)) [ inl e ↦ rw e | inr e ↦ rw e ]

-- An event for an operation that waits.
pub feed-Small :
    {K : Type 0} {post : Out → K → Post K} {left : K → ℕ}
    → Progress post left
    → (efd : Efd) (evs : ℕ) (k : K) → efd.want == 0 || not efd.doing ≡ false
    → Returns (λ r. (r.1).able < 32) (feed post (suc (suc (left k))) efd evs k)
unfolding feed
feed-Small progress efd evs k h =
    let efd' = record efd { able = five_bits (bit_or efd.able evs) } in
    rw h (
      Returns-bind (wake-Settled_small progress efd' _ k (omega arith))
        λ r p. returns (rw (fed-able r) (p.1)))

-- An event for an element that waits for none.
pub feed_idle :
    {K : Type 0} (post : Out → K → Post K) (fuel : ℕ) (efd : Efd) (evs : ℕ) (k : K)
    → efd.want == 0 || not efd.doing ≡ true
    → feed post fuel efd evs k
      ≡ done (false, record efd { able = five_bits (bit_or efd.able evs) }, k)
unfolding feed
feed_idle post fuel efd evs k h = rw h
