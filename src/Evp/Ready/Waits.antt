-- ===== src/Evp/Ready/Waits.antt =====
-- When `_dpefd_wake` waits.
use dpapp.Common.{
  ap, sym, ◌∙◌, ℕ, zero, suc, ◌+◌, ◌*◌, ◌/◌, ◌%◌, ◌^◌, every_under, every_under-elim, ltb, ◌<◌, ◌≡◌,
  refl, ◌⊎◌, inl, inr, Bool, true, false, ◌||◌, not, bit_and, bit_or, ◌==◌, ==_iff, arith,
  if◌then◌else◌, Bool-cases,
}
use dpapp.Common.Int.{ℤ, pos, ltb_ℤ}
use dpapp.Common.Outcome.{Outcome, Returns, returns, Returns-bind}
use dpapp.Evp.Ready.{
  Efd, Out, Post, meets, without, is_wait, get_err, connreset, badfd, withdraw, five_bits, fed,
  wake_round, wake_loop, wake, feed,
}

-- The operation comes to an end: each time that it waits, what is left for it to do gets less, or it
-- withdraws just the events that it waits for.
pub record Progress {K : Type 0} (post : Out → K → Post K) (left : K → ℕ) : Type 0 where
  pub less :
      (out : Out) (k : K)
      → is_wait ((post out k).ret) ≡ true
      → (left ((post out k).system) < left k)
        ⊎ (((post out k).out.inva ≡ (post out k).out.want)
            × (0 < (post out k).out.want)
            × ((post out k).out.want < 2 ^ 5))

-- The same of an operation whose `want` always satisfies `In`, where its `post` keeps that.
pub record Advances {K : Type 0} (In : ℕ → Type 0) (post : Out → K → Post K) (left : K → ℕ)
    : Type 0 where
  pub goes_on :
      (out : Out) (k : K)
      → In out.want
      → is_wait ((post out k).ret) ≡ true
      → (In ((post out k).out.want) × (left ((post out k).system) < left k))
        ⊎ (((post out k).out.inva ≡ (post out k).out.want)
            × (0 < (post out k).out.want)
            × ((post out k).out.want < 2 ^ 5))

Progress-Advances :
    {K : Type 0} {post : Out → K → Post K} {left : K → ℕ}
    → Progress post left
    → Advances (λ n. Unit {0}) post left
Progress-Advances progress = record {
  goes_on =
      λ out k _ w. elim (progress.less out k w) [ inl lt ↦ inl (tt, lt) | inr same ↦ inr same ];
}

-- It waits, for events none of which is there; or it has ended, and waits for none.
abbrev pub Settled : {K : Type 0} → ℤ × Efd × K → Type 0
Settled (ret, efd, k) =
    ((is_wait ret ≡ true) × (bit_and efd.able efd.want ≡ 0))
    ⊎ ((is_wait ret ≡ false) × (efd.want ≡ 0))

-- After an event: the operation has ended and waits for none, or it waits, for events none of which is
-- there.
abbrev pub Fed : {K : Type 0} → Bool × Efd × K → Type 0
Fed (over, efd, k) =
    ((over ≡ true) × (efd.want ≡ 0)) ⊎ ((over ≡ false) × (bit_and efd.able efd.want ≡ 0))

-- The operation after a round that waits.
abbrev waiting : {K : Type 0} → Efd → Post K → Efd
waiting efd p = record (withdraw efd p.out.inva) {
  want = if ltb 0 p.out.want then five_bits p.out.want else efd.want;
}

round-Settled :
    {K : Type 0} (again : Efd → Out → K → Outcome (ℤ × Efd × K)) (efd : Efd) (p : Post K)
    → (is_wait p.ret ≡ true
        → Returns Settled (again (waiting efd p) (record p.out { inva = 0 }) p.system))
    → Returns Settled (wake_round again efd p)
round-Settled again efd p next = elim (Bool-cases (is_wait p.ret)) [
  | inl e ↦ rw e (next e)
  | inr e ↦ rw e (returns (inr (e, refl)))
]

-- The test of the loop.
meets-none : (a b : ℕ) → meets a b ≡ false → bit_and a b ≡ 0
meets-none a b h = ground arith

none-meets : (a b : ℕ) → bit_and a b ≡ 0 → meets a b ≡ false
none-meets a b h = ground arith

-- Of five bits, what is left after a withdrawal does not meet what was withdrawn.
abbrev clear : ℕ → ℕ → Bool
clear a w = bit_and (without a w) w == 0

clear_all : every_under (λ i. clear (i / 32) (i % 32)) 1024 ≡ true
unfolding every_under
clear_all = refl

without-none : (a w : ℕ) → a < 32 → w < 32 → bit_and (without a w) w ≡ 0
without-none a w h k =
    let i = a * 32 + w in
    let d : i / 32 ≡ a = omega arith in
    let r : i % 32 ≡ w = omega arith in
    (==_iff _ 0).0 (
      ap (λ (z : ℕ). clear z w) (sym d)
      ∙ ap (clear (i / 32)) (sym r)
      ∙ every_under-elim (λ i. clear (i / 32) (i % 32)) 1024 i clear_all (omega arith))

zero_all : every_under (λ i. bit_and i 0 == 0) 32 ≡ true
unfolding every_under
zero_all = refl

and_zero : (a : ℕ) → a < 32 → bit_and a 0 ≡ 0
and_zero a h = (==_iff _ 0).0 (every_under-elim (λ i. bit_and i 0 == 0) 32 a zero_all h)

not_wait :
    (hup err : Bool) → is_wait (if hup then connreset else if err then badfd else pos 0) ≡ false
not_wait true err = refl
not_wait false true = refl
not_wait false false = refl

-- A round that withdraws just the events that it waits for leaves nothing that it waits for.
waiting-none :
    {K : Type 0} (efd : Efd) (p : Post K)
    → efd.able < 32
    → p.out.inva ≡ p.out.want
    → 0 < p.out.want
    → p.out.want < 2 ^ 5
    → bit_and ((waiting efd p).able) ((waiting efd p).want) ≡ 0
waiting-none efd p small e some five =
    let w : (if ltb 0 p.out.want then five_bits p.out.want else efd.want) ≡ p.out.want =
      ground arith in
    ap (bit_and (without efd.able p.out.inva)) w
    ∙ ap (λ (z : ℕ). bit_and (without efd.able z) p.out.want) e
    ∙ without-none efd.able p.out.want small (omega arith)

module _ {K : Type 0} {In : ℕ → Type 0} {post : Out → K → Post K} {left : K → ℕ}
    (progress : Advances In post left) where
  quiet-Settled :
      (fuel : ℕ) (efd : Efd) (out : Out) (k : K)
      → bit_and efd.able efd.want ≡ 0
      → Returns Settled (wake_loop post (suc fuel) efd out k)
  unfolding wake_loop
  quiet-Settled fuel efd out k e = rw (none-meets efd.able efd.want e) (returns (inl (refl, e)))

  wake_loop-Settled :
      (fuel : ℕ) (efd : Efd) (out : Out) (k : K)
      → left k < fuel
      → efd.able < 32
      → In out.want
      → Returns Settled (wake_loop post (suc fuel) efd out k)
  unfolding wake_loop
  wake_loop-Settled zero efd out k h five is_in = absurd (omega arith)
  wake_loop-Settled (suc fuel) efd out k h five is_in =
      elim (Bool-cases (meets efd.able efd.want)) [
        | inr e ↦ rw e (returns (inl (refl, meets-none efd.able efd.want e)))
        | inl e ↦
            let out' = record out { able = efd.able } in
            let p = post out' k in
            rw e (
              round-Settled (wake_loop post (suc fuel)) efd p λ w.
                elim (progress.goes_on out' k is_in w) [
                  | inl (is_in', lt) ↦
                      wake_loop-Settled fuel (waiting efd p) (record p.out { inva = 0 }) p.system
                        (omega arith) (omega arith) is_in'
                  | inr (same, some, five_out) ↦
                      quiet-Settled fuel (waiting efd p) (record p.out { inva = 0 }) p.system
                        (waiting-none efd p five same some five_out)
                ])
      ]

  advancing-Settled :
      (efd : Efd) (out : Out) (k : K)
      → efd.able < 32
      → In out.want
      → Returns Settled (wake post (suc (suc (left k))) efd out k)
  unfolding wake
  advancing-Settled efd out k five is_in = elim (Bool-cases (ltb_ℤ (get_err efd.able) (pos 0))) [
    | inl e ↦ rw e (returns (inr (not_wait _ _, refl)))
    | inr e ↦ rw e (wake_loop-Settled (suc (left k)) _ _ k (omega arith) (omega arith) is_in)
  ]

  fed-Fed : (r : ℤ × Efd × K) → Settled r → Fed (fed r)
  fed-Fed (ret, efd, k) (inl (w, e)) = rw w (inr (refl, e))
  fed-Fed (ret, efd, k) (inr (w, e)) = rw w (inl (refl, e))

  -- When _dpefd_feed hands any events to an operation under way, under the following assumption on
  -- its post: there is a condition on want_events that holds at first, and each time that it holds
  -- and post answers DPE_WAIT, either post keeps it and what is left to do (a measure of the
  -- system) gets less, or post withdraws exactly the events in its want_events, which are not none
  -- and below 32. Then the loop of _dpefd_wake comes to an end, and the operation has ended and
  -- waits for no event, or it waits, and none of the events that it waits for is there. So no
  -- event that epoll reports once only is left lying.
  pub feed-Fed :
      (efd : Efd) (evs : ℕ) (k : K)
      → efd.doing ≡ true
      → In efd.want
      → Returns Fed (feed post (suc (suc (left k))) efd evs k)
  unfolding feed
  feed-Fed efd evs k doing is_in = elim (Bool-cases (efd.want == 0 || not efd.doing)) [
    | inl e ↦
        let z : efd.want ≡ 0 = ground arith in
        let able = five_bits (bit_or efd.able evs) in
        rw e (returns (inr (refl, ap (bit_and able) z ∙ and_zero able (omega arith))))
    | inr e ↦ rw e (
        Returns-bind
          (advancing-Settled (record efd { able = five_bits (bit_or efd.able evs) }) _ k
            (omega arith) is_in)
          λ r s. returns (fed-Fed r s))
  ]

-- `_dpefd_wake` of an operation that makes progress whatever it waits for.
pub wake-Settled :
    {K : Type 0} {post : Out → K → Post K} {left : K → ℕ}
    → Progress post left
    → (efd : Efd) (out : Out) (k : K) → efd.able < 32
    → Returns Settled (wake post (suc (suc (left k))) efd out k)
wake-Settled progress efd out k five =
    advancing-Settled (Progress-Advances progress) efd out k five tt
