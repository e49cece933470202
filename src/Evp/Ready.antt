-- ===== src/Evp/Ready.antt =====
-- dpevp_epoll.c: `_dpefd_wake` and `_dpefd_feed`, which call the `post` of an operation on a descriptor
-- as long as an event that it waits for is there.
pub mod Able
pub mod Waits
use dpapp.Common.{
  ℕ, zero, suc, ◌+◌, ◌-◌, ◌%◌, ◌^◌, Bool, true, false, ◌||◌, not, bit_and, bit_or, ◌==◌, ltb,
  if◌then◌else◌,
}
use dpapp.Common.Int.{ℤ, pos, negsuc, ltb_ℤ}
use dpapp.Common.Outcome.{Outcome, done, fault, ◌>>=◌}
use dpapp.Aio.{wait}

-- The fields of `dpele_t` that these functions use: the events that are there, those that the
-- operation waits for, whether there is an operation, and the result.
pub record Efd : Type 0 where
  pub able : ℕ
  pub want : ℕ
  pub doing : Bool
  pub ret : ℤ

-- `dpasc_out_t`.
pub record Out : Type 0 where
  pub want : ℕ
  pub inva : ℕ
  pub able : ℕ

-- What `post` of the operation answers: its return value, what it leaves in `out`, and the system.
pub record Post (K : Type 0) : Type 0 where
  pub ret : ℤ
  pub out : Out
  pub system : K

-- `able_events` and `want_events` have 5 bits.
abbrev pub five_bits : ℕ → ℕ
five_bits n = n % 2 ^ 5

-- `a & b` is not 0.
abbrev pub meets : ℕ → ℕ → Bool
meets a b = not (bit_and a b == 0)

-- `a & ~b`.
abbrev pub without : ℕ → ℕ → ℕ
without a b = a - bit_and a b

abbrev pub is_wait : ℤ → Bool
is_wait (pos n) = false
is_wait (negsuc n) = n == 10

abbrev evt_err : ℕ
evt_err = 8

abbrev evt_hup : ℕ
evt_hup = 16

abbrev pub connreset : ℤ
connreset = negsuc 103

abbrev pub badfd : ℤ
badfd = negsuc 76

abbrev pub inprogress : ℤ
inprogress = negsuc 114

-- `DPEVT_GET_ERR`.
abbrev pub get_err : ℕ → ℤ
get_err evs = if meets evs evt_hup then connreset else if meets evs evt_err then badfd else pos 0

abbrev pub withdraw : Efd → ℕ → Efd
withdraw efd inva = record efd { able = without efd.able inva }

module _ {K : Type 0} where
  -- What the loop makes of an answer; `again` is its next round.
  abbrev pub wake_round :
      (Efd → Out → K → Outcome (ℤ × Efd × K)) → Efd → Post K → Outcome (ℤ × Efd × K)
  wake_round again efd p =
      let efd' = withdraw efd p.out.inva in
      let next =
        again (record efd' { want = if ltb 0 p.out.want then five_bits p.out.want else efd.want })
          (record p.out { inva = 0 }) p.system in
      if is_wait p.ret then next else done (p.ret, record efd' { want = 0 }, p.system)

  -- The loop of `_dpefd_wake`. More rounds than `fuel` are a `fault`.
  unfoldable pub wake_loop : (Out → K → Post K) → ℕ → Efd → Out → K → Outcome (ℤ × Efd × K)
  wake_loop post zero efd out k = fault
  wake_loop post (suc fuel) efd out k =
      let round = wake_round (wake_loop post fuel) efd (post (record out { able = efd.able }) k) in
      if meets efd.able efd.want then round else done (wait, efd, k)

  unfoldable pub wake : (Out → K → Post K) → ℕ → Efd → Out → K → Outcome (ℤ × Efd × K)
  wake post fuel efd out k =
      if ltb_ℤ (get_err efd.able) (pos 0)
      then done (get_err efd.able, record efd { want = 0 }, k)
      else wake_loop post fuel (record (withdraw efd out.inva) { want = five_bits out.want })
          (record out { inva = 0 }) k

  -- The result of `_dpefd_feed` for the result of `_dpefd_wake`.
  abbrev pub fed : ℤ × Efd × K → Bool × Efd × K
  fed (ret, efd, k) =
      if is_wait ret
      then (false, record efd { ret = inprogress }, k)
      else (true, record efd { ret = ret }, k)

  unfoldable pub feed : (Out → K → Post K) → ℕ → Efd → ℕ → K → Outcome (Bool × Efd × K)
  feed post fuel efd evs k =
      let efd' = record efd { able = five_bits (bit_or efd.able evs) } in
      if efd.want == 0 || not efd.doing then done (false, efd', k) else do
        r ← wake post fuel efd' (record { want = efd.want; inva = 0; able = efd'.able }) k
        done (fed r)
