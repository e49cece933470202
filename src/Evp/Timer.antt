-- ===== src/Evp/Timer.antt =====
-- dpevp_epoll.c: `dptmrset_t`, the timers of an event loop, on a balanced tree (dprbt.h, a copy of a BSD
-- header), and `_dpevp_reap_tmr`.
pub mod Agrees
pub mod First
use dpapp.Common.{
  ℕ, zero, suc, ◌+◌, ◌-◌, ◌≤◌, ◌<◌, ◌≡◌, ◌⊎◌, Bool, true, false, ◌&&◌, ◌||◌, not, Option, none,
  some, ◌==◌, ltb, leb, if◌then◌else◌,
}
use dpapp.Common.Int.{ℤ, pos, negsuc}
use dpapp.Aio.{inval}
use dpapp.Aio.Prep.{int_of}

-- What the tree macros do, on keys that are a time and an address, in this order.
pub record Tree (T : Type 0) : Type 0 where
  pub has : T → ℕ → ℕ → Bool
  pub insert : T → ℕ → ℕ → T
  pub remove : T → ℕ → ℕ → T
  pub least : T → Option (ℕ × ℕ)
  pub has-insert :
      (t : T) (e a e' a' : ℕ) → has (insert t e a) e' a' ≡ ((e == e') && (a == a')) || has t e' a'
  pub has-remove :
      (t : T) (e a e' a' : ℕ)
      → has (remove t e a) e' a' ≡ not ((e == e') && (a == a')) && has t e' a'
  pub least-has : (t : T) (e a : ℕ) → least t ≡ some (e, a) → has t e a ≡ true
  pub least-le : (t : T) (e a e' a' : ℕ) → least t ≡ some (e, a) → has t e' a' ≡ true → e ≤ e'
  pub least-none : (t : T) (e a : ℕ) → least t ≡ none → has t e a ≡ false

-- `tmr_spec` of an element, none if it is NULL, with `after` in milliseconds; and `is_timing`.
pub record Timing : Type 0 where
  pub after : Option ℤ
  pub expire : ℕ
  pub timing : Bool

-- The tree of an event loop, and the elements by their addresses.
pub record Timers (T : Type 0) : Type 0 where
  pub tree : T
  pub ele : ℕ → Timing

abbrev pub internal_error : ℤ
internal_error = negsuc 499

abbrev pub set_ele : (ℕ → Timing) → ℕ → Timing → ℕ → Timing
set_ele ele a t b = if b == a then t else ele b

abbrev pub timed : Timing → ℕ → Timing
timed t e = record t { expire = e; timing = true }

abbrev pub untimed : Timing → Timing
untimed t = record t { timing = false }

-- The time to wait for the next timer, at most 10 ms less than there is.
abbrev pub wait_for : ℕ → ℕ → ℤ
wait_for e now = int_of (if ltb (now + 11) e then e - now - 10 else 1)

module _ {T : Type 0} (ops : Tree T) where
  -- `_dptmrset_upsert` for an element whose time is set, at the time `e`.
  abbrev pub upsert_at : Bool → Bool → Timers T → ℕ → ℕ → ℤ × Timers T
  upsert_at true twice s a e = (
    pos 0,
    record {
      tree = ops.insert (ops.remove s.tree ((s.ele a).expire) a) e a;
      ele = set_ele s.ele a (timed (s.ele a) e);
    },
  )
  upsert_at false true s a e =
      (internal_error, record s { ele = set_ele s.ele a (record (s.ele a) { expire = e }) })
  upsert_at false false s a e =
      (pos 0, record { tree = ops.insert s.tree e a; ele = set_ele s.ele a (timed (s.ele a) e) })

  abbrev pub upsert_after : Option ℤ → ℕ → Timers T → ℕ → ℤ × Timers T
  upsert_after none now s a = (inval, s)
  upsert_after (some (negsuc n)) now s a = (inval, s)
  upsert_after (some (pos ms)) now s a =
      upsert_at ((s.ele a).timing) (ops.has s.tree (now + ms) a) s a (now + ms)

  unfoldable pub upsert : ℕ → Timers T → ℕ → ℤ × Timers T
  upsert now s a = upsert_after ((s.ele a).after) now s a

  -- `_dptmrset_remove`.
  unfoldable pub remove : Timers T → ℕ → Timers T
  remove s a =
      if (s.ele a).timing
      then record {
        tree = ops.remove s.tree ((s.ele a).expire) a;
        ele = set_ele s.ele a (untimed (s.ele a));
      }
      else s

  -- `dptmrset_expire`: the element whose time has come, if any, and the time to wait.
  abbrev pub expire_least : ℕ → Timers T → Option (ℕ × ℕ) → Option ℕ × ℤ × Timers T
  expire_least now s none = (none, negsuc 0, s)
  expire_least now s (some (e, a)) = if ltb now e then (none, wait_for e now, s) else (
    some a,
    pos 0,
    record { tree = ops.remove s.tree e a; ele = set_ele s.ele a (untimed (s.ele a)) },
  )

  unfoldable pub expire : ℕ → Timers T → Option ℕ × ℤ × Timers T
  expire now s = expire_least now s (ops.least s.tree)
