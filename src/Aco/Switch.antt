-- ===== src/Aco/Switch.antt =====
-- dpaco.c: how the control goes from one coroutine to another (`dpaco_resume`, `dpaco_yield`, the
-- end of `_mainfunc`, `dpaco_wrap`). An operation returns the value that the code of the coroutine
-- which runs next sees: the argument of its function, or the result of its call.
pub mod Misuse
pub mod Returns
pub mod Transfer
use dpapp.Common.{ℕ, Bool, true, false, ◌&&◌, Option, none, some, if◌then◌else◌}
use dpapp.Common.Int.{ℤ}
use dpapp.Common.Outcome.{Outcome, done, fault, ◌>>=◌}
use dpapp.Aco.{
  Status, created, running, suspend, dead, Place, at_entry, in_yield, in_resume, in_wrap, Co, World,
  Alloc, null, pointer, load, store,
}
use dpapp.Aco.Pool.{create, delater}

abbrev pub is_dead : Status → Bool
is_dead dead = true
is_dead _ = false

-- The states from which `dpaco_resume` starts a coroutine.
abbrev pub is_ready : Status → Bool
is_ready created = true
is_ready suspend = true
is_ready running = false
is_ready dead = false

-- `dpaco_resume` behind its `cocontext_swap`.
unfoldable pub reap : World → ℕ → Outcome World
reap w i = do co ← load w i; if is_dead co.status && co.delater then delater w (some i) else done w

-- `tenv->cocurr->msg`.
unfoldable pub message : World → Outcome ℕ
message w = do c ← pointer w.cocurr; cu ← load w c; done cu.msg

-- The code from the end of a `cocontext_swap` to the user's code.
unfoldable pub land : World → Place → Outcome (ℕ × World)
land w at_entry = do v ← message w; done (v, w)
land w in_yield = do v ← message w; done (v, w)
land w (in_resume i) = do w ← reap w i; v ← message w; done (v, w)
land w (in_wrap i) = do w ← reap w i; v ← message w; w ← delater w (some i); done (v, w)

-- `cocontext_swap` to the coroutine that is the current one now.
unfoldable pub swap_in : World → Outcome (ℕ × World)
swap_in w = do c ← pointer w.cocurr; cu ← load w c; land w cu.ctx

-- `dpaco_resume` of `co`, which stands at `i`, where it starts it. `place` is where the caller
-- waits.
unfoldable pub switch_to : Place → World → ℕ → Co → ℕ → Outcome (ℕ × World)
switch_to place w i co v = do
  c ← pointer w.cocurr
  let w = store w i (record co { link = some c; msg = v; status = running })
  cu ← load w c
  let w = store w c (record cu { status = suspend; ctx = place })
  swap_in (record w { cocurr = some i })

-- `dpaco_resume`.
unfoldable pub resume : World → Option ℕ → ℕ → Outcome (ℕ × World)
resume w none v = done (null, w)
resume w (some i) v = do
  co ← load w i
  if is_ready co.status then switch_to (in_resume i) w i co v else done (null, w)

-- `dpaco_yield` from `cu`, which stands at `c`, to `p`.
unfoldable pub switch_back : World → ℕ → Co → ℕ → ℕ → Outcome (ℕ × World)
switch_back w c cu p v = do
  let w =
      store w c (record cu { status = if is_dead cu.status then dead else suspend; ctx = in_yield })
  pr ← load w p
  let w = store w p (record pr { status = running; msg = v })
  swap_in (record w { cocurr = some p })

abbrev pub yield_to : World → ℕ → Co → Option ℕ → ℕ → Outcome (ℕ × World)
yield_to w c cu none v = done (null, w)
yield_to w c cu (some p) v = switch_back w c cu p v

-- `dpaco_yield`. It reads `curr->prev` before it tests `curr`.
unfoldable pub yield : World → ℕ → Outcome (ℕ × World)
yield w v = do c ← pointer w.cocurr; cu ← load w c; yield_to w c cu cu.link v

-- The end of `_mainfunc`: the function of the current coroutine has returned `res`.
unfoldable pub finish : World → ℕ → Outcome (ℕ × World)
finish w res = do
  c ← pointer w.cocurr
  cu ← load w c
  yield (store w c (record cu { status = dead })) res

-- `dpaco_wrap`.
unfoldable pub wrap : Alloc → World → Option ℕ → ℕ → ℤ → Outcome (ℕ × World)
wrap env w f v size = do
  (made, w) ← create env w f size
  elim made [
    | none ↦ done (null, w)
    | some i ↦ do
      co ← load w i
      if is_ready co.status
          then switch_to (in_wrap i) w i co v
          else (do w ← delater w (some i); done (null, w))
  ]

-- `dpaco_status`.
abbrev pub status_of : World → ℕ → Outcome Status
status_of w i = do co ← load w i; done co.status

-- `dpaco_running`.
abbrev running_co : World → Option ℕ
running_co w = w.cocurr
