-- ===== src/Aio.antt =====
-- Input and output on a descriptor: lib/dpapp/os/linux/dpasc_epoll.c moves bytes until the system
-- has no more (`Post`), and lib/dpapp/dpasc.c makes streams over `dpbuf_t` of that (`Stream`).
pub mod Examples
pub mod Post
pub mod Prep
pub mod Stream
use dpapp.Common.{ℕ, zero, suc, ◌≤◌, ◌<◌, ◌≡◌, Bool, length}
use dpapp.Common.Int.{ℤ, pos, negsuc}
use dpapp.Mem.{Block}

-- What a call such as `read(2)` or `send(2)` does: it moves bytes, or the other side has closed, or
-- it fails with an errno.
pub data Answer : Type 0 where
  moved : Block → Answer
  closed : Answer
  failed : ℕ → Answer

-- The result of the `post` of an operation on a descriptor: its return value, the bytes that were
-- moved, whether it withdraws the event that it waited for, and the state of the system.
pub record Posted (K : Type 0) : Type 0 where
  pub ret : ℤ
  pub bytes : Block
  pub inva : Bool
  pub system : K

-- `-errno`.
abbrev pub errno : ℕ → ℤ
errno zero = pos 0
errno (suc e) = negsuc e

abbrev pub eof : ℤ
eof = negsuc 155

abbrev pub wait : ℤ
wait = negsuc 10

abbrev pub continue : ℤ
continue = negsuc 189

abbrev pub inval : ℤ
inval = negsuc 21

abbrev pub nomem : ℤ
nomem = negsuc 11
