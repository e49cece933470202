-- ===== src/Aco/Pool.antt =====
-- dpaco.c: the environment of a thread (`dpaco_thinit`, `dpaco_thfree`), and how coroutines come
-- and go (`dpaco_create`, `dpaco_delater`). Dead ones are kept for reuse in the list `recycle`.
pub mod Creates
pub mod Free
pub mod Release
pub mod Reuse
use dpapp.Common.{
  ℕ, suc, zero, ◌+◌, ◌*◌, Bool, true, false, Option, none, some, ◌==◌, ltb, if◌then◌else◌,
}
use dpapp.Common.Int.{ℤ, pos, negsuc, sub_ℕ, index}
use dpapp.Common.Outcome.{Outcome, done, fault, ◌>>=◌}
use dpapp.Aco.{
  Heap, Status, created, running, suspend, dead, at_entry, Co, World, Alloc, null, pointer,
  live_block, load, put, store,
}

-- What `calloc` leaves in a block, with the size that `dpaco_create` writes.
abbrev pub zeroed : ℕ → Co
zeroed n = record {
  ctx = at_entry;
  func = none;
  msg = 0;
  link = none;
  status = created;
  delater = false;
  size = n;
}

-- The fields that `dpaco_create` sets.
abbrev pub prepared : ℕ → Co → Co
prepared f co = record co {
  ctx = at_entry;
  func = some f;
  link = none;
  status = created;
  delater = false;
}

-- The fields that `dpaco_delater` sets.
abbrev pub emptied : World → Co → Co
emptied w co = record co { func = none; msg = null; delater = false; link = w.recycle }

-- The coroutine has not begun or has ended.
abbrev pub is_over : Status → Bool
is_over created = true
is_over dead = true
is_over running = false
is_over suspend = false

-- `env->stack_size` for the argument of `dpaco_thinit`.
unfoldable pub default_size : ℤ → ℕ
default_size (negsuc n) = 128 * 1024
default_size (pos n) = if n == 0 then 128 * 1024 else if ltb n 1024 then 1024 else n

-- `dpaco_thinit`.
unfoldable pub thinit : Alloc → World → ℤ → Outcome (Bool × World)
thinit env w size = elim w.comain [
  | some m ↦ done (false, w)
  | none ↦ elim (env.calloc w.heap 0) [
    | none ↦ done (false, w)
    | some m ↦ done (
      true,
      record w {
        heap = put w.heap m (some (record (zeroed 0) { status = running }));
        comain = some m;
        cocurr = some m;
        recycle = none;
        recycle_count = 0;
        stack_size = default_size size;
      },
    )
  ]
]

-- `free`: undefined for a block that is not live.
unfoldable pub release : Heap → ℕ → Outcome Heap
release h i = do co ← live_block (h i); done (put h i none)

-- The loop of `dpaco_thfree`. A list of `fuel` blocks is released, a longer one is a `fault`.
unfoldable pub free_list : ℕ → Heap → Option ℕ → Outcome Heap
free_list fuel h none = done h
free_list zero h (some i) = fault
free_list (suc fuel) h (some i) = do
  co ← live_block (h i)
  h ← release h i
  free_list fuel h co.link

abbrev pub release_main : Heap → Option ℕ → Outcome Heap
release_main h none = done h
release_main h (some m) = release h m

-- `dpaco_thfree`.
unfoldable pub thfree : ℕ → World → Outcome World
thfree fuel w = do
  h ← elim w.comain [ none ↦ done w.heap | some m ↦ release w.heap m ]
  h ← free_list fuel h w.recycle
  done (record {
    heap = h;
    comain = none;
    cocurr = none;
    recycle = none;
    recycle_count = 0;
    stack_size = 0;
  })

-- `calloc`, where no block is kept.
abbrev pub new_block : World → ℕ → Option ℕ → Option ℕ × World
new_block w n none = (none, w)
new_block w n (some i) = (some i, store w i (zeroed n))

abbrev pub take_from : Alloc → World → ℕ → Option ℕ → Outcome (Option ℕ × World)
take_from env w n none = done (new_block w n (env.calloc w.heap n))
take_from env w n (some i) = do
  co ← load w i
  count ← index (sub_ℕ w.recycle_count 1)
  done (some i, record w { recycle = co.link; recycle_count = count })

-- `tenv->recycle` or a new block, before its fields are set.
unfoldable pub take_block : Alloc → World → ℕ → Outcome (Option ℕ × World)
take_block env w n = take_from env w n w.recycle

-- The stack size that `dpaco_create` is to give.
abbrev pub asked : World → ℤ → ℕ
asked w (negsuc n) = w.stack_size
asked w (pos n) = if n == 0 then w.stack_size else n

-- `realloc` may move the block; if it fails the block stays as it is.
abbrev pub resized : World → ℕ → Co → ℕ → Option ℕ → ℕ × World
resized w i co n none = (i, store w i co)
resized w i co n (some j) =
    (j, record w { heap = put (put w.heap i none) j (some (record co { size = n })) })

-- A block of another size is reallocated.
unfoldable pub fit : Alloc → World → ℕ → Co → ℕ → ℕ × World
fit env w i co n =
    if co.size == n then (i, store w i co) else resized w i co n (env.realloc w.heap i n)

-- `dpaco_create` from where it has a block.
abbrev pub set_up : Alloc → World → ℕ → ℕ → Option ℕ → Outcome (Option ℕ × World)
set_up env w f n none = done (none, w)
set_up env w f n (some i) = do
  co ← load w i
  let out = fit env w i (prepared f co) n
  done (some out.0, out.1)

-- `dpaco_create`. `cocontext_init` puts the coroutine before its function.
unfoldable pub create : Alloc → World → Option ℕ → ℤ → Outcome (Option ℕ × World)
create env w none size = done (none, w)
create env w (some f) size = do
  (block, w') ← take_block env w (asked w size)
  set_up env w' f (asked w size) block

-- The `case DPACO_CREATED` and `case DPACO_DEAD` of `dpaco_delater`.
unfoldable pub recycled : World → ℕ → Co → World
recycled w i co =
    if ltb w.recycle_count 1024
    then record w {
      heap = put w.heap i (some (emptied w co));
      recycle = some i;
      recycle_count = suc w.recycle_count;
    }
    else record w { heap = put w.heap i none }

-- `dpaco_delater`.
unfoldable pub delater : World → Option ℕ → Outcome World
delater w none = done w
delater w (some i) = do
  co ← load w i
  done (if is_over co.status then recycled w i co else store w i (record co { delater = true }))
