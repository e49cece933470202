-- ===== src/Aco.antt =====
-- lib/dpaco/dpaco.c: stackful coroutines of one thread. A coroutine is a block of memory, named by
-- its address; `World` holds the live blocks and `_aco_thenv`, the environment of the thread.
-- `cocontext_swap` (assembler) gives the control to another coroutine: the model keeps for each
-- coroutine the place where it stands, which is what its saved context holds.
mod Examples
pub mod Pool
pub mod Switch
use dpapp.Common.{ℕ, Bool, ◌≡◌, ◌⊎◌, Option, none, some, ◌==◌, if◌then◌else◌}
use dpapp.Common.Outcome.{Outcome, done, fault}

-- `dpaco_status_e`.
pub data Status : Type 0 where
  created : Status
  running : Status
  suspend : Status
  dead : Status

-- Where a coroutine stands when it does not run: before its function, in the `cocontext_swap` of
-- `dpaco_yield`, or in that of `dpaco_resume` with its local variable `co`, called by user code or
-- by `dpaco_wrap`.
pub data Place : Type 0 where
  at_entry : Place
  in_yield : Place
  in_resume : ℕ → Place
  in_wrap : ℕ → Place

-- `struct dpaco`. `link` is the union of `next` and `prev`; functions and messages are numbers.
pub record Co : Type 0 where
  pub ctx : Place
  pub func : Option ℕ
  pub msg : ℕ
  pub link : Option ℕ
  pub status : Status
  pub delater : Bool
  pub size : ℕ

abbrev pub Heap : Type 0
Heap = ℕ → Option Co

-- `dp_aco_thenv_t` and the memory.
pub record World : Type 0 where
  pub heap : Heap
  pub comain : Option ℕ
  pub cocurr : Option ℕ
  pub recycle : Option ℕ
  pub recycle_count : ℕ
  pub stack_size : ℕ

-- `DPV64_NULL`.
abbrev pub null : ℕ
null = 0

-- An access through a null pointer or to a block that is not live is undefined.
abbrev pub pointer : Option ℕ → Outcome ℕ
pointer none = fault
pointer (some i) = done i

abbrev pub live_block : Option Co → Outcome Co
live_block none = fault
live_block (some co) = done co

unfoldable pub load : World → ℕ → Outcome Co
load w i = live_block (w.heap i)

unfoldable pub put : Heap → ℕ → Option Co → Heap
put h i co j = if j == i then co else h j

abbrev pub store : World → ℕ → Co → World
store w i co = record w { heap = put w.heap i (some co) }

-- `calloc` and `realloc` of the size of `struct dpaco` and a stack: any functions that return a
-- block that is not live, or for `realloc` also the block itself, or fail.
pub record Alloc : Type 0 where
  pub calloc : Heap → ℕ → Option ℕ
  pub realloc : Heap → ℕ → ℕ → Option ℕ
  pub calloc_fresh : {h : Heap} {n i : ℕ} → calloc h n ≡ some i → h i ≡ none
  pub realloc_fresh : {h : Heap} {i n j : ℕ} → realloc h i n ≡ some j → (j ≡ i) ⊎ (h j ≡ none)
