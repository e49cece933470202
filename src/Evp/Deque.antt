-- ===== src/Evp/Deque.antt =====
-- dpevp_epoll.c: `_dpele_deque_*`, the queues of elements, which are linked through the elements.
pub mod Queue
pub mod Segment
use dpapp.Common.{ℕ, Bool, true, false, ◌||◌, Option, none, some, ◌==◌, if◌then◌else◌}

-- `prev` and `next` of an element; `none` is NULL.
pub record Links : Type 0 where
  pub prev : Option ℕ
  pub next : Option ℕ

-- The elements by their addresses.
abbrev pub Heap : Type 0
Heap = ℕ → Links

-- `dpele_deque_t`.
pub record Deque : Type 0 where
  pub head : Option ℕ
  pub tail : Option ℕ

abbrev pub set_prev : Heap → ℕ → Option ℕ → Heap
set_prev h a p b = if b == a then record (h b) { prev = p } else h b

abbrev pub set_next : Heap → ℕ → Option ℕ → Heap
set_next h a n b = if b == a then record (h b) { next = n } else h b

abbrev pub empty : Deque
empty = record { head = none; tail = none }

abbrev pub is_some : Option ℕ → Bool
is_some none = false
is_some (some a) = true

abbrev pub points_to : Option ℕ → ℕ → Bool
points_to none a = false
points_to (some b) a = b == a

-- `ele` is the element behind a queue that ends with `tail`.
abbrev pub push_behind : Option ℕ → Heap → Deque → ℕ → Heap × Deque
push_behind none h dq ele = (h, record { head = some ele; tail = some ele })
push_behind (some t) h dq ele = (set_next h t (some ele), record dq { tail = some ele })

unfoldable pub push_back : Heap → Deque → ℕ → Heap × Deque
push_back h dq ele =
    if is_some ((h ele).prev) || (is_some ((h ele).next) || points_to dq.head ele)
    then (h, dq)
    else push_behind dq.tail (set_prev (set_next h ele none) ele dq.tail) dq ele

-- The queue goes on with `next`.
abbrev pub pop_to : Option ℕ → Heap → Deque → Heap × Deque
pop_to none h dq = (h, record { head = none; tail = none })
pop_to (some n) h dq = (set_prev h n none, record dq { head = some n })

abbrev pub pop_head : Option ℕ → Heap → Deque → Option ℕ × Heap × Deque
pop_head none h dq = (none, h, dq)
pop_head (some ele) h dq =
    let (h', dq') = pop_to ((h ele).next) h dq in
    (some ele, set_next (set_prev h' ele none) ele none, dq')

unfoldable pub pop_front : Heap → Deque → Option ℕ × Heap × Deque
pop_front h dq = pop_head dq.head h dq

-- All of `src`, which begins with `s`, behind `dst`, which ends with `tail`.
abbrev pub pushq_behind : Option ℕ → Heap → ℕ → Deque → Deque → Heap × Deque × Deque
pushq_behind none h s dst src = (h, src, empty)
pushq_behind (some t) h s dst src = (set_next h t (some s), record dst { tail = src.tail }, empty)

abbrev pub pushq_from : Option ℕ → Heap → Deque → Deque → Heap × Deque × Deque
pushq_from none h dst src = (h, dst, src)
pushq_from (some s) h dst src = pushq_behind dst.tail (set_prev h s dst.tail) s dst src

unfoldable pub pushq : Heap → Deque → Deque → Heap × Deque × Deque
pushq h dst src = pushq_from src.head h dst src
