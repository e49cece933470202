-- ===== src/App.antt =====
-- lib/dpapp/dpapp.c and lib/dpapp/os/dpevp_pri.c: the numbers of the event loops, and how a
-- cross-thread call finds the one it goes to.

mod Examples
pub mod Target
use dpapp.Common.{
  ℕ, zero, suc, ◌+◌, ◌*◌, ◌%◌, ◌^◌, Option, none, some, List, [], ◌∷◌, ◌==◌, ltb, leb,
  if◌then◌else◌, length, get_elem?,
}
use dpapp.Common.Int.{ℤ, pos, negsuc, int_max}
use dpapp.Common.Outcome.{Outcome, done, fault, ◌>>=◌}

-- The thread layout in `_gevps`: how many types and event loops there are, and by type how many, and
-- their numbers; `none` is NULL.
pub record Layout : Type 0 where
  pub type_count : ℕ
  pub count : ℕ
  pub each_count : List ℕ
  pub each_ids : List (Option (List ℕ))

-- n numbers from `next` on.
unfoldable pub ids_from : ℕ → ℕ → List ℕ
ids_from next zero = []
ids_from next (suc n) = next ∷ ids_from (suc next) n

-- How many threads a type has: none where `each_count` is not positive.
abbrev pub thread_num : ℤ → ℕ
thread_num (pos n) = n
thread_num (negsuc n) = 0

abbrev pub ids_of : ℕ → ℕ → Option (List ℕ)
ids_of next n = if ltb 0 n then some (ids_from next n) else none

-- The loop of `dpapp_init` over the types behind the first one, if there is memory for it, on the
-- event loops counted so far.
unfoldable pub place : ℕ → ℕ → List ℤ → Layout
place types next [] = record { type_count = types; count = next; each_count = []; each_ids = [] }
place types next (pc ∷ rest) =
    let n = thread_num pc in
    let others = place types (next + n) rest in
    record others { each_count = n ∷ others.each_count; each_ids = ids_of next n ∷ others.each_ids }

-- The layout for `each_count`; the first type is the main thread, whatever its count.
unfoldable pub layout : ℤ → List ℤ → Layout
layout main rest =
    let others = place (suc (length rest)) 1 rest in
    record others { each_count = 1 ∷ others.each_count; each_ids = some (0 ∷ []) ∷ others.each_ids }

-- The loop of `_dpctc_hash_ptr` over the bytes of the pointer, on `uint32_t`.
unfoldable pub hash_bytes : ℕ → List ℕ → ℕ
hash_bytes v [] = v
hash_bytes v (b ∷ bs) = hash_bytes ((v * 31 + b) % 2 ^ 32) bs

abbrev pub hash_ptr : List ℕ → ℕ → ℕ
hash_ptr bytes range = hash_bytes 0 bytes % range

-- What stands at an index of an array, or behind a pointer: outside, or at NULL, the access is
-- undefined.
abbrev pub item : {A : Type 0} → Option A → Outcome A
item none = fault
item (some x) = done x

-- `each_ids[t][idx]`.
abbrev pub pick : Layout → List ℕ → ℕ → ℕ → Outcome (Option ℕ)
pick l key t n = do
  ptr ← item (get_elem? l.each_ids t)
  ids ← item ptr
  id ← item (get_elem? ids (hash_ptr key n))
  done (some id)

-- The case of a type; `none` is `DPE_INVAL`.
unfoldable pub by_type : Layout → List ℕ → ℕ → Outcome (Option ℕ)
by_type l key t =
    if leb l.type_count t
    then done none
    else do n ← item (get_elem? l.each_count t); if n == 0 then done none else pick l key t n

-- `_dpctc_resolve_toid`. The negation overflows for `INT_MIN`.
unfoldable pub resolve_toid : Layout → List ℕ → ℤ → Outcome (Option ℕ)
resolve_toid l key (pos n) = done (if ltb n l.count then some n else none)
resolve_toid l key (negsuc n) = if ltb n int_max then by_type l key (suc n) else fault
