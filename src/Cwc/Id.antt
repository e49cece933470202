-- ===== src/Cwc/Id.antt =====
-- dpcwc_aux.c: identifiers of 64 bits, and their text in base 62.
pub mod Text
pub mod Unique
mod Examples
use dpapp.Common.{
  ℕ, zero, suc, ◌+◌, ◌-◌, ◌*◌, ◌/◌, ◌%◌, ◌^◌, Bool, ◌&&◌, Option, none, some, List, [], ◌∷◌, ◌++◌,
  ◌==◌, ltb, leb, if◌then◌else◌, take, replicate,
}

-- `base62_chars`, as character codes.
unfoldable pub base62_char : ℕ → ℕ
base62_char d = if ltb d 10 then 48 + d else if ltb d 36 then 65 + (d - 10) else 97 + (d - 36)

-- The loop of `_to_base62` with the places below `n` still to write, and `out` written behind them.
-- What it does not write is '0' by `memset`.
unfoldable pub fill : ℕ → ℕ → List ℕ → List ℕ
fill zero value out = out
fill (suc n) value out =
    let more = fill n (value / 62) (base62_char (value % 62) ∷ out) in
    if ltb 0 value then more else replicate (suc n) 48 ++ out

-- `_to_base62`: 11 characters.
unfoldable pub to_base62 : ℕ → List ℕ
to_base62 value = fill 11 value []

unfoldable pub digit : ℕ → Option ℕ
digit c =
    if leb 48 c && leb c 57
    then some (c - 48)
    else if leb 65 c && leb c 90
    then some (10 + (c - 65))
    else if leb 97 c && leb c 122
    then some (36 + (c - 97))
    else none

-- The loop of `_to_uint64`.
abbrev pub then_parse : Option ℕ → (ℕ → ℕ) → ℕ
then_parse none go = 0
then_parse (some d) go = go d

unfoldable pub parse : List ℕ → ℕ → ℕ
parse [] v = v
parse (c ∷ cs) v = then_parse (digit c) λ d. parse cs ((v * 62 + d) % 2 ^ 64)

-- `_to_uint64` on the characters of a string; `none` is NULL.
unfoldable pub to_uint64 : Option (List ℕ) → ℕ
to_uint64 none = 0
to_uint64 (some s) = parse (take 11 s) 0

-- `struct dpcwc_id_t`.
pub record Fields : Type 0 where
  pub sequence : ℕ
  pub thread_id : ℕ
  pub machine_id : ℕ
  pub timestamp : ℕ

-- The bit fields from the lowest on.
unfoldable pub pack : Fields → ℕ
pack f =
    f.sequence % 2 ^ 10
    + 2 ^ 10
      * (f.thread_id % 2 ^ 8 + 2 ^ 8 * (f.machine_id % 2 ^ 5 + 2 ^ 5 * (f.timestamp % 2 ^ 41)))

-- `struct dpcwc_id_ctx_t`.
pub record Ctx : Type 0 where
  pub sequence : ℕ
  pub timestamp : ℕ

abbrev pub base_ts : ℕ
base_ts = 1735660800000

-- `dplog_millis() - _baseTS` in a field of 41 bits.
abbrev pub stamp : ℕ → ℕ
stamp now = (now + (2 ^ 64 - base_ts)) % 2 ^ 41

-- The loop that waits for another time than `old`; `later` is what the clock shows after each sleep.
-- It has no result if that is not enough.
unfoldable pub wait_for : ℕ → ℕ → List ℕ → Option ℕ
wait_for old t [] = if t == old then none else some t
wait_for old t (now ∷ later) =
    let rest = wait_for old (stamp now) later in if t == old then rest else some t

-- What another coroutine of the thread finds while the call sleeps.
abbrev pub while_waiting : Ctx → Ctx
while_waiting ctx = record ctx { sequence = 0 }

abbrev pub issued : Fields → Option ℕ → Option (Fields × Ctx)
issued f none = none
issued f (some t) = some (record f { timestamp = t }, record { sequence = 0; timestamp = t })

-- `dpcwc_id_next` where no other coroutine of the thread calls it while it sleeps; `now` is what the
-- clock shows first.
unfoldable pub next : ℕ → ℕ → Ctx → ℕ → List ℕ → Option (Fields × Ctx)
next machine thread ctx now later =
    let f : Fields = record {
      sequence = ctx.sequence % 2 ^ 10;
      thread_id = thread;
      machine_id = machine;
      timestamp = stamp now;
    } in
    if f.sequence == 1023
    then issued f (wait_for ctx.timestamp (stamp now) later)
    else some (f, record { sequence = ctx.sequence + 1; timestamp = stamp now })

abbrev pub behind : ℕ → Option (List ℕ) → Option (List ℕ)
behind id none = none
behind id (some ids) = some (id ∷ ids)

abbrev pub then_ids : Option (Fields × Ctx) → (Ctx → Option (List ℕ)) → Option (List ℕ)
then_ids none rest = none
then_ids (some (f, ctx)) rest = behind (pack f) (rest ctx)

-- What a thread gets from calls one after the other, each with what the clock shows in it.
unfoldable pub ids : ℕ → ℕ → Ctx → List (ℕ × List ℕ) → Option (List ℕ)
ids machine thread ctx [] = some []
ids machine thread ctx ((now, later) ∷ calls) =
    then_ids (next machine thread ctx now later) λ ctx'. ids machine thread ctx' calls
