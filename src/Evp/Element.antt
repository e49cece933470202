-- ===== src/Evp/Element.antt =====
-- dpevp_epoll.c: the life of an element that is no cross-thread call (`dpele_t` of type EFD, USD or TMR):
-- its references, the operation under way, the queue of finished elements and the timers.
pub mod Sound
mod Add
mod Calls
mod Examples
mod Over
mod Pop
mod Freed
pub mod Run
use dpapp.Common.{
  ℕ, zero, suc, ◌+◌, ◌-◌, ◌%◌, ◌^◌, Bool, true, false, ◌&&◌, ◌||◌, not, Option, none, some, List,
  [], ◌∷◌, ◌++◌, ◌==◌, if◌then◌else◌,
}
use dpapp.Common.Int.{ℤ, pos, negsuc, ltb_ℤ}
use dpapp.Common.Outcome.{Outcome, done, fault, ◌>>=◌}
use dpapp.Aio.{wait, inval, continue}
use dpapp.Evp.Ready.{Efd, Out, Post, is_wait, inprogress, wake, feed}

-- `DPELE_TYPE_EFD`, `DPELE_TYPE_USD` and `DPELE_TYPE_TMR`.
pub data Kind : Type 0 where
  efd : Kind
  usd : Kind
  tmr : Kind

-- The fields of `dpele_t` that these functions use. `asc` is `asc_type`, an operation by its number;
-- `after`: a timeout is set; `io`: the type has an `iotype`; `refc` is the counter as `uint32_t`.
pub record Ele : Type 0 where
  pub kind : Kind
  pub io : Bool
  pub able : ℕ
  pub want : ℕ
  pub refc : ℕ
  pub asc : Option ℕ
  pub after : Bool
  pub detach : Bool
  pub ret : ℤ
  pub cop : Option ℕ

-- The elements by their addresses (`none`: no live block there), `ready` of the event loop, and the
-- elements that its timer set holds.
pub record World : Type 0 where
  pub ele : ℕ → Option Ele
  pub ready : List ℕ
  pub timers : List ℕ

-- What `prep` of an operation answers: its return value, `out`, and whether a timeout is set then.
pub record Prep : Type 0 where
  pub ret : ℤ
  pub out : Out
  pub after : Bool

-- `dpasc_t`, whose functions are code of the operation, on a system `K`. `accepts` has `types` and
-- `iotypes`. `ending` is the `post` of an operation on a timer or a user's element.
pub record Op (K : Type 0) : Type 0 where
  pub accepts : Kind → Bool
  pub allow_doing : Bool
  pub prep : K → Prep
  pub post : Out → K → Post K
  pub fuel : K → ℕ
  pub ending : Option (World → Outcome (ℤ × World))

abbrev pub ok : ℤ
ok = pos 0

abbrev pub perm : ℤ
perm = negsuc 0

abbrev pub busy : ℤ
busy = negsuc 15

abbrev pub time : ℤ
time = negsuc 61

-- How often a queue holds an element.
abbrev pub count : ℕ → List ℕ → ℕ
count a [] = 0
count a (b ∷ bs) = let rest = count a bs in if a == b then suc rest else rest

abbrev pub has : ℕ → List ℕ → Bool
has a bs = not (count a bs == 0)

abbrev pub without_ele : ℕ → List ℕ → List ℕ
without_ele a [] = []
without_ele a (b ∷ bs) = let rest = without_ele a bs in if a == b then rest else b ∷ rest

abbrev pub is_doing : Option ℕ → Bool
is_doing none = false
is_doing (some i) = true

abbrev pub is_efd : Kind → Bool
is_efd efd = true
is_efd usd = false
is_efd tmr = false

-- An access through a pointer to an element.
abbrev pub at : Option Ele → Outcome Ele
at none = fault
at (some e) = done e

abbrev pub load : World → ℕ → Outcome Ele
load w a = at (w.ele a)

abbrev pub put : World → ℕ → Option Ele → World
put w a o = record w { ele = λ b. if b == a then o else w.ele b }

-- `_dpele_deque_push_back`: an element that a queue holds stays where it is.
abbrev pub push_ready : World → ℕ → World
push_ready w a = record w { ready = if has a w.ready then w.ready else w.ready ++ (a ∷ []) }

-- `_dptmrset_remove`.
abbrev pub untime : World → ℕ → World
untime w a = record w { timers = without_ele a w.timers }

-- `_dptmrset_upsert`; its answer is not used.
abbrev pub time_if : Bool → World → ℕ → World
time_if after w a = if after && not (has a w.timers) then record w { timers = a ∷ w.timers } else w

-- `_dpele_new` at an address that `calloc` gives, and `dpele_newv` where `init` of the type succeeds.
unfoldable pub create : Kind → Bool → World → ℕ → World
create kind io w a = put w a (
    some (record {
      kind = kind;
      io = io;
      able = 0;
      want = 0;
      refc = 1;
      asc = none;
      after = false;
      detach = false;
      ret = ok;
      cop = none;
    }))

-- `dpele_ref`.
unfoldable pub ref : World → ℕ → Outcome World
ref w a = do e ← load w a; done (put w a (some (record e { refc = (e.refc + 1) % 2 ^ 32 })))

-- `dpele_del`. `_dpele_del` frees the block.
unfoldable pub del : World → ℕ → Outcome World
del w a = do
  e ← load w a
  done (
      if e.refc == 1 && not (is_doing e.asc)
      then put w a none
      else put w a (some (record e { refc = (e.refc + (2 ^ 32 - 1)) % 2 ^ 32 })))

-- `dpele_set_detach`.
unfoldable pub set_detach : Bool → World → ℕ → Outcome (ℤ × World)
set_detach d w a = do
  e ← load w a
  done (if is_doing e.asc then (busy, w) else (ok, put w a (some (record e { detach = d }))))

-- `dpele_wait`.
unfoldable pub await : Option ℕ → World → ℕ → Outcome (Bool × World)
await cop w a = do
  e ← load w a
  done (
      if is_doing e.asc && not e.detach
      then (true, put w a (some (record e { cop = cop })))
      else (false, w))

-- `dpevp_end`: the operation of the element ends with `r`.
abbrev pub ended : ℤ → Ele → Ele
ended r e = record e { ret = r; want = if is_efd e.kind then 0 else e.want }

unfoldable pub end : ℤ → World → ℕ → Outcome World
end r w a = do
  e ← load w a
  done (if is_doing e.asc then push_ready (put (untime w a) a (some (ended r e))) a else w)

abbrev pub is_ok : ℤ → Bool
is_ok r = not (ltb_ℤ r (pos 0))

-- The part of `dpevp_addv` behind `FINISH`, for the result `r`.
unfoldable pub finish_add : ℤ → World → ℕ → Ele → ℤ × World
finish_add r w a e =
    if is_ok r
    then (if e.detach then r else wait, push_ready (put w a (some (record e { ret = r }))) a)
    else if is_wait r
    then (
      if e.detach then ok else wait,
      time_if e.after (put w a (some (record e { ret = inprogress }))) a,
    )
    else (r, put w a (some (record e { ret = r; asc = none })))

abbrev pub efd_of : Ele → Efd
efd_of e = record { able = e.able; want = e.want; doing = is_doing e.asc; ret = e.ret }

-- The element with what `_dpefd_wake` or `_dpefd_feed` has made of its events.
abbrev pub with_efd : Ele → Efd → Ele
with_efd e f = record e { able = f.able; want = f.want }

-- The reaction of `dpevp_addv` on `DPE_CONTINUE`.
unfoldable pub start : {K : Type 0} → Op K → Out → K → World → ℕ → Ele → Outcome (ℤ × World)
start op out k w a e =
    if is_efd e.kind
    then (do
      (r, f, k') ← wake op.post (op.fuel k) (efd_of e) out k
      done (finish_add r w a (with_efd e f)))
    else done (finish_add wait w a e)

abbrev pub is_continue : ℤ → Bool
is_continue (pos n) = false
is_continue (negsuc n) = n == 189

-- `asc->prep` and what follows; `i` is the operation's number.
abbrev pub prepared : {K : Type 0} → Op K → ℕ → K → World → ℕ → Ele → Prep → Outcome (ℤ × World)
prepared op i k w a e p =
    let e' = record e { asc = some i; after = p.after } in
    if is_continue p.ret then start op p.out k w a e' else done (finish_add p.ret w a e')

-- `dpevp_addv`.
unfoldable pub add : {K : Type 0} → Op K → ℕ → K → World → ℕ → Outcome (ℤ × World)
add op i k w a = do
  e ← load w a
  if not (op.accepts e.kind)
      then done (inval, w)
      else if is_doing e.asc && not op.allow_doing
      then done (perm, w)
      else prepared op i k w a e (op.prep k)

-- The part of `_dpele_asc_over` behind `OVER`: the element that `dpevp_pop` returns, if any.
unfoldable pub over_last : World → ℕ → Outcome (Option ℕ × World)
over_last w a = do
  e ← load w a
  done (if e.refc == 0 then (none, put w a none) else (if e.detach then none else some a, w))

-- `asct->post`, where there is one.
abbrev pub run_ending : Option (World → Outcome (ℤ × World)) → World → ℕ → Outcome World
run_ending none w a = done w
run_ending (some post) w a = do
  (r, w') ← post w
  e ← load w' a
  done (put w' a (some (record e { ret = r })))

module _ {K : Type 0} (ops : ℕ → Op K) where
  abbrev pub ending_of : Option ℕ → Option (World → Outcome (ℤ × World))
  ending_of none = none
  ending_of (some i) = (ops i).ending

  -- `_dpele_asc_over`.
  unfoldable pub over : World → ℕ → Outcome (Option ℕ × World)
  over w a = do
    e ← load w a
    let idle = put w a (some (record e { want = 0; asc = none })) in
        if is_efd e.kind || e.io
        then over_last idle a
        else (do w' ← run_ending (ending_of e.asc) idle a; over_last w' a)

  abbrev pub pop_from : World → List ℕ → Outcome (Option ℕ × World)
  pop_from w [] = done (none, w)
  pop_from w (a ∷ rest) = over (record w { ready = rest }) a

  -- A round of `dpevp_pop` on `ready`.
  unfoldable pub pop_ready : World → Outcome (Option ℕ × World)
  pop_ready w = pop_from w w.ready

  -- A round of `dpevp_pop` on the timers, where `dptmrset_expire` gives the element `a`.
  unfoldable pub pop_timer : World → ℕ → Outcome (Option ℕ × World)
  pop_timer w a = do e ← load w a; over (put (untime w a) a (some (record e { ret = time }))) a

  abbrev pub op_of : Option ℕ → Op K
  op_of none = ops 0
  op_of (some i) = ops i

  -- A round of `_worker_reap_efd` for an event of the descriptor `a`, and of `dpevp_pop` behind it.
  unfoldable pub pop_event : ℕ → K → World → ℕ → Outcome (Option ℕ × World)
  pop_event evs k w a = do
    e ← load w a
    let op = op_of e.asc in
        do
          (gone, f, k') ← feed op.post (op.fuel k) (efd_of e) evs k
          let w' = put w a (some (record (with_efd e f) { ret = f.ret })) in
              if gone then over (untime w' a) a else done (none, w')
