-- ===== src/Aio/Stream.antt =====
-- lib/dpapp/dpasc.c: the streams `dpaio_read_some`, `dpaio_read_must`, `dpaio_read_until`,
-- `dpaio_read_data`, `dpaio_write_some`, `dpaio_write_must` and `dpaio_write_data`. `prep` prepares
-- the buffer, `post` runs at each event until it does not answer `DPE_WAIT`. The operation of the
-- descriptor below, `sub`, is any one that satisfies `Reader` or `Writer`.
pub mod Data
pub mod Read
pub mod Write
use dpapp.Common.{
  ℕ, zero, suc, ◌+◌, ◌<◌, ◌≡◌, refl, Bool, false, Option, none, some, List, [], ltb, if◌then◌else◌,
  length, take,
}
use dpapp.Common.Int.{ℤ, pos, negsuc, pos_part}
use dpapp.Common.Outcome.{Outcome, done, ◌>>=◌, Returns}
use dpapp.Mem.{Block, write_at}
use dpapp.Buf.{Buf, bytes, with_bytes}
use dpapp.Aio.{Posted, errno}
use dpapp.Aio.Post.Moves.{Sound}

-- `_dpaio_stm_t`. `io_at`, `io_len`, `total` and `flag` are the fields of its `io`. To read, `io.buf`
-- always points to `wbeg` of the buffer; to write it has a position of its own, `io_at`.
pub record Stm : Type 0 where
  pub buf : Buf
  pub io_at : ℕ
  pub io_len : ℕ
  pub total : ℕ
  pub flag : ℕ
  pub len : ℕ
  pub until : Block
  pub until_len : ℕ

-- `DPAIO_BATCH_SIZE`.
abbrev pub batch : ℕ
batch = 8192

-- `post` of the operation that reads n bytes, with `io.flag` as the flags of the call, and of the one
-- that writes a block. Without flags the call does as documented.
pub record Reader (K : Type 0) : Type 0 where
  pub post : (flag n : ℕ) → K → Outcome (Posted K)
  pub sound :
      (flag n : ℕ) (k : K) → flag ≡ 0 → 0 < n → Returns (Sound n (λ xs. Unit {0})) (post flag n k)

pub record Writer (K : Type 0) : Type 0 where
  pub post : Block → K → Outcome (Posted K)
  pub sound :
      (src : Block) (k : K)
      → 0 < length src
      → Returns (Sound (length src) (λ xs. xs ≡ take (length xs) src)) (post src k)

-- What `post` of a stream answers: its return value, the stream, whether the event was withdrawn,
-- and the system.
pub record Next (K : Type 0) : Type 0 where
  pub ret : ℤ
  pub stm : Stm
  pub inva : Bool
  pub system : K

module _ {K : Type 0} where
  abbrev pub answer : Posted K → Stm → ℤ → Next K
  answer p stm ret = record { ret = ret; stm = stm; inva = p.inva; system = p.system }

-- `if (ret <= 0)` with `stop`, and what follows for another value.
abbrev pub on_ret : {A : Type 0} → ℤ → A → (ℕ → A) → A
on_ret (pos zero) stop go = stop
on_ret (pos (suc n)) stop go = go (suc n)
on_ret (negsuc n) stop go = stop

-- The operation below brought or took just the bytes `xs`.
abbrev pub Came : {K : Type 0} → Posted K → Block → Type 0
Came p xs = (p.bytes ≡ xs) × (p.ret ≡ pos (length xs))

-- It answered 0 or an error.
abbrev pub Stopped : {K : Type 0} → Posted K → Type 0
Stopped p = ltb 0 (pos_part p.ret) ≡ false

pub errno-Stopped : (e : ℕ) → ltb 0 (pos_part (errno e)) ≡ false
errno-Stopped zero = refl
errno-Stopped (suc e) = refl

-- `stm->io.total > 0 ? stm->io.total : ret`.
abbrev pub total_or : Stm → ℤ → ℤ
total_or stm ret = if ltb 0 stm.total then pos stm.total else ret

-- The `prep` of the operation below refuses NULL and a length that is not positive.
abbrev pub sub_prep : {A : Type 0} → Option Buf → ℤ → A → (Buf → ℕ → A) → A
sub_prep none len stop go = stop
sub_prep (some b) (pos zero) stop go = stop
sub_prep (some b) (pos (suc n)) stop go = go b (suc n)
sub_prep (some b) (negsuc n) stop go = stop

-- A stream on `b` for `len` bytes, at its beginning.
abbrev pub fresh : Buf → ℕ → Stm
fresh b len = record {
  buf = b;
  io_at = b.rbeg;
  io_len = 0;
  total = 0;
  flag = 0;
  len = len;
  until = [];
  until_len = 0;
}
