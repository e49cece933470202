-- ===== src/Buf.antt =====
-- lib/dpapp/dpbuf.h and dpbuf.c: `dpbuf_t`, a growable byte buffer on one block of memory with the
-- windows [rbeg, rend) to be read, [rend, wbeg) written and not yet read, [wbeg, size) free.
-- A cursor is a natural number; an operation that would store a negative one is a `fault`.
-- The children hold the operations by kind, and below each of them its theorems.
pub mod Capacity
pub mod Create
mod Examples
pub mod Read
pub mod Scan
pub mod Seek
pub mod Valid
pub mod Write
use dpapp.Common.{ℕ, ◌-◌, ◌^◌, Bool, not, bit_and, bit_or, ◌==◌, if◌then◌else◌}
use dpapp.Common.Int.{ℤ, negsuc, sub_ℕ}
use dpapp.Mem.{Block}

-- `dpbuf_data_t`: the block, the size that it counts as, its flags and its reference count.
pub record Data : Type 0 where
  pub bytes : Block
  pub maxs : ℕ
  pub flag : ℕ
  pub refc : ℕ

-- `dpbuf_t`. The storage that it points to is held in the record: a buffer is the only one that uses
-- its storage.
pub record Buf : Type 0 where
  pub utype : ℕ
  pub uflag : ℕ
  pub flag : ℕ
  pub rbeg : ℕ
  pub rend : ℕ
  pub wbeg : ℕ
  pub size : ℕ
  pub data_ref : Data

abbrev pub dpbuf_max_size : ℕ
dpbuf_max_size = 0x4fff_ffff

abbrev pub dpbuf_s_size : ℕ
dpbuf_s_size = 1024

abbrev pub constdata : ℕ
constdata = 2

abbrev pub norecycle : ℕ
norecycle = 4

abbrev pub flagmask : ℕ
flagmask = 0xf

abbrev pub init_r_mode : ℕ
init_r_mode = 0x100

abbrev pub init_w_mode : ℕ
init_w_mode = 0x200

abbrev pub dup_data : ℕ
dup_data = 0x400

-- The error codes of errno.h that the file returns, negated.
abbrev pub eperm : ℤ
eperm = negsuc 0

abbrev pub enomem : ℤ
enomem = negsuc 11

abbrev pub einval : ℤ
einval = negsuc 21

abbrev pub enodata : ℤ
enodata = negsuc 60

-- `f & m` as a condition.
abbrev pub has_flag : ℕ → ℕ → Bool
has_flag f m = not (bit_and f m == 0)

-- `dpbuf_crsize`, `dpbuf_cwsize`, `dpbuf_cesize`: differences of `int`s.
abbrev pub crsize : Buf → ℤ
crsize b = sub_ℕ b.rend b.rbeg

abbrev pub cwsize : Buf → ℤ
cwsize b = sub_ℕ b.size b.wbeg

abbrev pub cesize : Buf → ℤ
cesize b = sub_ℕ b.wbeg b.rend

-- The block of the buffer's storage.
abbrev pub bytes : Buf → Block
bytes b = b.data_ref.bytes

-- The buffer with another block.
abbrev pub with_bytes : Buf → Block → Buf
with_bytes b xs = record b { data_ref = record (b.data_ref) { bytes = xs } }

-- `dpbuf_cpusr(src, dst)`.
pub cpusr : Buf → Buf → Buf
cpusr src dst = record dst { utype = src.utype; uflag = src.uflag }

-- `dpbuf_set_recycle` on a 32-bit flag word.
pub set_recycle : Buf → Bool → Buf
set_recycle b on =
    if on
    then record b { flag = bit_and b.flag (2 ^ 32 - 1 - norecycle) }
    else record b { flag = bit_or b.flag norecycle }

-- `dpbuf_reset`.
pub reset : Buf → ℕ → Buf
reset b mode =
    if has_flag mode init_r_mode
    then record b { rbeg = 0; rend = b.size; wbeg = b.size }
    else if has_flag mode init_w_mode
    then record b { rbeg = 0; rend = 0; wbeg = 0 }
    else record b { rbeg = 0; rend = 0; wbeg = 0; size = 0 }
