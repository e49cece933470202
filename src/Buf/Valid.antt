-- ===== src/Buf/Valid.antt =====
-- When the cursors and the storage of a buffer fit together, and what the buffer holds.
use dpapp.Common.{◌-◌, ◌≤◌, ◌<◌, ◌≡◌, refl, ◌∙◌, length}
use dpapp.Mem.{Block, slice}
use dpapp.Buf.{Buf, bytes}

-- The block has room for what the buffer counts on and for a 0 behind it.
pub record IsValid (b : Buf) : Type 0 where
  pub read_order : b.rbeg ≤ b.rend
  pub write_order : b.rend ≤ b.wbeg
  pub in_size : b.wbeg ≤ b.size
  pub in_block : b.size < length b.data_ref.bytes
  pub maxs_in_block : b.data_ref.maxs ≤ length b.data_ref.bytes

-- The bytes of the readable window.
abbrev pub readable : Buf → Block
readable b = slice (bytes b) b.rbeg (b.rend - b.rbeg)

-- The bytes that were written and not yet read.
abbrev pub pending : Buf → Block
pending b = slice (bytes b) b.rend (b.wbeg - b.rend)

-- `b'` is valid, holds what `b` holds and has its tags and flags.
pub record Keeps (b b' : Buf) : Type 0 where
  pub valid : IsValid b'
  pub same_readable : readable b' ≡ readable b
  pub same_pending : pending b' ≡ pending b
  pub same_utype : b'.utype ≡ b.utype
  pub same_uflag : b'.uflag ≡ b.uflag
  pub same_flag : b'.flag ≡ b.flag
  pub same_data_flag : b'.data_ref.flag ≡ b.data_ref.flag

pub Keeps-refl : {b : Buf} → IsValid b → Keeps b b
Keeps-refl v = record {
  valid = v;
  same_readable = refl;
  same_pending = refl;
  same_utype = refl;
  same_uflag = refl;
  same_flag = refl;
  same_data_flag = refl;
}

pub Keeps-trans : {a b c : Buf} → Keeps a b → Keeps b c → Keeps a c
Keeps-trans h k = record {
  valid = k.valid;
  same_readable = k.same_readable ∙ h.same_readable;
  same_pending = k.same_pending ∙ h.same_pending;
  same_utype = k.same_utype ∙ h.same_utype;
  same_uflag = k.same_uflag ∙ h.same_uflag;
  same_flag = k.same_flag ∙ h.same_flag;
  same_data_flag = k.same_data_flag ∙ h.same_data_flag;
}
