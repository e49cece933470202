-- ===== src/Buf/Capacity/Enough.antt =====
-- `_dpbuf_resize`, `dpbuf_resizew` and `_dpbuf_wcheck` on a valid buffer: they make room or say that
-- there is none, and keep what the buffer holds.
use dpapp.Common.{
  ℕ, ◌+◌, ◌-◌, ◌^◌, ◌≤◌, ◌<◌, ◌≡◌, refl, inl, inr, Bool, true, false, ◌==◌, arith, Bool-cases,
  if◌then◌else◌, ◌||◌, not,
}
use dpapp.Common.Int.{pos, add_int-pos, ltb_ℤ}
use dpapp.Common.Outcome.{done, Returns, returns, Returns-bind, Returns-mono}
use dpapp.Mem.{Alloc}
use dpapp.Buf.{Data, Buf, norecycle, has_flag, cwsize}
use dpapp.Buf.Capacity.{resize, recycle_data, recycle, resizew, wcheck}
use dpapp.Buf.Capacity.Room.{Resized, data_resize-Resized}
use dpapp.Buf.Capacity.Recycle.{recycle_data-Keeps}
use dpapp.Buf.Valid.{IsValid, Keeps, Keeps-refl, Keeps-trans}

-- The outcome of a call that is to make the buffer `n` bytes large.
pub record Sized (b : Buf) (n : ℕ) (out : Bool × Buf) : Type 0 where
  pub keeps : Keeps b out.1
  pub same_wbeg : out.1.wbeg ≡ b.wbeg
  pub sized : out.0 ≡ true → out.1.size ≡ n

-- The outcome of a call that is to make room for `n` bytes behind `wbeg`.
pub record Made (b : Buf) (n : ℕ) (out : Bool × Buf) : Type 0 where
  pub keeps : Keeps b out.1
  pub room : out.0 ≡ true → out.1.wbeg + n ≤ out.1.size

Resized-Sized :
    {b : Buf} (n : ℕ) (r : Bool) (d : Data)
    → IsValid b
    → b.wbeg ≤ n
    → Resized b.data_ref n (r, d)
    → Sized b n (r, record b { data_ref = d; size = if r then n else b.size })
Resized-Sized {b} n false d v h e =
    rw e (record { keeps = Keeps-refl v; same_wbeg = refl; sized = λ c. cc })
Resized-Sized {b} n true d v h f = record {
  keeps = record {
    valid = record {
      read_order = v.read_order;
      write_order = v.write_order;
      in_size = h;
      in_block = f.room;
      maxs_in_block = f.maxs_room;
    };
    same_readable = f.kept b.rbeg (b.rend - b.rbeg) (omega arith) (omega arith);
    same_pending = f.kept b.rend (b.wbeg - b.rend) (omega arith) (omega arith);
    same_utype = refl;
    same_uflag = refl;
    same_flag = refl;
    same_data_flag = f.same_flag;
  };
  same_wbeg = refl;
  sized = λ _. refl;
}

module _ (env : Alloc) where
  resize-Sized :
      {b : Buf} (n : ℕ)
      → IsValid b
      → b.wbeg ≤ n
      → n < 2 ^ 30
      → Returns (Sized b n) (resize env b (pos n))
  unfolding resize
  resize-Sized {b} n v h small = elim (Bool-cases (n == 0)) [
    | inl e ↦ rw e (returns (record { keeps = Keeps-refl v; same_wbeg = refl; sized = λ c. cc }))
    | inr ne ↦ rw ne (
        Returns-bind (data_resize-Resized env b.data_ref n v.maxs_in_block small)
          λ (r, d) f. returns (Resized-Sized n r d v h f))
  ]

  pub compact-Keeps :
      {b : Buf}
      → IsValid b
      → Returns
          (λ b'. Keeps b b' × (b'.wbeg ≤ b.wbeg))
          (if has_flag b.flag norecycle then done b else recycle_data b)
  compact-Keeps {b} v = elim (Bool-cases (has_flag b.flag norecycle)) [
    | inl e ↦ rw e (returns (Keeps-refl v, omega arith))
    | inr e ↦ rw e (Returns-mono (recycle_data-Keeps v) λ b' k. (k.0, k.1))
  ]

  -- Dpbuf_resizew of a valid buffer with wbeg + n < 2^30 has no undefined behaviour, keeps the
  -- buffer valid with its readable and pending bytes, tags and flags, and if it returns true there
  -- is room for n bytes behind wbeg.
  pub resizew-Made :
      {b : Buf} (n : ℕ)
      → IsValid b
      → b.wbeg + n < 2 ^ 30
      → Returns (Made b n) (resizew env b (pos n))
  unfolding resizew
  resizew-Made {b} n v small = Returns-bind (compact-Keeps v) λ b' k.
      rw (add_int-pos b'.wbeg n (omega arith)) (
        Returns-mono (resize-Sized (b'.wbeg + n) k.0.valid (omega arith) (omega arith)) λ out s.
          record {
            keeps = Keeps-trans k.0 s.keeps;
            room = λ e. omega (arith, s.sized e, s.same_wbeg);
          })

  -- `_dpbuf_wcheck` likewise.
  pub wcheck-Made :
      {b : Buf} (n : ℕ)
      → IsValid b
      → b.wbeg + n < 2 ^ 30
      → Returns (Made b n) (wcheck env b (pos n))
  unfolding wcheck
  wcheck-Made {b} n v small = elim (Bool-cases (ltb_ℤ (cwsize b) (pos n))) [
    | inl e ↦ rw e (resizew-Made n v small)
    | inr e ↦ rw e (returns (record { keeps = Keeps-refl v; room = λ _. ground arith }))
  ]

  -- `dpbuf_recycle` on a valid buffer.
  pub recycle-Keeps : {b : Buf} (force : Bool) → IsValid b → Returns (Keeps b) (recycle env b force)
  unfolding recycle resize
  recycle-Keeps {b} force v = elim (Bool-cases (force || not (has_flag b.flag norecycle))) [
    | inl e ↦ rw e (Returns-bind (recycle_data-Keeps v) λ b' k. returns k.0)
    | inr e ↦ rw e (returns (Keeps-refl v))
  ]
