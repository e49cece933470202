-- ===== src/Buf/Create.antt =====
-- The constructors of dpbuf.c: `_dpbuf_data_new`, `_dpbuf_data_new_d`, `dpbuf_init*`, `dpbuf_new*`,
-- `dpbuf_dup_*`, `dpbuf_from_*`.
-- `none` is the result NULL or false. `init` and `new` differ in one allocation.
pub mod Copies
use dpapp.Common.{
  ℕ, ◌+◌, bit_and, bit_or, not, Option, none, some, [], ◌∷◌, ◌++◌, ◌==◌, leb, if◌then◌else◌, length,
  drop,
}
use dpapp.Common.Int.{ℤ, pos, negsuc, int_max, add_int, index}
use dpapp.Common.Outcome.{Outcome, done, ◌>>=◌}
use dpapp.Mem.{Block, Alloc, read_at, write_at, strlen}
use dpapp.Buf.{
  Data, Buf, flagmask, init_r_mode, dup_data, has_flag, crsize, cesize, bytes, with_bytes, cpusr,
}

-- A buffer over new storage, its cursors at 0.
abbrev pub fresh : Data → Buf
fresh d = record {
  utype = 0;
  uflag = 0;
  flag = 0;
  rbeg = 0;
  rend = 0;
  wbeg = 0;
  size = d.maxs;
  data_ref = d;
}

-- All that was formatted or wrapped is readable.
abbrev pub all_readable : Buf → Buf
all_readable b = record b { rend = b.size; wbeg = b.size }

-- The user's tags of `src` on what was built.
abbrev pub tagged : Buf → Option Buf → Option Buf
tagged src none = none
tagged src (some b) = some (cpusr src b)

module _ (env : Alloc) where
  unfoldable pub data_new : ℤ → Outcome (Option Data)
  data_new (negsuc n) = done none
  data_new (pos n) =
      if leb int_max n
      then done none
      else if not env.malloc_data
      then done none
      else elim (env.malloc (n + 1)) [
        | none ↦ done none
        | some xs ↦ do
          xs ← write_at xs 0 (0 ∷ [])
          xs ← write_at xs n (0 ∷ [])
          done (some (record { bytes = xs; maxs = n; flag = 0; refc = 1 }))
      ]

  -- The copy of `n` bytes into a new block, with a 0 behind them.
  unfoldable pub data_dup : Block → ℕ → Outcome (Option Data)
  data_dup src n = do
    total ← add_int (pos n) (pos 1)
    total ← index total
    elim (env.malloc total) [
      | none ↦ done none
      | some xs ↦ do
        chunk ← read_at src 0 n
        xs ← write_at xs 0 chunk
        xs ← write_at xs n (0 ∷ [])
        done (some (record { bytes = xs; maxs = n; flag = 0; refc = 1 }))
    ]

  -- `data` is NULL or points to the front of a block; with a negative size the block is a string.
  unfoldable pub data_new_d : Option Block → ℤ → ℕ → Outcome (Option Data)
  data_new_d none size mode = done none
  data_new_d (some src) size mode = if not env.malloc_data then done none else do
    n ← elim size [ pos n ↦ done n | negsuc _ ↦ strlen src ]
    if has_flag mode dup_data
        then data_dup src n
        else done (some (record { bytes = src; maxs = n; flag = bit_and mode flagmask; refc = 1 }))

  unfoldable pub init : ℤ → Outcome (Option Buf)
  init size = do d ← data_new size; done (elim d [ none ↦ none | some d ↦ some (fresh d) ])

  unfoldable pub init_d : Option Block → ℤ → ℕ → Outcome (Option Buf)
  init_d src size mode = do
    d ← data_new_d src size mode
    done (elim d [
      | none ↦ none
      | some d ↦ some (if has_flag mode init_r_mode then all_readable (fresh d) else fresh d)
    ])

  -- `dpbuf_init_v`: `text` is what `vsnprintf` makes of the arguments, `none` its error.
  unfoldable pub init_v : Option Block → Outcome (Option Buf)
  init_v none = done none
  init_v (some text) = do
    b ← init (pos (length text))
    elim b [
      | none ↦ done none
      | some b ↦ do
        xs ← write_at (bytes b) 0 (text ++ (0 ∷ []))
        done (some (all_readable (with_bytes b xs)))
    ]

  unfoldable pub new : ℤ → Outcome (Option Buf)
  new size = if env.malloc_buf then init size else done none

  unfoldable pub new_d : Option Block → ℤ → ℕ → Outcome (Option Buf)
  new_d src size mode = if env.malloc_buf then init_d src size mode else done none

  -- `dpbuf_new_v` formats into `dpbuf_new`, where `dpbuf_init_v` does into `dpbuf_init`.
  unfoldable pub new_v : Option Block → Outcome (Option Buf)
  new_v text = if env.malloc_buf then init_v text else done none

  -- `dpbuf_dup_r`: a copy of the readable window.
  unfoldable pub dup_r : Buf → Outcome (Option Buf)
  dup_r b = if b.rend == b.rbeg then new (pos 0) else do
    copy ← new_d (some (drop b.rbeg (bytes b))) (crsize b) (bit_or dup_data init_r_mode)
    done (tagged b copy)

  unfoldable pub dup_e : Buf → Outcome (Option Buf)
  dup_e b = if b.wbeg == b.rend then new (pos 0) else do
    copy ← new_d (some (drop b.rend (bytes b))) (cesize b) (bit_or dup_data init_r_mode)
    done (tagged b copy)

  unfoldable pub from_r : Buf → Outcome (Option Buf)
  from_r b = if b.rend == b.rbeg then init (pos 0) else do
    copy ← init_d (some (drop b.rbeg (bytes b))) (crsize b) (bit_or dup_data init_r_mode)
    done (tagged b copy)

  unfoldable pub from_e : Buf → Outcome (Option Buf)
  from_e b = if b.wbeg == b.rend then init (pos 0) else do
    copy ← init_d (some (drop b.rend (bytes b))) (cesize b) (bit_or dup_data init_r_mode)
    done (tagged b copy)
