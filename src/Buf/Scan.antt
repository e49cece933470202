-- ===== src/Buf/Scan.antt =====
-- Comparison and search in the readable window: `dpbuf_cequalc`, `dpbuf_ccmp`, `dpbuf_cfind`,
-- `dpbuf_cstrlen`, `dpbuf_cbegwith`. They change nothing.
pub mod From
pub mod Meaning
use dpapp.Common.{
  ℕ, suc, ◌+◌, Bool, true, false, ◌||◌, Option, none, some, List, [], ◌∷◌, ◌==◌, if◌then◌else◌,
  length, drop,
}
use dpapp.Common.Int.{ℤ, pos, negsuc, ◌+ℤ◌, ◌-ℤ◌, ltb_ℤ, index}
use dpapp.Common.Outcome.{Outcome, done, ◌>>=◌}
use dpapp.Mem.{Block, read_at, memcmp, memmem, strnlen, strlen}
use dpapp.Buf.{Buf, eperm, einval, enodata, crsize, bytes}

abbrev pub is_zero : ℤ → Bool
is_zero (pos n) = n == 0
is_zero (negsuc n) = false

-- The length of an argument: the one given or, if that is negative, that of the string.
abbrev pub arg_length : Block → ℤ → Outcome ℕ
arg_length src (pos n) = done n
arg_length src (negsuc _) = strlen src

unfoldable pub cequalc : Buf → Block → ℤ → Outcome Bool
cequalc b sub len = do
  n ← arg_length sub len
  if n == 0 || ltb_ℤ (crsize b) (pos n)
      then done false
      else do xs ← read_at (bytes b) b.rbeg n; ys ← read_at sub 0 n; done (is_zero (memcmp xs ys))

-- The part of `dpbuf_ccmp` for two buffers that are not one object.
unfoldable pub ccmp_windows : Buf → Buf → Outcome ℤ
ccmp_windows b other =
    if is_zero (crsize b -ℤ crsize other)
    then (elim (ltb_ℤ (pos 0) (crsize b)) [
      | true ↦ do
        n ← index (crsize b)
        xs ← read_at (bytes b) b.rbeg n
        ys ← read_at (bytes other) other.rbeg n
        done (memcmp xs ys)
      | false ↦ done (pos 0)
    ])
    else done (crsize b -ℤ crsize other)

-- `same` says whether the two pointers are one; `none` is NULL.
unfoldable pub ccmp : Bool → Option Buf → Option Buf → Outcome ℤ
ccmp true b other = done (pos 0)
ccmp false none other = done (negsuc 0)
ccmp false (some b) none = done (pos 1)
ccmp false (some b) (some other) = ccmp_windows b other

unfoldable pub cfind : Buf → Option Block → ℤ → ℤ → Outcome ℤ
cfind b none len left = done einval
cfind b (some sub) len left = do
  n ← arg_length sub len
  if n == 0 || ltb_ℤ (crsize b) (pos n) then done enodata else do
    start ← index (pos b.rbeg +ℤ left)
    size ← index (crsize b -ℤ left)
    hay ← read_at (bytes b) start size
    needle ← read_at sub 0 n
    done (elim (memmem hay needle) [ none ↦ eperm | some i ↦ left +ℤ pos i ])

unfoldable pub cstrlen : Buf → Outcome ℕ
cstrlen b = do n ← index (crsize b); xs ← read_at (bytes b) b.rbeg n; done (strnlen xs)

-- The loops over ' ', '\r' and '\n'.
unfoldable pub count_ws : List ℕ → ℕ
count_ws [] = 0
count_ws (c ∷ cs) =
    let rest = count_ws cs in if c == b' ' || c == b'\r' || c == b'\n' then suc rest else 0

unfoldable pub cbegwith : Buf → Option Block → ℤ → Bool → Outcome Bool
cbegwith b none len skip_begws = done false
cbegwith b (some sub) len skip_begws = if is_zero (crsize b) then done false else do
  n ← arg_length sub len
  if ltb_ℤ (crsize b) (pos n) then done false else do
    s ← index (crsize b)
    d ← read_at (bytes b) b.rbeg s
    let d = if skip_begws then drop (count_ws d) d else d
    if ltb_ℤ (pos (length d)) (pos n)
        then done false
        else do xs ← read_at sub 0 n; ys ← read_at d 0 n; done (is_zero (memcmp xs ys))
