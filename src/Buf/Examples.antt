-- ===== src/Buf/Examples.antt =====
-- The theorems about buffers at concrete buffers, and runs of the operations.
use dpapp.Common.{
  ℕ, ◌+◌, ◌-◌, ◌≤◌, min, ◌≡◌, refl, true, none, some, [], ◌∷◌, ◌++◌, arith, length, length-append,
  length-take, length-replicate, take, take-append_left, take-take, replicate,
}
use dpapp.Common.Int.{pos, ◌+ℤ◌, add_int}
use dpapp.Common.Outcome.{done, fault, Returns}
use dpapp.Mem.{Block, Alloc, strnlen, read_at}
use dpapp.Buf.{Buf, enomem}
use dpapp.Buf.Valid.{IsValid, pending, Keeps}
use dpapp.Buf.Capacity.{
  pow_min_value, recycle_data, resize, data_resize, data_grow, resizew, wcheck,
}
use dpapp.Buf.Capacity.Recycle.{recycle_data-Keeps}
use dpapp.Buf.Capacity.Enough.{Made, resizew-Made}
use dpapp.Buf.Capacity.Grows.{HasMemory}
use dpapp.Buf.Create.{init_d}
use dpapp.Buf.Create.Copies.{CanAllocate}
use dpapp.Buf.Write.{wdata, wbuf}
use dpapp.Buf.Write.Appends.{Wrote, Written, wdata-Written, wdata-Wrote}
use dpapp.Buf.Write.Overrun.{init_cw, wrapped, wrapped_in, init_d-overrun}
use dpapp.Buf.Read.{rdata, runtil, rcstr, readto}
use dpapp.Buf.Read.Takes.{Took, rdata-Took}
use dpapp.Buf.Read.Scans.{Until, ahead, runtil-Until}
use dpapp.Buf.Read.Transfer.{Moved, readto-Moved, readto_failed}

-- An allocator that never fails; new memory is filled with 170.
grown : Block → ℕ → Block
grown xs n = take n (xs ++ replicate n 170)

length-grown : (xs : Block) (n : ℕ) → length (grown xs n) ≡ n
unfolding grown
length-grown xs n = omega (
  arith,
  length-take n (xs ++ replicate n 170),
  length-append xs (replicate n 170),
  length-replicate {A = ℕ} n 170,
)

take-grown :
    (xs : Block) (n : ℕ) → take (min n (length xs)) (grown xs n) ≡ take (min n (length xs)) xs
unfolding grown
take-grown xs n =
    rw (take-take (min n (length xs)) n (xs ++ replicate n 170) (omega arith))
      (take-append_left (min n (length xs)) xs (replicate n 170) (omega arith))

some_eq : {xs ys : Block} → some xs ≡ some ys → ys ≡ xs
some_eq h = ground arith

abbrev env : Alloc
env = record {
  malloc_buf = true;
  malloc_data = true;
  malloc = λ n. some (replicate n 170);
  realloc = λ xs n. some (grown xs n);
  length-malloc = λ n ys e. rw (some_eq e) (length-replicate n 170);
  length-realloc = λ xs n ys e. rw (some_eq e) (length-grown xs n);
  take-realloc = λ xs n ys e. rw (some_eq e) (take-grown xs n);
}

-- An allocator that always fails.
abbrev full : Alloc
full = record env {
  malloc = λ n. none;
  realloc = λ xs n. none;
  length-malloc = λ n ys e. cc;
  length-realloc = λ xs n ys e. cc;
  take-realloc = λ xs n ys e. cc;
}

env-HasMemory : HasMemory env
env-HasMemory xs n = (grown xs n, refl)

env-CanAllocate : CanAllocate env
env-CanAllocate = record { buf = refl; data_part = refl; block = λ n. (replicate n 170, refl) }

-- "ab" is readable, "cd;" pending, and there is room for one more byte.
abbrev sample : Buf
sample = record {
  utype = 1;
  uflag = 0;
  flag = 0;
  rbeg = 1;
  rend = 3;
  wbeg = 6;
  size = 7;
  data_ref = record {
    bytes = 120 ∷ 97 ∷ 98 ∷ 99 ∷ 100 ∷ 59 ∷ 0 ∷ 0 ∷ [];
    maxs = 8;
    flag = 0;
    refc = 1;
  };
}

sample-IsValid : IsValid sample
sample-IsValid = omega arith

-- The same with everything consumed.
abbrev consumed : Buf
consumed = record sample { rbeg = 6; rend = 6 }

consumed-IsValid : IsValid consumed
consumed-IsValid = omega arith

wdata-Written_example :
    Returns (Written sample (65 ∷ 66 ∷ [])) (wdata env sample (some (65 ∷ 66 ∷ 67 ∷ [])) (pos 2))
wdata-Written_example =
    wdata-Written env (65 ∷ 66 ∷ 67 ∷ []) 2 sample-IsValid (omega arith) (omega arith) (omega arith)

wdata-Wrote_example :
    Returns
      (λ out. (out.0 ≡ pos 2) × Wrote sample (65 ∷ 66 ∷ []) out.1)
      (wdata env sample (some (65 ∷ 66 ∷ 67 ∷ [])) (pos 2))
wdata-Wrote_example =
    wdata-Wrote env (65 ∷ 66 ∷ 67 ∷ []) 2 env-HasMemory sample-IsValid refl (omega arith)
      (omega arith) (omega arith)

resizew-Made_example : Returns (Made sample 40) (resizew env sample (pos 40))
resizew-Made_example = resizew-Made env 40 sample-IsValid (omega arith)

recycle_data-Keeps_example :
    Returns
      (λ b'. Keeps consumed b' × (b'.wbeg ≤ 6) × (b'.size - b'.wbeg ≡ 7 - 6))
      (recycle_data consumed)
recycle_data-Keeps_example = recycle_data-Keeps consumed-IsValid

-- From 2 ^ 16 + 1 on the result need not be a power of two.
pow_min_value_65537 : pow_min_value 65537 ≡ done 131071
unfolding pow_min_value
pow_min_value_65537 = refl

rdata-Took_example : Returns (λ out. (out.0 ≡ pos 2) × Took 2 sample out.1) (rdata sample (pos 2))
rdata-Took_example = rdata-Took (pos 2) sample-IsValid

runtil-Until_example : Returns (Until sample (59 ∷ [])) (runtil sample (some (59 ∷ [])) (pos 1))
runtil-Until_example = runtil-Until (59 ∷ []) sample-IsValid (omega arith)

-- An empty string at the front of what is pending is not consumed.
rcstr_empty :
    rcstr (record sample { wbeg = 7; rbeg = 6; rend = 6 })
    ≡ done (pos 0, record sample { wbeg = 7; rbeg = 6; rend = 6 })
unfolding rcstr read_at strnlen ◌+ℤ◌
rcstr_empty = refl

readto-Moved_example :
    Returns
      (λ out. (out.0 ≡ pos 2) × Moved 2 sample consumed out.1 out.2)
      (readto env sample consumed (pos 2))
readto-Moved_example =
    readto-Moved env (pos 2) env-HasMemory sample-IsValid consumed-IsValid refl (omega arith)
      (omega arith)

init_d-overrun_example :
    (init_d env (some (0 ∷ 0 ∷ [])) (pos 2) init_cw ≡ done (some (wrapped (0 ∷ 0 ∷ []))))
    × (wdata env (wrapped (0 ∷ 0 ∷ [])) (some (1 ∷ 2 ∷ 3 ∷ [])) (pos 3) ≡ fault)
    × (wdata env (wrapped_in (0 ∷ 0 ∷ []) 9) (some (1 ∷ 2 ∷ 3 ∷ [])) (pos 3)
        ≡ done (enomem, wrapped_in (0 ∷ 0 ∷ []) 0))
init_d-overrun_example =
    init_d-overrun env (0 ∷ 0 ∷ []) (1 ∷ 2 ∷ 3 ∷ []) 9 3 refl (omega arith) (omega arith)

-- Three bytes pending behind twelve that were consumed, and a full buffer that cannot grow.
abbrev late : Buf
late = record sample {
  rbeg = 12;
  rend = 12;
  wbeg = 15;
  size = 15;
  data_ref = record (sample.data_ref) { bytes = replicate 17 7; maxs = 16 };
}

abbrev stuffed : Buf
stuffed = record sample { rbeg = 0; rend = 0; wbeg = 7 }

stuffed-full : wbuf full stuffed (ahead late) (pos 0) ≡ done (enomem, stuffed)
unfolding wbuf wcheck resizew recycle_data resize data_resize data_grow pow_min_value add_int
stuffed-full = refl

readto_failed_example :
    (readto full late stuffed (pos 0)
      ≡ done (enomem, record late { rbeg = 0; rend = 0 }, record stuffed { rend = 7 }))
    × (length (pending (record late { rbeg = 0; rend = 0 })) ≡ length (pending late) + 12)
readto_failed_example =
    readto_failed full stuffed {det' = stuffed} (pos 0) (omega arith) (omega arith) (omega arith)
      stuffed-full
