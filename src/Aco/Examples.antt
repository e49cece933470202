-- ===== src/Aco/Examples.antt =====
-- The theorems about coroutines at concrete worlds, and runs of the operations.
use dpapp.Common.{ℕ, ◌≡◌, refl, inl, Option, none, some, [], ◌∷◌, ◌==◌, if◌then◌else◌, arith}
use dpapp.Common.Int.{pos, negsuc}
use dpapp.Common.Outcome.{Outcome, done, ◌>>=◌, Returns}
use dpapp.Aco.{running, suspend, dead, Co, Heap, World, Alloc, load, put}
use dpapp.Aco.Pool.{zeroed, asked, create, delater, thfree, take_block, fit, recycled}
use dpapp.Aco.Pool.Free.{nowhere, behind, end_of, link_to, HasPool}
use dpapp.Aco.Pool.Reuse.{Parted, delater-Parted}
use dpapp.Aco.Pool.Creates.{Creation, create-Creation}
use dpapp.Aco.Pool.Release.{Cleared, thfree-Cleared}
use dpapp.Aco.Switch.{
  resume, yield, finish, wrap, land, reap, message, swap_in, switch_to, switch_back,
}
use dpapp.Aco.Switch.Transfer.{Current}
use dpapp.Aco.Switch.Returns.{Back, resume-yield}

-- Coroutine 1 is the main one and runs, 2 has ended and is kept for reuse, 3 has not begun.
abbrev main_co : Co
main_co = record (zeroed 0) { status = running }

abbrev old_co : Co
old_co = record (zeroed 4096) { status = dead }

abbrev new_co : Co
new_co = record (zeroed 4096) { func = some 7 }

abbrev blocks : Heap
blocks i =
    if i == 1
    then some main_co
    else if i == 2
    then some old_co
    else if i == 3
    then some new_co
    else none

abbrev thread : World
thread = record {
  heap = blocks;
  comain = some 1;
  cocurr = some 1;
  recycle = some 2;
  recycle_count = 1;
  stack_size = 4096;
}

thread-HasPool : HasPool thread (2 ∷ [])
thread-HasPool = record {
  linked = link_to {co = old_co} refl refl nowhere end_of;
  counted = refl;
  bounded = omega arith;
}

-- A memory with one free block, 9; a block is resized in place.
abbrev vacant : Option Co → Option ℕ
vacant none = some 9
vacant (some co) = none

first_free : Heap → ℕ → Option ℕ
first_free h n = vacant (h 9)

vacant-9 : (o : Option Co) (i : ℕ) → vacant o ≡ some i → (i ≡ 9) × (o ≡ none)
vacant-9 none i e = (ground (arith, e), refl)
vacant-9 (some co) i e = cc

first_free-fresh : (h : Heap) (n : ℕ) {i : ℕ} → first_free h n ≡ some i → h i ≡ none
unfolding first_free
first_free-fresh h n {i} e = let (at, free) = vacant-9 (h 9) i e in rw at free

abbrev env : Alloc
env = record {
  calloc = first_free;
  realloc = λ h i n. some i;
  calloc_fresh = λ {h} {n} e. first_free-fresh h n e;
  realloc_fresh = λ e. inl (ground arith);
}

delater-Parted_example : Returns (Parted thread (2 ∷ []) 3 new_co) (delater thread (some 3))
delater-Parted_example =
    delater-Parted {co = new_co} thread-HasPool refl (behind (omega arith) nowhere)

create-Creation_example :
    Returns
      (Creation env thread 5 (asked thread (pos 0)) (2 ∷ []))
      (create env thread (some 5) (pos 0))
create-Creation_example = create-Creation env (2 ∷ []) 5 (pos 0) thread-HasPool

thfree-Cleared_example : Returns (Cleared thread 1 (2 ∷ [])) (thfree 1 thread)
thfree-Cleared_example =
    thfree-Cleared main_co refl refl thread-HasPool (behind (omega arith) nowhere)

main-Current : Current thread 1 main_co
main-Current = record { points = refl; live = refl }

resume-yield_example :
    Returns
      (λ out.
        (out.0 ≡ 40)
        × Current out.1 3 (record new_co { link = some 1; msg = 40; status = running })
        × Returns
            (λ end. (end.0 ≡ 41) × Back suspend thread 1 main_co 3 new_co 40 41 end.1)
            (yield out.1 41))
      (resume thread (some 3) 40)
resume-yield_example =
    resume-yield thread 1 main_co 3 new_co 40 41 main-Current refl (omega arith) refl refl

-- `dpaco_wrap` of a function that ends at once with 6.
abbrev outcome_of : Outcome (ℕ × World) → Outcome (ℕ × Option ℕ × ℕ)
outcome_of m = do out ← m; done (out.0, out.1.recycle, out.1.recycle_count)

wrap_run :
    outcome_of (do out ← wrap env thread (some 5) 40 (negsuc 0); finish out.1 6)
    ≡ done (6, some 2, 1)
unfolding wrap create take_block fit load put switch_to swap_in land message finish yield
    switch_back reap delater recycled
wrap_run = refl
