-- ===== src/App/Target.antt =====
-- The event loop that a cross-thread call goes to.
use dpapp.Common.{
  ℕ, zero, suc, ◌+◌, ◌≤◌, ◌<◌, ◌≡◌, refl, ap, ◌∙◌, inl, inr, true, Option, none, some, List, [],
  ◌∷◌, ◌==◌, ltb, leb, lt→ltb, arith, tests, length, take, get_elem?, Bool-cases,
}
use native.Mathlib.Nat.{mod-lt}
use dpapp.Common.Int.{ℤ, pos, negsuc, int_max, neg_part}
use dpapp.Common.Outcome.{Returns, returns, done}
use dpapp.App.{
  ids_from, ids_of, thread_num, place, layout, hash_bytes, hash_ptr, pick, by_type, resolve_toid,
}

-- How many event loops the types have together.
abbrev pub threads : List ℤ → ℕ
threads [] = 0
threads (pc ∷ rest) = thread_num pc + threads rest

get_elem?-ids_from : (next n i : ℕ) → i < n → get_elem? (ids_from next n) i ≡ some (next + i)
unfolding ids_from
get_elem?-ids_from next zero i h = absurd (omega arith)
get_elem?-ids_from next (suc n) zero h = ap some (omega arith)
get_elem?-ids_from next (suc n) (suc i) h =
    get_elem?-ids_from (suc next) n i (omega arith) ∙ ap some (omega arith)

count-place : (types next : ℕ) (cs : List ℤ) → (place types next cs).count ≡ next + threads cs
unfolding place
count-place types next [] = omega arith
count-place types next (pc ∷ rest) = omega (arith, count-place types (next + thread_num pc) rest)

type_count-place : (types next : ℕ) (cs : List ℤ) → (place types next cs).type_count ≡ types
unfolding place
type_count-place types next [] = refl
type_count-place types next (pc ∷ rest) = type_count-place types (next + thread_num pc) rest

-- What the tables hold for a type behind the first one.
record Placed (types next : ℕ) (cs : List ℤ) (t : ℕ) : Type 0 where
  wanted : ℤ
  is_wanted : get_elem? cs t ≡ some wanted
  counted : get_elem? (place types next cs).each_count t ≡ some (thread_num wanted)
  numbered :
      get_elem? (place types next cs).each_ids t
      ≡ some (ids_of (next + threads (take t cs)) (thread_num wanted))
  in_count : next + threads (take t cs) + thread_num wanted ≤ next + threads cs

place-Placed : (types next : ℕ) (cs : List ℤ) (t : ℕ) → t < length cs → Placed types next cs t
unfolding place
place-Placed types next [] t h = absurd (omega arith)
place-Placed types next (pc ∷ rest) zero h = record {
  wanted = pc;
  is_wanted = refl;
  counted = refl;
  numbered = ap (λ (n : ℕ). some (ids_of n (thread_num pc))) (omega arith);
  in_count = omega arith;
}
place-Placed types next (pc ∷ rest) (suc t) h =
    let p = place-Placed types (next + thread_num pc) rest t (omega arith) in
    record {
      wanted = p.wanted;
      is_wanted = p.is_wanted;
      counted = p.counted;
      numbered = p.numbered ∙ ap (λ (n : ℕ). some (ids_of n (thread_num p.wanted))) (omega arith);
      in_count = omega (arith, p.in_count);
    }

-- What `_dpctc_resolve_toid` answers, by the thread counts of the types behind the first one.
pub data Target (rest : List ℤ) (key : List ℕ) : ℤ → Option ℕ → Type 0 where
  by_number : {n : ℕ} → n < 1 + threads rest → Target rest key (pos n) (some n)
  no_number : {n : ℕ} → 1 + threads rest ≤ n → Target rest key (pos n) none
  no_type : {t : ℕ} → length rest ≤ t → Target rest key (negsuc t) none
  no_threads :
      {t : ℕ} (pc : ℤ)
      → get_elem? rest t ≡ some pc
      → thread_num pc ≡ 0
      → Target rest key (negsuc t) none
  by_hash :
      {t id : ℕ} (pc : ℤ)
      → get_elem? rest t ≡ some pc
      → 0 < thread_num pc
      → id ≡ 1 + threads (take t rest) + hash_ptr key (thread_num pc)
      → id < 1 + threads rest
      → Target rest key (negsuc t) (some id)

module _ (main : ℤ) (rest : List ℤ) (key : List ℕ) where
  pick-done :
      (t n : ℕ)
      → get_elem? (layout main rest).each_ids (suc t) ≡ some (ids_of (1 + threads (take t rest)) n)
      → 0 < n
      → pick (layout main rest) key (suc t) n
        ≡ done (some (1 + threads (take t rest) + hash_ptr key n))
  pick-done t n e some_threads =
      let b : ltb 0 n ≡ true = omega (tests, some_threads) in
      rw
        (
          e,
          b,
          get_elem?-ids_from (1 + threads (take t rest)) n (hash_ptr key n)
              (mod-lt (hash_bytes 0 key) some_threads),
        )
        refl

  by_type-Target :
      (t : ℕ) → Returns (Target rest key (negsuc t)) (by_type (layout main rest) key (suc t))
  unfolding by_type layout
  by_type-Target t =
      rw (type_count-place (suc (length rest)) 1 rest)
        (elim (Bool-cases (leb (suc (length rest)) (suc t))) [
          | inl out ↦ rw out (returns (no_type (ground (arith, out))))
          | inr within ↦
              let p = place-Placed (suc (length rest)) 1 rest t (ground (arith, within)) in
              elim (Bool-cases (thread_num p.wanted == 0)) [
                | inl z ↦
                    rw (within, p.counted, z)
                      (returns (no_threads p.wanted p.is_wanted (ground (arith, z))))
                | inr nz ↦
                    let some_threads : 0 < thread_num p.wanted = ground (arith, nz) in
                    let low : hash_ptr key (thread_num p.wanted) < thread_num p.wanted =
                      mod-lt (hash_bytes 0 key) some_threads in
                    rw
                      (
                        within,
                        p.counted,
                        nz,
                        pick-done t (thread_num p.wanted) p.numbered some_threads,
                      )
                      (returns (
                        by_hash p.wanted p.is_wanted some_threads refl
                          (omega (arith, p.in_count, low))))
              ]
        ])

  -- In every layout that dpapp_init computes, _dpctc_resolve_toid of a number above INT_MIN reads
  -- only inside its tables, and never through NULL. It answers a number that is not negative just
  -- where it is below the count of the loops (one and those of all further types), and -EINVAL
  -- otherwise. For a negative number it answers -EINVAL where there is no such type or the type
  -- has no threads, and otherwise the loop of that type that the hash of the pointer picks: 1, and
  -- the loops of the further types before, and the hash modulo the threads of the type, which is
  -- below the count.
  pub resolve_toid-Target :
      (toid : ℤ)
      → neg_part toid ≤ int_max
      → Returns (Target rest key toid) (resolve_toid (layout main rest) key toid)
  unfolding resolve_toid layout
  resolve_toid-Target (pos n) h =
      rw (count-place (suc (length rest)) 1 rest) (elim (Bool-cases (ltb n (1 + threads rest))) [
        | inl below ↦ rw below (returns (by_number (ground (arith, below))))
        | inr above ↦ rw above (returns (no_number (ground (arith, above))))
      ])
  resolve_toid-Target (negsuc n) h = rw (lt→ltb n int_max (omega arith)) (by_type-Target n)
