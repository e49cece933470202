-- ===== src/Cwc/Id/Unique.antt =====
-- The identifiers of a thread differ.
use dpapp.Common.{
  ℕ, ◌+◌, ◌-◌, ◌%◌, ◌^◌, ◌<◌, ◌≤◌, ◌≡◌, ◌≢◌, ◌⊎◌, refl, sym, ap, ◌∙◌, Bool, true, some, List, [],
  ◌∷◌, ◌==◌, ==_iff, arith, if◌then◌else◌, Bool-cases, inl, inr,
}
use mathlib.Core.Path.{subst}
use dpapp.Cwc.Id.{Fields, Ctx, pack, stamp, base_ts, wait_for, next, ids}

-- The clock's readings do not go back behind `lo`, and last for 41 bits.
abbrev pub Rising : ℕ → List ℕ → Type 0
Rising lo [] = true ≡ true
Rising lo (now ∷ later) = (lo ≤ now) × (now < base_ts + 2 ^ 41) × Rising now later

abbrev pub last : ℕ → List ℕ → ℕ
last now [] = now
last now (t ∷ later) = last t later

stamp-sub : (now : ℕ) → base_ts ≤ now → now < base_ts + 2 ^ 41 → stamp now ≡ now - base_ts
stamp-sub now h k = omega arith

-- What is so of an identifier that was given out before, where the thread is at `ctx`.
abbrev Past : Ctx → Fields → Type 0
Past ctx f =
    (f.sequence < 1024)
    × (f.timestamp ≤ ctx.timestamp)
    × ((f.timestamp < ctx.timestamp) ⊎ (f.sequence < ctx.sequence) ⊎ (f.sequence ≡ 1023))

-- The thread, whose clock shows at least `lo`.
abbrev pub Going : Ctx → ℕ → Type 0
Going ctx lo =
    (ctx.sequence ≤ 1023)
    × (base_ts ≤ lo)
    × (lo < base_ts + 2 ^ 41)
    × (ctx.timestamp ≤ lo - base_ts)

last-le : (now : ℕ) (later : List ℕ) → Rising now later → now ≤ last now later
last-le now [] r = omega arith
last-le now (n ∷ later) (le, m, r) = omega (arith, last-le n later r)

last-lt :
    (now : ℕ) (later : List ℕ)
    → now < base_ts + 2 ^ 41
    → Rising now later
    → last now later < base_ts + 2 ^ 41
last-lt now [] h r = h
last-lt now (n ∷ later) h (le, m, r) = last-lt n later m r

-- The time for which the loop waits is another one, and later.
wait_for-later :
    (old lo now : ℕ) (later : List ℕ) (t : ℕ)
    → base_ts ≤ lo
    → old ≤ lo - base_ts
    → Rising lo (now ∷ later)
    → wait_for old (stamp now) later ≡ some t
    → (old < t) × (t ≤ last now later - base_ts) × (base_ts ≤ last now later)
unfolding wait_for
wait_for-later old lo now [] t b h (r, m, _) e = ground (arith, stamp-sub now (omega arith) m, e)
wait_for-later old lo now (n ∷ later) t b h (r, m, rest) e = elim (Bool-cases (stamp now == old)) [
  | inl c ↦
      wait_for-later old now n later t (omega arith) (omega arith) rest (
        ap (λ (x : Bool). if x then wait_for old (stamp n) later else some (stamp now)) (sym c) ∙ e)
  | inr c ↦
      let g : some (stamp now) ≡ some t =
        ap (λ (x : Bool). if x then wait_for old (stamp n) later else some (stamp now)) (sym c)
        ∙ e in
      ground (arith, stamp-sub now (omega arith) m, last-le now (n ∷ later) rest, c, g)
]

-- The fields of an identifier fit, so that `pack` tells them apart.
pack-differs :
    (f g : Fields)
    → f.sequence < 1024
    → g.sequence < 1024
    → f.timestamp < 2 ^ 41
    → g.timestamp < 2 ^ 41
    → (f.sequence ≢ g.sequence) ⊎ (f.timestamp ≢ g.timestamp)
    → pack f ≢ pack g
unfolding pack
pack-differs f g a b c d (inl h) e = omega arith
pack-differs f g a b c d (inr h) e = omega arith

-- The loop ends when the clock shows another time.
wait_for-ends :
    (old now : ℕ) (later : List ℕ)
    → old < stamp (last now later)
    → (t : ℕ) × (wait_for old (stamp now) later ≡ some t)
unfolding wait_for
wait_for-ends old now [] h = (stamp now, ground (arith, h))
wait_for-ends old now (n ∷ later) h = elim (Bool-cases (stamp now == old)) [
  | inl c ↦ rw c (wait_for-ends old n later h)
  | inr c ↦ rw c (stamp now, refl)
]

-- A new identifier differs from the earlier ones, and is an earlier one for those to come.
record IsNew (ctx ctx' : Ctx) (f : Fields) : Type 0 where
  past : Past ctx' f
  differs :
      (g : Fields)
      → Past ctx g
      → Past ctx' g × ((f.sequence ≢ g.sequence) ⊎ (f.timestamp ≢ g.timestamp))

small : (ctx : Ctx) (lo : ℕ) (f : Fields) → Going ctx lo → Past ctx f → f.timestamp < 2 ^ 41
small ctx lo f (a, b, c, d) (x, y, z) = omega arith

-- The sequence number goes up by one, or time goes on and it starts again.
counted-IsNew :
    (ctx : Ctx) (f : Fields)
    → f.sequence ≡ ctx.sequence
    → ctx.sequence < 1023
    → ctx.timestamp ≤ f.timestamp
    → IsNew ctx (record { sequence = ctx.sequence + 1; timestamp = f.timestamp }) f
counted-IsNew ctx f e small t = record {
  past = (omega arith, omega arith, inr (inl (omega arith)));
  differs = λ g p. ground (arith, p);
}

restarted-IsNew :
    (ctx : Ctx) (f : Fields)
    → f.sequence ≡ 1023
    → ctx.timestamp < f.timestamp
    → IsNew ctx (record { sequence = 0; timestamp = f.timestamp }) f
restarted-IsNew ctx f e t = record {
  past = (omega arith, omega arith, inr (inr e));
  differs = λ g p. ground (arith, p);
}

-- The next sequence number.
abbrev pub after : ℕ → ℕ
after s = if s == 1023 then 0 else s + 1

module _ (machine thread : ℕ) where
  next_counts :
      (ctx : Ctx) (lo now : ℕ) (later : List ℕ)
      → Going ctx lo
      → Rising lo (now ∷ later)
      → ctx.sequence < 1023
      → (f : Fields) × (ctx' : Ctx) × (next machine thread ctx now later ≡ some (f, ctx'))
        × IsNew ctx ctx' f
        × Going ctx' (last now later)
        × (ctx'.sequence ≡ after ctx.sequence)
  unfolding next
  next_counts ctx lo now later (a, b, c, d) (r, m, rest) h =
      let low : ctx.sequence % 2 ^ 10 ≡ ctx.sequence = omega arith in
      let t = stamp-sub now (omega arith) m in
      let top = last-le now later rest in
      let f : Fields = record {
        sequence = ctx.sequence % 2 ^ 10;
        thread_id = thread;
        machine_id = machine;
        timestamp = stamp now;
      } in
      (
        f,
        _,
        ground (arith, low, h),
        counted-IsNew ctx f low h (omega (arith, t, d)),
        omega (arith, t, top, last-lt now later m rest, h),
        ground (arith, h),
      )

  next_restarts :
      (ctx : Ctx) (lo now : ℕ) (later : List ℕ)
      → Going ctx lo
      → Rising lo (now ∷ later)
      → ctx.sequence ≡ 1023
      → lo < last now later
      → (f : Fields) × (ctx' : Ctx) × (next machine thread ctx now later ≡ some (f, ctx'))
        × IsNew ctx ctx' f
        × Going ctx' (last now later)
        × (ctx'.sequence ≡ after ctx.sequence)
  unfolding next
  next_restarts ctx lo now later (a, b, c, d) (r, m, rest) h on =
      let top = last-lt now later m rest in
      let end = stamp-sub (last now later) (omega arith) top in
      let (t, e) = wait_for-ends ctx.timestamp now later (omega (arith, end, d, on, b)) in
      let (later_t, within, base) =
        wait_for-later ctx.timestamp lo now later t b d (r, m, rest) e in
      let f : Fields = record {
        sequence = 1023;
        thread_id = thread;
        machine_id = machine;
        timestamp = t;
      } in
      (
        f,
        record { sequence = 0; timestamp = t },
        rw (h, e) refl,
        restarted-IsNew ctx f refl later_t,
        omega (arith, base, top, within),
        rw h refl,
      )

-- Calls one after the other, the first with the sequence number `s`: the clock does not go back, and
-- at the last sequence number it goes on while the call waits.
abbrev pub Calls : ℕ → ℕ → List (ℕ × List ℕ) → Type 0
Calls s lo [] = true ≡ true
Calls s lo ((now, later) ∷ calls) =
    Rising lo (now ∷ later)
    × ((s ≢ 1023) ⊎ (lo < last now later))
    × Calls (after s) (last now later) calls

abbrev pub Apart : ℕ → List ℕ → Type 0
Apart id [] = true ≡ true
Apart id (x ∷ xs) = (id ≢ x) × Apart id xs

abbrev pub Differ : List ℕ → Type 0
Differ [] = true ≡ true
Differ (x ∷ xs) = Apart x xs × Differ xs

module _ (machine thread : ℕ) where
  next-IsNew :
      (ctx : Ctx) (lo now : ℕ) (later : List ℕ)
      → Going ctx lo
      → Rising lo (now ∷ later)
      → ((ctx.sequence ≢ 1023) ⊎ (lo < last now later))
      → (f : Fields) × (ctx' : Ctx) × (next machine thread ctx now later ≡ some (f, ctx'))
        × IsNew ctx ctx' f
        × Going ctx' (last now later)
        × (ctx'.sequence ≡ after ctx.sequence)
  next-IsNew ctx lo now later going rising on = elim (Bool-cases (ctx.sequence == 1023)) [
    | inl h ↦
        let e : ctx.sequence ≡ 1023 = (==_iff _ _).0 h in
        next_restarts machine thread ctx lo now later going rising e (ground (arith, e, on))
    | inr h ↦ next_counts machine thread ctx lo now later going rising (ground (arith, h, going))
  ]

  ids_from :
      (calls : List (ℕ × List ℕ)) (ctx : Ctx) (lo : ℕ)
      → Going ctx lo
      → Calls ctx.sequence lo calls
      → (xs : List ℕ) × (ids machine thread ctx calls ≡ some xs)
        × Differ xs
        × ((g : Fields) → Past ctx g → Apart (pack g) xs)
  unfolding ids
  ids_from [] ctx lo going c = ([], refl, refl, λ g p. refl)
  ids_from ((now, later) ∷ calls) ctx lo going (rising, on, rest) =
      let (f, ctx', e, new, going', counted) = next-IsNew ctx lo now later going rising on in
      let (xs, es, differ, apart) =
        ids_from calls ctx' (last now later) going'
          (subst (λ (s : ℕ). Calls s (last now later) calls) (sym counted) rest) in
      (
        pack f ∷ xs,
        rw (e, es) refl,
        (apart f new.past, differ),
        λ g p.
            let (past, other) = new.differs g p in
            (
              λ same.
                  pack-differs f g ((new.past).0) (p.0) (small ctx' _ f going' new.past)
                    (small ctx lo g going p) other (sym same),
              apart g past,
            ),
      )

  -- The calls of dpcwc_id_next on one thread, one after the other, where the clock does not go
  -- back, lies in the 41 bits of a time stamp, and goes on while a call with the last sequence
  -- number waits: each call returns, and all identifiers differ.
  pub ids-Differ :
      (calls : List (ℕ × List ℕ)) (lo : ℕ)
      → base_ts ≤ lo
      → lo < base_ts + 2 ^ 41
      → Calls 0 lo calls
      → (xs : List ℕ) × (ids machine thread (record { sequence = 0; timestamp = 0 }) calls
          ≡ some xs)
        × Differ xs
  ids-Differ calls lo b k c =
      let (xs, e, differ, apart) =
        ids_from calls (record { sequence = 0; timestamp = 0 }) lo (omega arith, b, k, omega arith)
          c in
      (xs, e, differ)
