-- ===== src/Paths/Normal.antt =====
-- The normal form of a path names no "." and no "..", and is its own normal form.
use dpapp.Common.{
  ℕ, ◌+◌, ◌-◌, ◌<◌, ◌≡◌, refl, sym, ap, ◌∙◌, Bool, true, false, ◌&&◌, not, List, [], ◌∷◌, ◌++◌,
  ◌==◌, length, take, take-of_length_le, arith, Bool-cases, inl, inr,
}
use mathlib.Core.List.{append-nil, append_assoc}
use dpapp.Paths.{
  Text, slash, dot, path_max, same, keep, split, pop_top, push, collect, join, reverse_onto,
  normalize_path,
}

abbrev is_part_char : ℕ → Bool
is_part_char c = not (c == slash)

abbrev no_slash : Text → Bool
no_slash [] = true
no_slash (c ∷ cs) = let rest = no_slash cs in is_part_char c && rest

abbrev is_some : Text → Bool
is_some [] = false
is_some (c ∷ cs) = true

-- A part of a path that is neither "." nor "..".
abbrev pub is_proper : Text → Bool
is_proper t = is_some t && no_slash t && not (same t (dot ∷ dot ∷ [])) && not (same t (dot ∷ []))

abbrev pub all_proper : List Text → Bool
all_proper [] = true
all_proper (t ∷ ts) = let rest = all_proper ts in is_proper t && rest

abbrev all_parts : List Text → Bool
all_parts [] = true
all_parts (t ∷ ts) = let rest = all_parts ts in is_some t && no_slash t && rest

no_slash-append : (xs ys : Text) → no_slash (xs ++ ys) ≡ no_slash xs && no_slash ys
no_slash-append [] ys = refl
no_slash-append (x ∷ xs) ys = rw (no_slash-append xs ys) (ground arith)

keep-parts :
    (front : Text) (ts : List Text)
    → no_slash front ≡ true
    → all_parts ts ≡ true
    → all_parts (keep front ts) ≡ true
keep-parts [] ts h k = k
keep-parts (c ∷ cs) ts h k = ground (arith, h, k)

split-parts : (front cs : Text) → no_slash front ≡ true → all_parts (split front cs) ≡ true
unfolding split
split-parts front [] h = keep-parts front [] h refl
split-parts front (c ∷ cs) h = elim (Bool-cases (c == slash)) [
  | inl e ↦ rw e (keep-parts front (split [] cs) h (split-parts [] cs refl))
  | inr e ↦
      rw e
        (split-parts (front ++ (c ∷ [])) cs (no_slash-append front (c ∷ []) ∙ ground (arith, h, e)))
]

pop_top-proper : (cs : List Text) → all_proper cs ≡ true → all_proper (pop_top cs) ≡ true
pop_top-proper [] h = refl
pop_top-proper (c ∷ cs) h = ground (arith, h)

push-proper :
    (cs : List Text) (t : Text)
    → all_proper cs ≡ true
    → is_some t && no_slash t ≡ true
    → all_proper (push cs t) ≡ true
unfolding push
push-proper cs t h k = elim (Bool-cases (same t (dot ∷ dot ∷ []))) [
  | inl e ↦ rw e (pop_top-proper cs h)
  | inr e ↦ elim (Bool-cases (same t (dot ∷ []))) [
    | inl f ↦ rw (e, f) h
    | inr f ↦ rw (e, f) (ground (arith, e, f, h, k))
  ]
]

collect-proper :
    (cs ts : List Text)
    → all_proper cs ≡ true
    → all_parts ts ≡ true
    → all_proper (collect cs ts) ≡ true
unfolding collect
collect-proper cs [] h k = h
collect-proper cs (t ∷ ts) h k =
    collect-proper (push cs t) ts (push-proper cs t h (ground (arith, k))) (ground (arith, k))

reverse_onto-proper :
    (cs ds : List Text)
    → all_proper cs ≡ true
    → all_proper ds ≡ true
    → all_proper (reverse_onto cs ds) ≡ true
unfolding reverse_onto
reverse_onto-proper [] ds h k = k
reverse_onto-proper (c ∷ cs) ds h k =
    reverse_onto-proper cs (c ∷ ds) (ground (arith, h)) (ground (arith, h, k))

-- Proper parts are collected as they are.
collect_all : (cs ts : List Text) → all_proper ts ≡ true → collect cs ts ≡ reverse_onto ts cs
unfolding collect push reverse_onto
collect_all cs [] h = refl
collect_all cs (t ∷ ts) h =
    let e : same t (dot ∷ dot ∷ []) ≡ false = ground (arith, h) in
    let f : same t (dot ∷ []) ≡ false = ground (arith, h) in
    rw (e, f) (collect_all (t ∷ cs) ts (ground (arith, h)))

reverse_onto_twice :
    (cs ds es : List Text) → reverse_onto (reverse_onto cs ds) es ≡ reverse_onto ds (cs ++ es)
unfolding reverse_onto
reverse_onto_twice [] ds es = refl
reverse_onto_twice (c ∷ cs) ds es = reverse_onto_twice cs (c ∷ ds) es

split-one : (front t : Text) → no_slash t ≡ true → split front t ≡ keep (front ++ t) []
unfolding split
split-one front [] h = ap (λ (x : Text). keep x []) (sym (append-nil front))
split-one front (c ∷ cs) h =
    let e : (c == slash) ≡ false = ground (arith, h) in
    rw e (
      split-one (front ++ (c ∷ [])) cs (ground (arith, h))
      ∙ ap (λ (x : Text). keep x []) (append_assoc front (c ∷ []) cs))

split-first :
    (front t cs : Text)
    → no_slash t ≡ true
    → split front (t ++ slash ∷ cs) ≡ keep (front ++ t) (split [] cs)
unfolding split
split-first front [] cs h = ap (λ (x : Text). keep x (split [] cs)) (sym (append-nil front))
split-first front (c ∷ t) cs h =
    let e : (c == slash) ≡ false = ground (arith, h) in
    rw e (
      split-first (front ++ (c ∷ [])) t cs (ground (arith, h))
      ∙ ap (λ (x : Text). keep x (split [] cs)) (append_assoc front (c ∷ []) t))

keep-some : (t : Text) (ts : List Text) → is_some t ≡ true → keep t ts ≡ t ∷ ts
keep-some [] ts h = absurd (ground (arith, h))
keep-some (c ∷ cs) ts h = refl

split-join : (ts : List Text) → all_proper ts ≡ true → split [] (join ts) ≡ ts
unfolding join split
split-join [] h = refl
split-join (t ∷ []) h = split-one [] t (ground (arith, h)) ∙ keep-some t [] (ground (arith, h))
split-join (t ∷ u ∷ ts) h =
    split-first [] t (join (u ∷ ts)) (ground (arith, h))
    ∙ keep-some t (split [] (join (u ∷ ts))) (ground (arith, h))
    ∙ ap (◌∷◌ t) (split-join (u ∷ ts) (ground (arith, h)))

-- A leading slash changes nothing.
split-root : (cs : Text) → split [] (slash ∷ cs) ≡ split [] cs
unfolding split
split-root cs = refl

abbrev components : Text → List Text
components path = reverse_onto (collect [] (split [] (take (path_max - 1) path))) []

normal_of :
    (ts : List Text)
    → all_proper ts ≡ true
    → reverse_onto (collect [] (split [] (slash ∷ join ts))) [] ≡ ts
unfolding reverse_onto
normal_of ts h =
    ap (λ x. reverse_onto (collect [] x) []) (split-root (join ts) ∙ split-join ts h)
    ∙ ap (λ x. reverse_onto x []) (collect_all [] ts h)
    ∙ reverse_onto_twice ts [] []
    ∙ append-nil ts

components-proper : (path : Text) → all_proper (components path) ≡ true
components-proper path =
    reverse_onto-proper (collect [] (split [] (take (path_max - 1) path))) []
      (collect-proper [] (split [] (take (path_max - 1) path)) refl
        (split-parts [] (take (path_max - 1) path) refl))
      refl

-- The normal form of a path is "/" with parts between single slashes, none of which is empty, "."
-- or ".."; where it fits the buffer of PATH_MAX bytes, it is its own normal form.
pub normalize_path-again :
    (path : Text)
    → length (normalize_path path) < path_max
    → (ts : List Text) × (normalize_path path ≡ slash ∷ join ts)
      × (all_proper ts ≡ true)
      × (normalize_path (normalize_path path) ≡ normalize_path path)
unfolding normalize_path
normalize_path-again path h =
    let ts = components path in
    let proper = components-proper path in
    (
      ts,
      refl,
      proper,
      ap (λ (x : Text). slash ∷ join (reverse_onto (collect [] (split [] x)) []))
            (take-of_length_le (path_max - 1) (slash ∷ join ts) (omega (arith, h)))
          ∙ ap (λ (x : List Text). slash ∷ join x) (normal_of ts proper),
    )

-- A path of one part with PATH_MAX - 1 characters has a normal form with a character more: with its
-- closing 0 it needs a byte more than the buffer has.
normalize_path-overrun :
    (path : Text)
    → is_proper path ≡ true
    → length path ≡ path_max - 1
    → length (normalize_path path) + 1 ≡ path_max + 1
unfolding normalize_path reverse_onto collect push join
normalize_path-overrun path h l =
    let e : same path (dot ∷ dot ∷ []) ≡ false = ground (arith, h) in
    let f : same path (dot ∷ []) ≡ false = ground (arith, h) in
    rw
      (
        take-of_length_le (path_max - 1) path (omega (arith, l)),
        split-one [] path (ground (arith, h)),
        keep-some path [] (ground (arith, h)),
        e,
        f,
      )
      (omega (arith, l))
