-- ===== src/Paths/Length.antt =====
-- How long the normal form of a path can be.
use dpapp.Common.{
  ℕ, suc, ◌+◌, ◌-◌, ◌≤◌, ◌≡◌, refl, List, [], ◌∷◌, ◌++◌, ◌==◌, length, length-append, length-take,
  take, arith, Bool-cases, inl, inr,
}
use dpapp.Paths.{
  Text, slash, dot, path_max, same, keep, split, pop_top, push, collect, join, reverse_onto,
  normalize_path,
}

-- The room of components with a slash before each.
room : List Text → ℕ
room [] = 0
room (c ∷ cs) = suc (length c + room cs)

none_room : room [] ≡ 0
unfolding room
none_room = refl

room-keep :
    (front : Text) (tokens : List Text)
    → room (keep front tokens) ≤ suc (length front + room tokens)
unfolding room
room-keep [] tokens = omega arith
room-keep (c ∷ cs) tokens = omega arith

room-split : (front cs : Text) → room (split front cs) ≤ suc (length front + length cs)
unfolding split room
room-split front [] = omega (arith, room-keep front [])
room-split front (c ∷ cs) = elim (Bool-cases (c == slash)) [
  | inl h ↦ rw h (omega (arith, room-keep front (split [] cs), room-split [] cs))
  | inr h ↦ rw h (omega (arith, room-split (front ++ (c ∷ [])) cs, length-append front (c ∷ [])))
]

room-pop_top : (cs : List Text) → room (pop_top cs) ≤ room cs
unfolding room
room-pop_top [] = omega arith
room-pop_top (c ∷ cs) = omega arith

room-push : (cs : List Text) (t : Text) → room (push cs t) ≤ room cs + suc (length t)
unfolding push room
room-push cs t = elim (Bool-cases (same t (dot ∷ dot ∷ []))) [
  | inl h ↦ rw h (omega (arith, room-pop_top cs))
  | inr h ↦ elim (Bool-cases (same t (dot ∷ []))) [
    | inl k ↦ rw (h, k) (omega arith)
    | inr k ↦ rw (h, k) (omega arith)
  ]
]

room-collect : (cs ts : List Text) → room (collect cs ts) ≤ room cs + room ts
unfolding collect room
room-collect cs [] = omega arith
room-collect cs (t ∷ ts) = omega (arith, room-collect (push cs t) ts, room-push cs t)

room-reverse_onto : (cs ds : List Text) → room (reverse_onto cs ds) ≡ room cs + room ds
unfolding reverse_onto room
room-reverse_onto [] ds = omega arith
room-reverse_onto (c ∷ cs) ds = omega (arith, room-reverse_onto cs (c ∷ ds))

length-join : (cs : List Text) → length (join cs) ≤ room cs - 1
unfolding join room
length-join [] = omega arith
length-join (c ∷ []) = omega arith
length-join (c ∷ d ∷ cs) =
    let e : length (c ++ slash ∷ join (d ∷ cs)) ≤ suc (length c + suc (length d + room cs)) - 1 =
      omega (arith, length-join (d ∷ cs), length-append c (slash ∷ join (d ∷ cs))) in
    e

-- A path of at most PATH_MAX - 2 characters has a normal form that fits the buffer of PATH_MAX
-- bytes with its closing 0; it has at most one character more than the path.
pub length-normalize_path :
    (path : Text)
    → length path ≤ path_max - 2
    → (length (normalize_path path) ≤ length path + 1)
      × (length (normalize_path path) + 1 ≤ path_max)
unfolding normalize_path
length-normalize_path path h =
    let p = take (path_max - 1) path in
    let r = collect [] (split [] p) in
    let n : length (slash ∷ join (reverse_onto r [])) ≤ length p + 1 = omega (
      arith,
      length-join (reverse_onto r []),
      room-reverse_onto r [],
      room-collect [] (split [] p),
      room-split [] p,
      none_room,
    ) in
    omega (arith, n, h, length-take (path_max - 1) path)
