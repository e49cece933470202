-- ===== src/Evp/Deque/Segment.antt =====
-- Elements that are linked in a row, and what a write to one of them does to the row.
use dpapp.Common.{ℕ, ◌≡◌, refl, ap, true, false, Option, some, List, [], ◌∷◌, ◌++◌, ◌==◌, arith}
use dpapp.Evp.Deque.{Heap, set_prev, set_next}

abbrev pub first : List ℕ → Option ℕ → Option ℕ
first [] q = q
first (x ∷ xs) q = some x

abbrev pub last : Option ℕ → List ℕ → Option ℕ
last p [] = p
last p (x ∷ xs) = last (some x) xs

-- The address of the last of `x` and `xs`.
abbrev pub last_of : ℕ → List ℕ → ℕ
last_of x [] = x
last_of x (y ∷ ys) = last_of y ys

-- The row is linked in both directions, with `p` in front of it and `q` behind.
abbrev pub Row : Heap → Option ℕ → List ℕ → Option ℕ → Type 0
Row h p [] q = Unit
Row h p (x ∷ xs) q = ((h x).prev ≡ p) × ((h x).next ≡ first xs q) × Row h (some x) xs q

abbrev pub NotIn : ℕ → List ℕ → Type 0
NotIn a [] = Unit
NotIn a (x ∷ xs) = ((x == a) ≡ false) × ((a == x) ≡ false) × NotIn a xs

abbrev pub Distinct : List ℕ → Type 0
Distinct [] = Unit
Distinct (x ∷ xs) = NotIn x xs × Distinct xs

pub Row-set_prev :
    (h : Heap) (p : Option ℕ) (xs : List ℕ) (q : Option ℕ) (a : ℕ) (v : Option ℕ)
    → NotIn a xs
    → Row h p xs q
    → Row (set_prev h a v) p xs q
Row-set_prev h p [] q a v n r = tt
Row-set_prev h p (x ∷ xs) q a v (n, m, ns) (e, f, r) =
    rw n (e, f, Row-set_prev h (some x) xs q a v ns r)

pub Row-set_next :
    (h : Heap) (p : Option ℕ) (xs : List ℕ) (q : Option ℕ) (a : ℕ) (v : Option ℕ)
    → NotIn a xs
    → Row h p xs q
    → Row (set_next h a v) p xs q
Row-set_next h p [] q a v n r = tt
Row-set_next h p (x ∷ xs) q a v (n, m, ns) (e, f, r) =
    rw n (e, f, Row-set_next h (some x) xs q a v ns r)

pub self : (x : ℕ) → (x == x) ≡ true
self x = ground arith

-- Another element is put in front of the row.
pub Row-front :
    (h : Heap) (p : Option ℕ) (x : ℕ) (xs : List ℕ) (q v : Option ℕ)
    → NotIn x xs
    → Row h p (x ∷ xs) q
    → Row (set_prev h x v) v (x ∷ xs) q
Row-front h p x xs q v n (e, f, r) = rw (self x) (refl, f, Row-set_prev h (some x) xs q x v n r)

pub NotIn-last_of : (a y : ℕ) (ys : List ℕ) → NotIn a (y ∷ ys) → (a == last_of y ys) ≡ false
NotIn-last_of a y [] (n, m, ns) = m
NotIn-last_of a y (z ∷ zs) (n, m, ns) = NotIn-last_of a z zs ns

-- Another element is put behind the row.
pub Row-behind :
    (h : Heap) (p : Option ℕ) (x : ℕ) (xs : List ℕ) (q v : Option ℕ)
    → Distinct (x ∷ xs)
    → Row h p (x ∷ xs) q
    → Row (set_next h (last_of x xs) v) p (x ∷ xs) v
Row-behind h p x [] q v d (e, f, r) = rw (self x) (e, refl, tt)
Row-behind h p x (y ∷ ys) q v (n, d) (e, f, r) =
    rw (NotIn-last_of x y ys n) (e, f, Row-behind h (some x) y ys q v d r)

pub Row-append :
    (h : Heap) (p : Option ℕ) (xs ys : List ℕ) (q : Option ℕ)
    → Row h p xs (first ys q)
    → Row h (last p xs) ys q
    → Row h p (xs ++ ys) q
Row-append h p [] ys q r s = s
Row-append h p (x ∷ []) ys q (e, f, r) s = (e, f, s)
Row-append h p (x ∷ y ∷ xs) ys q (e, f, r) s = (e, f, Row-append h (some x) (y ∷ xs) ys q r s)

pub last-last_of : (p : Option ℕ) (x : ℕ) (xs : List ℕ) → last p (x ∷ xs) ≡ some (last_of x xs)
last-last_of p x [] = refl
last-last_of p x (y ∷ ys) = last-last_of (some x) y ys

pub last-append : (p : Option ℕ) (xs ys : List ℕ) → last p (xs ++ ys) ≡ last (last p xs) ys
last-append p [] ys = refl
last-append p (x ∷ xs) ys = last-append (some x) xs ys

-- No element is in both.
abbrev pub Apart : List ℕ → List ℕ → Type 0
Apart [] ys = Unit
Apart (x ∷ xs) ys = NotIn x ys × Apart xs ys

pub NotIn-append : (a : ℕ) (xs ys : List ℕ) → NotIn a xs → NotIn a ys → NotIn a (xs ++ ys)
NotIn-append a [] ys n m = m
NotIn-append a (x ∷ xs) ys (n, n', ns) m = (n, n', NotIn-append a xs ys ns m)

pub Distinct-append :
    (xs ys : List ℕ) → Distinct xs → Distinct ys → Apart xs ys → Distinct (xs ++ ys)
Distinct-append [] ys d e a = e
Distinct-append (x ∷ xs) ys (n, d) e (m, a) =
    (NotIn-append x xs ys n m, Distinct-append xs ys d e a)

pub NotIn-Apart : (s : ℕ) (ss xs : List ℕ) → Apart xs (s ∷ ss) → NotIn s xs
NotIn-Apart s ss [] a = tt
NotIn-Apart s ss (x ∷ xs) ((n, m, ns), a) = (m, n, NotIn-Apart s ss xs a)

pub Apart-last_of : (x : ℕ) (xs ys : List ℕ) → Apart (x ∷ xs) ys → NotIn (last_of x xs) ys
Apart-last_of x [] ys (n, a) = n
Apart-last_of x (y ∷ xs) ys (n, a) = Apart-last_of y xs ys a

pub Apart-one : (e : ℕ) (xs : List ℕ) → NotIn e xs → Apart xs (e ∷ [])
Apart-one e [] n = tt
Apart-one e (x ∷ xs) (n, m, ns) = ((m, n, tt), Apart-one e xs ns)

pub append-nil : (xs : List ℕ) → xs ++ [] ≡ xs
append-nil [] = refl
append-nil (x ∷ xs) = ap (◌∷◌ x) (append-nil xs)
