-- ===== src/Paths/Examples.antt =====
-- Normal forms of concrete paths; a is 97, b is 98, c is 99.
use dpapp.Common.{◌+◌, ◌≤◌, ◌≡◌, refl, true, List, [], ◌∷◌, length, arith, some}
use dpapp.Paths.{
  Text, slash, path_max, split, same, push, collect, join, reverse_onto, normalize_path,
  absolute_path,
}
use dpapp.Paths.Normal.{all_proper, normalize_path-again}
use dpapp.Paths.Length.{length-normalize_path}

-- "/a/./b/../c".
abbrev dotted : Text
dotted = 47 ∷ 97 ∷ 47 ∷ 46 ∷ 47 ∷ 98 ∷ 47 ∷ 46 ∷ 46 ∷ 47 ∷ 99 ∷ []

dotted_normal : normalize_path dotted ≡ 47 ∷ 97 ∷ 47 ∷ 99 ∷ []
unfolding normalize_path split push collect join reverse_onto same
dotted_normal = refl

-- "a/../b".
relative_normal : normalize_path (97 ∷ 47 ∷ 46 ∷ 46 ∷ 47 ∷ 98 ∷ []) ≡ 47 ∷ 98 ∷ []
unfolding normalize_path split push collect join reverse_onto same
relative_normal = refl

root_normal : normalize_path (47 ∷ []) ≡ 47 ∷ []
unfolding normalize_path split push collect join reverse_onto same
root_normal = refl

below_cwd : absolute_path (some (47 ∷ 98 ∷ [])) (46 ∷ 47 ∷ 97 ∷ []) ≡ some (47 ∷ 98 ∷ 47 ∷ 97 ∷ [])
unfolding absolute_path normalize_path split push collect join reverse_onto same
below_cwd = refl

normalize_path-again_example :
    (ts : List Text) × (normalize_path dotted ≡ slash ∷ join ts)
    × (all_proper ts ≡ true)
    × (normalize_path (normalize_path dotted) ≡ normalize_path dotted)
unfolding normalize_path split push collect join reverse_onto same
normalize_path-again_example = normalize_path-again dotted (omega arith)

length-normalize_path_example :
    (length (normalize_path dotted) ≤ length dotted + 1)
    × (length (normalize_path dotted) + 1 ≤ path_max)
length-normalize_path_example = length-normalize_path dotted (omega arith)
