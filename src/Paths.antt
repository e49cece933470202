-- ===== src/Paths.antt =====
-- lib/dpapp/which.c: the normal form of a path.
pub mod Normal
pub mod Length
mod Examples
use dpapp.Common.{
  ℕ, zero, suc, ◌+◌, ◌-◌, Bool, true, false, ◌&&◌, ◌||◌, not, Option, none, some, List, [], ◌∷◌,
  ◌++◌, ◌==◌, if◌then◌else◌, take,
}

-- Characters are numbers, and a string is the list of them before its 0.
abbrev pub Text : Type 0
Text = List ℕ

abbrev pub slash : ℕ
slash = 47

abbrev pub dot : ℕ
dot = 46

abbrev pub path_max : ℕ
path_max = 4096

-- `strcmp` with 0 as its answer.
unfoldable pub same : Text → Text → Bool
same [] [] = true
same [] (c ∷ cs) = false
same (b ∷ bs) [] = false
same (b ∷ bs) (c ∷ cs) = let rest = same bs cs in b == c && rest

-- A token that has begun with `front` is kept if it is not empty.
abbrev pub keep : Text → List Text → List Text
keep [] tokens = tokens
keep (c ∷ cs) tokens = (c ∷ cs) ∷ tokens

-- `strtok` with "/": the parts between slashes that are not empty. `front` is what was read of a part.
unfoldable pub split : Text → Text → List Text
split front [] = keep front []
split front (c ∷ cs) =
    let next = split [] cs in
    let more = split (front ++ (c ∷ [])) cs in if c == slash then keep front next else more

abbrev pub pop_top : List Text → List Text
pop_top [] = []
pop_top (c ∷ cs) = cs

-- A round of the loop of `normalize_path`. The last of `components` stands in front here.
unfoldable pub push : List Text → Text → List Text
push components token =
    if same token (dot ∷ dot ∷ [])
    then pop_top components
    else if same token (dot ∷ [])
    then components
    else token ∷ components

unfoldable pub collect : List Text → List Text → List Text
collect components [] = components
collect components (token ∷ tokens) = collect (push components token) tokens

-- The loop of `strcat`, from the first component on.
unfoldable pub join : List Text → Text
join [] = []
join (c ∷ []) = c
join (c ∷ d ∷ cs) = let rest = join (d ∷ cs) in c ++ slash ∷ rest

unfoldable pub reverse_onto : List Text → List Text → List Text
reverse_onto [] behind = behind
reverse_onto (c ∷ cs) behind = reverse_onto cs (c ∷ behind)

-- `normalize_path`. `strncpy` takes what fits of the path.
unfoldable pub normalize_path : Text → Text
normalize_path path =
    slash ∷ join (reverse_onto (collect [] (split [] (take (path_max - 1) path))) [])

-- `absolute_path`, with what `getcwd` gives. `_abs` has a byte more than the bound of `take`.
abbrev pub rooted : Option Text → Text → Option Text
rooted none path = none
rooted (some cwd) path = some (cwd ++ (slash ∷ path))

abbrev pub from_root : Text → Bool
from_root [] = false
from_root (c ∷ cs) = c == slash

abbrev pub normal : Option Text → Option Text
normal none = none
normal (some path) = some (normalize_path (take path_max path))

unfoldable pub absolute_path : Option Text → Text → Option Text
absolute_path cwd path = normal (if from_root path then some path else rooted cwd path)
