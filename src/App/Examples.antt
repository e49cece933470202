-- ===== src/App/Examples.antt =====
-- The target of a cross-thread call in a concrete layout.
use dpapp.Common.{refl, ◌≡◌, [], ◌∷◌, some, List, arith}
use dpapp.Common.Int.{ℤ, pos, negsuc}
use dpapp.Common.Outcome.{Returns, done}
use dpapp.App.{layout, place, ids_from, hash_bytes, by_type, resolve_toid}
use dpapp.App.Target.{Target, resolve_toid-Target}

-- Behind the main thread, three workers of type 1, none of type 2, two of type 3.
abbrev counts : List ℤ
counts = pos 3 ∷ negsuc 0 ∷ pos 2 ∷ []

resolve_toid-Target_example :
    Returns
      (Target counts (7 ∷ 1 ∷ []) (negsuc 2))
      (resolve_toid (layout (pos 1) counts) (7 ∷ 1 ∷ []) (negsuc 2))
resolve_toid-Target_example =
    resolve_toid-Target (pos 1) counts (7 ∷ 1 ∷ []) (negsuc 2) (omega arith)

by_hash_run : resolve_toid (layout (pos 1) counts) (7 ∷ 1 ∷ []) (negsuc 2) ≡ done (some 4)
unfolding resolve_toid by_type layout place ids_from hash_bytes
by_hash_run = refl
