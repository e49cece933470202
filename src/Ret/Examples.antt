-- ===== src/Ret/Examples.antt =====
-- The texts of some codes.
use dpapp.Common.{◌≡◌, refl, none}
use dpapp.Common.Int.{negsuc}
use dpapp.Common.Outcome.{done}
use dpapp.Ret.{errmsgs, errmsg, detail, http_detail}

teapot : http_detail (λ n. none) (negsuc 417) ≡ done "I'm a teapot"
unfolding http_detail detail errmsg errmsgs
teapot = refl
