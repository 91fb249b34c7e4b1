-- ===== src/Epaxos/Progress/Depth.antt =====
-- `progress` calls itself only through two handlers, for a message of type `PHASE1`, whose handler
-- makes no further call.
use epx_c.Base.{ℕ, suc, ◌≡◌, refl}
use epx_c.Extern.{Externals}
use epx_c.Epaxos.{World}
use epx_c.Epaxos.Progress.{dispatch, progress_at, progress}

-- Two calls deep is deep enough: with any more fuel `progress` gives the same result.
pub progress_depth :
    (x : Externals) (depth : ℕ) (w : World x) → progress_at (suc (suc depth)) w ≡ progress w
unfolding progress progress_at dispatch
progress_depth x depth w = refl
