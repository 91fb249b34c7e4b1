-- ===== src/Epaxos/Valid/Progress.antt =====
-- `progress` keeps dependency arrays valid, and so do proposals and messages.
use epx_c.Base.{ℕ, zero, suc, ◌≡◌, Outcome, ok, Ensures-ok, arith}
use epx_c.Message.{MessageType}
use epx_c.Extern.{Externals}
use epx_c.Epaxos.{World}
use epx_c.Epaxos.Progress.{restart, dispatch, progress_at, progress}
use epx_c.Epaxos.Valid.{
  WorldIsValid, phase1-IsValid, pre_accept_ok-IsValid, pre_accept_reply-IsValid,
  accept_reply-IsValid,
}
use epx_c.Epaxos.Valid.Acceptor.{
  pre_accept-IsValid, accept-IsValid, prepare-IsValid, try_pre_accept-IsValid, commit-IsValid,
}
use epx_c.Epaxos.Valid.Recovery.{Keeps, prepare_reply-IsValid, try_pre_accept_reply-IsValid}

module _ {x : Externals} where
  restart-Keeps : (again : World x → Outcome (World x)) → Keeps again → Keeps (restart again)
  restart-Keeps again keeps w v =
      keeps (record w { m = record (w.m) { type = MessageType.phase1 } })
        (record { own = v.own; recorded = v.recorded; received = v.received })

  dispatch-Keeps : (again : World x → Outcome (World x)) → Keeps again → Keeps (dispatch again)
  unfolding dispatch
  dispatch-Keeps again keeps w v = ground (
    arith,
    phase1-IsValid w v,
    pre_accept-IsValid w v,
    pre_accept_ok-IsValid w v,
    pre_accept_reply-IsValid w v,
    accept-IsValid w v,
    accept_reply-IsValid w v,
    commit-IsValid w v,
    prepare-IsValid w v,
    prepare_reply-IsValid (restart again) (restart-Keeps again keeps) w v,
    try_pre_accept-IsValid w v,
    try_pre_accept_reply-IsValid (restart again) (restart-Keeps again keeps) w v,
  )

  progress_at-Keeps : (depth : ℕ) → Keeps {x = x} (progress_at depth)
  unfolding progress_at
  progress_at-Keeps zero w v = tt
  progress_at-Keeps (suc depth) w v =
      dispatch-Keeps (progress_at depth) (progress_at-Keeps depth) w v

-- Whatever the libraries, the indexes and the message hold: if the dependency arrays of the
-- instance, of its recovery and of the message are valid, they are valid when `progress` returns.
pub progress-IsValid :
    (x : Externals) (w w' : World x) → WorldIsValid w → progress w ≡ ok w' → WorldIsValid w'
unfolding progress
progress-IsValid x w w' v e = Ensures-ok WorldIsValid (progress_at 2 w) e (progress_at-Keeps 2 w v)
