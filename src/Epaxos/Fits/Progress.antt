-- ===== src/Epaxos/Fits/Progress.antt =====
-- `progress` of src/epaxos.c, for the indexes.
use epx_c.Base.{ℕ, zero, suc, ◌<◌, Outcome, ok, Ensures, arith}
use epx_c.Epx.{n_replicas}
use epx_c.InstanceId.{InstanceId}
use epx_c.Message.{MessageType}
use epx_c.Extern.{Externals}
use epx_c.Extern.Laws.{LlrbLaws}
use epx_c.Epaxos.{World}
use epx_c.Epaxos.Leader.{phase1, pre_accept_ok, pre_accept_reply, accept_reply}
use epx_c.Epaxos.Acceptor.{pre_accept, accept, prepare, try_pre_accept, commit}
use epx_c.Epaxos.Progress.{restart, dispatch, progress_at, progress}
use epx_c.Epaxos.Valid.{
  WorldIsValid, phase1-IsValid, pre_accept_ok-IsValid, pre_accept_reply-IsValid,
  accept_reply-IsValid,
}
use epx_c.Epaxos.Valid.Acceptor.{
  pre_accept-IsValid, accept-IsValid, prepare-IsValid, try_pre_accept-IsValid, commit-IsValid,
}
use epx_c.Epaxos.Fits.{
  WorldFits, IsSound, Ensures-IsSound, phase1-WorldFits, pre_accept_ok-WorldFits,
  pre_accept_reply-WorldFits, accept_reply-WorldFits,
}
use epx_c.Epaxos.Fits.Acceptor.{
  pre_accept-WorldFits, accept-WorldFits, prepare-WorldFits, try_pre_accept-WorldFits,
  commit-WorldFits,
}
use epx_c.Epaxos.Fits.Recovery.{KeepsSound, prepare_reply-IsSound, try_pre_accept_reply-IsSound}

module _ (x : Externals) (l : LlrbLaws x.llrb) (k : InstanceId)
    (h : k.replica_id < n_replicas) where
  restart-KeepsSound :
      (again : World x → Outcome (World x))
      → KeepsSound x l k again
      → KeepsSound x l k (restart again)
  restart-KeepsSound again keeps w v =
      keeps (record w { m = record (w.m) { type = MessageType.phase1 } })
        (record {
          own = v.own;
          recorded = v.recorded;
          received = v.received;
          indexes = v.indexes;
          key = v.key;
        })

  dispatch-KeepsSound :
      (again : World x → Outcome (World x))
      → KeepsSound x l k again
      → KeepsSound x l k (dispatch again)
  unfolding dispatch
  dispatch-KeepsSound again keeps w v =
      let g : WorldIsValid w = record {
        own = v.own;
        recorded = v.recorded;
        received = v.received;
      } in
      let f : WorldFits x l k w = (v.indexes, v.key) in
      ground (
        arith,
        Ensures-IsSound x l k (phase1 w) (phase1-IsValid w g) (phase1-WorldFits x l k w f),
        Ensures-IsSound x l k (pre_accept w) (pre_accept-IsValid w g)
            (pre_accept-WorldFits x l k w g h f),
        Ensures-IsSound x l k (pre_accept_ok w) (pre_accept_ok-IsValid w g)
            (pre_accept_ok-WorldFits x l k w f),
        Ensures-IsSound x l k (pre_accept_reply w) (pre_accept_reply-IsValid w g)
            (pre_accept_reply-WorldFits x l k w f),
        Ensures-IsSound x l k (accept w) (accept-IsValid w g) (accept-WorldFits x l k w g h f),
        Ensures-IsSound x l k (accept_reply w) (accept_reply-IsValid w g)
            (accept_reply-WorldFits x l k w f),
        Ensures-IsSound x l k (ok (commit w)) (commit-IsValid w g) (commit-WorldFits x l k w f),
        Ensures-IsSound x l k (ok (prepare w)) (prepare-IsValid w g) (prepare-WorldFits x l k w f),
        Ensures-IsSound x l k (try_pre_accept w) (try_pre_accept-IsValid w g)
            (try_pre_accept-WorldFits x l k w f),
        prepare_reply-IsSound x l k (restart again) (restart-KeepsSound again keeps) w v,
        try_pre_accept_reply-IsSound x l k (restart again) (restart-KeepsSound again keeps) w v,
      )

  progress_at-KeepsSound : (depth : ℕ) → KeepsSound x l k (progress_at depth)
  unfolding progress_at
  progress_at-KeepsSound zero w v = tt
  progress_at-KeepsSound (suc depth) w v =
      dispatch-KeepsSound (progress_at depth) (progress_at-KeepsSound depth) w v

  pub progress-IsSound : (w : World x) → IsSound x l k w → Ensures (IsSound x l k) (progress w)
  unfolding progress
  progress-IsSound w v = progress_at-KeepsSound 2 w v
