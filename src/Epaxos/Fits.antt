-- ===== src/Epaxos/Fits.antt =====
-- The handlers of src/epaxos.c, for a replica's indexes and the instance's key.
pub mod Acceptor
pub mod Recovery
pub mod Progress
use epx_c.Base.{
  ℕ, suc, ◌≡◌, ◌<◌, if◌then◌else◌, ltb, Bool, Option, none, some, List, [], ◌∷◌, Outcome, ok, fault,
  ◌>>=◌, Ensures, Ensures-bind, Ensures-then, Outcome-cases, Option-cases, Bool-cases, inl, inr,
  arith,
}
use epx_c.Epx.{n_replicas}
use epx_c.InstanceId.{InstanceId}
use epx_c.Message.{State, bits, MessageType}
use epx_c.Instance.{LeaderTracker, instance_reset, new_tracker}
use epx_c.Extern.{Externals}
use epx_c.Extern.Laws.{LlrbLaws}
use epx_c.Index.Valid.{zero_deps-IsValid}
use epx_c.Replica.Valid.{FoundIsValid, sd_for_command-IsValid}
use epx_c.Replica.{alloc, store, sd_for_command}
use epx_c.Epaxos.{World, do_commit, recover_with, recover}
use epx_c.Instance.Deps.Sorted.{IsValid}
use epx_c.Epaxos.Valid.{TrackerIsValid, WorldIsValid}
use epx_c.Epaxos.Indexes.{IndexesAreValid}
use epx_c.Epaxos.Leader.{
  phase1, pre_accept_ok, nacked, nack_reply, merge_deps, pre_accept_reply, accept_reply,
}

-- The indexes are valid, and the instance has the key `k`.
abbrev pub WorldFits : (x : Externals) → LlrbLaws x.llrb → InstanceId → World x → Type 0
WorldFits x l k w = IndexesAreValid x l w.r.index × (w.i.key ≡ k)

-- All that the handlers keep of a world whose instance has the key `k`.
pub record IsSound (x : Externals) (l : LlrbLaws x.llrb) (k : InstanceId) (w : World x)
    : Type 0 where
  pub own : IsValid w.i.deps
  pub recorded : TrackerIsValid w.i.lt
  pub received : IsValid w.m.deps
  pub indexes : IndexesAreValid x l w.r.index
  pub key : w.i.key ≡ k

module _ (x : Externals) (l : LlrbLaws x.llrb) (k : InstanceId) where
  -- what keeps the dependency arrays and the indexes keeps all
  pub Ensures-IsSound :
      (o : Outcome (World x))
      → Ensures WorldIsValid o
      → Ensures (WorldFits x l k) o
      → Ensures (IsSound x l k) o
  Ensures-IsSound (ok w) v f = record {
    own = v.own;
    recorded = v.recorded;
    received = v.received;
    indexes = f.0;
    key = f.1;
  }
  Ensures-IsSound (fault e) v f = tt

  pub do_commit-WorldFits :
      (w : World x) → WorldFits x l k w → Ensures (WorldFits x l k) (do_commit w)
  unfolding do_commit
  do_commit-WorldFits w v = ground arith

  recover_with-WorldFits :
      (w : World x) (lt : LeaderTracker) → WorldFits x l k w → WorldFits x l k (recover_with lt w)
  unfolding recover_with
  recover_with-WorldFits w lt v = v

  pub recover-WorldFits : (w : World x) → WorldFits x l k w → WorldFits x l k (recover w)
  unfolding recover
  recover-WorldFits w v = elim (Option-cases w.i.lt) [
    | inr (lt, e) ↦ ground (arith, recover_with-WorldFits w lt v)
    | inl e ↦ elim (Option-cases (new_tracker (alloc w.r).0)) [
      | inr (lt, f) ↦ ground (arith, recover_with-WorldFits (record w { r = (alloc w.r).1 }) lt v)
      | inl f ↦ ground arith
    ]
  ]

  pub phase1-WorldFits : (w : World x) → WorldFits x l k w → Ensures (WorldFits x l k) (phase1 w)
  unfolding phase1 instance_reset
  phase1-WorldFits w v =
      Ensures-bind FoundIsValid (WorldFits x l k) _ _
        (λ found u. elim (Option-cases w.i.lt) [
          | inl e ↦ ground arith
          | inr (lt, e) ↦ ground arith
        ])
        (sd_for_command-IsValid _ _ _ _ zero_deps-IsValid)

  pub pre_accept_ok-WorldFits :
      (w : World x) → WorldFits x l k w → Ensures (WorldFits x l k) (pre_accept_ok w)
  unfolding pre_accept_ok do_commit
  pre_accept_ok-WorldFits w v = elim (Option-cases w.i.lt) [
    | inl e ↦ ground arith
    | inr (lt, e) ↦ ground arith
  ]

  nack_reply-WorldFits :
      (lt : LeaderTracker) (w : World x)
      → w.i.lt ≡ some lt
      → WorldFits x l k w
      → Ensures (WorldFits x l k) (nack_reply lt w)
  unfolding nack_reply
  nack_reply-WorldFits lt w e v =
      ground
        (arith, recover-WorldFits (record w { i = record (w.i) { lt = some (nacked lt w) } }) v)

  pub accept_reply-WorldFits :
      (w : World x) → WorldFits x l k w → Ensures (WorldFits x l k) (accept_reply w)
  unfolding accept_reply do_commit
  accept_reply-WorldFits w v = elim (Option-cases w.i.lt) [
    | inl e ↦ ground arith
    | inr (lt, e) ↦ ground (arith, nack_reply-WorldFits lt w e v)
  ]

  pub pre_accept_reply-WorldFits :
      (w : World x) → WorldFits x l k w → Ensures (WorldFits x l k) (pre_accept_reply w)
  unfolding pre_accept_reply do_commit
  pre_accept_reply-WorldFits w v = elim (Option-cases w.i.lt) [
    | inl e ↦ ground arith
    | inr (lt, e) ↦ ground (arith, nack_reply-WorldFits lt w e v)
  ]
