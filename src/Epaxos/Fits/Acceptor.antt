-- ===== src/Epaxos/Fits/Acceptor.antt =====
-- The handlers of src/epaxos.c that answer a leader, for the indexes.
use epx_c.Base.{ℕ, Option, Ensures, Ensures-bind, Outcome-cases, Option-cases, inl, inr, arith}
use epx_c.Command.{Command}
use epx_c.Instance.{SeqDepsProbe}
use epx_c.Extern.{Externals}
use epx_c.Replica.{store, find_conflict}
use epx_c.Replica.Valid.{FoundIsValid, sd_for_command-IsValid}
use epx_c.Epaxos.{World}
use epx_c.Epaxos.Acceptor.{
  clear_if_null, pre_accepted_by, accepted_by, pre_accept_found, pre_accept_value, pre_accept,
  accept_value, accept, prepare, try_pre_accept_value, try_pre_accept, commit,
}
use epx_c.Epaxos.Valid.{WorldIsValid}
use epx_c.InstanceId.{InstanceId}
use epx_c.Extern.Laws.{LlrbLaws}
use epx_c.Epaxos.Indexes.{
  IndexesAreValid, PlaceIsValid, store-IndexesAreValid, clear-IndexesAreValid,
}
use epx_c.Epaxos.Fits.{WorldFits}
use epx_c.Epx.{n_replicas}
use epx_c.Instance.{Instance}
use epx_c.Base.{◌≡◌, ◌<◌, none, some, ok, sym, subst, Ensures-ok}
use epx_c.Epaxos.Valid.{TrackerIsValid}
use epx_c.Instance.Deps.Sorted.{IsValid}
use epx_c.Replica.{Replica}

module _ (x : Externals) (l : LlrbLaws x.llrb) (k : InstanceId) where
  pub commit-WorldFits : (w : World x) → WorldFits x l k w → WorldFits x l k (commit w)
  unfolding commit
  commit-WorldFits w v = ground arith

  pub prepare-WorldFits : (w : World x) → WorldFits x l k w → WorldFits x l k (prepare w)
  unfolding prepare
  prepare-WorldFits w v = ground arith

  clear_if_null-IndexesAreValid :
      (c : Option Command) (r : Replica x) (i : Instance)
      → PlaceIsValid x l i
      → IndexesAreValid x l r.index
      → Ensures (λ r'. IndexesAreValid x l r'.index) (clear_if_null c r i)
  clear_if_null-IndexesAreValid none r i p v =
      clear-IndexesAreValid x l (store r i) (store-IndexesAreValid x l r i p v)
  clear_if_null-IndexesAreValid (some c) r i p v = v

  -- the handlers that may clear the indexes, once the instance is written
  after_clear :
      (c : Option Command) (w : World x) (i : Instance) {r : Replica x}
      → clear_if_null c w.r i ≡ ok r
      → k.replica_id < n_replicas
      → i.key ≡ k
      → IsValid i.deps
      → TrackerIsValid i.lt
      → IndexesAreValid x l w.r.index
      → IndexesAreValid x l r.index
  after_clear c w i e h s d t v =
      Ensures-ok (λ r'. IndexesAreValid x l r'.index) (clear_if_null c w.r i) e
        (clear_if_null-IndexesAreValid c w.r i
          (subst (λ n. n.replica_id < n_replicas) (sym s) h, d, t) v)

  module _ (w : World x) (g : WorldIsValid w) (h : k.replica_id < n_replicas)
      (v : WorldFits x l k w) where
    accept_value-WorldFits : Ensures (WorldFits x l k) (accept_value w)
    unfolding accept_value
    accept_value-WorldFits = elim (Outcome-cases (clear_if_null w.m.command w.r (accepted_by w))) [
      | inl (r, e) ↦
          let kept =
            after_clear w.m.command w (accepted_by w) {r = r} e h v.1 g.received g.recorded v.0 in
          rw e (kept, v.1)
      | inr (f, e) ↦ rw e tt
    ]

    pub accept-WorldFits : Ensures (WorldFits x l k) (accept w)
    unfolding accept
    accept-WorldFits = ground (arith, accept_value-WorldFits)

    pre_accept_found-WorldFits :
        (found : ℕ × Option Command × SeqDepsProbe)
        → FoundIsValid found
        → Ensures (WorldFits x l k) (pre_accept_found w found)
    unfolding pre_accept_found
    pre_accept_found-WorldFits found u =
        elim (Outcome-cases (clear_if_null found.1 w.r (pre_accepted_by w found))) [
          | inl (r, e) ↦
              let kept =
                after_clear found.1 w (pre_accepted_by w found) {r = r} e h v.1 u g.recorded v.0 in
              ground arith
          | inr (f, e) ↦ rw e tt
        ]

    pre_accept_value-WorldFits : Ensures (WorldFits x l k) (pre_accept_value w)
    unfolding pre_accept_value
    pre_accept_value-WorldFits =
        Ensures-bind FoundIsValid (WorldFits x l k) _ _
          (λ found u. pre_accept_found-WorldFits found u) (sd_for_command-IsValid _ _ _ _ g.own)

    pub pre_accept-WorldFits : Ensures (WorldFits x l k) (pre_accept w)
    unfolding pre_accept
    pre_accept-WorldFits = ground (arith, pre_accept_value-WorldFits)

  try_pre_accept_value-WorldFits :
      (w : World x) → WorldFits x l k w → Ensures (WorldFits x l k) (try_pre_accept_value w)
  unfolding try_pre_accept_value
  try_pre_accept_value-WorldFits w v =
      elim (Outcome-cases (find_conflict (store w.r w.i) w.i w.m.command w.m.seq w.m.deps)) [
        | inr (f, e) ↦ ground arith
        | inl ((conflict, command), e) ↦ elim (Option-cases conflict) [
          | inl n ↦ ground arith
          | inr (t, n) ↦ ground arith
        ]
      ]

  pub try_pre_accept-WorldFits :
      (w : World x) → WorldFits x l k w → Ensures (WorldFits x l k) (try_pre_accept w)
  unfolding try_pre_accept
  try_pre_accept-WorldFits w v = ground (arith, try_pre_accept_value-WorldFits w v)
