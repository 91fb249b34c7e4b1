-- ===== src/Epaxos/Valid.antt =====
-- The handlers keep dependency arrays valid: those of the instance, of what its recovery has
-- recorded, and of the message.
pub mod Acceptor
pub mod Recovery
pub mod Progress
use epx_c.Base.{
  ℕ, suc, ◌+◌, ◌-◌, if◌then◌else◌, ltb, ◌≡◌, Bool, Option, none, some, List, [], ◌∷◌, Outcome, ok,
  fault, ◌>>=◌, Ensures, Ensures-bind, Outcome-cases, Option-cases, Bool-cases, inl, inr, arith,
}
use epx_c.InstanceId.{Dependency}
use epx_c.Message.{State, bits, MessageType}
use epx_c.Instance.{LeaderTracker, instance_reset, new_tracker}
use epx_c.Instance.Ballot.{u8}
use epx_c.Instance.Deps.{zero_deps, update_deps}
use epx_c.Instance.Deps.Sorted.{IsValid, update_deps-IsValid}
use epx_c.Extern.{Externals}
use epx_c.Index.Valid.{zero_deps-IsValid}
use epx_c.Replica.{alloc, store, sd_for_command}
use epx_c.Replica.Valid.{FoundIsValid, sd_for_command-IsValid, noop-IsValid}
use epx_c.Epaxos.{World, do_commit, recover_with, recover}
use epx_c.Epaxos.Leader.{
  phase1, pre_accept_ok, nacked, nack_reply, merge_deps, pre_accept_reply, accept_reply,
}

abbrev pub TrackerIsValid : Option LeaderTracker → Type 0
TrackerIsValid none = Unit
TrackerIsValid (some lt) = IsValid lt.ri.deps

pub record WorldIsValid {x : Externals} (w : World x) : Type 0 where
  pub own : IsValid w.i.deps
  pub recorded : TrackerIsValid w.i.lt
  pub received : IsValid w.m.deps

merge_deps-IsValid :
    (equal : ℕ) (deps ds : List Dependency) → IsValid deps → IsValid (merge_deps equal deps ds).1
unfolding merge_deps
merge_deps-IsValid equal deps [] v = v
merge_deps-IsValid equal deps (d ∷ ds) v =
    merge_deps-IsValid (u8 (equal + 256 - (update_deps deps d).0)) (update_deps deps d).1 ds
      (update_deps-IsValid deps d v)

module _ {x : Externals} where
  pub do_commit-IsValid : (w : World x) → WorldIsValid w → Ensures WorldIsValid (do_commit w)
  unfolding do_commit
  do_commit-IsValid w v = ground arith

  recover_with-IsValid :
      (w : World x) (lt : LeaderTracker) → WorldIsValid w → WorldIsValid (recover_with lt w)
  unfolding recover_with
  recover_with-IsValid w lt v = ground arith

  pub recover-IsValid : (w : World x) → WorldIsValid w → WorldIsValid (recover w)
  unfolding recover
  recover-IsValid w v = elim (Option-cases w.i.lt) [
    | inr (lt, e) ↦ ground (arith, recover_with-IsValid w lt v)
    | inl e ↦ elim (Option-cases (new_tracker (alloc w.r).0)) [
      | inr (lt, f) ↦ ground (
        arith,
        recover_with-IsValid (record w { r = (alloc w.r).1 }) lt
            (record { own = v.own; recorded = v.recorded; received = v.received }),
      )
      | inl f ↦ ground arith
    ]
  ]

  pub phase1-IsValid : (w : World x) → WorldIsValid w → Ensures WorldIsValid (phase1 w)
  unfolding phase1 instance_reset
  phase1-IsValid w v =
      Ensures-bind FoundIsValid WorldIsValid _ _
        (λ found u. elim (Option-cases w.i.lt) [
          | inl e ↦ ground arith
          | inr (lt, e) ↦ ground (arith, zero_deps-IsValid)
        ])
        (sd_for_command-IsValid _ _ _ _ zero_deps-IsValid)

  pub pre_accept_ok-IsValid :
      (w : World x) → WorldIsValid w → Ensures WorldIsValid (pre_accept_ok w)
  unfolding pre_accept_ok do_commit
  pre_accept_ok-IsValid w v = elim (Option-cases w.i.lt) [
    | inl e ↦ ground arith
    | inr (lt, e) ↦ ground arith
  ]

  nack_reply-IsValid :
      (lt : LeaderTracker) (w : World x)
      → w.i.lt ≡ some lt
      → WorldIsValid w
      → Ensures WorldIsValid (nack_reply lt w)
  unfolding nack_reply
  nack_reply-IsValid lt w e v =
      ground (arith, recover-IsValid (record w { i = record (w.i) { lt = some (nacked lt w) } }))

  pub accept_reply-IsValid : (w : World x) → WorldIsValid w → Ensures WorldIsValid (accept_reply w)
  unfolding accept_reply do_commit
  accept_reply-IsValid w v = elim (Option-cases w.i.lt) [
    | inl e ↦ ground arith
    | inr (lt, e) ↦ ground (arith, nack_reply-IsValid lt w e v)
  ]

  pub pre_accept_reply-IsValid :
      (w : World x) → WorldIsValid w → Ensures WorldIsValid (pre_accept_reply w)
  unfolding pre_accept_reply do_commit
  pre_accept_reply-IsValid w v = elim (Option-cases w.i.lt) [
    | inl e ↦ ground arith
    | inr (lt, e) ↦ ground (
      arith,
      nack_reply-IsValid lt w e v,
      merge_deps-IsValid (if ltb w.i.seq w.m.seq then 1 else lt.equal) w.i.deps w.m.deps v.own,
    )
  ]
