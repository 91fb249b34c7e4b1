-- ===== src/Epaxos/Valid/Recovery.antt =====
-- The handlers of a recovering replica keep dependency arrays valid.
use epx_c.Base.{
  ℕ, some, Outcome, Ensures, Ensures-bind, Outcome-cases, Option-cases, inl, inr, arith,
}
use epx_c.Instance.{Instance, LeaderTracker, RecoveryInstance, update_recovery_instance}
use epx_c.Message.{State, Message}
use epx_c.Instance.Deps.Sorted.{IsValid}
use epx_c.Extern.{Externals}
use epx_c.Replica.Valid.{noop-IsValid}
use epx_c.Replica.{store, pac_conflict}
use epx_c.Epaxos.{World, do_commit}
use epx_c.Epaxos.Recovery.{
  note_accepted, note_pre_accepted, propose_noop, accept_again, try_value, prepare_decide,
  prepare_reply, set_tracker, restart_from, trying, counted, noted, clear_quorum,
}
use epx_c.Epaxos.TryReply.{
  give_up, is_deferred, refused_by, deferred_choice, defer, try_ok, try_refused, try_refused_here,
  try_pre_accept_reply,
}
use epx_c.Epaxos.Valid.{WorldIsValid}

pub note_accepted-IsValid :
    (m : Message) (lt : LeaderTracker)
    → IsValid m.deps
    → IsValid lt.ri.deps
    → IsValid (note_accepted m lt).ri.deps
unfolding note_accepted update_recovery_instance
note_accepted-IsValid m lt v u = ground arith

pub note_pre_accepted-IsValid :
    (i : Instance) (m : Message) (lt : LeaderTracker)
    → IsValid m.deps
    → IsValid lt.ri.deps
    → IsValid (note_pre_accepted i m lt).ri.deps
unfolding note_pre_accepted update_recovery_instance
note_pre_accepted-IsValid i m lt v u = ground arith

abbrev pub Keeps : {x : Externals} → (World x → Outcome (World x)) → Type 0
Keeps restart = (w : World _) → WorldIsValid w → Ensures WorldIsValid (restart w)

module _ {x : Externals} where
  propose_noop-IsValid :
      (lt : LeaderTracker) (w : World x)
      → IsValid lt.ri.deps
      → WorldIsValid w
      → Ensures WorldIsValid (propose_noop lt w)
  unfolding propose_noop
  propose_noop-IsValid lt w u v =
      Ensures-bind IsValid WorldIsValid _ _ (λ deps d. ground arith) (noop-IsValid _ _)

  accept_again-IsValid :
      (lt : LeaderTracker) (w : World x)
      → IsValid lt.ri.deps
      → WorldIsValid w
      → WorldIsValid (accept_again lt w)
  unfolding accept_again
  accept_again-IsValid lt w u v = ground arith

  try_ok-IsValid :
      (lt : LeaderTracker) (w : World x)
      → IsValid lt.ri.deps
      → WorldIsValid w
      → WorldIsValid (try_ok lt w)
  unfolding try_ok
  try_ok-IsValid lt w u v = ground arith

  try_refused_here-IsValid :
      (lt : LeaderTracker) (w : World x)
      → IsValid lt.ri.deps
      → WorldIsValid w
      → Ensures WorldIsValid (try_refused_here lt w)
  unfolding try_refused_here
  try_refused_here-IsValid lt w u v = elim (Outcome-cases (clear_quorum w.m.from lt.quorum)) [
    | inr (f, e) ↦ ground arith
    | inl (q, e) ↦ elim (Outcome-cases (clear_quorum w.m.conflict.id.replica_id q)) [
      | inr (f, d) ↦ ground arith
      | inl (q', d) ↦ ground arith
    ]
  ]

  defer-IsValid : (w : World x) → WorldIsValid w → Ensures WorldIsValid (defer w)
  unfolding defer
  defer-IsValid w v = elim (Option-cases w.i.lt) [
    | inl e ↦ ground arith
    | inr (lt, e) ↦ ground arith
  ]

  module _ (restart : World x → Outcome (World x)) (keeps : Keeps restart) where
    try_value-IsValid :
        (lt : LeaderTracker) (w : World x)
        → IsValid lt.ri.deps
        → WorldIsValid w
        → Ensures WorldIsValid (try_value restart lt w)
    unfolding try_value
    try_value-IsValid lt w u v =
        elim (Outcome-cases (
          pac_conflict (store w.r (record (w.i) { lt = some (trying lt) }))
            (record (w.i) { lt = some (trying lt) }) lt.ri.command lt.ri.seq lt.ri.deps)) [
              | inr (f, e) ↦ ground arith
              | inl ((conflict, command), e) ↦ elim (Option-cases conflict) [
                | inl n ↦ ground arith
                | inr (t, n) ↦ ground (
                  arith,
                  keeps (restart_from (trying lt) command w)
                      (record { own = v.own; recorded = u; received = v.received }),
                )
              ]
            ]

    prepare_decide-IsValid :
        (lt : LeaderTracker) (w : World x)
        → IsValid lt.ri.deps
        → WorldIsValid w
        → Ensures WorldIsValid (prepare_decide restart lt w)
    unfolding prepare_decide
    prepare_decide-IsValid lt w u v = ground (
      arith,
      propose_noop-IsValid lt w u v,
      accept_again-IsValid lt w u v,
      try_value-IsValid lt w u v,
      keeps (restart_from (record lt { recovery_status = State.none }) lt.ri.command w)
          (record { own = v.own; recorded = u; received = v.received }),
    )

    pub prepare_reply-IsValid :
        (w : World x) → WorldIsValid w → Ensures WorldIsValid (prepare_reply restart w)
    unfolding prepare_reply do_commit
    prepare_reply-IsValid w v = elim (Option-cases w.i.lt) [
      | inl e ↦ ground arith
      | inr (lt, e) ↦ ground (
        arith,
        note_accepted-IsValid w.m (counted lt) v.received,
        note_pre_accepted-IsValid w.i w.m (note_accepted w.m (counted lt)) v.received,
        prepare_decide-IsValid (noted w (counted lt)) (set_tracker (noted w (counted lt)) w),
      )
    ]

    give_up-IsValid :
        (nq : ℕ) (w : World x) → WorldIsValid w → Ensures WorldIsValid (give_up restart nq w)
    unfolding give_up
    give_up-IsValid nq w v = elim (Option-cases w.i.lt) [
      | inl e ↦ ground arith
      | inr (lt, e) ↦
          ground (arith, keeps (set_tracker (record lt { recovery_status = State.none }) w))
    ]

    deferred_choice-IsValid :
        (nq : ℕ) (ri : RecoveryInstance) (w : World x)
        → WorldIsValid w
        → Ensures WorldIsValid (deferred_choice restart nq ri w)
    unfolding deferred_choice
    deferred_choice-IsValid nq ri w v = elim (Option-cases w.i.lt) [
      | inl e ↦ ground arith
      | inr (lt, e) ↦ elim (Outcome-cases (is_deferred w lt)) [
        | inr (f, d) ↦ ground arith
        | inl (b, d) ↦
            ground (
              arith,
              keeps (restart_from (record lt { recovery_status = State.none }) ri.command w),
            )
      ]
    ]

    try_refused-IsValid :
        (lt : LeaderTracker) (w : World x)
        → IsValid lt.ri.deps
        → WorldIsValid w
        → Ensures WorldIsValid (try_refused restart lt w)
    unfolding try_refused
    try_refused-IsValid lt w u v =
        Ensures-bind WorldIsValid WorldIsValid _ _
          (λ w1 v1.
            Ensures-bind WorldIsValid WorldIsValid _ _ (λ w2 v2. defer-IsValid w2 v2)
              (deferred_choice-IsValid _ lt.ri w1 v1))
          (give_up-IsValid _ (set_tracker lt w)
            (record { own = v.own; recorded = u; received = v.received }))

    pub try_pre_accept_reply-IsValid :
        (w : World x) → WorldIsValid w → Ensures WorldIsValid (try_pre_accept_reply restart w)
    unfolding try_pre_accept_reply
    try_pre_accept_reply-IsValid w v = elim (Option-cases w.i.lt) [
      | inl e ↦ ground arith
      | inr (lt, e) ↦ ground (
        arith,
        try_ok-IsValid lt w,
        try_refused_here-IsValid (refused_by lt) w,
        try_refused-IsValid (refused_by lt) w,
      )
    ]
