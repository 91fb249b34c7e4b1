-- ===== src/Epaxos/Fits/Recovery.antt =====
-- The handlers of src/epaxos.c for recovery, for the indexes.
use epx_c.Base.{
  ℕ, some, Outcome, Ensures, Ensures-bind, Outcome-cases, Option-cases, inl, inr, arith,
}
use epx_c.Instance.{LeaderTracker, RecoveryInstance}
use epx_c.Message.{State}
use epx_c.Instance.Deps.Sorted.{IsValid}
use epx_c.Extern.{Externals}
use epx_c.Replica.Valid.{noop-IsValid}
use epx_c.Replica.{store, pac_conflict}
use epx_c.Epaxos.{World, do_commit}
use epx_c.Epaxos.Recovery.{
  note_accepted, propose_noop, accept_again, try_value, prepare_decide, prepare_reply, set_tracker,
  restart_from, trying, counted, noted, clear_quorum,
}
use epx_c.Epaxos.TryReply.{
  give_up, is_deferred, refused_by, deferred_choice, defer, try_ok, try_refused, try_refused_here,
  try_pre_accept_reply,
}
use epx_c.InstanceId.{InstanceId}
use epx_c.Extern.Laws.{LlrbLaws}
use epx_c.Epaxos.Fits.{IsSound}
use epx_c.Epaxos.Valid.Recovery.{note_accepted-IsValid, note_pre_accepted-IsValid}

-- a handler, and a call of a handler within another
abbrev pub KeepsSound :
    (x : Externals) → LlrbLaws x.llrb → InstanceId → (World x → Outcome (World x)) → Type 0
KeepsSound x l k restart = (w : World x) → IsSound x l k w → Ensures (IsSound x l k) (restart w)

module _ (x : Externals) (l : LlrbLaws x.llrb) (k : InstanceId) where
  propose_noop-IsSound :
      (lt : LeaderTracker) (w : World x)
      → IsValid lt.ri.deps
      → (IsSound x l k) w
      → Ensures (IsSound x l k) (propose_noop lt w)
  unfolding propose_noop
  propose_noop-IsSound lt w u v =
      Ensures-bind IsValid (IsSound x l k) _ _ (λ deps d. ground arith) (noop-IsValid _ _)

  accept_again-IsSound :
      (lt : LeaderTracker) (w : World x)
      → IsValid lt.ri.deps
      → (IsSound x l k) w
      → (IsSound x l k) (accept_again lt w)
  unfolding accept_again
  accept_again-IsSound lt w u v = ground arith

  try_ok-IsSound :
      (lt : LeaderTracker) (w : World x)
      → IsValid lt.ri.deps
      → (IsSound x l k) w
      → (IsSound x l k) (try_ok lt w)
  unfolding try_ok
  try_ok-IsSound lt w u v = ground arith

  try_refused_here-IsSound :
      (lt : LeaderTracker) (w : World x)
      → IsValid lt.ri.deps
      → (IsSound x l k) w
      → Ensures (IsSound x l k) (try_refused_here lt w)
  unfolding try_refused_here
  try_refused_here-IsSound lt w u v = elim (Outcome-cases (clear_quorum w.m.from lt.quorum)) [
    | inr (f, e) ↦ ground arith
    | inl (q, e) ↦ elim (Outcome-cases (clear_quorum w.m.conflict.id.replica_id q)) [
      | inr (f, d) ↦ ground arith
      | inl (q', d) ↦ ground arith
    ]
  ]

  defer-IsSound : (w : World x) → (IsSound x l k) w → Ensures (IsSound x l k) (defer w)
  unfolding defer
  defer-IsSound w v = elim (Option-cases w.i.lt) [
    | inl e ↦ ground arith
    | inr (lt, e) ↦ ground arith
  ]

  module _ (restart : World x → Outcome (World x)) (keeps : KeepsSound x l k restart) where
    try_value-IsSound :
        (lt : LeaderTracker) (w : World x)
        → IsValid lt.ri.deps
        → (IsSound x l k) w
        → Ensures (IsSound x l k) (try_value restart lt w)
    unfolding try_value
    try_value-IsSound lt w u v =
        elim (Outcome-cases (
          pac_conflict (store w.r (record (w.i) { lt = some (trying lt) }))
            (record (w.i) { lt = some (trying lt) }) lt.ri.command lt.ri.seq lt.ri.deps)) [
              | inr (f, e) ↦ ground arith
              | inl ((conflict, command), e) ↦ elim (Option-cases conflict) [
                | inl n ↦ ground arith
                | inr (t, n) ↦ ground (
                  arith,
                  keeps (restart_from (trying lt) command w) (record {
                    own = v.own;
                    recorded = u;
                    received = v.received;
                    indexes = v.indexes;
                    key = v.key;
                  }),
                )
              ]
            ]

    prepare_decide-IsSound :
        (lt : LeaderTracker) (w : World x)
        → IsValid lt.ri.deps
        → (IsSound x l k) w
        → Ensures (IsSound x l k) (prepare_decide restart lt w)
    unfolding prepare_decide
    prepare_decide-IsSound lt w u v = ground (
      arith,
      propose_noop-IsSound lt w u v,
      accept_again-IsSound lt w u v,
      try_value-IsSound lt w u v,
      keeps (restart_from (record lt { recovery_status = State.none }) lt.ri.command w) (record {
        own = v.own;
        recorded = u;
        received = v.received;
        indexes = v.indexes;
        key = v.key;
      }),
    )

    pub prepare_reply-IsSound :
        (w : World x) → (IsSound x l k) w → Ensures (IsSound x l k) (prepare_reply restart w)
    unfolding prepare_reply do_commit
    prepare_reply-IsSound w v = elim (Option-cases w.i.lt) [
      | inl e ↦ ground arith
      | inr (lt, e) ↦ ground (
        arith,
        note_accepted-IsValid w.m (counted lt) v.received,
        note_pre_accepted-IsValid w.i w.m (note_accepted w.m (counted lt)) v.received,
        prepare_decide-IsSound (noted w (counted lt)) (set_tracker (noted w (counted lt)) w),
      )
    ]

    give_up-IsSound :
        (nq : ℕ) (w : World x) → (IsSound x l k) w → Ensures (IsSound x l k) (give_up restart nq w)
    unfolding give_up
    give_up-IsSound nq w v = elim (Option-cases w.i.lt) [
      | inl e ↦ ground arith
      | inr (lt, e) ↦
          ground (arith, keeps (set_tracker (record lt { recovery_status = State.none }) w))
    ]

    deferred_choice-IsSound :
        (nq : ℕ) (ri : RecoveryInstance) (w : World x)
        → (IsSound x l k) w
        → Ensures (IsSound x l k) (deferred_choice restart nq ri w)
    unfolding deferred_choice
    deferred_choice-IsSound nq ri w v = elim (Option-cases w.i.lt) [
      | inl e ↦ ground arith
      | inr (lt, e) ↦ elim (Outcome-cases (is_deferred w lt)) [
        | inr (f, d) ↦ ground arith
        | inl (b, d) ↦
            ground (
              arith,
              keeps (restart_from (record lt { recovery_status = State.none }) ri.command w),
            )
      ]
    ]

    try_refused-IsSound :
        (lt : LeaderTracker) (w : World x)
        → IsValid lt.ri.deps
        → (IsSound x l k) w
        → Ensures (IsSound x l k) (try_refused restart lt w)
    unfolding try_refused
    try_refused-IsSound lt w u v =
        Ensures-bind (IsSound x l k) (IsSound x l k) _ _
          (λ w1 v1.
            Ensures-bind (IsSound x l k) (IsSound x l k) _ _ (λ w2 v2. defer-IsSound w2 v2)
              (deferred_choice-IsSound _ lt.ri w1 v1))
          (give_up-IsSound _ (set_tracker lt w) (record {
            own = v.own;
            recorded = u;
            received = v.received;
            indexes = v.indexes;
            key = v.key;
          }))

    pub try_pre_accept_reply-IsSound :
        (w : World x) → (IsSound x l k) w → Ensures (IsSound x l k) (try_pre_accept_reply restart w)
    unfolding try_pre_accept_reply
    try_pre_accept_reply-IsSound w v = elim (Option-cases w.i.lt) [
      | inl e ↦ ground arith
      | inr (lt, e) ↦ ground (
        arith,
        try_ok-IsSound lt w,
        try_refused_here-IsSound (refused_by lt) w,
        try_refused-IsSound (refused_by lt) w,
      )
    ]
