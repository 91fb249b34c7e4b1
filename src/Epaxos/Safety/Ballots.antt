-- ===== src/Epaxos/Safety/Ballots.antt =====
-- An instance's ballot does not fall, until the rounds run out.
use epx_c.Base.{
  ℕ, ◌≡◌, ◌≤◌, ◌<◌, ◌/◌, Outcome, ok, Ensures, Ensures-ok, Ensures-then, Outcome-cases,
  Option-cases, inl, inr, Option, arith,
}
use epx_c.Instance.{LeaderTracker, SeqDepsProbe, new_tracker}
use epx_c.Instance.Ballot.Laws.{larger_ballot-lt}
use epx_c.Command.{Command}
use epx_c.Extern.{Externals}
use epx_c.Replica.{alloc, store, find_conflict}
use epx_c.Epaxos.{World, do_commit, recover_with, recover}
use epx_c.Epaxos.Leader.{pre_accept_ok, nacked, nack_reply, pre_accept_reply, accept_reply}
use epx_c.Epaxos.Acceptor.{
  clear_if_null, pre_accepted_by, accepted_by, pre_accept_found, pre_accept_value, pre_accept,
  accept_value, accept, prepare, try_pre_accept_value, try_pre_accept,
}
use epx_c.Epaxos.Recovery.{set_tracker}
use epx_c.Epaxos.Progress.{dispatch, progress_at, progress}
use epx_c.Epaxos.Safety.{IsOrdinary}

module _ {x : Externals} where
  abbrev AtLeast : ℕ → World x → Type 0
  AtLeast b w = b ≤ w.i.ballot

  prepare_ballot : (w : World x) → AtLeast w.i.ballot (prepare w)
  unfolding prepare
  prepare_ballot w = ground arith

  accept_value_ballot :
      (w : World x) → w.i.ballot ≤ w.m.ballot → Ensures (AtLeast w.i.ballot) (accept_value w)
  unfolding accept_value
  accept_value_ballot w h = elim (Outcome-cases (clear_if_null w.m.command w.r (accepted_by w))) [
    | inl (r, e) ↦ ground arith
    | inr (f, e) ↦ ground arith
  ]

  accept_ballot : (w : World x) → Ensures (AtLeast w.i.ballot) (accept w)
  unfolding accept
  accept_ballot w = ground (arith, accept_value_ballot w)

  pre_accept_found_ballot :
      (w : World x) (found : ℕ × Option Command × SeqDepsProbe)
      → w.i.ballot ≤ w.m.ballot
      → Ensures (AtLeast w.i.ballot) (pre_accept_found w found)
  unfolding pre_accept_found
  pre_accept_found_ballot w found h =
      elim (Outcome-cases (clear_if_null found.1 w.r (pre_accepted_by w found))) [
        | inl (r, e) ↦ ground arith
        | inr (f, e) ↦ ground arith
      ]

  pre_accept_value_ballot :
      (w : World x) → w.i.ballot ≤ w.m.ballot → Ensures (AtLeast w.i.ballot) (pre_accept_value w)
  unfolding pre_accept_value
  pre_accept_value_ballot w h =
      Ensures-then (AtLeast w.i.ballot) _ (pre_accept_found w)
        (λ found. pre_accept_found_ballot w found h)

  pre_accept_ballot : (w : World x) → Ensures (AtLeast w.i.ballot) (pre_accept w)
  unfolding pre_accept
  pre_accept_ballot w = ground (arith, pre_accept_value_ballot w)

  try_pre_accept_ballot : (w : World x) → Ensures (AtLeast w.i.ballot) (try_pre_accept w)
  unfolding try_pre_accept try_pre_accept_value
  try_pre_accept_ballot w =
      elim (Outcome-cases (find_conflict (store w.r w.i) w.i w.m.command w.m.seq w.m.deps)) [
        | inr (f, e) ↦ ground arith
        | inl ((conflict, command), e) ↦ elim (Option-cases conflict) [
          | inl n ↦ ground arith
          | inr (t, n) ↦ ground arith
        ]
      ]

  recover_ballot :
      (w : World x) → w.r.id < 16 → w.i.ballot / 16 < 15 → AtLeast w.i.ballot (recover w)
  unfolding recover recover_with
  recover_ballot w h k = elim (Option-cases w.i.lt) [
    | inr (lt, e) ↦ ground (arith, larger_ballot-lt w.i.ballot w.r.id h k)
    | inl e ↦ elim (Option-cases (new_tracker (alloc w.r).0)) [
      | inr (lt, f) ↦ ground (arith, larger_ballot-lt w.i.ballot w.r.id h k)
      | inl f ↦ ground arith
    ]
  ]

  nack_reply_ballot :
      (lt : LeaderTracker) (w : World x)
      → w.r.id < 16
      → w.i.ballot / 16 < 15
      → Ensures (AtLeast w.i.ballot) (nack_reply lt w)
  unfolding nack_reply
  nack_reply_ballot lt w h k = ground (arith, recover_ballot (set_tracker (nacked lt w) w) h k)

  pre_accept_ok_ballot : (w : World x) → Ensures (AtLeast w.i.ballot) (pre_accept_ok w)
  unfolding pre_accept_ok do_commit
  pre_accept_ok_ballot w = elim (Option-cases w.i.lt) [
    | inl e ↦ ground arith
    | inr (lt, e) ↦ ground arith
  ]

  module _ (w : World x) (h : w.r.id < 16) (k : w.i.ballot / 16 < 15) where
    pre_accept_reply_ballot : Ensures (AtLeast w.i.ballot) (pre_accept_reply w)
    unfolding pre_accept_reply do_commit
    pre_accept_reply_ballot = elim (Option-cases w.i.lt) [
      | inl e ↦ ground arith
      | inr (lt, e) ↦ ground (arith, nack_reply_ballot lt w h k)
    ]

    accept_reply_ballot : Ensures (AtLeast w.i.ballot) (accept_reply w)
    unfolding accept_reply do_commit
    accept_reply_ballot = elim (Option-cases w.i.lt) [
      | inl e ↦ ground arith
      | inr (lt, e) ↦ ground (arith, nack_reply_ballot lt w h k)
    ]

    dispatch_ballot :
        (again : World x → Outcome (World x))
        → IsOrdinary w.m.type
        → Ensures (AtLeast w.i.ballot) (dispatch again w)
    unfolding dispatch
    dispatch_ballot again t = ground (
      arith,
      pre_accept_ballot w,
      pre_accept_ok_ballot w,
      pre_accept_reply_ballot,
      accept_ballot w,
      accept_reply_ballot,
      prepare_ballot w,
      try_pre_accept_ballot w,
    )

-- For a replica below 16 and an instance whose ballot is below round 15, the ballot of the instance
-- does not fall under any message but `PHASE1`, `COMMIT` and the replies to `PREPARE` and
-- `TRY_PRE_ACCEPT`.
pub progress_ballot :
    (x : Externals) (w w' : World x)
    → w.r.id < 16
    → w.i.ballot / 16 < 15
    → IsOrdinary w.m.type
    → progress w ≡ ok w'
    → w.i.ballot ≤ w'.i.ballot
unfolding progress progress_at
progress_ballot x w w' h k t e =
    Ensures-ok (λ (u : World x). w.i.ballot ≤ u.i.ballot) (dispatch (progress_at 1) w) e
      (dispatch_ballot w h k (progress_at 1) t)
