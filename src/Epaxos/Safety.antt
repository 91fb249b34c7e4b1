-- ===== src/Epaxos/Safety.antt =====
-- What the handlers never do to an instance that is settled, and how they answer stale messages.
pub mod Ballots
pub mod Commits
pub mod Answers
use epx_c.Base.{
  ℕ, ◌≡◌, refl, ◌<◌, ◌⊎◌, inl, inr, ltb, if◌then◌else◌, Bool-cases, ◌||◌, not, Option, some,
  Outcome, ok, Ensures, Ensures-ok, Option-cases, ◌≢◌, none, arith,
}
use epx_c.Command.{Command}
use epx_c.Message.{State, bits, MessageType, Message}
use epx_c.Instance.{Instance, is_state}
use epx_c.Extern.{Externals}
use epx_c.Replica.{store, find_conflict}
use epx_c.Epaxos.{World, send, either}
use epx_c.Epaxos.Leader.{pre_accept_ok, pre_accept_reply, accept_reply}
use epx_c.Epaxos.Acceptor.{
  pre_accept, accept, prepare, try_pre_accept, try_pre_accept_value, pre_accept_nack, accept_nack,
  refuse_try, try_nack,
}
use epx_c.Epaxos.Progress.{dispatch, progress_at, progress}

abbrev pub IsSettled : Instance → Type 0
IsSettled i = (i.status ≡ State.committed) ⊎ (i.status ≡ State.executed)

-- What is chosen for an instance.
abbrev pub SameValue : Instance → Instance → Type 0
SameValue i j =
    (i.status ≡ j.status) × (i.command ≡ j.command) × (i.seq ≡ j.seq) × (i.deps ≡ j.deps)

-- the messages that do not recover, restart or commit an instance
abbrev pub IsOrdinary : MessageType → Type 0
IsOrdinary MessageType.pre_accept = Unit
IsOrdinary MessageType.pre_accept_ok = Unit
IsOrdinary MessageType.pre_accept_reply = Unit
IsOrdinary MessageType.accept = Unit
IsOrdinary MessageType.accept_reply = Unit
IsOrdinary MessageType.prepare = Unit
IsOrdinary MessageType.try_pre_accept = Unit
IsOrdinary MessageType.execute = Unit
IsOrdinary _ = ⊥

abbrev pub IsRequest : MessageType → Type 0
IsRequest t =
    (t ≡ MessageType.pre_accept)
    ⊎ (t ≡ MessageType.accept)
    ⊎ (t ≡ MessageType.prepare)
    ⊎ (t ≡ MessageType.try_pre_accept)

module _ {x : Externals} where
  abbrev Unchanged : World x → World x → Type 0
  Unchanged w w' = SameValue w'.i w.i

  pre_accept_settled : (w : World x) → IsSettled w.i → pre_accept w ≡ ok w
  unfolding pre_accept
  pre_accept_settled w s = ground arith

  accept_settled : (w : World x) → IsSettled w.i → accept w ≡ ok w
  unfolding accept
  accept_settled w s = ground arith

  pre_accept_ok_settled : (w : World x) → IsSettled w.i → pre_accept_ok w ≡ ok w
  unfolding pre_accept_ok
  pre_accept_ok_settled w s = ground arith

  pre_accept_reply_settled : (w : World x) → IsSettled w.i → pre_accept_reply w ≡ ok w
  unfolding pre_accept_reply
  pre_accept_reply_settled w s = ground arith

  accept_reply_settled : (w : World x) → IsSettled w.i → accept_reply w ≡ ok w
  unfolding accept_reply
  accept_reply_settled w s = ground arith

  SameValue-prepare : (w : World x) → SameValue (prepare w).i w.i
  unfolding prepare
  SameValue-prepare w = ground arith

  -- an instance that has a command conflicts with itself
  find_conflict_settled :
      (w : World x) {c : Command}
      → IsSettled w.i
      → w.i.command ≡ some c
      → find_conflict (store w.r w.i) w.i w.m.command w.m.seq w.m.deps ≡ ok (some w.i, w.m.command)
  unfolding find_conflict
  find_conflict_settled w s e = ground arith

  try_pre_accept_refused :
      (w : World x) {c : Command}
      → IsSettled w.i
      → w.i.command ≡ some c
      → (w' : World x) × (try_pre_accept w ≡ ok w') × SameValue w'.i w.i
  unfolding try_pre_accept try_pre_accept_value
  try_pre_accept_refused w s e = (
    if ltb w.m.ballot w.i.ballot then try_nack w else refuse_try w.i w,
    ground (arith, find_conflict_settled w s e),
    ground arith,
  )

  dispatch_settled :
      (again : World x → Outcome (World x)) (w : World x) (c : Command) (t : MessageType)
      → w.m.type ≡ t
      → IsSettled w.i
      → w.i.command ≡ some c
      → IsOrdinary t
      → (w' : World x) × (dispatch again w ≡ ok w') × SameValue w'.i w.i
  unfolding dispatch
  dispatch_settled again w c MessageType.pre_accept h s e t =
      (w, ground (arith, pre_accept_settled w s), ground arith)
  dispatch_settled again w c MessageType.pre_accept_ok h s e t =
      (w, ground (arith, pre_accept_ok_settled w s), ground arith)
  dispatch_settled again w c MessageType.pre_accept_reply h s e t =
      (w, ground (arith, pre_accept_reply_settled w s), ground arith)
  dispatch_settled again w c MessageType.accept h s e t =
      (w, ground (arith, accept_settled w s), ground arith)
  dispatch_settled again w c MessageType.accept_reply h s e t =
      (w, ground (arith, accept_reply_settled w s), ground arith)
  dispatch_settled again w c MessageType.prepare h s e t =
      (prepare w, ground arith, SameValue-prepare w)
  dispatch_settled again w c MessageType.try_pre_accept h s e t =
      let (w', p, q) = try_pre_accept_refused w s e in (w', ground (arith, p), q)
  dispatch_settled again w c MessageType.execute h s e t = (w, ground arith, ground arith)
  dispatch_settled again w c _ h s e t = absurd t

  -- A committed or executed instance that has a command keeps its status, command, sequence number
  -- and dependencies under every message but `PHASE1`, `COMMIT` and the replies to `PREPARE` and
  -- `TRY_PRE_ACCEPT`; and `progress` returns.
  pub progress_settled :
      (w : World x) (c : Command)
      → IsSettled w.i
      → w.i.command ≡ some c
      → IsOrdinary w.m.type
      → (w' : World x) × (progress w ≡ ok w') × SameValue w'.i w.i
  unfolding progress progress_at
  progress_settled w c s e t = dispatch_settled _ w c w.m.type refl s e t

  -- A `PRE_ACCEPT`, `ACCEPT`, `PREPARE` or `TRY_PRE_ACCEPT` with a smaller ballot than the instance's
  -- is not looked at, or is answered by one message with `nack` set; the instance, the indexes and
  -- the hash table stay as they are.
  pub progress_stale :
      (w : World x)
      → IsRequest w.m.type
      → w.m.ballot < w.i.ballot
      → (progress w ≡ ok w)
        ⊎ ((m : Message) × (progress w ≡ ok (send (record w { m = m })))
            × (m.nack ≡ 1)
            × (m.id ≡ w.m.id))
  unfolding progress progress_at dispatch pre_accept accept prepare try_pre_accept
  progress_stale w (inl t) h =
      elim (Bool-cases (
        is_state (bits w.i.status) (either State.committed State.accepted)
        || not (is_state (bits w.i.status) (either State.pre_accepted State.none)))) [
          | inl ignored ↦ inl (ground arith)
          | inr heeded ↦ inr ((pre_accept_nack w).m, ground arith, ground arith, ground arith)
        ]
  progress_stale w (inr (inl t)) h =
      elim (Bool-cases (is_state (bits w.i.status) (either State.committed State.executed))) [
        | inl ignored ↦ inl (ground arith)
        | inr heeded ↦ inr ((accept_nack w).m, ground arith, ground arith, ground arith)
      ]
  progress_stale w (inr (inr (inl t))) h = inr (
    record (w.m) { nack = 1; type = MessageType.prepare_reply },
    ground arith,
    ground arith,
    ground arith,
  )
  progress_stale w (inr (inr (inr t))) h =
      inr ((try_nack w).m, ground arith, ground arith, ground arith)
