-- ===== src/Epaxos/Acceptor.antt =====
-- The handlers of src/epaxos.c that answer a leader: `pre_accept`, `accept`, `prepare`,
-- `try_pre_accept` and `commit`.
use epx_c.Base.{
  ℕ, ◌+◌, Bool, true, false, not, ◌||◌, Option, none, some, ltb, ◌==◌, if◌then◌else◌, Outcome, ok,
  ◌>>=◌,
}
use epx_c.InstanceId.{max_seq, u64}
use epx_c.Command.{Command}
use epx_c.Message.{State, bits, MessageType}
use epx_c.Instance.{Instance, SeqDepsProbe, is_state}
use epx_c.Instance.Ballot.{is_initial_ballot}
use epx_c.Instance.Deps.{has_uncommitted_deps}
use epx_c.Extern.{Externals}
use epx_c.Replica.{Replica, cancel_timeout, send_exec, store, sd_for_command, clear, find_conflict}
use epx_c.Epaxos.{World, either, send}

abbrev pub is_null : Option Command → Bool
is_null none = true
is_null (some c) = false

module _ {x : Externals} where
  -- `if(command == 0) clear(r)`
  abbrev pub clear_if_null : Option Command → Replica x → Instance → Outcome (Replica x)
  clear_if_null c r i = if is_null c then clear (store r i) else ok r

  -- the answer to a stale `PRE_ACCEPT`
  abbrev pub pre_accept_nack : World x → World x
  pre_accept_nack w = send (record w {
    m = record (w.m) {
      ballot = w.i.ballot;
      command = w.i.command;
      seq = w.i.seq;
      nack = 1;
      deps = w.i.deps;
      type = MessageType.pre_accept_reply;
    };
  })

  -- the end of `pre_accept`, once the instance is updated
  abbrev pre_accept_answer : ℕ → ℕ → World x → World x
  pre_accept_answer nseq updated w =
      if not (w.i.seq == w.m.seq)
        || ltb 0 updated
        || has_uncommitted_deps w.i.deps
        || not (is_initial_ballot w.m.ballot)
      then send (record w {
        m = record (w.m) { seq = nseq; deps = w.i.deps; type = MessageType.pre_accept_reply };
      })
      else send (record w { m = record (w.m) { type = MessageType.pre_accept_ok } })

  -- the instance that `pre_accept` leaves, by what `sd_for_command` found
  abbrev pub pre_accepted_by : World x → ℕ × Option Command × SeqDepsProbe → Instance
  pre_accepted_by w (mseq, command, p) = record (w.i) {
    status = if p.updated == 0 then State.pre_accepted_eq else State.pre_accepted;
    command = command;
    ballot = w.m.ballot;
    deps = p.deps;
    seq = max_seq w.m.seq (u64 (mseq + 1));
  }

  -- `pre_accept` of a message that is not stale, once `sd_for_command` is done
  unfoldable pub pre_accept_found : World x → ℕ × Option Command × SeqDepsProbe → Outcome (World x)
  pre_accept_found w found =
      let i = pre_accepted_by w found in
      clear_if_null i.command w.r i >>= λ r. ok (
        pre_accept_answer i.seq (found.2).updated
          (record { r = r; i = i; m = record (w.m) { command = i.command } }))

  unfoldable pub pre_accept_value : World x → Outcome (World x)
  pre_accept_value w =
      sd_for_command (store w.r w.i) w.m.command (some w.i.key)
        (record { updated = 0; deps = w.i.deps })
      >>= λ found. pre_accept_found w found

  unfoldable pub pre_accept : World x → Outcome (World x)
  pre_accept w =
      if is_state (bits w.i.status) (either State.committed State.accepted)
        || not (is_state (bits w.i.status) (either State.pre_accepted State.none))
      then ok w
      else if ltb w.m.ballot w.i.ballot
      then ok (pre_accept_nack w)
      else pre_accept_value w

  -- the answer to a stale `ACCEPT`
  abbrev pub accept_nack : World x → World x
  accept_nack w = send (record w {
    m = record (w.m) { nack = 1; ballot = w.i.ballot; type = MessageType.accept_reply };
  })

  -- the instance that `accept` leaves
  abbrev pub accepted_by : World x → Instance
  accepted_by w = record (w.i) {
    status = State.accepted;
    ballot = w.m.ballot;
    seq = w.m.seq;
    deps = w.m.deps;
  }

  -- `accept` of a message that is not stale
  unfoldable pub accept_value : World x → Outcome (World x)
  accept_value w =
      let i = accepted_by w in
      clear_if_null w.m.command w.r i >>= λ r.
      ok (send (record { r = r; i = i; m = record (w.m) { type = MessageType.accept_reply } }))

  unfoldable pub accept : World x → Outcome (World x)
  accept w =
      if is_state (bits w.i.status) (either State.committed State.executed)
      then ok w
      else if ltb w.m.ballot w.i.ballot
      then ok (accept_nack w)
      else accept_value w

  unfoldable pub prepare : World x → World x
  prepare w =
      if ltb w.m.ballot w.i.ballot
      then send (record w { m = record (w.m) { nack = 1; type = MessageType.prepare_reply } })
      else send (record w {
        i = record (w.i) { ballot = w.m.ballot };
        m = record (w.m) {
          command = w.i.command;
          deps = w.i.deps;
          seq = w.i.seq;
          ballot = w.m.ballot;
          instance_status = w.i.status;
          type = MessageType.prepare_reply;
        };
      })

  -- the refusal of `try_pre_accept`, which names an instance
  abbrev pub refuse_try : Instance → World x → World x
  refuse_try conflict w = send (record w {
    m = record (w.m) {
      conflict = record { id = conflict.key; status = conflict.status };
      ballot = w.i.ballot;
      nack = 1;
      type = MessageType.try_pre_accept_reply;
    };
  })

  -- the answer to a stale `TRY_PRE_ACCEPT`
  abbrev pub try_nack : World x → World x
  try_nack w = send (record w {
    m = record (w.m) {
      conflict = record { id = w.m.id; status = w.i.status };
      ballot = w.i.ballot;
      nack = 1;
      type = MessageType.try_pre_accept_reply;
    };
  })

  -- `try_pre_accept` where no instance conflicts
  abbrev take_try : World x → World x
  take_try w = send (record w {
    i = record (w.i) {
      command = w.m.command;
      deps = w.m.deps;
      ballot = w.m.ballot;
      seq = w.m.seq;
      status = State.pre_accepted;
    };
    m = record (w.m) { type = MessageType.try_pre_accept_reply };
  })

  -- `try_pre_accept` of a message that is not stale
  unfoldable pub try_pre_accept_value : World x → Outcome (World x)
  try_pre_accept_value w =
      find_conflict (store w.r w.i) w.i w.m.command w.m.seq w.m.deps >>= λ (conflict, command).
      let w1 = record w { m = record (w.m) { command = command } } in
      elim conflict [ some t ↦ ok (refuse_try t w1) | none ↦ ok (take_try w1) ]

  unfoldable pub try_pre_accept : World x → Outcome (World x)
  try_pre_accept w = if ltb w.m.ballot w.i.ballot then ok (try_nack w) else try_pre_accept_value w

  unfoldable pub commit : World x → World x
  commit w =
      let i = record (w.i) { status = State.committed } in
      record w {
        r = send_exec (cancel_timeout w.r w.i) i;
        i = record i { seq = w.m.seq; deps = w.m.deps };
      }
