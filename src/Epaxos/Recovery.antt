-- ===== src/Epaxos/Recovery.antt =====
-- The handlers of src/epaxos.c that a recovering replica runs: `prepare_reply`, and
-- `try_pre_accept_reply` in `TryReply`. The argument `restart` sets the type of the message to
-- `PHASE1` and calls `progress` again.
use epx_c.Base.{
  ℕ, ◌+◌, ◌/◌, ◌&&◌, not, ◌||◌, none, Option, some, List, leb, ltb, ◌==◌, replicate, set,
  if◌then◌else◌, Outcome, ok, fault, out_of_bounds, ◌>>=◌,
}
use epx_c.Epx.{n_replicas}
use epx_c.Command.{Command}
use epx_c.Message.{State, bits, MessageType, Message}
use epx_c.Instance.{Instance, RecoveryInstance, LeaderTracker, is_state, update_recovery_instance}
use epx_c.Instance.Ballot.{u8}
use epx_c.Instance.Deps.{equal_deps}
use epx_c.Extern.{Externals}
use epx_c.Replica.{store, noop, pac_conflict}
use epx_c.Epaxos.{World, half, either, send, do_commit}

-- how a reply to `PREPARE` is counted in: first for an accepted instance, then for a pre-accepted
-- one
unfoldable pub note_accepted : Message → LeaderTracker → LeaderTracker
note_accepted m lt =
    let ri = update_recovery_instance lt.ri m in
    if is_state (bits m.instance_status) (bits State.accepted)
      && (ltb lt.max_ballot m.ballot || is_state (bits lt.ri.status) (bits State.none))
    then record lt {
      max_ballot = m.ballot;
      ri = record ri { pre_accept_count = u8 (ri.pre_accept_count + 1) };
    }
    else lt

abbrev count_pre_accept : RecoveryInstance → RecoveryInstance
count_pre_accept ri = record ri { pre_accept_count = u8 (ri.pre_accept_count + 1) }

abbrev note_leader : Message → RecoveryInstance → RecoveryInstance
note_leader m ri = if m.from == m.id.replica_id then record ri { leader_replied = 1 } else ri

unfoldable pub note_pre_accepted : Instance → Message → LeaderTracker → LeaderTracker
note_pre_accepted i m lt =
    let ri =
      (if is_state (bits lt.ri.status) (bits State.none)
          || is_state (bits m.instance_status) (bits State.pre_accepted_eq)
        then count_pre_accept (update_recovery_instance lt.ri m)
        else if m.seq == i.seq && equal_deps m.deps i.deps
        then count_pre_accept lt.ri
        else lt.ri) in
    if is_state (bits m.instance_status) (either State.pre_accepted State.pre_accepted_eq)
      && ltb (bits lt.ri.status) (bits State.accepted)
    then record lt { ri = note_leader m ri }
    else lt

-- `quorum[rc] = 0`
abbrev pub clear_quorum : ℕ → List ℕ → Outcome (List ℕ)
clear_quorum rc quorum = if ltb rc n_replicas then ok (set quorum rc 0) else fault out_of_bounds

-- the tracker that `prepare_reply` tries a value with
abbrev pub trying : LeaderTracker → LeaderTracker
trying lt = record lt { pre_accept_oks = 0; nacks = 0; quorum = replicate n_replicas 1 }

-- `++i->lt->prepare_oks`, and what a reply that is not a commit adds
abbrev pub counted : LeaderTracker → LeaderTracker
counted lt = record lt { prepare_oks = u8 (lt.prepare_oks + 1) }

module _ {x : Externals} where
  abbrev pub set_tracker : LeaderTracker → World x → World x
  set_tracker lt w = record w { i = record (w.i) { lt = some lt } }

  abbrev pub noted : World x → LeaderTracker → LeaderTracker
  noted w lt = note_pre_accepted w.i w.m (note_accepted w.m lt)

  -- the reply says that the instance is committed
  abbrev take_commit : World x → Outcome (World x)
  take_commit w = do_commit (record w {
    i = record (w.i) { seq = w.m.seq; command = w.m.command; deps = w.m.deps };
    m = record (w.m) { ballot = w.i.ballot };
  })

  -- no reply knows the instance: propose that nothing stands there
  unfoldable pub propose_noop : LeaderTracker → World x → Outcome (World x)
  propose_noop lt w = noop (store w.r w.i) w.m.id >>= λ deps. ok (
      send (record w {
        i = record (w.i) {
          lt = some (record lt { recovery_status = State.none });
          status = State.accepted;
          deps = deps;
        };
        m = record (w.m) {
          deps = deps;
          command = none;
          ballot = w.i.ballot;
          type = MessageType.accept;
        };
      }))

  -- a value that may have been chosen: propose it again
  unfoldable pub accept_again : LeaderTracker → World x → World x
  accept_again lt w = send (record w {
    i = record (w.i) {
      command = lt.ri.command;
      seq = lt.ri.seq;
      deps = lt.ri.deps;
      status = State.accepted;
      lt = some (record lt { recovery_status = State.none });
    };
    m = record (w.m) {
      ballot = w.i.ballot;
      deps = lt.ri.deps;
      seq = lt.ri.seq;
      type = MessageType.accept;
    };
  })

  -- the end of the third case of `prepare_reply`
  abbrev send_try : LeaderTracker → World x → World x
  send_try lt w = send (record w {
    i = record (w.i) { lt = some (record lt { recovery_status = State.try_pre_accepting }) };
    m = record (w.m) {
      command = w.i.command;
      deps = w.i.deps;
      seq = w.i.seq;
      ballot = w.i.ballot;
      type = MessageType.try_pre_accept;
    };
  })

  -- the world in which `prepare_reply` calls `progress` again, but for the message's type
  abbrev pub restart_from : LeaderTracker → Option Command → World x → World x
  restart_from lt command w = record w {
    i = record (w.i) { lt = some lt };
    m = record (w.m) { command = command; ballot = w.i.ballot };
  }

  module _ (restart : World x → Outcome (World x)) where
    -- enough replicas agree that the value may have been pre-accepted: try to pre-accept it
    unfoldable pub try_value : LeaderTracker → World x → Outcome (World x)
    try_value lt0 w =
        let ri = lt0.ri in
        let lt = trying lt0 in
        let i = record (w.i) { lt = some lt } in
        pac_conflict (store w.r i) i ri.command ri.seq ri.deps >>= λ (conflict, command).
        elim conflict [
          | some t ↦
              (if leb (bits State.committed) (bits t.status)
                then restart (restart_from lt command w)
                else clear_quorum w.r.id lt.quorum >>= λ q.
                    ok (send_try (record lt { nacks = 0; quorum = q }) (record w { i = i })))
          | none ↦ ok (
              send_try (record lt { pre_accept_oks = 1 })
                (record w {
                  i = record i {
                    command = command;
                    seq = ri.seq;
                    deps = ri.deps;
                    status = State.pre_accepted;
                  };
                }))
        ]

    -- what `prepare_reply` does with half of the replies
    unfoldable pub prepare_decide : LeaderTracker → World x → Outcome (World x)
    prepare_decide lt w =
        let ri = lt.ri in
        let unled = ri.leader_replied == 0 in
        if is_state (bits ri.status) (bits State.none)
        then propose_noop lt w
        else (if is_state (bits ri.status) (bits State.accepted)
              || (unled
                  && leb half ri.pre_accept_count
                  && is_state (bits ri.status) (bits State.pre_accepted_eq))
            then ok (accept_again lt w)
            else (if unled && leb ((half + 1) / 2) ri.pre_accept_count
                then try_value lt w
                else restart
                    (restart_from (record lt { recovery_status = State.none }) ri.command w)))

    unfoldable pub prepare_reply : World x → Outcome (World x)
    prepare_reply w = elim w.i.lt [
      | none ↦ ok w
      | some lt0 ↦
          (if not (bits lt0.recovery_status == bits State.preparing)
            then ok w
            else (if not (w.m.nack == 0)
                then ok (set_tracker (record lt0 { nacks = u8 (lt0.nacks + 1) }) w)
                else (let lt1 = counted lt0 in
                    let lt = noted w lt1 in
                    if is_state (bits w.m.instance_status) (either State.committed State.executed)
                    then take_commit (set_tracker lt1 w)
                    else (if ltb lt.prepare_oks half
                        then ok (set_tracker lt w)
                        else prepare_decide lt (set_tracker lt w)))))
    ]
