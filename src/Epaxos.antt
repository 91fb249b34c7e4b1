-- ===== src/Epaxos.antt =====
-- src/epaxos.c: the handlers of the protocol's messages, and the timeouts.
-- A handler works on the replica, the instance and the message that its pointers lead to. The
-- instance is kept beside the replica; where the indexes are read, it is first put in its place.
pub mod Leader
pub mod Acceptor
pub mod Recovery
pub mod TryReply
pub mod Progress
pub mod Valid
pub mod Indexes
pub mod Fits
pub mod Run
pub mod Safety
use epx_c.Base.{
  ℕ, ◌/◌, Bool, true, false, Option, none, some, of_bool, ◌==◌, if◌then◌else◌, Outcome, ok, fault,
  null_deref, bit_or,
}
use epx_c.Epx.{n_replicas}
use epx_c.Command.{Command, is_write}
use epx_c.Message.{State, bits, MessageType, Message}
use epx_c.Instance.{Instance, RecoveryInstance, LeaderTracker, is_state, new_tracker}
use epx_c.Instance.Ballot.{larger_ballot}
use epx_c.Extern.{Externals}
use epx_c.Replica.{Replica, alloc, cancel_timeout, init_timeout, send_exec, send_io, send_eo}

pub record World (x : Externals) : Type 0 where
  pub r : Replica x
  pub i : Instance
  pub m : Message

-- `N/2`
abbrev pub half : ℕ
half = n_replicas / 2

-- the values of two states joined by `|`
abbrev pub either : State → State → ℕ
either s t = bit_or (bits s) (bits t)

module _ {x : Externals} where
  -- `send_io(r, m)` of the message as it stands
  abbrev pub send : World x → World x
  send w = record w { r = send_io w.r w.m }

  -- The message is sent before the null command of a checkpoint is read.
  unfoldable pub do_commit : World x → Outcome (World x)
  do_commit w =
      let i = record (w.i) { status = State.committed } in
      let m = record (w.m) { type = MessageType.commit } in
      let r = send_io (send_exec (cancel_timeout w.r w.i) i) m in
      elim i.command [
        | none ↦ fault null_deref
        | some c ↦ ok (record { r = if is_write c.writing then send_eo r m else r; i = i; m = m })
      ]

  -- what `recover` records of the instance
  abbrev recovering : World x → LeaderTracker → LeaderTracker
  recovering w lt =
      let i = w.i in
      let lt1 = record lt { recovery_status = State.preparing } in
      let lt2 =
        (if is_state (bits i.status) (bits State.accepted)
          then record lt1 { max_ballot = i.ballot }
          else if is_state (bits i.status) (bits State.pre_accepted)
          then record lt1 {
            ri = record (lt1.ri) {
              pre_accept_count = 1;
              leader_replied = of_bool (w.r.id == i.key.replica_id);
            };
          }
          else lt1) in
      record lt2 {
        ri = record (lt2.ri) { status = i.status; command = i.command; seq = i.seq; deps = i.deps };
      }

  -- `recover` with a tracker at hand
  unfoldable pub recover_with : LeaderTracker → World x → World x
  recover_with lt w =
      let i = record (w.i) {
        lt = some (recovering w lt);
        ballot = larger_ballot w.i.ballot w.r.id;
      } in
      let m = record (w.m) {
        ballot = i.ballot;
        id = i.key;
        command = i.command;
        seq = i.seq;
        type = MessageType.prepare;
      } in
      send (record { r = init_timeout w.r i; i = i; m = m })

  unfoldable pub recover : World x → World x
  recover w = elim w.i.lt [
    | some lt ↦ recover_with lt w
    | none ↦
        let (got, r) = alloc w.r in
        elim (new_tracker got) [
          | none ↦ record w { r = r }
          | some lt ↦ recover_with lt (record w { r = r })
        ]
  ]
