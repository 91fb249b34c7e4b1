-- ===== src/Epaxos/Progress.antt =====
-- `progress` of src/epaxos.c, and what calls it: messages, proposals, checkpoints and timeouts.
pub mod Depth
use epx_c.Base.{
  ℕ, zero, suc, ◌+◌, Bool, true, false, Option, none, some, List, [], ◌∷◌, ◌==◌, if◌then◌else◌,
  Outcome, ok, fault, null_deref, out_of_fuel, ◌>>=◌,
}
use epx_c.InstanceId.{u64}
use epx_c.Message.{State, MessageType, Message}
use epx_c.Instance.{Instance, zero_id, new_instance, new_tracker, message_from_instance}
use epx_c.Instance.Deps.{zero_deps}
use epx_c.Extern.{Externals}
use epx_c.Replica.{
  Replica, alloc, init_fp_timeout, init_timeout, send_io, store, find_instance, register_instance,
  max_local, barrier,
}
use epx_c.Epaxos.{World, send, recover}
use epx_c.Epaxos.Leader.{phase1, pre_accept_ok, pre_accept_reply, accept_reply}
use epx_c.Epaxos.Acceptor.{pre_accept, accept, prepare, try_pre_accept, commit}
use epx_c.Epaxos.Recovery.{prepare_reply}
use epx_c.Epaxos.TryReply.{try_pre_accept_reply}

module _ {x : Externals} where
  -- `m->type = PHASE1; …; progress(r, i, m)`
  abbrev pub restart : (World x → Outcome (World x)) → World x → Outcome (World x)
  restart again w = again (record w { m = record (w.m) { type = MessageType.phase1 } })

  -- The `switch` of `progress`, with the call that a handler may make again.
  unfoldable pub dispatch : (World x → Outcome (World x)) → World x → Outcome (World x)
  dispatch again w = elim w.m.type [
    | MessageType.phase1 ↦ phase1 w
    | MessageType.pre_accept ↦ pre_accept w
    | MessageType.pre_accept_reply ↦ pre_accept_reply w
    | MessageType.accept ↦ accept w
    | MessageType.commit ↦ ok (commit w)
    | MessageType.accept_reply ↦ accept_reply w
    | MessageType.pre_accept_ok ↦ pre_accept_ok w
    | MessageType.prepare ↦ ok (prepare w)
    | MessageType.prepare_reply ↦ prepare_reply (restart again) w
    | MessageType.try_pre_accept ↦ try_pre_accept w
    | MessageType.try_pre_accept_reply ↦ try_pre_accept_reply (restart again) w
    | MessageType.execute ↦ ok w
  ]

  -- on fuel for the calls within calls
  unfoldable pub progress_at : ℕ → World x → Outcome (World x)
  progress_at zero w = fault out_of_fuel
  progress_at (suc depth) w = dispatch (progress_at depth) w

  unfoldable pub progress : World x → Outcome (World x)
  progress w = progress_at 2 w

  -- the replica when the handler has returned
  abbrev pub after : World x → Replica x
  after w = store w.r w.i

  -- `progress` of an instance that is in its index, as the end of `step` and `propose`
  unfoldable pub progress_stored : World x → Outcome (Bool × Replica x)
  progress_stored w = progress w >>= λ w'. ok (true, after w')

  -- The result is `true` for 0 and `false` for -1, with the replica.
  unfoldable pub step_new : Replica x → Message → Outcome (Bool × Replica x)
  step_new r m =
      let (got, r1) = alloc r in
      elim (new_instance got) [
        | none ↦ ok (false, r1)
        | some i0 ↦
            let i = record i0 { key = m.id } in
            register_instance r1 i >>= λ (registered, r2).
            if registered
            then progress_stored (record { r = init_timeout r2 i; i = i; m = m })
            else ok (false, r2)
      ]

  unfoldable pub step : Replica x → Message → Outcome (Bool × Replica x)
  step r m =
      if m.id.instance_id == 0
      then ok (false, r)
      else find_instance r m.id >>= λ found. elim found [
        | none ↦ step_new r m
        | some i ↦ progress_stored (record { r = r; i = i; m = m })
      ]

  -- the start of `propose` and `checkpoint`: a new instance of this replica, in its index
  unfoldable pub new_local : Replica x → Outcome (Option Instance × Replica x)
  new_local r =
      let (got, r1) = alloc r in
      elim (new_instance got) [
        | none ↦ ok (none, r1)
        | some i0 ↦
            let (got', r2) = alloc r1 in
            elim (new_tracker got') [
              | none ↦ ok (none, r2)
              | some lt ↦ max_local r2 >>= λ number.
                  let i = record i0 {
                    lt = some lt;
                    key = record { instance_id = u64 (number + 1); replica_id = r2.id };
                  } in
                  register_instance r2 i >>= λ (registered, r3).
                  ok (if registered then some i else none, r3)
            ]
      ]

  unfoldable pub propose : Replica x → Message → Outcome (Bool × Replica x)
  propose r m = new_local r >>= λ (made, r1). elim made [
    | none ↦ ok (false, r1)
    | some i ↦
        progress_stored (record { r = r1; i = i; m = record m { type = MessageType.phase1 } })
  ]

  -- The message may be null; it is then allocated, and its memory holds `garbage`.
  unfoldable pub checkpoint_message :
      Option Message → Message → Replica x → Outcome (Message × Replica x)
  checkpoint_message (some m) garbage r = ok (m, r)
  checkpoint_message none garbage r =
      let (got, r1) = alloc r in if got then ok (garbage, r1) else fault null_deref

  unfoldable pub checkpoint : Replica x → Option Message → Message → Outcome (Replica x)
  checkpoint r message garbage = new_local r >>= λ (made, r1). elim made [
    | none ↦ ok r1
    | some i0 ↦ barrier r1 >>= λ deps. checkpoint_message message garbage r1 >>= λ (m0, r2).
        let i = record i0 { deps = deps; status = State.pre_accepted } in
        let m = record m0 {
          id = i.key;
          deps = deps;
          ballot = i.ballot;
          type = MessageType.pre_accept;
        } in
        ok (after (send (record { r = init_fp_timeout r2 i; i = i; m = m })))
  ]

  -- `zeroed` is the message of zeroed memory.
  unfoldable pub slow_path_timeout : Replica x → Instance → Message → Outcome (Replica x)
  slow_path_timeout r i zeroed =
      let (got, r1) = alloc r in
      if got
      then ok (
          after
            (recover (record { r = r1; i = i; m = record zeroed { type = MessageType.prepare } })))
      else fault null_deref

  unfoldable pub fast_path_timeout : Replica x → Instance → Message → Outcome (Replica x)
  fast_path_timeout r i garbage =
      let (got, r1) = alloc r in
      elim (message_from_instance got garbage i) [
        | none ↦ fault null_deref
        | some m ↦ ok (send_io (init_timeout r1 i) (record m { type = MessageType.accept }))
      ]
