-- ===== src/Epaxos/Leader.antt =====
-- The handlers of src/epaxos.c that run where an instance is led: `phase1`, `pre_accept_ok`,
-- `pre_accept_reply` and `accept_reply`.
use epx_c.Base.{
  ℕ, ◌+◌, ◌-◌, ◌&&◌, not, ◌||◌, none, some, List, [], ◌∷◌, leb, ltb, ◌==◌, of_bool, if◌then◌else◌,
  Outcome, ok, fault, null_deref, ◌>>=◌,
}
use epx_c.InstanceId.{Dependency, u64}
use epx_c.Message.{State, bits, MessageType}
use epx_c.Instance.{LeaderTracker, is_state, instance_reset}
use epx_c.Instance.Ballot.{u8, is_initial_ballot}
use epx_c.Instance.Deps.{zero_deps, update_deps, has_uncommitted_deps}
use epx_c.Extern.{Externals}
use epx_c.Replica.{cancel_timeout, init_fp_timeout, store, sd_for_command}
use epx_c.Epaxos.{World, half, send, do_commit, recover}

-- `equal -= update_deps(i->deps, &m->deps[ds])` over the message's dependencies
unfoldable pub merge_deps : ℕ → List Dependency → List Dependency → ℕ × List Dependency
merge_deps equal deps [] = (equal, deps)
merge_deps equal deps (d ∷ ds) =
    let (updated, deps') = update_deps deps d in merge_deps (u8 (equal + 256 - updated)) deps' ds

module _ {x : Externals} where
  unfoldable pub phase1 : World x → Outcome (World x)
  phase1 w =
      let i0 = instance_reset w.i in
      let r0 = cancel_timeout w.r i0 in
      sd_for_command (store r0 i0) w.m.command (some i0.key)
        (record { updated = 0; deps = zero_deps })
      >>= λ (mseq, command, p). elim i0.lt [
        | none ↦ fault null_deref
        | some lt ↦
            let i = record i0 {
              seq = u64 (mseq + 1);
              status = State.pre_accepted;
              lt = some (record lt { equal = of_bool (p.updated == 0) });
              deps = p.deps;
              command = command;
              ballot = w.m.ballot;
            } in
            let m = record (w.m) {
              seq = i.seq;
              command = command;
              deps = i.deps;
              id = i.key;
              type = MessageType.pre_accept;
            } in
            ok (send (record { r = init_fp_timeout r0 i; i = i; m = m }))
      ]

  -- the choice at the end of `pre_accept_ok` and `pre_accept_reply`: commit, accept or wait
  abbrev to_accept : World x → World x
  to_accept w = send (record w {
    i = record (w.i) { status = State.accepted };
    m = record (w.m) { type = MessageType.accept };
  })

  unfoldable pub pre_accept_ok : World x → Outcome (World x)
  pre_accept_ok w =
      if not (is_state (bits w.i.status) (bits State.pre_accepted))
        || not (is_initial_ballot w.i.ballot)
      then ok w
      else elim w.i.lt [
        | none ↦ fault null_deref
        | some lt0 ↦
            let lt = record lt0 { pre_accept_oks = u8 (lt0.pre_accept_oks + 1) } in
            let w1 = record w { i = record (w.i) { lt = some lt } } in
            if leb half lt.pre_accept_oks
              && not (lt.equal == 0)
              && not (has_uncommitted_deps w.i.deps)
            then do_commit w1
            else if leb half lt.pre_accept_oks
            then ok (to_accept w1)
            else ok w1
      ]

  -- the tracker with one negative reply more
  abbrev pub nacked : LeaderTracker → World x → LeaderTracker
  nacked lt w = record lt {
    nacks = u8 (lt.nacks + 1);
    max_ballot = if ltb lt.max_ballot w.m.ballot then w.m.ballot else lt.max_ballot;
  }

  -- a negative reply: count it, and recover on enough of them
  unfoldable pub nack_reply : LeaderTracker → World x → Outcome (World x)
  nack_reply lt0 w =
      let lt = nacked lt0 w in
      let w1 = record w { i = record (w.i) { lt = some lt } } in
      if leb half lt.nacks then ok (recover w1) else ok w1

  unfoldable pub pre_accept_reply : World x → Outcome (World x)
  pre_accept_reply w =
      if not (is_state (bits w.i.status) (bits State.pre_accepted))
        || not (w.i.ballot == w.m.ballot)
      then ok w
      else elim w.i.lt [
        | none ↦ fault null_deref
        | some lt0 ↦
            if not (w.m.nack == 0)
            then nack_reply lt0 w
            else (let larger = ltb w.i.seq w.m.seq in
                let (equal, deps) =
                  merge_deps (if larger then 1 else lt0.equal) w.i.deps w.m.deps in
                let lt = record lt0 {
                  pre_accept_oks = u8 (lt0.pre_accept_oks + 1);
                  equal = of_bool (equal == 1);
                } in
                let i = record (w.i) {
                  seq = if larger then w.m.seq else w.i.seq;
                  deps = deps;
                  lt = some lt;
                } in
                let w1 = record w { i = i } in
                if leb half lt.pre_accept_oks
                  && not (lt.equal == 0)
                  && is_initial_ballot i.ballot
                  && not (has_uncommitted_deps i.deps)
                then do_commit w1
                else if leb half lt.pre_accept_oks
                then ok (to_accept w1)
                else ok w1)
      ]

  unfoldable pub accept_reply : World x → Outcome (World x)
  accept_reply w =
      if not (is_state (bits w.i.status) (bits State.accepted)) || not (w.i.ballot == w.m.ballot)
      then ok w
      else elim w.i.lt [
        | none ↦ fault null_deref
        | some lt0 ↦
            if not (w.m.nack == 0)
            then nack_reply lt0 w
            else (let lt = record lt0 { accept_oks = u8 (lt0.accept_oks + 1) } in
                let w1 = record w { i = record (w.i) { lt = some lt } } in
                if ltb half (lt.accept_oks + 1) then do_commit w1 else ok w1)
      ]
