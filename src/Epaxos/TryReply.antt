-- ===== src/Epaxos/TryReply.antt =====
-- `try_pre_accept_reply` of src/epaxos.c. The argument `restart` sets the type of the message to
-- `PHASE1` and calls `progress` again; the handler goes on with what that call leaves.
use epx_c.Base.{
  ℕ, ◌+◌, Bool, false, not, ◌||◌, none, some, List, [], ◌∷◌, suc, leb, ltb, ◌==◌, get_or,
  if◌then◌else◌, Outcome, ok, fault, null_deref, out_of_bounds, ◌>>=◌,
}
use epx_c.Epx.{n_replicas}
use epx_c.InstanceId.{eq_instance_id, dh_key}
use epx_c.Message.{State, bits, MessageType}
use epx_c.Instance.{RecoveryInstance, LeaderTracker}
use epx_c.Instance.Ballot.{u8, larger_ballot}
use epx_c.Extern.{Externals}
use epx_c.Replica.{init_timeout}
use epx_c.Epaxos.{World, half, send}
use epx_c.Epaxos.Recovery.{clear_quorum, set_tracker}

abbrev pub count_zero : List ℕ → ℕ
count_zero [] = 0
count_zero (q ∷ qs) = if q == 0 then suc (count_zero qs) else count_zero qs

-- the counters after a refusal that does not name a larger ballot
abbrev pub refused_by : LeaderTracker → LeaderTracker
refused_by lt = record lt {
  nacks = u8 (lt.nacks + 1);
  try_pre_accept_oks = u8 (lt.try_pre_accept_oks + 1);
}

module _ {x : Externals} where
  -- `i->lt`, read through the pointer of the instance
  abbrev tracker : World x → Outcome LeaderTracker
  tracker w = elim w.i.lt [ none ↦ fault null_deref | some lt ↦ ok lt ]

  -- a positive reply
  unfoldable pub try_ok : LeaderTracker → World x → World x
  try_ok lt0 w =
      let lt = record lt0 {
        pre_accept_oks = u8 (lt0.pre_accept_oks + 1);
        try_pre_accept_oks = u8 (lt0.try_pre_accept_oks + 1);
      } in
      if leb half lt.pre_accept_oks
      then send (record w {
        i = record (w.i) {
          command = lt.ri.command;
          deps = lt.ri.deps;
          seq = lt.ri.seq;
          status = State.accepted;
          lt = some (record lt { accept_oks = 0; recovery_status = State.none });
        };
        m = record (w.m) {
          command = lt.ri.command;
          deps = lt.ri.deps;
          seq = lt.ri.seq;
          instance_status = State.accepted;
          type = MessageType.accept;
        };
      })
      else set_tracker lt w

  -- a refusal with a larger ballot: try again above it
  abbrev outbid : LeaderTracker → World x → World x
  outbid lt w =
      let ballot = larger_ballot w.m.ballot w.r.id in
      send (record w {
        i = record (w.i) { ballot = ballot; lt = some lt };
        m = record (w.m) { ballot = ballot; type = MessageType.try_pre_accept };
      })

  -- the refusing replica has the instance itself
  unfoldable pub try_refused_here : LeaderTracker → World x → Outcome (World x)
  try_refused_here lt w = clear_quorum w.m.from lt.quorum >>= λ q.
      clear_quorum w.m.conflict.id.replica_id q >>= λ q'. ok (
        send (record w {
          i = record (w.i) { lt = some (record lt { quorum = q' }) };
          m = record (w.m) { type = MessageType.prepare };
        }))

  -- `if(k != kh_end(r->dh) && quorum[kh_val(r->dh, k)])`
  abbrev pub is_deferred : World x → LeaderTracker → Outcome Bool
  is_deferred w lt = elim (x.kh_get w.r.dh (dh_key w.m.id)) [
    | none ↦ ok false
    | some rc ↦
        (if ltb rc n_replicas then ok (not (get_or lt.quorum rc 0 == 0)) else fault out_of_bounds)
  ]

  -- the last statement of the refusal: note whom the instance waits for
  unfoldable pub defer : World x → Outcome (World x)
  defer w = tracker w >>= λ lt. ok (
      if ltb half lt.try_pre_accept_oks
      then record w {
        r =
            init_timeout
              (record (w.r) { dh = x.kh_put w.r.dh (dh_key w.m.conflict.id) w.m.id.replica_id })
              w.i;
      }
      else w)

  module _ (restart : World x → Outcome (World x)) where
    -- the first choice: give the value up
    unfoldable pub give_up : ℕ → World x → Outcome (World x)
    give_up nq w = tracker w >>= λ lt.
        if leb (bits State.committed) (bits w.m.conflict.status) || ltb half nq
        then restart (record w {
          i = record (w.i) { lt = some (record lt { recovery_status = State.none }) };
        })
        else ok w

    -- the second: the replica that it was deferred to may still answer
    unfoldable pub deferred_choice : ℕ → RecoveryInstance → World x → Outcome (World x)
    deferred_choice nq ri w =
        if not (nq == half)
        then ok w
        else tracker w >>= λ lt. is_deferred w lt >>= λ waits.
            if waits
            then restart (record w {
              i = record (w.i) { lt = some (record lt { recovery_status = State.none }) };
              m = record (w.m) { command = ri.command; ballot = w.i.ballot };
            })
            else ok w

    -- a refusal that names another instance
    unfoldable pub try_refused : LeaderTracker → World x → Outcome (World x)
    try_refused lt w =
        let nq = count_zero lt.quorum in
        give_up nq (set_tracker lt w) >>= λ w1. deferred_choice nq lt.ri w1 >>= λ w2. defer w2

    unfoldable pub try_pre_accept_reply : World x → Outcome (World x)
    try_pre_accept_reply w = elim w.i.lt [
      | none ↦ ok w
      | some lt0 ↦
          (if not (bits lt0.recovery_status == bits State.try_pre_accepting)
              || bits lt0.ri.status == bits State.none
            then ok w
            else (if w.m.nack == 0
                then ok (try_ok lt0 w)
                else (let lt1 = record lt0 { nacks = u8 (lt0.nacks + 1) } in
                    let lt2 = refused_by lt0 in
                    if ltb w.i.ballot w.m.ballot
                    then ok (outbid lt1 w)
                    else (if eq_instance_id w.m.conflict.id w.m.id
                        then try_refused_here lt2 w
                        else try_refused lt2 w))))
    ]
