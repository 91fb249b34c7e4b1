-- ===== src/Tests/Handlers.antt =====
-- The handlers at concrete instances and messages.
use epx_c.Base.{ℕ, ◌≡◌, ◌≤◌, ◌⊎◌, refl, inl, inr, some, [], ◌∷◌, ok, arith}
use epx_c.InstanceId.{InstanceId}
use epx_c.Command.{Command, Io}
use epx_c.Message.{State, MessageType, Message}
use epx_c.Instance.{Instance, zero_id, zero_instance, zero_tracker}
use epx_c.Instance.Deps.{zero_deps}
use epx_c.Instance.Deps.Sorted.{IsValid}
use epx_c.Index.{walk_down}
use epx_c.Index.{seq_deps_for_command}
use epx_c.Replica.{Replica, Effect, to_exec}
use epx_c.Epaxos.{World, send}
use epx_c.Epaxos.Leader.{accept_reply}
use epx_c.Epaxos.Acceptor.{accept, accept_value, accepted_by}
use epx_c.Epaxos.Valid.{WorldIsValid}
use epx_c.Epaxos.Valid.Progress.{progress-IsValid}
use epx_c.Epaxos.Safety.{SameValue, progress_settled, progress_stale}
use epx_c.Epaxos.Safety.Ballots.{progress_ballot}
use epx_c.Epaxos.Safety.Answers.{Agrees, progress-Agrees}
use epx_c.InstanceId.{max_seq}
use epx_c.Instance.Ballot.{is_initial_ballot}
use epx_c.Instance.Deps.{has_uncommitted_deps}
use epx_c.Replica.{sd_loop, sd_for_command, store}
use epx_c.Epaxos.Acceptor.{pre_accept, pre_accept_value, pre_accept_found}
use epx_c.Epaxos.Progress.{dispatch, progress_at, progress}
use epx_c.Tests.Libraries.{lists}

abbrev pub own_key : InstanceId
own_key = record { replica_id = 0; instance_id = 1 }

abbrev pub put_a : Command
put_a = record {
  spans = record { start_key = 97 ∷ []; end_key = 98 ∷ [] } ∷ [];
  tx_size = 1;
  id = 7;
  writing = Io.write;
}

abbrev pub idle : Replica lists
idle = record { id = 0; index = [] ∷ [] ∷ [] ∷ []; dh = []; allocs = []; trace = [] }

abbrev pub letter : MessageType → ℕ → Message
letter t b = record {
  type = t;
  to = 0;
  ballot = b;
  nack = 0;
  id = own_key;
  command = some put_a;
  seq = 3;
  deps = zero_deps;
  from = 0;
  instance_status = State.none;
  conflict = record { id = zero_id; status = State.zeroed };
  start = 0;
  stop = 0;
  ref = 0;
}

abbrev pub instance_at : State → ℕ → Instance
instance_at s b = record zero_instance {
  key = own_key;
  ballot = b;
  status = s;
  command = some put_a;
  seq = 3;
}

abbrev tracked : Instance → Instance
tracked i = record i { lt = some zero_tracker }

abbrev meeting : Instance → Message → World lists
meeting i m = record { r = idle; i = i; m = m }

-- an accept of ballot 16 for an instance of ballot 0
abbrev accepting : World lists
accepting = meeting (instance_at State.pre_accepted 0) (letter MessageType.accept 16)

abbrev accepted : World lists
accepted = send (record accepting {
  i = accepted_by accepting;
  m = record (accepting.m) { type = MessageType.accept_reply };
})

progress-accepting : progress accepting ≡ ok accepted
unfolding progress progress_at dispatch accept accept_value
progress-accepting = refl

-- the first accept reply at the leader
abbrev deciding : World lists
deciding = meeting (tracked (instance_at State.accepted 16)) (letter MessageType.accept_reply 16)

abbrev decided_instance : Instance
decided_instance = record (deciding.i) {
  status = State.committed;
  lt = some (record zero_tracker { accept_oks = 1 });
}

abbrev decided : World lists
decided =
    let m = record (deciding.m) { type = MessageType.commit } in
    record {
      r = record idle {
        trace =
            Effect.to_eo m ∷ Effect.to_io m ∷ to_exec own_key ∷ Effect.delete_timer own_key ∷ [];
      };
      i = decided_instance;
      m = m;
    }

abbrev settled : World lists
settled = meeting (instance_at State.committed 16) (letter MessageType.try_pre_accept 32)

progress_settled_example :
    (w' : World lists) × (progress settled ≡ ok w') × SameValue w'.i settled.i
progress_settled_example = progress_settled settled put_a (inl refl) refl tt

abbrev stale : World lists
stale = meeting (instance_at State.pre_accepted 16) (letter MessageType.accept 0)

progress_stale_example :
    (progress stale ≡ ok stale)
    ⊎ ((m : Message) × (progress stale ≡ ok (send (record stale { m = m })))
        × (m.nack ≡ 1)
        × (m.id ≡ own_key))
progress_stale_example = progress_stale stale (inr (inl refl)) (omega arith)

progress_ballot_example : 0 ≤ 16
progress_ballot_example =
    progress_ballot lists accepting accepted (omega arith) (omega arith) tt progress-accepting

all_free-IsValid : IsValid zero_deps
all_free-IsValid = record { size = refl; sorted = ground arith }

accepting-IsValid : WorldIsValid accepting
accepting-IsValid = record { own = all_free-IsValid; recorded = tt; received = all_free-IsValid }

progress-IsValid_example : WorldIsValid accepted
progress-IsValid_example =
    progress-IsValid lists accepting accepted accepting-IsValid progress-accepting

-- a proposal that the replica has nothing to add to
abbrev proposed : World lists
proposed = meeting (instance_at State.none 0) (letter MessageType.pre_accept 0)

abbrev agreed : World lists
agreed = send (record proposed {
  i = record (proposed.i) { status = State.pre_accepted_eq };
  m = record (proposed.m) { type = MessageType.pre_accept_ok };
})

progress-proposed : progress proposed ≡ ok agreed
unfolding progress progress_at dispatch pre_accept pre_accept_value pre_accept_found sd_for_command
    sd_loop seq_deps_for_command walk_down store max_seq has_uncommitted_deps is_initial_ballot
progress-proposed = refl

progress-Agrees_example : Agrees proposed agreed
progress-Agrees_example = progress-Agrees lists proposed agreed refl progress-proposed refl
