-- ===== src/Tests/Runs.antt =====
-- A replica that is reached.
use epx_c.Base.{◌≡◌, refl, Bool, true, List, [], ◌∷◌, Outcome, ok, fault, null_deref}
use epx_c.InstanceId.{eq_instance_id}
use epx_c.Message.{Message, MessageType}
use epx_c.Instance.{new_instance, new_tracker, instance_reset}
use epx_c.Index.Valid.{zero_deps-IsValid}
use epx_c.Replica.{
  max_local, barrier, barrier_loop, sd_loop, sd_for_command, Replica, find_instance,
  register_instance, store,
}
use epx_c.Index.{barrier_dep, seq_deps_for_command, walk_down, seq_deps_round, interferes_ptr}
use epx_c.Epaxos.Leader.{phase1}
use epx_c.Epaxos.Acceptor.{commit}
use epx_c.Epaxos.Progress.{
  propose, checkpoint, checkpoint_message, new_local, dispatch, progress_at, progress,
  progress_stored, step_new, step,
}
use epx_c.Epaxos.Indexes.{IndexesAreValid}
use epx_c.Epaxos.Run.{new_replica, steps, start, later}
use epx_c.Epaxos.Run.Indexes.{Reach-IndexesAreValid}
use epx_c.Epaxos.Run.Loop.{
  Input, receives, submits, ticks, checkpoint_due, tick, checkpoint_timeout, run_turn, run_loop,
  run,
}
use epx_c.Tests.Libraries.{lists, list_llrb_laws}
use epx_c.Tests.Handlers.{idle, letter}

abbrev replica_of : Outcome (Bool × Replica lists) → Replica lists
replica_of (ok (b, r)) = r
replica_of (fault f) = idle

-- a replica that has received a COMMIT of an instance that it did not have
abbrev with_commit : Replica lists
with_commit = replica_of (step (new_replica idle) (letter MessageType.commit 16))

received : step (new_replica idle) (letter MessageType.commit 16) ≡ ok (true, with_commit)
unfolding new_replica step step_new find_instance new_instance register_instance progress_stored
    progress progress_at dispatch commit store
received = refl

Reach-IndexesAreValid_example : IndexesAreValid lists list_llrb_laws with_commit.index
Reach-IndexesAreValid_example = Reach-IndexesAreValid lists list_llrb_laws (
    later start (
      steps (letter MessageType.commit 16) {b = true} {r' = with_commit} zero_deps-IsValid
        received))

-- the message of a COMMIT, then a tick by which no timer is due
abbrev arrivals : List Input
arrivals = receives (letter MessageType.commit 16) ∷ ticks [] ∷ []

-- a message whose instance number is 0
abbrev without_number : Message
without_number = record (letter MessageType.commit 16) {
  id = record { replica_id = 0; instance_id = 0 };
}

-- After a COMMIT of an instance that it does not have, which is registered without a command, the
-- replica reads a null pointer at its first proposal.
commit-proposal :
    run (receives (letter MessageType.commit 16) ∷ submits (letter MessageType.phase1 0) ∷ []) idle
    ≡ fault null_deref
unfolding run run_loop run_turn propose new_local max_local new_tracker new_replica step step_new
    find_instance new_instance register_instance progress_stored progress progress_at dispatch
    commit store phase1 instance_reset sd_for_command sd_loop seq_deps_for_command walk_down
    seq_deps_round interferes_ptr eq_instance_id
commit-proposal = refl

-- A checkpoint of a new replica reads a null pointer: an index of another replica is empty.
checkpoint-empty :
    run (ticks (checkpoint_due (letter MessageType.commit 0) ∷ []) ∷ []) idle ≡ fault null_deref
unfolding run run_loop run_turn tick checkpoint_timeout checkpoint barrier checkpoint_message
    new_local max_local new_instance new_replica new_tracker register_instance barrier_loop
    barrier_dep
checkpoint-empty = refl
