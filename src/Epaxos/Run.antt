-- ===== src/Epaxos/Run.antt =====
-- What a replica does in `run` of src/epaxos.c: messages, proposals, checkpoints and timeouts in
-- any order, and between them what the executor of src/execute.c writes to its instances.
pub mod Steps
pub mod Indexes
pub mod Loop
pub mod Ends
use epx_c.Base.{ℕ, ◌≡◌, Bool, Option, some, [], ◌∷◌, replicate, ok}
use epx_c.Epx.{n_replicas}
use epx_c.InstanceId.{InstanceId}
use epx_c.Message.{State, Message}
use epx_c.Instance.{Instance}
use epx_c.Instance.Deps.Sorted.{IsValid}
use epx_c.Extern.{Externals}
use epx_c.Replica.{Replica, find_instance, store}
use epx_c.Epaxos.Progress.{step, propose, checkpoint, slow_path_timeout, fast_path_timeout}

module _ {x : Externals} where
  -- `new_replica` of src/replica.c, for what the model has of a replica
  unfoldable pub new_replica : Replica x → Replica x
  new_replica r = record r { index = replicate n_replicas x.empty; dh = x.no_entries }

  -- A turn of `run`, a timeout of an instance, or the write of an executed instance. The
  -- dependencies of a message are in order.
  pub data Turn (r : Replica x) : Replica x → Type 0 where
    steps :
        (m : Message) {b : Bool} {r' : Replica x}
        → IsValid m.deps
        → step r m ≡ ok (b, r')
        → Turn r r'
    proposes :
        (m : Message) {b : Bool} {r' : Replica x}
        → IsValid m.deps
        → propose r m ≡ ok (b, r')
        → Turn r r'
    checkpoints :
        (m : Option Message) (garbage : Message) {r' : Replica x}
        → checkpoint r m garbage ≡ ok r'
        → Turn r r'
    slow_times_out :
        (key : InstanceId) {i : Instance} (zeroed : Message) {r' : Replica x}
        → find_instance r key ≡ ok (some i)
        → IsValid zeroed.deps
        → slow_path_timeout r i zeroed ≡ ok r'
        → Turn r r'
    fast_times_out :
        (key : InstanceId) {i : Instance} (garbage : Message) {r' : Replica x}
        → find_instance r key ≡ ok (some i)
        → fast_path_timeout r i garbage ≡ ok r'
        → Turn r r'
    executes :
        (key : InstanceId) {i : Instance}
        → find_instance r key ≡ ok (some i)
        → Turn r (store r (record i { status = State.executed }))

  -- the replicas that are reached from a new one
  pub data Reach (r0 : Replica x) : Replica x → Type 0 where
    start : Reach r0 (new_replica r0)
    later : {r r' : Replica x} → Reach r0 r → Turn r r' → Reach r0 r'
