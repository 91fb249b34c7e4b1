-- ===== src/Instance.antt =====
-- src/instance.h and src/instance.c: instances, ballots and dependency arrays.
-- The tree entry, the timer and the back pointer to the replica are not fields: see `Replica`.
pub mod Ballot
pub mod Deps
use Prim.Native.Nat.{compare, Ordering}
use epx_c.Base.{
  ℕ, Bool, Option, none, some, List, leb, ltb, bit_and, of_bool, replicate, if◌then◌else◌,
}
use epx_c.Epx.{n_replicas}
use epx_c.InstanceId.{InstanceId, Dependency}
use epx_c.Command.{Command}
use epx_c.Message.{State, bits, Message}
use Deps.{zero_deps, update_deps}

pub record RecoveryInstance : Type 0 where
  pub command : Option Command
  pub deps : List Dependency
  pub status : State
  pub seq : ℕ
  pub pre_accept_count : ℕ
  pub leader_replied : ℕ

-- The counters, `equal` and `max_ballot` are bytes.
pub record LeaderTracker : Type 0 where
  pub pre_accept_oks : ℕ
  pub accept_oks : ℕ
  pub prepare_oks : ℕ
  pub try_pre_accept_oks : ℕ
  pub nacks : ℕ
  pub equal : ℕ
  pub max_ballot : ℕ
  pub recovery_status : State
  pub ri : RecoveryInstance
  pub quorum : List ℕ

pub record Instance : Type 0 where
  pub deps : List Dependency
  pub deps_updated : ℕ
  pub key : InstanceId
  pub ballot : ℕ
  pub status : State
  pub command : Option Command
  pub seq : ℕ
  pub lt : Option LeaderTracker

pub record SeqDepsProbe : Type 0 where
  pub updated : ℕ
  pub deps : List Dependency

-- zeroed memory
abbrev pub zero_id : InstanceId
zero_id = record { replica_id = 0; instance_id = 0 }

abbrev pub zero_recovery : RecoveryInstance
zero_recovery = record {
  command = none;
  deps = zero_deps;
  status = State.zeroed;
  seq = 0;
  pre_accept_count = 0;
  leader_replied = 0;
}

abbrev pub zero_tracker : LeaderTracker
zero_tracker = record {
  pre_accept_oks = 0;
  accept_oks = 0;
  prepare_oks = 0;
  try_pre_accept_oks = 0;
  nacks = 0;
  equal = 0;
  max_ballot = 0;
  recovery_status = State.zeroed;
  ri = zero_recovery;
  quorum = replicate n_replicas 0;
}

abbrev pub zero_instance : Instance
zero_instance = record {
  deps = zero_deps;
  deps_updated = 0;
  key = zero_id;
  ballot = 0;
  status = State.zeroed;
  command = none;
  seq = 0;
  lt = none;
}

-- In the functions that allocate, `got` says whether the allocation succeeds, and `garbage` is
-- what the allocated memory holds.
unfoldable pub message_from_instance : Bool → Message → Instance → Option Message
message_from_instance got garbage i =
    if got
    then some (record garbage {
      ballot = i.ballot;
      command = i.command;
      id = i.key;
      seq = i.seq;
      deps = i.deps;
    })
    else none

unfoldable pub instance_from_message : Bool → Message → Option Instance
instance_from_message got m =
    if got
    then some (record zero_instance {
      ballot = m.ballot;
      seq = m.seq;
      status = State.none;
      command = m.command;
      deps_updated = 0;
      lt = none;
    })
    else none

unfoldable pub new_instance : Bool → Option Instance
new_instance got =
    if got
    then some (record zero_instance {
      ballot = 0;
      seq = 0;
      status = State.none;
      deps_updated = 0;
      lt = none;
    })
    else none

-- `new_tracker` of src/replica.c
unfoldable pub new_tracker : Bool → Option LeaderTracker
new_tracker got =
    if got
    then some (record zero_tracker {
      ri = record zero_recovery { status = State.none };
      recovery_status = State.none;
    })
    else none

-- the arguments are the values of one or more states, joined by `|`
abbrev pub is_state : ℕ → ℕ → Bool
is_state a b = ltb 0 (bit_and a b)

unfoldable pub update_recovery_instance : RecoveryInstance → Message → RecoveryInstance
update_recovery_instance ri m = record ri {
  command = m.command;
  deps = m.deps;
  seq = m.seq;
  status = m.instance_status;
}

-- the order of an index
unfoldable pub intcmp : Instance → Instance → Ordering
intcmp e1 e2 = compare e1.key.instance_id e2.key.instance_id

unfoldable pub is_committed : Instance → Bool
is_committed i = leb (bits State.committed) (bits i.status)

unfoldable pub add_dep : List Dependency → Instance → ℕ × List Dependency
add_dep deps i = update_deps deps (record { id = i.key; committed = of_bool (is_committed i) })

abbrev reset_tracker : Option LeaderTracker → Option LeaderTracker
reset_tracker none = none
reset_tracker (some lt) = some (record lt { ri = record (lt.ri) { status = State.none } })

unfoldable pub instance_reset : Instance → Instance
instance_reset i = record i { deps = zero_deps; lt = reset_tracker i.lt }
