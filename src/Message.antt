-- ===== src/Message.antt =====
-- src/message.h: the states of an instance, the types of messages, and messages.
pub mod Codec
pub mod Fields
pub mod RoundTrip
use epx_c.Base.{ℕ, Option, List}
use epx_c.InstanceId.{InstanceId, Dependency}
use epx_c.Command.{Command}

-- `enum state`; `zeroed` is what zeroed memory holds, and is no enumerator.
pub data State : Type 0 where
  zeroed : State
  none pre_accepted pre_accepted_eq accepted preparing try_pre_accepting : State
  committed executed : State

-- the enumerators' values
abbrev pub bits : State → ℕ
bits State.zeroed = 0
bits State.none = 0x01
bits State.pre_accepted = 0x02
bits State.pre_accepted_eq = 0x04
bits State.accepted = 0x08
bits State.preparing = 0x10
bits State.try_pre_accepting = 0x20
bits State.committed = 0x40
bits State.executed = 0x80

-- `enum message_type`
pub data MessageType : Type 0 where
  phase1 pre_accept pre_accept_ok pre_accept_reply accept accept_reply commit : MessageType
  prepare prepare_reply try_pre_accept try_pre_accept_reply execute : MessageType

-- `conflict` of `struct message`
pub record Conflict : Type 0 where
  pub id : InstanceId
  pub status : State

-- `ballot` and `nack` are bytes; `command` is a pointer that may be null.
pub record Message : Type 0 where
  pub type : MessageType
  pub to : ℕ
  pub ballot : ℕ
  pub nack : ℕ
  pub id : InstanceId
  pub command : Option Command
  pub seq : ℕ
  pub deps : List Dependency
  pub from : ℕ
  pub instance_status : State
  pub conflict : Conflict
  pub start : ℕ
  pub stop : ℕ
  pub ref : ℕ
