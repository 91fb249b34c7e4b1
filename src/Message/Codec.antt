-- ===== src/Message/Codec.antt =====
-- src/message.c: messages to and from buffers, and their reference counts.
use epx_c.Base.{
  ℕ, zero, suc, ◌-◌, ◌%◌, ◌^◌, Option, none, some, List, [], ◌∷◌, set, ltb, ◌==◌, if◌then◌else◌,
  Outcome, ok, fault, null_deref, ◌>>=◌,
}
use epx_c.Epx.{n_replicas}
use epx_c.InstanceId.{InstanceId, Dependency}
use epx_c.Command.{Command}
use epx_c.Message.{State, bits, MessageType, Message}
use epx_c.Schema.{CommandTable, InstanceData, MessageTable, Flatcc}
use epx_c.Command.Codec.{command_from_buffer, command_to_buffer}

-- the enumerators' values
abbrev pub type_value : MessageType → ℕ
type_value MessageType.phase1 = 1
type_value MessageType.pre_accept = 2
type_value MessageType.pre_accept_ok = 3
type_value MessageType.pre_accept_reply = 4
type_value MessageType.accept = 5
type_value MessageType.accept_reply = 6
type_value MessageType.commit = 7
type_value MessageType.prepare = 8
type_value MessageType.prepare_reply = 9
type_value MessageType.try_pre_accept = 10
type_value MessageType.try_pre_accept_reply = 11
type_value MessageType.execute = 12

abbrev pub type_of : ℕ → Option MessageType
type_of n =
    if n == 1
    then some MessageType.phase1
    else if n == 2
    then some MessageType.pre_accept
    else if n == 3
    then some MessageType.pre_accept_ok
    else if n == 4
    then some MessageType.pre_accept_reply
    else if n == 5
    then some MessageType.accept
    else if n == 6
    then some MessageType.accept_reply
    else if n == 7
    then some MessageType.commit
    else if n == 8
    then some MessageType.prepare
    else if n == 9
    then some MessageType.prepare_reply
    else if n == 10
    then some MessageType.try_pre_accept
    else if n == 11
    then some MessageType.try_pre_accept_reply
    else if n == 12
    then some MessageType.execute
    else none

abbrev pub state_of : ℕ → Option State
state_of n =
    if n == 0
    then some State.zeroed
    else if n == 1
    then some State.none
    else if n == 2
    then some State.pre_accepted
    else if n == 4
    then some State.pre_accepted_eq
    else if n == 8
    then some State.accepted
    else if n == 16
    then some State.preparing
    else if n == 32
    then some State.try_pre_accepting
    else if n == 64
    then some State.committed
    else if n == 128
    then some State.executed
    else none

-- What `message_from_buffer` does: it returns 0 or 1, with the message as far as it was read. A
-- value that is no enumerator is stored by the code as it is; it ends the model's run.
pub data Decoded : Type 0 where
  decoded : Message → Decoded
  malformed : Message → Decoded
  no_enumerator : Decoded

-- the loop over the dependencies, from `i`; `N` of them at most are read
unfoldable pub read_deps : ℕ → ℕ → List Dependency → List Dependency → List Dependency
read_deps zero i rdps deps = deps
read_deps (suc n) i [] deps = deps
read_deps (suc n) i (d ∷ rdps) deps = read_deps n (suc i) rdps (set deps i d)

-- The command of `m` is a pointer to the memory that a command is read into; it may be null where
-- the buffer has no command.
unfoldable pub instance_data_from_buffer : Message → Option InstanceData → Outcome Message
instance_data_from_buffer m none = ok m
instance_data_from_buffer m (some buffer) = elim m.command [
  | none ↦ elim buffer.command [
    | none ↦ ok (record m { seq = buffer.seq; deps = read_deps n_replicas 0 buffer.deps m.deps })
    | some cmd ↦ fault null_deref
  ]
  | some c ↦ command_from_buffer c buffer >>= λ (present, c'). ok (record m {
    command = if present then some c' else none;
    seq = buffer.seq;
    deps = read_deps n_replicas 0 buffer.deps m.deps;
  })
]

abbrev pub get_present : Option ℕ → ℕ → ℕ
get_present none n = n
get_present (some k) n = k

unfoldable pub read_data : MessageType → Message → Option InstanceData → Outcome Message
read_data MessageType.pre_accept_ok m buffer = ok m
read_data _ m buffer = instance_data_from_buffer m buffer

-- the function after its tests, but for the enumerators
unfoldable pub read_fields :
    Message → MessageTable → InstanceId → MessageType → State → Outcome Decoded
read_fields m bm i_id type status =
    read_data type
      (record m {
        to = bm.to;
        from = bm.from;
        nack = bm.nack;
        ballot = bm.ballot;
        instance_status = status;
        id = i_id;
        type = type;
        stop = get_present bm.stp m.stop;
        start = get_present bm.srt m.start;
      })
      bm.data_of
    >>= λ m'. ok (Decoded.decoded m')

unfoldable pub message_from_table : Message → MessageTable → Outcome Decoded
message_from_table m bm = elim (state_of bm.instance_status) [
  | none ↦ ok Decoded.no_enumerator
  | some status ↦
      let m1 = record m {
        to = bm.to;
        from = bm.from;
        nack = bm.nack;
        ballot = bm.ballot;
        instance_status = status;
      } in
      elim bm.instance_id [
        | none ↦ ok (Decoded.malformed m1)
        | some i_id ↦ elim bm.type [
          | none ↦ ok (Decoded.malformed (record m1 { id = i_id }))
          | some n ↦ elim (type_of n) [
            | none ↦ ok Decoded.no_enumerator
            | some type ↦ read_fields m bm i_id type status
          ]
        ]
      ]
]

unfoldable pub message_from_buffer : Flatcc → Message → List ℕ → Outcome Decoded
message_from_buffer f m buffer = elim (f.root buffer) [
  | none ↦ ok (Decoded.malformed m)
  | some bm ↦ message_from_table m bm
]

-- the loop over the dependencies, whose replicas are two bytes of the schema
unfoldable pub write_deps : List Dependency → List Dependency
write_deps [] = []
write_deps (d ∷ deps) =
    let rest = write_deps deps in
    if ltb 0 d.id.replica_id
    then record d { id = record (d.id) { replica_id = d.id.replica_id % 2 ^ 16 } } ∷ rest
    else rest

abbrev pub write_command : Option Command → Option CommandTable
write_command none = none
write_command (some c) = some (command_to_buffer c)

unfoldable pub instance_data_to_buffer : Message → InstanceData
instance_data_to_buffer m = record {
  command = write_command m.command;
  seq = m.seq;
  deps = write_deps m.deps;
}

-- `if(n) …_add(b, n)`
abbrev pub present_if : ℕ → Option ℕ
present_if n = if n == 0 then none else some n

unfoldable pub write_data : MessageType → Message → Option InstanceData
write_data MessageType.pre_accept_ok m = none
write_data _ m = some (instance_data_to_buffer m)

unfoldable pub table_of : Message → MessageTable
table_of m = record {
  to = m.to % 2 ^ 16;
  from = m.from % 2 ^ 16;
  nack = m.nack;
  ballot = m.ballot;
  instance_id = some (record (m.id) { replica_id = m.id.replica_id % 2 ^ 16 });
  type = some (type_value m.type);
  instance_status = bits m.instance_status;
  data_of = write_data m.type m;
  srt = present_if m.start;
  stp = present_if m.stop;
}

unfoldable pub message_to_buffer : Flatcc → Message → List ℕ
message_to_buffer f m = f.build (table_of m)

-- The message that is left, if it is not freed. The decrement reports zero.
unfoldable pub destroy_message : Message → Option Message
destroy_message m =
    if m.ref == 0
    then some m
    else if m.ref - 1 == 0
    then none
    else some (record m { ref = m.ref - 1 })
