-- ===== src/Message/RoundTrip.antt =====
-- Messages of src/message.c that are written to a table and read from it.
use epx_c.Base.{
  ◌≤◌, ◌<◌, ◌≡◌, ◌≢◌, refl, ap, ◌∙◌, true, some, List, [], ◌++◌, All, length, drop, ok, ◌>>=◌,
  arith,
}
use epx_c.Epx.{n_replicas, max_tx}
use epx_c.InstanceId.{Dependency}
use epx_c.Command.{Span, Command}
use epx_c.Command.Codec.{command_from_buffer}
use epx_c.Command.RoundTrip.{IsPacked, command_from_buffer-command_to_buffer}
use epx_c.Message.{MessageType, Message}
use epx_c.Schema.{InstanceData}
use epx_c.Message.Codec.{
  Decoded, read_deps, instance_data_from_buffer, read_data, message_from_table, write_deps,
  write_command, instance_data_to_buffer, write_data, table_of,
}
use epx_c.Message.Fields.{
  IsSent, IsUnsent, write_deps-sent, read_deps-middle, IsWire, header, table_of_steps,
}

-- A PRE_ACCEPT_OK, whatever the message that is read into holds, is received without its command,
-- its sequence number and its dependencies: those stay as they were before.
pub pre_accept_ok-carries_nothing :
    (m m0 : Message)
    → m.type ≡ MessageType.pre_accept_ok
    → IsWire m
    → message_from_table m0 (table_of m) ≡ ok (Decoded.decoded (header m0 m))
unfolding read_data
pre_accept_ok-carries_nothing m m0 e w =
    table_of_steps m m0 w
    ∙ ap (λ t. read_data t (header m0 m) (write_data t m) >>= λ m'. ok (Decoded.decoded m')) e

same_data :
    (m m0 : Message) (t : MessageType)
    → t ≢ MessageType.pre_accept_ok
    → read_data t m0 (write_data t m)
      ≡ instance_data_from_buffer m0 (some (instance_data_to_buffer m))
unfolding read_data write_data
same_data m m0 MessageType.phase1 n = refl
same_data m m0 MessageType.pre_accept n = refl
same_data m m0 MessageType.pre_accept_ok n = absurd (n refl)
same_data m m0 MessageType.pre_accept_reply n = refl
same_data m m0 MessageType.accept n = refl
same_data m m0 MessageType.accept_reply n = refl
same_data m m0 MessageType.commit n = refl
same_data m m0 MessageType.prepare n = refl
same_data m m0 MessageType.prepare_reply n = refl
same_data m m0 MessageType.try_pre_accept n = refl
same_data m m0 MessageType.try_pre_accept_reply n = refl
same_data m m0 MessageType.execute n = refl

-- The dependencies `xs` of a message, at most `N`, and behind them those of the first replica or
-- of none.
pub record IsSendable (m : Message) (xs zs : List Dependency) : Type 0 where
  pub wire : IsWire m
  pub deps : m.deps ≡ xs ++ zs
  pub few : length xs ≤ n_replicas
  pub sent : All IsSent xs
  pub unsent : All IsUnsent zs

instance_data_steps :
    (h : Message) (buffer : InstanceData) (c c1 : Command)
    → h.command ≡ some c
    → command_from_buffer c buffer ≡ ok (true, c1)
    → instance_data_from_buffer h (some buffer)
      ≡ ok (record h {
        command = some c1;
        seq = buffer.seq;
        deps = read_deps n_replicas 0 buffer.deps h.deps;
      })
unfolding instance_data_from_buffer
instance_data_steps h buffer c c1 e f = ground arith

-- what is received of the ranges `xs`, in place of the command `c0`
abbrev pub command_over : Command → Command → List Span → Command
command_over c c0 xs = record {
  spans = xs ++ drop (length xs) c0.spans;
  tx_size = c.tx_size;
  id = c.id;
  writing = c.writing;
}

module _ (m m0 : Message) (ds zs : List Dependency) (q : IsSendable m ds zs) where
  deps_back :
      length ds ≤ length m0.deps
      → read_deps n_replicas 0 (instance_data_to_buffer m).deps m0.deps
        ≡ ds ++ drop (length ds) m0.deps
  unfolding instance_data_to_buffer
  deps_back h =
      ap (λ t. read_deps n_replicas 0 (write_deps t) m0.deps) q.deps
      ∙ ap (λ t. read_deps n_replicas 0 t m0.deps) (write_deps-sent ds zs q.sent q.unsent)
      ∙ read_deps-middle n_replicas [] ds m0.deps q.few h

  data_back :
      (c c0 : Command) (xs ys : List Span)
      → IsPacked c xs ys
      → c.id < 256
      → length c0.spans ≡ max_tx
      → length ds ≤ length m0.deps
      → m.command ≡ some c
      → m0.command ≡ some c0
      → instance_data_from_buffer (header m0 m) (some (instance_data_to_buffer m))
        ≡ ok (record (header m0 m) {
          command = some (command_over c c0 xs);
          seq = m.seq;
          deps = ds ++ drop (length ds) m0.deps;
        })
  unfolding instance_data_to_buffer
  data_back c c0 xs ys p small l h e e0 =
      instance_data_steps (header m0 m) (instance_data_to_buffer m) c0 (command_over c c0 xs) e0 (
        command_from_buffer-command_to_buffer c c0 xs ys (instance_data_to_buffer m) p small l
          (ap write_command e))
      ∙ ap
          (λ (t : List Dependency).
            ok (record (header m0 m) {
              command = some (command_over c c0 xs);
              seq = m.seq;
              deps = t;
            }))
          (deps_back h)

-- A message other than a PRE_ACCEPT_OK is received with the type, the numbers, the state, the
-- command and the dependencies it was sent with, when it has a command whose first ranges, and no
-- others, are not empty, its dependencies of other replicas than the first stand before the others
-- and are at most `N`, and its numbers fit the schema. Behind the ranges and the dependencies that
-- were sent are the old ones, and a `start` or a `stop` of 0 leaves the old one too.
pub message_from_table-table_of :
    (m m0 : Message) (ds zs : List Dependency) (c c0 : Command) (xs ys : List Span)
    → m.type ≢ MessageType.pre_accept_ok
    → IsSendable m ds zs
    → IsPacked c xs ys
    → c.id < 256
    → length c0.spans ≡ max_tx
    → length ds ≤ length m0.deps
    → m.command ≡ some c
    → m0.command ≡ some c0
    → message_from_table m0 (table_of m)
      ≡ ok (
          Decoded.decoded (record (header m0 m) {
            command = some (command_over c c0 xs);
            seq = m.seq;
            deps = ds ++ drop (length ds) m0.deps;
          }))
message_from_table-table_of m m0 ds zs c c0 xs ys n q p small l h e e0 =
    table_of_steps m m0 q.wire
    ∙ ap (λ r. r >>= λ m'. ok (Decoded.decoded m'))
        (same_data m (header m0 m) m.type n ∙ data_back m m0 ds zs q c c0 xs ys p small l h e e0)
