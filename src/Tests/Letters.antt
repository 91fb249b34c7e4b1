-- ===== src/Tests/Letters.antt =====
-- Messages and commands that are encoded and decoded, and a node that broadcasts.
use Prim.Native.Nat.{Ordering}
use epx_c.Base.{
  ℕ, zero, suc, ◌<◌, ◌≡◌, ◌≢◌, refl, ◌⊎◌, true, some, [], ◌∷◌, All, replicate, length-replicate, ok,
  fault, out_of_bounds, arith, none, Outcome, ap, List,
}
use epx_c.InstanceId.{Dependency}
use epx_c.Command.{Span, Command, Io, zero_span, empty_range}
use epx_c.Command.RoundTrip.{IsFull, IsPacked}
use epx_c.Message.{MessageType, Message}
use epx_c.Message.Codec.{Decoded, message_from_table, table_of}
use epx_c.Message.Fields.{header}
use epx_c.Message.RoundTrip.{
  command_over, IsSendable, pre_accept_ok-carries_nothing, message_from_table-table_of,
}
use epx_c.Instance.Deps.{zero_dep}
use epx_c.NodeIo.{ConnectionStatus, Connection, NodeIo}
use epx_c.NodeIo.Broadcast.{broadcast_prepare, broadcast_try_pre_accept, broadcast_by_type}
use epx_c.NodeIo.Reach.{IsServing}
use epx_c.NodeIo.Quorum.{first_only}
use epx_c.NodeIo.Targets.{
  Reaches, broadcast_prepare-others, broadcast_try_pre_accept-first, broadcast_by_type-first_only,
}
use epx_c.Tests.Handlers.{letter}
use epx_c.NodeIo.Serve.{Line, write_message, read_message}
use epx_c.NodeIo.Delivery.{IsInstalled, IsDeliverable, delivered, read_message-write_message}
use epx_c.Tests.Wires.{list_stream, list_stream_laws, end_of, garbage_header}
use epx_c.Schema.{Flatcc}
use epx_c.Socket.{Codec, fbs_sock_msendl}
use epx_c.Message.Codec.{message_to_buffer, message_from_buffer}
use epx_c.Tests.Wires.{list_ring, list_ring_laws}

abbrev range_a : Span
range_a = record { start_key = 97 ∷ []; end_key = 98 ∷ [] }

abbrev put_one : Command
put_one = record {
  spans = range_a ∷ replicate 99 zero_span;
  tx_size = 1;
  id = 7;
  writing = Io.write;
}

abbrev no_command : Command
no_command = record { spans = replicate 100 zero_span; tx_size = 0; id = 0; writing = Io.read }

all_empty : (n : ℕ) → All (λ s. empty_range s ≡ true) (replicate n zero_span)
unfolding empty_range
all_empty zero = tt
all_empty (suc n) = (refl, all_empty n)

range_a-IsFull : IsFull range_a
unfolding empty_range
range_a-IsFull = (refl, omega arith, omega arith)

put_one-IsPacked : IsPacked put_one (range_a ∷ []) (replicate 99 zero_span)
put_one-IsPacked = record {
  spans = refl;
  size = omega (arith, length-replicate 99 zero_span);
  count = refl;
  full = (range_a-IsFull, tt);
  empty = all_empty 99;
}

-- a message that new memory holds
abbrev blank : Message
blank = record (letter MessageType.phase1 0) { command = some no_command; seq = 0 }

abbrev agreement : Message
agreement = letter MessageType.pre_accept_ok 16

pre_accept_ok-carries_nothing_example :
    message_from_table blank (table_of agreement) ≡ ok (Decoded.decoded (header blank agreement))
pre_accept_ok-carries_nothing_example =
    pre_accept_ok-carries_nothing agreement blank refl (omega arith, omega arith, omega arith)

-- it depends on an instance of the second replica
abbrev late : Dependency
late = record { id = record { replica_id = 1; instance_id = 4 }; committed = 1 }

abbrev request : Message
request = record (letter MessageType.accept 16) {
  command = some put_one;
  deps = late ∷ replicate 7 zero_dep;
}

request-IsSendable : IsSendable request (late ∷ []) (replicate 7 zero_dep)
request-IsSendable = record {
  wire = (omega arith, omega arith, omega arith);
  deps = refl;
  few = omega arith;
  sent = ((omega arith, omega arith), tt);
  unsent = (refl, (refl, (refl, (refl, (refl, (refl, (refl, tt)))))));
}

accept_other : MessageType.accept ≢ MessageType.pre_accept_ok
accept_other = λ e. ground arith

message_from_table-table_of_example :
    message_from_table blank (table_of request)
    ≡ ok (
        Decoded.decoded (record (header blank request) {
          command = some (command_over put_one no_command (range_a ∷ []));
          seq = 3;
          deps = late ∷ replicate 7 zero_dep;
        }))
message_from_table-table_of_example =
    message_from_table-table_of request blank (late ∷ []) (replicate 7 zero_dep) put_one no_command
      (range_a ∷ []) (replicate 99 zero_span) accept_other request-IsSendable put_one-IsPacked
      (omega arith) (length-replicate 100 zero_span) (omega arith) refl refl

-- tables with the sender and the target of any message, and the rest of the request's
abbrev two_fields : Flatcc
two_fields = record {
  build = λ t. t.to ∷ t.from ∷ [];
  root = λ bytes. elim bytes [
    | [] ↦ none
    | to ∷ rest ↦ elim rest [
      | [] ↦ none
      | from ∷ more ↦ some (record (table_of request) { to = to; from = from })
    ]
  ];
}

abbrev outcome_of : Message → Outcome Decoded → Ordering × Message
outcome_of m (ok (Decoded.decoded m')) = (Ordering.eq, m')
outcome_of m (ok (Decoded.malformed m')) = (Ordering.gt, m')
outcome_of m (ok Decoded.no_enumerator) = (Ordering.gt, m)
outcome_of m (fault f) = (Ordering.gt, m)

abbrev letter_codec : Codec Message
letter_codec = record {
  encode = message_to_buffer two_fields;
  decode = λ m bytes. outcome_of m (message_from_buffer two_fields m bytes);
}

letter_codec-IsInstalled : IsInstalled two_fields letter_codec
letter_codec-IsInstalled = record {
  encode_is = λ m. refl;
  decode_is = λ m m' bytes h. ap (outcome_of m) h;
}

abbrev sending : Line list_stream
sending = record { status = ConnectionStatus.alive; fbs = end_of; to_end = []; from_end = [] }

abbrev receiving : Line list_stream
receiving = record sending {
  from_end = (write_message list_stream letter_codec garbage_header sending request).2.to_end;
}

request-IsDeliverable :
    IsDeliverable two_fields letter_codec end_of request
      (late ∷ [])
      (replicate 7 zero_dep)
      put_one
      (range_a ∷ [])
      (replicate 99 zero_span)
unfolding message_to_buffer table_of
request-IsDeliverable = record {
  kind = accept_other;
  sendable = request-IsSendable;
  packed = put_one-IsPacked;
  small = omega arith;
  has_command = refl;
  built = refl;
  some_bytes = omega arith;
  fits = omega arith;
  counted = omega arith;
}

request-sent : (write_message list_stream letter_codec garbage_header sending request).0 ≡ true
unfolding write_message fbs_sock_msendl
request-sent = refl

read_message-write_message_example :
    (u : List ℕ) × (read_message list_stream letter_codec receiving blank ≡ (
      some (delivered request blank (late ∷ []) put_one no_command (range_a ∷ [])),
      record receiving { from_end = u },
    ))
    × (u ≡ [])
read_message-write_message_example =
    read_message-write_message list_stream list_stream_laws two_fields letter_codec garbage_header
      sending receiving request blank (late ∷ []) (replicate 7 zero_dep) put_one no_command
      (range_a ∷ []) (replicate 99 zero_span) letter_codec-IsInstalled
      (record { same_length = refl; same_order = refl; can_receive = (refl, refl) }) refl refl
      request-IsDeliverable (length-replicate 100 zero_span) (omega arith) refl request-sent refl

abbrev pub peer : ℕ → Connection list_ring
peer id = record {
  status = ConnectionStatus.alive;
  xreplica_id = id;
  fd = 0;
  latency = 0;
  addr = id;
  back_off = 1;
  error = 0;
  chan_read = record { ring = (2048, []); c_sem = 0; s_sem = 0 };
}

abbrev pub first_node : NodeIo list_ring
first_node = record {
  node_id = 0;
  running = true;
  chan_nodes = peer 0 ∷ peer 1 ∷ peer 2 ∷ [];
  quorum = first_only;
  memory = λ p. blank;
  calls = [];
}

serving : (k : ℕ) → k < 100 → IsServing list_ring_laws k ([] ∷ [] ∷ [] ∷ []) first_node
serving k h = record {
  queues_are = refl;
  room = (omega arith, (omega arith, (omega arith, tt)));
  count = refl;
}

broadcast_prepare-others_example :
    Reaches list_ring_laws
      ([] ∷ (8 ∷ []) ∷ (8 ∷ []) ∷ [])
      first_node
      (broadcast_prepare first_node 8)
broadcast_prepare-others_example =
    broadcast_prepare-others list_ring_laws first_node 0 8 [] [] [] refl (omega arith)
      (serving 2 (omega arith))

broadcast_try_pre_accept-first_example :
    Reaches list_ring_laws
      ((8 ∷ []) ∷ (8 ∷ []) ∷ [] ∷ [])
      first_node
      (broadcast_try_pre_accept first_node 8)
broadcast_try_pre_accept-first_example =
    broadcast_try_pre_accept-first list_ring_laws first_node 8 [] [] [] (serving 2 (omega arith))

broadcast_by_type-first_only_example :
    ((broadcast_by_type MessageType.accept first_node 8 ≡ fault out_of_bounds)
      ⊎ Reaches list_ring_laws
          ((8 ∷ 8 ∷ []) ∷ [] ∷ [] ∷ [])
          first_node
          (broadcast_by_type MessageType.accept first_node 8))
    × Reaches list_ring_laws
        ((8 ∷ 8 ∷ 8 ∷ []) ∷ [] ∷ [] ∷ [])
        first_node
        (broadcast_by_type MessageType.commit first_node 8)
broadcast_by_type-first_only_example =
    broadcast_by_type-first_only list_ring_laws first_node 8 [] [] [] refl (serving 3 (omega arith))
