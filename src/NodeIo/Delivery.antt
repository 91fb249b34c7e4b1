-- ===== src/NodeIo/Delivery.antt =====
-- A message from the `reader` of one node's connection to the `writer` of the other's: src/io.c with
-- the framing of src/fbs_sock.c and the codec of src/message.c, which `init_fbs` installs.
use Prim.Native.Nat.{Ordering}
use epx_c.Base.{
  ℕ, zero, suc, ◌^◌, ◌≤◌, ◌<◌, ◌≡◌, refl, ◌≢◌, inl, inr, true, none, some, List, [], ◌++◌, drop,
  length, Bool-cases, arith, sym, ◌∙◌, ap, ok,
}
use epx_c.Epx.{max_tx}
use epx_c.InstanceId.{Dependency}
use epx_c.Command.{Command, Span}
use epx_c.Command.RoundTrip.{IsPacked}
use epx_c.Schema.{Flatcc, MessageTable}
use epx_c.Message.{Message, MessageType}
use epx_c.Message.Codec.{
  Decoded, table_of, message_from_table, message_to_buffer, message_from_buffer,
}
use epx_c.Message.Fields.{header}
use epx_c.Message.RoundTrip.{IsSendable, command_over, message_from_table-table_of}
use epx_c.Socket.{Bsock, Codec, FbsSock, Sent, Received, fbs_sock_msendl, fbs_sock_mrecvl}
use epx_c.Socket.Stream.{BsockLaws, IsPair, receive-send}
use epx_c.NodeIo.Serve.{Line, is_sent, write_message, read_message}

-- The codec's functions are `message_to_buffer` and `message_from_buffer`, which returns 0 where it
-- has read a message.
pub record IsInstalled (f : Flatcc) (c : Codec Message) : Type 0 where
  pub encode_is : (m : Message) → c.encode m ≡ message_to_buffer f m
  pub decode_is :
      (m m' : Message) (buffer : List ℕ)
      → message_from_buffer f m buffer ≡ ok (Decoded.decoded m')
      → c.decode m buffer ≡ (Ordering.eq, m')

is_sent-sent : (r : Sent) → is_sent r ≡ true → r ≡ Sent.sent
is_sent-sent Sent.sent h = refl
is_sent-sent Sent.reset_error h = absurd (ground arith)
is_sent-sent Sent.pipe_error h = absurd (ground arith)
is_sent-sent Sent.send_error h = absurd (ground arith)

module _ (b : Bsock) (c : Codec Message) (garbage : List ℕ) (l : Line b) (m : Message) where
  write_result :
      (write_message b c garbage l m).0 ≡ is_sent (fbs_sock_msendl b c l.fbs garbage m l.to_end).0
  unfolding write_message
  write_result = elim (Bool-cases (is_sent (fbs_sock_msendl b c l.fbs garbage m l.to_end).0)) [
    | inl q ↦ rw q refl
    | inr q ↦ rw q refl
  ]

  write_wire :
      (write_message b c garbage l m).2.to_end ≡ (fbs_sock_msendl b c l.fbs garbage m l.to_end).2
  unfolding write_message
  write_wire = elim (Bool-cases (is_sent (fbs_sock_msendl b c l.fbs garbage m l.to_end).0)) [
    | inl q ↦ rw q refl
    | inr q ↦ rw q refl
  ]

  sent_step :
      (write_message b c garbage l m).0 ≡ true
      → fbs_sock_msendl b c l.fbs garbage m l.to_end ≡ (
        Sent.sent,
        (fbs_sock_msendl b c l.fbs garbage m l.to_end).1,
        (write_message b c garbage l m).2.to_end,
      )
  sent_step h =
      rw
        (
          write_wire,
          ← is_sent-sent (fbs_sock_msendl b c l.fbs garbage m l.to_end).0 (sym write_result ∙ h),
        )
        refl

read_step :
    (b : Bsock) (c : Codec Message) (r : Line b) (m0 m : Message) (n : ℕ) (u : b.Wire)
    → 0 < n
    → fbs_sock_mrecvl b c r.fbs m0 r.from_end ≡ (Received.received n m, r.fbs, u)
    → read_message b c r m0 ≡ (some m, record r { from_end = u })
unfolding read_message
read_step b c r m0 m zero u l e = absurd (omega arith)
read_step b c r m0 m (suc n) u l e = rw e refl

from_root :
    (f : Flatcc) (m0 : Message) (buffer : List ℕ) (t : MessageTable)
    → f.root buffer ≡ some t
    → message_from_buffer f m0 buffer ≡ message_from_table m0 t
unfolding message_from_buffer
from_root f m0 buffer t h =
    ap (λ o. elim o [ none ↦ ok (Decoded.malformed m0) | some bm ↦ message_from_table m0 bm ]) h

decode_built :
    (f : Flatcc) (c : Codec Message) (m m0 m' : Message)
    → IsInstalled f c
    → f.root (f.build (table_of m)) ≡ some (table_of m)
    → message_from_table m0 (table_of m) ≡ ok (Decoded.decoded m')
    → c.decode m0 (c.encode m) ≡ (Ordering.eq, m')
unfolding message_to_buffer message_from_buffer
decode_built f c m m0 m' i h g =
    ap (λ bytes. c.decode m0 bytes) (i.encode_is m)
    ∙ i.decode_is m0 m' (f.build (table_of m))
        (from_root f m0 (f.build (table_of m)) (table_of m) h ∙ g)

-- what can be sent of a message `m`, in an encoding that fits the header of the connection
pub record IsDeliverable (f : Flatcc) (c : Codec Message) (l : FbsSock) (m : Message)
    (ds zs : List Dependency) (cmd : Command) (xs ys : List Span) : Type 0 where
  pub kind : m.type ≢ MessageType.pre_accept_ok
  pub sendable : IsSendable m ds zs
  pub packed : IsPacked cmd xs ys
  pub small : cmd.id < 256
  pub has_command : m.command ≡ some cmd
  pub built : f.root (f.build (table_of m)) ≡ some (table_of m)
  pub some_bytes : 0 < length (c.encode m)
  pub fits : length (c.encode m) < 256 ^ l.hdrlen
  pub counted : length (c.encode m) < 2 ^ 64

-- the message that new memory `m0` with a command `c0` holds after `m` is read into it
abbrev pub delivered : Message → Message → List Dependency → Command → Command → List Span → Message
delivered m m0 ds cmd c0 xs = record (header m0 m) {
  command = some (command_over cmd c0 xs);
  seq = m.seq;
  deps = ds ++ drop (length ds) m0.deps;
}

-- Over a stream that is empty, in time and in order: a message other than a PRE_ACCEPT_OK that
-- `write_message` sends at one end of a connection is what `read_message` gives at the other, with
-- its type, its numbers, its state, its command and its dependencies, and the stream is empty
-- again. Its table is one that flatcc reads as it was built; its encoding is not empty and its
-- length fits the header; its command has ranges that are not empty before those that are; its
-- dependencies of other replicas than the first stand before the others and are at most `N`; and
-- its numbers fit the schema.
pub read_message-write_message :
    (b : Bsock) (laws : BsockLaws b) (f : Flatcc) (c : Codec Message) (garbage : List ℕ)
    (l r : Line b) (m m0 : Message) (ds zs : List Dependency) (cmd c0 : Command) (xs ys : List Span)
    → IsInstalled f c
    → IsPair l.fbs r.fbs
    → length garbage ≡ l.fbs.hdrlen
    → laws.pending l.to_end ≡ []
    → IsDeliverable f c l.fbs m ds zs cmd xs ys
    → length c0.spans ≡ max_tx
    → length ds ≤ length m0.deps
    → m0.command ≡ some c0
    → (write_message b c garbage l m).0 ≡ true
    → r.from_end ≡ (write_message b c garbage l m).2.to_end
    → (u : b.Wire) × (read_message b c r m0
        ≡ (some (delivered m m0 ds cmd c0 xs), record r { from_end = u }))
      × (laws.pending u ≡ [])
read_message-write_message b laws f c garbage l r m m0 ds zs cmd c0 xs ys i pair g empty d n k e0 w
      at =
    let (u, got, rest) =
      receive-send b laws Message c l.fbs (fbs_sock_msendl b c l.fbs garbage m l.to_end).1 r.fbs
        garbage m0 m (delivered m m0 ds cmd c0 xs) l.to_end (write_message b c garbage l m).2.to_end
        pair g d.fits d.counted empty (sent_step b c garbage l m w)
        (decode_built f c m m0 (delivered m m0 ds cmd c0 xs) i d.built (
          message_from_table-table_of m m0 ds zs cmd c0 xs ys d.kind d.sendable d.packed d.small n k
            d.has_command e0)) in
    (
      u,
      read_step b c r m0 (delivered m m0 ds cmd c0 xs) (length (c.encode m)) u d.some_bytes
          (ap (λ v. fbs_sock_mrecvl b c r.fbs m0 v) at ∙ got),
      rest,
    )
