-- ===== src/NodeIo/Serve.antt =====
-- src/io.c: the threads of a connection, which receive messages for the replica and send those of
-- its channel.
use epx_c.Base.{
  ℕ, zero, suc, Bool, true, false, Option, none, some, List, if◌then◌else◌, Outcome, ok, fault,
  null_deref, ◌>>=◌,
}
use epx_c.Message.{Message}
use epx_c.Message.Codec.{destroy_message}
use epx_c.Command.{Command}
use epx_c.Channel.{CkRing, Chan, chan_send_mpsc, chan_recv_spsc}
use epx_c.Socket.{
  Bsock, Codec, FbsSock, Sent, Received, received, reset_error, pipe_error, receive_error,
  decode_error, fbs_sock_msendl, fbs_sock_mrecvl,
}
use epx_c.NodeIo.{ConnectionStatus}
use epx_c.NodeIo.Clients.{Client, ClientTrees, is_client, register_all}

-- a connection's socket: the wires to the other end and from it
pub record Line (b : Bsock) : Type 0 where
  pub status : ConnectionStatus
  pub fbs : FbsSock
  pub to_end : b.Wire
  pub from_end : b.Wire

abbrev pub is_sent : Sent → Bool
is_sent Sent.sent = true
is_sent _ = false

-- a message of at least one byte
abbrev pub message_of : Received Message → Option Message
message_of (received zero m) = none
message_of (received (suc sz) m) = some m
message_of reset_error = none
message_of pipe_error = none
message_of receive_error = none
message_of (decode_error m) = none

module _ (b : Bsock) (c : Codec Message) where
  -- Whether the message was sent, what is left of it, and the connection.
  unfoldable pub write_message : List ℕ → Line b → Message → Bool × Option Message × Line b
  write_message garbage l m =
      let (ret, fbs, wire) = fbs_sock_msendl b c l.fbs garbage m l.to_end in
      let l' = record l { fbs = fbs; to_end = wire } in
      if is_sent ret
      then (true, destroy_message m, l')
      else (false, destroy_message m, record l' { status = ConnectionStatus.dead })

  -- None where the message is freed.
  unfoldable pub read_message : Line b → Message → Option Message × Line b
  read_message l m =
      let (s, fbs, wire) = fbs_sock_mrecvl b c l.fbs m l.from_end in
      (message_of s, record l { fbs = fbs; from_end = wire })

  -- One round of `reader`, on the memory `memory`: whether the loop goes on.
  unfoldable pub reader :
      {x : CkRing} → List ℕ → Line b → (ℕ → Message) → Chan x → Bool × Line b × Chan x
  reader garbage l memory chan_read =
      let (found, chan_read') = chan_recv_spsc chan_read in
      elim found [
        | none ↦ (true, l, chan_read')
        | some p ↦ let (done, _, l') = write_message garbage l (memory p) in (done, l', chan_read')
      ]

-- `new_message`, whose two allocations give a message and a command of any content
unfoldable pub new_message : Option Message → Option Command → Option Message
new_message none cmd = none
new_message (some msg) none = none
new_message (some msg) (some cmd) = some (record msg { command = some cmd; ref = 1 })

-- what a round of `writer` does with a message after it is read: registers a client's ranges
unfoldable pub registered :
    (t : ClientTrees) → List Client → Client → Message → t.ClientTree → Outcome t.ClientTree
registered t garbage client m clients = elim (is_client client) [
  | false ↦ ok clients
  | true ↦ elim m.command [
    | none ↦ fault null_deref
    | some cmd ↦ ok (register_all t cmd.tx_size 0 garbage cmd client clients)
  ]
]

module _ (b : Bsock) (c : Codec Message) (t : ClientTrees) {x : CkRing} where
  -- One round of `writer`, with a new message at `p`: whether the loop goes on, and the message
  -- that was read. A message for which the channel has no room is lost.
  unfoldable pub writer :
      List Client
      → Client
      → ℕ
      → ℕ
      → Option Message
      → Line b
      → t.ClientTree
      → Chan x
      → Outcome (Bool × Option Message × Line b × t.ClientTree × Chan x)
  writer garbage client xreplica_id p rcv l clients chan_write = elim rcv [
    | none ↦ ok (false, none, l, clients, chan_write)
    | some m0 ↦
        let (found, l') = read_message b c l m0 in
        elim found [
          | none ↦ ok (false, none, l', clients, chan_write)
          | some m1 ↦
              let m2 = record m1 { from = xreplica_id } in
              registered t garbage client m2 clients >>= λ clients'.
              let (_, chan_write') = chan_send_mpsc chan_write p in
              ok (true, some m2, l', clients', chan_write')
        ]
  ]
