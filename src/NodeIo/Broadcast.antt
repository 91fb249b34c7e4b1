-- ===== src/NodeIo/Broadcast.antt =====
-- src/io.c: the broadcasts of a node, and what picks one for a message of the replica.
use epx_c.Base.{
  ℕ, zero, suc, ◌+◌, ◌-◌, ◌%◌, Bool, true, false, none, some, List, [], ◌∷◌, set, ltb, ◌==◌,
  if◌then◌else◌, Outcome, ok, fault, out_of_bounds, ◌>>=◌,
}
use epx_c.Epx.{n_replicas}
use epx_c.Message.{MessageType, Message}
use epx_c.Channel.{CkRing, Chan, chan_recv_spsc}
use epx_c.NodeIo.{
  ConnectionStatus, status_value, Connection, NodeIo, conn_at, put_message, set_to,
  connection_write,
}

-- `quorum[i]`
unfoldable pub quorum_at : List ℕ → ℕ → Outcome ℕ
quorum_at [] i = fault out_of_bounds
quorum_at (q ∷ quorum) zero = ok q
quorum_at (q ∷ quorum) (suc i) = quorum_at quorum i

module _ {x : CkRing} where
  -- the second half of the test: `quorum[qi -1]` of the first place is before the array
  unfoldable pub above_previous : List ℕ → List (Connection x) → Connection x → ℕ → Outcome Bool
  above_previous quorum ns c zero = fault out_of_bounds
  above_previous quorum ns c (suc qi) =
      quorum_at quorum qi >>= λ p. conn_at p ns >>= λ before. ok (ltb before.latency c.latency)

  -- the test and the write of the inner loop
  unfoldable pub update_place : List ℕ → List (Connection x) → Connection x → ℕ → Outcome (List ℕ)
  update_place quorum ns c qi = quorum_at quorum qi >>= λ q. conn_at q ns >>= λ there.
      elim (ltb c.latency there.latency) [
        | false ↦ ok quorum
        | true ↦ above_previous quorum ns c qi >>= λ above.
            ok (if above then set quorum qi c.xreplica_id else quorum)
      ]

  -- the inner loop, with `n` rounds left from `qi`
  unfoldable pub update_places :
      ℕ → ℕ → List ℕ → List (Connection x) → Connection x → Outcome (List ℕ)
  update_places zero qi quorum ns c = ok quorum
  update_places (suc n) qi quorum ns c =
      update_place quorum ns c qi >>= λ quorum'. update_places n (suc qi) quorum' ns c

  -- the outer loop
  unfoldable pub update_from : ℕ → ℕ → List ℕ → List (Connection x) → Outcome (List ℕ)
  update_from zero ci quorum ns = ok quorum
  update_from (suc n) ci quorum ns = conn_at ci ns >>= λ c.
      (if status_value c.status == status_value ConnectionStatus.alive
        then update_places n_replicas 0 quorum ns c
        else ok quorum)
      >>= λ quorum'. update_from n (suc ci) quorum' ns

  unfoldable pub update_quorum : List ℕ → List (Connection x) → Outcome (List ℕ)
  update_quorum quorum ns = update_from n_replicas 0 quorum ns

  abbrev pub set_ref : ℕ → ℕ → NodeIo x → NodeIo x
  set_ref p k n = put_message p (record (n.memory p) { ref = k }) n

  -- one round of a broadcast; a loop ends where a message is not written
  unfoldable pub write_to : ℕ → ℕ → NodeIo x → Outcome (Bool × NodeIo x)
  write_to p to n = connection_write (set_to p to n) p

  unfoldable pub prepare_loop : ℕ → ℕ → ℕ → NodeIo x → Outcome (Bool × NodeIo x)
  prepare_loop zero q p n = ok (true, n)
  prepare_loop (suc k) q p n =
      let q' = (q + 1) % n_replicas in
      elim (q' == n.node_id) [
        | true ↦ ok (true, n)
        | false ↦ write_to p q' n >>= λ (done, n'). elim done [
          | false ↦ ok (false, n')
          | true ↦ prepare_loop k q' p n'
        ]
      ]

  unfoldable pub broadcast_prepare : NodeIo x → ℕ → Outcome (Bool × NodeIo x)
  broadcast_prepare n p = prepare_loop (n_replicas - 1) n.node_id p (set_ref p (n_replicas - 1) n)

  -- the loop over the quorum, from `s`
  unfoldable pub quorum_loop : ℕ → ℕ → ℕ → NodeIo x → Outcome (Bool × NodeIo x)
  quorum_loop zero s p n = ok (true, n)
  quorum_loop (suc k) s p n = quorum_at n.quorum s >>= λ to. write_to p to n >>= λ (done, n').
      elim done [ false ↦ ok (false, n') | true ↦ quorum_loop k (suc s) p n' ]

  unfoldable pub broadcast_pre_accept : NodeIo x → ℕ → Outcome (Bool × NodeIo x)
  broadcast_pre_accept n p = quorum_loop (n_replicas - 1) 0 p (set_ref p (n_replicas - 1) n)

  unfoldable pub try_loop : ℕ → ℕ → ℕ → NodeIo x → Outcome (Bool × NodeIo x)
  try_loop zero s p n = ok (true, n)
  try_loop (suc k) s p n = write_to p s n >>= λ (done, n'). elim done [
    | false ↦ ok (false, n')
    | true ↦ try_loop k (suc s) p n'
  ]

  unfoldable pub broadcast_try_pre_accept : NodeIo x → ℕ → Outcome (Bool × NodeIo x)
  broadcast_try_pre_accept n p = try_loop (n_replicas - 1) 0 p (set_ref p (n_replicas - 1) n)

  unfoldable pub broadcast_commit : NodeIo x → ℕ → Outcome (Bool × NodeIo x)
  broadcast_commit n p = quorum_loop n_replicas 0 p (set_ref p n_replicas n)

  -- the sender of the message answers to where it came from
  abbrev pub addressed : NodeIo x → Message → Message
  addressed n m = record m { ref = 1; to = m.from; from = n.node_id }

  unfoldable pub broadcast_by_type : MessageType → NodeIo x → ℕ → Outcome (Bool × NodeIo x)
  broadcast_by_type MessageType.prepare n p = broadcast_prepare n p
  broadcast_by_type MessageType.accept n p =
      update_quorum n.quorum n.chan_nodes >>= λ q. broadcast_pre_accept (record n { quorum = q }) p
  broadcast_by_type MessageType.pre_accept n p =
      update_quorum n.quorum n.chan_nodes >>= λ q. broadcast_pre_accept (record n { quorum = q }) p
  broadcast_by_type MessageType.try_pre_accept n p = broadcast_try_pre_accept n p
  broadcast_by_type MessageType.commit n p = broadcast_commit n p
  broadcast_by_type _ n p = connection_write n p

  -- One round of `io_reader`, with its channel: whether the loop goes on.
  unfoldable pub io_reader : NodeIo x → Chan x → Outcome (Bool × NodeIo x × Chan x)
  io_reader n chan_io =
      let (found, chan_io') = chan_recv_spsc chan_io in
      elim found [
        | none ↦ ok (true, n, chan_io')
        | some p ↦
            let n' = put_message p (addressed n (n.memory p)) n in
            broadcast_by_type (n.memory p).type n' p >>= λ (done, n2). ok (done, n2, chan_io')
      ]
