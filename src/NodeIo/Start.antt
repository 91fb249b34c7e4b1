-- ===== src/NodeIo/Start.antt =====
-- src/node.c and src/sync.h: a new node.
use epx_c.Base.{
  ℕ, zero, suc, subst, ◌≡◌, refl, true, false, List, [], ◌∷◌, replicate, ◌==◌, if◌then◌else◌,
  Outcome, ok, ◌>>=◌, Ensures, Ensures-ok, Outcome-cases, inl, inr, arith,
}
use epx_c.Epx.{n_replicas}
use epx_c.Message.{Message}
use epx_c.Channel.{CkRing, Chan, chan_init}
use epx_c.NodeIo.{ConnectionStatus, Connection, NodeIo, conn_at, node_connect}
use epx_c.NodeIo.Quorum.{first_only}

-- from the replica, and to it
pub record IoSync (x : CkRing) : Type 0 where
  pub chan_eo : Chan x
  pub chan_io : Chan x
  pub chan_exec : Chan x

pub record ReplicaSync (x : CkRing) : Type 0 where
  pub chan_step : Chan x
  pub chan_propose : Chan x
  pub chan_ctl : Chan x

module _ {x : CkRing} where
  unfoldable pub init_io_sync : IoSync x → IoSync x
  init_io_sync io = record {
    chan_eo = chan_init io.chan_eo;
    chan_io = chan_init io.chan_io;
    chan_exec = chan_init io.chan_exec;
  }

  unfoldable pub init_replica_sync : ReplicaSync x → ReplicaSync x
  init_replica_sync rsync = record {
    chan_step = chan_init rsync.chan_step;
    chan_propose = chan_init rsync.chan_propose;
    chan_ctl = chan_init rsync.chan_ctl;
  }

  -- a connection of zeroed memory, at an address; `zeroed` is the memory of its channel
  abbrev blank_connection : Chan x → ℕ → Connection x
  blank_connection zeroed addr = record {
    status = ConnectionStatus.dead;
    xreplica_id = 0;
    fd = 0;
    latency = 0;
    addr = addr;
    back_off = 0;
    error = 0;
    chan_read = zeroed;
  }

  -- The loop over the addresses, of which `n` are left from `i`. `local` and `remote` are what
  -- `ipaddr_local` and `ipaddr_remote` give.
  unfoldable pub connections : ℕ → ℕ → ℕ → ℕ → (ℕ → ℕ) → Chan x → List (Connection x)
  connections zero i id local remote zeroed = []
  connections (suc n) i id local remote zeroed =
      blank_connection zeroed (if i == id then local else remote i)
      ∷ connections n (suc i) id local remote zeroed

  -- the loop over `join`; the results are not looked at
  unfoldable pub join_nodes : List ℕ → NodeIo x → Outcome (NodeIo x)
  join_nodes [] n = ok n
  join_nodes (j ∷ join) n = elim (j == 0) [
    | true ↦ join_nodes join n
    | false ↦ conn_at j n.chan_nodes >>= λ c.
        node_connect n c.addr 0 true >>= λ (_, n'). join_nodes join n'
  ]

  -- a node whose memory is allocated; the channels to and from the replica are apart
  unfoldable pub new_node : ℕ → ℕ → (ℕ → ℕ) → List ℕ → Chan x → (ℕ → Message) → Outcome (NodeIo x)
  new_node id local remote join zeroed memory = join_nodes join (record {
    node_id = id;
    running = false;
    chan_nodes = connections n_replicas 0 id local remote zeroed;
    quorum = replicate n_replicas 0;
    memory = memory;
    calls = [];
  })

  node_connect-quorum :
      (n : NodeIo x) (addr : ℕ)
      → Ensures (λ w. (w.1).quorum ≡ n.quorum) (node_connect n addr 0 true)
  unfolding node_connect
  node_connect-quorum n addr = ground arith

  join_nodes-quorum :
      (join : List ℕ) (n : NodeIo x) → Ensures (λ n'. n'.quorum ≡ n.quorum) (join_nodes join n)
  unfolding join_nodes
  join_nodes-quorum [] n = refl
  join_nodes-quorum (j ∷ join) n = elim (Outcome-cases (conn_at j n.chan_nodes)) [
    | inr (f, e) ↦ ground (arith, join_nodes-quorum join n)
    | inl (c, e) ↦ elim (Outcome-cases (node_connect n c.addr 0 true)) [
      | inr (f, g) ↦ ground (arith, join_nodes-quorum join n)
      | inl ((b, n1), g) ↦
          let kept =
            Ensures-ok (λ w. (w.1).quorum ≡ n.quorum) (node_connect n c.addr 0 true) {a = (b, n1)} g
              (node_connect-quorum n c.addr) in
          let rest =
            subst (λ q. Ensures (λ n'. n'.quorum ≡ q) (join_nodes join n1)) kept
              (join_nodes-quorum join n1) in
          ground (arith, join_nodes-quorum join n)
    ]
  ]

  -- The quorum of a new node names the first node alone.
  pub new_node-first_only :
      (id local : ℕ) (remote : ℕ → ℕ) (join : List ℕ) (zeroed : Chan x) (memory : ℕ → Message)
      → Ensures (λ n. n.quorum ≡ first_only) (new_node id local remote join zeroed memory)
  unfolding new_node
  new_node-first_only id local remote join zeroed memory = join_nodes-quorum join _
