-- ===== src/NodeIo.antt =====
-- src/io.h, src/io.c and `enum connection_status` of src/sync.h: the connections of a node. A
-- message is a pointer, a number; the memory it points to is a function.
pub mod Broadcast
pub mod Serve
pub mod Clients
pub mod Rooms
pub mod Reach
pub mod Targets
pub mod Quorum
pub mod Merge
pub mod Start
pub mod Life
pub mod Delivery
use epx_c.Base.{
  ℕ, zero, suc, ◌+◌, ◌<◌, Bool, true, false, Option, none, some, List, [], ◌∷◌, get_or, set, ltb,
  leb, ◌==◌, ◌&&◌, if◌then◌else◌, length, Outcome, ok, fault, out_of_bounds, ◌>>=◌,
}
use epx_c.Epx.{n_replicas}
use epx_c.Message.{Message}
use epx_c.Channel.{CkRing, Chan, chan_init, chan_send_spsc}

-- `enum connection_status`
pub data ConnectionStatus : Type 0 where
  dead connecting alive : ConnectionStatus

abbrev pub status_value : ConnectionStatus → ℕ
status_value ConnectionStatus.dead = 0
status_value ConnectionStatus.connecting = 1
status_value ConnectionStatus.alive = 2

-- `MAX_LATENCY`
abbrev pub max_latency : ℕ
max_latency = 60

-- `struct connection`, to a node; an address is a number.
pub record Connection (x : CkRing) : Type 0 where
  pub status : ConnectionStatus
  pub xreplica_id : ℕ
  pub fd : ℕ
  pub latency : ℕ
  pub addr : ℕ
  pub back_off : ℕ
  pub error : ℕ
  pub chan_read : Chan x

-- the calls of the thread library, with the index of the connection
pub data ThreadCall : Type 0 where
  cancel create : ℕ → ThreadCall

-- `calls` has the newest first.
pub record NodeIo (x : CkRing) : Type 0 where
  pub node_id : ℕ
  pub running : Bool
  pub chan_nodes : List (Connection x)
  pub quorum : List ℕ
  pub memory : ℕ → Message
  pub calls : List ThreadCall

module _ {x : CkRing} where
  unfoldable pub is_conn_status : Connection x → ConnectionStatus → Bool
  is_conn_status c t = status_value c.status == status_value t

  unfoldable pub set_conn_status : Connection x → ConnectionStatus → Connection x
  set_conn_status c t = record c { status = t }

  -- an array of `N` connections, the second argument, at `i`
  unfoldable pub conn_at : ℕ → List (Connection x) → Outcome (Connection x)
  conn_at i [] = fault out_of_bounds
  conn_at zero (c ∷ cs) = ok c
  conn_at (suc i) (c ∷ cs) = conn_at i cs

  unfoldable pub slow : Connection x → Bool
  slow c = leb max_latency c.latency

  -- the fields of the model's `Connection` that `init_fbs` sets
  unfoldable pub init_fbs : Connection x → Connection x
  init_fbs c = record c { latency = 0; back_off = 1; chan_read = chan_init c.chan_read }

  -- the index of the first connection with the address
  unfoldable pub get_conn : ℕ → List (Connection x) → ℕ → Option ℕ
  get_conn i [] addr = none
  get_conn i (c ∷ cs) addr =
      let rest = get_conn (suc i) cs addr in if c.addr == addr then some i else rest

  -- a write of the connection at `i`
  abbrev pub set_conn : ℕ → Connection x → NodeIo x → NodeIo x
  set_conn i c n = record n { chan_nodes = set n.chan_nodes i c }

  -- `created` is the outcome of `pthread_create`; the result is -1 or that outcome.
  unfoldable pub node_connect : NodeIo x → ℕ → ℕ → Bool → Outcome (Bool × NodeIo x)
  node_connect n addr fd created = elim (get_conn 0 n.chan_nodes addr) [
    | none ↦ ok (false, n)
    | some i ↦ conn_at i n.chan_nodes >>= λ c.
        let calls =
          if is_conn_status c ConnectionStatus.dead
          then n.calls
          else ThreadCall.cancel i ∷ n.calls in
        let c' = record (set_conn_status c ConnectionStatus.connecting) { fd = fd } in
        ok (created, set_conn i c' (record n { calls = ThreadCall.create i ∷ calls }))
  ]

  -- a write of the message that `p` points to
  abbrev pub put_message : ℕ → Message → NodeIo x → NodeIo x
  put_message p m n = record n { memory = λ q. if q == p then m else n.memory q }

  abbrev pub set_to : ℕ → ℕ → NodeIo x → NodeIo x
  set_to p to n = put_message p (record (n.memory p) { to = to }) n

  -- The outcome of the thread's creation is not looked at.
  unfoldable pub connection_write : NodeIo x → ℕ → Outcome (Bool × NodeIo x)
  connection_write n p =
      let to = (n.memory p).to in
      conn_at to n.chan_nodes >>= λ c.
      let (done, chan_read) = chan_send_spsc c.chan_read p in
      let n' = set_conn to (record c { chan_read = chan_read }) n in
      elim done [
        | false ↦ ok (false, n')
        | true ↦ elim (is_conn_status c ConnectionStatus.dead) [
          | false ↦ ok (true, n')
          | true ↦ node_connect n' c.addr 0 true >>= λ (_, n2). ok (true, n2)
        ]
      ]
