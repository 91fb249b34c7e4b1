-- ===== src/NodeIo/Rooms.antt =====
-- `connection_write` and `node_connect` of src/io.c, for the rings of the connections.
use epx_c.Base.{
  ℕ, zero, suc, ◌+◌, ◌<◌, ◌≡◌, refl, sym, ap, ◌∙◌, Bool, true, false, Option, none, some, List, [],
  ◌∷◌, get_or, set, length, length-set, ok, if◌then◌else◌, arith,
}
use epx_c.Channel.{CkRing, Kind, chan_send_spsc}
use epx_c.NodeIo.{
  ConnectionStatus, Connection, ThreadCall, NodeIo, is_conn_status, set_conn_status, conn_at,
  get_conn, set_conn, node_connect, connection_write,
}

set-same {ℓ} :
    {A : Type ℓ} (rs : List A) (i : ℕ) (r : A) → ((d : A) → get_or rs i d ≡ r) → set rs i r ≡ rs
set-same [] i r h = refl
set-same (q ∷ rs) zero r h = ap (λ q'. q' ∷ rs) (sym (h r))
set-same (q ∷ rs) (suc i) r h = ap (λ rs'. q ∷ rs') (set-same rs i r h)

module _ {x : CkRing} where
  -- the rings of the connections
  abbrev pub rings : List (Connection x) → List x.Ring
  rings [] = []
  rings (c ∷ cs) = c.chan_read.ring ∷ rings cs

  -- the connection at `i`, and that a write of it is a write of its ring
  pub conn-cases :
      (i : ℕ) (cs : List (Connection x))
      → i < length cs
      → (c : Connection x) × (conn_at i cs ≡ ok c)
        × ((d : x.Ring) → get_or (rings cs) i d ≡ c.chan_read.ring)
        × ((c' : Connection x) → rings (set cs i c') ≡ set (rings cs) i c'.chan_read.ring)
  unfolding conn_at
  conn-cases i [] h = absurd (omega arith)
  conn-cases zero (c ∷ cs) h = (c, refl, λ d. refl, λ c'. refl)
  conn-cases (suc i) (c ∷ cs) h =
      let (b, e, f, g) = conn-cases i cs (omega arith) in
      (b, e, f, λ c'. ap (λ rs. c.chan_read.ring ∷ rs) (g c'))

  get_conn-bound :
      (k : ℕ) (cs : List (Connection x)) (addr : ℕ) {i : ℕ}
      → get_conn k cs addr ≡ some i
      → i < k + length cs
  unfolding get_conn
  get_conn-bound k [] addr e = ground arith
  get_conn-bound k (c ∷ cs) addr {i} e = ground (arith, get_conn-bound (suc k) cs addr {i = i})

  abbrev connected : NodeIo x → ℕ → Connection x → NodeIo x
  connected n i c =
      set_conn i (record c { status = ConnectionStatus.connecting; fd = 0 })
        (record n {
          calls =
              ThreadCall.create i
              ∷ (if is_conn_status c ConnectionStatus.dead
                  then n.calls
                  else ThreadCall.cancel i ∷ n.calls);
        })

  connect_steps :
      (n : NodeIo x) (addr i : ℕ) (c : Connection x)
      → get_conn 0 n.chan_nodes addr ≡ some i
      → conn_at i n.chan_nodes ≡ ok c
      → node_connect n addr 0 true ≡ ok (true, connected n i c)
  unfolding node_connect set_conn_status
  connect_steps n addr i c e f = ground arith

  connect_unknown :
      (n : NodeIo x) (addr : ℕ)
      → get_conn 0 n.chan_nodes addr ≡ none
      → node_connect n addr 0 true ≡ ok (false, n)
  unfolding node_connect
  connect_unknown n addr e = ground arith

  -- `n'` is `n` with the rings `rs`, but for what no theorem here reads
  pub record HasRings (rs : List x.Ring) (n n' : NodeIo x) : Type 0 where
    pub rings_are : rings n'.chan_nodes ≡ rs
    pub node_id : n'.node_id ≡ n.node_id
    pub quorum : n'.quorum ≡ n.quorum
    pub count : length n'.chan_nodes ≡ length n.chan_nodes

  connect_keeps :
      (n : NodeIo x) (addr : ℕ) (o : Option ℕ)
      → get_conn 0 n.chan_nodes addr ≡ o
      → (done : Bool) × (n' : NodeIo x) × (node_connect n addr 0 true ≡ ok (done, n'))
        × HasRings (rings n.chan_nodes) n n'
  connect_keeps n addr none e = (
    false,
    n,
    connect_unknown n addr e,
    record { rings_are = refl; node_id = refl; quorum = refl; count = refl },
  )
  connect_keeps n addr (some i) e =
      let (c, f, g, h) =
        conn-cases i n.chan_nodes (omega (arith, get_conn-bound 0 n.chan_nodes addr e)) in
      let c' : Connection x = record c { status = ConnectionStatus.connecting; fd = 0 } in
      (
        true,
        connected n i c,
        connect_steps n addr i c e f,
        record {
          rings_are = h c' ∙ set-same (rings n.chan_nodes) i c.chan_read.ring g;
          node_id = refl;
          quorum = refl;
          count = length-set n.chan_nodes i c';
        },
      )

  abbrev put_in : NodeIo x → ℕ → Connection x → x.Ring → NodeIo x
  put_in n to c r = set_conn to (record c { chan_read = record (c.chan_read) { ring = r } }) n

  write_alive :
      (n : NodeIo x) (p : ℕ) (c : Connection x) (r : x.Ring)
      → conn_at (n.memory p).to n.chan_nodes ≡ ok c
      → x.enqueue Kind.spsc c.chan_read.ring p ≡ (true, r)
      → is_conn_status c ConnectionStatus.dead ≡ false
      → connection_write n p ≡ ok (true, put_in n (n.memory p).to c r)
  unfolding connection_write chan_send_spsc
  write_alive n p c r e f g = ground arith

  write_dead :
      (n : NodeIo x) (p : ℕ) (c : Connection x) (r : x.Ring) {done : Bool} {n' : NodeIo x}
      → conn_at (n.memory p).to n.chan_nodes ≡ ok c
      → x.enqueue Kind.spsc c.chan_read.ring p ≡ (true, r)
      → is_conn_status c ConnectionStatus.dead ≡ true
      → node_connect (put_in n (n.memory p).to c r) c.addr 0 true ≡ ok (done, n')
      → connection_write n p ≡ ok (true, n')
  unfolding connection_write chan_send_spsc
  write_dead n p c r e f g h = ground arith

  put_in-HasRings :
      (n : NodeIo x) (p : ℕ) (c : Connection x) (r : x.Ring)
      → ((c' : Connection x)
          → rings (set n.chan_nodes p c') ≡ set (rings n.chan_nodes) p c'.chan_read.ring)
      → HasRings (set (rings n.chan_nodes) p r) n (put_in n p c r)
  put_in-HasRings n p c r h = record {
    rings_are = h (record c { chan_read = record (c.chan_read) { ring = r } });
    node_id = refl;
    quorum = refl;
    count = length-set n.chan_nodes p (record c { chan_read = record (c.chan_read) { ring = r } });
  }

  -- a write to a ring with room
  pub connection_write-rings :
      (n : NodeIo x) (p : ℕ) (c : Connection x) (r : x.Ring) (b : Bool)
      → conn_at (n.memory p).to n.chan_nodes ≡ ok c
      → ((c' : Connection x)
          → rings (set n.chan_nodes (n.memory p).to c')
            ≡ set (rings n.chan_nodes) (n.memory p).to c'.chan_read.ring)
      → x.enqueue Kind.spsc c.chan_read.ring p ≡ (true, r)
      → is_conn_status c ConnectionStatus.dead ≡ b
      → (n' : NodeIo x) × (connection_write n p ≡ ok (true, n'))
        × HasRings (set (rings n.chan_nodes) (n.memory p).to r) n n'
  connection_write-rings n p c r false e h f g =
      (_, write_alive n p c r e f g, put_in-HasRings n (n.memory p).to c r h)
  connection_write-rings n p c r true e h f g =
      let n1 = put_in n (n.memory p).to c r in
      let k = put_in-HasRings n (n.memory p).to c r h in
      let (done, n', w, same) = connect_keeps n1 c.addr (get_conn 0 n1.chan_nodes c.addr) refl in
      (
        n',
        write_dead n p c r e f g w,
        record {
          rings_are = same.rings_are ∙ k.rings_are;
          node_id = same.node_id;
          quorum = same.quorum;
          count = same.count ∙ k.count;
        },
      )
