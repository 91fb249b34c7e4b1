-- ===== src/Tests/Lives.antt =====
-- The threads of connections, at tries that succeed and at tries that do not.
use epx_c.Base.{ℕ, zero, suc, ◌≡◌, refl, Bool, none, some, [], ◌∷◌, ok}
use epx_c.NodeIo.{ConnectionStatus, NodeIo, conn_at, init_fbs, set_conn_status, connection_write}
use epx_c.NodeIo.Life.{
  Call, Life, Attempt, run_conn, run_node_fbs, new_node_connection, connect_loop, try_connect,
}
use epx_c.NodeIo.Life.Tries.{IsTried, try_connect_lem, try_connect_gives_up}
use epx_c.Tests.Wires.{list_ring}
use epx_c.Tests.Letters.{peer, first_node}

-- a connection that another node made, at the descriptor 5, with a message in its channel
abbrev incoming : Life list_ring
incoming = record {
  conn = record (peer 1) {
    status = ConnectionStatus.connecting;
    fd = 5;
    chan_read = record { ring = (2048, 7 ∷ []); c_sem = 0; s_sem = 0 };
  };
  prot_handle = none;
  handle = none;
  calls = [];
}

-- The second try succeeds; the message that is then sent fails.
abbrev second_time : ℕ → Attempt list_ring
second_time zero = record { prot = some 3; attached = none; started = λ c. c; served = λ c. c }
second_time (suc n) = record {
  prot = some 3;
  attached = some (4, 2);
  started = λ c. c;
  served = λ c. set_conn_status c ConnectionStatus.dead;
}

abbrev never : ℕ → Attempt list_ring
never n = record { prot = some 3; attached = none; started = λ c. c; served = λ c. c }

-- The second try takes the descriptor that the first has closed.
second_time-calls :
    (try_connect second_time incoming).1.calls
    ≡ Call.wait
      ∷ Call.start
      ∷ Call.attach (some 3)
      ∷ Call.from_fd 5
      ∷ Call.sleep 1
      ∷ Call.close_fd 5
      ∷ Call.attach (some 3)
      ∷ Call.from_fd 5
      ∷ []
unfolding try_connect connect_loop new_node_connection run_node_fbs run_conn init_fbs
    set_conn_status
second_time-calls = refl

try_connect_lem_example :
    IsTried ConnectionStatus.connecting (some (second_time 1, 2)) (try_connect second_time incoming)
try_connect_lem_example = try_connect_lem list_ring second_time incoming

abbrev left_alone : NodeIo list_ring
unfolding try_connect connect_loop new_node_connection run_node_fbs run_conn init_fbs
    set_conn_status
left_alone = record first_node {
  chan_nodes = (try_connect never incoming).1.conn ∷ peer 1 ∷ peer 2 ∷ [];
}

left_alone-conn :
    conn_at (left_alone.memory 8).to left_alone.chan_nodes ≡ ok (try_connect never incoming).1.conn
unfolding left_alone conn_at
left_alone-conn = refl

try_connect_gives_up_example :
    ((try_connect never incoming).1.conn.status ≡ ConnectionStatus.connecting)
    × ((done : Bool) × (n' : NodeIo list_ring) × (connection_write left_alone 8 ≡ ok (done, n'))
        × (n'.calls ≡ left_alone.calls))
try_connect_gives_up_example =
    try_connect_gives_up list_ring never incoming left_alone 8 refl refl left_alone-conn
