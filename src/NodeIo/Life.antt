-- ===== src/NodeIo/Life.antt =====
-- src/io.c: the life of a connection, from the tries of its thread to its end. What libdill and the
-- system answer are arguments. That `chan_write` is the replica's channel is left out.
pub mod Tries
use epx_c.Base.{
  ℕ, zero, suc, ◌+◌, ◌*◌, Bool, true, false, Option, none, some, List, [], ◌∷◌, ltb, if◌then◌else◌,
}
use epx_c.Channel.{CkRing, chan_send_spsc}
use epx_c.NodeIo.{ConnectionStatus, Connection, is_conn_status, set_conn_status, init_fbs}

-- A call of the system or of libdill; a handle that is not valid is none. `start` starts the
-- coroutines `writer` and `reader`, and `wait` waits for them.
pub data Call : Type 0 where
  sleep close_fd from_fd connect : ℕ → Call
  attach hclose tcp_close : Option ℕ → Call
  close_bundle start wait : Call

-- A connection, with the handles that its thread opens. `calls` has the newest first.
pub record Life (x : CkRing) : Type 0 where
  pub conn : Connection x
  pub prot_handle : Option ℕ
  pub handle : Option ℕ
  pub calls : List Call

-- What a try meets: the handle of the protocol, if it is greater than 0; the handle of the socket
-- with the number of the other end, if the two ends exchange theirs; and what the coroutines
-- `writer` and `reader`, with those who fill the connection's channel, make of the connection:
-- `started` until they first wait, and `served` until both have ended and `bundle_wait` returns.
pub record Attempt (x : CkRing) : Type 0 where
  pub prot : Option ℕ
  pub attached : Option (ℕ × ℕ)
  pub started : Connection x → Connection x
  pub served : Connection x → Connection x

module _ {x : CkRing} where
  abbrev pub call : Call → Life x → Life x
  call k l = record l { calls = k ∷ l.calls }

  -- `if(c->fd > 0) fd_closer(c->fd)`
  abbrev close_if_open : Life x → Life x
  close_if_open l = if ltb 0 l.conn.fd then call (close_fd l.conn.fd) l else l

  unfoldable pub run_conn : Attempt x → Life x → Life x
  run_conn a l =
      call start (record l { conn = a.started (set_conn_status l.conn ConnectionStatus.alive) })

  -- the result is `false` for -1
  unfoldable pub run_node_fbs : Attempt x → Life x → Bool × Life x
  run_node_fbs a l =
      let l1 = call (attach l.prot_handle) l in
      elim a.attached [
        | none ↦
            let l2 = record l1 { handle = none } in
            if ltb 0 l.conn.fd
            then (false, call (close_fd l.conn.fd) l2)
            else (false, call (hclose none) l2)
        | some (h, remote) ↦ (
          true,
          run_conn a (record l1 { handle = some h; conn = record l.conn { xreplica_id = remote } }),
        )
      ]

  unfoldable pub new_node_connection : Attempt x → Life x → Bool × Life x
  new_node_connection a l =
      let conn = init_fbs l.conn in
      let l1 =
        call (if ltb 0 conn.fd then from_fd conn.fd else connect conn.addr)
          (record l { conn = conn; prot_handle = a.prot }) in
      elim a.prot [ none ↦ (false, l1) | some h ↦ run_node_fbs a l1 ]

  -- The loop of `try_connect`: `left` rounds may come, after `tries`. The result tells if a try
  -- succeeds.
  unfoldable pub connect_loop : (ℕ → Attempt x) → ℕ → ℕ → Life x → Bool × Life x
  connect_loop env zero tries l = (false, l)
  connect_loop env (suc left) tries l =
      let (done, l1) = new_node_connection (env tries) l in
      let rest =
        connect_loop env left (suc tries) (call (sleep (l1.conn.back_off * (tries + 1))) l1) in
      if done
      then (
        true,
        call wait (record l1 {
          conn = (env tries).served (record l1.conn { error = 0; back_off = 2; latency = 0 });
        }),
      )
      else rest

  unfoldable pub try_connect : (ℕ → Attempt x) → Life x → Bool × Life x
  try_connect env l = connect_loop env 3 0 l

  unfoldable pub destroy_node_connection : Life x → Life x
  destroy_node_connection l =
      let l1 = call (tcp_close l.prot_handle) (call (hclose l.handle) (call close_bundle l)) in
      close_if_open (record l1 { conn = set_conn_status l.conn ConnectionStatus.dead })

  -- the loop of `stop_io`
  unfoldable pub stop_nodes : List (Life x) → List (Life x)
  stop_nodes [] = []
  stop_nodes (l ∷ ls) =
      (if is_conn_status l.conn ConnectionStatus.dead then l else destroy_node_connection l)
      ∷ stop_nodes ls

  -- `in_chan` and `out_chan` are the ends of the client's channel.
  unfoldable pub destroy_client_connection : ℕ → ℕ → Life x → Life x
  destroy_client_connection in_chan out_chan l =
      let l1 = call (tcp_close l.prot_handle) (call (hclose l.handle) (call close_bundle l)) in
      let l2 = call (hclose (some out_chan)) (call (hclose (some in_chan)) l1) in
      close_if_open (record l2 { conn = set_conn_status l.conn ConnectionStatus.dead })

  -- A round of `run_client`, or its end: whether the loop goes on. `got` is what `chrecv` gives.
  unfoldable pub run_client : Bool → Option ℕ → ℕ → ℕ → Life x → Bool × Life x
  run_client false got in_chan out_chan l = (false, destroy_client_connection in_chan out_chan l)
  run_client true none in_chan out_chan l = (true, l)
  run_client true (some p) in_chan out_chan l =
      let (done, chan_read) = chan_send_spsc l.conn.chan_read p in
      let l1 = record l { conn = record l.conn { chan_read = chan_read } } in
      if done then (true, l1) else (false, destroy_client_connection in_chan out_chan l1)
