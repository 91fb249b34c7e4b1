-- ===== src/NodeIo/Life/Tries.antt =====
-- `try_connect` of src/io.c: what it leaves, whatever its tries meet.
use epx_c.Base.{
  ℕ, zero, suc, ◌+◌, ◌*◌, subst, sym, ltb, ◌≡◌, refl, inl, inr, Bool, true, false, Option, none,
  some, Option-cases, Bool-cases, arith, ◌∙◌, ap, ok,
}
use epx_c.Channel.{CkRing, capacity_of_chan, chan_init, chan_send_spsc}
use epx_c.NodeIo.{
  ConnectionStatus, Connection, NodeIo, is_conn_status, set_conn_status, conn_at, init_fbs,
  connection_write, set_conn,
}
use epx_c.NodeIo.Life.{
  Life, Attempt, run_conn, run_node_fbs, new_node_connection, connect_loop, try_connect, call,
  sleep,
}

module _ {x : CkRing} where
  -- the number of the other end, where a try succeeds
  abbrev pub succeeds : Attempt x → Option ℕ
  succeeds a = elim a.prot [
    | none ↦ none
    | some h ↦ elim a.attached [ none ↦ none | some (g, remote) ↦ some remote ]
  ]

  abbrev pub or_later : Attempt x → Option ℕ → Option (Attempt x × ℕ) → Option (Attempt x × ℕ)
  or_later a none later = later
  or_later a (some remote) later = some (a, remote)

  -- the first success of `left` tries from `tries`, with the number of the other end
  abbrev pub first_success : (ℕ → Attempt x) → ℕ → ℕ → Option (Attempt x × ℕ)
  first_success env zero tries = none
  first_success env (suc left) tries =
      or_later (env tries) (succeeds (env tries)) (first_success env left (suc tries))

  -- the start of the next try
  abbrev slept : ℕ → Attempt x → Life x → Life x
  slept tries a l =
      let l1 = (new_node_connection a l).1 in call (sleep (l1.conn.back_off * (tries + 1))) l1

  -- The channel is as `chan_init` leaves it, and nothing of before is in it.
  abbrev pub IsFresh : Connection x → Type 0
  IsFresh c = c.chan_read.ring ≡ x.ring_init capacity_of_chan

  -- One that is alive, with the number of the other end.
  abbrev pub IsUp : ℕ → Connection x → Type 0
  IsUp remote c = (c.status ≡ ConnectionStatus.alive) × (c.xreplica_id ≡ remote) × IsFresh c

  -- one try
  abbrev IsOne : Attempt x → ConnectionStatus → Option ℕ → Bool × Life x → Type 0
  IsOne a before none r = (r.0 ≡ false) × (r.1.conn.status ≡ before) × IsFresh r.1.conn
  IsOne a before (some remote) r =
      (r.0 ≡ true) × (c : Connection x) × IsUp remote c × (r.1.conn ≡ a.started c)

  -- After tries, of which the other end may have answered one: what its coroutines are given.
  abbrev pub IsTried : ConnectionStatus → Option (Attempt x × ℕ) → Bool × Life x → Type 0
  IsTried before none r = (r.0 ≡ false) × (r.1.conn.status ≡ before) × IsFresh r.1.conn
  IsTried before (some (a, remote)) r =
      (r.0 ≡ true)
      × (c : Connection x) × IsUp remote c
      × (r.1.conn ≡ a.served (record (a.started c) { error = 0; back_off = 2; latency = 0 }))

  -- a connection that a try has brought up
  abbrev brought_up : ℕ → Life x → Connection x
  brought_up remote l =
      set_conn_status (record (init_fbs l.conn) { xreplica_id = remote }) ConnectionStatus.alive

  new_node_connection-IsOne :
      (a : Attempt x) (l : Life x) → IsOne a l.conn.status (succeeds a) (new_node_connection a l)
  unfolding new_node_connection run_node_fbs run_conn set_conn_status init_fbs chan_init
  new_node_connection-IsOne a l = elim (Option-cases a.prot) [
    | inl h ↦ rw h (refl, refl, refl)
    | inr (p, h) ↦ elim (Option-cases a.attached) [
      | inl g ↦ elim (Bool-cases (ltb 0 l.conn.fd)) [
        | inl f ↦ rw (h, g, f) (refl, refl, refl)
        | inr f ↦ rw (h, g, f) (refl, refl, refl)
      ]
      | inr (q, g) ↦ rw (h, g) (refl, brought_up q.1 l, (refl, refl, refl), refl)
    ]
  ]

  succeeds-IsOne :
      (a : Attempt x) (l : Life x) {o : Option ℕ}
      → succeeds a ≡ o
      → IsOne a l.conn.status o (new_node_connection a l)
  succeeds-IsOne a l h =
      subst (λ o. IsOne a l.conn.status o (new_node_connection a l)) h
        (new_node_connection-IsOne a l)

  -- the loop where its next try succeeds
  loop_succeeds :
      (env : ℕ → Attempt x) (left tries remote : ℕ) (l : Life x)
      → succeeds (env tries) ≡ some remote
      → IsTried l.conn.status
          (first_success env (suc left) tries)
          (connect_loop env (suc left) tries l)
  unfolding connect_loop
  loop_succeeds env left tries remote l h =
      let (done, c, up, now) = succeeds-IsOne (env tries) l {o = some remote} h in
      rw (first_success, h, done)
        (
          refl,
          c,
          up,
          ap (λ d. (env tries).served (record d { error = 0; back_off = 2; latency = 0 })) now,
        )

  -- a try that fails
  connect_loop_fails :
      (env : ℕ → Attempt x) (left tries : ℕ) (l : Life x)
      → (new_node_connection (env tries) l).0 ≡ false
      → connect_loop env (suc left) tries l
        ≡ connect_loop env left (suc tries) (slept tries (env tries) l)
  unfolding connect_loop
  connect_loop_fails env left tries l h = rw h refl

  first_success_later :
      (env : ℕ → Attempt x) (left tries : ℕ)
      → succeeds (env tries) ≡ none
      → first_success env (suc left) tries ≡ first_success env left (suc tries)
  first_success_later env left tries h = rw h refl

  connect_loop-IsTried :
      (env : ℕ → Attempt x) (left tries : ℕ) (l : Life x)
      → IsTried l.conn.status
          (first_success env (suc left) tries)
          (connect_loop env (suc left) tries l)
  unfolding connect_loop
  connect_loop-IsTried env zero tries l = elim (Option-cases (succeeds (env tries))) [
    | inr (remote, h) ↦ loop_succeeds env zero tries remote l h
    | inl h ↦
        let (stopped, same, fresh) = succeeds-IsOne (env tries) l {o = none} h in
        rw (first_success, h, stopped) (refl, same, fresh)
  ]
  connect_loop-IsTried env (suc left) tries l = elim (Option-cases (succeeds (env tries))) [
    | inr (remote, h) ↦ loop_succeeds env (suc left) tries remote l h
    | inl h ↦
        let (stopped, same, fresh) = succeeds-IsOne (env tries) l {o = none} h in
        let rest = connect_loop-IsTried env left (suc tries) (slept tries (env tries) l) in
        subst (λ r. IsTried l.conn.status (first_success env (suc (suc left)) tries) r)
          (sym (connect_loop_fails env (suc left) tries l stopped))
          (subst
            (λ o.
              IsTried l.conn.status o
                (connect_loop env (suc left) (suc tries) (slept tries (env tries) l)))
            (sym (first_success_later env (suc left) tries h))
            (subst
              (λ t.
                IsTried t (first_success env (suc left) (suc tries))
                  (connect_loop env (suc left) (suc tries) (slept tries (env tries) l)))
              same rest))
  ]

-- Whatever the tries of `try_connect` meet, and whatever its coroutines make of the connection: if
-- one of the first three succeeds, the first of them starts the coroutines on a connection that is
-- alive, with the number of the other end and a new channel, in which nothing waits; to what they
-- make of it until they first wait, no error, a back off of 2 and a latency of 0 are written; and
-- what they make of that until they end is left. If none succeeds, the status is as before and the
-- channel is new.
pub try_connect_lem :
    (x : CkRing) (env : ℕ → Attempt x) (l : Life x)
    → IsTried l.conn.status (first_success env 3 0) (try_connect env l)
unfolding try_connect
try_connect_lem x env l = connect_loop-IsTried env 2 0 l

module _ {x : CkRing} where
  connecting_write :
      (n : NodeIo x) (p : ℕ) (c : Connection x)
      → conn_at (n.memory p).to n.chan_nodes ≡ ok c
      → c.status ≡ ConnectionStatus.connecting
      → (done : Bool) × (n' : NodeIo x) × (connection_write n p ≡ ok (done, n'))
        × (n'.calls ≡ n.calls)
  unfolding connection_write is_conn_status
  connecting_write n p c h s = elim (Bool-cases (chan_send_spsc c.chan_read p).0) [
    | inl q ↦ (true, kept, ground arith, refl)
    | inr q ↦ (false, kept, ground arith, refl)
  ]
    where
      kept : NodeIo x
      kept = set_conn (n.memory p).to (record c { chan_read = (chan_send_spsc c.chan_read p).1 }) n

-- Where none of the three tries of a connection that was connecting succeeds, it stays connecting,
-- and `connection_write` to it returns and starts no thread, so that the node does not try again.
pub try_connect_gives_up :
    (x : CkRing) (env : ℕ → Attempt x) (l : Life x) (n : NodeIo x) (p : ℕ)
    → l.conn.status ≡ ConnectionStatus.connecting
    → first_success env 3 0 ≡ none
    → conn_at (n.memory p).to n.chan_nodes ≡ ok (try_connect env l).1.conn
    → ((try_connect env l).1.conn.status ≡ ConnectionStatus.connecting)
      × ((done : Bool) × (n' : NodeIo x) × (connection_write n p ≡ ok (done, n'))
          × (n'.calls ≡ n.calls))
unfolding try_connect
try_connect_gives_up x env l n p s h at =
    let (failed, same, fresh) =
      subst (λ o. IsTried l.conn.status o (connect_loop env 3 0 l)) h
        (connect_loop-IsTried env 2 0 l) in
    (same ∙ s, connecting_write n p (try_connect env l).1.conn at (same ∙ s))
