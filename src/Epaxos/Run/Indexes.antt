-- ===== src/Epaxos/Run/Indexes.antt =====
-- The indexes of the replicas that `run` of src/epaxos.c reaches.
use epx_c.Base.{
  ℕ, refl, sym, subst, Option, none, some, List, ok, ◌>>=◌, Ensures, Ensures-bind, Ensures-ok,
  Option-cases, Bool-cases, inl, inr, arith,
}
use epx_c.InstanceId.{Dependency}
use epx_c.Message.{State, Message, MessageType}
use epx_c.Instance.{Instance, message_from_instance}
use epx_c.Instance.Deps.Sorted.{IsValid}
use epx_c.Extern.{Externals}
use epx_c.Extern.Laws.{LlrbLaws}
use epx_c.Replica.{Replica, alloc, init_fp_timeout, barrier}
use epx_c.Replica.Valid.{barrier-IsValid}
use epx_c.Epaxos.{World, send, recover}
use epx_c.Epaxos.Progress.{
  after, step, new_local, propose, checkpoint_message, checkpoint, slow_path_timeout,
  fast_path_timeout,
}
use epx_c.Epaxos.Valid.{recover-IsValid}
use epx_c.Epaxos.Indexes.Entries.{EntriesAreValid}
use epx_c.Epaxos.Indexes.{IndexesAreValid, PlaceIsValid, store-IndexesAreValid}
use epx_c.Epaxos.Fits.{recover-WorldFits}
use epx_c.Epaxos.Run.{
  new_replica, steps, proposes, checkpoints, slow_times_out, fast_times_out, executes, Reach, start,
  later,
}
use epx_c.Epaxos.Run.Steps.{
  Gives, GivesLocal, after-IndexesAreValid, found-PlaceIsValid, step-Gives, new_local-GivesLocal,
  propose-Gives,
}

module _ (x : Externals) (l : LlrbLaws x.llrb) where
  slow-IndexesAreValid :
      (r : Replica x) (i : Instance) (zeroed : Message)
      → PlaceIsValid x l i
      → IsValid zeroed.deps
      → IndexesAreValid x l r.index
      → Ensures (λ r'. IndexesAreValid x l r'.index) (slow_path_timeout r i zeroed)
  unfolding slow_path_timeout
  slow-IndexesAreValid r i zeroed p d v = elim (Bool-cases (alloc r).0) [
    | inr e ↦ ground arith
    | inl e ↦
        let w : World x = record {
          r = (alloc r).1;
          i = i;
          m = record zeroed { type = MessageType.prepare };
        } in
        let g = recover-IsValid w (record { own = p.1; recorded = p.2; received = d }) in
        let f = recover-WorldFits x l i.key w (v, refl) in
        let kept = after-IndexesAreValid x l i.key (recover w) p.0 (record {
          own = g.own;
          recorded = g.recorded;
          received = g.received;
          indexes = f.0;
          key = f.1;
        }) in
        ground arith
  ]

  fast-IndexesAreValid :
      (r : Replica x) (i : Instance) (garbage : Message)
      → IndexesAreValid x l r.index
      → Ensures (λ r'. IndexesAreValid x l r'.index) (fast_path_timeout r i garbage)
  unfolding fast_path_timeout
  fast-IndexesAreValid r i garbage v =
      elim (Option-cases (message_from_instance (alloc r).0 garbage i)) [
        | inl e ↦ ground arith
        | inr (m, e) ↦ ground arith
      ]

  -- `checkpoint` once the dependencies are found, and the message is at hand
  abbrev recorded : Instance → List Dependency → Message → Replica x → Replica x
  recorded i0 deps m0 r2 =
      let i = record i0 { deps = deps; status = State.pre_accepted } in
      let m = record m0 {
        id = i.key;
        deps = deps;
        ballot = i.ballot;
        type = MessageType.pre_accept;
      } in
      after (send (record { r = init_fp_timeout r2 i; i = i; m = m }))

  recorded-IndexesAreValid :
      (i0 : Instance) (deps : List Dependency) (m0 : Message) (r2 : Replica x)
      → PlaceIsValid x l i0
      → IsValid deps
      → IndexesAreValid x l r2.index
      → IndexesAreValid x l (recorded i0 deps m0 r2).index
  recorded-IndexesAreValid i0 deps m0 r2 p d v =
      store-IndexesAreValid x l _ (record i0 { deps = deps; status = State.pre_accepted })
        (p.0, d, p.2) v

  checkpoint_message-Gives :
      (message : Option Message) (garbage : Message) (r : Replica x)
      → IndexesAreValid x l r.index
      → Ensures (λ w. IndexesAreValid x l (w.1).index) (checkpoint_message message garbage r)
  unfolding checkpoint_message
  checkpoint_message-Gives (some m) garbage r v = v
  checkpoint_message-Gives none garbage r v = ground arith

  checkpoint-IndexesAreValid :
      (r : Replica x) (message : Option Message) (garbage : Message)
      → IndexesAreValid x l r.index
      → Ensures (λ r'. IndexesAreValid x l r'.index) (checkpoint r message garbage)
  unfolding checkpoint
  checkpoint-IndexesAreValid r message garbage v =
      Ensures-bind (GivesLocal x l) (λ r'. IndexesAreValid x l r'.index) (new_local r) _
        (λ made g. recorded-Gives made.0 made.1 g) (new_local-GivesLocal x l r v)
    where
      recorded-Gives :
          (o : Option Instance) (r1 : Replica x)
          → GivesLocal x l (o, r1)
          → Ensures {A = Replica x}
              (λ r'. IndexesAreValid x l r'.index)
              (elim o [
                | none ↦ ok r1
                | some i0 ↦ barrier r1 >>= λ deps.
                    checkpoint_message message garbage r1 >>= λ (m0, r2).
                    ok (recorded i0 deps m0 r2)
              ])
      recorded-Gives none r1 g = g
      recorded-Gives (some i0) r1 g =
          Ensures-bind IsValid (λ r'. IndexesAreValid x l r'.index) (barrier r1) _
            (λ deps d.
              Ensures-bind (λ w. IndexesAreValid x l (w.1).index)
                (λ r'. IndexesAreValid x l r'.index) (checkpoint_message message garbage r1) _
                (λ w u. recorded-IndexesAreValid i0 deps w.0 w.1 g.0 d u)
                (checkpoint_message-Gives message garbage r1 g.1))
            (barrier-IsValid r1)

  no_entries : (rc : ℕ) → EntriesAreValid rc (l.to_list x.empty)
  no_entries rc = subst (EntriesAreValid rc) (sym l.to_list-empty) (tt, tt)

  -- Whatever messages with dependencies in order arrive, what is proposed, when the timeouts and the
  -- checkpoints come and the executor marks instances, in any order: in every replica that is reached
  -- from a new one, the index of each replica has its instances only, in ascending order of their
  -- numbers, and each has valid dependency arrays.
  pub Reach-IndexesAreValid : {r0 r : Replica x} → Reach r0 r → IndexesAreValid x l r.index
  unfolding new_replica
  Reach-IndexesAreValid start = record {
    count = refl;
    trees = (no_entries 0, (no_entries 1, (no_entries 2, tt)));
  }
  Reach-IndexesAreValid (later {r} h (steps m {b} {r'} d e)) =
      Ensures-ok (Gives x l) (step r m) {a = (b, r')} e
        (step-Gives x l r m d (Reach-IndexesAreValid h))
  Reach-IndexesAreValid (later {r} h (proposes m {b} {r'} d e)) =
      Ensures-ok (Gives x l) (propose r m) {a = (b, r')} e
        (propose-Gives x l r m d (Reach-IndexesAreValid h))
  Reach-IndexesAreValid (later {r} h (checkpoints m garbage {r'} e)) =
      Ensures-ok (λ r'. IndexesAreValid x l r'.index) (checkpoint r m garbage) {a = r'} e
        (checkpoint-IndexesAreValid r m garbage (Reach-IndexesAreValid h))
  Reach-IndexesAreValid (later {r} h (slow_times_out key {i} zeroed {r'} f d e)) =
      let v = Reach-IndexesAreValid h in
      Ensures-ok (λ r'. IndexesAreValid x l r'.index) (slow_path_timeout r i zeroed) {a = r'} e
        (slow-IndexesAreValid r i zeroed (found-PlaceIsValid x l r key {i = i} v f) d v)
  Reach-IndexesAreValid (later {r} h (fast_times_out key {i} garbage {r'} f e)) =
      Ensures-ok (λ r'. IndexesAreValid x l r'.index) (fast_path_timeout r i garbage) {a = r'} e
        (fast-IndexesAreValid r i garbage (Reach-IndexesAreValid h))
  Reach-IndexesAreValid (later {r} h (executes key {i} f)) =
      let v = Reach-IndexesAreValid h in
      store-IndexesAreValid x l r (record i { status = State.executed })
        (found-PlaceIsValid x l r key {i = i} v f) v
