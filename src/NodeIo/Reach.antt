-- ===== src/NodeIo/Reach.antt =====
-- Which connections a broadcast of src/io.c writes to.
use epx_c.Base.{
  ℕ, zero, suc, ◌+◌, ◌<◌, ◌≤◌, ◌≡◌, refl, sym, ap, subst, ◌∙◌, true, List, [], ◌∷◌, ◌++◌, All,
  get_or, set, length, length-snoc, ok, arith,
}
use epx_c.Epx.{n_replicas}
use epx_c.Channel.{CkRing, CkRingLaws, Kind}
use epx_c.NodeIo.{ConnectionStatus, Connection, NodeIo, is_conn_status, conn_at, set_to}
use epx_c.NodeIo.Broadcast.{write_to}
use epx_c.NodeIo.Rooms.{rings, conn-cases, HasRings, connection_write-rings}

-- a pointer behind the others of a queue
abbrev pub snoc_at : ℕ → ℕ → List (List ℕ) → List (List ℕ)
snoc_at p to qs = set qs to (get_or qs to [] ++ (p ∷ []))

All-get {ℓ κ} :
    {A : Type ℓ} (P : A → Type κ) (xs : List A) (i : ℕ) (d : A)
    → All P xs
    → i < length xs
    → P (get_or xs i d)
All-get P [] i d a h = absurd (omega arith)
All-get P (y ∷ xs) zero d a h = a.0
All-get P (y ∷ xs) (suc i) d a h = All-get P xs i d a.1 (omega arith)

All-set {ℓ κ} :
    {A : Type ℓ} (P : A → Type κ) (xs : List A) (i : ℕ) (v : A)
    → P v
    → All P xs
    → All P (set xs i v)
All-set P [] i v p a = tt
All-set P (y ∷ xs) zero v p a = (p, a.1)
All-set P (y ∷ xs) (suc i) v p a = (a.0, All-set P xs i v p a.1)

All-weaken {ℓ κ ι} :
    {A : Type ℓ} (P : A → Type κ) (Q : A → Type ι) (xs : List A)
    → ((v : A) → P v → Q v)
    → All P xs
    → All Q xs
All-weaken P Q [] f a = tt
All-weaken P Q (y ∷ xs) f a = (f y a.0, All-weaken P Q xs f a.1)

module _ {x : CkRing} (l : CkRingLaws x) where
  -- the pointers that wait for each connection, the first first
  abbrev pub queues : List x.Ring → List (List ℕ)
  queues [] = []
  queues (r ∷ rs) = l.entries r ∷ queues rs

  -- room for `k` more
  abbrev pub HasRoom : ℕ → x.Ring → Type 0
  HasRoom k r = length (l.entries r) + suc k ≤ l.places r

  -- The queues of the node `n` are `qs`, with room for `k` more in each.
  pub record IsServing (k : ℕ) (qs : List (List ℕ)) (n : NodeIo x) : Type 0 where
    pub queues_are : queues (rings n.chan_nodes) ≡ qs
    pub room : All (HasRoom k) (rings n.chan_nodes)
    pub count : length n.chan_nodes ≡ n_replicas

  -- what a broadcast leaves of a node: the queues, and its number and its quorum as they were
  pub record IsServed (k : ℕ) (qs : List (List ℕ)) (n n' : NodeIo x) : Type 0 where
    pub serving : IsServing k qs n'
    pub node_id : n'.node_id ≡ n.node_id
    pub quorum : n'.quorum ≡ n.quorum

  length-rings : (cs : List (Connection x)) → length (rings cs) ≡ length cs
  length-rings [] = refl
  length-rings (c ∷ cs) = ap suc (length-rings cs)

  queues-set :
      (rs : List x.Ring) (i p : ℕ) (r : x.Ring) (d : x.Ring)
      → i < length rs
      → l.entries r ≡ l.entries (get_or rs i d) ++ (p ∷ [])
      → queues (set rs i r) ≡ snoc_at p i (queues rs)
  queues-set [] i p r d h e = absurd (omega arith)
  queues-set (s ∷ rs) zero p r d h e = ap (λ q. q ∷ queues rs) e
  queues-set (s ∷ rs) (suc i) p r d h e =
      ap (λ qs. l.entries s ∷ qs) (queues-set rs i p r d (omega arith) e)

  same_to : (n : NodeIo x) (p to : ℕ) → ((set_to p to n).memory p).to ≡ to
  same_to n p to = ground arith

  write_to-rings :
      (n : NodeIo x) (p to : ℕ)
      → to < length n.chan_nodes
      → ((d : x.Ring)
          → length (l.entries (get_or (rings n.chan_nodes) to d)) + 1
            < l.places (get_or (rings n.chan_nodes) to d))
      → (n' : NodeIo x) × (r : x.Ring) × (d : x.Ring) × (write_to p to n ≡ ok (true, n'))
        × HasRings (set (rings n.chan_nodes) to r) n n'
        × (l.entries r ≡ l.entries (get_or (rings n.chan_nodes) to d) ++ (p ∷ []))
        × (l.places r ≡ l.places (get_or (rings n.chan_nodes) to d))
  unfolding write_to
  write_to-rings n p to h room =
      let (c, e, f, g) = conn-cases to n.chan_nodes h in
      let d = c.chan_read.ring in
      let (r, q, en, pl) =
        l.enqueue_room Kind.spsc d p
          (subst (λ b. length (l.entries b) + 1 < l.places b) (f d) (room d)) in
      let n1 = set_to p to n in
      let same = same_to n p to in
      let (n', w, k) =
        connection_write-rings n1 p c r (is_conn_status c ConnectionStatus.dead)
          (ap (λ t. conn_at t n.chan_nodes) same ∙ e)
          (subst
            (λ t.
              (c' : Connection x)
              → rings (set n.chan_nodes t c') ≡ set (rings n.chan_nodes) t c'.chan_read.ring)
            (sym same) g)
          q refl in
      (
        n',
        r,
        d,
        w,
        record {
          rings_are = k.rings_are ∙ ap (λ t. set (rings n.chan_nodes) t r) same;
          node_id = k.node_id;
          quorum = k.quorum;
          count = k.count;
        },
        en ∙ ap (λ b. l.entries b ++ (p ∷ [])) (sym (f d)),
        pl ∙ ap l.places (sym (f d)),
      )

  -- one round of a broadcast
  pub write_to-IsServed :
      (k p to : ℕ) (qs : List (List ℕ)) (n : NodeIo x)
      → to < n_replicas
      → IsServing (suc k) qs n
      → (n' : NodeIo x) × (write_to p to n ≡ ok (true, n')) × IsServed k (snoc_at p to qs) n n'
  write_to-IsServed k p to qs n h s =
      let there = λ (d : x.Ring).
        All-get (HasRoom (suc k)) (rings n.chan_nodes) to d s.room
          (omega (arith, length-rings n.chan_nodes, s.count)) in
      let (n', r, d, w, m, en, pl) =
        write_to-rings n p to (omega (arith, s.count)) (λ d. omega (arith, there d)) in
      (
        n',
        w,
        record {
          serving = record {
            queues_are =
                ap queues m.rings_are
                ∙ queues-set (rings n.chan_nodes) to p r d
                    (omega (arith, length-rings n.chan_nodes, s.count)) en
                ∙ ap (snoc_at p to) s.queues_are;
            room = subst (All (HasRoom k)) (sym m.rings_are) (
                All-set (HasRoom k) (rings n.chan_nodes) to r
                  (omega (
                    arith,
                    ap length en,
                    length-snoc (l.entries (get_or (rings n.chan_nodes) to d)) p,
                    pl,
                    there d,
                  ))
                  (All-weaken (HasRoom (suc k)) (HasRoom k) (rings n.chan_nodes)
                    (λ v q. omega arith) s.room));
            count = m.count ∙ s.count;
          };
          node_id = m.node_id;
          quorum = m.quorum;
        },
      )

  pub IsServing-less :
      (k : ℕ) (qs : List (List ℕ)) (n : NodeIo x) → IsServing (suc k) qs n → IsServing k qs n
  IsServing-less k qs n s = record {
    queues_are = s.queues_are;
    room =
        All-weaken (HasRoom (suc k)) (HasRoom k) (rings n.chan_nodes) (λ v q. omega arith) s.room;
    count = s.count;
  }
