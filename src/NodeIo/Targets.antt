-- ===== src/NodeIo/Targets.antt =====
-- The targets of the broadcasts of src/io.c.
use epx_c.Base.{
  ℕ, zero, suc, ◌+◌, ◌%◌, ◌<◌, ◌≡◌, refl, sym, ap, ◌∙◌, ◌⊎◌, inl, inr, Bool, true, false, List, [],
  ◌∷◌, ◌++◌, Outcome, ok, fault, out_of_bounds, ◌==◌, if◌then◌else◌, arith,
}
use epx_c.Epx.{n_replicas}
use epx_c.Message.{MessageType}
use epx_c.Channel.{CkRing, CkRingLaws}
use epx_c.NodeIo.{NodeIo}
use epx_c.NodeIo.Broadcast.{
  quorum_at, update_quorum, set_ref, write_to, prepare_loop, broadcast_prepare, quorum_loop,
  broadcast_pre_accept, try_loop, broadcast_try_pre_accept, broadcast_commit, broadcast_by_type,
}
use epx_c.NodeIo.Rooms.{rings}
use epx_c.NodeIo.Reach.{snoc_at, queues, IsServing, write_to-IsServed, IsServing-less}
use epx_c.NodeIo.Quorum.{first_only, IsKept, update_quorum-first_only}

module _ {x : CkRing} where
  prepare_round :
      (k q q' p : ℕ) (n n' : NodeIo x)
      → (q + 1) % n_replicas ≡ q'
      → (q' == n.node_id) ≡ false
      → write_to p q' n ≡ ok (true, n')
      → prepare_loop (suc k) q p n ≡ prepare_loop k q' p n'
  unfolding prepare_loop
  prepare_round k q q' p n n' e f w = ground arith

  quorum_round :
      (k s to p : ℕ) (n n' : NodeIo x)
      → quorum_at n.quorum s ≡ ok to
      → write_to p to n ≡ ok (true, n')
      → quorum_loop (suc k) s p n ≡ quorum_loop k (suc s) p n'
  unfolding quorum_loop
  quorum_round k s to p n n' e w = ground arith

  try_round :
      (k s p : ℕ) (n n' : NodeIo x)
      → write_to p s n ≡ ok (true, n')
      → try_loop (suc k) s p n ≡ try_loop k (suc s) p n'
  unfolding try_loop
  try_round k s p n n' w = ground arith

module _ {x : CkRing} (l : CkRingLaws x) where
  -- the call `o` returns 0 and leaves the node `n` with the queues `qs`
  abbrev pub Reaches : List (List ℕ) → NodeIo x → Outcome (Bool × NodeIo x) → Type 0
  Reaches qs n o =
      (n' : NodeIo x) × (o ≡ ok (true, n'))
      × (queues l (rings n'.chan_nodes) ≡ qs)
      × (n'.quorum ≡ n.quorum)

  with_ref :
      (k : ℕ) (qs : List (List ℕ)) (n : NodeIo x) (p r : ℕ)
      → IsServing l k qs n
      → IsServing l k qs (set_ref p r n)
  with_ref k qs n p r s = record { queues_are = s.queues_are; room = s.room; count = s.count }

  two_prepares :
      (n : NodeIo x) (p q1 q2 : ℕ) (qs : List (List ℕ))
      → (n.node_id + 1) % n_replicas ≡ q1
      → (q1 + 1) % n_replicas ≡ q2
      → q1 < n_replicas
      → q2 < n_replicas
      → (q1 == n.node_id) ≡ false
      → (q2 == n.node_id) ≡ false
      → IsServing l 2 qs n
      → Reaches (snoc_at p q2 (snoc_at p q1 qs)) n (broadcast_prepare n p)
  unfolding broadcast_prepare
  two_prepares n p q1 q2 qs e1 e2 h1 h2 f1 f2 s =
      let n0 = set_ref p 2 n in
      let (n1, w1, s1) = write_to-IsServed l 1 p q1 qs n0 h1 (with_ref 2 qs n p 2 s) in
      let (n2, w2, s2) = write_to-IsServed l 0 p q2 (snoc_at p q1 qs) n1 h2 s1.serving in
      (
        n2,
        prepare_round 1 n.node_id q1 p n0 n1 e1 f1 w1
            ∙ prepare_round 0 q1 q2 p n1 n2 e2 (ap (λ i. q2 == i) s1.node_id ∙ f2) w2
            ∙ (unfold prepare_loop in refl),
        s2.serving.queues_are,
        s2.quorum ∙ s1.quorum,
      )

  -- a queue of the connection `j` after the broadcast of the node `id`
  abbrev pub unless_own : ℕ → ℕ → ℕ → List ℕ → List ℕ
  unless_own id j p q = if j == id then q else q ++ (p ∷ [])

  -- `broadcast_prepare` of a node puts the message behind those that wait for each other node, once,
  -- and behind none of its own.
  pub broadcast_prepare-others :
      (n : NodeIo x) (id p : ℕ) (a b c : List ℕ)
      → n.node_id ≡ id
      → id < n_replicas
      → IsServing l 2 (a ∷ b ∷ c ∷ []) n
      → Reaches
          (unless_own id 0 p a ∷ unless_own id 1 p b ∷ unless_own id 2 p c ∷ [])
          n
          (broadcast_prepare n p)
  broadcast_prepare-others n zero p a b c e h s =
      two_prepares n p 1 2 _ (omega arith) refl (omega arith) (omega arith) (ap (λ i. 1 == i) e)
        (ap (λ i. 2 == i) e) s
  broadcast_prepare-others n (suc zero) p a b c e h s =
      two_prepares n p 2 0 _ (omega arith) refl (omega arith) (omega arith) (ap (λ i. 2 == i) e)
        (ap (λ i. 0 == i) e) s
  broadcast_prepare-others n (suc (suc zero)) p a b c e h s =
      two_prepares n p 0 1 _ (omega arith) refl (omega arith) (omega arith) (ap (λ i. 0 == i) e)
        (ap (λ i. 1 == i) e) s
  broadcast_prepare-others n (suc (suc (suc id))) p a b c e h s = absurd (omega arith)

  -- `broadcast_try_pre_accept` puts the message behind those that wait for the first `N - 1` nodes,
  -- whichever node it is called on: the node itself is among them, unless it is the last, and the
  -- last node is never.
  pub broadcast_try_pre_accept-first :
      (n : NodeIo x) (p : ℕ) (a b c : List ℕ)
      → IsServing l 2 (a ∷ b ∷ c ∷ []) n
      → Reaches ((a ++ (p ∷ [])) ∷ (b ++ (p ∷ [])) ∷ c ∷ []) n (broadcast_try_pre_accept n p)
  unfolding broadcast_try_pre_accept
  broadcast_try_pre_accept-first n p a b c s =
      let n0 = set_ref p 2 n in
      let (n1, w1, s1) = write_to-IsServed l 1 p 0 _ n0 (omega arith) (with_ref 2 _ n p 2 s) in
      let (n2, w2, s2) = write_to-IsServed l 0 p 1 _ n1 (omega arith) s1.serving in
      (
        n2,
        try_round 1 0 p n0 n1 w1 ∙ try_round 0 1 p n1 n2 w2 ∙ (unfold try_loop in refl),
        s2.serving.queues_are,
        s2.quorum ∙ s1.quorum,
      )

  first_of : (n : NodeIo x) (i : ℕ) → i < 3 → n.quorum ≡ first_only → quorum_at n.quorum i ≡ ok 0
  unfolding quorum_at
  first_of n zero h e = ap (λ q. quorum_at q 0) e
  first_of n (suc zero) h e = ap (λ q. quorum_at q 1) e
  first_of n (suc (suc zero)) h e = ap (λ q. quorum_at q 2) e
  first_of n (suc (suc (suc i))) h e = absurd (omega arith)

  -- `k` rounds of the loop over that quorum
  abbrev pub times : ℕ → ℕ → List ℕ → List ℕ
  times zero p q = q
  times (suc k) p q = times k p (q ++ (p ∷ []))

  quorum_loop-first :
      (k i p : ℕ) (n : NodeIo x) (a b c : List ℕ)
      → k + i < 4
      → n.quorum ≡ first_only
      → IsServing l k (a ∷ b ∷ c ∷ []) n
      → Reaches (times k p a ∷ b ∷ c ∷ []) n (quorum_loop k i p n)
  quorum_loop-first zero i p n a b c h e s = (n, (unfold quorum_loop in refl), s.queues_are, refl)
  quorum_loop-first (suc k) i p n a b c h e s =
      let (n1, w1, s1) = write_to-IsServed l k p 0 _ n (omega arith) s in
      let (n2, w2, q, f) =
        quorum_loop-first k (suc i) p n1 (a ++ (p ∷ [])) b c (omega arith) (s1.quorum ∙ e)
          s1.serving in
      (n2, quorum_round k i 0 p n n1 (first_of n i (omega arith) e) w1 ∙ w2, q, f ∙ s1.quorum)

  accept_steps :
      (n : NodeIo x) (p : ℕ) {q : List ℕ}
      → update_quorum n.quorum n.chan_nodes ≡ ok q
      → broadcast_by_type MessageType.accept n p ≡ broadcast_pre_accept (record n { quorum = q }) p
  unfolding broadcast_by_type
  accept_steps n p e = rw e refl

  accept_fault :
      (n : NodeIo x) (p : ℕ)
      → update_quorum n.quorum n.chan_nodes ≡ fault out_of_bounds
      → broadcast_by_type MessageType.accept n p ≡ fault out_of_bounds
  unfolding broadcast_by_type
  accept_fault n p e = rw e refl

  accept_first :
      (n : NodeIo x) (p : ℕ) (a b c : List ℕ)
      → n.quorum ≡ first_only
      → IsServing l 3 (a ∷ b ∷ c ∷ []) n
      → Reaches
          (times 2 p a ∷ b ∷ c ∷ [])
          n
          (broadcast_pre_accept (record n { quorum = first_only }) p)
  unfolding broadcast_pre_accept
  accept_first n p a b c e s =
      let n0 : NodeIo x = set_ref p 2 (record n { quorum = first_only }) in
      let s2 = IsServing-less l 2 _ n s in
      let (n1, w, q, f) =
        quorum_loop-first 2 0 p n0 a b c (omega arith) refl
          (record { queues_are = s2.queues_are; room = s2.room; count = s2.count }) in
      (n1, w, q, f ∙ sym e)

  -- A node whose quorum is as zeroed memory writes a message of type ACCEPT to the first node, as
  -- often as there are other nodes, unless it reads before the array of the quorum; and it writes a
  -- message of type COMMIT to the first node, as often as there are nodes. It writes neither to any
  -- other node, and its quorum remains as it was.
  pub broadcast_by_type-first_only :
      (n : NodeIo x) (p : ℕ) (a b c : List ℕ)
      → n.quorum ≡ first_only
      → IsServing l 3 (a ∷ b ∷ c ∷ []) n
      → ((broadcast_by_type MessageType.accept n p ≡ fault out_of_bounds)
          ⊎ Reaches (times 2 p a ∷ b ∷ c ∷ []) n (broadcast_by_type MessageType.accept n p))
        × Reaches (times 3 p a ∷ b ∷ c ∷ []) n (broadcast_by_type MessageType.commit n p)
  unfolding broadcast_by_type broadcast_commit
  broadcast_by_type-first_only n p a b c e s = (
    accepted (update_quorum-first_only n.chan_nodes),
    quorum_loop-first 3 0 p (set_ref p 3 n) a b c (omega arith) e (with_ref 3 _ n p 3 s),
  )
    where
      same : update_quorum n.quorum n.chan_nodes ≡ update_quorum first_only n.chan_nodes
      same = ap (λ q. update_quorum q n.chan_nodes) e

      accepted :
          IsKept (update_quorum first_only n.chan_nodes)
          → (broadcast_by_type MessageType.accept n p ≡ fault out_of_bounds)
            ⊎ Reaches (times 2 p a ∷ b ∷ c ∷ []) n (broadcast_by_type MessageType.accept n p)
      accepted (inr f) = inl (accept_fault n p (same ∙ f))
      accepted (inl f) =
          let (n', w, q, g) = accept_first n p a b c e s in
          inr (n', accept_steps n p (same ∙ f) ∙ w, q, g)
