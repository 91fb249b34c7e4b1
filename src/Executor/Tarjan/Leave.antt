-- ===== src/Executor/Tarjan/Leave.antt =====
-- What `visit` of src/execute.c does after its loop: it pops a component, or leaves its nodes on
-- the stack.
use epx_c.Base.{
  ℕ, ◌+◌, ◌<◌, ◌≤◌, ◌≡◌, refl, ◌≢◌, ◌⊎◌, inl, inr, true, false, Option, none, some, List, [], ◌∷◌,
  ◌++◌, length, Bool-cases, arith, sym, subst, ◌∙◌, ap, ◌==◌, append_assoc, length-append,
  length-snoc,
}
use epx_c.Epx.{max_deps}
use epx_c.Extern.{Externals, Vertices}
use epx_c.Executor.{TarjanNode, Executor, node}
use epx_c.Executor.Components.{contains}
use epx_c.Executor.Visit.{is_root, pop_scc, leave}
use epx_c.Executor.Tarjan.{
  points, settled, total, PathTo, here, IsComponent, AreComponents, Works, Falls, Stage, stacked,
  placed, white, Keeps, Reaches, Grows, Anchor, Visited,
}
use epx_c.Executor.Tarjan.Member.{
  contains-either, contains-middle, contains-left, contains-right, contains-nil, contains-here,
  contains-cons, settled-old, settled-new, settled-split, PathTo-trans, AreComponents-snoc,
  Works-map,
}
use epx_c.Executor.Tarjan.Room.{total-snoc, unseen_in-same}
use epx_c.Executor.Tarjan.Nodes.{
  indexed-ne, Falls-same, Falls-higher, Falls-drop, Falls-member, Falls-above, Grows-trans,
}
use epx_c.Executor.Tarjan.Popped.{IsPopped, pop_scc_lem}
use epx_c.Executor.Tarjan.Loop.{InLoop, InLoop-top, InLoop-Falls}

is_root_at :
    (t : TarjanNode) (l k : ℕ) → t.low_link ≡ some l → t.index ≡ some k → is_root t ≡ (l == k)
unfolding is_root
is_root_at t l k h i = ground arith

module _ {x : Externals} {v : Vertices} (vals : List ℕ) (dp : ℕ → List (Option ℕ)) (S : List ℕ)
    (n k0 l : ℕ) (e1 : Executor x v) (p : InLoop vals dp S n k0 l l e1)
    (reached : (d : ℕ) → points (dp n) d ≡ true → Reaches vals dp e1 l d) where
  abbrev comp : List ℕ
  comp = p.seg ++ (n ∷ [])

  comp-cases : (m : ℕ) → contains comp m ≡ true → (contains p.seg m ≡ true) ⊎ (n ≡ m)
  comp-cases m h = elim (contains-either p.seg (n ∷ []) m h) [
    | inl q ↦ inl q
    | inr q ↦ elim (contains-cons n [] m q) [ inl r ↦ inr r | inr r ↦ absurd (contains-nil m r) ]
  ]

  comp-top : contains comp n ≡ true
  comp-top = contains-right p.seg (n ∷ []) n (contains-here n [])

  comp-stack : (m : ℕ) → contains comp m ≡ true → contains e1.stack m ≡ true
  comp-stack m h = elim (comp-cases m h) [
    | inl q ↦ subst (λ s. contains s m ≡ true) (sym p.stack_is) (contains-left p.seg (n ∷ S) m q)
    | inr q ↦ subst (λ k. contains e1.stack k ≡ true) q (InLoop-top vals dp p)
  ]

  stack-cases :
      (m : ℕ) → contains e1.stack m ≡ true → (contains comp m ≡ true) ⊎ (contains S m ≡ true)
  stack-cases m h =
      elim (contains-middle p.seg n S m (subst (λ s. contains s m ≡ true) p.stack_is h)) [
        | inl q ↦ inl (contains-left p.seg (n ∷ []) m q)
        | inr q ↦ elim q [
          | inl r ↦ inl (subst (λ k. contains comp k ≡ true) r comp-top)
          | inr r ↦ inr r
        ]
      ]

  -- a node of the component stands at `k0` or higher
  comp-index : (m : ℕ) → contains comp m ≡ true → (k : ℕ) × ((node e1 m).index ≡ some k) × (k0 ≤ k)
  comp-index m h = elim (comp-cases m h) [
    | inl q ↦
        let (k, i, b) =
          Falls-above vals dp e1 e1.index p.seg n S m k0 (InLoop-Falls vals dp p) p.at q in
        (k, i, omega arith)
    | inr q ↦ (k0, subst (λ k. (node e1 k).index ≡ some k0) q p.at, omega arith)
  ]

  S-Falls : Falls vals dp e1 k0 S
  S-Falls =
      let (live, on, (k, i, b, f)) =
        Falls-drop vals dp e1 e1.index p.seg n S (InLoop-Falls vals dp p) in
      Falls-higher vals dp e1 k k0 S (ground (arith, p.at)) f

  -- a node below the component stands lower
  S-index : (m : ℕ) → contains S m ≡ true → (k : ℕ) × ((node e1 m).index ≡ some k) × (k < k0)
  S-index m h = (Falls-member vals dp e1 k0 S m S-Falls h).2

  comp-S : (m : ℕ) → contains S m ≡ true → contains comp m ≡ false
  comp-S m h = elim (Bool-cases (contains comp m)) [
    | inl q ↦
        let (k, i, b) = comp-index m q in let (k', i', b') = S-index m h in absurd (ground arith)
    | inr q ↦ q
  ]

  comp-reached :
      (m d : ℕ) → contains comp m ≡ true → points (dp m) d ≡ true → Reaches vals dp e1 l d
  comp-reached m d h q = elim (comp-cases m h) [
    | inl r ↦ p.closed m d r q
    | inr r ↦ reached d (subst (λ k. points (dp k) d ≡ true) (sym r) q)
  ]

  -- a node with a low link below its index
  pub stay-Visited :
      (e : Executor x v)
      → S ≡ e.stack
      → e.index ≡ k0
      → Grows vals dp e.stack e e1
      → l ≢ k0
      → Visited vals dp e n e1
  stay-Visited e s i g h = record {
    keeps = p.keeps;
    grows = g;
    seg = comp;
    stack_is = p.stack_is ∙ sym (append_assoc p.seg (n ∷ []) S) ∙ ap (λ t. comp ++ t) s;
    l = l;
    low = p.low;
    seen = inr (InLoop-top vals dp p, (k0, p.at, p.le));
    anchor = elim p.anchor [
      | inl q ↦ absurd (h q)
      | inr q ↦ inr (subst (λ t. Anchor vals dp e1 t n l) s q)
    ];
    closed = comp-reached;
    out = λ m c. elim (comp-cases m c) [
      | inl q ↦ p.out m q
      | inr q ↦ subst (λ k. PathTo dp k n) q here
    ];
    back = λ m c. p.back m (comp-stack m c);
  }

  stack_length : length e1.stack ≡ length comp + length S
  stack_length =
      omega (arith, ap length p.stack_is, length-append p.seg (n ∷ S), length-append p.seg (n ∷ []))

  fits : length vals ≤ max_deps → (length e1.sccs < max_deps) × (0 + length p.seg < max_deps)
  fits h = (
    omega (arith, p.keeps.room, p.keeps.counted, stack_length, length-append p.seg (n ∷ [])),
    omega (arith, p.keeps.room, stack_length, length-append p.seg (n ∷ [])),
  )

  module _ (root : l ≡ k0) where
    comp-IsComponent : IsComponent dp e1.sccs comp
    comp-IsComponent = record {
      fresh = λ m h. elim (Bool-cases (settled e1.sccs m)) [
        | inl q ↦
            let (live, on, place) =
              Falls-member vals dp e1 e1.index e1.stack m p.keeps.falls (comp-stack m h) in
            absurd (ground (arith, (p.keeps.done m q).1))
        | inr q ↦ q
      ];
      closed = λ m d h q. elim (comp-reached m d h q) [
        | inl r ↦ inr r
        | inr (r, (k, i, b)) ↦ elim (stack-cases d r) [
          | inl c ↦ inl c
          | inr c ↦ let (k', i', b') = S-index d c in absurd (ground arith)
        ]
      ];
      strong = λ m t h q.
          PathTo-trans dp (p.back m (comp-stack m h)) (elim (comp-cases t q) [
            | inl r ↦ p.out t r
            | inr r ↦ subst (λ k. PathTo dp k n) r here
          ]);
    }

    module _ (e2 : Executor x v) (w : IsPopped S comp e1.sccs comp e1 e2) where
      now_settled : (m : ℕ) → contains comp m ≡ true → settled e2.sccs m ≡ true
      now_settled m h =
          subst (λ cs. settled cs m ≡ true) (sym w.sccs_are) (settled-new e1.sccs comp m h)

      still_settled : (m : ℕ) → settled e1.sccs m ≡ true → settled e2.sccs m ≡ true
      still_settled m h =
          subst (λ cs. settled cs m ≡ true) (sym w.sccs_are) (settled-old e1.sccs comp m h)

      stack_moves :
          (m : ℕ)
          → contains e1.stack m ≡ true
          → (contains e2.stack m ≡ true) ⊎ (settled e2.sccs m ≡ true)
      stack_moves m h = elim (stack-cases m h) [
        | inl q ↦ inr (now_settled m q)
        | inr q ↦ inl (subst (λ s. contains s m ≡ true) (sym w.stack_is) q)
      ]

      popped-Stage : (m : ℕ) → Stage vals dp e1 m → Stage vals dp e2 m
      popped-Stage m (stacked h) = elim (stack_moves m h) [ inl q ↦ stacked q | inr q ↦ placed q ]
      popped-Stage m (placed h) = placed (still_settled m h)
      popped-Stage m (white h) = white (w.index_same m ∙ h)

      popped-done :
          (m : ℕ)
          → settled e2.sccs m ≡ true
          → ((node e2 m).index ≢ none) × ((node e2 m).on_stack ≡ false)
      popped-done m h =
          elim (settled-split e1.sccs comp m (subst (λ cs. settled cs m ≡ true) w.sccs_are h)) [
            | inl q ↦ (
              λ r. (p.keeps.done m q).0 (sym (w.index_same m) ∙ r),
              elim (Bool-cases (contains comp m)) [
                | inl c ↦ w.off m c
                | inr c ↦ w.stays m c ∙ (p.keeps.done m q).1
              ],
            )
            | inr q ↦
                let (k, i, b) = comp-index m q in
                (λ r. indexed-ne i (sym (w.index_same m) ∙ r), w.off m q)
          ]

      popped-Falls : Falls vals dp e2 e2.index e2.stack
      popped-Falls =
          subst (λ s. Falls vals dp e2 e2.index s) (sym w.stack_is)
            (subst (λ i. Falls vals dp e2 i S) (sym w.index_is)
              (Falls-same vals dp e1 e2 e1.index S (λ m h. w.index_same m)
                (λ m h. w.stays m (comp-S m h))
                (Falls-higher vals dp e1 k0 e1.index S (omega (arith, top_low)) S-Falls)))
        where
          top_low : k0 < e1.index
          top_low =
              let (live, on, (k, i, b)) =
                Falls-member vals dp e1 e1.index e1.stack n p.keeps.falls (InLoop-top vals dp p) in
              ground (arith, p.at)

      popped_total : total e2.sccs ≡ total e1.sccs + length comp
      popped_total = ap total w.sccs_are ∙ total-snoc e1.sccs comp

      popped-Keeps : Keeps vals dp e2
      popped-Keeps = record {
        allocated = λ m h. omega (arith, p.keeps.allocated m h, w.size_is);
        deps_are = λ m h. w.deps_same m ∙ p.keeps.deps_are m h;
        falls = popped-Falls;
        stage = λ m h. popped-Stage m (p.keeps.stage m h);
        done = popped-done;
        mapped = λ m h.
            elim (settled-split e1.sccs comp m (subst (λ cs. settled cs m ≡ true) w.sccs_are h)) [
              | inl q ↦ p.keeps.mapped m q
              | inr q ↦
                  (Falls-member vals dp e1 e1.index e1.stack m p.keeps.falls (comp-stack m q)).0
            ];
        room = omega (
          arith,
          p.keeps.room,
          popped_total,
          stack_length,
          ap length w.stack_is,
          unseen_in-same e1 e2 vals w.index_same,
        );
        counted = omega (
          arith,
          p.keeps.counted,
          popped_total,
          ap length w.sccs_are,
          length-snoc e1.sccs comp,
          length-append p.seg (n ∷ []),
        );
        components =
            subst (λ cs. AreComponents dp [] cs) (sym w.sccs_are)
              (AreComponents-snoc dp [] e1.sccs comp p.keeps.components comp-IsComponent);
      }

      popped-Grows : Grows vals dp S e1 e2
      popped-Grows = record {
        indexed = λ m h. w.index_same m;
        kept = still_settled;
        moved = stack_moves;
        low_same = λ m h. w.low_same m;
      }

      popped-Visited :
          (e : Executor x v)
          → S ≡ e.stack
          → e.index ≡ k0
          → Grows vals dp e.stack e e1
          → Visited vals dp e n e2
      popped-Visited e s i g = record {
        keeps = popped-Keeps;
        grows =
            Grows-trans vals dp e.stack e e1 e2 g
              (subst (λ t. Grows vals dp t e1 e2) s popped-Grows);
        seg = [];
        stack_is = w.stack_is ∙ s;
        l = l;
        low = w.low_same n ∙ p.low;
        seen = inl (now_settled n comp-top);
        anchor = inl (refl, omega arith);
        closed = λ m d c q. absurd (contains-nil m c);
        out = λ m c. absurd (contains-nil m c);
        back = λ m c. absurd (contains-nil m c);
      }

  seg_apart : contains p.seg n ≡ false
  seg_apart = elim (Bool-cases (contains p.seg n)) [
    | inl q ↦
        let (k, i, b) =
          Falls-above vals dp e1 e1.index p.seg n S n k0 (InLoop-Falls vals dp p) p.at q in
        absurd (ground (arith, p.at))
    | inr q ↦ q
  ]

  stack-allocated : (m : ℕ) → contains e1.stack m ≡ true → m < length e1.nodes
  stack-allocated m h =
      p.keeps.allocated m ((Falls-member vals dp e1 e1.index e1.stack m p.keeps.falls h).0)

  pub leave-Visited :
      (e : Executor x v)
      → S ≡ e.stack
      → e.index ≡ k0
      → Grows vals dp e.stack e e1
      → Works (length vals) (Visited vals dp e n) (leave e1 n)
  unfolding leave
  leave-Visited e s i g = elim (Bool-cases (l == k0)) [
    | inl q ↦
        rw (is_root_at (node e1 n) l k0 p.low p.at, q)
          (subst (λ t. Works (length vals) (Visited vals dp e n) (pop_scc n [] t e1))
            (sym p.stack_is)
            (Works-map (length vals) _ _ (pop_scc n [] (p.seg ++ (n ∷ S)) e1)
              (λ e2 w. popped-Visited (ground arith) e2 w e s i g)
              (pop_scc_lem (length vals) n [] p.seg S e1 fits seg_apart
                (stack-allocated n (InLoop-top vals dp p))
                (λ m c. stack-allocated m (comp-stack m (contains-left p.seg (n ∷ []) m c))))))
    | inr q ↦
        rw (is_root_at (node e1 n) l k0 p.low p.at, q)
          (stay-Visited e s i g (λ r. absurd (ground arith)))
  ]
