-- ===== src/Executor/Tarjan/Popped.antt =====
-- The loop of `visit` in src/execute.c that pops a component off the stack.
use epx_c.Base.{
  ℕ, suc, ◌+◌, ◌<◌, ◌≤◌, ◌≡◌, refl, ◌≢◌, inl, inr, true, false, ◌&&◌, not, List, [], ◌∷◌, ◌++◌,
  length, length-set, get_or-set_self, get_or-set_ne, Bool-cases, arith, subst, ◌∙◌, ap, ltb, ◌==◌,
  ==_iff, ==-refl, append_assoc, length-snoc,
}
use epx_c.Epx.{max_deps}
use epx_c.Extern.{Externals, Vertices}
use epx_c.Executor.{Executor, no_node, node, set_node}
use epx_c.Executor.Components.{contains}
use epx_c.Executor.Visit.{pop_scc}
use epx_c.Executor.Tarjan.{Works}
use epx_c.Executor.Tarjan.Member.{
  Works-map, Works-last, Works-next, contains-cons, contains-here, contains-there, contains-nil,
}
use epx_c.Executor.Tarjan.Nodes.{field-set}

bad_size :
    (size a b c : ℕ)
    → (size ≤ max_deps → (a < max_deps) × (b + c < max_deps))
    → not (ltb a max_deps && ltb b max_deps) ≡ true
    → max_deps < size
bad_size size a b c f h = elim (Bool-cases (ltb max_deps size)) [
  | inl q ↦ ground arith
  | inr q ↦ let (l, r) = f (ground arith) in absurd (ground arith)
]

not_later : (seg : List ℕ) (tn n : ℕ) → contains (tn ∷ seg) n ≡ false → contains seg n ≡ false
not_later seg tn n h = elim (Bool-cases (contains seg n)) [
  | inl r ↦ absurd (ground (arith, contains-there tn seg n r))
  | inr r ↦ r
]

not_now : (seg : List ℕ) (tn n : ℕ) → contains (tn ∷ seg) n ≡ false → (tn == n) ≡ false
unfolding contains
not_now seg tn n h = ground arith

module _ {x : Externals} {v : Vertices} where
  -- the state after the component `c` is popped down to the stack `S`
  pub record IsPopped (S c : List ℕ) (earlier : List (List ℕ)) (popped : List ℕ)
      (e e' : Executor x v) : Type 0 where
    pub stack_is : e'.stack ≡ S
    pub sccs_are : e'.sccs ≡ earlier ++ (c ∷ [])
    pub index_is : e'.index ≡ e.index
    pub size_is : length e'.nodes ≡ length e.nodes
    pub index_same : (m : ℕ) → (node e' m).index ≡ (node e m).index
    pub low_same : (m : ℕ) → (node e' m).low_link ≡ (node e m).low_link
    pub deps_same : (m : ℕ) → (node e' m).deps ≡ (node e m).deps
    pub off : (m : ℕ) → contains popped m ≡ true → (node e' m).on_stack ≡ false
    pub stays : (m : ℕ) → contains popped m ≡ false → (node e' m).on_stack ≡ (node e m).on_stack

  abbrev off_stack : Executor x v → ℕ → List ℕ → Executor x v
  off_stack e tn stack =
      set_node (record e { stack = stack }) tn (record (node e tn) { on_stack = false })

  off_stack-off :
      (e : Executor x v) (tn : ℕ) (stack : List ℕ)
      → tn < length e.nodes
      → (node (off_stack e tn stack) tn).on_stack ≡ false
  off_stack-off e tn stack h = ap (λ t. t.on_stack) (get_or-set_self e.nodes tn _ no_node h)

  off_stack-stays :
      (e : Executor x v) (tn m : ℕ) (stack : List ℕ)
      → tn ≢ m
      → (node (off_stack e tn stack) m).on_stack ≡ (node e m).on_stack
  off_stack-stays e tn m stack h = ap (λ t. t.on_stack) (get_or-set_ne e.nodes _ no_node h)

  -- a node that is off the stack stays off it
  off_stack-keeps_off :
      (e : Executor x v) (tn m : ℕ) (stack : List ℕ)
      → tn < length e.nodes
      → (node e m).on_stack ≡ false
      → (node (off_stack e tn stack) m).on_stack ≡ false
  off_stack-keeps_off e tn m stack h o = elim (Bool-cases (tn == m)) [
    | inl p ↦
        subst (λ k. (node (off_stack e tn stack) k).on_stack ≡ false) ((==_iff tn m).0 p)
          (off_stack-off e tn stack h)
    | inr p ↦ off_stack-stays e tn m stack (ground arith) ∙ o
  ]

  -- one round, then the others
  IsPopped-cons :
      (S c : List ℕ) (earlier : List (List ℕ)) (popped : List ℕ) (e e' : Executor x v) (tn : ℕ)
      (stack : List ℕ)
      → tn < length e.nodes
      → IsPopped S c earlier popped (off_stack e tn stack) e'
      → IsPopped S c earlier (tn ∷ popped) e e'
  IsPopped-cons S c earlier popped e e' tn stack h p = record {
    stack_is = p.stack_is;
    sccs_are = p.sccs_are;
    index_is = p.index_is;
    size_is = p.size_is ∙ length-set e.nodes tn _;
    index_same = λ m. p.index_same m ∙ field-set (λ t. t.index) e.nodes tn _ m refl;
    low_same = λ m. p.low_same m ∙ field-set (λ t. t.low_link) e.nodes tn _ m refl;
    deps_same = λ m. p.deps_same m ∙ field-set (λ t. t.deps) e.nodes tn _ m refl;
    off = λ m q. elim (Bool-cases (contains popped m)) [
      | inl g ↦ p.off m g
      | inr g ↦ p.stays m g ∙ popped_here m q g
    ];
    stays =
        λ m q. p.stays m (not_later popped tn m q) ∙ off_stack-stays e tn m stack (head_stays m q);
  }
    where
      popped_here :
          (m : ℕ)
          → contains (tn ∷ popped) m ≡ true
          → contains popped m ≡ false
          → (node (off_stack e tn stack) m).on_stack ≡ false
      popped_here m q g = elim (contains-cons tn popped m q) [
        | inl r ↦
            subst (λ k. (node (off_stack e tn stack) k).on_stack ≡ false) r
              (off_stack-off e tn stack h)
        | inr r ↦ absurd (ground arith)
      ]

      head_stays : (m : ℕ) → contains (tn ∷ popped) m ≡ false → tn ≢ m
      head_stays m q r =
          absurd (
            ground
              (arith, subst (λ k. contains (tn ∷ popped) k ≡ true) r (contains-here tn popped)))

  last-IsPopped :
      (n : ℕ) (c S : List ℕ) (e : Executor x v)
      → n < length e.nodes
      → IsPopped S c e.sccs (n ∷ []) e (record (off_stack e n S) { sccs = e.sccs ++ (c ∷ []) })
  last-IsPopped n c S e l = IsPopped-cons S c e.sccs [] e _ n S l (record {
    stack_is = refl;
    sccs_are = refl;
    index_is = refl;
    size_is = refl;
    index_same = λ m. refl;
    low_same = λ m. refl;
    deps_same = λ m. refl;
    off = λ m q. absurd (contains-nil m q);
    stays = λ m q. refl;
  })

  -- down to `n`, which is not in `seg`
  pub pop_scc_lem :
      (size n : ℕ) (comp seg S : List ℕ) (e : Executor x v)
      → (size ≤ max_deps → (length e.sccs < max_deps) × (length comp + length seg < max_deps))
      → contains seg n ≡ false
      → n < length e.nodes
      → ((m : ℕ) → contains seg m ≡ true → m < length e.nodes)
      → Works size
          (IsPopped S (comp ++ (seg ++ (n ∷ []))) e.sccs (seg ++ (n ∷ [])) e)
          (pop_scc n comp (seg ++ (n ∷ S)) e)
  unfolding pop_scc
  pop_scc_lem size n comp [] S e f h l a =
      Works-last size _ _ (n == n) _ _ (bad_size size _ _ 0 f) (==-refl n)
        (last-IsPopped n (comp ++ (n ∷ [])) S e l)
  pop_scc_lem size n comp (tn ∷ seg) S e f h l a =
      Works-next size _ _ (tn == n) _ _ (bad_size size _ _ (suc (length seg)) f)
        (not_now seg tn n h)
        (Works-map size _ _ (pop_scc n (comp ++ (tn ∷ [])) (seg ++ (n ∷ S)) e1)
          (λ e' p.
            subst (λ c. IsPopped S c e.sccs (tn ∷ seg ++ (n ∷ [])) e e')
              (append_assoc comp (tn ∷ []) (seg ++ (n ∷ [])))
              (IsPopped-cons S _ e.sccs (seg ++ (n ∷ [])) e e' tn (seg ++ (n ∷ S))
                (a tn (contains-here tn seg)) p))
          (pop_scc_lem size n (comp ++ (tn ∷ [])) seg S e1 still_fits (not_later seg tn n h)
            (grown n l) (λ m c. grown m (a m (contains-there tn seg m c)))))
    where
      e1 : Executor x v
      e1 = off_stack e tn (seg ++ (n ∷ S))

      still_fits :
          size ≤ max_deps
          → (length e1.sccs < max_deps) × (length (comp ++ (tn ∷ [])) + length seg < max_deps)
      still_fits q = let (a, b) = f q in (omega arith, omega (arith, length-snoc comp tn))

      grown : (m : ℕ) → m < length e.nodes → m < length e1.nodes
      grown m q = omega (arith, length-set e.nodes tn _)
