-- ===== src/Executor/Tarjan/Loop.antt =====
-- The loop of `visit` in src/execute.c over the pointers of a node.
use epx_c.Base.{
  ℕ, ◌≤◌, ◌≡◌, ◌⊎◌, inl, inr, true, Option, some, List, [], ◌∷◌, ◌++◌, Bool-cases, arith, sym,
  subst, ◌∙◌, ltb, if◌then◌else◌,
}
use epx_c.Extern.{Externals, Vertices}
use epx_c.Executor.{Executor, node}
use epx_c.Executor.Components.{contains}
use epx_c.Executor.Visit.{lower}
use epx_c.Executor.Tarjan.{points, PathTo, here, follow, Falls, Keeps, Reaches, Grows, Anchor}
use epx_c.Executor.Tarjan.Member.{contains-right, contains-here}
use epx_c.Executor.Tarjan.Nodes.{
  Falls-drop, Falls-member, Falls-below, Falls-once, lower-Keeps, index-lower, Reaches-less,
  lower-Grows, low-lower,
}

pub only_pointer : (tn d : ℕ) → points (some tn ∷ []) d ≡ true → tn ≡ d
only_pointer tn d h = ground arith

module _ {x : Externals} {v : Vertices} (vals : List ℕ) (dp : ℕ → List (Option ℕ)) where
  -- In the loop of `visit` at `n`, which stands at the index `k0` on the nodes `S`: its `low_link`
  -- is `l`, and the pointers of the nodes above it reach `c` or higher.
  pub record InLoop (S : List ℕ) (n k0 l c : ℕ) (e : Executor x v) : Type 0 where
    pub keeps : Keeps vals dp e
    pub seg : List ℕ
    pub stack_is : e.stack ≡ seg ++ (n ∷ S)
    pub at : (node e n).index ≡ some k0
    pub low : (node e n).low_link ≡ some l
    pub le : l ≤ k0
    pub anchor : (l ≡ k0) ⊎ Anchor vals dp e S n l
    pub closed : (m d : ℕ) → contains seg m ≡ true → points (dp m) d ≡ true → Reaches vals dp e c d
    pub out : (m : ℕ) → contains seg m ≡ true → PathTo dp m n
    pub back : (m : ℕ) → contains e.stack m ≡ true → PathTo dp n m

  pub InLoop-top :
      {S : List ℕ} {n k0 l c : ℕ} {e : Executor x v}
      → InLoop S n k0 l c e
      → contains e.stack n ≡ true
  InLoop-top {S} {n} p =
      subst (λ s. contains s n ≡ true) (sym p.stack_is)
        (contains-right p.seg (n ∷ S) n (contains-here n S))

  pub InLoop-Falls :
      {S : List ℕ} {n k0 l c : ℕ} {e : Executor x v} (p : InLoop S n k0 l c e)
      → Falls vals dp e e.index (p.seg ++ (n ∷ S))
  InLoop-Falls {e} p = subst (λ s. Falls vals dp e e.index s) p.stack_is p.keeps.falls

  -- rounds of the loop, for the pointers `ds`
  pub record Rounds (S : List ℕ) (n k0 l : ℕ) (ds : List (Option ℕ)) (e e' : Executor x v)
      : Type 0 where
    pub l' : ℕ
    pub after : InLoop S n k0 l' l' e'
    pub grows : Grows vals dp S e e'
    pub less : l' ≤ l
    pub reached : (d : ℕ) → points ds d ≡ true → Reaches vals dp e' l' d

  module _ (S : List ℕ) (n k0 : ℕ) where
    pub Reaches-lower :
        (e : Executor x v) (l d : ℕ) (o : Option ℕ)
        → Reaches vals dp e l d
        → Reaches vals dp (lower e n o) l d
    unfolding lower
    Reaches-lower e l d o (inl r) = inl r
    Reaches-lower e l d o (inr (r, (k, i, j))) = inr (r, (k, index-lower vals dp e n d o ∙ i, j))

    Anchor-lower :
        (e : Executor x v) (l : ℕ) (o : Option ℕ)
        → Anchor vals dp e S n l
        → Anchor vals dp (lower e n o) S n l
    Anchor-lower e l o (t, c, i, p) = (t, c, index-lower vals dp e n t o ∙ i, p)

    lower-Anchor :
        (e : Executor x v) (l l1 : ℕ)
        → l ≤ k0
        → (l ≡ k0) ⊎ Anchor vals dp e S n l
        → (k0 ≤ l1) ⊎ Anchor vals dp e S n l1
        → ((if ltb l l1 then l else l1) ≡ k0) ⊎ Anchor vals dp e S n (if ltb l l1 then l else l1)
    lower-Anchor e l l1 h a b = elim (Bool-cases (ltb l l1)) [
      | inl q ↦ rw q a
      | inr q ↦ rw q (elim b [ inl r ↦ inl (ground arith) | inr r ↦ inr r ])
    ]

    -- the `low_link` of `n` falls to what its pointers reach
    pub lower-InLoop :
        (l l1 : ℕ) (e : Executor x v)
        → InLoop S n k0 l (if ltb l l1 then l else l1) e
        → (k0 ≤ l1) ⊎ Anchor vals dp e S n l1
        → InLoop S n k0
            (if ltb l l1 then l else l1)
            (if ltb l l1 then l else l1)
            (lower e n (some l1))
    lower-InLoop l l1 e p b = record {
      keeps = lower-Keeps vals dp e n (some l1) p.keeps;
      seg = p.seg;
      stack_is = unfold lower in p.stack_is;
      at = index-lower vals dp e n n (some l1) ∙ p.at;
      low = low-lower vals dp e n l l1 (p.keeps.allocated n is_live) p.low;
      le = ground (arith, p.le);
      anchor = elim (lower-Anchor e l l1 p.le p.anchor b) [
        | inl q ↦ inl q
        | inr q ↦ inr (Anchor-lower e _ (some l1) q)
      ];
      closed = λ m d c q. Reaches-lower e _ d (some l1) (p.closed m d c q);
      out = p.out;
      back = λ m c. p.back m (unfold lower in c);
    }
      where
        is_live : contains vals n ≡ true
        is_live = (Falls-member vals dp e e.index e.stack n p.keeps.falls (InLoop-top p)).0

    pub closed_less :
        (l c : ℕ) (e : Executor x v) → c ≤ l → InLoop S n k0 l l e → InLoop S n k0 l c e
    closed_less l c e h p = record {
      keeps = p.keeps;
      seg = p.seg;
      stack_is = p.stack_is;
      at = p.at;
      low = p.low;
      le = p.le;
      anchor = p.anchor;
      closed = λ m d q r. Reaches-less vals dp e l c d h (p.closed m d q r);
      out = p.out;
      back = p.back;
    }

    -- a node on the stack stands at `k0` or higher, or is one of `S`
    pub at_or_below :
        (l c t j : ℕ) (e : Executor x v)
        → InLoop S n k0 l c e
        → contains e.stack t ≡ true
        → (node e t).index ≡ some j
        → PathTo dp t n
        → (k0 ≤ j) ⊎ Anchor vals dp e S n j
    at_or_below l c t j e p h i q = elim (Bool-cases (ltb j k0)) [
      | inl r ↦ inr (
        t,
        Falls-below vals dp e e.index p.seg n S t k0 j (InLoop-Falls p) p.at
            (subst (λ s. contains s t ≡ true) p.stack_is h) i (ground arith),
        i,
        q,
      )
      | inr r ↦ inl (ground arith)
    ]

    -- a pointer to a node on the stack
    pub on_stack-Rounds :
        (l j tn : ℕ) (e : Executor x v)
        → InLoop S n k0 l l e
        → points (dp n) tn ≡ true
        → contains e.stack tn ≡ true
        → (node e tn).index ≡ some j
        → Rounds S n k0 l (some tn ∷ []) e (lower e n (some j))
    on_stack-Rounds l j tn e p h c i = record {
      l' = if ltb l j then l else j;
      after =
          lower-InLoop l j e (closed_less l (if ltb l j then l else j) e (ground arith) p)
            (at_or_below l l tn j e p c i (follow h here));
      grows = lower-Grows vals dp S e n (some j) (
          Falls-once vals dp e e.index n S
            (Falls-drop vals dp e e.index p.seg n S (InLoop-Falls p)));
      less = ground arith;
      reached = λ d q.
          subst (λ k. Reaches vals dp (lower e n (some j)) (if ltb l j then l else j) k)
            (only_pointer tn d q) (Reaches-lower e _ tn (some j) (inr (c, (j, i, ground arith))));
    }
