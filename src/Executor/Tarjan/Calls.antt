-- ===== src/Executor/Tarjan/Calls.antt =====
-- A round of the loop of `visit` in src/execute.c that calls `visit`, and the whole loop.
use epx_c.Base.{
  ℕ, ◌<◌, ◌≤◌, ◌≡◌, ◌⊎◌, inl, inr, true, false, Option, none, some, List, [], ◌∷◌, ◌++◌, length,
  Bool-cases, Option-cases, arith, sym, subst, ◌∙◌, ap, ltb, Outcome, ok, if◌then◌else◌,
  append_assoc,
}
use epx_c.Extern.{Externals, Vertices}
use epx_c.Executor.{TarjanNode, Executor, node, not_visited}
use epx_c.Executor.Components.{contains}
use epx_c.Executor.Visit.{lower, visit_dep, visit_deps}
use epx_c.Executor.Tarjan.{
  points, settled, PathTo, here, follow, Works, Stage, stacked, placed, white, Keeps, Reaches,
  Grows, Anchor, Visited,
}
use epx_c.Executor.Tarjan.Member.{
  contains-either, contains-right, contains-nil, contains-there, PathTo-trans, Works-bind,
  Works-map,
}
use epx_c.Executor.Tarjan.Nodes.{
  indexed-ne, Falls-drop, Falls-member, Falls-once, Reaches-less, Reaches-Grows, Grows-trans,
  Grows-refl, lower-Grows,
}
use epx_c.Executor.Tarjan.Loop.{
  only_pointer, InLoop, InLoop-top, InLoop-Falls, Rounds, lower-InLoop, at_or_below,
  on_stack-Rounds, Reaches-lower,
}

points-here : (tn : ℕ) (ds : List (Option ℕ)) → points (some tn ∷ ds) tn ≡ true
points-here tn ds = ground arith

points-there :
    (tn : ℕ) (ds : List (Option ℕ)) (d : ℕ) → points ds d ≡ true → points (some tn ∷ ds) d ≡ true
points-there tn ds d h = ground arith

points-cons :
    (tn : ℕ) (ds : List (Option ℕ)) (d : ℕ)
    → points (some tn ∷ ds) d ≡ true
    → (points (some tn ∷ []) d ≡ true) ⊎ (points ds d ≡ true)
points-cons tn ds d h = ground arith

pub unseen_index : (t : TarjanNode) → not_visited t ≡ true → t.index ≡ none
unfolding not_visited
unseen_index t h = elim (Option-cases t.index) [ inl p ↦ p | inr (k, p) ↦ absurd (ground arith) ]

module _ {x : Externals} {v : Vertices} (vals : List ℕ) (dp : ℕ → List (Option ℕ)) where
  Grows-fewer :
      (S T : List ℕ) (e e' : Executor x v)
      → ((m : ℕ) → contains S m ≡ true → contains T m ≡ true)
      → Grows vals dp T e e'
      → Grows vals dp S e e'
  Grows-fewer S T e e' h g = record {
    indexed = g.indexed;
    kept = g.kept;
    moved = g.moved;
    low_same = λ m c. g.low_same m (h m c);
  }

  -- what `visit` may be called at
  pub record IsCallable (n : ℕ) (e : Executor x v) : Type 0 where
    pub keeps : Keeps vals dp e
    pub live : contains vals n ≡ true
    pub unseen : (node e n).index ≡ none
    pub back : (m : ℕ) → contains e.stack m ≡ true → PathTo dp n m

  module _ (S : List ℕ) (n k0 l tn : ℕ) (e e1 : Executor x v) (p : InLoop vals dp S n k0 l l e)
      (w : Visited vals dp e tn e1) (edge : points (dp n) tn ≡ true) where
    below_top : (m : ℕ) → contains S m ≡ true → contains e.stack m ≡ true
    below_top m c =
        subst (λ s. contains s m ≡ true) (sym p.stack_is)
          (contains-right p.seg (n ∷ S) m (contains-there n S m c))

    -- what the call left on the stack leads back to `n`
    back_to : (m : ℕ) → contains w.seg m ≡ true → PathTo dp n m
    back_to m c = elim w.anchor [
      | inl (q, r) ↦ absurd (contains-nil m (subst (λ s. contains s m ≡ true) q c))
      | inr (t, c', i, q) ↦ PathTo-trans dp (w.back m c) (PathTo-trans dp q (p.back t c'))
    ]

    low-Anchor : (k0 ≤ w.l) ⊎ Anchor vals dp e1 S n w.l
    low-Anchor = elim w.anchor [
      | inl (q, r) ↦ inl (omega (arith, top_low))
      | inr (t, c, i, q) ↦
          elim (at_or_below vals dp S n k0 l l t w.l e p c (was_at t c i) (follow edge q)) [
            | inl h ↦ inl h
            | inr (t', c', i', q') ↦ inr (t', c', w.grows.indexed t' (indexed-ne i') ∙ i', q')
          ]
    ]
      where
        top_low : k0 < e.index
        top_low =
            let (live, on, (k, i, b)) =
              Falls-member vals dp e e.index e.stack n p.keeps.falls (InLoop-top vals dp p) in
            ground (arith, p.at)

        was_at :
            (t : ℕ)
            → contains e.stack t ≡ true
            → (node e1 t).index ≡ some w.l
            → (node e t).index ≡ some w.l
        was_at t c i =
            let (live, on, (k, j, b)) = Falls-member vals dp e e.index e.stack t p.keeps.falls c in
            sym (w.grows.indexed t (indexed-ne j)) ∙ i

    called : (c : ℕ) → c ≤ l → c ≤ w.l → InLoop vals dp S n k0 l c e1
    called c h h1 = record {
      keeps = w.keeps;
      seg = w.seg ++ p.seg;
      stack_is =
          w.stack_is ∙ ap (λ s. w.seg ++ s) p.stack_is ∙ sym (append_assoc w.seg p.seg (n ∷ S));
      at = w.grows.indexed n (indexed-ne p.at) ∙ p.at;
      low = w.grows.low_same n (InLoop-top vals dp p) ∙ p.low;
      le = p.le;
      anchor = elim p.anchor [
        | inl q ↦ inl q
        | inr (t, c', i, q) ↦ inr (t, c', w.grows.indexed t (indexed-ne i) ∙ i, q)
      ];
      closed = λ m d q r. elim (contains-either w.seg p.seg m q) [
        | inl q' ↦ Reaches-less vals dp e1 w.l c d h1 (w.closed m d q' r)
        | inr q' ↦
            Reaches-less vals dp e1 l c d h
              (Reaches-Grows vals dp e.stack e e1 l d w.grows (p.closed m d q' r))
      ];
      out = λ m q. elim (contains-either w.seg p.seg m q) [
        | inl q' ↦ follow edge (w.out m q')
        | inr q' ↦ p.out m q'
      ];
      back = λ m q.
          elim (contains-either w.seg e.stack m (subst (λ s. contains s m ≡ true) w.stack_is q)) [
            | inl q' ↦ back_to m q'
            | inr q' ↦ p.back m q'
          ];
    }

    call-Rounds : Rounds vals dp S n k0 l (some tn ∷ []) e (lower e1 n (node e1 tn).low_link)
    call-Rounds =
        subst (λ o. Rounds vals dp S n k0 l (some tn ∷ []) e (lower e1 n o)) (sym w.low)
          (record {
            l' = if ltb l w.l then l else w.l;
            after = lower-InLoop vals dp S n k0 l w.l e1 inside low-Anchor;
            grows =
                Grows-trans vals dp S e e1 (lower e1 n (some w.l))
                  (Grows-fewer S e.stack e e1 below_top w.grows)
                  (lower-Grows vals dp S e1 n (some w.l) (
                    Falls-once vals dp e e.index n S
                      (Falls-drop vals dp e e.index p.seg n S (InLoop-Falls vals dp p))));
            less = ground arith;
            reached = λ d q.
                subst
                  (λ k. Reaches vals dp (lower e1 n (some w.l)) (if ltb l w.l then l else w.l) k)
                  (only_pointer tn d q)
                  (Reaches-lower vals dp S n k0 e1 _ tn (some w.l)
                    (Reaches-less vals dp e1 w.l _ tn (ground arith) w.seen));
          })
      where
        inside : InLoop vals dp S n k0 l (if ltb l w.l then l else w.l) e1
        inside = called (if ltb l w.l then l else w.l) (ground arith) (ground arith)

  -- one round, then the others
  Rounds-cons :
      (S : List ℕ) (n k0 l tn : ℕ) (ds : List (Option ℕ)) (e e1 e2 : Executor x v)
      (r : Rounds vals dp S n k0 l (some tn ∷ []) e e1)
      → Rounds vals dp S n k0 r.l' ds e1 e2
      → Rounds vals dp S n k0 l (some tn ∷ ds) e e2
  Rounds-cons S n k0 l tn ds e e1 e2 r r' = record {
    l' = r'.l';
    after = r'.after;
    grows = Grows-trans vals dp S e e1 e2 r.grows r'.grows;
    less = omega (arith, r.less, r'.less);
    reached = λ d q. elim (points-cons tn ds d q) [
      | inl h ↦
          Reaches-less vals dp e2 r.l' r'.l' d r'.less
            (Reaches-Grows vals dp S e1 e2 r.l' d r'.grows (r.reached d h))
      | inr h ↦ r'.reached d h
    ];
  }

  idle-Rounds :
      (S : List ℕ) (n k0 l tn : ℕ) (e : Executor x v)
      → InLoop vals dp S n k0 l l e
      → settled e.sccs tn ≡ true
      → Rounds vals dp S n k0 l (some tn ∷ []) e e
  idle-Rounds S n k0 l tn e p h = record {
    l' = l;
    after = p;
    grows = Grows-refl vals dp S e;
    less = omega arith;
    reached = λ d q. inl (subst (λ k. settled e.sccs k ≡ true) (only_pointer tn d q) h);
  }

  module _ (again : Executor x v → ℕ → Outcome (Executor x v))
      (calls : (n : ℕ) (e : Executor x v)
        → IsCallable n e
        → Works (length vals) (Visited vals dp e n) (again e n)) where
    seen_dep :
        (S : List ℕ) (n k0 l tn : ℕ) (e : Executor x v)
        → InLoop vals dp S n k0 l l e
        → points (dp n) tn ≡ true
        → Stage vals dp e tn
        → not_visited (node e tn) ≡ false
        → Works
            (length vals)
            (Rounds vals dp S n k0 l (some tn ∷ []) e)
            (if (node e tn).on_stack then ok (lower e n (node e tn).index) else ok e)
    unfolding not_visited
    seen_dep S n k0 l tn e p h (stacked c) u =
        let (live, on, (k, i, b)) = Falls-member vals dp e e.index e.stack tn p.keeps.falls c in
        rw (on, i) (on_stack-Rounds vals dp S n k0 l k tn e p h c i)
    seen_dep S n k0 l tn e p h (placed c) u =
        rw ((p.keeps.done tn c).1) (idle-Rounds S n k0 l tn e p c)
    seen_dep S n k0 l tn e p h (white c) u = absurd (ground arith)

    visit_dep-Rounds :
        (S : List ℕ) (n k0 l tn : ℕ) (e : Executor x v)
        → InLoop vals dp S n k0 l l e
        → points (dp n) tn ≡ true
        → contains vals tn ≡ true
        → Works (length vals) (Rounds vals dp S n k0 l (some tn ∷ []) e) (visit_dep again n tn e)
    unfolding visit_dep
    visit_dep-Rounds S n k0 l tn e p h c = elim (Bool-cases (not_visited (node e tn))) [
      | inl u ↦ rw u (
          Works-bind (length vals) (Visited vals dp e tn) _ (again e tn) _
            (calls tn e (record {
              keeps = p.keeps;
              live = c;
              unseen = unseen_index (node e tn) u;
              back = λ m q. PathTo-trans dp (p.back m q) (follow h here);
            }))
            (λ e1 w. call-Rounds S n k0 l tn e e1 p w h))
      | inr u ↦ rw u (seen_dep S n k0 l tn e p h (p.keeps.stage tn c) u)
    ]

    pub visit_deps-Rounds :
        (S : List ℕ) (n k0 : ℕ) (ds : List (Option ℕ)) (l : ℕ) (e : Executor x v)
        → InLoop vals dp S n k0 l l e
        → ((d : ℕ) → points ds d ≡ true → points (dp n) d ≡ true)
        → ((d : ℕ) → points ds d ≡ true → contains vals d ≡ true)
        → Works (length vals) (Rounds vals dp S n k0 l ds e) (visit_deps again n ds e)
    unfolding visit_deps
    visit_deps-Rounds S n k0 [] l e p h c = record {
      l' = l;
      after = p;
      grows = Grows-refl vals dp S e;
      less = omega arith;
      reached = λ d q. absurd (ground arith);
    }
    visit_deps-Rounds S n k0 (none ∷ ds) l e p h c =
        Works-map (length vals) _ _ (visit_deps again n ds e)
          (λ e' r. record {
            l' = r.l';
            after = r.after;
            grows = r.grows;
            less = r.less;
            reached = λ d q. r.reached d q;
          })
          (visit_deps-Rounds S n k0 ds l e p h c)
    visit_deps-Rounds S n k0 (some tn ∷ ds) l e p h c =
        Works-bind (length vals) (Rounds vals dp S n k0 l (some tn ∷ []) e) _
          (visit_dep again n tn e) _
          (visit_dep-Rounds S n k0 l tn e p (h tn (points-here tn ds)) (c tn (points-here tn ds)))
          (λ e1 r.
            Works-map (length vals) _ _ (visit_deps again n ds e1)
              (λ e' r'. Rounds-cons S n k0 l tn ds e e1 e' r r')
              (visit_deps-Rounds S n k0 ds r.l' e1 r.after (λ d q. h d (points-there tn ds d q))
                (λ d q. c d (points-there tn ds d q))))
