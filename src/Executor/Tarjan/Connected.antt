-- ===== src/Executor/Tarjan/Connected.antt =====
-- `visit` and the second loop of `strong_connect` in src/execute.c, over the whole graph.
use epx_c.Base.{
  ℕ, zero, suc, ◌≡◌, refl, ◌⊎◌, inl, inr, true, false, Option, List, [], ◌∷◌, ◌++◌, length,
  Bool-cases, arith, sym, subst, ◌∙◌, ap, ok, if◌then◌else◌,
}
use epx_c.Extern.{Externals, Vertices}
use epx_c.Executor.{Executor, node, not_visited}
use epx_c.Executor.Components.{contains}
use epx_c.Executor.Visit.{enter, visit_deps, visit, visit_all}
use epx_c.Executor.Tarjan.{points, settled, Works, Stage, stacked, placed, white, Keeps, Visited}
use epx_c.Executor.Tarjan.Member.{
  contains-nil, contains-cons, contains-here, contains-there, Works-bind, Works-map,
}
use epx_c.Executor.Tarjan.Nodes.{Grows-trans}
use epx_c.Executor.Tarjan.Loop.{Rounds}
use epx_c.Executor.Tarjan.Calls.{IsCallable, unseen_index, visit_deps-Rounds}
use epx_c.Executor.Tarjan.Enter.{enter-Grows, enter-InLoop}
use epx_c.Executor.Tarjan.Leave.{leave-Visited}

abbrev pub all_of : List ℕ → List ℕ → List ℕ
all_of [] before = before
all_of (tn ∷ tns) before = all_of tns (tn ∷ before)

module _ {x : Externals} {v : Vertices} (vals : List ℕ) (dp : ℕ → List (Option ℕ)) where
  -- between the calls of `strong_connect`: the nodes `tns` are in components
  pub record IsBetween (tns : List ℕ) (e : Executor x v) : Type 0 where
    pub keeps : Keeps vals dp e
    pub nothing : e.stack ≡ []
    pub settles : (m : ℕ) → contains tns m ≡ true → settled e.sccs m ≡ true

  nothing_on : (e : Executor x v) (m : ℕ) → e.stack ≡ [] → contains e.stack m ≡ true → ⊥
  nothing_on e m h c = contains-nil m (subst (λ s. contains s m ≡ true) h c)

  IsBetween-Visited :
      (tns : List ℕ) (n : ℕ) (e e1 : Executor x v)
      → IsBetween tns e
      → Visited vals dp e n e1
      → IsBetween (n ∷ tns) e1
  IsBetween-Visited tns n e e1 b w = record {
    keeps = w.keeps;
    nothing = alone;
    settles = λ m c. elim (contains-cons n tns m c) [
      | inl q ↦ subst (λ k. settled e1.sccs k ≡ true) q here_settled
      | inr q ↦ w.grows.kept m (b.settles m q)
    ];
  }
    where
      alone : e1.stack ≡ []
      alone = elim w.anchor [
        | inl (q, r) ↦ w.stack_is ∙ ap (λ s. s ++ e.stack) q ∙ b.nothing
        | inr (t, c, i, q) ↦ absurd (nothing_on e t b.nothing c)
      ]

      here_settled : settled e1.sccs n ≡ true
      here_settled = elim w.seen [ inl q ↦ q | inr (q, i) ↦ absurd (nothing_on e1 n alone q) ]

  seen_settled :
      (n : ℕ) (e : Executor x v)
      → e.stack ≡ []
      → not_visited (node e n) ≡ false
      → Stage vals dp e n
      → settled e.sccs n ≡ true
  unfolding not_visited
  seen_settled n e h u (stacked c) = absurd (nothing_on e n h c)
  seen_settled n e h u (placed c) = c
  seen_settled n e h u (white c) = absurd (ground arith)

module _ {x : Externals} {v : Vertices} (vals : List ℕ) (dp : ℕ → List (Option ℕ))
    (linked : (m d : ℕ)
      → contains vals m ≡ true
      → points (dp m) d ≡ true
      → contains vals d ≡ true) where
  visit-Visited :
      (fuel n : ℕ) (e : Executor x v)
      → IsCallable vals dp n e
      → Works (length vals) (Visited vals dp e n) (visit fuel e n)
  unfolding visit
  visit-Visited zero n e c = inr refl
  visit-Visited (suc fuel) n e c =
      Works-bind (length vals) (Rounds vals dp e.stack n e.index e.index (dp n) (enter e n)) _
        (visit_deps (visit fuel) n (node e n).deps (enter e n)) _
        (subst
          (λ ds.
            Works (length vals) (Rounds vals dp e.stack n e.index e.index (dp n) (enter e n))
              (visit_deps (visit fuel) n ds (enter e n)))
          (sym (c.keeps.deps_are n c.live))
          (visit_deps-Rounds vals dp (visit fuel) (visit-Visited fuel) e.stack n e.index (dp n)
            e.index (enter e n) (enter-InLoop vals dp n e c) (λ d q. q)
            (λ d q. linked n d c.live q)))
        (λ e1 r.
          leave-Visited vals dp e.stack n e.index r.l' e1 r.after r.reached e refl refl
            (Grows-trans vals dp e.stack e (enter e n) e1 (enter-Grows vals dp n e c) r.grows))

  visit_one :
      (fuel n : ℕ) (before : List ℕ) (e : Executor x v)
      → IsBetween vals dp before e
      → contains vals n ≡ true
      → Works
          (length vals)
          (IsBetween vals dp (n ∷ before))
          (if not_visited (node e n) then visit fuel e n else ok e)
  visit_one fuel n before e b c = elim (Bool-cases (not_visited (node e n))) [
    | inl u ↦ rw u (
        Works-map (length vals) (Visited vals dp e n) _ (visit fuel e n)
          (λ e1 w. IsBetween-Visited vals dp before n e e1 b w)
          (visit-Visited fuel n e (record {
            keeps = b.keeps;
            live = c;
            unseen = unseen_index (node e n) u;
            back = λ m q. absurd (nothing_on vals dp e m b.nothing q);
          })))
    | inr u ↦ rw u (record {
      keeps = b.keeps;
      nothing = b.nothing;
      settles = λ m q. elim (contains-cons n before m q) [
        | inl r ↦
            subst (λ k. settled e.sccs k ≡ true) r
              (seen_settled vals dp n e b.nothing u (b.keeps.stage n c))
        | inr r ↦ b.settles m r
      ];
    })
  ]

  pub visit_all-IsBetween :
      (fuel : ℕ) (tns before : List ℕ) (e : Executor x v)
      → IsBetween vals dp before e
      → ((m : ℕ) → contains tns m ≡ true → contains vals m ≡ true)
      → Works (length vals) (IsBetween vals dp (all_of tns before)) (visit_all fuel tns e)
  unfolding visit_all
  visit_all-IsBetween fuel [] before e b h = b
  visit_all-IsBetween fuel (tn ∷ tns) before e b h =
      Works-bind (length vals) (IsBetween vals dp (tn ∷ before)) _
        (if not_visited (node e tn) then visit fuel e tn else ok e) _
        (visit_one fuel tn before e b (h tn (contains-here tn tns)))
        (λ e1 b1.
          visit_all-IsBetween fuel tns (tn ∷ before) e1 b1 (λ m c. h m (contains-there tn tns m c)))

-- every node of a list that is visited in turn
pub contains-all_of :
    (tns before : List ℕ) (m : ℕ)
    → (contains tns m ≡ true) ⊎ (contains before m ≡ true)
    → contains (all_of tns before) m ≡ true
contains-all_of [] before m (inl c) = absurd (contains-nil m c)
contains-all_of [] before m (inr c) = c
contains-all_of (tn ∷ tns) before m (inl c) = elim (contains-cons tn tns m c) [
  | inl q ↦
      contains-all_of tns (tn ∷ before) m
        (inr (subst (λ k. contains (tn ∷ before) k ≡ true) q (contains-here tn before)))
  | inr q ↦ contains-all_of tns (tn ∷ before) m (inl q)
]
contains-all_of (tn ∷ tns) before m (inr c) =
    contains-all_of tns (tn ∷ before) m (inr (contains-there tn before m c))
