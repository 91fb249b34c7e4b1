-- ===== src/Executor/Frame.antt =====
-- What Tarjan's algorithm of src/execute.c leaves alone: the map, the replica, and the instances that
-- the nodes point to.
use epx_c.Base.{
  ℕ, zero, suc, ◌≡◌, refl, inl, inr, true, false, Option, none, some, List, [], ◌∷◌, ◌++◌, length,
  length-set, Bool-cases, ◌∙◌, Outcome, ok, fault, Ensures, Ensures-bind, ◌==◌, if◌then◌else◌, Bool,
  out_of_bounds, map, Ensures-then,
}
use epx_c.Instance.{Instance}
use epx_c.Extern.{Externals, Vertices}
use epx_c.Executor.{Executor, node, set_node, not_visited, reset_node, instance_of}
use epx_c.Executor.Visit.{
  is_root, enter, lower, pop_scc, leave, visit_dep, visit_deps, visit, dep_node, connect, visit_all,
  strong_connect,
}
use epx_c.Executor.Tarjan.Nodes.{field-set}

module _ {x : Externals} {v : Vertices} where
  pub record Frames (e e' : Executor x v) : Type 0 where
    pub vertices : e'.vertices ≡ e.vertices
    pub replica : e'.r ≡ e.r
    pub ids : (m : ℕ) → (node e' m).i ≡ (node e m).i
    pub size : length e'.nodes ≡ length e.nodes

  Frames-refl : (e : Executor x v) → Frames e e
  Frames-refl e = record { vertices = refl; replica = refl; ids = λ m. refl; size = refl }

  pub Frames-trans : (e e1 e2 : Executor x v) → Frames e e1 → Frames e1 e2 → Frames e e2
  Frames-trans e e1 e2 f g = record {
    vertices = g.vertices ∙ f.vertices;
    replica = g.replica ∙ f.replica;
    ids = λ m. g.ids m ∙ f.ids m;
    size = g.size ∙ f.size;
  }

  -- a step, then others
  Frames-bind :
      (e e1 : Executor x v) (m : Outcome (Executor x v))
      → Frames e e1
      → Ensures (Frames e1) m
      → Ensures (Frames e) m
  Frames-bind e e1 (ok e2) f g = Frames-trans e e1 e2 f g
  Frames-bind e e1 (fault k) f g = tt

  enter-Frames : (n : ℕ) (e : Executor x v) → Frames e (enter e n)
  unfolding enter
  enter-Frames n e = record {
    vertices = refl;
    replica = refl;
    ids = λ m. field-set (λ t. t.i) e.nodes n _ m refl;
    size = length-set e.nodes n _;
  }

  lower-Frames : (n : ℕ) (l : Option ℕ) (e : Executor x v) → Frames e (lower e n l)
  unfolding lower
  lower-Frames n l e = record {
    vertices = refl;
    replica = refl;
    ids = λ m. field-set (λ t. t.i) e.nodes n _ m refl;
    size = length-set e.nodes n _;
  }

  abbrev popped : Executor x v → ℕ → List ℕ → Executor x v
  popped e tn stack =
      set_node (record e { stack = stack }) tn (record (node e tn) { on_stack = false })

  popped-Frames : (tn : ℕ) (stack : List ℕ) (e : Executor x v) → Frames e (popped e tn stack)
  popped-Frames tn stack e = record {
    vertices = refl;
    replica = refl;
    ids = λ m. field-set (λ t. t.i) e.nodes tn _ m refl;
    size = length-set e.nodes tn _;
  }

  with_sccs :
      (e e' : Executor x v) (cs : List (List ℕ)) → Frames e e' → Frames e (record e' { sccs = cs })
  with_sccs e e' cs f = record {
    vertices = f.vertices;
    replica = f.replica;
    ids = f.ids;
    size = f.size;
  }

  three_ways :
      (P : Executor x v → Type 0) (bad last : Bool) (m rest : Outcome (Executor x v))
      → Ensures P m
      → Ensures P rest
      → Ensures P (if bad then fault out_of_bounds else if last then m else rest)
  three_ways P true last m rest h g = tt
  three_ways P false true m rest h g = h
  three_ways P false false m rest h g = g

  pop_scc-Frames :
      (n : ℕ) (comp stack : List ℕ) (e : Executor x v) → Ensures (Frames e) (pop_scc n comp stack e)
  unfolding pop_scc
  pop_scc-Frames n comp [] e = tt
  pop_scc-Frames n comp (tn ∷ stack) e =
      three_ways (Frames e) _ (tn == n) _ _
        (with_sccs e (popped e tn stack) _ (popped-Frames tn stack e))
        (Frames-bind e (popped e tn stack) (pop_scc n (comp ++ (tn ∷ [])) stack (popped e tn stack))
          (popped-Frames tn stack e)
          (pop_scc-Frames n (comp ++ (tn ∷ [])) stack (popped e tn stack)))

  leave-Frames : (n : ℕ) (e : Executor x v) → Ensures (Frames e) (leave e n)
  unfolding leave
  leave-Frames n e = elim (Bool-cases (is_root (node e n))) [
    | inl q ↦ rw q (pop_scc-Frames n [] e.stack e)
    | inr q ↦ rw q (Frames-refl e)
  ]

  module _ (again : Executor x v → ℕ → Outcome (Executor x v))
      (frames : (e : Executor x v) (n : ℕ) → Ensures (Frames e) (again e n)) where
    visit_dep-Frames : (n tn : ℕ) (e : Executor x v) → Ensures (Frames e) (visit_dep again n tn e)
    unfolding visit_dep
    visit_dep-Frames n tn e = elim (Bool-cases (not_visited (node e tn))) [
      | inl q ↦ rw q (
          Ensures-bind (Frames e) (Frames e) (again e tn) _
            (λ e1 f. Frames-trans e e1 _ f (lower-Frames n (node e1 tn).low_link e1)) (frames e tn))
      | inr q ↦ elim (Bool-cases (node e tn).on_stack) [
        | inl s ↦ rw (q, s) (lower-Frames n (node e tn).index e)
        | inr s ↦ rw (q, s) (Frames-refl e)
      ]
    ]

    visit_deps-Frames :
        (n : ℕ) (ds : List (Option ℕ)) (e : Executor x v)
        → Ensures (Frames e) (visit_deps again n ds e)
    unfolding visit_deps
    visit_deps-Frames n [] e = Frames-refl e
    visit_deps-Frames n (none ∷ ds) e = visit_deps-Frames n ds e
    visit_deps-Frames n (some tn ∷ ds) e =
        Ensures-bind (Frames e) (Frames e) (visit_dep again n tn e) _
          (λ e1 f. Frames-bind e e1 (visit_deps again n ds e1) f (visit_deps-Frames n ds e1))
          (visit_dep-Frames n tn e)

  visit-Frames : (fuel : ℕ) (e : Executor x v) (n : ℕ) → Ensures (Frames e) (visit fuel e n)
  unfolding visit
  visit-Frames zero e n = tt
  visit-Frames (suc fuel) e n =
      Ensures-bind (Frames e) (Frames e) (visit_deps (visit fuel) n (node e n).deps (enter e n)) _
        (λ e1 f. Frames-bind e e1 (leave e1 n) f (leave-Frames n e1))
        (Frames-bind e (enter e n) (visit_deps (visit fuel) n (node e n).deps (enter e n))
          (enter-Frames n e)
          (visit_deps-Frames (visit fuel) (visit-Frames fuel) n (node e n).deps (enter e n)))

  visit_all-Frames :
      (fuel : ℕ) (tns : List ℕ) (e : Executor x v) → Ensures (Frames e) (visit_all fuel tns e)
  unfolding visit_all
  visit_all-Frames fuel [] e = Frames-refl e
  visit_all-Frames fuel (tn ∷ tns) e =
      Ensures-bind (Frames e) (Frames e) (if not_visited (node e tn) then visit fuel e tn else ok e)
        _ (λ e1 f. Frames-bind e e1 (visit_all fuel tns e1) f (visit_all-Frames fuel tns e1))
        (elim (Bool-cases (not_visited (node e tn))) [
          | inl q ↦ rw q (visit-Frames fuel e tn)
          | inr q ↦ rw q (Frames-refl e)
        ])

  abbrev relinked : Executor x v → ℕ → Instance → Executor x v
  relinked e tn i =
      set_node e tn (record (reset_node (node e tn)) { deps = map (dep_node e) i.deps })

  relinked-Frames : (tn : ℕ) (i : Instance) (e : Executor x v) → Frames e (relinked e tn i)
  unfolding reset_node
  relinked-Frames tn i e = record {
    vertices = refl;
    replica = refl;
    ids = λ m. field-set (λ t. t.i) e.nodes tn _ m refl;
    size = length-set e.nodes tn _;
  }

  connect-Frames : (tns : List ℕ) (e : Executor x v) → Ensures (Frames e) (connect tns e)
  unfolding connect
  connect-Frames [] e = Frames-refl e
  connect-Frames (tn ∷ tns) e = Ensures-then (Frames e) (instance_of e tn) _ (λ i.
      Frames-bind e (relinked e tn i) (connect tns (relinked e tn i)) (relinked-Frames tn i e)
        (connect-Frames tns (relinked e tn i)))

  pub strong_connect-Frames : (e : Executor x v) → Ensures (Frames e) (strong_connect e)
  unfolding strong_connect
  strong_connect-Frames e =
      Ensures-bind (Frames e) (Frames e) (connect (v.vertex_values e.vertices) e) _
        (λ e1 f.
          Frames-bind e e1 (visit_all (suc (length e1.nodes)) (v.vertex_values e.vertices) e1) f
            (visit_all-Frames (suc (length e1.nodes)) (v.vertex_values e.vertices) e1))
        (connect-Frames (v.vertex_values e.vertices) e)
