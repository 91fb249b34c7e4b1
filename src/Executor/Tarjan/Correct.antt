-- ===== src/Executor/Tarjan/Correct.antt =====
-- `strong_connect` of src/execute.c: the components are the strongly connected ones of the graph,
-- each after those that it depends on.
use epx_c.Base.{
  ℕ, suc, ◌<◌, ◌≤◌, ◌≡◌, refl, inl, inr, true, some, List, [], ◌∷◌, All, map, length, Bool-cases,
  Option-cases, arith, sym, subst, ◌∙◌, ◌==◌, ==_iff, Outcome, ok, fault, out_of_bounds,
}
use epx_c.InstanceId.{Dependency, dh_key}
use epx_c.Instance.{Instance}
use epx_c.Instance.Deps.{number}
use epx_c.Epx.{max_deps}
use epx_c.Extern.{Externals, Vertices}
use epx_c.Executor.{Executor, instance_of}
use epx_c.Executor.Components.{contains}
use epx_c.Executor.Visit.{dep_node, connect, visit_all, strong_connect}
use epx_c.Executor.Enough.{IsLinked, IsGraph, InFuel}
use epx_c.Executor.Total.{unvisited-le_length, IsMapped, strong_connect_total}
use epx_c.Executor.Tarjan.{points, settled, AreComponents, Works, Falls, total, white}
use epx_c.Executor.Tarjan.Member.{
  contains-nil, contains-here, contains-there, Works-bind, Works-map,
}
use epx_c.Executor.Tarjan.Reset.{pointers, pointers-found, IsReset, connect-IsReset}
use epx_c.Executor.Tarjan.Room.{first_room}
use epx_c.Executor.Tarjan.Connected.{contains-all_of, IsBetween, visit_all-IsBetween}

module _ {x : Externals} {v : Vertices} where
  -- What `strong_connect` starts from: no components, an empty stack, and a map to nodes whose
  -- instances are in the replica.
  pub record IsLoaded (e : Executor x v) : Type 0 where
    pub no_stack : e.stack ≡ []
    pub no_sccs : e.sccs ≡ []
    pub linked : All (IsLinked (length e.nodes)) e.nodes
    pub allocated : (m : ℕ) → contains (v.vertex_values e.vertices) m ≡ true → m < length e.nodes
    pub listed :
        (k m : ℕ)
        → v.vertex_get e.vertices k ≡ some m
        → contains (v.vertex_values e.vertices) m ≡ true
    pub found :
        (m : ℕ)
        → contains (v.vertex_values e.vertices) m ≡ true
        → (i : Instance) × (instance_of e m ≡ ok i)

  points-map :
      (e : Executor x v) (deps : List Dependency) (d : ℕ)
      → IsLoaded e
      → points (map (dep_node e) deps) d ≡ true
      → contains (v.vertex_values e.vertices) d ≡ true
  unfolding dep_node
  points-map e [] d h p = absurd (ground arith)
  points-map e (dep ∷ deps) d h p = elim (Bool-cases (number dep == 0)) [
    | inl q ↦ points-map e deps d h (rw q at p)
    | inr q ↦ elim (Option-cases (v.vertex_get e.vertices (dh_key dep.id))) [
      | inl g ↦ points-map e deps d h (rw (q, g) at p)
      | inr (t, g) ↦ elim (Bool-cases (t == d)) [
        | inl r ↦
            subst (λ k. contains (v.vertex_values e.vertices) k ≡ true) ((==_iff t d).0 r)
              (h.listed (dh_key dep.id) t g)
        | inr r ↦ points-map e deps d h (rw (q, g, r) at p)
      ]
    ]
  ]

  pointers-listed :
      (e : Executor x v) (m d : ℕ)
      → IsLoaded e
      → contains (v.vertex_values e.vertices) m ≡ true
      → points (pointers e m) d ≡ true
      → contains (v.vertex_values e.vertices) d ≡ true
  pointers-listed e m d h c p =
      let (i, found) = h.found m c in
      points-map e i.deps d h (subst (λ ds. points ds d ≡ true) (pointers-found e m i found) p)

  reset-IsBetween :
      (e e1 : Executor x v)
      → IsLoaded e
      → IsReset e (v.vertex_values e.vertices) e1
      → IsBetween (v.vertex_values e.vertices) (pointers e) [] e1
  reset-IsBetween e e1 h r = record {
    keeps = record {
      allocated = λ m c. omega (arith, h.allocated m c, r.size_is);
      deps_are = r.linked;
      falls =
          subst (λ s. Falls (v.vertex_values e.vertices) (pointers e) e1 e1.index s) (sym nothing)
            tt;
      stage = λ m c. white (r.unseen m c);
      done = λ m c. absurd (unsettled m c);
      mapped = λ m c. absurd (unsettled m c);
      room = first_room (v.vertex_values e.vertices) e1 e1.sccs e1.stack none_yet nothing;
      counted = subst (λ cs. length cs ≤ total cs) (sym none_yet) (omega arith);
      components = subst (λ cs. AreComponents (pointers e) [] cs) (sym none_yet) tt;
    };
    nothing = nothing;
    settles = λ m c. absurd (contains-nil m c);
  }
    where
      nothing : e1.stack ≡ []
      nothing = r.stack_is ∙ h.no_stack

      none_yet : e1.sccs ≡ []
      none_yet = r.sccs_are ∙ h.no_sccs

      unsettled : (m : ℕ) → settled e1.sccs m ≡ true → ⊥
      unsettled m c = ground (arith, subst (λ cs. settled cs m ≡ true) none_yet c)

  -- the components of the graph, which have the nodes of the map
  pub record IsCondensed (e e' : Executor x v) : Type 0 where
    pub components : AreComponents (pointers e) [] e'.sccs
    pub covers : (m : ℕ) → contains (v.vertex_values e.vertices) m ≡ true → settled e'.sccs m ≡ true
    pub mapped : (m : ℕ) → settled e'.sccs m ≡ true → contains (v.vertex_values e.vertices) m ≡ true

  strong_connect-Works :
      (e : Executor x v)
      → IsLoaded e
      → Works (length (v.vertex_values e.vertices)) (IsCondensed e) (strong_connect e)
  unfolding strong_connect
  strong_connect-Works e h =
      Works-bind (length (v.vertex_values e.vertices)) (IsReset e (v.vertex_values e.vertices)) _
        (connect (v.vertex_values e.vertices) e) _
        (connect-IsReset (length (v.vertex_values e.vertices)) (v.vertex_values e.vertices) e
          h.allocated h.found)
        (λ e1 r.
          Works-map (length (v.vertex_values e.vertices)) _ _
            (visit_all (suc (length e1.nodes)) (v.vertex_values e.vertices) e1)
            (λ e2 b. record {
              components = b.keeps.components;
              covers =
                  λ m c. b.settles m (contains-all_of (v.vertex_values e.vertices) [] m (inl c));
              mapped = b.keeps.mapped;
            })
            (visit_all-IsBetween (v.vertex_values e.vertices) (pointers e)
              (λ m d c p. pointers-listed e m d h c p) (suc (length e1.nodes))
              (v.vertex_values e.vertices) [] e1 (reset-IsBetween e e1 h r) (λ m c. c)))

  IsLoaded-IsGraph :
      (e : Executor x v) → IsLoaded e → IsGraph (length e.nodes) (length e.nodes) e.nodes
  IsLoaded-IsGraph e h = record {
    linked = h.linked;
    complete = refl;
    few = unvisited-le_length e.nodes;
  }

  IsLoaded-IsMapped : (e : Executor x v) → IsLoaded e → IsMapped v (length e.nodes) e.vertices
  IsLoaded-IsMapped e h k = elim (Option-cases (v.vertex_get e.vertices k)) [
    | inl g ↦ rw g tt
    | inr (m, g) ↦ rw g (h.allocated m (h.listed k m g))
  ]

all_within :
    (ms : List ℕ) (size : ℕ) → ((m : ℕ) → contains ms m ≡ true → m < size) → All (λ m. m < size) ms
all_within [] size h = tt
all_within (m ∷ ms) size h =
    (h m (contains-here m ms), all_within ms size (λ k c. h k (contains-there m ms k c)))

-- for a map of `size` nodes: a result, or a write past an array, which is for more than `MAX_DEPS`
abbrev pub Bounded : ℕ → {A : Type 0} → (A → Type 0) → Outcome A → Type 0
Bounded size P (ok a) = P a
Bounded size P (fault f) = (max_deps < size) × (f ≡ out_of_bounds)

Works-Bounded :
    {A : Type 0} (size : ℕ) (P Q : A → Type 0) (m : Outcome A)
    → Works size P m
    → InFuel Q m
    → Bounded size P m
Works-Bounded size P Q (ok a) w f = w
Works-Bounded size P Q (fault e) (inl w) f = w
Works-Bounded size P Q (fault e) (inr w) f = absurd (f w)

pub strong_connect-IsGraph :
    (x : Externals) (v : Vertices) (e : Executor x v)
    → IsLoaded e
    → InFuel
        (λ (e' : Executor x v). IsGraph (length e.nodes) (length e.nodes) e'.nodes)
        (strong_connect e)
strong_connect-IsGraph x v e h =
    strong_connect_total x v (length e.nodes) e (IsLoaded-IsGraph e h) (IsLoaded-IsMapped e h)
      (all_within (v.vertex_values e.vertices) (length e.nodes) h.allocated)

-- From an executor with no components and an empty stack, whose map has nodes that are allocated
-- and whose instances are in the replica: `strong_connect` returns if the map has
-- at most `MAX_DEPS` nodes; for more it returns or writes past an array. If it returns, each node of the map, and no other, is in a component; a node
-- is in no two of them; there is a path of dependencies between any two nodes of one; and a
-- dependency of a node of one is in it or in an earlier one.
pub strong_connect-IsCondensed :
    (x : Externals) (v : Vertices) (e : Executor x v)
    → IsLoaded e
    → Bounded (length (v.vertex_values e.vertices)) (IsCondensed e) (strong_connect e)
strong_connect-IsCondensed x v e h =
    Works-Bounded _ _ _ (strong_connect e) (strong_connect-Works e h)
      (strong_connect-IsGraph x v e h)
