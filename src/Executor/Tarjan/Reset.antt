-- ===== src/Executor/Tarjan/Reset.antt =====
-- The first loop of `strong_connect` in src/execute.c: the nodes point to their dependencies.
use epx_c.Base.{
  ℕ, ◌<◌, ◌≡◌, refl, ◌≢◌, inl, inr, true, Option, none, some, List, [], ◌∷◌, map, length,
  length-set, get_or-set_self, get_or-set_ne, Bool-cases, arith, sym, subst, ◌∙◌, ap, ◌==◌, ==_iff,
  ok, fault, null_deref, ◌>>=◌,
}
use epx_c.Instance.{Instance}
use epx_c.Extern.{Externals, Vertices}
use epx_c.Replica.{find_instance}
use epx_c.Executor.{Executor, no_node, node, set_node, reset_node, instance_of}
use epx_c.Executor.Components.{contains}
use epx_c.Executor.Visit.{dep_node, connect}
use epx_c.Executor.Tarjan.{Works}
use epx_c.Executor.Tarjan.Member.{
  contains-nil, contains-cons, contains-here, contains-there, Works-map,
}
use epx_c.Executor.Tarjan.Nodes.{field-set}

module _ {x : Externals} {v : Vertices} where
  -- the nodes of the instances that a node's instance depends on
  abbrev pub pointers : Executor x v → ℕ → List (Option ℕ)
  pointers e m = elim (instance_of e m) [ fault f ↦ [] | ok i ↦ map (dep_node e) i.deps ]

  pub pointers-found :
      (e : Executor x v) (m : ℕ) (i : Instance)
      → instance_of e m ≡ ok i
      → pointers e m ≡ map (dep_node e) i.deps
  pointers-found e m i h = ap (λ o. elim o [ fault f ↦ [] | ok j ↦ map (dep_node e) j.deps ]) h

  -- after the first loop over the nodes `tns`
  pub record IsReset (e : Executor x v) (tns : List ℕ) (e1 : Executor x v) : Type 0 where
    pub size_is : length e1.nodes ≡ length e.nodes
    pub stack_is : e1.stack ≡ e.stack
    pub sccs_are : e1.sccs ≡ e.sccs
    pub unseen : (m : ℕ) → contains tns m ≡ true → (node e1 m).index ≡ none
    pub linked : (m : ℕ) → contains tns m ≡ true → (node e1 m).deps ≡ pointers e m
    pub unseen_kept : (m : ℕ) → (node e m).index ≡ none → (node e1 m).index ≡ none
    pub linked_kept : (m : ℕ) → (node e m).deps ≡ pointers e m → (node e1 m).deps ≡ pointers e m

  abbrev relinked : Executor x v → ℕ → Instance → Executor x v
  relinked e tn i =
      set_node e tn (record (reset_node (node e tn)) { deps = map (dep_node e) i.deps })

  module _ (e : Executor x v) (tn : ℕ) (i : Instance) where
    same_instance : (m : ℕ) → instance_of (relinked e tn i) m ≡ instance_of e m
    unfolding instance_of reset_node
    same_instance m =
        ap
          (λ id. find_instance e.r id >>= λ found. elim found [
            | none ↦ fault null_deref
            | some i ↦ ok i
          ])
          (field-set (λ t. t.i) e.nodes tn _ m refl)

    same_pointers : (m : ℕ) → pointers (relinked e tn i) m ≡ pointers e m
    unfolding dep_node
    same_pointers m =
        ap (λ o. elim o [ fault f ↦ [] | ok i ↦ map (dep_node e) i.deps ]) (same_instance m)

    relinked_self :
        tn < length e.nodes
        → node (relinked e tn i) tn
          ≡ record (reset_node (node e tn)) { deps = map (dep_node e) i.deps }
    relinked_self h = get_or-set_self e.nodes tn _ no_node h

    relinked_other : (m : ℕ) → tn ≢ m → node (relinked e tn i) m ≡ node e m
    relinked_other m h = get_or-set_ne e.nodes _ no_node h

    module _ (l : tn < length e.nodes) (h : instance_of e tn ≡ ok i) where
      relinked-unseen : (node (relinked e tn i) tn).index ≡ none
      unfolding reset_node
      relinked-unseen = ap (λ t. t.index) (relinked_self l)

      relinked-linked : (node (relinked e tn i) tn).deps ≡ pointers e tn
      unfolding reset_node
      relinked-linked = ap (λ t. t.deps) (relinked_self l) ∙ sym (pointers-found e tn i h)

      relinked-unseen_kept :
          (m : ℕ) → (node e m).index ≡ none → (node (relinked e tn i) m).index ≡ none
      relinked-unseen_kept m q = elim (Bool-cases (tn == m)) [
        | inl p ↦
            subst (λ k. (node (relinked e tn i) k).index ≡ none) ((==_iff tn m).0 p) relinked-unseen
        | inr p ↦ ap (λ t. t.index) (relinked_other m (ground arith)) ∙ q
      ]

      relinked-linked_kept :
          (m : ℕ) → (node e m).deps ≡ pointers e m → (node (relinked e tn i) m).deps ≡ pointers e m
      relinked-linked_kept m q = elim (Bool-cases (tn == m)) [
        | inl p ↦
            subst (λ k. (node (relinked e tn i) k).deps ≡ pointers e k) ((==_iff tn m).0 p)
              relinked-linked
        | inr p ↦ ap (λ t. t.deps) (relinked_other m (ground arith)) ∙ q
      ]

      IsReset-cons :
          (tns : List ℕ) (e1 : Executor x v)
          → IsReset (relinked e tn i) tns e1
          → IsReset e (tn ∷ tns) e1
      IsReset-cons tns e1 r = record {
        size_is = r.size_is ∙ length-set e.nodes tn _;
        stack_is = r.stack_is;
        sccs_are = r.sccs_are;
        unseen = λ m c. elim (contains-cons tn tns m c) [
          | inl q ↦ subst (λ k. (node e1 k).index ≡ none) q (r.unseen_kept tn relinked-unseen)
          | inr q ↦ r.unseen m q
        ];
        linked = λ m c. elim (contains-cons tn tns m c) [
          | inl q ↦
              subst (λ k. (node e1 k).deps ≡ pointers e k) q
                (r.linked_kept tn (relinked-linked ∙ sym (same_pointers tn)) ∙ same_pointers tn)
          | inr q ↦ r.linked m q ∙ same_pointers m
        ];
        unseen_kept = λ m q. r.unseen_kept m (relinked-unseen_kept m q);
        linked_kept = λ m q.
            r.linked_kept m (relinked-linked_kept m q ∙ sym (same_pointers m)) ∙ same_pointers m;
      }

  pub connect-IsReset :
      (size : ℕ) (tns : List ℕ) (e : Executor x v)
      → ((m : ℕ) → contains tns m ≡ true → m < length e.nodes)
      → ((m : ℕ) → contains tns m ≡ true → (i : Instance) × (instance_of e m ≡ ok i))
      → Works size (IsReset e tns) (connect tns e)
  unfolding connect
  connect-IsReset size [] e l h = record {
    size_is = refl;
    stack_is = refl;
    sccs_are = refl;
    unseen = λ m c. absurd (contains-nil m c);
    linked = λ m c. absurd (contains-nil m c);
    unseen_kept = λ m q. q;
    linked_kept = λ m q. q;
  }
  connect-IsReset size (tn ∷ tns) e l h =
      let (i, found) = h tn (contains-here tn tns) in
      rw found (
        Works-map size (IsReset (relinked e tn i) tns) _ (connect tns (relinked e tn i))
          (λ e1 r. IsReset-cons e tn i (l tn (contains-here tn tns)) found tns e1 r)
          (connect-IsReset size tns (relinked e tn i)
            (λ m c. omega (arith, l m (contains-there tn tns m c), length-set e.nodes tn _))
            (λ m c.
              let (j, found') = h m (contains-there tn tns m c) in
              (j, same_instance e tn i m ∙ found'))))
