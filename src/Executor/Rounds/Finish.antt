-- ===== src/Executor/Rounds/Finish.antt =====
-- `execute_scc` of src/execute.c finds the instances of a component, before and after it marks them.
use epx_c.Base.{
  ℕ, suc, ◌<◌, ◌≤◌, ◌≡◌, refl, inl, inr, true, ◌||◌, none, some, List, [], ◌∷◌, get_or, set,
  get_or-set_self, get_or-set_ne, Bool-cases, Option-cases, Outcome-cases, arith, sym, ◌∙◌, ap, ltb,
  ◌==◌, ==_iff, ok,
}
use epx_c.Epx.{n_replicas}
use epx_c.InstanceId.{InstanceId, Dependency, dh_key}
use epx_c.Message.{State}
use epx_c.Instance.{Instance}
use epx_c.Instance.Deps.{number}
use epx_c.Extern.{Externals, Vertices}
use epx_c.Extern.Laws.{LlrbLaws, num, find_in, write_in}
use epx_c.Replica.{Replica, tree, find_instance, store}
use epx_c.Epaxos.Indexes.{
  IndexesAreValid, PlaceIsValid, index-EntriesAreValid, store-IndexesAreValid,
  find_instance-PlaceIsValid,
}
use epx_c.Executor.{Executor, node, instance_of}
use epx_c.Executor.Components.{
  contains, sort_scc, is_executed, is_inside, deps_ready, is_ready, seq_of, write_executed, finish,
  execute_scc, execute_all,
}
use epx_c.Executor.Order.{count, sort_scc_lem}
use epx_c.Executor.Tarjan.{settled}
use epx_c.Executor.Tarjan.Member.{contains-here, contains-there}
use epx_c.Executor.Rounds.{VertexLaws, Safe, Safe-bind, Safe-map, IsStored}

find_in-write_in :
    (xs : List Instance) (e : Instance) (k : ℕ) {j : Instance}
    → find_in xs k ≡ some j
    → (j' : Instance) × (find_in (write_in xs e) k ≡ some j')
find_in-write_in [] e k h = absurd (ground arith)
find_in-write_in (y ∷ xs) e k {j} h = elim (Bool-cases (num y == k)) [
  | inl q ↦ elim (Bool-cases (num y == num e)) [
    | inl r ↦ (e, ground arith)
    | inr r ↦ (y, ground arith)
  ]
  | inr q ↦
      let (j', found) = find_in-write_in xs e k {j = j} (ground arith) in
      elim (Bool-cases (num y == num e)) [ inl r ↦ (j', ground arith) | inr r ↦ (j', ground arith) ]
]

contains_counted : (xs : List ℕ) (m : ℕ) → contains xs m ≡ true → 1 ≤ count m xs
unfolding contains
contains_counted [] m c = absurd (ground arith)
contains_counted (y ∷ xs) m c = elim (Bool-cases (y == m)) [
  | inl q ↦ ground arith
  | inr q ↦ ground (arith, contains_counted xs m (ground arith))
]

counted_contains : (xs : List ℕ) (m : ℕ) → 1 ≤ count m xs → contains xs m ≡ true
unfolding contains
counted_contains [] m c = absurd (omega arith)
counted_contains (y ∷ xs) m c = elim (Bool-cases (y == m)) [
  | inl q ↦ ground arith
  | inr q ↦ rw q (counted_contains xs m (ground arith))
]

settled_head :
    (c : List ℕ) (cs : List (List ℕ)) (m : ℕ) → contains c m ≡ true → settled (c ∷ cs) m ≡ true
settled_head c cs m h = ground arith

settled_tail :
    (c : List ℕ) (cs : List (List ℕ)) (m : ℕ) → settled cs m ≡ true → settled (c ∷ cs) m ≡ true
settled_tail c cs m h = elim (Bool-cases (contains c m)) [ inl q ↦ rw q refl | inr q ↦ rw q h ]

module _ (x : Externals) (l : LlrbLaws x.llrb) where
  tree-store :
      (r : Replica x) (i : Instance) (rc k : ℕ) {j : Instance}
      → IndexesAreValid x l r.index
      → i.key.replica_id < n_replicas
      → find_in (l.to_list (tree r rc)) k ≡ some j
      → (j' : Instance) × (find_in (l.to_list (tree (store r i) rc)) k ≡ some j')
  unfolding store
  tree-store r i rc k {j} v s h = elim (Bool-cases (i.key.replica_id == rc)) [
    | inl q ↦
        let same : i.key.replica_id ≡ rc = (==_iff i.key.replica_id rc).0 q in
        let (j', f) = find_in-write_in (l.to_list (tree r rc)) i k {j = j} h in
        (
          j',
          ap (λ t. find_in (l.to_list t) k)
                (ap
                    (λ n.
                      get_or (set r.index i.key.replica_id (x.write (tree r i.key.replica_id) i)) n
                        x.empty)
                    (sym same)
                  ∙ get_or-set_self r.index i.key.replica_id _ x.empty (omega (arith, v.count)))
              ∙ ap (λ ys. find_in ys k) (l.to_list-write (tree r i.key.replica_id) i)
              ∙ ap (λ n. find_in (write_in (l.to_list (tree r n)) i) k) same
              ∙ f,
        )
    | inr q ↦
        (j, ap (λ t. find_in (l.to_list t) k) (get_or-set_ne r.index _ x.empty (ground arith)) ∙ h)
  ]

  find_instance-store :
      (r : Replica x) (i : Instance) (id : InstanceId) {j : Instance}
      → IndexesAreValid x l r.index
      → PlaceIsValid x l i
      → find_instance r id ≡ ok (some j)
      → (j' : Instance) × (find_instance (store r i) id ≡ ok (some j'))
  unfolding find_instance
  find_instance-store r i id {j} v p h = elim (Bool-cases (ltb id.replica_id n_replicas)) [
    | inr q ↦ absurd (ground arith)
    | inl q ↦
        let small : id.replica_id < n_replicas = ground arith in
        let before = index-EntriesAreValid x l r id.replica_id small v in
        let after =
          index-EntriesAreValid x l (store r i) id.replica_id small
            (store-IndexesAreValid x l r i p v) in
        let (j', f) =
          tree-store r i id.replica_id id.instance_id {j = j} v p.0
            (sym (l.find_lem (tree r id.replica_id) id.instance_id before.0) ∙ ground arith) in
        (
          j',
          rw q (
              ap (λ o. ok o)
                (l.find_lem (tree (store r i) id.replica_id) id.instance_id after.0 ∙ f)),
        )
  ]

module _ {x : Externals} {v : Vertices} where
  pub found_of :
      (e : Executor x v) (n : ℕ) {i : Instance}
      → instance_of e n ≡ ok i
      → find_instance e.r (node e n).i ≡ ok (some i)
  unfolding instance_of
  found_of e n {i} h = elim (Outcome-cases (find_instance e.r (node e n).i)) [
    | inl (none, q) ↦ absurd (ground arith)
    | inl (some j, q) ↦ ground arith
    | inr (f, q) ↦ absurd (ground arith)
  ]

  pub of_found :
      (e : Executor x v) (n : ℕ) {i : Instance}
      → find_instance e.r (node e n).i ≡ ok (some i)
      → instance_of e n ≡ ok i
  unfolding instance_of
  of_found e n h = rw h refl

module _ (x : Externals) (v : Vertices) (l : LlrbLaws x.llrb) (w : VertexLaws v)
    (vals : List ℕ) where
  -- after some instances are marked
  pub record IsAfter (e e' : Executor x v) : Type 0 where
    pub nodes_are : e'.nodes ≡ e.nodes
    pub stored : IsStored x v l vals e'
    pub shrinks :
        (m : ℕ)
        → contains (v.vertex_values e'.vertices) m ≡ true
        → contains (v.vertex_values e.vertices) m ≡ true

  IsAfter-trans : (e e1 e2 : Executor x v) → IsAfter e e1 → IsAfter e1 e2 → IsAfter e e2
  IsAfter-trans e e1 e2 f g = record {
    nodes_are = g.nodes_are ∙ f.nodes_are;
    stored = g.stored;
    shrinks = λ m c. f.shrinks m (g.shrinks m c);
  }

  abbrev marked : ℕ → Executor x v → Instance → Executor x v
  marked p e i = record e {
    executed = write_executed p i.key e.executed;
    vertices = elim (v.vertex_get e.vertices (dh_key i.key)) [
      | none ↦ e.vertices
      | some k ↦ v.vertex_del e.vertices (dh_key i.key)
    ];
    r = store e.r (record i { status = State.executed });
  }

  marked-IsAfter :
      (p : ℕ) (e : Executor x v) (n : ℕ) (i : Instance)
      → IsStored x v l vals e
      → instance_of e n ≡ ok i
      → IsAfter e (marked p e i)
  marked-IsAfter p e n i s h = record {
    nodes_are = refl;
    stored = record {
      found = λ m c.
          let (j, g) = s.found m c in
          let (j', g') =
            find_instance-store x l e.r (record i { status = State.executed }) (node e m).i {j = j}
              s.valid place (found_of e m {i = j} g) in
          (j', of_found (marked p e i) m {i = j'} g');
      valid = store-IndexesAreValid x l e.r (record i { status = State.executed }) place s.valid;
    };
    shrinks = λ m c. elim (Option-cases (v.vertex_get e.vertices (dh_key i.key))) [
      | inl q ↦ rw q at c
      | inr (k, q) ↦ w.values_del e.vertices (dh_key i.key) m (rw q at c)
    ];
  }
    where
      place : PlaceIsValid x l i
      place =
          find_instance-PlaceIsValid x l e.r (node e n).i {i = i} s.valid (found_of e n {i = i} h)

  finish-IsAfter :
      (p : ℕ) (comp : List ℕ) (e : Executor x v)
      → IsStored x v l vals e
      → ((m : ℕ) → contains comp m ≡ true → contains vals m ≡ true)
      → Safe (IsAfter e) (finish p comp e)
  unfolding finish
  finish-IsAfter p [] e s h = record { nodes_are = refl; stored = s; shrinks = λ m c. c }
  finish-IsAfter p (n ∷ comp) e s h =
      let (i, found) = s.found n (h n (contains-here n comp)) in
      let first = marked-IsAfter p e n i s found in
      rw found (
        Safe-map (IsAfter (marked p e i)) (IsAfter e) (finish (suc p) comp (marked p e i))
          (λ e' f. IsAfter-trans e (marked p e i) e' first f)
          (finish-IsAfter (suc p) comp (marked p e i) first.stored
            (λ m c. h m (contains-there n comp m c))))

  is_executed-Safe : (e : Executor x v) (d : Dependency) → Safe (λ b. Unit) (is_executed e d)
  unfolding is_executed find_instance
  is_executed-Safe e d = elim (Bool-cases (ltb d.id.replica_id n_replicas)) [
    | inl q ↦ elim (Option-cases (x.find (tree e.r d.id.replica_id) d.id.instance_id)) [
      | inl p ↦ ground arith
      | inr (i, p) ↦ ground arith
    ]
    | inr q ↦ ground arith
  ]

  deps_ready-Safe :
      (e : Executor x v) (comp : List ℕ) (deps : List Dependency)
      → Safe (λ b. Unit) (deps_ready e comp deps)
  unfolding deps_ready
  deps_ready-Safe e comp [] = tt
  deps_ready-Safe e comp (d ∷ deps) = elim (Bool-cases (number d == 0 || is_inside e comp d)) [
    | inl q ↦ rw q (deps_ready-Safe e comp deps)
    | inr q ↦ rw q (
        Safe-bind (λ b. Unit) (λ b. Unit) (is_executed e d) _ (is_executed-Safe e d)
          (λ done u. elim (Bool-cases done) [
            | inl p ↦ rw p (deps_ready-Safe e comp deps)
            | inr p ↦ rw p tt
          ]))
  ]

  is_ready-Safe :
      (e : Executor x v) (comp tns : List ℕ)
      → IsStored x v l vals e
      → ((m : ℕ) → contains tns m ≡ true → contains vals m ≡ true)
      → Safe (λ b. Unit) (is_ready e comp tns)
  unfolding is_ready
  is_ready-Safe e comp [] s h = tt
  is_ready-Safe e comp (n ∷ tns) s h =
      let (i, found) = s.found n (h n (contains-here n tns)) in
      rw found (
        Safe-bind (λ b. Unit) (λ b. Unit) (deps_ready e comp i.deps) _
          (deps_ready-Safe e comp i.deps)
          (λ ready u. elim (Bool-cases ready) [
            | inl p ↦ rw p (is_ready-Safe e comp tns s (λ m c. h m (contains-there n tns m c)))
            | inr p ↦ rw p tt
          ]))

  sorted_members :
      (seq : ℕ → ℕ) (comp : List ℕ) (m : ℕ)
      → contains (sort_scc seq comp) m ≡ true
      → contains comp m ≡ true
  sorted_members seq comp m c =
      counted_contains comp m
        (omega (arith, (sort_scc_lem seq comp).1 m, contains_counted (sort_scc seq comp) m c))

  execute_scc-IsAfter :
      (comp : List ℕ) (e : Executor x v)
      → IsStored x v l vals e
      → ((m : ℕ) → contains comp m ≡ true → contains vals m ≡ true)
      → Safe (IsAfter e) (execute_scc e comp)
  unfolding execute_scc
  execute_scc-IsAfter comp e s h =
      Safe-bind (λ b. Unit) (IsAfter e) (is_ready e comp comp) _ (is_ready-Safe e comp comp s h)
        (λ ready u. elim (Bool-cases ready) [
          | inl p ↦ rw p (
              finish-IsAfter 0 (sort_scc (seq_of e) comp) e s
                (λ m c. h m (sorted_members (seq_of e) comp m c)))
          | inr p ↦ rw p (record { nodes_are = refl; stored = s; shrinks = λ m c. c })
        ])

  pub execute_all-IsAfter :
      (comps : List (List ℕ)) (e : Executor x v)
      → IsStored x v l vals e
      → ((m : ℕ) → settled comps m ≡ true → contains vals m ≡ true)
      → Safe (IsAfter e) (execute_all comps e)
  unfolding execute_all
  execute_all-IsAfter [] e s h = record { nodes_are = refl; stored = s; shrinks = λ m c. c }
  execute_all-IsAfter (comp ∷ comps) e s h =
      Safe-bind (IsAfter e) (IsAfter e) (execute_scc e comp) _
        (execute_scc-IsAfter comp e s (λ m c. h m (settled_head comp comps m c)))
        (λ e1 f.
          Safe-map (IsAfter e1) (IsAfter e) (execute_all comps e1)
            (λ e2 g. IsAfter-trans e e1 e2 f g)
            (execute_all-IsAfter comps e1 f.stored (λ m c. h m (settled_tail comp comps m c))))
