-- ===== src/Executor/Rounds/Added.antt =====
-- `add_node` of src/execute.c, between two rounds.
use epx_c.Base.{
  ℕ, zero, suc, ◌<◌, ◌≤◌, ◌≡◌, refl, inl, inr, Bool, true, false, Option, none, some, List, [], ◌∷◌,
  ◌++◌, All, length, length-append, get_or, get_or-middle, arith, sym, subst, ◌∙◌, ap, ltb,
  if◌then◌else◌, ok, fault, out_of_bounds, ◌>>=◌,
}
use epx_c.Epx.{n_replicas}
use epx_c.InstanceId.{InstanceId, dh_key}
use epx_c.Instance.{Instance}
use epx_c.Extern.{Externals, Vertices}
use epx_c.Extern.Laws.{LlrbLaws}
use epx_c.Replica.{Replica, alloc, find_instance}
use epx_c.Epaxos.Indexes.{IndexesAreValid}
use epx_c.Executor.{TarjanNode, Executor, no_node, node, new_tn, instance_of, add_node}
use epx_c.Executor.Components.{contains}
use epx_c.Executor.Enough.{Within, IsLinked}
use epx_c.Executor.Rounds.{VertexLaws}
use epx_c.Executor.Rounds.Finish.{found_of, of_found}
use epx_c.Executor.Rounds.Running.{IsRunning}

Within-grow : (a b : ℕ) (ds : List (Option ℕ)) → a ≤ b → All (Within a) ds → All (Within b) ds
Within-grow a b [] h d = tt
Within-grow a b (none ∷ ds) h d = (tt, Within-grow a b ds h d.1)
Within-grow a b (some t ∷ ds) h d = (omega (arith, d.0), Within-grow a b ds h d.1)

IsLinked-append :
    (a b : ℕ) (ns : List TarjanNode) (nn : TarjanNode)
    → a ≤ b
    → All (IsLinked a) ns
    → All (Within 0) nn.deps
    → All (IsLinked b) (ns ++ (nn ∷ []))
IsLinked-append a b [] nn h ls d = (Within-grow 0 b nn.deps (omega arith) d, tt)
IsLinked-append a b (n ∷ ns) nn h ls d =
    (Within-grow a b n.deps h ls.0, IsLinked-append a b ns nn h ls.1 d)

get_or-before :
    (ns ms : List TarjanNode) (m : ℕ)
    → m < length ns
    → get_or (ns ++ ms) m no_node ≡ get_or ns m no_node
get_or-before [] ms m h = absurd (omega arith)
get_or-before (n ∷ ns) ms zero h = refl
get_or-before (n ∷ ns) ms (suc m) h = get_or-before ns ms m (omega arith)

same_index :
    {x : Externals} (r r' : Replica x) (id : InstanceId)
    → r.index ≡ r'.index
    → find_instance r' id ≡ find_instance r id
unfolding find_instance
same_index {x} r r' id h =
    ap
      (λ ts.
        (if ltb id.replica_id n_replicas
          then ok (get_or ts id.replica_id x.empty)
          else fault out_of_bounds)
        >>= λ t. ok (x.find t id.instance_id))
      (sym h)

module _ (x : Externals) (v : Vertices) (l : LlrbLaws x.llrb) (w : VertexLaws v) where
  -- the instance that is received is in the replica
  abbrev pub Arrives : Executor x v → Option (Option Instance) → Type 0
  Arrives e none = Unit
  Arrives e (some none) = Unit
  Arrives e (some (some i)) = (j : Instance) × (find_instance e.r i.key ≡ ok (some j))

  abbrev added : Executor x v → Replica x → Instance → TarjanNode → Executor x v
  added e r i nn = record e {
    r = r;
    nodes = e.nodes ++ (nn ∷ []);
    vertices = v.vertex_put e.vertices (dh_key i.key) (length e.nodes);
  }

  added-IsRunning :
      (e : Executor x v) (r : Replica x) (i : Instance) (nn : TarjanNode)
      → IsRunning x v l w e
      → Arrives e (some (some i))
      → r.index ≡ e.r.index
      → nn.i ≡ i.key
      → All (Within 0) nn.deps
      → IsRunning x v l w (added e r i nn)
  added-IsRunning e r i nn h arrives same key deps = record {
    loaded = record {
      no_stack = h.loaded.no_stack;
      no_sccs = h.loaded.no_sccs;
      linked =
          IsLinked-append (length e.nodes) (length (e.nodes ++ (nn ∷ []))) e.nodes nn
            (omega (arith, length-append e.nodes (nn ∷ []))) h.loaded.linked deps;
      allocated = λ m c. elim (w.values_put e.vertices (dh_key i.key) (length e.nodes) m c) [
        | inl q ↦ omega (arith, length-append e.nodes (nn ∷ []))
        | inr q ↦ omega (arith, h.loaded.allocated m q, length-append e.nodes (nn ∷ []))
      ];
      listed = w.listed (v.vertex_put e.vertices (dh_key i.key) (length e.nodes));
      found = λ m c. elim (w.values_put e.vertices (dh_key i.key) (length e.nodes) m c) [
        | inl q ↦ new_found m q
        | inr q ↦ old_found m q
      ];
    };
    valid = subst (λ t. IndexesAreValid x l t) (sym same) h.valid;
  }
    where
      by_index :
          (id : InstanceId) {j : Instance}
          → find_instance e.r id ≡ ok (some j)
          → find_instance r id ≡ ok (some j)
      by_index id g = same_index e.r r id (sym same) ∙ g

      new_found :
          (m : ℕ) → length e.nodes ≡ m → (j : Instance) × (instance_of (added e r i nn) m ≡ ok j)
      new_found m q =
          let (j, g) = arrives in
          (
            j,
            of_found (added e r i nn) m {i = j} (
                ap (λ id. find_instance r id)
                  (ap (λ k. (get_or (e.nodes ++ (nn ∷ [])) k no_node).i) (sym q)
                    ∙ ap (λ t. t.i) (get_or-middle e.nodes [] nn no_node)
                    ∙ key)
                ∙ by_index i.key {j = j} g),
          )

      old_found :
          (m : ℕ)
          → contains (v.vertex_values e.vertices) m ≡ true
          → (j : Instance) × (instance_of (added e r i nn) m ≡ ok j)
      old_found m c =
          let (j, g) = h.loaded.found m c in
          (
            j,
            of_found (added e r i nn) m {i = j} (
                ap (λ t. find_instance r t.i)
                  (get_or-before e.nodes (nn ∷ []) m (h.loaded.allocated m c))
                ∙ by_index (node e m).i {j = j} (found_of e m {i = j} g)),
          )

  unadded-IsRunning :
      (e : Executor x v) (r : Replica x)
      → IsRunning x v l w e
      → r.index ≡ e.r.index
      → IsRunning x v l w (record e { r = r })
  unadded-IsRunning e r h same = record {
    loaded = record {
      no_stack = h.loaded.no_stack;
      no_sccs = h.loaded.no_sccs;
      linked = h.loaded.linked;
      allocated = h.loaded.allocated;
      listed = h.loaded.listed;
      found = λ m c.
          let (j, g) = h.loaded.found m c in
          (
            j,
            of_found (record e { r = r }) m {i = j}
                (same_index e.r r (node e m).i (sym same) ∙ found_of e m {i = j} g),
          );
    };
    valid = subst (λ t. IndexesAreValid x l t) (sym same) h.valid;
  }

  -- whether or not the allocation succeeds
  allocated-IsRunning :
      (got : Bool) (e : Executor x v) (i : Instance)
      → IsRunning x v l w e
      → Arrives e (some (some i))
      → IsRunning x v l w (elim (new_tn got i.key) [
        | none ↦ record e { r = (alloc e.r).1 }
        | some nn ↦ added e (alloc e.r).1 i nn
      ])
  unfolding new_tn
  allocated-IsRunning true e i h arrives =
      added-IsRunning e (alloc e.r).1 i _ h arrives refl refl
        (tt, (tt, (tt, (tt, (tt, (tt, (tt, (tt, tt))))))))
  allocated-IsRunning false e i h arrives = unadded-IsRunning e (alloc e.r).1 h refl

  pub add_node-IsRunning :
      (e : Executor x v) (i : Instance)
      → IsRunning x v l w e
      → Arrives e (some (some i))
      → IsRunning x v l w (add_node e i).1
  unfolding add_node
  add_node-IsRunning e i h arrives =
      subst (IsRunning x v l w) (second (new_tn (alloc e.r).0 i.key))
        (allocated-IsRunning (alloc e.r).0 e i h arrives)
    where
      second :
          (o : Option TarjanNode)
          → (elim o as (λ o. Executor x v) [
            | none ↦ record e { r = (alloc e.r).1 }
            | some nn ↦ added e (alloc e.r).1 i nn
          ])
            ≡ (elim o as (λ o. Bool × Executor x v) [
              | none ↦ (false, record e { r = (alloc e.r).1 })
              | some nn ↦ (
                elim (v.vertex_get e.vertices (dh_key i.key)) [ none ↦ true | some old ↦ false ],
                added e (alloc e.r).1 i nn,
              )
            ]).1
      second none = refl
      second (some nn) = refl
