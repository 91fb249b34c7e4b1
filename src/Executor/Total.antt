-- ===== src/Executor/Total.antt =====
-- `strong_connect` of src/execute.c: its fuel does not run out.
use epx_c.Base.{
  ℕ, suc, ◌≤◌, ◌<◌, inl, inr, List, [], ◌∷◌, All, length, length-set, set, map, ◌==◌, Bool-cases,
  Option-cases, arith,
}
use epx_c.InstanceId.{Dependency, dh_key}
use epx_c.Instance.Deps.{number}
use epx_c.Extern.{Externals, Vertices}
use epx_c.Replica.{find_instance, tree}
use epx_c.Executor.{TarjanNode, Executor, node, set_node, not_visited, reset_node, instance_of}
use epx_c.Executor.Visit.{dep_node, connect, visit_all, strong_connect}
use epx_c.Executor.Enough.{unvisited, Within, IsGraph, InFuel, InFuel-bind, All-set, visit-Visits}

pub unvisited-le_length : (ns : List TarjanNode) → unvisited ns ≤ length ns
unvisited-le_length [] = omega arith
unvisited-le_length (n ∷ ns) = ground (arith, unvisited-le_length ns)

-- every entry of the map is a pointer to a node
abbrev pub IsMapped : (v : Vertices) → ℕ → v.VertexMap → Type 0
IsMapped v size m = (k : ℕ) → Within size (v.vertex_get m k)

module _ {x : Externals} {v : Vertices} (size : ℕ) where
  instance_of-InFuel : (e : Executor x v) (n : ℕ) → InFuel (λ i. Unit) (instance_of e n)
  unfolding instance_of find_instance
  instance_of-InFuel e n =
      elim (Option-cases (x.find (tree e.r (node e n).i.replica_id) (node e n).i.instance_id)) [
        | inl h ↦ ground arith
        | inr (i, h) ↦ ground arith
      ]

  dep_nodes-Within :
      (e : Executor x v) (deps : List Dependency)
      → IsMapped v size e.vertices
      → All (Within size) (map (dep_node e) deps)
  unfolding dep_node
  dep_nodes-Within e [] w = tt
  dep_nodes-Within e (d ∷ deps) w = (
    elim (Bool-cases (number d == 0)) [ inl h ↦ rw h tt | inr h ↦ rw h (w (dh_key d.id)) ],
    dep_nodes-Within e deps w,
  )

  connect-Graph :
      (tns : List ℕ) (e : Executor x v)
      → IsGraph size size e.nodes
      → IsMapped v size e.vertices
      → InFuel (λ (e' : Executor x v). IsGraph size size e'.nodes) (connect tns e)
  unfolding connect
  connect-Graph [] e g w = g
  connect-Graph (tn ∷ tns) e g w =
      InFuel-bind (λ i. Unit) (λ (e' : Executor x v). IsGraph size size e'.nodes) (instance_of e tn)
        _ (instance_of-InFuel e tn)
        (λ i u.
          connect-Graph tns
            (set_node e tn (record (reset_node (node e tn)) { deps = map (dep_node e) i.deps }))
            (record {
              linked = All-set size tn e.nodes _ g.linked (dep_nodes-Within e i.deps w);
              complete = omega (arith, length-set e.nodes tn _, g.complete);
              few = omega (
                arith,
                unvisited-le_length (set e.nodes tn _),
                length-set e.nodes tn _,
                g.complete,
              );
            })
            w)

  visit_all-Graph :
      (tns : List ℕ) (e : Executor x v)
      → IsGraph size size e.nodes
      → All (λ tn. tn < size) tns
      → InFuel (λ (e' : Executor x v). IsGraph size size e'.nodes) (visit_all (suc size) tns e)
  unfolding visit_all
  visit_all-Graph [] e g a = g
  visit_all-Graph (tn ∷ tns) e g a =
      InFuel-bind (λ (e' : Executor x v). IsGraph size size e'.nodes)
        (λ (e' : Executor x v). IsGraph size size e'.nodes) _ _
        (elim (Bool-cases (not_visited (node e tn))) [
          | inl h ↦ rw h (visit-Visits size (suc size) size (omega arith) e tn g a.0 h)
          | inr h ↦ rw h g
        ])
        (λ e1 g1. visit_all-Graph tns e1 g1 a.1)

-- Where every entry of the executor's map, and every entry that an iteration over it meets, points
-- to one of its `size` nodes, and the pointers of these nodes are null or theirs: `strong_connect`
-- does not run out of fuel, and if it returns, it leaves such a graph.
pub strong_connect_total :
    (x : Externals) (v : Vertices) (size : ℕ) (e : Executor x v)
    → IsGraph size size e.nodes
    → IsMapped v size e.vertices
    → All (λ tn. tn < size) (v.vertex_values e.vertices)
    → InFuel (λ (e' : Executor x v). IsGraph size size e'.nodes) (strong_connect e)
unfolding strong_connect
strong_connect_total x v size e g w a =
    InFuel-bind (λ (e' : Executor x v). IsGraph size size e'.nodes)
      (λ (e' : Executor x v). IsGraph size size e'.nodes) _ _
      (connect-Graph size (v.vertex_values e.vertices) e g w)
      (λ e1 g1. rw g1.complete (visit_all-Graph size (v.vertex_values e.vertices) e1 g1 a))
