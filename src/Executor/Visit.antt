-- ===== src/Executor/Visit.antt =====
-- `visit` and `strong_connect` of src/execute.c: Tarjan's algorithm over the graph.
use epx_c.Base.{
  ℕ, zero, suc, ◌+◌, ◌++◌, Bool, true, false, not, ◌&&◌, Option, none, some, List, [], ◌∷◌, map,
  length, ltb, ◌==◌, if◌then◌else◌, Outcome, ok, fault, null_deref, out_of_bounds, out_of_fuel,
  ◌>>=◌,
}
use epx_c.Epx.{max_deps}
use epx_c.InstanceId.{Dependency, dh_key}
use epx_c.Instance.Deps.{number}
use epx_c.Extern.{Externals, Vertices}
use epx_c.Executor.{
  TarjanNode, Executor, node, set_node, not_visited, reset_node, min_index, instance_of,
}

-- `n->low_link == n->index`
unfoldable pub is_root : TarjanNode → Bool
is_root n = elim n.low_link [
  | none ↦ elim n.index [ none ↦ true | some k ↦ false ]
  | some l ↦ elim n.index [ none ↦ false | some k ↦ l == k ]
]

module _ {x : Externals} {v : Vertices} where
  -- what `visit` does before its loop
  unfoldable pub enter : Executor x v → ℕ → Executor x v
  enter e n =
      set_node (record e { index = e.index + 1; stack = n ∷ e.stack }) n
        (record (node e n) { index = some e.index; low_link = some e.index; on_stack = true })

  -- `n->low_link = min(n->low_link, l)`
  unfoldable pub lower : Executor x v → ℕ → Option ℕ → Executor x v
  lower e n l = set_node e n (record (node e n) { low_link = min_index (node e n).low_link l })

  -- The loop that pops a component off the stack; `comp` are the nodes popped before, and `stack`
  -- the nodes left. The arrays have `MAX_DEPS` entries.
  unfoldable pub pop_scc : ℕ → List ℕ → List ℕ → Executor x v → Outcome (Executor x v)
  pop_scc n comp [] e = fault null_deref
  pop_scc n comp (tn ∷ stack) e =
      let e1 = set_node (record e { stack = stack }) tn (record (node e tn) { on_stack = false }) in
      let comp1 = comp ++ (tn ∷ []) in
      let rest = pop_scc n comp1 stack e1 in
      if not (ltb (length e.sccs) max_deps && ltb (length comp) max_deps)
      then fault out_of_bounds
      else if tn == n
      then ok (record e1 { sccs = e.sccs ++ (comp1 ∷ []) })
      else rest

  -- what `visit` does after its loop
  unfoldable pub leave : Executor x v → ℕ → Outcome (Executor x v)
  leave e n = if is_root (node e n) then pop_scc n [] e.stack e else ok e

  module _ (again : Executor x v → ℕ → Outcome (Executor x v)) where
    -- a round of the loop of `visit` whose pointer `tn` is not null
    unfoldable pub visit_dep : ℕ → ℕ → Executor x v → Outcome (Executor x v)
    visit_dep n tn e =
        if not_visited (node e tn)
        then (again e tn >>= λ e1. ok (lower e1 n (node e1 tn).low_link))
        else if (node e tn).on_stack
        then ok (lower e n (node e tn).index)
        else ok e

    unfoldable pub visit_deps : ℕ → List (Option ℕ) → Executor x v → Outcome (Executor x v)
    visit_deps n [] e = ok e
    visit_deps n (none ∷ deps) e = visit_deps n deps e
    visit_deps n (some tn ∷ deps) e = visit_dep n tn e >>= λ e1. visit_deps n deps e1

  -- on fuel for the calls within calls
  unfoldable pub visit : ℕ → Executor x v → ℕ → Outcome (Executor x v)
  visit zero e n = fault out_of_fuel
  visit (suc fuel) e n = visit_deps (visit fuel) n (node e n).deps (enter e n) >>= λ e1. leave e1 n

  -- the node of a dependency, if it has one
  unfoldable pub dep_node : Executor x v → Dependency → Option ℕ
  dep_node e d = if number d == 0 then none else v.vertex_get e.vertices (dh_key d.id)

  -- the first loop of `strong_connect`: reset the nodes, and point them to their dependencies
  unfoldable pub connect : List ℕ → Executor x v → Outcome (Executor x v)
  connect [] e = ok e
  connect (tn ∷ tns) e = instance_of e tn >>= λ i.
      connect tns
        (set_node e tn (record (reset_node (node e tn)) { deps = map (dep_node e) i.deps }))

  -- the second loop: visit the nodes that are not visited
  unfoldable pub visit_all : ℕ → List ℕ → Executor x v → Outcome (Executor x v)
  visit_all fuel [] e = ok e
  visit_all fuel (tn ∷ tns) e =
      (if not_visited (node e tn) then visit fuel e tn else ok e) >>= λ e1. visit_all fuel tns e1

  -- A path of calls of `visit` meets no node twice.
  unfoldable pub strong_connect : Executor x v → Outcome (Executor x v)
  strong_connect e = connect (v.vertex_values e.vertices) e >>= λ e1.
      visit_all (suc (length e1.nodes)) (v.vertex_values e.vertices) e1
