-- ===== src/Tests/Graph.antt =====
-- The executor at two instances that depend on each other.
use epx_c.Base.{
  ℕ, zero, suc, length, true, some, ◌≡◌, refl, ◌<◌, ◌==◌, inl, inr, Bool-cases, arith, List, [],
  ◌∷◌, ok, ◌>>=◌,
}
use epx_c.InstanceId.{InstanceId, dh_key}
use epx_c.Message.{State}
use epx_c.Instance.{Instance, zero_instance}
use epx_c.Instance.Deps.{zero_dep}
use epx_c.Replica.{Replica, find_instance, store}
use epx_c.Executor.{
  Executor, new_executor, add_node, new_tn, not_visited, reset_node, min_index, instance_of,
  reset_exec,
}
use epx_c.Executor.Visit.{
  is_root, enter, lower, pop_scc, leave, visit_dep, visit_deps, visit, dep_node, connect, visit_all,
  strong_connect,
}
use epx_c.Executor.Components.{
  contains, sink, sort_loop, sort_scc, is_executed, is_inside, deps_ready, is_ready, finish,
  execute_scc, execute_all, execute, run_execute,
}
use epx_c.Executor.Order.{IsOrdered, count, sort_scc_lem}
use epx_c.Executor.Tarjan.Correct.{IsLoaded, IsCondensed, Bounded, strong_connect-IsCondensed}
use epx_c.Tests.Libraries.{lists, list_vertices}

abbrev key_at : ℕ → InstanceId
key_at n = record { replica_id = 0; instance_id = n }

abbrev pub depending : ℕ → ℕ → ℕ → Instance
depending n seq dep = record zero_instance {
  key = key_at n;
  seq = seq;
  status = State.committed;
  deps =
      record { id = key_at dep; committed = 1 }
      ∷ zero_dep
      ∷ zero_dep
      ∷ zero_dep
      ∷ zero_dep
      ∷ zero_dep
      ∷ zero_dep
      ∷ zero_dep
      ∷ [];
}

abbrev pair : List Instance
pair = depending 1 9 2 ∷ depending 2 5 1 ∷ []

abbrev pub holding : Replica lists
holding = record { id = 0; index = pair ∷ [] ∷ [] ∷ []; dh = []; allocs = []; trace = [] }

abbrev loaded : Executor lists list_vertices
unfolding new_executor add_node new_tn dh_key
loaded = (add_node (add_node (new_executor holding) (depending 1 9 2)).1 (depending 2 5 1)).1

-- The cycle is one component, and is executed in the order of the sequence numbers.
execute-loaded :
    (execute_scc loaded (0 ∷ 1 ∷ []) >>= λ e. ok e.executed) ≡ ok (key_at 2 ∷ key_at 1 ∷ [])
unfolding execute_scc is_ready deps_ready is_inside is_executed contains finish sort_scc sort_loop
    sink instance_of find_instance store dh_key loaded
execute-loaded = refl

abbrev done : Executor lists list_vertices
unfolding execute_scc is_ready deps_ready is_inside is_executed contains finish sort_scc sort_loop
    sink instance_of find_instance store dh_key loaded
done = elim (execute_scc loaded (0 ∷ 1 ∷ [])) [ ok e ↦ e | _ ↦ loaded ]

components-loaded : (strong_connect loaded >>= λ e. ok e.sccs) ≡ ok ((0 ∷ 1 ∷ []) ∷ [])
unfolding strong_connect connect visit_all visit visit_deps visit_dep enter leave lower pop_scc
    is_root dep_node instance_of find_instance reset_node not_visited min_index dh_key loaded
components-loaded = refl

sort_scc_lem_example :
    IsOrdered (λ n. n) (sort_scc (λ n. n) (1 ∷ 0 ∷ []))
    × ((k : ℕ) → count k (sort_scc (λ n. n) (1 ∷ 0 ∷ [])) ≡ count k (1 ∷ 0 ∷ []))
sort_scc_lem_example = sort_scc_lem (λ n. n) (1 ∷ 0 ∷ [])

loaded-listed :
    (k m : ℕ)
    → list_vertices.vertex_get loaded.vertices k ≡ some m
    → contains (list_vertices.vertex_values loaded.vertices) m ≡ true
unfolding loaded contains
loaded-listed k m h = elim (Bool-cases (131072 == k)) [
  | inl p ↦ ground arith
  | inr p ↦ elim (Bool-cases (65536 == k)) [ inl q ↦ ground arith | inr q ↦ ground arith ]
]

loaded-allocated :
    (m : ℕ)
    → contains (list_vertices.vertex_values loaded.vertices) m ≡ true
    → m < length loaded.nodes
unfolding loaded contains
loaded-allocated m h = ground arith

loaded-found :
    (m : ℕ)
    → contains (list_vertices.vertex_values loaded.vertices) m ≡ true
    → (i : Instance) × (instance_of loaded m ≡ ok i)
unfolding loaded contains instance_of find_instance
loaded-found zero h = (depending 1 9 2, refl)
loaded-found (suc zero) h = (depending 2 5 1, refl)
loaded-found (suc (suc m)) h = absurd (ground arith)

loaded-IsLoaded : IsLoaded loaded
unfolding loaded
loaded-IsLoaded = record {
  no_stack = refl;
  no_sccs = refl;
  linked = ground arith;
  allocated = loaded-allocated;
  listed = loaded-listed;
  found = loaded-found;
}

strong_connect-IsCondensed_example : Bounded 2 (IsCondensed loaded) (strong_connect loaded)
unfolding loaded
strong_connect-IsCondensed_example =
    strong_connect-IsCondensed lists list_vertices loaded loaded-IsLoaded

-- one of the two is not yet committed
abbrev waiting : Executor lists list_vertices
unfolding new_executor add_node new_tn dh_key
waiting = (add_node (new_executor holding) (depending 1 9 2)).1

-- The second instance of the cycle completes it, and both are executed.
run_execute-cycle :
    (run_execute waiting (some (some (depending 2 5 1))) >>= λ e. ok e.r.index)
    ≡ ok (
        (record (depending 1 9 2) { status = State.executed }
          ∷ record (depending 2 5 1) { status = State.executed }
          ∷ [])
        ∷ []
        ∷ []
        ∷ [])
unfolding run_execute execute execute_all reset_exec add_node new_tn new_executor strong_connect
    connect visit_all visit visit_deps visit_dep enter leave lower pop_scc is_root dep_node
    instance_of find_instance reset_node not_visited min_index dh_key execute_scc is_ready
    deps_ready is_inside is_executed contains finish sort_scc sort_loop sink store waiting
run_execute-cycle = refl
