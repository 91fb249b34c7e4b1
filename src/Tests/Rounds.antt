-- ===== src/Tests/Rounds.antt =====
-- A replica that holds two instances that depend on each other: a round of its executor in which
-- the second arrives, and the registration of a third.
use epx_c.Base.{ℕ, ◌<◌, ◌≡◌, ◌≢◌, Option, ok, refl, ◌⊎◌, true, some, List, [], ◌∷◌, arith}
use epx_c.InstanceId.{InstanceId, dh_key}
use epx_c.Replica.{Replica, find_instance}
use epx_c.Instance.{Instance}
use epx_c.Instance.Deps.Sorted.{IsValid}
use epx_c.Epaxos.Indexes.{IndexesAreValid}
use epx_c.Epaxos.Indexes.Finds.{Registers, find_instance-register_instance}
use epx_c.Executor.{Executor, new_executor, add_node, new_tn}
use epx_c.Executor.Components.{contains, run_execute}
use epx_c.Executor.Rounds.{VertexLaws, Safe}
use epx_c.Executor.Rounds.Running.{IsRunning, new_executor-IsRunning}
use epx_c.Executor.Rounds.Added.{Arrives, add_node-IsRunning}
use epx_c.Executor.Rounds.Kept.{run_execute-IsRunning}
use epx_c.Tests.Libraries.{lists, list_llrb_laws, list_vertices, get_in, remove_in, values_in}
use epx_c.Tests.Graph.{depending, holding}

get_in-listed : (m : List (ℕ × ℕ)) (k n : ℕ) → get_in m k ≡ some n → contains (values_in m) n ≡ true
unfolding contains
get_in-listed [] k n h = absurd (ground arith)
get_in-listed ((j, v) ∷ m) k n h = ground (arith, get_in-listed m k n)

values_in-remove_in :
    (m : List (ℕ × ℕ)) (k j : ℕ)
    → contains (values_in (remove_in m k)) j ≡ true
    → contains (values_in m) j ≡ true
unfolding contains
values_in-remove_in [] k j h = h
values_in-remove_in ((i, v) ∷ m) k j h = ground (arith, values_in-remove_in m k j)

values_in-put :
    (m : List (ℕ × ℕ)) (k n j : ℕ)
    → contains (n ∷ values_in (remove_in m k)) j ≡ true
    → (n ≡ j) ⊎ (contains (values_in m) j ≡ true)
unfolding contains
values_in-put m k n j h = ground (arith, values_in-remove_in m k j)

list_vertex_laws : VertexLaws list_vertices
list_vertex_laws = record {
  values_none = refl;
  listed = get_in-listed;
  values_put = values_in-put;
  values_del = values_in-remove_in;
}

depending-IsValid : (n seq dep : ℕ) → 0 < dep → IsValid (depending n seq dep).deps
depending-IsValid n seq dep h = record { size = refl; sorted = ground arith }

holding-IndexesAreValid : IndexesAreValid lists list_llrb_laws holding.index
unfolding list_llrb_laws
holding-IndexesAreValid = record {
  count = refl;
  trees = (
    (
      ((ground arith, tt), (tt, tt)),
      (
        (refl, depending-IsValid 1 9 2 (ground arith), tt),
        ((refl, depending-IsValid 2 5 1 (ground arith), tt), tt),
      ),
    ),
    ((tt, tt), ((tt, tt), tt)),
  );
}

abbrev started : Executor lists list_vertices
started = (add_node (new_executor holding) (depending 1 9 2)).1

started-IsRunning : IsRunning lists list_vertices list_llrb_laws list_vertex_laws started
unfolding new_executor find_instance
started-IsRunning =
    add_node-IsRunning lists list_vertices list_llrb_laws list_vertex_laws (new_executor holding)
      (depending 1 9 2)
      (new_executor-IsRunning lists list_vertices list_llrb_laws list_vertex_laws holding
        holding-IndexesAreValid)
      (depending 1 9 2, refl)

second-Arrives :
    Arrives lists list_vertices list_llrb_laws list_vertex_laws started
      (some (some (depending 2 5 1)))
unfolding new_executor add_node new_tn find_instance dh_key
second-Arrives = (depending 2 5 1, refl)

run_execute-IsRunning_example :
    Safe
      (IsRunning lists list_vertices list_llrb_laws list_vertex_laws)
      (run_execute started (some (some (depending 2 5 1))))
run_execute-IsRunning_example =
    run_execute-IsRunning lists list_vertices list_llrb_laws list_vertex_laws started
      (some (some (depending 2 5 1))) started-IsRunning second-Arrives

-- a third instance is registered
abbrev third : Instance
third = depending 3 4 1

find_instance-register_instance_example :
    (o : Option Instance) × (r' : Replica lists) × (find_instance holding third.key ≡ ok o)
    × Registers lists list_llrb_laws holding third r' o
    × ((id : InstanceId) → id ≢ third.key → find_instance r' id ≡ find_instance holding id)
find_instance-register_instance_example =
    find_instance-register_instance lists list_llrb_laws holding third holding-IndexesAreValid
      (omega arith, depending-IsValid 3 4 1 (ground arith), tt)
