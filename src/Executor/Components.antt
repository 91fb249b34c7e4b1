-- ===== src/Executor/Components.antt =====
-- `contains`, `sort_scc`, `execute_scc` and `execute` of src/execute.c.
use epx_c.Base.{
  ℕ, zero, suc, Bool, true, false, ◌||◌, Option, none, some, List, [], ◌∷◌, ltb, ◌==◌,
  if◌then◌else◌, Outcome, ok, fault, ◌>>=◌,
}
use epx_c.InstanceId.{InstanceId, Dependency, dh_key}
use epx_c.Message.{State, bits}
use epx_c.Instance.{Instance, is_state}
use epx_c.Instance.Deps.{number}
use epx_c.Extern.{Externals, Vertices}
use epx_c.Replica.{find_instance, store}
use epx_c.Executor.{Executor, instance_of, reset_exec, add_node}
use epx_c.Executor.Visit.{strong_connect}

unfoldable pub contains : List ℕ → ℕ → Bool
contains [] t = false
contains (n ∷ comp) t = if n == t then true else contains comp t

-- The inner loop of `sort_scc`, on the entries `j, j - 1, …, 0`.
unfoldable pub sink : (ℕ → ℕ) → ℕ → List ℕ → List ℕ
sink seq d [] = d ∷ []
sink seq d (n ∷ below) = if ltb (seq d) (seq n) then n ∷ sink seq d below else d ∷ n ∷ below

-- The outer loop: `below` are the entries before the next one, the last of them first.
unfoldable pub sort_loop : (ℕ → ℕ) → List ℕ → List ℕ → List ℕ
sort_loop seq below [] = below
sort_loop seq below (d ∷ comp) = sort_loop seq (sink seq d below) comp

abbrev pub turn : List ℕ → List ℕ → List ℕ
turn [] ys = ys
turn (x ∷ xs) ys = turn xs (x ∷ ys)

-- by the sequence numbers of the instances that the nodes point to
unfoldable pub sort_scc : (ℕ → ℕ) → List ℕ → List ℕ
sort_scc seq comp = turn (sort_loop seq [] comp) []

-- `e->executed[p] = …`; the places behind the end of the list are null
abbrev pub write_executed : ℕ → InstanceId → List InstanceId → List InstanceId
write_executed p id [] = id ∷ []
write_executed zero id (k ∷ ks) = id ∷ ks
write_executed (suc p) id (k ∷ ks) = k ∷ write_executed p id ks

module _ {x : Externals} {v : Vertices} where
  -- the instance that a dependency names is executed
  unfoldable pub is_executed : Executor x v → Dependency → Outcome Bool
  is_executed e d = find_instance e.r d.id >>= λ found. elim found [
    | none ↦ ok false
    | some i ↦ ok (is_state (bits i.status) (bits State.executed))
  ]

  -- the dependency's node is one of the component's
  unfoldable pub is_inside : Executor x v → List ℕ → Dependency → Bool
  is_inside e comp d = elim (v.vertex_get e.vertices (dh_key d.id)) [
    | none ↦ false
    | some tn ↦ contains comp tn
  ]

  -- the inner loop of `execute_scc`; the result is `false` where the function returns
  unfoldable pub deps_ready : Executor x v → List ℕ → List Dependency → Outcome Bool
  deps_ready e comp [] = ok true
  deps_ready e comp (d ∷ deps) =
      let rest = deps_ready e comp deps in
      if number d == 0 || is_inside e comp d
      then rest
      else is_executed e d >>= λ done. if done then rest else ok false

  -- the outer loop, over the nodes `tns` of the component
  unfoldable pub is_ready : Executor x v → List ℕ → List ℕ → Outcome Bool
  is_ready e comp [] = ok true
  is_ready e comp (tn ∷ tns) = instance_of e tn >>= λ i.
      deps_ready e comp i.deps >>= λ ready. if ready then is_ready e comp tns else ok false

  -- the sequence number of a node's instance, which `is_ready` has read
  abbrev pub seq_of : Executor x v → ℕ → ℕ
  seq_of e n = elim (instance_of e n) [ fault f ↦ 0 | ok i ↦ i.seq ]

  -- The last loop of `execute_scc`, over the sorted component, from its place `p`.
  unfoldable pub finish : ℕ → List ℕ → Executor x v → Outcome (Executor x v)
  finish p [] e = ok e
  finish p (n ∷ comp) e = instance_of e n >>= λ i. finish (suc p) comp (record e {
    executed = write_executed p i.key e.executed;
    vertices = elim (v.vertex_get e.vertices (dh_key i.key)) [
      | none ↦ e.vertices
      | some k ↦ v.vertex_del e.vertices (dh_key i.key)
    ];
    r = store e.r (record i { status = State.executed });
  })

  unfoldable pub execute_scc : Executor x v → List ℕ → Outcome (Executor x v)
  execute_scc e comp = is_ready e comp comp >>= λ ready.
      if ready then finish 0 (sort_scc (seq_of e) comp) e else ok e

  unfoldable pub execute_all : List (List ℕ) → Executor x v → Outcome (Executor x v)
  execute_all [] e = ok e
  execute_all (comp ∷ comps) e = execute_scc e comp >>= λ e1. execute_all comps e1

  unfoldable pub execute : Executor x v → Outcome (Executor x v)
  execute e = strong_connect e >>= λ e1. execute_all e1.sccs e1 >>= λ e2. ok (reset_exec e2)

  -- A round of the loop of `run_execute`: `got` is what the channel gives, none if it is empty, and
  -- else a pointer, which may be null.
  unfoldable pub run_execute : Executor x v → Option (Option Instance) → Outcome (Executor x v)
  run_execute e none = ok e
  run_execute e (some none) = ok e
  run_execute e (some (some i)) =
      let (added, e') = add_node e i in let done = execute e' in if added then done else ok e'
