-- ===== src/Executor/Rounds/Kept.antt =====
-- What the rounds of `run_execute` in src/execute.c keep.
use epx_c.Base.{
  ℕ, ◌≡◌, refl, inl, inr, true, Option, none, some, All, length, Bool-cases, arith, sym, subst, ◌∙◌,
  ap, Outcome, ok, fault, Ensures,
}
use epx_c.Instance.{Instance}
use epx_c.Extern.{Externals, Vertices}
use epx_c.Extern.Laws.{LlrbLaws}
use epx_c.Replica.{find_instance}
use epx_c.Epaxos.Indexes.{IndexesAreValid}
use epx_c.Executor.{Executor, node, instance_of, add_node, reset_exec}
use epx_c.Executor.Components.{contains, execute_all, execute, run_execute}
use epx_c.Executor.Visit.{strong_connect}
use epx_c.Executor.Enough.{IsLinked, IsGraph, InFuel}
use epx_c.Executor.Frame.{Frames, strong_connect-Frames}
use epx_c.Executor.Tarjan.Correct.{
  IsCondensed, Bounded, strong_connect-IsCondensed, strong_connect-IsGraph,
}
use epx_c.Executor.Rounds.{VertexLaws, Safe, Safe-bind, IsStored}
use epx_c.Executor.Rounds.Finish.{found_of, of_found, IsAfter, execute_all-IsAfter}
use epx_c.Executor.Rounds.Running.{IsRunning}
use epx_c.Executor.Rounds.Added.{Arrives, add_node-IsRunning}

-- what three theorems say of one result
Safe-all :
    {A : Type 0} (size : ℕ) (P Q R : A → Type 0) (m : Outcome A)
    → Bounded size P m
    → Ensures Q m
    → InFuel R m
    → Safe (λ a. P a × Q a × R a) m
Safe-all size P Q R (ok a) p q r = (p, q, r)
Safe-all size P Q R (fault f) p q r = p.1

module _ (x : Externals) (v : Vertices) (l : LlrbLaws x.llrb) (w : VertexLaws v) where
  connected-IsStored :
      (e e1 : Executor x v)
      → IsRunning x v l w e
      → Frames e e1
      → IsStored x v l (v.vertex_values e.vertices) e1
  connected-IsStored e e1 h f = record {
    found = λ m c.
        let (i, g) = h.loaded.found m c in
        (
          i,
          of_found e1 m {i = i} (
              ap (λ r. find_instance r (node e1 m).i) f.replica
              ∙ ap (λ id. find_instance e.r id) (f.ids m)
              ∙ found_of e m {i = i} g),
        );
    valid = subst (λ r. IndexesAreValid x l r.index) (sym f.replica) h.valid;
  }

  reset-IsRunning :
      (e e1 e2 : Executor x v)
      → IsRunning x v l w e
      → Frames e e1
      → IsGraph (length e.nodes) (length e.nodes) e1.nodes
      → IsAfter x v l w (v.vertex_values e.vertices) e1 e2
      → IsRunning x v l w (reset_exec e2)
  unfolding reset_exec instance_of
  reset-IsRunning e e1 e2 h f g a = record {
    loaded = record {
      no_stack = refl;
      no_sccs = refl;
      linked =
          subst (λ ns. All (IsLinked (length ns)) ns) (sym a.nodes_are)
            (subst (λ k. All (IsLinked k) e1.nodes) (sym f.size) g.linked);
      allocated =
          λ m c. omega (arith, h.loaded.allocated m (in_map m c), f.size, ap length a.nodes_are);
      listed = w.listed e2.vertices;
      found = λ m c. a.stored.found m (in_map m c);
    };
    valid = a.stored.valid;
  }
    where
      in_map :
          (m : ℕ)
          → contains (v.vertex_values e2.vertices) m ≡ true
          → contains (v.vertex_values e.vertices) m ≡ true
      in_map m c = subst (λ vs. contains (v.vertex_values vs) m ≡ true) f.vertices (a.shrinks m c)

  execute-IsRunning :
      (e : Executor x v) → IsRunning x v l w e → Safe (IsRunning x v l w) (execute e)
  unfolding execute
  execute-IsRunning e h =
      Safe-bind
        (λ e1. IsCondensed e e1 × Frames e e1 × IsGraph (length e.nodes) (length e.nodes) e1.nodes)
        (IsRunning x v l w) (strong_connect e) _
        (Safe-all (length (v.vertex_values e.vertices)) (IsCondensed e) (Frames e)
          (λ e1. IsGraph (length e.nodes) (length e.nodes) e1.nodes) (strong_connect e)
          (strong_connect-IsCondensed x v e h.loaded) (strong_connect-Frames e)
          (strong_connect-IsGraph x v e h.loaded))
        (λ e1 (c, f, g).
          Safe-bind (IsAfter x v l w (v.vertex_values e.vertices) e1) (IsRunning x v l w)
            (execute_all e1.sccs e1) _
            (execute_all-IsAfter x v l w (v.vertex_values e.vertices) e1.sccs e1
              (connected-IsStored e e1 h f) c.mapped)
            (λ e2 a. reset-IsRunning e e1 e2 h f g a))

  -- In an executor between two rounds, a round of `run_execute`, whatever it receives that is in the
  -- replica, leaves such an executor, or ends in an index out of bounds.
  pub run_execute-IsRunning :
      (e : Executor x v) (got : Option (Option Instance))
      → IsRunning x v l w e
      → Arrives x v l w e got
      → Safe (IsRunning x v l w) (run_execute e got)
  unfolding run_execute
  run_execute-IsRunning e none h a = h
  run_execute-IsRunning e (some none) h a = h
  run_execute-IsRunning e (some (some i)) h a = elim (Bool-cases (add_node e i).0) [
    | inl q ↦ rw q (execute-IsRunning (add_node e i).1 (add_node-IsRunning x v l w e i h a))
    | inr q ↦ rw q (add_node-IsRunning x v l w e i h a)
  ]
