-- ===== src/Executor/Rounds/Running.antt =====
-- The executor between two rounds of `run_execute` in src/execute.c.
use epx_c.Base.{ℕ, ◌≡◌, refl, true, subst}
use epx_c.Extern.{Externals, Vertices}
use epx_c.Extern.Laws.{LlrbLaws}
use epx_c.Replica.{Replica}
use epx_c.Epaxos.Indexes.{IndexesAreValid}
use epx_c.Executor.{Executor, new_executor}
use epx_c.Executor.Components.{contains}
use epx_c.Executor.Tarjan.Member.{contains-nil}
use epx_c.Executor.Tarjan.Correct.{IsLoaded}
use epx_c.Executor.Rounds.{VertexLaws}

module _ (x : Externals) (v : Vertices) (l : LlrbLaws x.llrb) (w : VertexLaws v) where
  -- The executor between two rounds: nothing is left of the round before, and the instances of its
  -- map are in the replica, whose indexes are in order.
  pub record IsRunning (e : Executor x v) : Type 0 where
    pub loaded : IsLoaded e
    pub valid : IndexesAreValid x l e.r.index

  -- the state in which the loop of `run_execute` starts
  pub new_executor-IsRunning :
      (r : Replica x) → IndexesAreValid x l r.index → IsRunning (new_executor r)
  unfolding new_executor
  new_executor-IsRunning r valid = record {
    loaded = record {
      no_stack = refl;
      no_sccs = refl;
      linked = tt;
      allocated = λ m c. absurd (none_listed m c);
      listed = w.listed v.no_vertices;
      found = λ m c. absurd (none_listed m c);
    };
    valid = valid;
  }
    where
      none_listed : (m : ℕ) → contains (v.vertex_values v.no_vertices) m ≡ true → ⊥
      none_listed m c = contains-nil m (subst (λ ms. contains ms m ≡ true) w.values_none c)
