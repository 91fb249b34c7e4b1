-- ===== src/Executor/Ready.antt =====
-- What `execute_scc` of src/execute.c asks for before it executes a component.
use epx_c.Base.{ℕ, ◌≡◌, ◌⊎◌, true, List, All, ok}
use epx_c.InstanceId.{Dependency}
use epx_c.Instance.{Instance}
use epx_c.Instance.Deps.{number}
use epx_c.Extern.{Externals, Vertices}
use epx_c.Executor.{Executor, instance_of}
use epx_c.Executor.Components.{is_executed, is_inside}

module _ {x : Externals} {v : Vertices} (e : Executor x v) (comp : List ℕ) where
  -- a dependency that does not keep the component waiting
  abbrev pub IsMet : Dependency → Type 0
  IsMet d = (number d ≡ 0) ⊎ (is_inside e comp d ≡ true) ⊎ (is_executed e d ≡ ok true)

  -- a node whose instance exists and waits for nothing
  abbrev pub IsReady : ℕ → Type 0
  IsReady n = (i : Instance) × (instance_of e n ≡ ok i) × All IsMet i.deps
