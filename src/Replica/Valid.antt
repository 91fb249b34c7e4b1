-- ===== src/Replica/Valid.antt =====
-- What a replica's searches give is a valid dependency array.
use epx_c.Base.{ℕ, zero, suc, Option, List, Ensures, Ensures-bind, Outcome-cases, inl, inr}
use epx_c.InstanceId.{InstanceId, Dependency, max_seq}
use epx_c.Command.{Command}
use epx_c.Instance.{SeqDepsProbe}
use epx_c.Instance.Deps.{zero_deps}
use epx_c.Instance.Deps.Sorted.{IsValid}
use epx_c.Extern.{Externals}
use epx_c.Index.{Search, seq_deps_for_command, barrier_dep}
use epx_c.Index.Valid.{
  zero_deps-IsValid, seq_deps_for_command-IsValid, barrier_dep-IsValid, noop_dep-IsValid,
}
use epx_c.Replica.{Replica, tree, index_of, sd_loop, sd_for_command, noop, barrier_loop, barrier}

abbrev pub FoundIsValid : ℕ × Option Command × SeqDepsProbe → Type 0
FoundIsValid found = IsValid (found.2).deps

module _ {x : Externals} (r : Replica x) where
  sd_loop-IsValid :
      (n rc : ℕ) (ignore : Option InstanceId) (mseq : ℕ) (c : Option Command) (p : SeqDepsProbe)
      → IsValid p.deps
      → Ensures FoundIsValid (sd_loop n rc r ignore mseq c p)
  unfolding sd_loop
  sd_loop-IsValid zero rc ignore mseq c p v = v
  sd_loop-IsValid (suc n) rc ignore mseq c p v =
      Ensures-bind (λ (w : Search x). IsValid w.probe.deps) FoundIsValid
        (seq_deps_for_command x (tree r rc) c ignore p) _
        (λ w u. sd_loop-IsValid n (suc rc) ignore (max_seq mseq w.mseq) w.cmd w.probe u)
        (seq_deps_for_command-IsValid x (tree r rc) c ignore p v)

  pub sd_for_command-IsValid :
      (c : Option Command) (ignore : Option InstanceId) (p : SeqDepsProbe)
      → IsValid p.deps
      → Ensures FoundIsValid (sd_for_command r c ignore p)
  unfolding sd_for_command
  sd_for_command-IsValid c ignore p v = sd_loop-IsValid 3 0 ignore 0 c p v

  pub noop-IsValid : (id : InstanceId) → Ensures IsValid (noop r id)
  unfolding noop
  noop-IsValid id = elim (Outcome-cases (index_of r id.replica_id)) [
    | inl (t, e) ↦ rw e (noop_dep-IsValid x t id)
    | inr (f, e) ↦ rw e tt
  ]

  barrier_loop-IsValid :
      (n rc : ℕ) (deps : List Dependency)
      → IsValid deps
      → Ensures IsValid (barrier_loop n rc r deps)
  unfolding barrier_loop
  barrier_loop-IsValid zero rc deps v = v
  barrier_loop-IsValid (suc n) rc deps v =
      Ensures-bind IsValid IsValid (barrier_dep x (tree r rc) deps) _
        (λ ds u. barrier_loop-IsValid n (suc rc) ds u) (barrier_dep-IsValid x (tree r rc) deps v)

  pub barrier-IsValid : Ensures IsValid (barrier r)
  unfolding barrier
  barrier-IsValid = barrier_loop-IsValid 3 0 zero_deps zero_deps-IsValid
