-- ===== src/Index/Valid.antt =====
-- The searches of src/index.c keep dependency arrays valid, whatever the trees hold.
use epx_c.Base.{inl, inr, Option, List, Ensures, Option-cases, Outcome-cases, arith}
use epx_c.InstanceId.{InstanceId, Dependency}
use epx_c.Command.{Span, Command}
use epx_c.Instance.{Instance, SeqDepsProbe, add_dep}
use epx_c.Instance.Deps.{zero_deps}
use epx_c.Instance.Deps.Sorted.{IsValid, update_deps-IsValid}
use epx_c.Extern.{Externals}
use epx_c.Index.{
  Search, probe_add, seq_deps_found, seq_deps_round, seq_deps_for_command, interferes_ptr,
  barrier_dep, noop_dep,
}
use epx_c.Index.Walk.{RoundEnsures, walk_down_inv}

pub zero_deps-IsValid : IsValid zero_deps
zero_deps-IsValid = omega arith

pub add_dep-IsValid :
    (deps : List Dependency) (i : Instance) → IsValid deps → IsValid (add_dep deps i).1
unfolding add_dep
add_dep-IsValid deps i v = update_deps-IsValid deps _ v

probe_add-IsValid :
    (x : Externals) (p : SeqDepsProbe) (i : Instance)
    → IsValid p.deps
    → IsValid (probe_add x p i).deps
unfolding probe_add
probe_add-IsValid x p i v = add_dep-IsValid p.deps i v

module _ (x : Externals) where
  abbrev ProbeIsValid : Search x → Type 0
  ProbeIsValid w = IsValid w.probe.deps

  seq_deps_found-IsValid :
      (ti : Instance) (cspan : List Span) (cmd : Command) (w : Search x)
      → ProbeIsValid w
      → RoundEnsures ProbeIsValid (seq_deps_found x ti cspan cmd w)
  unfolding seq_deps_found
  seq_deps_found-IsValid ti cspan cmd w v = ground (arith, probe_add-IsValid x w.probe ti v)

  seq_deps_round-IsValid :
      (ignore : Option InstanceId) (ti : Instance) (w : Search x)
      → ProbeIsValid w
      → Ensures (RoundEnsures ProbeIsValid) (seq_deps_round x ignore ti w)
  unfolding seq_deps_round
  seq_deps_round-IsValid ignore ti w v = elim (Outcome-cases (interferes_ptr ti.command w.cmd)) [
    | inr (f, e) ↦ rw e (ground arith)
    | inl ((hit, cspan), e) ↦ rw e (elim (Option-cases w.cmd) [
      | inl n ↦ rw n (ground arith)
      | inr (cmd, c) ↦ rw c (ground (arith, seq_deps_found-IsValid ti cspan cmd w v))
    ])
  ]

  pub seq_deps_for_command-IsValid :
      (index : x.Tree) (cmd : Option Command) (ignore : Option InstanceId) (p : SeqDepsProbe)
      → IsValid p.deps
      → Ensures ProbeIsValid (seq_deps_for_command x index cmd ignore p)
  unfolding seq_deps_for_command
  seq_deps_for_command-IsValid index cmd ignore p v =
      walk_down_inv x (seq_deps_round x ignore) index ProbeIsValid (seq_deps_round-IsValid ignore)
        (x.size index) (x.last index) _ v

  pub barrier_dep-IsValid :
      (index : x.Tree) (deps : List Dependency)
      → IsValid deps
      → Ensures IsValid (barrier_dep x index deps)
  unfolding barrier_dep
  barrier_dep-IsValid index deps v = elim (Option-cases (x.last index)) [
    | inl e ↦ ground arith
    | inr (i, e) ↦ elim (Option-cases (x.prev index i)) [
      | inl n ↦ ground arith
      | inr (dep, p) ↦ ground (arith, add_dep-IsValid deps dep v)
    ]
  ]

  pub noop_dep-IsValid : (index : x.Tree) (id : InstanceId) → Ensures IsValid (noop_dep x index id)
  unfolding noop_dep
  noop_dep-IsValid index id = elim (Option-cases (x.find index id.instance_id)) [
    | inl e ↦ ground arith
    | inr (i, e) ↦ elim (Option-cases (x.prev index i)) [
      | inl n ↦ ground (arith, zero_deps-IsValid)
      | inr (dep, p) ↦ ground (arith, add_dep-IsValid zero_deps dep zero_deps-IsValid)
    ]
  ]
