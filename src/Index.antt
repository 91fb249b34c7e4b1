-- ===== src/Index.antt =====
-- src/index.h and src/index.c: what an instance depends on, searched in one replica's index.
-- The child `Spans` models the merging of ranges.
pub mod Spans
pub mod Walk
pub mod Searches
pub mod Valid
pub mod Clear
use epx_c.Base.{
  ℕ, zero, suc, ◌+◌, ◌%◌, ◌^◌, ◌≡◌, Bool, true, false, not, ◌&&◌, ◌||◌, Option, none, some, List,
  [], ◌∷◌, leb, ltb, ◌==◌, if◌then◌else◌, Outcome, ok, fault, null_deref, out_of_fuel, ◌>>=◌,
}
use epx_c.InstanceId.{InstanceId, Dependency, eq_instance_id, max_seq}
use epx_c.Command.{Span, Command, is_write, interferes}
use epx_c.Message.{State, bits}
use epx_c.Instance.{Instance, SeqDepsProbe, is_state, add_dep}
use epx_c.Instance.Deps.{zero_deps, lt_dep_replica, has_key}
use epx_c.Extern.{Externals}
use Spans.{Cover, add_spans, read_dependency}

-- What the body of a loop over an index does next.
pub data Round (W : Type 0) : Type 0 where
  go : W → Round W
  stop : W → Round W

-- `interferes(ti->command, cmd, cspan)`, where the pointers may be null: of a null second command
-- nothing is read if the first one writes and has no spans.
unfoldable pub interferes_ptr : Option Command → Option Command → Outcome (Bool × List Span)
interferes_ptr none c2 = fault null_deref
interferes_ptr (some c1) (some c2) = ok (interferes c1 c2)
interferes_ptr (some c1) none =
    if is_write c1.writing && c1.tx_size == 0 then ok (false, []) else fault null_deref

-- `ti->command->writing` and `ti->command->tx_size`, read where the pointer is not null
abbrev pub command_writes : Option Command → Bool
command_writes none = false
command_writes (some c) = is_write c.writing

abbrev pub command_size : Option Command → ℕ
command_size none = 0
command_size (some c) = c.tx_size

module _ (x : Externals) where
  -- `for (; e; e = LLRB_PREV(e)) body`, on fuel
  unfoldable pub walk_down :
      {W : Type 0}
      → (Instance → W → Outcome (Round W))
      → x.Tree
      → ℕ
      → Option Instance
      → W
      → Outcome W
  walk_down body t fuel none w = ok w
  walk_down body t zero (some e) w = fault out_of_fuel
  walk_down body t (suc fuel) (some e) w = elim (body e w) [
    | fault f ↦ fault f
    | ok (stop w') ↦ ok w'
    | ok (go w') ↦ walk_down body t fuel (x.prev t e) w'
  ]

  -- what the search of `seq_deps_for_command` carries along; `cmd` is a pointer
  pub record Search : Type 0 where
    pub mseq : ℕ
    pub cmd : Option Command
    pub rt : x.SpanTree
    pub probe : SeqDepsProbe

  -- `probe->updated += add_dep(probe->deps, ti)`
  unfoldable pub probe_add : SeqDepsProbe → Instance → SeqDepsProbe
  probe_add p ti = let (r, ds) = add_dep p.deps ti in record { updated = p.updated + r; deps = ds }

  -- An instance that interferes, over the ranges `cspan`. A null `cmd` interferes with nothing.
  unfoldable pub seq_deps_found : Instance → List Span → Command → Search → Round Search
  seq_deps_found ti cspan cmd w =
      let c =
        add_spans x.spans (command_size ti.command) 0 cspan
          (record { rt = w.rt; cmd = cmd; add = false; covered = false }) in
      let w1 = record w { mseq = max_seq w.mseq ti.seq } in
      let w2 = record w1 {
        cmd = some c.cmd;
        rt = c.rt;
        probe = if c.add then probe_add w.probe ti else w.probe;
      } in
      if command_writes ti.command
      then (if c.covered then stop w2 else go w2)
      else (if read_dependency x.spans w.rt cmd
          then go (record w1 { probe = probe_add w.probe ti })
          else go w1)

  abbrev pub is_ignored : Option InstanceId → InstanceId → Bool
  is_ignored none key = false
  is_ignored (some id) key = eq_instance_id key id

  -- the body of the loop of `seq_deps_for_command`
  unfoldable pub seq_deps_round : Option InstanceId → Instance → Search → Outcome (Round Search)
  seq_deps_round ignore ti w =
      if is_ignored ignore ti.key
      then ok (go w)
      else (if is_state (bits ti.status) (bits State.executed)
          then ok (stop w)
          else interferes_ptr ti.command w.cmd >>= λ (hit, cspan). elim w.cmd [
            | none ↦ ok (go w)
            | some cmd ↦ ok (if hit then seq_deps_found ti cspan cmd w else go w)
          ])

  -- The sequence number is `mseq` of the result; the command has some of its ranges widened.
  unfoldable pub seq_deps_for_command :
      x.Tree → Option Command → Option InstanceId → SeqDepsProbe → Outcome Search
  seq_deps_for_command index cmd ignore probe =
      walk_down (seq_deps_round ignore) index (x.size index) (x.last index)
        (record { mseq = 0; cmd = cmd; rt = x.no_spans; probe = probe })

  -- `LLRB_PREV` of a null pointer is a fault.
  unfoldable pub barrier_dep : x.Tree → List Dependency → Outcome (List Dependency)
  barrier_dep index deps = elim (x.last index) [
    | none ↦ fault null_deref
    | some i ↦ elim (x.prev index i) [
      | none ↦ fault null_deref
      | some dep ↦ ok (add_dep deps dep).1
    ]
  ]

  unfoldable pub noop_dep : x.Tree → InstanceId → Outcome (List Dependency)
  noop_dep index id = elim (x.find index id.instance_id) [
    | none ↦ fault null_deref
    | some i ↦ elim (x.prev index i) [
      | none ↦ ok zero_deps
      | some dep ↦ ok (add_dep zero_deps dep).1
    ]
  ]

  abbrev delete_ptr : x.Tree → Option Instance → x.Tree
  delete_ptr t none = t
  delete_ptr t (some e) = x.delete t e

  -- the loop of `clear_index`: from `nxt` on, with the instance last seen `executed`
  unfoldable pub clear_loop : ℕ → Option Instance → Option Instance → x.Tree → Outcome x.Tree
  clear_loop fuel none executed t = ok t
  clear_loop zero (some c) executed t = fault out_of_fuel
  clear_loop (suc fuel) (some c) executed t =
      let rest = clear_loop fuel (x.next t c) (some c) (delete_ptr t executed) in
      let skip = clear_loop fuel (x.next t c) executed t in
      if ltb (bits c.status) (bits State.executed)
      then ok t
      else (if is_state (bits c.status) (bits State.executed) then rest else skip)

  unfoldable pub clear_index : x.Tree → Outcome x.Tree
  clear_index index = clear_loop (x.size index) (x.first index) none index

-- `ti` conflicts with an instance of replica `replica_id` that has these dependencies
unfoldable pub is_dep_conflict : Instance → ℕ → List Dependency → ℕ → Bool
is_dep_conflict ti seq deps replica_id =
    let lt_instance = lt_dep_replica ti.key.replica_id deps in
    ltb lt_instance ti.key.instance_id
    || (ltb ti.key.instance_id lt_instance
        && leb seq ti.seq
        && (not (ti.key.replica_id == replica_id)
            || ltb (bits State.pre_accepted_eq) (bits ti.status)))

module _ (x : Externals) where
  -- what the search of `pre_accept_conflict` carries along
  pub record ConflictSearch : Type 0 where
    pub cmd : Option Command
    pub rt : x.SpanTree
    pub conflict : Option Instance

  unfoldable pub conflict_found :
      ℕ
      → ℕ
      → List Dependency
      → Instance
      → List Span
      → Command
      → ConflictSearch
      → Round ConflictSearch
  conflict_found replica_id seq deps ti cspan cmd w =
      let c =
        add_spans x.spans (command_size ti.command) 0 cspan
          (record { rt = w.rt; cmd = cmd; add = false; covered = false }) in
      let w2 = record w { cmd = some c.cmd; rt = c.rt } in
      let conflicts = is_dep_conflict ti seq deps replica_id in
      if command_writes ti.command
      then (if c.add && conflicts
          then stop (record w2 { conflict = some ti })
          else if c.covered
          then stop w2
          else go w2)
      else (if read_dependency x.spans w.rt cmd && conflicts
          then stop (record w { conflict = some ti })
          else go w)

  abbrev is_null : Option Command → Bool
  is_null none = true
  is_null (some c) = false

  -- the body of the loop of `pre_accept_conflict`
  unfoldable pub conflict_round :
      Instance → ℕ → List Dependency → Instance → ConflictSearch → Outcome (Round ConflictSearch)
  conflict_round i seq deps ti w =
      if is_state (bits ti.status) (bits State.executed)
      then ok (stop w)
      else (if has_key ti.key deps
            || is_null ti.command
            || leb i.key.instance_id (lt_dep_replica i.key.replica_id ti.deps)
          then ok (go w)
          else interferes_ptr ti.command w.cmd >>= λ (hit, cspan). elim w.cmd [
            | none ↦ ok (go w)
            | some cmd ↦
                ok (if hit then conflict_found i.key.replica_id seq deps ti cspan cmd w else go w)
          ])

  unfoldable pub pre_accept_conflict :
      x.Tree → Instance → Option Command → ℕ → List Dependency → Outcome ConflictSearch
  pre_accept_conflict index i c seq deps =
      walk_down x (conflict_round i seq deps) index (x.size index) (x.find index i.key.instance_id)
        (record { cmd = c; rt = x.no_spans; conflict = none })
