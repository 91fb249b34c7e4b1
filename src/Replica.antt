-- ===== src/Replica.antt =====
-- src/replica.h and src/replica.c: a replica's indexes, what it allocates, and what it hands to
-- timers, to the other nodes, to clients and to the executor.
pub mod Valid
use epx_c.Base.{
  ℕ, zero, suc, Bool, true, false, Option, none, some, List, [], ◌∷◌, get_or, set, leb, ltb, ◌==◌,
  ◌&&◌, if◌then◌else◌, Outcome, ok, fault, null_deref, out_of_bounds, ◌>>=◌,
}
use epx_c.Epx.{n_replicas}
use epx_c.InstanceId.{InstanceId, Dependency, max_seq}
use epx_c.Command.{Command}
use epx_c.Message.{State, bits, Message}
use epx_c.Instance.{Instance, SeqDepsProbe}
use epx_c.Instance.Deps.{zero_deps, equal_deps}
use epx_c.Extern.{Externals}
use epx_c.Index.{seq_deps_for_command, barrier_dep, noop_dep, clear_index, pre_accept_conflict}

-- the callback that a timer is set to
pub data Callback : Type 0 where
  fast_path slow_path : Callback

-- A call of a library or of another thread. A message is recorded as it is when it is sent.
pub data Effect : Type 0 where
  to_io : Message → Effect
  to_eo : Message → Effect
  to_exec : InstanceId → Effect
  set_timer : Callback → InstanceId → ℕ → Effect
  delete_timer : InstanceId → Effect

-- `allocs` are the outcomes of the coming allocations; where it ends they succeed. The newest
-- effect is the first of `trace`.
pub record Replica (x : Externals) : Type 0 where
  pub id : ℕ
  pub index : List x.Tree
  pub dh : x.Map
  pub allocs : List Bool
  pub trace : List Effect

abbrev first_alloc : List Bool → Bool
first_alloc [] = true
first_alloc (b ∷ bs) = b

abbrev later_allocs : List Bool → List Bool
later_allocs [] = []
later_allocs (b ∷ bs) = bs

module _ {x : Externals} where
  abbrev pub emit : Effect → Replica x → Replica x
  emit e r = record r { trace = e ∷ r.trace }

  -- `timeouts_del`
  abbrev pub cancel_timeout : Replica x → Instance → Replica x
  cancel_timeout r i = emit (delete_timer i.key) r

  abbrev pub init_fp_timeout : Replica x → Instance → Replica x
  init_fp_timeout r i = emit (set_timer fast_path i.key 20) r

  abbrev pub init_timeout : Replica x → Instance → Replica x
  init_timeout r i = emit (set_timer slow_path i.key 20) r

  abbrev pub send_io : Replica x → Message → Replica x
  send_io r m = emit (to_io m) r

  abbrev pub send_eo : Replica x → Message → Replica x
  send_eo r m = emit (to_eo m) r

  abbrev pub send_exec : Replica x → Instance → Replica x
  send_exec r i = emit (to_exec i.key) r

  -- one allocation
  abbrev pub alloc : Replica x → Bool × Replica x
  alloc r = (first_alloc r.allocs, record r { allocs = later_allocs r.allocs })

  abbrev pub tree : Replica x → ℕ → x.Tree
  tree r rc = get_or r.index rc x.empty

  -- `r->index[replica_id]`
  abbrev pub index_of : Replica x → ℕ → Outcome x.Tree
  index_of r rc = if ltb rc n_replicas then ok (tree r rc) else fault out_of_bounds

  abbrev pub set_index : Replica x → ℕ → x.Tree → Replica x
  set_index r rc t = record r { index = set r.index rc t }

  -- The assignments to the fields of an instance that the index holds.
  unfoldable pub store : Replica x → Instance → Replica x
  store r i = set_index r i.key.replica_id (x.write (tree r i.key.replica_id) i)

  unfoldable pub find_instance : Replica x → InstanceId → Outcome (Option Instance)
  find_instance r id = index_of r id.replica_id >>= λ t. ok (x.find t id.instance_id)

  -- `false` for the result -1, of an instance that is already there
  unfoldable pub register_instance : Replica x → Instance → Outcome (Bool × Replica x)
  register_instance r i = index_of r i.key.replica_id >>= λ t.
      let (rej, t') = x.insert t i in
      elim rej [
        | none ↦ ok (true, set_index r i.key.replica_id t')
        | some e ↦ ok (false, set_index r i.key.replica_id t')
      ]

  unfoldable pub max_local : Replica x → Outcome ℕ
  max_local r =
      index_of r r.id >>= λ t. elim (x.last t) [ none ↦ ok 0 | some i ↦ ok i.key.instance_id ]

  -- The loops over the indexes have `n` rounds left, from `rc`.
  unfoldable pub sd_loop :
      ℕ
      → ℕ
      → Replica x
      → Option InstanceId
      → ℕ
      → Option Command
      → SeqDepsProbe
      → Outcome (ℕ × Option Command × SeqDepsProbe)
  sd_loop zero rc r ignore mseq c p = ok (mseq, c, p)
  sd_loop (suc n) rc r ignore mseq c p = seq_deps_for_command x (tree r rc) c ignore p >>= λ w.
      sd_loop n (suc rc) r ignore (max_seq mseq w.mseq) w.cmd w.probe

  unfoldable pub sd_for_command :
      Replica x
      → Option Command
      → Option InstanceId
      → SeqDepsProbe
      → Outcome (ℕ × Option Command × SeqDepsProbe)
  sd_for_command r c ignore p = sd_loop n_replicas 0 r ignore 0 c p

  unfoldable pub noop : Replica x → InstanceId → Outcome (List Dependency)
  noop r id = index_of r id.replica_id >>= λ t. noop_dep x t id

  unfoldable pub barrier_loop : ℕ → ℕ → Replica x → List Dependency → Outcome (List Dependency)
  barrier_loop zero rc r deps = ok deps
  barrier_loop (suc n) rc r deps =
      barrier_dep x (tree r rc) deps >>= λ ds. barrier_loop n (suc rc) r ds

  unfoldable pub barrier : Replica x → Outcome (List Dependency)
  barrier r = barrier_loop n_replicas 0 r zero_deps

  unfoldable pub clear_all : ℕ → ℕ → Replica x → Outcome (Replica x)
  clear_all zero rc r = ok r
  clear_all (suc n) rc r =
      clear_index x (tree r rc) >>= λ t. clear_all n (suc rc) (set_index r rc t)

  unfoldable pub clear : Replica x → Outcome (Replica x)
  clear r = clear_all n_replicas 0 r

  unfoldable pub pac_loop :
      ℕ
      → ℕ
      → Replica x
      → Instance
      → ℕ
      → List Dependency
      → Option Command
      → Outcome (Option Instance × Option Command)
  pac_loop zero rc r i seq deps c = ok (none, c)
  pac_loop (suc n) rc r i seq deps c = pre_accept_conflict x (tree r rc) i c seq deps >>= λ w.
      elim w.conflict [
        | some t ↦ ok (some t, w.cmd)
        | none ↦ pac_loop n (suc rc) r i seq deps w.cmd
      ]

  -- the conflicting instance, and the command, of which some ranges are widened
  unfoldable pub pac_conflict :
      Replica x
      → Instance
      → Option Command
      → ℕ
      → List Dependency
      → Outcome (Option Instance × Option Command)
  pac_conflict r i c seq deps = pac_loop n_replicas 0 r i seq deps c

  unfoldable pub find_conflict :
      Replica x
      → Instance
      → Option Command
      → ℕ
      → List Dependency
      → Outcome (Option Instance × Option Command)
  find_conflict r i c seq deps = elim i.command [
    | none ↦ pac_conflict r i c seq deps
    | some own ↦
        (if leb (bits State.accepted) (bits i.status)
          then ok (some i, c)
          else (if i.seq == seq && equal_deps i.deps deps
              then ok (none, c)
              else pac_conflict r i c seq deps))
  ]
