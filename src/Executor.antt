-- ===== src/Executor.antt =====
-- src/execute.c: the executor's graph of committed instances. A pointer to a node is its place in
-- the list of the nodes that were allocated; a pointer to an instance is its key, and is read and
-- written through the replica's indexes, as the instances stand there.
pub mod Visit
pub mod Components
pub mod Order
pub mod Ready
pub mod Enough
pub mod Total
pub mod Tarjan
pub mod Frame
pub mod Rounds
use epx_c.Base.{
  ℕ, suc, ◌+◌, ◌++◌, Bool, true, false, not, Option, none, some, List, [], ◌∷◌, get_or, set, length,
  ltb, ◌==◌, replicate, if◌then◌else◌, Outcome, ok, fault, null_deref, ◌>>=◌,
}
use epx_c.Epx.{max_deps}
use epx_c.InstanceId.{InstanceId, Dependency, dh_key}
use epx_c.Instance.{Instance, zero_id}
use epx_c.Instance.Deps.{number}
use epx_c.Extern.{Externals, Vertices}
use epx_c.Replica.{Replica, alloc, find_instance}

-- `index` and `low_link` are none for -1; `deps` are pointers, some of them null.
pub record TarjanNode : Type 0 where
  pub i : InstanceId
  pub index : Option ℕ
  pub low_link : Option ℕ
  pub on_stack : Bool
  pub deps : List (Option ℕ)

abbrev no_deps : List (Option ℕ)
no_deps = replicate max_deps none

unfoldable pub new_tn : Bool → InstanceId → Option TarjanNode
new_tn got i =
    if got
    then some (record { i = i; index = none; low_link = none; on_stack = false; deps = no_deps })
    else none

unfoldable pub not_visited : TarjanNode → Bool
not_visited n = elim n.index [ none ↦ true | some k ↦ false ]

unfoldable pub reset_node : TarjanNode → TarjanNode
reset_node n = record n { index = none; low_link = none; on_stack = false; deps = no_deps }

-- the smaller of two numbers, of which none is the smallest
unfoldable pub min_index : Option ℕ → Option ℕ → Option ℕ
min_index none b = none
min_index (some a) none = none
min_index (some a) (some b) = if ltb a b then some a else some b

-- what stands where no node was allocated
abbrev pub no_node : TarjanNode
no_node = record { i = zero_id; index = none; low_link = none; on_stack = false; deps = [] }

-- The entries of `sccs` up to `scc_count`, each up to its last node, and those of `executed`; the
-- others are null. `r` is
-- the replica that the instances point to.
pub record Executor (x : Externals) (v : Vertices) : Type 0 where
  pub vertices : v.VertexMap
  pub nodes : List TarjanNode
  pub sccs : List (List ℕ)
  pub stack : List ℕ
  pub executed : List InstanceId
  pub index : ℕ
  pub r : Replica x

module _ {x : Externals} {v : Vertices} where
  -- `kh_init(vertices)` and `SLIST_INIT`
  unfoldable pub new_executor : Replica x → Executor x v
  new_executor r = record {
    vertices = v.no_vertices;
    nodes = [];
    sccs = [];
    stack = [];
    executed = [];
    index = 0;
    r = r;
  }

  unfoldable pub reset_exec : Executor x v → Executor x v
  reset_exec e = record e { sccs = []; executed = []; stack = []; index = 0 }

  abbrev pub node : Executor x v → ℕ → TarjanNode
  node e n = get_or e.nodes n no_node

  abbrev pub set_node : Executor x v → ℕ → TarjanNode → Executor x v
  set_node e n tn = record e { nodes = set e.nodes n tn }

  -- the instance that a node points to
  unfoldable pub instance_of : Executor x v → ℕ → Outcome Instance
  instance_of e n = find_instance e.r (node e n).i >>= λ found. elim found [
    | none ↦ fault null_deref
    | some i ↦ ok i
  ]

  -- Whether the instance is new to the graph, and the executor. An old node of the instance is
  -- replaced.
  unfoldable pub add_node : Executor x v → Instance → Bool × Executor x v
  add_node e i =
      let (got, r) = alloc e.r in
      elim (new_tn got i.key) [
        | none ↦ (false, record e { r = r })
        | some nn ↦ (
          elim (v.vertex_get e.vertices (dh_key i.key)) [ none ↦ true | some old ↦ false ],
          record e {
            r = r;
            nodes = e.nodes ++ (nn ∷ []);
            vertices = v.vertex_put e.vertices (dh_key i.key) (length e.nodes);
          },
        )
      ]
