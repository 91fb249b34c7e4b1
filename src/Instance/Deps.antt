-- ===== src/Instance/Deps.antt =====
-- The dependency arrays of src/instance.c: `MAX_DEPS` entries in descending order of their
-- instance numbers, the free ones (number 0) last.
pub mod Shift
pub mod Sorted
pub mod Kept
pub mod Searches
use epx_c.Base.{
  ℕ, zero, suc, ◌+◌, ◌-◌, ◌<◌, ◌≤◌, ◌≡◌, Bool, true, false, ◌&&◌, ◌||◌, not, Option, none, some,
  List, [], ◌∷◌, All, length, get_or, set, replicate, ltb, ◌==◌, if◌then◌else◌,
}
use epx_c.Epx.{max_deps}
use epx_c.InstanceId.{InstanceId, Dependency, eq_instance_id}

abbrev pub zero_dep : Dependency
zero_dep = record { id = record { replica_id = 0; instance_id = 0 }; committed = 0 }

-- `memset(deps, 0, DEPSIZE)`
abbrev pub zero_deps : List Dependency
zero_deps = replicate max_deps zero_dep

abbrev pub number : Dependency → ℕ
number d = d.id.instance_id

-- The loops over all of an array are recursions on the list.
unfoldable pub lt_dep_replica : ℕ → List Dependency → ℕ
lt_dep_replica replica_id [] = 0
lt_dep_replica replica_id (d ∷ deps) =
    if replica_id == d.id.replica_id then number d else lt_dep_replica replica_id deps

unfoldable pub has_key : InstanceId → List Dependency → Bool
unfolding eq_instance_id
has_key id [] = false
has_key id (d ∷ deps) = if eq_instance_id id d.id then true else has_key id deps

-- two arrays of one length
unfoldable pub equal_deps : List Dependency → List Dependency → Bool
unfolding eq_instance_id
equal_deps [] ds = true
equal_deps (d ∷ deps) [] = true
equal_deps (d ∷ deps) (e ∷ ds) =
    if not (eq_instance_id d.id e.id) || not (d.committed == e.committed)
    then false
    else equal_deps deps ds

-- The first loop of `update_deps`: an entry for the same instance has its flag raised.
unfoldable pub mark_dep : List Dependency → Dependency → Option (ℕ × List Dependency)
unfolding eq_instance_id
mark_dep [] d = none
mark_dep (x ∷ deps) d =
    if eq_instance_id x.id d.id
    then (if ltb x.committed d.committed
        then some (1, record x { committed = d.committed } ∷ deps)
        else some (0, x ∷ deps))
    else elim (mark_dep deps d) [ none ↦ none | some (r, ds) ↦ some (r, x ∷ ds) ]

-- one round of the inner loop, at `j`: no copy into a free entry
unfoldable pub carry_one : ℕ → List Dependency → List Dependency
carry_one j deps =
    if number (get_or deps (suc j) zero_dep) == 0
    then deps
    else set deps (suc j) (get_or deps j zero_dep)

-- `while(j > i){ j--; … }`
unfoldable pub shift : ℕ → ℕ → List Dependency → List Dependency
unfolding carry_one
shift zero i deps = deps
shift (suc j) i deps = if ltb i (suc j) then shift j i (carry_one j deps) else deps

-- The second loop, with `n` rounds left; `top` is `MAX_DEPS - 1`.
unfoldable pub add_entry : ℕ → ℕ → ℕ → List Dependency → Dependency → ℕ × List Dependency
unfolding shift
add_entry top zero i deps d = (0, deps)
add_entry top (suc n) i deps d =
    let rest = add_entry top n (suc i) deps d in
    if ltb (number (get_or deps i zero_dep)) (number d)
    then (1, set (shift top i deps) i d)
    else rest

-- The result and the array.
unfoldable pub update_deps : List Dependency → Dependency → ℕ × List Dependency
unfolding mark_dep add_entry
update_deps deps d = if number d == 0 then (0, deps) else elim (mark_dep deps d) [
  | some (r, ds) ↦ (r, ds)
  | none ↦ add_entry (max_deps - 1) max_deps 0 deps d
]

-- `has_uncommitted_deps`, over the array of the instance
unfoldable pub has_uncommitted_deps : List Dependency → Bool
has_uncommitted_deps [] = false
has_uncommitted_deps (d ∷ deps) =
    if number d == 0 then false else if d.committed == 0 then true else has_uncommitted_deps deps
