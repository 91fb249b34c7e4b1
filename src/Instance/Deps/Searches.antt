-- ===== src/Instance/Deps/Searches.antt =====
-- What the searches of a dependency array find, which stop early because it is in order.
use epx_c.Base.{ℕ, ◌≤◌, ◌≡◌, ◌≢◌, ◌↔◌, ◌⊎◌, inl, inr, true, List, [], ◌∷◌, arith}
use epx_c.InstanceId.{InstanceId, Dependency}
use epx_c.Instance.Deps.{number, has_key, lt_dep_replica, has_uncommitted_deps}
use epx_c.Instance.Deps.Sorted.{Below, IsSorted}

has_key-Below :
    (k : ℕ) (id : InstanceId) (ds : List Dependency)
    → Below k ds
    → has_key id ds ≡ true
    → id.instance_id ≤ k
unfolding has_key
has_key-Below k id [] b h = absurd (ground arith)
has_key-Below k id (d ∷ ds) b h = ground (arith, has_key-Below k id ds)

-- In an array in order that holds an instance of the replica, `lt_dep_replica` gives the number of
-- one that it holds, and no smaller number.
pub lt_dep_replica_largest :
    (rc n : ℕ) (ds : List Dependency)
    → IsSorted ds
    → has_key (record { replica_id = rc; instance_id = n }) ds ≡ true
    → (n ≤ lt_dep_replica rc ds)
      × (has_key (record { replica_id = rc; instance_id = lt_dep_replica rc ds }) ds ≡ true)
unfolding has_key lt_dep_replica
lt_dep_replica_largest rc n [] s h = absurd (ground arith)
lt_dep_replica_largest rc n (d ∷ ds) s h = ground (
  arith,
  lt_dep_replica_largest rc n ds s.1,
  has_key-Below (number d) (record { replica_id = rc; instance_id = n }) ds s.0,
)

-- An entry that is not free has no flag.
abbrev pub HasUncommitted : List Dependency → Type 0
HasUncommitted [] = ⊥
HasUncommitted (d ∷ ds) = ((number d ≢ 0) × (d.committed ≡ 0)) ⊎ HasUncommitted ds

HasUncommitted-Below : (ds : List Dependency) → Below 0 ds → HasUncommitted ds → ⊥
HasUncommitted-Below [] b u = u
HasUncommitted-Below (d ∷ ds) b (inl u) = absurd (ground arith)
HasUncommitted-Below (d ∷ ds) b (inr u) = HasUncommitted-Below ds b.1 u

-- For an array in order, `has_uncommitted_deps` says whether an entry, free ones apart, is not
-- committed.
pub has_uncommitted_deps_iff :
    (ds : List Dependency) → IsSorted ds → (has_uncommitted_deps ds ≡ true) ↔ HasUncommitted ds
unfolding has_uncommitted_deps
has_uncommitted_deps_iff [] s = (λ h. absurd (ground arith), λ u. absurd u)
has_uncommitted_deps_iff (d ∷ ds) s = (
  λ h. ground (arith, (has_uncommitted_deps_iff ds s.1).0),
  λ u. ground (arith, (has_uncommitted_deps_iff ds s.1).1, HasUncommitted-Below ds),
)
