-- ===== src/Instance/Deps/Kept.antt =====
-- What `update_deps` adds to an array, what it keeps and what it loses.
use epx_c.Base.{
  ◌<◌, ◌≡◌, refl, ◌≢◌, ◌⊎◌, true, false, none, List, [], ◌∷◌, length, if◌then◌else◌, ◌==◌, arith,
}
use epx_c.Epx.{max_deps}
use epx_c.InstanceId.{InstanceId, Dependency}
use epx_c.Instance.Deps.{number, has_key, mark_dep, update_deps}
use epx_c.Instance.Deps.Shift.{carry, insert_dep, has_smaller}
use epx_c.Instance.Deps.Sorted.{
  IsSorted, Below, IsValid, carry-Below, found_or, update_deps-update_steps,
}

-- The entry with the smallest number that is not free.
abbrev pub last_live : Dependency → List Dependency → Dependency
last_live x [] = x
last_live x (y ∷ ys) = if number y == 0 then x else last_live y ys

mark_dep_result :
    (xs : List Dependency) (d : Dependency)
    → let (r, ys) = found_or (mark_dep xs d) (0, xs) in
      ((r ≡ 0) × (ys ≡ xs)) ⊎ ((r ≡ 1) × (has_key d.id ys ≡ true))
unfolding mark_dep has_key
mark_dep_result [] d = ground arith
mark_dep_result (x ∷ xs) d = ground (arith, mark_dep_result xs d)

insert_dep_result :
    (xs : List Dependency) (d : Dependency)
    → ((has_smaller xs d ≡ 0) × (insert_dep xs d ≡ xs))
      ⊎ ((has_smaller xs d ≡ 1) × (has_key d.id (insert_dep xs d) ≡ true))
unfolding has_key
insert_dep_result [] d = ground arith
insert_dep_result (x ∷ xs) d = ground (arith, insert_dep_result xs d)

-- For an array of `MAX_DEPS` entries, `update_deps` returns 0 and leaves the array as it was, or
-- returns 1 and the array holds the dependency.
pub update_deps_result :
    (deps : List Dependency) (d : Dependency)
    → length deps ≡ max_deps
    → let (r, ds) = update_deps deps d in
      ((r ≡ 0) × (ds ≡ deps)) ⊎ ((r ≡ 1) × (has_key d.id ds ≡ true))
update_deps_result deps d h =
    rw (update_deps-update_steps deps d h)
      (ground (arith, mark_dep_result deps d, insert_dep_result deps d))

has_key-Below_zero :
    (id : InstanceId) (xs : List Dependency)
    → Below 0 xs
    → has_key id xs ≡ true
    → id.instance_id ≡ 0
unfolding has_key
has_key-Below_zero id [] b h = ground arith
has_key-Below_zero id (x ∷ xs) b h = ground (arith, has_key-Below_zero id xs)

has_key-carry :
    (id : InstanceId) (x : Dependency) (xs : List Dependency)
    → IsSorted (x ∷ xs)
    → id.instance_id ≢ 0
    → has_key id (x ∷ xs) ≡ true
    → (id ≡ (last_live x xs).id) ⊎ (has_key id (carry x xs) ≡ true)
unfolding has_key
has_key-carry id x [] s n h = ground arith
has_key-carry id x (y ∷ ys) s n h =
    ground (arith, has_key-carry id y ys s.1 n, has_key-Below_zero id ys)

has_key-insert_dep :
    (id : InstanceId) (x : Dependency) (xs : List Dependency) (d : Dependency)
    → IsSorted (x ∷ xs)
    → id.instance_id ≢ 0
    → has_key id (x ∷ xs) ≡ true
    → (id ≡ (last_live x xs).id) ⊎ (has_key id (insert_dep (x ∷ xs) d) ≡ true)
unfolding has_key
has_key-insert_dep id x [] d s n h = ground arith
has_key-insert_dep id x (y ∷ ys) d s n h = ground (
  arith,
  has_key-carry id x (y ∷ ys) s n h,
  has_key-insert_dep id y ys d s.1 n,
  has_key-Below_zero id (y ∷ ys),
)

has_key-mark_dep :
    (id : InstanceId) (xs : List Dependency) (d : Dependency)
    → has_key id xs ≡ true
    → has_key id (found_or (mark_dep xs d) (0, xs)).1 ≡ true
unfolding mark_dep has_key
has_key-mark_dep id [] d h = h
has_key-mark_dep id (x ∷ xs) d h = ground (arith, has_key-mark_dep id xs d)

-- For a valid array with a first entry `x`, `update_deps` loses no instance but the one of the
-- smallest number: every other one that the array holds, its result holds.
pub has_key-update_deps :
    (id : InstanceId) (x : Dependency) (xs : List Dependency) (d : Dependency)
    → IsValid (x ∷ xs)
    → id.instance_id ≢ 0
    → has_key id (x ∷ xs) ≡ true
    → id ≢ (last_live x xs).id
    → has_key id (update_deps (x ∷ xs) d).1 ≡ true
has_key-update_deps id x xs d v n h other =
    rw (update_deps-update_steps (x ∷ xs) d v.size)
      (ground (arith, has_key-insert_dep id x xs d v.sorted n h, has_key-mark_dep id (x ∷ xs) d h))

-- No instance stands twice, free entries apart.
abbrev pub IsDistinct : List Dependency → Type 0
IsDistinct [] = Unit
IsDistinct (x ∷ xs) = ((number x ≡ 0) ⊎ (has_key x.id xs ≡ false)) × IsDistinct xs

last_live-ne-zero :
    (x : Dependency) (xs : List Dependency) → number x ≢ 0 → number (last_live x xs) ≢ 0
last_live-ne-zero x [] n = n
last_live-ne-zero x (y ∷ ys) n = ground (arith, last_live-ne-zero y ys)

has_key-last_live :
    (x : Dependency) (xs : List Dependency) → has_key (last_live x xs).id (x ∷ xs) ≡ true
unfolding has_key
has_key-last_live x [] = ground arith
has_key-last_live x (y ∷ ys) = ground (arith, has_key-last_live y ys)

not-has_key-carry :
    (x : Dependency) (xs : List Dependency)
    → IsSorted (x ∷ xs)
    → IsDistinct (x ∷ xs)
    → number x ≢ 0
    → has_key (last_live x xs).id (carry x xs) ≡ false
unfolding has_key
not-has_key-carry x [] s u n = refl
not-has_key-carry x (y ∷ ys) s u n = ground (
  arith,
  not-has_key-carry y ys s.1 u.1,
  has_key-last_live y ys,
  has_key-Below_zero x.id (carry y ys),
  carry-Below 0 y ys,
)

not-has_key-insert_dep :
    (x : Dependency) (xs : List Dependency) (d : Dependency)
    → IsSorted (x ∷ xs)
    → IsDistinct (x ∷ xs)
    → number (last_live x xs) ≢ 0
    → number (last_live x xs) < number d
    → has_key (last_live x xs).id (insert_dep (x ∷ xs) d) ≡ false
unfolding has_key
not-has_key-insert_dep x [] d s u n h = ground arith
not-has_key-insert_dep x (y ∷ ys) d s u n h = ground (
  arith,
  not-has_key-carry x (y ∷ ys) s u,
  not-has_key-insert_dep y ys d s.1 u.1,
  has_key-last_live y ys,
)

-- For a valid array with a first entry `x`, not free, and no instance twice: adding an instance
-- that it does not hold, with a number above the smallest, loses the instance of the smallest
-- number, however many entries are free.
pub not-has_key-update_deps :
    (x : Dependency) (xs : List Dependency) (d : Dependency)
    → IsValid (x ∷ xs)
    → IsDistinct (x ∷ xs)
    → number x ≢ 0
    → mark_dep (x ∷ xs) d ≡ none
    → number (last_live x xs) < number d
    → has_key (last_live x xs).id (update_deps (x ∷ xs) d).1 ≡ false
not-has_key-update_deps x xs d v u n new h =
    rw (update_deps-update_steps (x ∷ xs) d v.size, new)
      (ground (arith, not-has_key-insert_dep x xs d v.sorted u (last_live-ne-zero x xs n)))
