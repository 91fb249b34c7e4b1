-- ===== src/Instance/Deps/Sorted.antt =====
-- `update_deps` by its specification, and that it keeps an array in order.
use epx_c.Base.{
  ℕ, suc, ◌+◌, ◌-◌, refl, Bool-cases, inl, inr, of_bool, ltb, ◌≤◌, ◌≡◌, sym, Option, none, some,
  List, [], ◌∷◌, All, length, if◌then◌else◌, ◌==◌, arith,
}
use epx_c.Epx.{max_deps}
use epx_c.InstanceId.{InstanceId, Dependency, eq_instance_id}
use epx_c.Instance.Deps.{number, has_key, mark_dep, add_entry, update_deps}
use epx_c.Instance.Deps.Shift.{carry, insert_dep, has_smaller, add_entry-insert_dep}

-- Every entry has a number of at most `k`.
abbrev pub Below : ℕ → List Dependency → Type 0
Below k = All (λ d. number d ≤ k)

-- Descending numbers, so that the free entries stand last.
abbrev pub IsSorted : List Dependency → Type 0
IsSorted [] = Unit
IsSorted (x ∷ xs) = Below (number x) xs × IsSorted xs

pub record IsValid (deps : List Dependency) : Type 0 where
  pub size : length deps ≡ max_deps
  pub sorted : IsSorted deps

abbrev pub found_or : Option (ℕ × List Dependency) → ℕ × List Dependency → ℕ × List Dependency
found_or none r = r
found_or (some r) s = r

-- the two loops, the second by what it does
abbrev update_steps : List Dependency → Dependency → ℕ × List Dependency
update_steps deps d =
    if number d == 0
    then (0, deps)
    else found_or (mark_dep deps d) (has_smaller deps d, insert_dep deps d)

-- The first entry of the instance of `d` has the larger of the two flags.
abbrev pub raised : List Dependency → Dependency → List Dependency
raised [] d = []
raised (x ∷ xs) d =
    if eq_instance_id d.id x.id
    then record x { committed = x.committed + (d.committed - x.committed) } ∷ xs
    else x ∷ raised xs d

-- the flag of the instance `id`
abbrev pub flag_of : InstanceId → List Dependency → ℕ
flag_of id [] = 0
flag_of id (x ∷ xs) = if eq_instance_id id x.id then x.committed else flag_of id xs

-- The specification: nothing for the free id; else, where the array has the instance, the larger
-- flag, and 1 if that is a change; else a new entry in front of the first with a smaller number.
abbrev pub update_spec : List Dependency → Dependency → ℕ × List Dependency
update_spec deps d =
    if number d == 0
    then (0, deps)
    else (if has_key d.id deps
        then (of_bool (ltb (flag_of d.id deps) d.committed), raised deps d)
        else (has_smaller deps d, insert_dep deps d))

add_entry-at :
    (n : ℕ) (x : Dependency) (xs : List Dependency) (d : Dependency)
    → length xs ≡ n
    → add_entry n (suc n) 0 (x ∷ xs) d ≡ (has_smaller (x ∷ xs) d, insert_dep (x ∷ xs) d)
add_entry-at n x xs d e = rw (sym e) (add_entry-insert_dep x xs d)

pub update_deps-update_steps :
    (deps : List Dependency) (d : Dependency)
    → length deps ≡ max_deps
    → update_deps deps d ≡ update_steps deps d
unfolding update_deps
update_deps-update_steps [] d h = absurd (omega arith)
update_deps-update_steps (x ∷ xs) d h = ground (arith, add_entry-at 7 x xs d)

eq_instance_id_sym : (a b : InstanceId) → eq_instance_id a b ≡ eq_instance_id b a
unfolding eq_instance_id
eq_instance_id_sym a b = ground arith

mark_dep_lem :
    (xs : List Dependency) (d : Dependency)
    → mark_dep xs d ≡ (
        if has_key d.id xs
        then some (of_bool (ltb (flag_of d.id xs) d.committed), raised xs d)
        else none)
unfolding mark_dep has_key
mark_dep_lem [] d = refl
mark_dep_lem (x ∷ xs) d =
    rw (eq_instance_id_sym x.id d.id) (elim (Bool-cases (eq_instance_id d.id x.id)) [
      | inl e ↦ rw e (elim (Bool-cases (ltb x.committed d.committed)) [
        | inl g ↦ ground arith
        | inr g ↦ ground arith
      ])
      | inr e ↦
          rw (e, mark_dep_lem xs d)
            (elim (Bool-cases (has_key d.id xs)) [ inl g ↦ rw g refl | inr g ↦ rw g refl ])
    ])

-- For an array of `MAX_DEPS` entries, `update_deps` is its specification.
pub update_deps_lem :
    (deps : List Dependency) (d : Dependency)
    → length deps ≡ max_deps
    → update_deps deps d ≡ update_spec deps d
update_deps_lem deps d h =
    rw (update_deps-update_steps deps d h, mark_dep_lem deps d)
      (elim (Bool-cases (has_key d.id deps)) [ inl e ↦ rw e refl | inr e ↦ rw e refl ])

Below-le : (k m : ℕ) (xs : List Dependency) → k ≤ m → Below k xs → Below m xs
Below-le k m [] h b = tt
Below-le k m (x ∷ xs) h b = (omega arith, Below-le k m xs h b.1)

pub carry-Below :
    (k : ℕ) (x : Dependency) (xs : List Dependency)
    → number x ≤ k
    → Below k xs
    → Below k (carry x xs)
carry-Below k x [] h b = tt
carry-Below k x (y ∷ ys) h b = ground (arith, carry-Below k y ys)

carry-IsSorted :
    (x : Dependency) (xs : List Dependency)
    → Below (number x) xs
    → IsSorted xs
    → IsSorted (carry x xs)
carry-IsSorted x [] h s = tt
carry-IsSorted x (y ∷ ys) h s =
    ground (arith, carry-Below (number y) y ys, carry-Below (number x) y ys, carry-IsSorted y ys)

insert_dep-Below :
    (k : ℕ) (xs : List Dependency) (d : Dependency)
    → number d ≤ k
    → Below k xs
    → Below k (insert_dep xs d)
insert_dep-Below k [] d h b = tt
insert_dep-Below k (x ∷ xs) d h b = ground (arith, insert_dep-Below k xs d, carry-Below k x xs)

insert_dep-IsSorted :
    (xs : List Dependency) (d : Dependency) → IsSorted xs → IsSorted (insert_dep xs d)
insert_dep-IsSorted [] d s = tt
insert_dep-IsSorted (x ∷ xs) d s = ground (
  arith,
  insert_dep-IsSorted xs d,
  insert_dep-Below (number x) xs d,
  carry-IsSorted x xs,
  carry-Below (number d) x xs,
  Below-le (number x) (number d) xs,
)

mark_dep-Below :
    (k : ℕ) (xs : List Dependency) (d : Dependency)
    → Below k xs
    → Below k (found_or (mark_dep xs d) (0, xs)).1
unfolding mark_dep
mark_dep-Below k [] d b = tt
mark_dep-Below k (x ∷ xs) d b = ground (arith, mark_dep-Below k xs d)

mark_dep-IsSorted :
    (xs : List Dependency) (d : Dependency)
    → IsSorted xs
    → IsSorted (found_or (mark_dep xs d) (0, xs)).1
unfolding mark_dep
mark_dep-IsSorted [] d s = tt
mark_dep-IsSorted (x ∷ xs) d s =
    ground (arith, mark_dep-IsSorted xs d, mark_dep-Below (number x) xs d)

length-carry : (x : Dependency) (xs : List Dependency) → length (carry x xs) ≡ length xs
length-carry x [] = omega arith
length-carry x (y ∷ ys) = omega (arith, length-carry y ys)

length-insert_dep : (xs : List Dependency) (d : Dependency) → length (insert_dep xs d) ≡ length xs
length-insert_dep [] d = omega arith
length-insert_dep (x ∷ xs) d = ground (arith, length-insert_dep xs d, length-carry x xs)

length-mark_dep :
    (xs : List Dependency) (d : Dependency)
    → length (found_or (mark_dep xs d) (0, xs)).1 ≡ length xs
unfolding mark_dep
length-mark_dep [] d = omega arith
length-mark_dep (x ∷ xs) d = ground (arith, length-mark_dep xs d)

-- `update_deps` keeps an array valid: `MAX_DEPS` entries in descending order.
pub update_deps-IsValid :
    (deps : List Dependency) (d : Dependency) → IsValid deps → IsValid (update_deps deps d).1
update_deps-IsValid deps d v = rw (update_deps-update_steps deps d v.size) (
    ground (
      arith,
      mark_dep-IsSorted deps d,
      length-mark_dep deps d,
      insert_dep-IsSorted deps d,
      length-insert_dep deps d,
    ))
