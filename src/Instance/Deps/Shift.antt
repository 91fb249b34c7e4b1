-- ===== src/Instance/Deps/Shift.antt =====
-- The second loop of `update_deps` as a recursion on the list: where an entry is added, each entry
-- behind it moves up one place, unless that place is free.
use epx_c.Base.{
  ℕ, zero, suc, ◌≡◌, refl, sym, ap, ◌∙◌, List, [], ◌∷◌, length, get_or, set, ltb, ◌==◌,
  if◌then◌else◌, arith, ◌<◌, ◌≤◌,
}
use native.Mathlib.Decide.{dec_lt}
use epx_c.InstanceId.{Dependency}
use epx_c.Instance.Deps.{zero_dep, number, carry_one, shift, add_entry}

-- The entries behind the new one, with `x` carried up into the next place.
abbrev pub carry : Dependency → List Dependency → List Dependency
carry x [] = []
carry x (y ∷ ys) = (if number y == 0 then y else x) ∷ carry y ys

abbrev pub insert_dep : List Dependency → Dependency → List Dependency
insert_dep [] d = []
insert_dep (x ∷ xs) d = if ltb (number x) (number d) then d ∷ carry x xs else x ∷ insert_dep xs d

-- the last round of the inner loop
abbrev carry_head : Dependency → List Dependency → List Dependency
carry_head x [] = x ∷ []
carry_head x (y ∷ ys) = x ∷ (if number y == 0 then y else x) ∷ ys

carry_one-cons :
    (j : ℕ) (x : Dependency) (xs : List Dependency)
    → carry_one (suc j) (x ∷ xs) ≡ x ∷ carry_one j xs
unfolding carry_one
carry_one-cons j x xs = ground arith

shift_lt :
    (j i : ℕ) (deps : List Dependency)
    → i < suc j
    → shift (suc j) i deps ≡ shift j i (carry_one j deps)
unfolding shift
shift_lt j i deps h = ground arith

shift_ge : (j i : ℕ) (deps : List Dependency) → j ≤ i → shift j i deps ≡ deps
unfolding shift
shift_ge zero i deps h = refl
shift_ge (suc j) i deps h = ground arith

shift-cons_zero :
    (j : ℕ) (x : Dependency) (xs : List Dependency)
    → shift (suc j) 0 (x ∷ xs) ≡ carry_head x (shift j 0 xs)
shift-cons_zero zero x [] = unfold shift in refl
shift-cons_zero zero x (y ∷ ys) = unfold shift in ground arith
shift-cons_zero (suc j) x xs =
    rw
      (
        shift_lt (suc j) 0 (x ∷ xs) (omega arith),
        carry_one-cons j x xs,
        shift_lt j 0 xs (omega arith),
      )
      (shift-cons_zero j x (carry_one j xs))

shift-carry :
    (x : Dependency) (xs : List Dependency) → shift (length xs) 0 (x ∷ xs) ≡ x ∷ carry x xs
shift-carry x [] = unfold shift in refl
shift-carry x (y ∷ ys) = rw (shift-cons_zero (length ys) x (y ∷ ys), shift-carry y ys) refl

shift-cons :
    (j i : ℕ) (x : Dependency) (xs : List Dependency)
    → shift (suc j) (suc i) (x ∷ xs) ≡ x ∷ shift j i xs
shift-cons zero i x xs =
    shift_ge 1 (suc i) (x ∷ xs) (omega arith)
    ∙ ap (λ ys. x ∷ ys) (sym (shift_ge 0 i xs (omega arith)))
shift-cons (suc j) i x xs = elim (dec_lt i (suc j)) [
  | yes h ↦
      rw (shift_lt (suc j) (suc i) (x ∷ xs) (omega arith), carry_one-cons j x xs, shift_lt j i xs h)
        (shift-cons j i x (carry_one j xs))
  | no h ↦
      rw
        (shift_ge (suc (suc j)) (suc i) (x ∷ xs) (omega arith), shift_ge (suc j) i xs (omega arith))
]

abbrev cons_snd : Dependency → ℕ × List Dependency → ℕ × List Dependency
cons_snd x (r, ds) = (r, x ∷ ds)

add_entry-suc :
    (top n i : ℕ) (deps : List Dependency) (d : Dependency)
    → add_entry top (suc n) i deps d ≡ (
        if ltb (number (get_or deps i zero_dep)) (number d)
        then (1, set (shift top i deps) i d)
        else add_entry top n (suc i) deps d)
unfolding add_entry
add_entry-suc top n i deps d = refl

-- an index past the first entry is an index into the rest
add_entry-cons :
    (n top i : ℕ) (x : Dependency) (xs : List Dependency) (d : Dependency)
    → add_entry (suc top) n (suc i) (x ∷ xs) d ≡ cons_snd x (add_entry top n i xs d)
add_entry-cons zero top i x xs d = unfold add_entry in refl
add_entry-cons (suc n) top i x xs d =
    rw
      (
        add_entry-suc (suc top) n (suc i) (x ∷ xs) d,
        add_entry-suc top n i xs d,
        shift-cons top i x xs,
        add_entry-cons n top (suc i) x xs d,
      )
      (ground arith)

abbrev pub has_smaller : List Dependency → Dependency → ℕ
has_smaller [] d = 0
has_smaller (x ∷ xs) d = if ltb (number x) (number d) then 1 else has_smaller xs d

-- The array loop is the recursion on the list.
pub add_entry-insert_dep :
    (x : Dependency) (xs : List Dependency) (d : Dependency)
    → add_entry (length xs) (suc (length xs)) 0 (x ∷ xs) d
      ≡ (has_smaller (x ∷ xs) d, insert_dep (x ∷ xs) d)
add_entry-insert_dep x [] d = unfold add_entry in ground arith
add_entry-insert_dep x (y ∷ ys) d =
    rw
      (
        add_entry-suc (length (y ∷ ys)) (length (y ∷ ys)) 0 (x ∷ y ∷ ys) d,
        shift-carry x (y ∷ ys),
        add_entry-cons (length (y ∷ ys)) (length ys) 0 x (y ∷ ys) d,
        add_entry-insert_dep y ys d,
      )
      (ground arith)
