-- ===== src/Tests/Arrays.antt =====
-- Ballots, hash keys and dependency arrays at concrete values.
use epx_c.Base.{ℕ, ◌≡◌, ◌≤◌, ◌↔◌, refl, ◌<◌, true, false, none, List, [], ◌∷◌, arith}
use epx_c.InstanceId.{Dependency}
use epx_c.Instance.Ballot.{unique_ballot, larger_ballot, is_initial_ballot, replica_from_ballot}
use epx_c.Instance.Ballot.Laws.{
  replica_from_ballot-unique_ballot, larger_ballot-lt, larger_ballot_wraps,
}
use epx_c.Instance.Deps.Searches.{lt_dep_replica_largest, HasUncommitted, has_uncommitted_deps_iff}
use epx_c.Instance.Deps.{
  lt_dep_replica, has_uncommitted_deps, zero_dep, mark_dep, update_deps, has_key,
}
use epx_c.Instance.Deps.Sorted.{IsValid, update_spec, update_deps_lem, update_deps-IsValid}
use epx_c.Instance.Deps.Kept.{IsDistinct, has_key-update_deps, not-has_key-update_deps}

abbrev at_number : ℕ → Dependency
at_number n = record { id = record { replica_id = 1; instance_id = n }; committed = 0 }

-- three entries and five free ones
abbrev three : List Dependency
three =
    at_number 9
    ∷ at_number 6
    ∷ at_number 4
    ∷ zero_dep
    ∷ zero_dep
    ∷ zero_dep
    ∷ zero_dep
    ∷ zero_dep
    ∷ []

three-IsValid : IsValid three
three-IsValid = record { size = refl; sorted = ground arith }

replica_from_ballot-unique_ballot_example : replica_from_ballot (unique_ballot 20 2) ≡ 2
replica_from_ballot-unique_ballot_example = replica_from_ballot-unique_ballot 20 2 (omega arith)

larger_ballot-lt_example :
    (33 < larger_ballot 33 2)
    × (larger_ballot 33 2 < 256)
    × (is_initial_ballot (larger_ballot 33 2) ≡ false)
    × (replica_from_ballot (larger_ballot 33 2) ≡ 2)
larger_ballot-lt_example = larger_ballot-lt 33 2 (omega arith) (omega arith)

larger_ballot_wraps_example :
    (larger_ballot 241 2 ≡ 2)
    × (larger_ballot 241 2 < 241)
    × (is_initial_ballot (larger_ballot 241 2) ≡ true)
larger_ballot_wraps_example = larger_ballot_wraps 241 2 (omega arith) (omega arith)

update_deps_lem_example : update_deps three (at_number 7) ≡ update_spec three (at_number 7)
update_deps_lem_example = update_deps_lem three (at_number 7) refl

update_deps-IsValid_example : IsValid (update_deps three (at_number 7)).1
update_deps-IsValid_example = update_deps-IsValid three (at_number 7) three-IsValid

has_nine : has_key (at_number 9).id three ≡ true
unfolding has_key
has_nine = ground arith

has_key-update_deps_example : has_key (at_number 9).id (update_deps three (at_number 7)).1 ≡ true
has_key-update_deps_example =
    has_key-update_deps (at_number 9).id (at_number 9)
      (at_number 6 ∷ at_number 4 ∷ zero_dep ∷ zero_dep ∷ zero_dep ∷ zero_dep ∷ zero_dep ∷ [])
      (at_number 7) three-IsValid (λ e. absurd (omega arith)) has_nine (λ e. absurd (ground arith))

no_seven : mark_dep three (at_number 7) ≡ none
unfolding mark_dep
no_seven = ground arith

three-IsDistinct : IsDistinct three
unfolding has_key
three-IsDistinct = ground arith

not-has_key-update_deps_example :
    has_key (at_number 4).id (update_deps three (at_number 7)).1 ≡ false
not-has_key-update_deps_example =
    not-has_key-update_deps (at_number 9)
      (at_number 6 ∷ at_number 4 ∷ zero_dep ∷ zero_dep ∷ zero_dep ∷ zero_dep ∷ zero_dep ∷ [])
      (at_number 7) three-IsValid three-IsDistinct (λ e. absurd (omega arith)) no_seven
      (omega arith)

has_six : has_key (record { replica_id = 1; instance_id = 6 }) three ≡ true
unfolding has_key
has_six = ground arith

lt_dep_replica_largest_example :
    (6 ≤ lt_dep_replica 1 three)
    × (has_key (record { replica_id = 1; instance_id = lt_dep_replica 1 three }) three ≡ true)
lt_dep_replica_largest_example = lt_dep_replica_largest 1 6 three three-IsValid.sorted has_six

has_uncommitted_deps_iff_example : (has_uncommitted_deps three ≡ true) ↔ HasUncommitted three
has_uncommitted_deps_iff_example = has_uncommitted_deps_iff three three-IsValid.sorted
