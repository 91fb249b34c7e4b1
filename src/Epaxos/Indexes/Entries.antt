-- ===== src/Epaxos/Indexes/Entries.antt =====
-- The elements of an index, under the writes of src/replica.c and `clear_index` of src/index.c.
use epx_c.Base.{
  ℕ, ◌<◌, ◌≡◌, sym, subst, inl, inr, Option, none, some, List, [], ◌∷◌, All, ltb, ◌==◌,
  if◌then◌else◌, Bool-cases, arith,
}
use epx_c.Instance.{Instance}
use epx_c.Instance.Deps.Sorted.{IsValid}
use epx_c.Extern.Laws.{num, IsAscending, find_in, insert_in, write_in, insert_result}
use epx_c.Index.Clear.{before, cleared}
use epx_c.Epaxos.Valid.{TrackerIsValid}

-- An instance of the replica `rc`, with valid dependency arrays.
abbrev pub EntryIsValid : ℕ → Instance → Type 0
EntryIsValid rc i = (i.key.replica_id ≡ rc) × IsValid i.deps × TrackerIsValid i.lt

-- The elements of an index, in ascending order.
abbrev pub EntriesAreValid : ℕ → List Instance → Type 0
EntriesAreValid rc xs = IsAscending xs × All (EntryIsValid rc) xs

all_write :
    (P : Instance → Type 0) (xs : List Instance) (e : Instance)
    → P e
    → All P xs
    → All P (write_in xs e)
all_write P [] e p a = tt
all_write P (y ∷ xs) e p a = elim (Bool-cases (num y == num e)) [
  | inl h ↦ (subst (λ b. P (if b then e else y)) (sym h) p, all_write P xs e p a.1)
  | inr h ↦ (subst (λ b. P (if b then e else y)) (sym h) a.0, all_write P xs e p a.1)
]

all_above-write :
    (n : ℕ) (xs : List Instance) (e : Instance)
    → All (λ y. n < num y) xs
    → All (λ y. n < num y) (write_in xs e)
all_above-write n [] e a = tt
all_above-write n (y ∷ xs) e a = ground (arith, all_above-write n xs e)

num_written : (y e : Instance) → num (if num y == num e then e else y) ≡ num y
num_written y e = ground arith

write_in-IsAscending :
    (xs : List Instance) (e : Instance) → IsAscending xs → IsAscending (write_in xs e)
write_in-IsAscending [] e a = tt
write_in-IsAscending (y ∷ xs) e a = (
  subst (λ n. All (λ z. n < num z) (write_in xs e)) (sym (num_written y e))
      (all_above-write (num y) xs e a.0),
  write_in-IsAscending xs e a.1,
)

all_above-less :
    (m n : ℕ) (xs : List Instance) → m < n → All (λ y. n < num y) xs → All (λ y. m < num y) xs
all_above-less m n [] h a = tt
all_above-less m n (y ∷ xs) h a = (omega (arith, a.0), all_above-less m n xs h a.1)

all_insert :
    (P : Instance → Type 0) (xs : List Instance) (e : Instance)
    → P e
    → All P xs
    → All P (insert_in xs e)
all_insert P [] e p a = (p, tt)
all_insert P (y ∷ xs) e p a = elim (Bool-cases (ltb (num e) (num y))) [
  | inl h ↦ subst (λ b. All P (if b then e ∷ y ∷ xs else y ∷ insert_in xs e)) (sym h) (p, a)
  | inr h ↦
      subst (λ b. All P (if b then e ∷ y ∷ xs else y ∷ insert_in xs e)) (sym h)
        (a.0, all_insert P xs e p a.1)
]

insert_in-IsAscending :
    (xs : List Instance) (e : Instance)
    → find_in xs (num e) ≡ none
    → IsAscending xs
    → IsAscending (insert_in xs e)
insert_in-IsAscending [] e f a = (tt, tt)
insert_in-IsAscending (y ∷ xs) e f a = elim (Bool-cases (ltb (num e) (num y))) [
  | inl h ↦
      subst (λ b. IsAscending (if b then e ∷ y ∷ xs else y ∷ insert_in xs e)) (sym h)
        ((ground arith, all_above-less (num e) (num y) xs (ground arith) a.0), a)
  | inr h ↦
      subst (λ b. IsAscending (if b then e ∷ y ∷ xs else y ∷ insert_in xs e)) (sym h)
        (
          all_insert (λ z. num y < num z) xs e (ground arith) a.0,
          insert_in-IsAscending xs e (ground arith) a.1,
        )
]

module _ (rc : ℕ) where
  pub write-EntriesAreValid :
      (xs : List Instance) (e : Instance)
      → EntryIsValid rc e
      → EntriesAreValid rc xs
      → EntriesAreValid rc (write_in xs e)
  write-EntriesAreValid xs e v a =
      (write_in-IsAscending xs e a.0, all_write (EntryIsValid rc) xs e v a.1)

  pub insert-EntriesAreValid :
      (o : Option Instance) (xs : List Instance) (e : Instance)
      → find_in xs (num e) ≡ o
      → EntryIsValid rc e
      → EntriesAreValid rc xs
      → EntriesAreValid rc (insert_result o xs e)
  insert-EntriesAreValid none xs e f v a =
      (insert_in-IsAscending xs e f a.0, all_insert (EntryIsValid rc) xs e v a.1)
  insert-EntriesAreValid (some t) xs e f v a = a

  pub cleared-EntriesAreValid :
      (seen : Option Instance) (cs : List Instance)
      → EntriesAreValid rc (before seen cs)
      → EntriesAreValid rc (cleared seen cs)
  cleared-EntriesAreValid seen [] a = a
  cleared-EntriesAreValid none (c ∷ cs) a = ground (arith, cleared-EntriesAreValid (some c) cs a)
  cleared-EntriesAreValid (some e) (c ∷ cs) a =
      ground (arith, cleared-EntriesAreValid (some c) cs (a.0.1, a.1.1))

  pub found-EntryIsValid :
      (xs : List Instance) (n : ℕ) {i : Instance}
      → find_in xs n ≡ some i
      → All (EntryIsValid rc) xs
      → EntryIsValid rc i × (num i ≡ n)
  found-EntryIsValid [] n e a = ground arith
  found-EntryIsValid (y ∷ xs) n {i} e a = elim (Bool-cases (num y == n)) [
    | inl h ↦
        subst (λ j. EntryIsValid rc j × (num j ≡ n)) {x = y} {y = i} (ground arith)
          (a.0, ground arith)
    | inr h ↦ found-EntryIsValid xs n {i = i} (ground arith) a.1
  ]
