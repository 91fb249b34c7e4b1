-- ===== src/Command.antt =====
-- src/command.h and src/command.c: commands over key ranges, and when two of them interfere.
-- A `char[KEY_SIZE]` key is the list of its bytes before the terminating zero.
pub mod Order
pub mod Ranges
pub mod Codec
pub mod RoundTrip
use Prim.Native.Nat.{compare, Ordering}
use epx_c.Base.{
  ℕ, zero, suc, ◌+◌, Bool, true, false, ◌&&◌, ◌||◌, List, [], ◌∷◌, ◌++◌, get_or, if◌then◌else◌,
}

-- `enum io_t`
pub data Io : Type 0 where
  read write : Io

abbrev pub Key : Type 0
Key = List ℕ

-- `entry`, `max` and `next` are the tree's own fields.
pub record Span : Type 0 where
  pub start_key : Key
  pub end_key : Key

-- `value` is written nowhere.
pub record Command : Type 0 where
  pub spans : List Span
  pub tx_size : ℕ
  pub id : ℕ
  pub writing : Io

abbrev pub is_write : Io → Bool
is_write read = false
is_write write = true

-- a span of zeroed memory
abbrev pub zero_span : Span
zero_span = record { start_key = []; end_key = [] }

-- the C library's `strcmp`
unfoldable pub strcmp : Key → Key → Ordering
strcmp [] [] = Ordering.eq
strcmp [] (y ∷ ys) = Ordering.lt
strcmp (x ∷ xs) [] = Ordering.gt
strcmp (x ∷ xs) (y ∷ ys) =
    let rest = strcmp xs ys in
    elim (compare x y) [
      | Ordering.lt ↦ Ordering.lt
      | Ordering.eq ↦ rest
      | Ordering.gt ↦ Ordering.gt
    ]

-- `r <= 0` and `r >= 0` of a result `r` of `strcmp`
abbrev pub le_zero : Ordering → Bool
le_zero Ordering.lt = true
le_zero Ordering.eq = true
le_zero Ordering.gt = false

abbrev pub ge_zero : Ordering → Bool
ge_zero Ordering.lt = false
ge_zero Ordering.eq = true
ge_zero Ordering.gt = true

unfoldable pub overlaps : Span → Span → Bool
overlaps s1 s2 =
    le_zero (strcmp s1.start_key s2.end_key) && ge_zero (strcmp s1.end_key s2.start_key)

unfoldable pub empty_range : Span → Bool
empty_range s = elim s.start_key [ [] ↦ true | x ∷ xs ↦ false ]

unfoldable pub encloses : Span → Span → Bool
encloses s1 s2 =
    le_zero (strcmp s1.start_key s2.start_key) && ge_zero (strcmp s1.end_key s2.end_key)

-- the inner loop of `overlap_sparse`, over the spans `j, …, j + n - 1` of `c2`
unfoldable pub overlap_row : ℕ → ℕ → Span → Command → List Span
unfolding overlaps
overlap_row zero j s c2 = []
overlap_row (suc n) j s c2 =
    let rest = overlap_row n (j + 1) s c2 in
    if overlaps s (get_or c2.spans j zero_span) then s ∷ rest else rest

-- the outer loop, over the spans `i, …, i + n - 1` of `c1`
unfoldable pub overlap_rows : ℕ → ℕ → Command → Command → List Span
unfolding overlap_row
overlap_rows zero i c1 c2 = []
overlap_rows (suc n) i c1 c2 =
    overlap_row c2.tx_size 0 (get_or c1.spans i zero_span) c2 ++ overlap_rows n (i + 1) c1 c2

-- The spans that `overlap_sparse` writes to `c[0]`, `c[1]`, …; it returns whether there is any.
-- The function does not compare their number with the size of the caller's array.
unfoldable pub overlap_sparse : Command → Command → List Span
unfolding overlap_rows
overlap_sparse c1 c2 = overlap_rows c1.tx_size 0 c1 c2

abbrev pub is_cons {ℓ} : {A : Type ℓ} → List A → Bool
is_cons [] = false
is_cons (x ∷ xs) = true

-- the result, and what is written to a zeroed `c`
unfoldable pub interferes : Command → Command → Bool × List Span
unfolding overlap_sparse
interferes c1 c2 =
    if is_write c1.writing || is_write c2.writing
    then (is_cons (overlap_sparse c1 c2), overlap_sparse c1 c2)
    else (false, [])
