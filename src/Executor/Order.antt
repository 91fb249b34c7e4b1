-- ===== src/Executor/Order.antt =====
-- `sort_scc` of src/execute.c sorts.
use epx_c.Base.{ℕ, suc, ◌+◌, ◌≤◌, ◌≡◌, refl, List, [], ◌∷◌, All, if◌then◌else◌, ◌==◌, arith}
use epx_c.Executor.Components.{sink, sort_loop, turn, sort_scc}

abbrev pub count : ℕ → List ℕ → ℕ
count n [] = 0
count n (m ∷ ms) = if m == n then suc (count n ms) else count n ms

module _ (seq : ℕ → ℕ) where
  -- ascending sequence numbers
  abbrev pub IsOrdered : List ℕ → Type 0
  IsOrdered [] = Unit
  IsOrdered (n ∷ ns) = All (λ m. seq n ≤ seq m) ns × IsOrdered ns

  -- descending ones
  abbrev IsFalling : List ℕ → Type 0
  IsFalling [] = Unit
  IsFalling (n ∷ ns) = All (λ m. seq m ≤ seq n) ns × IsFalling ns

  sink-All :
      (k d : ℕ) (below : List ℕ)
      → seq d ≤ k
      → All (λ m. seq m ≤ k) below
      → All (λ m. seq m ≤ k) (sink seq d below)
  unfolding sink
  sink-All k d [] h a = ground arith
  sink-All k d (n ∷ below) h a = ground (arith, sink-All k d below)

  All-le : (k m : ℕ) (ns : List ℕ) → k ≤ m → All (λ n. seq n ≤ k) ns → All (λ n. seq n ≤ m) ns
  All-le k m [] h a = tt
  All-le k m (n ∷ ns) h a = (omega arith, All-le k m ns h a.1)

  sink-IsFalling : (d : ℕ) (below : List ℕ) → IsFalling below → IsFalling (sink seq d below)
  unfolding sink
  sink-IsFalling d [] f = ground arith
  sink-IsFalling d (n ∷ below) f =
      ground (arith, sink-IsFalling d below, sink-All (seq n) d below, All-le (seq n) (seq d) below)

  count-sink : (k d : ℕ) (below : List ℕ) → count k (sink seq d below) ≡ count k (d ∷ below)
  unfolding sink
  count-sink k d [] = refl
  count-sink k d (n ∷ below) = ground (arith, count-sink k d below)

  sort_loop-IsFalling :
      (below comp : List ℕ) → IsFalling below → IsFalling (sort_loop seq below comp)
  unfolding sort_loop
  sort_loop-IsFalling below [] f = f
  sort_loop-IsFalling below (d ∷ comp) f =
      sort_loop-IsFalling (sink seq d below) comp (sink-IsFalling d below f)

  count-sort_loop :
      (k : ℕ) (below comp : List ℕ)
      → count k (sort_loop seq below comp) ≡ count k below + count k comp
  unfolding sort_loop
  count-sort_loop k below [] = omega arith
  count-sort_loop k below (d ∷ comp) =
      ground (arith, count-sort_loop k (sink seq d below) comp, count-sink k d below)

  abbrev Over : List ℕ → List ℕ → Type 0
  Over xs [] = Unit
  Over xs (y ∷ ys) = All (λ m. seq m ≤ seq y) xs × Over xs ys

  Over-cons :
      (x : ℕ) (xs ys : List ℕ) → All (λ m. seq m ≤ seq x) xs → Over (x ∷ xs) ys → Over xs (x ∷ ys)
  Over-cons x xs ys a o = (a, tails ys o)
    where
      tails : (zs : List ℕ) → Over (x ∷ xs) zs → Over xs zs
      tails [] p = tt
      tails (z ∷ zs) p = ground (arith, tails zs)

  head-Over : (x : ℕ) (xs ys : List ℕ) → Over (x ∷ xs) ys → All (λ m. seq x ≤ seq m) ys
  head-Over x xs [] o = tt
  head-Over x xs (y ∷ ys) o = ground (arith, head-Over x xs ys)

  turn-IsOrdered :
      (xs ys : List ℕ) → IsFalling xs → IsOrdered ys → Over xs ys → IsOrdered (turn xs ys)
  turn-IsOrdered [] ys f s o = s
  turn-IsOrdered (x ∷ xs) ys f s o =
      turn-IsOrdered xs (x ∷ ys) f.1 (head-Over x xs ys o, s) (Over-cons x xs ys f.0 o)

count-turn : (k : ℕ) (xs ys : List ℕ) → count k (turn xs ys) ≡ count k xs + count k ys
count-turn k [] ys = omega arith
count-turn k (x ∷ xs) ys = ground (arith, count-turn k xs (x ∷ ys))

-- `sort_scc` leaves the nodes of a component in ascending order of their sequence numbers, each as
-- often as it stood there.
pub sort_scc_lem :
    (seq : ℕ → ℕ) (comp : List ℕ)
    → IsOrdered seq (sort_scc seq comp) × ((k : ℕ) → count k (sort_scc seq comp) ≡ count k comp)
unfolding sort_scc
sort_scc_lem seq comp = (
  turn-IsOrdered seq (sort_loop seq [] comp) [] (sort_loop-IsFalling seq [] comp tt) tt tt,
  λ k. omega (arith, count-turn k (sort_loop seq [] comp) [], count-sort_loop seq k [] comp),
)
