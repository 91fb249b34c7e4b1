-- ===== src/Executor/Rounds.antt =====
-- The rounds of `run_execute` in src/execute.c: the state that they keep, and the documented behaviour
-- of klib's hash map.
pub mod Finish
pub mod Running
pub mod Added
pub mod Kept
use epx_c.Base.{
  ℕ, ◌<◌, ◌≡◌, refl, ◌⊎◌, inl, inr, true, false, Option, none, some, List, [], ◌∷◌, All, length,
  Outcome, ok, fault, out_of_bounds, ◌>>=◌,
}
use epx_c.Instance.{Instance}
use epx_c.Extern.{Externals, Vertices}
use epx_c.Extern.Laws.{LlrbLaws}
use epx_c.Epaxos.Indexes.{IndexesAreValid}
use epx_c.Executor.{Executor, instance_of}
use epx_c.Executor.Components.{contains}

-- An empty map has no entry, an iteration meets every entry, a put adds one value at most, and a deletion adds none.
pub record VertexLaws (v : Vertices) : Type 0 where
  pub values_none : v.vertex_values v.no_vertices ≡ []
  pub listed :
      (m : v.VertexMap) (k n : ℕ)
      → v.vertex_get m k ≡ some n
      → contains (v.vertex_values m) n ≡ true
  pub values_put :
      (m : v.VertexMap) (k n j : ℕ)
      → contains (v.vertex_values (v.vertex_put m k n)) j ≡ true
      → (n ≡ j) ⊎ (contains (v.vertex_values m) j ≡ true)
  pub values_del :
      (m : v.VertexMap) (k j : ℕ)
      → contains (v.vertex_values (v.vertex_del m k)) j ≡ true
      → contains (v.vertex_values m) j ≡ true

-- a result of which this holds, or an index out of bounds
abbrev pub Safe : {A : Type 0} → (A → Type 0) → Outcome A → Type 0
Safe P (ok a) = P a
Safe P (fault f) = f ≡ out_of_bounds

pub Safe-bind :
    {A B : Type 0} (P : A → Type 0) (Q : B → Type 0) (m : Outcome A) (f : A → Outcome B)
    → Safe P m
    → ((a : A) → P a → Safe Q (f a))
    → Safe Q (m >>= f)
Safe-bind P Q (ok a) f p h = h a p
Safe-bind P Q (fault e) f p h = p

pub Safe-map :
    {A : Type 0} (P Q : A → Type 0) (m : Outcome A) → ((a : A) → P a → Q a) → Safe P m → Safe Q m
Safe-map P Q (ok a) h p = h a p
Safe-map P Q (fault e) h p = p

module _ (x : Externals) (v : Vertices) (l : LlrbLaws x.llrb) where
  -- the instances of the nodes `vals` are in the replica, whose indexes are in order
  pub record IsStored (vals : List ℕ) (e : Executor x v) : Type 0 where
    pub found : (m : ℕ) → contains vals m ≡ true → (i : Instance) × (instance_of e m ≡ ok i)
    pub valid : IndexesAreValid x l e.r.index
