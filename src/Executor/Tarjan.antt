-- ===== src/Executor/Tarjan.antt =====
-- Tarjan's algorithm of src/execute.c: what `visit` keeps of the graph, the stack and the
-- components, for the pointers `dp` of the nodes `vals` of the map.
pub mod Member
pub mod Nodes
pub mod Room
pub mod Popped
pub mod Loop
pub mod Calls
pub mod Enter
pub mod Leave
pub mod Connected
pub mod Reset
pub mod Correct
use epx_c.Base.{
  ℕ, suc, ◌+◌, ◌<◌, ◌≤◌, ◌≡◌, ◌≢◌, ◌⊎◌, inl, inr, Bool, true, false, Option, none, some, List, [],
  ◌∷◌, ◌++◌, length, ◌==◌, if◌then◌else◌, Outcome, ok, fault, out_of_bounds, out_of_fuel,
}
use epx_c.Epx.{max_deps}
use epx_c.Extern.{Externals, Vertices}
use epx_c.Executor.{Executor, node, not_visited}
use epx_c.Executor.Components.{contains}

-- one of the pointers is `d`
abbrev pub points : List (Option ℕ) → ℕ → Bool
points [] d = false
points (none ∷ ds) d = points ds d
points (some t ∷ ds) d = if t == d then true else points ds d

-- a node is in one of the components
abbrev pub settled : List (List ℕ) → ℕ → Bool
settled [] m = false
settled (c ∷ cs) m = if contains c m then true else settled cs m

module _ (dp : ℕ → List (Option ℕ)) where
  -- a path along the pointers
  pub data PathTo (t : ℕ) : ℕ → Type 0 where
    here : PathTo t t
    follow : {m d : ℕ} → points (dp m) d ≡ true → PathTo t d → PathTo t m

  -- A component after the components `earlier`: it has a node, none of its nodes is in an earlier
  -- one, their pointers stay in it or lead to an earlier one, and there is a path between any two.
  pub record IsComponent (earlier : List (List ℕ)) (c : List ℕ) : Type 0 where
    pub fresh : (m : ℕ) → contains c m ≡ true → settled earlier m ≡ false
    pub closed :
        (m d : ℕ)
        → contains c m ≡ true
        → points (dp m) d ≡ true
        → (contains c d ≡ true) ⊎ (settled earlier d ≡ true)
    pub strong : (m t : ℕ) → contains c m ≡ true → contains c t ≡ true → PathTo t m

  -- each list a component after those before it
  abbrev pub AreComponents : List (List ℕ) → List (List ℕ) → Type 0
  AreComponents earlier [] = Unit
  AreComponents earlier (c ∷ cs) = IsComponent earlier c × AreComponents (earlier ++ (c ∷ [])) cs

-- the number of nodes in the components
abbrev pub total : List (List ℕ) → ℕ
total [] = 0
total (c ∷ cs) = length c + total cs

-- For a map of `size` nodes: a result, or a write past an array, which is for more than `MAX_DEPS`
-- nodes, or a want of fuel.
abbrev pub Works : ℕ → {A : Type 0} → (A → Type 0) → Outcome A → Type 0
Works size P (ok a) = P a
Works size P (fault f) = ((max_deps < size) × (f ≡ out_of_bounds)) ⊎ (f ≡ out_of_fuel)

module _ {x : Externals} {v : Vertices} where
  -- the number of the nodes `ms` that are not visited
  abbrev pub unseen_in : Executor x v → List ℕ → ℕ
  unseen_in e [] = 0
  unseen_in e (m ∷ ms) = if not_visited (node e m) then suc (unseen_in e ms) else unseen_in e ms

module _ {x : Externals} {v : Vertices} (vals : List ℕ) (dp : ℕ → List (Option ℕ)) where
  -- nodes of the map, on the stack, with falling indices below `bound`
  abbrev pub Falls : Executor x v → ℕ → List ℕ → Type 0
  Falls e bound [] = Unit
  Falls e bound (m ∷ ms) =
      (contains vals m ≡ true)
      × ((node e m).on_stack ≡ true)
      × ((k : ℕ) × ((node e m).index ≡ some k) × (k < bound) × Falls e k ms)

  -- where a node stands: on the stack, in a component, or not visited
  pub data Stage (e : Executor x v) (m : ℕ) : Type 0 where
    stacked : contains e.stack m ≡ true → Stage e m
    placed : settled e.sccs m ≡ true → Stage e m
    white : (node e m).index ≡ none → Stage e m

  pub record Keeps (e : Executor x v) : Type 0 where
    pub allocated : (m : ℕ) → contains vals m ≡ true → m < length e.nodes
    pub deps_are : (m : ℕ) → contains vals m ≡ true → (node e m).deps ≡ dp m
    pub falls : Falls e e.index e.stack
    pub stage : (m : ℕ) → contains vals m ≡ true → Stage e m
    pub done :
        (m : ℕ)
        → settled e.sccs m ≡ true
        → ((node e m).index ≢ none) × ((node e m).on_stack ≡ false)
    pub mapped : (m : ℕ) → settled e.sccs m ≡ true → contains vals m ≡ true
    pub room : total e.sccs + length e.stack + unseen_in e vals ≤ length vals
    pub counted : length e.sccs ≤ total e.sccs
    pub components : AreComponents dp [] e.sccs

  -- in a component, or on the stack at the index `l` or above
  abbrev pub Reaches : Executor x v → ℕ → ℕ → Type 0
  Reaches e l d =
      (settled e.sccs d ≡ true)
      ⊎ ((contains e.stack d ≡ true) × ((k : ℕ) × ((node e d).index ≡ some k) × (l ≤ k)))

  -- from `e` to `e'`; `S` are nodes whose `low_link` stays
  pub record Grows (S : List ℕ) (e e' : Executor x v) : Type 0 where
    pub indexed : (m : ℕ) → (node e m).index ≢ none → (node e' m).index ≡ (node e m).index
    pub kept : (m : ℕ) → settled e.sccs m ≡ true → settled e'.sccs m ≡ true
    pub moved :
        (m : ℕ)
        → contains e.stack m ≡ true
        → (contains e'.stack m ≡ true) ⊎ (settled e'.sccs m ≡ true)
    pub low_same : (m : ℕ) → contains S m ≡ true → (node e' m).low_link ≡ (node e m).low_link

  -- a node of `S` that `n` leads to, with index `l`
  abbrev pub Anchor : Executor x v → List ℕ → ℕ → ℕ → Type 0
  Anchor e S n l = (t : ℕ) × (contains S t ≡ true) × ((node e t).index ≡ some l) × PathTo dp t n

  -- what a call of `visit` at `n` leaves
  pub record Visited (e : Executor x v) (n : ℕ) (e' : Executor x v) : Type 0 where
    pub keeps : Keeps e'
    pub grows : Grows e.stack e e'
    pub seg : List ℕ
    pub stack_is : e'.stack ≡ seg ++ e.stack
    pub l : ℕ
    pub low : (node e' n).low_link ≡ some l
    pub seen : Reaches e' l n
    pub anchor : ((seg ≡ []) × (e.index ≤ l)) ⊎ Anchor e' e.stack n l
    pub closed : (m d : ℕ) → contains seg m ≡ true → points (dp m) d ≡ true → Reaches e' l d
    pub out : (m : ℕ) → contains seg m ≡ true → PathTo dp m n
    pub back : (m : ℕ) → contains seg m ≡ true → PathTo dp n m
