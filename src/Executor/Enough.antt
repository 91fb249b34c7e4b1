-- ===== src/Executor/Enough.antt =====
-- The depth of the calls of `visit` in src/execute.c: each call of a path marks one more node.
use epx_c.Base.{
  ℕ, zero, suc, ◌-◌, ◌≤◌, ◌<◌, ◌≡◌, refl, ◌≢◌, inl, inr, true, false, Option, none, some, List, [],
  ◌∷◌, All, length, get_or, set, length-set, ◌++◌, if◌then◌else◌, out_of_fuel, Outcome, ok, fault,
  ◌>>=◌, Bool-cases, arith,
}
use epx_c.Extern.{Externals, Vertices}
use epx_c.Executor.{TarjanNode, Executor, no_node, node, not_visited}
use epx_c.Executor.Visit.{enter, lower, pop_scc, leave, visit_dep, visit_deps, visit}

abbrev pub unvisited : List TarjanNode → ℕ
unvisited [] = 0
unvisited (n ∷ ns) = if not_visited n then suc (unvisited ns) else unvisited ns

-- A pointer is null, or points to one of the first `size` nodes.
abbrev pub Within : ℕ → Option ℕ → Type 0
Within size none = Unit
Within size (some t) = t < size

abbrev pub IsLinked : ℕ → TarjanNode → Type 0
IsLinked size n = All (Within size) n.deps

-- `size` nodes whose pointers are theirs, at most `b` of them not visited
pub record IsGraph (size b : ℕ) (ns : List TarjanNode) : Type 0 where
  pub linked : All (IsLinked size) ns
  pub complete : length ns ≡ size
  pub few : unvisited ns ≤ b

-- No want of fuel; and this of the result.
abbrev pub InFuel : {A : Type 0} → (A → Type 0) → Outcome A → Type 0
InFuel P (ok a) = P a
InFuel P (fault f) = f ≢ out_of_fuel

pub InFuel-bind :
    {A B : Type 0} (P : A → Type 0) (Q : B → Type 0) (m : Outcome A) (f : A → Outcome B)
    → InFuel P m
    → ((a : A) → P a → InFuel Q (f a))
    → InFuel Q (m >>= f)
InFuel-bind P Q (ok a) f p h = h a p
InFuel-bind P Q (fault e) f p h = p

pub All-set :
    (size n : ℕ) (ns : List TarjanNode) (tn : TarjanNode)
    → All (IsLinked size) ns
    → IsLinked size tn
    → All (IsLinked size) (set ns n tn)
All-set size n [] tn a h = tt
All-set size zero (m ∷ ns) tn a h = (h, a.1)
All-set size (suc n) (m ∷ ns) tn a h = (a.0, All-set size n ns tn a.1 h)

pub IsLinked-get_or :
    (size n : ℕ) (ns : List TarjanNode)
    → All (IsLinked size) ns
    → IsLinked size (get_or ns n no_node)
IsLinked-get_or size n [] a = tt
IsLinked-get_or size zero (m ∷ ns) a = a.0
IsLinked-get_or size (suc n) (m ∷ ns) a = IsLinked-get_or size n ns a.1

unvisited-set_same :
    (n : ℕ) (ns : List TarjanNode) (tn : TarjanNode)
    → not_visited tn ≡ not_visited (get_or ns n no_node)
    → unvisited (set ns n tn) ≡ unvisited ns
unvisited-set_same n [] tn h = refl
unvisited-set_same zero (m ∷ ns) tn h = ground arith
unvisited-set_same (suc n) (m ∷ ns) tn h = ground (arith, unvisited-set_same n ns tn h)

unvisited-set_visited :
    (n : ℕ) (ns : List TarjanNode) (tn : TarjanNode)
    → n < length ns
    → not_visited (get_or ns n no_node) ≡ true
    → not_visited tn ≡ false
    → suc (unvisited (set ns n tn)) ≡ unvisited ns
unvisited-set_visited n [] tn l h k = absurd (omega arith)
unvisited-set_visited zero (m ∷ ns) tn l h k = ground arith
unvisited-set_visited (suc n) (m ∷ ns) tn l h k =
    ground (arith, unvisited-set_visited n ns tn (omega arith) h k)

set-IsGraph :
    (size b n : ℕ) (ns : List TarjanNode) (tn : TarjanNode)
    → IsGraph size b ns
    → tn.deps ≡ (get_or ns n no_node).deps
    → not_visited tn ≡ not_visited (get_or ns n no_node)
    → IsGraph size b (set ns n tn)
set-IsGraph size b n ns tn g h k = record {
  linked = All-set size n ns tn g.linked (rw h (IsLinked-get_or size n ns g.linked));
  complete = omega (arith, length-set ns n tn, g.complete);
  few = omega (arith, unvisited-set_same n ns tn k, g.few);
}

module _ {x : Externals} {v : Vertices} (size : ℕ) where
  abbrev pub Graph : ℕ → Executor x v → Type 0
  Graph b e = IsGraph size b e.nodes

  lower-Graph : (b n : ℕ) (l : Option ℕ) (e : Executor x v) → Graph b e → Graph b (lower e n l)
  unfolding lower not_visited
  lower-Graph b n l e g = set-IsGraph size b n e.nodes _ g refl refl

  popped-Graph :
      (b tn : ℕ) (e : Executor x v)
      → Graph b e
      → IsGraph size b (set e.nodes tn (record (node e tn) { on_stack = false }))
  unfolding not_visited
  popped-Graph b tn e g = set-IsGraph size b tn e.nodes _ g refl refl

  pop_scc-Graph :
      (b n : ℕ) (comp stack : List ℕ) (e : Executor x v)
      → Graph b e
      → InFuel (Graph b) (pop_scc n comp stack e)
  unfolding pop_scc
  pop_scc-Graph b n comp [] e g = ground arith
  pop_scc-Graph b n comp (tn ∷ stack) e g = ground (
    arith,
    popped-Graph b tn e g,
    pop_scc-Graph b n (comp ++ (tn ∷ [])) stack
        (record e {
          stack = stack;
          nodes = set e.nodes tn (record (node e tn) { on_stack = false });
        })
        (popped-Graph b tn e g),
  )

  leave-Graph : (b n : ℕ) (e : Executor x v) → Graph b e → InFuel (Graph b) (leave e n)
  unfolding leave
  leave-Graph b n e g = ground (arith, pop_scc-Graph b n [] e.stack e g)

  marks :
      (n : ℕ) (e : Executor x v)
      → n < length e.nodes
      → not_visited (node e n) ≡ true
      → suc (unvisited (enter e n).nodes) ≡ unvisited e.nodes
  unfolding enter not_visited
  marks n e l h = unvisited-set_visited n e.nodes _ l h refl

  enter-Graph :
      (b n : ℕ) (e : Executor x v)
      → Graph b e
      → n < size
      → not_visited (node e n) ≡ true
      → (1 ≤ b) × Graph (b - 1) (enter e n)
  enter-Graph b n e g l h = (
    omega (arith, marks n e (omega (arith, g.complete)) h, g.few),
    record {
      linked =
          unfold enter in
          All-set size n e.nodes _ g.linked (IsLinked-get_or size n e.nodes g.linked);
      complete = unfold enter in omega (arith, length-set e.nodes n _, g.complete);
      few = omega (arith, marks n e (omega (arith, g.complete)) h, g.few);
    },
  )

  weaken : (b c : ℕ) (e : Executor x v) → b ≤ c → Graph b e → Graph c e
  weaken b c e h g = record { linked = g.linked; complete = g.complete; few = omega (arith, g.few) }

  -- what a call of `visit` keeps
  abbrev pub Visits : ℕ → (Executor x v → ℕ → Outcome (Executor x v)) → Type 0
  Visits b again =
      (e : Executor x v) (n : ℕ)
      → Graph b e
      → n < size
      → not_visited (node e n) ≡ true
      → InFuel (Graph b) (again e n)

  module _ (b : ℕ) (again : Executor x v → ℕ → Outcome (Executor x v))
      (keeps : Visits b again) where
    visit_dep-Graph :
        (n tn : ℕ) (e : Executor x v)
        → Graph b e
        → tn < size
        → InFuel (Graph b) (visit_dep again n tn e)
    unfolding visit_dep
    visit_dep-Graph n tn e g l = elim (Bool-cases (not_visited (node e tn))) [
      | inl h ↦ rw h (
          InFuel-bind (Graph b) (Graph b) (again e tn) _ (keeps e tn g l h)
            (λ e1 g1. lower-Graph b n (node e1 tn).low_link e1 g1))
      | inr h ↦ ground (arith, lower-Graph b n (node e tn).index e g)
    ]

    visit_deps-Graph :
        (n : ℕ) (deps : List (Option ℕ)) (e : Executor x v)
        → Graph b e
        → All (Within size) deps
        → InFuel (Graph b) (visit_deps again n deps e)
    unfolding visit_deps
    visit_deps-Graph n [] e g a = g
    visit_deps-Graph n (none ∷ deps) e g a = visit_deps-Graph n deps e g a.1
    visit_deps-Graph n (some tn ∷ deps) e g a =
        InFuel-bind (Graph b) (Graph b) (visit_dep again n tn e) _ (visit_dep-Graph n tn e g a.0)
          (λ e1 g1. visit_deps-Graph n deps e1 g1 a.1)

  pub visit-Visits : (fuel b : ℕ) → b ≤ fuel → Visits b (visit fuel)
  unfolding visit
  visit-Visits zero b h e n g l k = absurd (omega (arith, enter-Graph b n e g l k))
  visit-Visits (suc fuel) b h e n g l k =
      let (some_left, entered) = enter-Graph b n e g l k in
      InFuel-bind (Graph (b - 1)) (Graph b) _ _
        (visit_deps-Graph (b - 1) (visit fuel) (visit-Visits fuel (b - 1) (omega arith)) n
          (node e n).deps (enter e n) entered (IsLinked-get_or size n e.nodes g.linked))
        (λ e1 g1. leave-Graph b n e1 (weaken (b - 1) b e1 (omega arith) g1))
