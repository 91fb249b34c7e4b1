-- ===== src/Executor/Tarjan/Room.antt =====
-- The arrays of the components in src/execute.c have room for the nodes of a map of `MAX_DEPS`.
use epx_c.Base.{
  ℕ, suc, ◌+◌, ◌≤◌, ◌≡◌, refl, ◌≢◌, inl, inr, true, false, none, some, List, [], ◌∷◌, ◌++◌, length,
  Bool-cases, arith, subst, ap, ◌==◌, ==_iff,
}
use epx_c.Extern.{Externals, Vertices}
use epx_c.Executor.{TarjanNode, Executor, node, not_visited}
use epx_c.Executor.Components.{contains}
use epx_c.Executor.Tarjan.{total, unseen_in}
use epx_c.Executor.Tarjan.Member.{contains-nil, contains-cons}

pub total-snoc : (cs : List (List ℕ)) (c : List ℕ) → total (cs ++ (c ∷ [])) ≡ total cs + length c
total-snoc [] c = omega arith
total-snoc (d ∷ cs) c = omega (arith, total-snoc cs c)

not_visited-same : (t u : TarjanNode) → t.index ≡ u.index → not_visited t ≡ not_visited u
unfolding not_visited
not_visited-same t u h = ap (λ o. elim o [ none ↦ true | some k ↦ false ]) h

module _ {x : Externals} {v : Vertices} where
  unseen_in-le : (e : Executor x v) (ms : List ℕ) → unseen_in e ms ≤ length ms
  unseen_in-le e [] = omega arith
  unseen_in-le e (m ∷ ms) = ground (arith, unseen_in-le e ms)

  pub unseen_in-same :
      (e e' : Executor x v) (ms : List ℕ)
      → ((m : ℕ) → (node e' m).index ≡ (node e m).index)
      → unseen_in e' ms ≡ unseen_in e ms
  unseen_in-same e e' [] h = refl
  unseen_in-same e e' (m ∷ ms) h =
      ground (arith, unseen_in-same e e' ms h, not_visited-same (node e' m) (node e m) (h m))

  module _ (n : ℕ) (e e' : Executor x v) where
    seen_here : (k : ℕ) → (node e' n).index ≡ some k → not_visited (node e' n) ≡ false
    unfolding not_visited
    seen_here k h = ground arith

    unseen_here : (node e n).index ≡ none → not_visited (node e n) ≡ true
    unfolding not_visited
    unseen_here h = ground arith

    unseen_in-fewer :
        (ms : List ℕ)
        → ((m : ℕ) → n ≢ m → (node e' m).index ≡ (node e m).index)
        → not_visited (node e n) ≡ true
        → not_visited (node e' n) ≡ false
        → unseen_in e' ms ≤ unseen_in e ms
    unseen_in-fewer [] h u s = omega arith
    unseen_in-fewer (m ∷ ms) h u s = elim (Bool-cases (n == m)) [
      | inl q ↦
          let s' : not_visited (node e' m) ≡ false =
            subst (λ k. not_visited (node e' k) ≡ false) ((==_iff n m).0 q) s in
          ground (arith, unseen_in-fewer ms h u s)
      | inr q ↦
          let same = not_visited-same (node e' m) (node e m) (h m (ground arith)) in
          ground (arith, unseen_in-fewer ms h u s)
    ]

    unseen_in-one_less :
        (ms : List ℕ)
        → ((m : ℕ) → n ≢ m → (node e' m).index ≡ (node e m).index)
        → not_visited (node e n) ≡ true
        → not_visited (node e' n) ≡ false
        → contains ms n ≡ true
        → suc (unseen_in e' ms) ≤ unseen_in e ms
    unseen_in-one_less [] h u s c = absurd (contains-nil n c)
    unseen_in-one_less (m ∷ ms) h u s c = elim (Bool-cases (n == m)) [
      | inl q ↦
          let s' : not_visited (node e' m) ≡ false =
            subst (λ k. not_visited (node e' k) ≡ false) ((==_iff n m).0 q) s in
          let u' : not_visited (node e m) ≡ true =
            subst (λ k. not_visited (node e k) ≡ true) ((==_iff n m).0 q) u in
          ground (arith, unseen_in-fewer ms h u s)
      | inr q ↦ elim (contains-cons m ms n c) [
        | inl r ↦ absurd (ground arith)
        | inr r ↦
            let same = not_visited-same (node e' m) (node e m) (h m (ground arith)) in
            ground (arith, unseen_in-one_less ms h u s r)
      ]
    ]

    pub unseen_in-less :
        {k : ℕ} (ms : List ℕ)
        → ((m : ℕ) → n ≢ m → (node e' m).index ≡ (node e m).index)
        → (node e n).index ≡ none
        → (node e' n).index ≡ some k
        → contains ms n ≡ true
        → suc (unseen_in e' ms) ≤ unseen_in e ms
    unseen_in-less {k} ms h u s c = unseen_in-one_less ms h (unseen_here u) (seen_here k s) c

pub first_room :
    {x : Externals} {v : Vertices} (vals : List ℕ) (e : Executor x v) (cs : List (List ℕ))
    (S : List ℕ)
    → cs ≡ []
    → S ≡ []
    → total cs + length S + unseen_in e vals ≤ length vals
first_room vals e cs S h g = omega (arith, ap total h, ap length g, unseen_in-le e vals)
