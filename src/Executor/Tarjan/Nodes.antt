-- ===== src/Executor/Tarjan/Nodes.antt =====
-- A write to a node of src/execute.c: `lower`, and what stands on the stack.
use epx_c.Base.{
  ℕ, zero, suc, ◌<◌, ◌≤◌, ◌≡◌, refl, ◌≢◌, inl, inr, true, false, Option, none, some, List, [], ◌∷◌,
  ◌++◌, length, length-set, get_or, set, get_or-set_self, get_or-set_ne, Bool-cases, ltb,
  if◌then◌else◌, arith, sym, subst, ◌∙◌, ap,
}
use epx_c.Extern.{Externals, Vertices}
use epx_c.Executor.{TarjanNode, Executor, no_node, node, min_index}
use epx_c.Executor.Components.{contains}
use epx_c.Executor.Visit.{lower}
use epx_c.Executor.Tarjan.{Falls, stacked, placed, white, Keeps, Reaches, Grows}
use epx_c.Executor.Tarjan.Room.{unseen_in-same}
use epx_c.Executor.Tarjan.Member.{
  contains-cons, contains-here, contains-there, contains-nil, contains-middle,
}

-- a field that the written node shares with the old one
pub field-set {ℓ} :
    {A : Type ℓ} (f : TarjanNode → A) (ns : List TarjanNode) (n : ℕ) (tn : TarjanNode) (m : ℕ)
    → f tn ≡ f (get_or ns n no_node)
    → f (get_or (set ns n tn) m no_node) ≡ f (get_or ns m no_node)
field-set f [] n tn m h = refl
field-set f (t ∷ ns) zero tn zero h = h
field-set f (t ∷ ns) zero tn (suc m) h = refl
field-set f (t ∷ ns) (suc n) tn zero h = refl
field-set f (t ∷ ns) (suc n) tn (suc m) h = field-set f ns n tn m h

pub indexed-ne : {o : Option ℕ} {k : ℕ} → o ≡ some k → o ≢ none
indexed-ne h p = absurd (ground arith)

pub apart : (S : List ℕ) (n m : ℕ) → contains S n ≡ false → contains S m ≡ true → n ≢ m
apart S n m h p q = absurd (ground (arith, subst (λ k. contains S k ≡ false) q h))

module _ {x : Externals} {v : Vertices} (vals : List ℕ) (dp : ℕ → List (Option ℕ)) where
  pub Falls-same :
      (e e' : Executor x v) (bound : ℕ) (xs : List ℕ)
      → ((m : ℕ) → contains xs m ≡ true → (node e' m).index ≡ (node e m).index)
      → ((m : ℕ) → contains xs m ≡ true → (node e' m).on_stack ≡ (node e m).on_stack)
      → Falls vals dp e bound xs
      → Falls vals dp e' bound xs
  Falls-same e e' bound [] i o f = tt
  Falls-same e e' bound (n ∷ xs) i o (l, s, (k, h, b, rest)) = (
    l,
    o n (contains-here n xs) ∙ s,
    (
      k,
      i n (contains-here n xs) ∙ h,
      b,
      Falls-same e e' k xs (λ m c. i m (contains-there n xs m c))
          (λ m c. o m (contains-there n xs m c)) rest,
    ),
  )

  pub Falls-higher :
      (e : Executor x v) (b c : ℕ) (xs : List ℕ)
      → b ≤ c
      → Falls vals dp e b xs
      → Falls vals dp e c xs
  Falls-higher e b c [] h f = tt
  Falls-higher e b c (n ∷ xs) h (l, s, (k, i, j, rest)) = (l, s, (k, i, omega arith, rest))

  pub Falls-member :
      (e : Executor x v) (b : ℕ) (xs : List ℕ) (m : ℕ)
      → Falls vals dp e b xs
      → contains xs m ≡ true
      → (contains vals m ≡ true)
        × ((node e m).on_stack ≡ true)
        × ((k : ℕ) × ((node e m).index ≡ some k) × (k < b))
  Falls-member e b [] m f c = absurd (contains-nil m c)
  Falls-member e b (n ∷ xs) m (l, s, (k, i, j, rest)) c = elim (contains-cons n xs m c) [
    | inl h ↦ rw (← h) (l, s, (k, i, j))
    | inr h ↦
        let (l', s', (k', i', j')) = Falls-member e k xs m rest h in (l', s', (k', i', omega arith))
  ]

  -- the part of the stack from `n` on
  pub Falls-drop :
      (e : Executor x v) (b : ℕ) (seg : List ℕ) (n : ℕ) (S : List ℕ)
      → Falls vals dp e b (seg ++ (n ∷ S))
      → Falls vals dp e b (n ∷ S)
  Falls-drop e b [] n S f = f
  Falls-drop e b (m ∷ seg) n S (l, s, (k, i, j, rest)) =
      Falls-higher e k b (n ∷ S) (omega arith) (Falls-drop e k seg n S rest)

  -- what stands above `n` has a higher index
  pub Falls-above :
      (e : Executor x v) (b : ℕ) (seg : List ℕ) (n : ℕ) (S : List ℕ) (m k0 : ℕ)
      → Falls vals dp e b (seg ++ (n ∷ S))
      → (node e n).index ≡ some k0
      → contains seg m ≡ true
      → (k : ℕ) × ((node e m).index ≡ some k) × (k0 < k)
  Falls-above e b [] n S m k0 f h c = absurd (contains-nil m c)
  Falls-above e b (t ∷ seg) n S m k0 (l, s, (k, i, j, rest)) h c = elim (contains-cons t seg m c) [
    | inl g ↦
        let (l1, s1, (k1, i1, j1, r1)) = Falls-drop e k seg n S rest in
        (k, rw (← g) i, some_lt k1 (sym i1 ∙ h) j1)
    | inr g ↦ Falls-above e k seg n S m k0 rest h g
  ]
    where
      some_lt : (k1 : ℕ) → some k1 ≡ some k0 → k1 < k → k0 < k
      some_lt k1 p q = ground arith

  pub lower-Keeps :
      (e : Executor x v) (n : ℕ) (l : Option ℕ) → Keeps vals dp e → Keeps vals dp (lower e n l)
  unfolding lower
  lower-Keeps e n l k = record {
    allocated = λ m h. omega (arith, k.allocated m h, length-set e.nodes n _);
    deps_are = λ m h. field-set (λ t. t.deps) e.nodes n _ m refl ∙ k.deps_are m h;
    falls =
        Falls-same e (lower e n l) e.index e.stack
          (λ m c. field-set (λ t. t.index) e.nodes n _ m refl)
          (λ m c. field-set (λ t. t.on_stack) e.nodes n _ m refl) k.falls;
    stage = λ m h. elim (k.stage m h) [
      | stacked c ↦ stacked c
      | placed c ↦ placed c
      | white c ↦ white (field-set (λ t. t.index) e.nodes n _ m refl ∙ c)
    ];
    done = λ m h. (
      λ p. (k.done m h).0 (sym (field-set (λ t. t.index) e.nodes n _ m refl) ∙ p),
      field-set (λ t. t.on_stack) e.nodes n _ m refl ∙ (k.done m h).1,
    );
    mapped = k.mapped;
    room = omega (
      arith,
      k.room,
      unseen_in-same e (lower e n l) vals (λ m. field-set (λ t. t.index) e.nodes n _ m refl),
    );
    counted = k.counted;
    components = k.components;
  }

  pub index-lower :
      (e : Executor x v) (n m : ℕ) (l : Option ℕ) → (node (lower e n l) m).index ≡ (node e m).index
  unfolding lower
  index-lower e n m l = field-set (λ t. t.index) e.nodes n _ m refl

  -- and what stands there with a lower one stands below `n`
  pub Falls-below :
      (e : Executor x v) (b : ℕ) (seg : List ℕ) (n : ℕ) (S : List ℕ) (t k0 j : ℕ)
      → Falls vals dp e b (seg ++ (n ∷ S))
      → (node e n).index ≡ some k0
      → contains (seg ++ (n ∷ S)) t ≡ true
      → (node e t).index ≡ some j
      → j < k0
      → contains S t ≡ true
  Falls-below e b seg n S t k0 j f h c i l = elim (contains-middle seg n S t c) [
    | inl g ↦ let (k, i', l') = Falls-above e b seg n S t k0 f h g in absurd (ground arith)
    | inr g ↦ elim g [
      | inl p ↦ absurd (ground (arith, subst (λ k. (node e k).index ≡ some k0) p h))
      | inr p ↦ p
    ]
  ]

  pub Reaches-less :
      (e : Executor x v) (l c d : ℕ) → c ≤ l → Reaches vals dp e l d → Reaches vals dp e c d
  Reaches-less e l c d h (inl r) = inl r
  Reaches-less e l c d h (inr (r, (k, i, j))) = inr (r, (k, i, omega arith))

  pub Reaches-Grows :
      (S : List ℕ) (e e' : Executor x v) (l d : ℕ)
      → Grows vals dp S e e'
      → Reaches vals dp e l d
      → Reaches vals dp e' l d
  Reaches-Grows S e e' l d g (inl r) = inl (g.kept d r)
  Reaches-Grows S e e' l d g (inr (r, (k, i, j))) = elim (g.moved d r) [
    | inl q ↦ inr (q, (k, g.indexed d (indexed-ne i) ∙ i, j))
    | inr q ↦ inl q
  ]

  pub Grows-trans :
      (S : List ℕ) (e e1 e2 : Executor x v)
      → Grows vals dp S e e1
      → Grows vals dp S e1 e2
      → Grows vals dp S e e2
  Grows-trans S e e1 e2 g h = record {
    indexed = λ m p. h.indexed m (λ q. p (sym (g.indexed m p) ∙ q)) ∙ g.indexed m p;
    kept = λ m p. h.kept m (g.kept m p);
    moved = λ m p. elim (g.moved m p) [ inl q ↦ h.moved m q | inr q ↦ inr (h.kept m q) ];
    low_same = λ m p. h.low_same m p ∙ g.low_same m p;
  }

  -- `n` is not one of `S`
  pub lower-Grows :
      (S : List ℕ) (e : Executor x v) (n : ℕ) (l : Option ℕ)
      → contains S n ≡ false
      → Grows vals dp S e (lower e n l)
  unfolding lower
  lower-Grows S e n l h = record {
    indexed = λ m p. field-set (λ t. t.index) e.nodes n _ m refl;
    kept = λ m p. p;
    moved = λ m p. inl p;
    low_same = λ m p. ap (λ t. t.low_link) (get_or-set_ne e.nodes _ no_node (apart S n m h p));
  }

  pub Grows-refl : (S : List ℕ) (e : Executor x v) → Grows vals dp S e e
  Grows-refl S e = record {
    indexed = λ m p. refl;
    kept = λ m p. p;
    moved = λ m p. inl p;
    low_same = λ m p. refl;
  }

  pub low-lower :
      (e : Executor x v) (n l l1 : ℕ)
      → n < length e.nodes
      → (node e n).low_link ≡ some l
      → (node (lower e n (some l1)) n).low_link ≡ some (if ltb l l1 then l else l1)
  unfolding lower min_index
  low-lower e n l l1 h p =
      ap (λ t. t.low_link) (get_or-set_self e.nodes n _ no_node h)
      ∙ ap (λ o. min_index o (some l1)) p
      ∙ elim (Bool-cases (ltb l l1)) [ inl q ↦ rw q refl | inr q ↦ rw q refl ]

  -- a node stands once on the stack
  pub Falls-once :
      (e : Executor x v) (b : ℕ) (n : ℕ) (S : List ℕ)
      → Falls vals dp e b (n ∷ S)
      → contains S n ≡ false
  Falls-once e b n S (l, s, (k, i, j, rest)) = elim (Bool-cases (contains S n)) [
    | inl c ↦ let (l', s', (k', i', j')) = Falls-member e k S n rest c in absurd (ground arith)
    | inr c ↦ c
  ]
