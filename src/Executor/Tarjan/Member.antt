-- ===== src/Executor/Tarjan/Member.antt =====
-- Membership in the stack and the components of src/execute.c, paths, and steps that work.
use epx_c.Base.{
  ℕ, ◌<◌, ◌≡◌, refl, ◌⊎◌, inl, inr, Bool, true, false, ◌||◌, List, [], ◌∷◌, ◌++◌, if◌then◌else◌,
  Outcome, ok, fault, ◌>>=◌, out_of_bounds, Bool-cases, arith, sym, subst, Option, append_assoc,
  append-nil,
}
use epx_c.Epx.{max_deps}
use epx_c.Executor.Components.{contains}
use epx_c.Executor.Tarjan.{settled, PathTo, here, follow, IsComponent, AreComponents, Works}

pub contains-append :
    (xs ys : List ℕ) (m : ℕ) → contains (xs ++ ys) m ≡ (contains xs m || contains ys m)
unfolding contains
contains-append [] ys m = refl
contains-append (x ∷ xs) ys m = ground (arith, contains-append xs ys m)

pub contains-cons :
    (n : ℕ) (xs : List ℕ) (m : ℕ) → contains (n ∷ xs) m ≡ true → (n ≡ m) ⊎ (contains xs m ≡ true)
unfolding contains
contains-cons n xs m h = ground arith

pub contains-here : (n : ℕ) (xs : List ℕ) → contains (n ∷ xs) n ≡ true
unfolding contains
contains-here n xs = ground arith

pub contains-there :
    (n : ℕ) (xs : List ℕ) (m : ℕ) → contains xs m ≡ true → contains (n ∷ xs) m ≡ true
unfolding contains
contains-there n xs m h = ground arith

pub contains-nil : (m : ℕ) → contains [] m ≡ true → ⊥
unfolding contains
contains-nil m h = ground arith

-- in `seg`, or `n`, or in `S`
pub contains-middle :
    (seg : List ℕ) (n : ℕ) (S : List ℕ) (m : ℕ)
    → contains (seg ++ (n ∷ S)) m ≡ true
    → (contains seg m ≡ true) ⊎ ((n ≡ m) ⊎ (contains S m ≡ true))
contains-middle seg n S m h = elim (Bool-cases (contains seg m)) [
  | inl g ↦ inl g
  | inr g ↦ inr (contains-cons n S m (ground (arith, contains-append seg (n ∷ S) m)))
]

pub contains-either :
    (xs ys : List ℕ) (m : ℕ)
    → contains (xs ++ ys) m ≡ true
    → (contains xs m ≡ true) ⊎ (contains ys m ≡ true)
contains-either xs ys m h = elim (Bool-cases (contains xs m)) [
  | inl g ↦ inl g
  | inr g ↦ inr (ground (arith, contains-append xs ys m))
]

pub contains-left : (xs ys : List ℕ) (m : ℕ) → contains xs m ≡ true → contains (xs ++ ys) m ≡ true
contains-left xs ys m h = ground (arith, contains-append xs ys m)

pub contains-right : (xs ys : List ℕ) (m : ℕ) → contains ys m ≡ true → contains (xs ++ ys) m ≡ true
contains-right xs ys m h = elim (Bool-cases (contains xs m)) [
  | inl g ↦ contains-left xs ys m g
  | inr g ↦ ground (arith, contains-append xs ys m)
]

pub settled-snoc :
    (cs : List (List ℕ)) (c : List ℕ) (m : ℕ)
    → settled (cs ++ (c ∷ [])) m ≡ (settled cs m || contains c m)
settled-snoc [] c m = elim (Bool-cases (contains c m)) [ inl h ↦ rw h refl | inr h ↦ rw h refl ]
settled-snoc (d ∷ cs) c m = ground (arith, settled-snoc cs c m)

pub settled-old :
    (cs : List (List ℕ)) (c : List ℕ) (m : ℕ)
    → settled cs m ≡ true
    → settled (cs ++ (c ∷ [])) m ≡ true
settled-old cs c m h = ground (arith, settled-snoc cs c m)

pub settled-new :
    (cs : List (List ℕ)) (c : List ℕ) (m : ℕ)
    → contains c m ≡ true
    → settled (cs ++ (c ∷ [])) m ≡ true
settled-new cs c m h = elim (Bool-cases (settled cs m)) [
  | inl g ↦ settled-old cs c m g
  | inr g ↦ ground (arith, settled-snoc cs c m)
]

pub settled-split :
    (cs : List (List ℕ)) (c : List ℕ) (m : ℕ)
    → settled (cs ++ (c ∷ [])) m ≡ true
    → (settled cs m ≡ true) ⊎ (contains c m ≡ true)
settled-split cs c m h = elim (Bool-cases (settled cs m)) [
  | inl g ↦ inl g
  | inr g ↦ inr (ground (arith, settled-snoc cs c m))
]

module _ (dp : ℕ → List (Option ℕ)) where
  pub PathTo-trans : {c b a : ℕ} → PathTo dp b a → PathTo dp c b → PathTo dp c a
  PathTo-trans here q = q
  PathTo-trans (follow h p) q = follow h (PathTo-trans p q)

  pub AreComponents-snoc :
      (earlier cs : List (List ℕ)) (c : List ℕ)
      → AreComponents dp earlier cs
      → IsComponent dp (earlier ++ cs) c
      → AreComponents dp earlier (cs ++ (c ∷ []))
  AreComponents-snoc earlier [] c a h = (subst (λ k. IsComponent dp k c) (append-nil earlier) h, tt)
  AreComponents-snoc earlier (d ∷ cs) c a h = (
    a.0,
    AreComponents-snoc (earlier ++ (d ∷ [])) cs c a.1
        (subst (λ k. IsComponent dp k c) (sym (append_assoc earlier (d ∷ []) cs)) h),
  )

pub Works-bind :
    (size : ℕ) {A B : Type 0} (P : A → Type 0) (Q : B → Type 0) (m : Outcome A) (f : A → Outcome B)
    → Works size P m
    → ((a : A) → P a → Works size Q (f a))
    → Works size Q (m >>= f)
Works-bind size P Q (ok a) f p h = h a p
Works-bind size P Q (fault e) f p h = p

pub Works-map :
    (size : ℕ) {A : Type 0} (P Q : A → Type 0) (m : Outcome A)
    → ((a : A) → P a → Q a)
    → Works size P m
    → Works size Q m
Works-map size P Q (ok a) h p = h a p
Works-map size P Q (fault e) h p = p

-- a test of the bounds, then one of the end
pub Works-last :
    (size : ℕ) {A : Type 0} (P : A → Type 0) (bad last : Bool) (m rest : Outcome A)
    → (bad ≡ true → max_deps < size)
    → last ≡ true
    → Works size P m
    → Works size P (if bad then fault out_of_bounds else if last then m else rest)
Works-last size P true last m rest b h p = inl (b refl, refl)
Works-last size P false true m rest b h p = p
Works-last size P false false m rest b h p = absurd (ground arith)

pub Works-next :
    (size : ℕ) {A : Type 0} (P : A → Type 0) (bad last : Bool) (m rest : Outcome A)
    → (bad ≡ true → max_deps < size)
    → last ≡ false
    → Works size P rest
    → Works size P (if bad then fault out_of_bounds else if last then m else rest)
Works-next size P true last m rest b h p = inl (b refl, refl)
Works-next size P false false m rest b h p = p
Works-next size P false true m rest b h p = absurd (ground arith)
