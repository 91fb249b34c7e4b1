-- ===== src/Index/Walk.antt =====
-- The loop over an index: its invariants, and that it visits the instances of the index in
-- descending order, each once, until the body stops it.
use epx_c.Base.{
  ℕ, zero, suc, ◌≤◌, ◌≡◌, refl, ap, sym, ◌∙◌, ◌+◌, ◌++◌, Option, none, some, List, [], ◌∷◌, head?,
  length, Outcome, ok, fault, Ensures, arith,
}
use mathlib.Core.List.{append-nil}
use mathlib.Core.Path.{fun_ext}
use epx_c.Instance.{Instance}
use epx_c.Extern.{Externals}
use epx_c.Extern.Laws.{LlrbLaws, IsAscending, rev_append}
use epx_c.Index.{Round, go, stop, walk_down}

-- What holds of what a round leaves.
abbrev pub RoundEnsures {κ} : {W : Type 0} → (W → Type κ) → Round W → Type κ
RoundEnsures P (go w) = P w
RoundEnsures P (stop w) = P w

-- The body over a list of instances.
abbrev pub scan : {W : Type 0} → (Instance → W → Outcome (Round W)) → List Instance → W → Outcome W
scan body [] w = ok w
scan body (e ∷ es) w = elim (body e w) [
  | fault f ↦ fault f
  | ok (stop w') ↦ ok w'
  | ok (go w') ↦ scan body es w'
]

-- what the loop does with a round
abbrev pub after_round : {W : Type 0} → (W → Outcome W) → Outcome (Round W) → Outcome W
after_round rest (fault f) = fault f
after_round rest (ok (stop w)) = ok w
after_round rest (ok (go w)) = rest w

after_round_inv {κ} :
    {W : Type 0} (P : W → Type κ) (rest : W → Outcome W) (o : Outcome (Round W))
    → ((w : W) → P w → Ensures P (rest w))
    → Ensures (RoundEnsures P) o
    → Ensures P (after_round rest o)
after_round_inv P rest (fault f) h q = tt
after_round_inv P rest (ok (stop w)) h q = q
after_round_inv P rest (ok (go w)) h q = h w q

module _ (x : Externals) {W : Type 0} (body : Instance → W → Outcome (Round W)) (t : x.Tree) where
  -- What every round keeps, the loop keeps.
  pub walk_down_inv {κ} :
      (P : W → Type κ)
      → ((e : Instance) (w : W) → P w → Ensures (RoundEnsures P) (body e w))
      → (fuel : ℕ) (from : Option Instance) (w : W) → P w
      → Ensures P (walk_down x body t fuel from w)
  unfolding walk_down
  walk_down_inv P keep fuel none w p = p
  walk_down_inv P keep zero (some e) w p = tt
  walk_down_inv P keep (suc fuel) (some e) w p =
      after_round_inv P (walk_down x body t fuel (x.prev t e)) (body e w)
        (walk_down_inv P keep fuel (x.prev t e)) (keep e w p)

  -- From an instance of the index down, `rev` being those below it, with enough fuel.
  pub walk_down-scan :
      (laws : LlrbLaws x.llrb) (fuel : ℕ) (rev post : List Instance) (w : W)
      → IsAscending (laws.to_list t)
      → laws.to_list t ≡ rev_append rev post
      → length rev ≤ fuel
      → walk_down x body t fuel (head? rev) w ≡ scan body rev w
  unfolding walk_down
  walk_down-scan laws fuel [] post w s e h = refl
  walk_down-scan laws zero (i ∷ rev) post w s e h = absurd (omega arith)
  walk_down-scan laws (suc fuel) (i ∷ rev) post w s e h =
      ap (λ rest. after_round rest (body i w))
        (fun_ext (λ w'.
          rw (laws.prev_lem t rev i post s e)
            (walk_down-scan laws fuel rev (i ∷ post) w' s e (omega arith))))

pub rev_append-rev_append {ℓ} :
    {A : Type ℓ} (xs ys zs : List A) → rev_append (rev_append xs ys) zs ≡ rev_append ys (xs ++ zs)
rev_append-rev_append [] ys zs = refl
rev_append-rev_append (x ∷ xs) ys zs = rev_append-rev_append xs (x ∷ ys) zs

length-rev_append {ℓ} :
    {A : Type ℓ} (xs ys : List A) → length (rev_append xs ys) ≡ length xs + length ys
length-rev_append [] ys = omega arith
length-rev_append (x ∷ xs) ys = omega (arith, length-rev_append xs (x ∷ ys))

-- The loop from the last instance down is the body over all instances in descending order; the size
-- of the index is fuel enough.
pub walk_down-last :
    (x : Externals) (laws : LlrbLaws x.llrb) (W : Type 0) (body : Instance → W → Outcome (Round W))
    (t : x.Tree) (w : W)
    → IsAscending (laws.to_list t)
    → walk_down x body t (x.size t) (x.last t) w ≡ scan body (rev_append (laws.to_list t) []) w
walk_down-last x laws W body t w s =
    rw (laws.last_lem t descending back, laws.size_lem t)
      (walk_down-scan x body t laws (length (laws.to_list t)) descending [] w s back enough)
  where
    descending : List Instance
    descending = rev_append (laws.to_list t) []

    back : laws.to_list t ≡ rev_append descending []
    back = sym (rev_append-rev_append (laws.to_list t) [] [] ∙ append-nil (laws.to_list t))

    enough : length descending ≤ length (laws.to_list t)
    enough = omega (arith, length-rev_append (laws.to_list t) [])
