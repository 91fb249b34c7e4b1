-- ===== src/Extern/Laws.antt =====
-- The documented behaviour of an `instance_index`: its elements in the order of their numbers.
use epx_c.Base.{
  ℕ, ◌<◌, ◌≡◌, Option, none, some, List, [], ◌∷◌, head?, length, All, if◌then◌else◌, ◌==◌, ltb,
}
use epx_c.Instance.{Instance}
use epx_c.Extern.{Llrb}

abbrev pub num : Instance → ℕ
num i = i.key.instance_id

-- ascending numbers
abbrev pub IsAscending : List Instance → Type 0
IsAscending [] = Unit
IsAscending (x ∷ xs) = All (λ y. num x < num y) xs × IsAscending xs

abbrev pub find_in : List Instance → ℕ → Option Instance
find_in [] k = none
find_in (x ∷ xs) k = if num x == k then some x else find_in xs k

abbrev pub insert_in : List Instance → Instance → List Instance
insert_in [] e = e ∷ []
insert_in (x ∷ xs) e = if ltb (num e) (num x) then e ∷ x ∷ xs else x ∷ insert_in xs e

abbrev pub write_in : List Instance → Instance → List Instance
write_in [] e = []
write_in (x ∷ xs) e = (if num x == num e then e else x) ∷ write_in xs e

-- `xs` reversed, then `ys`
abbrev pub rev_append {ℓ} : {A : Type ℓ} → List A → List A → List A
rev_append [] ys = ys
rev_append (x ∷ xs) ys = rev_append xs (x ∷ ys)

abbrev pub insert_result : Option Instance → List Instance → Instance → List Instance
insert_result none xs e = insert_in xs e
insert_result (some x) xs e = xs

pub record LlrbLaws (l : Llrb) : Type 0 where
  pub to_list : l.Tree → List Instance
  pub to_list-empty : to_list l.empty ≡ []
  pub size_lem : (t : l.Tree) → l.size t ≡ length (to_list t)
  pub find_lem : (t : l.Tree) (k : ℕ) → IsAscending (to_list t) → l.find t k ≡ find_in (to_list t) k
  pub insert_rejects :
      (t : l.Tree) (e : Instance)
      → IsAscending (to_list t)
      → (l.insert t e).0 ≡ find_in (to_list t) (num e)
  pub to_list-insert :
      (t : l.Tree) (e : Instance)
      → IsAscending (to_list t)
      → to_list (l.insert t e).1 ≡ insert_result (find_in (to_list t) (num e)) (to_list t) e
  pub to_list-write : (t : l.Tree) (e : Instance) → to_list (l.write t e) ≡ write_in (to_list t) e
  pub to_list-delete :
      (t : l.Tree) (rev : List Instance) (e : Instance) (post : List Instance)
      → IsAscending (to_list t)
      → to_list t ≡ rev_append (e ∷ rev) post
      → to_list (l.delete t e) ≡ rev_append rev post
  pub first_lem : (t : l.Tree) → l.first t ≡ head? (to_list t)
  pub last_lem :
      (t : l.Tree) (rev : List Instance) → to_list t ≡ rev_append rev [] → l.last t ≡ head? rev
  pub next_lem :
      (t : l.Tree) (rev : List Instance) (e : Instance) (post : List Instance)
      → IsAscending (to_list t)
      → to_list t ≡ rev_append (e ∷ rev) post
      → l.next t e ≡ head? post
  pub prev_lem :
      (t : l.Tree) (rev : List Instance) (e : Instance) (post : List Instance)
      → IsAscending (to_list t)
      → to_list t ≡ rev_append (e ∷ rev) post
      → l.prev t e ≡ head? rev
