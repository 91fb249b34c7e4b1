-- ===== src/Index/Clear.antt =====
-- `clear_index` of src/index.c: what is left of an index.
use epx_c.Base.{
  ℕ, zero, suc, ◌≤◌, ◌≡◌, refl, subst, true, false, Option, none, some, List, [], ◌∷◌, head?,
  length, ltb, if◌then◌else◌, Outcome, ok, Bool-cases, inl, inr, arith,
}
use epx_c.Message.{State, bits}
use epx_c.Instance.{Instance, is_state}
use epx_c.Extern.{Externals}
use epx_c.Extern.Laws.{LlrbLaws, IsAscending}
use epx_c.Index.{clear_loop, clear_index}

abbrev pub before : Option Instance → List Instance → List Instance
before none cs = cs
before (some e) cs = e ∷ cs

-- Of the executed instances at the front, the last is left; `seen` is the one before `cs`.
abbrev pub cleared : Option Instance → List Instance → List Instance
cleared seen [] = before seen []
cleared seen (c ∷ cs) =
    if ltb (bits c.status) (bits State.executed) then before seen (c ∷ cs) else cleared (some c) cs

is_executed_lem :
    (s : State)
    → ltb (bits s) (bits State.executed) ≡ false
    → is_state (bits s) (bits State.executed) ≡ true
is_executed_lem State.executed h = refl
is_executed_lem State.zeroed h = absurd (ground arith)
is_executed_lem State.none h = absurd (ground arith)
is_executed_lem State.pre_accepted h = absurd (ground arith)
is_executed_lem State.pre_accepted_eq h = absurd (ground arith)
is_executed_lem State.accepted h = absurd (ground arith)
is_executed_lem State.preparing h = absurd (ground arith)
is_executed_lem State.try_pre_accepting h = absurd (ground arith)
is_executed_lem State.committed h = absurd (ground arith)

module _ (x : Externals) (laws : LlrbLaws x.llrb) where
  -- what is left, and that it is
  abbrev Leaves : Outcome x.Tree → List Instance → Type 0
  Leaves o cs = (t : x.Tree) × (o ≡ ok t) × (laws.to_list t ≡ cs)

  clear_loop_lem :
      (fuel : ℕ) (seen : Option Instance) (cs : List Instance) (t : x.Tree)
      → IsAscending (laws.to_list t)
      → laws.to_list t ≡ before seen cs
      → length cs ≤ fuel
      → Leaves (clear_loop x fuel (head? cs) seen t) (cleared seen cs)
  unfolding clear_loop
  clear_loop_lem fuel seen [] t a e h = (t, refl, e)
  clear_loop_lem zero seen (c ∷ cs) t a e h = absurd (omega arith)
  clear_loop_lem (suc fuel) none (c ∷ cs) t a e h =
      elim (Bool-cases (ltb (bits c.status) (bits State.executed))) [
        | inl p ↦ (t, ground arith, ground arith)
        | inr p ↦
            rw (p, is_executed_lem c.status p, laws.next_lem t [] c cs a e)
              (clear_loop_lem fuel (some c) cs t a e (omega arith))
      ]
  clear_loop_lem (suc fuel) (some s) (c ∷ cs) t a e h =
      elim (Bool-cases (ltb (bits c.status) (bits State.executed))) [
        | inl p ↦ (t, ground arith, ground arith)
        | inr p ↦
            rw (p, is_executed_lem c.status p, laws.next_lem t (s ∷ []) c cs a e)
              (let gone = laws.to_list-delete t [] s (c ∷ cs) a e in
                clear_loop_lem fuel (some c) cs (x.delete t s) (rw gone (subst IsAscending e a).1)
                  gone (omega arith))
      ]

-- For an index whose elements are in ascending order, `clear_index` returns, and leaves the index
-- without the executed instances at its front but the last of them.
pub clear_index_lem :
    (x : Externals) (laws : LlrbLaws x.llrb) (index : x.Tree)
    → IsAscending (laws.to_list index)
    → (t : x.Tree) × (clear_index x index ≡ ok t)
      × (laws.to_list t ≡ cleared none (laws.to_list index))
unfolding clear_index
clear_index_lem x laws index a =
    rw (laws.first_lem index, laws.size_lem index)
      (clear_loop_lem x laws (length (laws.to_list index)) none (laws.to_list index) index a refl
        (omega arith))
