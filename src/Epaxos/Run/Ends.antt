-- ===== src/Epaxos/Run/Ends.antt =====
-- How the loop of `run` of src/epaxos.c ends by an error.
use epx_c.Base.{
  ◌≡◌, refl, ◌⊎◌, Bool, true, false, none, List, ◌∷◌, ◌++◌, if◌then◌else◌, Outcome, ok, ◌>>=◌,
}
use epx_c.Instance.{Instance}
use epx_c.Message.{Message}
use epx_c.Extern.{Externals}
use epx_c.Replica.{Replica, find_instance}
use epx_c.Epaxos.Progress.{new_local}
use epx_c.Epaxos.Run.Loop.{Input, ticks, receives, submits, run_turn, run_loop}

module _ {x : Externals} where
  -- How an input ends the loop: no tick does; a message does whose instance number is 0, or whose
  -- instance the replica does not have and cannot take in; and a proposal for which no instance is
  -- made.
  abbrev pub EndsBy : Input → Replica x → Replica x → Type 0
  EndsBy (ticks due) r r' = ⊥
  EndsBy (receives m) r r' = ((m.id.instance_id ≡ 0) × (r' ≡ r)) ⊎ (find_instance r m.id ≡ ok none)
  EndsBy (submits m) r r' = new_local r ≡ ok (none, r')

  -- what the loop does with the result of a turn
  abbrev go_on : List Input → Bool × Replica x → Outcome (Bool × Replica x)
  go_on inputs (go, r) = if go then run_loop inputs r else ok (false, r)

  run_loop_step :
      (i : Input) (inputs : List Input) (r : Replica x)
      → run_loop (i ∷ inputs) r ≡ (run_turn i r >>= go_on inputs)
  unfolding run_loop
  run_loop_step i inputs r = refl

  -- the two kinds of a result
  abbrev going : Replica x → Outcome (Bool × Replica x)
  going r = ok (true, r)

  abbrev ended : Replica x → Outcome (Bool × Replica x)
  ended r = ok (false, r)

  -- The inputs in front of one, which the loop goes through, and the one that ends it.
  abbrev pub EndsAt : List Input → Replica x → Replica x → Type 0
  EndsAt inputs r r' =
      (before : List Input) × (i : Input) × (rest : List Input) × (r1 : Replica x) × (inputs
        ≡ before ++ (i ∷ rest))
      × (run_loop before r ≡ ok (true, r1))
      × EndsBy i r1 r'
