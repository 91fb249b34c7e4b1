-- ===== src/Epaxos/Run/Loop.antt =====
-- `tick` of src/replica.c, the timeouts' callbacks and the loop of `run` of src/epaxos.c, as they
-- run: what `choose` gives and which timers are due are arguments.
use epx_c.Base.{
  ◌≡◌, refl, Bool, true, false, Option, none, some, List, [], ◌∷◌, All, Outcome, ok, fault,
  null_deref, ◌>>=◌, Ensures, Ensures-bind, subst, if◌then◌else◌,
}
use epx_c.InstanceId.{InstanceId}
use epx_c.Message.{Message}
use epx_c.Instance.{Instance}
use epx_c.Instance.Deps.Sorted.{IsValid}
use epx_c.Extern.{Externals}
use epx_c.Replica.{Replica, find_instance}
use epx_c.Epaxos.Progress.{step, propose, checkpoint, slow_path_timeout, fast_path_timeout}
use epx_c.Epaxos.Run.{
  new_replica, Reach, steps, proposes, checkpoints, slow_times_out, fast_times_out, start, later,
}

-- A timer that is due, with its callback: those of an instance, and that of the checkpoint. The
-- message is the content of the memory that the callback allocates.
pub data Due : Type 0 where
  fast_due slow_due : InstanceId → Message → Due
  checkpoint_due : Message → Due

-- What `choose` gives: a tick, and the timers that are due by it, in the order of `timeouts_get`;
-- a message of a node; or one of a client.
pub data Input : Type 0 where
  ticks : List Due → Input
  receives submits : Message → Input

-- the dependencies of the messages, and of zeroed memory, are in order
abbrev DueIsValid : Due → Type 0
DueIsValid (slow_due key zeroed) = IsValid zeroed.deps
DueIsValid _ = Unit

abbrev pub InputIsValid : Input → Type 0
InputIsValid (ticks due) = All DueIsValid due
InputIsValid (receives m) = IsValid m.deps
InputIsValid (submits m) = IsValid m.deps

found_then :
    {A : Type 0} (P : A → Type 0) (found : Outcome (Option Instance)) (g : Instance → Outcome A)
    → ((i : Instance) → found ≡ ok (some i) → Ensures P (g i))
    → Ensures P (found >>= λ o. elim o [ none ↦ fault null_deref | some i ↦ g i ])
found_then P (fault f) g h = tt
found_then P (ok none) g h = tt
found_then P (ok (some i)) g h = h i refl

-- what holds of a result that a step may give
each_result :
    {A : Type 0} (P : A → Type 0) (m : Outcome A) → ((a : A) → m ≡ ok a → P a) → Ensures P m
each_result P (ok a) h = h a refl
each_result P (fault f) h = tt

module _ {x : Externals} where
  -- `checkpoint(i->r, NULL)`
  unfoldable pub checkpoint_timeout : Replica x → Message → Outcome (Replica x)
  checkpoint_timeout r garbage = checkpoint r none garbage

  -- a callback on the instance as it stands in its index
  abbrev on_instance :
      (Replica x → Instance → Message → Outcome (Replica x))
      → Replica x
      → InstanceId
      → Message
      → Outcome (Replica x)
  on_instance callback r key m = find_instance r key >>= λ found. elim found [
    | none ↦ fault null_deref
    | some i ↦ callback r i m
  ]

  abbrev pub fire : Due → Replica x → Outcome (Replica x)
  fire (fast_due key garbage) r = on_instance fast_path_timeout r key garbage
  fire (slow_due key zeroed) r = on_instance slow_path_timeout r key zeroed
  fire (checkpoint_due garbage) r = checkpoint_timeout r garbage

  -- The loop over the timers that are due; a callback sets none that is due at once.
  unfoldable pub tick : List Due → Replica x → Outcome (Replica x)
  tick [] r = ok r
  tick (d ∷ ds) r = fire d r >>= λ r'. tick ds r'

  -- the switch of `run`
  unfoldable pub run_turn : Input → Replica x → Outcome (Bool × Replica x)
  run_turn (ticks due) r = tick due r >>= λ r'. ok (true, r')
  run_turn (receives m) r = step r m
  run_turn (submits m) r = propose r m

  -- The loop of `run`, while the node runs: the result is `false` where the thread ends by an error.
  unfoldable pub run_loop : List Input → Replica x → Outcome (Bool × Replica x)
  run_loop [] r = ok (true, r)
  run_loop (i ∷ inputs) r = run_turn i r >>= λ (go, r').
      let rest = run_loop inputs r' in if go then rest else ok (false, r')

  unfoldable pub run : List Input → Replica x → Outcome (Bool × Replica x)
  run inputs r = run_loop inputs (new_replica r)

  module _ (r0 : Replica x) where
    fire-Reach :
        (d : Due) (r : Replica x) → DueIsValid d → Reach r0 r → Ensures (Reach r0) (fire d r)
    unfolding checkpoint_timeout
    fire-Reach (fast_due key garbage) r v h = found_then (Reach r0) (find_instance r key) _ (λ i f.
        each_result (Reach r0) (fast_path_timeout r i garbage)
          (λ r' e. later h (fast_times_out key garbage f e)))
    fire-Reach (slow_due key zeroed) r v h = found_then (Reach r0) (find_instance r key) _ (λ i f.
        each_result (Reach r0) (slow_path_timeout r i zeroed)
          (λ r' e. later h (slow_times_out key zeroed f v e)))
    fire-Reach (checkpoint_due garbage) r v h =
        each_result (Reach r0) (checkpoint_timeout r garbage)
          (λ r' e. later h (checkpoints none garbage e))

    tick-Reach :
        (due : List Due) (r : Replica x)
        → All DueIsValid due
        → Reach r0 r
        → Ensures (Reach r0) (tick due r)
    unfolding tick
    tick-Reach [] r v h = h
    tick-Reach (d ∷ due) r v h =
        Ensures-bind (Reach r0) (Reach r0) (fire d r) _ (λ r' h'. tick-Reach due r' v.1 h')
          (fire-Reach d r v.0 h)

    abbrev Reached : Bool × Replica x → Type 0
    Reached p = Reach r0 p.1

    run_turn-Reach :
        (i : Input) (r : Replica x) → InputIsValid i → Reach r0 r → Ensures Reached (run_turn i r)
    unfolding run_turn
    run_turn-Reach (ticks due) r v h =
        Ensures-bind (Reach r0) Reached (tick due r) _ (λ r' h'. h') (tick-Reach due r v h)
    run_turn-Reach (receives m) r v h =
        each_result Reached (step r m) (λ p e. later h (steps m v e))
    run_turn-Reach (submits m) r v h =
        each_result Reached (propose r m) (λ p e. later h (proposes m v e))

    run_loop-Reach :
        (inputs : List Input) (r : Replica x)
        → All InputIsValid inputs
        → Reach r0 r
        → Ensures Reached (run_loop inputs r)
    unfolding run_loop
    run_loop-Reach [] r v h = h
    run_loop-Reach (i ∷ inputs) r v h =
        Ensures-bind Reached Reached (run_turn i r) _
          (λ p h'. go_on p.0 p.1 h' (run_loop-Reach inputs p.1 v.1 h')) (run_turn-Reach i r v.0 h)
      where
        go_on :
            (go : Bool) (r' : Replica x)
            → Reach r0 r'
            → Ensures Reached (run_loop inputs r')
            → Ensures Reached (if go then run_loop inputs r' else ok (false, r'))
        go_on true r' h' rest = rest
        go_on false r' h' rest = h'

-- `run` does what the turns allow: whatever `choose` gives, with the dependencies of messages in
-- order, if its loop has come to a replica, this replica is reached by turns from a new one.
pub run-Reach :
    (x : Externals) (inputs : List Input) (r0 r : Replica x) (go : Bool)
    → All InputIsValid inputs
    → run inputs r0 ≡ ok (go, r)
    → Reach r0 r
unfolding run
run-Reach x inputs r0 r go v e =
    subst (Ensures (λ p. Reach r0 p.1)) e (run_loop-Reach r0 inputs (new_replica r0) v start)
