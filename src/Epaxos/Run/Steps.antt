-- ===== src/Epaxos/Run/Steps.antt =====
-- `step` and `propose` of src/epaxos.c, for the indexes.
use epx_c.Base.{
  ℕ, ◌<◌, ◌≡◌, refl, sym, ap, subst, ◌∙◌, Bool, true, false, Option, none, some, ◌+◌, if◌then◌else◌,
  ok, Ensures, Ensures-bind, Ensures-ok, Outcome-cases, Option-cases, Bool-cases, inl, inr, arith,
}
use epx_c.Epx.{n_replicas}
use epx_c.InstanceId.{InstanceId, u64}
use epx_c.Message.{State, Message, MessageType}
use epx_c.Instance.{Instance, zero_instance, zero_tracker, zero_recovery, new_instance, new_tracker}
use epx_c.Instance.Deps.Sorted.{IsValid}
use epx_c.Extern.{Externals}
use epx_c.Extern.Laws.{LlrbLaws}
use epx_c.Index.Valid.{zero_deps-IsValid}
use epx_c.Replica.{Replica, alloc, find_instance, register_instance, max_local, init_timeout}
use epx_c.Epaxos.{World}
use epx_c.Epaxos.Progress.{progress, after, progress_stored, step_new, step, new_local, propose}
use epx_c.Epaxos.Indexes.{
  IndexesAreValid, PlaceIsValid, store-IndexesAreValid, find_instance-PlaceIsValid,
  register_instance-IndexesAreValid,
}
use epx_c.Epaxos.Fits.{IsSound}
use epx_c.Epaxos.Fits.Progress.{progress-IsSound}

module _ (x : Externals) (l : LlrbLaws x.llrb) where
  -- a result with a replica whose indexes are valid
  abbrev pub Gives : Bool × Replica x → Type 0
  Gives (b, r) = IndexesAreValid x l r.index

  pub after-IndexesAreValid :
      (k : InstanceId) (w : World x)
      → k.replica_id < n_replicas
      → IsSound x l k w
      → IndexesAreValid x l (after w).index
  after-IndexesAreValid k w h v =
      store-IndexesAreValid x l w.r w.i
        (subst (λ n. n.replica_id < n_replicas) (sym v.key) h, v.own, v.recorded) v.indexes

  progress_stored-Gives :
      (w : World x)
      → PlaceIsValid x l w.i
      → IsValid w.m.deps
      → IndexesAreValid x l w.r.index
      → Ensures Gives (progress_stored w)
  unfolding progress_stored
  progress_stored-Gives w p d v =
      Ensures-bind (IsSound x l w.i.key) Gives (progress w) _
        (λ w' s. after-IndexesAreValid w.i.key w' p.0 s)
        (progress-IsSound x l w.i.key p.0 w
          (record { own = p.1; recorded = p.2; received = d; indexes = v; key = refl }))

  -- what `new_instance` gives, with a key
  abbrev made : InstanceId → Instance
  made k = record zero_instance { status = State.none; key = k }

  step_new-Gives :
      (r : Replica x) (m : Message)
      → m.id.replica_id < n_replicas
      → IsValid m.deps
      → IndexesAreValid x l r.index
      → Ensures Gives (step_new r m)
  unfolding step_new new_instance
  step_new-Gives r m h d v = elim (Bool-cases (alloc r).0) [
    | inr e ↦ ground arith
    | inl e ↦ elim (Outcome-cases (register_instance (alloc r).1 (made m.id))) [
      | inr (f, g) ↦ ground arith
      | inl ((b, r2), g) ↦
          let kept = Ensures-ok Gives (register_instance (alloc r).1 (made m.id)) {a = (b, r2)} g (
            register_instance-IndexesAreValid x l (alloc r).1 (made m.id) (h, zero_deps-IsValid, tt)
              v) in
          ground (
            arith,
            progress_stored-Gives (record { r = init_timeout r2 (made m.id); i = made m.id; m = m })
                (h, zero_deps-IsValid, tt) d kept,
          )
    ]
  ]

  find_instance-bound :
      (r : Replica x) (id : InstanceId) {o : Option Instance}
      → find_instance r id ≡ ok o
      → id.replica_id < n_replicas
  unfolding find_instance
  find_instance-bound r id e = ground arith

  pub found-PlaceIsValid :
      (r : Replica x) (id : InstanceId) {i : Instance}
      → IndexesAreValid x l r.index
      → find_instance r id ≡ ok (some i)
      → PlaceIsValid x l i
  found-PlaceIsValid r id {i} v e = find_instance-PlaceIsValid x l r id {i = i} v e

  pub step-Gives :
      (r : Replica x) (m : Message)
      → IsValid m.deps
      → IndexesAreValid x l r.index
      → Ensures Gives (step r m)
  unfolding step
  step-Gives r m d v = elim (Outcome-cases (find_instance r m.id)) [
    | inr (f, e) ↦ ground arith
    | inl (o, e) ↦ elim (Option-cases o) [
      | inl n ↦ ground (arith, step_new-Gives r m (find_instance-bound r m.id {o = o} e) d v)
      | inr (i, n) ↦
          let p = found-PlaceIsValid r m.id {i = i} v (e ∙ ap ok n) in
          ground (arith, progress_stored-Gives (record { r = r; i = i; m = m }) p d v)
    ]
  ]

  -- what `new_local` gives: an instance that may be written to its place, and the replica
  abbrev pub GivesLocal : Option Instance × Replica x → Type 0
  GivesLocal (none, r) = IndexesAreValid x l r.index
  GivesLocal (some i, r) = PlaceIsValid x l i × IndexesAreValid x l r.index

  max_local-bound : (r : Replica x) {n : ℕ} → max_local r ≡ ok n → r.id < n_replicas
  unfolding max_local
  max_local-bound r e = ground arith

  -- the instance of a proposal
  abbrev proposed : ℕ → ℕ → Instance
  proposed id number = record zero_instance {
    status = State.none;
    lt = some (record zero_tracker {
      ri = record zero_recovery { status = State.none };
      recovery_status = State.none;
    });
    key = record { instance_id = u64 (number + 1); replica_id = id };
  }

  registered-GivesLocal :
      (r : Replica x) (i : Instance) (b : Bool) (r' : Replica x)
      → PlaceIsValid x l i
      → IndexesAreValid x l r.index
      → register_instance r i ≡ ok (b, r')
      → GivesLocal (if b then some i else none, r')
  registered-GivesLocal r i true r' p v e = (
    p,
    Ensures-ok Gives (register_instance r i) {a = (true, r')} e
        (register_instance-IndexesAreValid x l r i p v),
  )
  registered-GivesLocal r i false r' p v e =
      Ensures-ok Gives (register_instance r i) {a = (false, r')} e
        (register_instance-IndexesAreValid x l r i p v)

  new_local_steps :
      (r : Replica x) (number : ℕ) (b : Bool) (r3 : Replica x)
      → (alloc r).0 ≡ true
      → (alloc (alloc r).1).0 ≡ true
      → max_local (alloc (alloc r).1).1 ≡ ok number
      → register_instance (alloc (alloc r).1).1 (proposed r.id number) ≡ ok (b, r3)
      → new_local r ≡ ok (if b then some (proposed r.id number) else none, r3)
  unfolding new_local new_instance new_tracker
  new_local_steps r number b r3 e f q s = ground arith

  pub new_local-GivesLocal :
      (r : Replica x) → IndexesAreValid x l r.index → Ensures GivesLocal (new_local r)
  unfolding new_local new_instance new_tracker
  new_local-GivesLocal r v = elim (Bool-cases (alloc r).0) [
    | inr e ↦ ground arith
    | inl e ↦ elim (Bool-cases (alloc (alloc r).1).0) [
      | inr f ↦ ground arith
      | inl f ↦ elim (Outcome-cases (max_local (alloc (alloc r).1).1)) [
        | inr (g, q) ↦ ground arith
        | inl (number, q) ↦
            let r2 = (alloc (alloc r).1).1 in
            let i = proposed r2.id number in
            elim (Outcome-cases (register_instance r2 i)) [
              | inr (g, s) ↦ ground arith
              | inl ((b, r3), s) ↦
                  let given =
                    registered-GivesLocal r2 i b r3
                      (max_local-bound r2 {n = number} q, zero_deps-IsValid, zero_deps-IsValid) v
                      s in
                  subst (Ensures GivesLocal) (sym (new_local_steps r number b r3 e f q s)) given
            ]
      ]
    ]
  ]

  pub propose-Gives :
      (r : Replica x) (m : Message)
      → IsValid m.deps
      → IndexesAreValid x l r.index
      → Ensures Gives (propose r m)
  unfolding propose
  propose-Gives r m d v =
      Ensures-bind GivesLocal Gives (new_local r) _ (λ made g. proposed-Gives made.0 made.1 g)
        (new_local-GivesLocal r v)
    where
      proposed-Gives :
          (o : Option Instance) (r1 : Replica x)
          → GivesLocal (o, r1)
          → Ensures Gives (elim o [
            | none ↦ ok (false, r1)
            | some i ↦
                progress_stored
                  (record { r = r1; i = i; m = record m { type = MessageType.phase1 } })
          ])
      proposed-Gives none r1 g = g
      proposed-Gives (some i) r1 g =
          progress_stored-Gives
            (record { r = r1; i = i; m = record m { type = MessageType.phase1 } }) g.0 d g.1
