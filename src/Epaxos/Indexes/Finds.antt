-- ===== src/Epaxos/Indexes/Finds.antt =====
-- `find_instance` of src/replica.c after `register_instance`.
use epx_c.Base.{
  ℕ, ◌<◌, ◌≡◌, ◌≢◌, refl, Ensures-ok, sym, subst, ◌∙◌, ap, inl, inr, Bool, true, false, Option,
  none, some, List, [], ◌∷◌, get_or-set_self, get_or-set_ne, out_of_bounds, Bool-cases, ltb, ◌==◌,
  if◌then◌else◌, ok, fault, ◌>>=◌, arith,
}
use epx_c.Epx.{n_replicas}
use epx_c.InstanceId.{InstanceId}
use epx_c.Instance.{Instance}
use epx_c.Extern.{Externals}
use epx_c.Extern.Laws.{LlrbLaws, num, find_in, insert_in, insert_result}
use epx_c.Replica.{Replica, tree, set_index, find_instance, register_instance}
use epx_c.Epaxos.Indexes.{
  IndexesAreValid, PlaceIsValid, index-EntriesAreValid, register_instance-IndexesAreValid,
}

same_id : (a b : InstanceId) → a.replica_id ≡ b.replica_id → a.instance_id ≡ b.instance_id → b ≡ a
same_id a b h k = ground arith

find_in-insert_in :
    (xs : List Instance) (e : Instance)
    → find_in xs (num e) ≡ none
    → find_in (insert_in xs e) (num e) ≡ some e
find_in-insert_in [] e h = ground arith
find_in-insert_in (x ∷ xs) e h = ground (arith, find_in-insert_in xs e)

find_in-insert_in_ne :
    (xs : List Instance) (e : Instance) (k : ℕ)
    → num e ≢ k
    → find_in (insert_in xs e) k ≡ find_in xs k
find_in-insert_in_ne [] e k h = ground arith
find_in-insert_in_ne (x ∷ xs) e k h = ground (arith, find_in-insert_in_ne xs e k)

module _ (x : Externals) (l : LlrbLaws x.llrb) where
  -- what `find_instance` finds of a replica's number that is one
  finds :
      (r : Replica x) (id : InstanceId)
      → id.replica_id < n_replicas
      → IndexesAreValid x l r.index
      → find_instance r id ≡ ok (find_in (l.to_list (tree r id.replica_id)) id.instance_id)
  unfolding find_instance
  finds r id h v =
      let order = (index-EntriesAreValid x l r id.replica_id h v).0 in
      let found = l.find_lem (tree r id.replica_id) id.instance_id order in ground (arith, found)

  abbrev added : Replica x → Instance → Replica x
  added r i = set_index r i.key.replica_id (x.insert (tree r i.key.replica_id) i).1

  register_instance_steps :
      (r : Replica x) (i : Instance) (o : Option Instance)
      → i.key.replica_id < n_replicas
      → (x.insert (tree r i.key.replica_id) i).0 ≡ o
      → register_instance r i ≡ ok (elim o [ none ↦ true | some e ↦ false ], added r i)
  unfolding register_instance
  register_instance_steps r i none h e = ground arith
  register_instance_steps r i (some t) h e = ground arith

  outside :
      (r : Replica x) (id : InstanceId)
      → ltb id.replica_id n_replicas ≡ false
      → find_instance r id ≡ fault out_of_bounds
  unfolding find_instance
  outside r id h = rw h refl

  -- What `register_instance` makes of a search that gives `o`, for the key of the instance.
  abbrev pub Registers : Replica x → Instance → Replica x → Option Instance → Type 0
  Registers r i r' none =
      (register_instance r i ≡ ok (true, r')) × (find_instance r' i.key ≡ ok (some i))
  Registers r i r' (some t) =
      (register_instance r i ≡ ok (false, r')) × (find_instance r' i.key ≡ ok (some t))

  module _ (r : Replica x) (i : Instance) (v : IndexesAreValid x l r.index)
      (p : PlaceIsValid x l i) where
    added-valid : IndexesAreValid x l (added r i).index
    added-valid =
        Ensures-ok (λ (w : Bool × Replica x). IndexesAreValid x l (w.1).index)
          (register_instance r i) {a = (_, added r i)} (register_instance_steps r i _ p.0 refl)
          (register_instance-IndexesAreValid x l r i p v)

    added-list :
        l.to_list (tree (added r i) i.key.replica_id)
        ≡ insert_result
            (find_in (l.to_list (tree r i.key.replica_id)) (num i))
            (l.to_list (tree r i.key.replica_id))
            i
    added-list =
        ap l.to_list
          (get_or-set_self r.index i.key.replica_id _ x.empty (omega (arith, v.count, p.0)))
        ∙ l.to_list-insert (tree r i.key.replica_id) i
            (index-EntriesAreValid x l r i.key.replica_id p.0 v).0

    insert_rejects :
        {o : Option Instance}
        → find_in (l.to_list (tree r i.key.replica_id)) (num i) ≡ o
        → (x.insert (tree r i.key.replica_id) i).0 ≡ o
    insert_rejects h =
        l.insert_rejects (tree r i.key.replica_id) i
          (index-EntriesAreValid x l r i.key.replica_id p.0 v).0
        ∙ h

    registers :
        (o : Option Instance)
        → find_in (l.to_list (tree r i.key.replica_id)) (num i) ≡ o
        → Registers r i (added r i) o
    registers none h = (
      register_instance_steps r i none p.0 (insert_rejects h),
      finds (added r i) i.key p.0 added-valid
          ∙ ap (λ xs. ok (find_in xs (num i)))
              (added-list ∙ ap (λ o. insert_result o (l.to_list (tree r i.key.replica_id)) i) h)
          ∙ ap ok (find_in-insert_in (l.to_list (tree r i.key.replica_id)) i h),
    )
    registers (some t) h = (
      register_instance_steps r i (some t) p.0 (insert_rejects h),
      finds (added r i) i.key p.0 added-valid
          ∙ ap (λ xs. ok (find_in xs (num i)))
              (added-list ∙ ap (λ o. insert_result o (l.to_list (tree r i.key.replica_id)) i) h)
          ∙ ap ok h,
    )

    other_replica :
        (id : InstanceId)
        → i.key.replica_id ≢ id.replica_id
        → find_instance (added r i) id ≡ find_instance r id
    unfolding find_instance
    other_replica id d =
        ap
          (λ t. (if ltb id.replica_id n_replicas then ok t else fault out_of_bounds) >>= λ t.
            ok (x.find t id.instance_id))
          (get_or-set_ne r.index _ x.empty d)

    other_list :
        (k : ℕ) (o : Option Instance)
        → num i ≢ k
        → find_in (insert_result o (l.to_list (tree r i.key.replica_id)) i) k
          ≡ find_in (l.to_list (tree r i.key.replica_id)) k
    other_list k none d = find_in-insert_in_ne (l.to_list (tree r i.key.replica_id)) i k d
    other_list k (some t) d = refl

    other_number :
        (id : InstanceId)
        → i.key.replica_id ≡ id.replica_id
        → num i ≢ id.instance_id
        → id.replica_id < n_replicas
        → find_instance (added r i) id ≡ find_instance r id
    other_number id e d h =
        finds (added r i) id h added-valid
        ∙ ap ok (
            subst
              (λ rc.
                find_in (l.to_list (tree (added r i) rc)) id.instance_id
                ≡ find_in (l.to_list (tree r rc)) id.instance_id)
              e (ap (λ xs. find_in xs id.instance_id) added-list ∙ other_list id.instance_id _ d))
        ∙ sym (finds r id h v)

    others : (id : InstanceId) → id ≢ i.key → find_instance (added r i) id ≡ find_instance r id
    others id n = elim (Bool-cases (ltb id.replica_id n_replicas)) [
      | inr q ↦ outside (added r i) id q ∙ sym (outside r id q)
      | inl q ↦ elim (Bool-cases (i.key.replica_id == id.replica_id)) [
        | inr d ↦ other_replica id (ground arith)
        | inl d ↦
            other_number id (ground arith) (λ k. n (same_id i.key id (ground arith) k))
              (ground arith)
      ]
    ]

-- With valid indexes, for an instance of one of the replicas: if `find_instance` finds none with its
-- key, `register_instance` returns 0, and then it finds the instance; if it finds one,
-- `register_instance` returns -1, and that one is still found. What is found for any other key is
-- as before.
pub find_instance-register_instance :
    (x : Externals) (l : LlrbLaws x.llrb) (r : Replica x) (i : Instance)
    → IndexesAreValid x l r.index
    → PlaceIsValid x l i
    → (o : Option Instance) × (r' : Replica x) × (find_instance r i.key ≡ ok o)
      × Registers x l r i r' o
      × ((id : InstanceId) → id ≢ i.key → find_instance r' id ≡ find_instance r id)
find_instance-register_instance x l r i v p = (
  find_in (l.to_list (tree r i.key.replica_id)) (num i),
  added x l r i,
  finds x l r i.key p.0 v,
  registers x l r i v p _ refl,
  others x l r i v p,
)
